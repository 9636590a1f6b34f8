-- ===== src/Tables/RawSource/Bound.antt =====
-- Which tables `load_for` of src/processing/tables/raw_source.py returns.
use evidence_first_investmen.Base.{
  ℕ, String, true, ◌≡◌, refl, sym, ap, inl, inr, Option, some, List, [], ◌∷◌, Memᴰ, map,
  mem-cons-cases, Bool-cases, str_eq, str_eq_iff, Outcome, ok, ok-injective, ok-pair-injective,
  >>=-eq-ok, some_inj,
}
use evidence_first_investmen.Pipeline.Merge.{sorts_below, insert_table, sort_tables}
use evidence_first_investmen.Tables.{
  TableExtractionContext, ExtractedCell, ExtractedRow, ExtractedTable, TableExtractionResult,
}
use evidence_first_investmen.Tables.RawSource.{
  Loading, Sidecar, declared_sha, bind, bind_cell, bind_row, bind_to_processing_context,
  select_tables, result_of, load_for,
}

-- The texts of a table, row by row.
abbrev pub texts_of : ExtractedTable → List (List String)
texts_of table =
    map (λ (row : ExtractedRow). map (λ (cell : ExtractedCell). cell.raw_text) row.cells) table.rows

insert_table-mem :
    (t : ExtractedTable) (ts : List ExtractedTable) {x : ExtractedTable}
    → Memᴰ x (insert_table t ts)
    → Memᴰ x (t ∷ ts)
insert_table-mem t [] m = m
insert_table-mem t (s ∷ ts) m = elim (Bool-cases (sorts_below s t)) [
  | inr f ↦ rw f at m
  | inl y ↦ elim (mem-cons-cases (rw y at m)) [
    | inl e ↦ Memᴰ.tail (Memᴰ.head e)
    | inr k ↦ elim (mem-cons-cases (insert_table-mem t ts k)) [
      | inl e ↦ Memᴰ.head e
      | inr n ↦ Memᴰ.tail (Memᴰ.tail n)
    ]
  ]
]

-- The sort makes up no table.
sort_tables-mem :
    (ts : List ExtractedTable) {x : ExtractedTable} → Memᴰ x (sort_tables ts) → Memᴰ x ts
unfolding sort_tables
sort_tables-mem [] m = m
sort_tables-mem (t ∷ ts) m = elim (mem-cons-cases (insert_table-mem t (sort_tables ts) m)) [
  | inl e ↦ Memᴰ.head e
  | inr k ↦ Memᴰ.tail (sort_tables-mem ts k)
]

-- The table comes from a sidecar that declares the digest, bound to the context.
pub record Proven (uuid_text : ℕ → String) (context : TableExtractionContext)
    (source_sha256 : String) (sidecars : List Sidecar) (t : ExtractedTable) : Type 0 where
  pub sidecar : Sidecar
  pub listed : Memᴰ sidecar sidecars
  pub table : ExtractedTable
  pub sha : Option String
  pub content : sidecar.content ≡ Loading.loaded table sha
  pub declares : declared_sha table sha ≡ source_sha256
  pub same_texts : texts_of t ≡ texts_of table
  pub same_place : (t.page ≡ table.page) × (t.table_index ≡ table.table_index)
  pub identity :
      (t.document_id ≡ context.document_id)
      × (t.artifact_id ≡ context.artifact_id)
      × (t.source_sha256 ≡ context.source_sha256)

module _ (uuid_text : ℕ → String) (context : TableExtractionContext) where
  bind_cells-texts :
      (id : String) (cells : List ExtractedCell)
      → map (λ (c : ExtractedCell). c.raw_text) (map (bind_cell uuid_text context id) cells)
        ≡ map (λ (c : ExtractedCell). c.raw_text) cells
  bind_cells-texts id [] = refl
  bind_cells-texts id (c ∷ cells) = ap (λ rest. c.raw_text ∷ rest) (bind_cells-texts id cells)

  bind_rows-texts :
      (id : String) (rows : List ExtractedRow)
      → map
          (λ (r : ExtractedRow). map (λ (c : ExtractedCell). c.raw_text) r.cells)
          (map (bind_row uuid_text context id) rows)
        ≡ map (λ (r : ExtractedRow). map (λ (c : ExtractedCell). c.raw_text) r.cells) rows
  bind_rows-texts id [] = refl
  bind_rows-texts id (r ∷ rows) = rw (bind_cells-texts id r.cells) (
      ap (λ rest. map (λ (c : ExtractedCell). c.raw_text) r.cells ∷ rest) (bind_rows-texts id rows))

  bind-texts : (table : ExtractedTable) → texts_of (bind uuid_text context table) ≡ texts_of table
  unfolding bind_to_processing_context
  bind-texts table = bind_rows-texts _ table.rows

  select_tables-Proven :
      (source_sha256 : String) (sidecars : List Sidecar) (tables : List ExtractedTable)
      (warnings : List String) (t : ExtractedTable)
      → select_tables uuid_text context source_sha256 sidecars ≡ ok (tables, warnings)
      → Memᴰ t tables
      → Proven uuid_text context source_sha256 sidecars t
  unfolding select_tables bind_to_processing_context
  select_tables-Proven source_sha256 [] tables warnings t h m =
      elim (rw (sym (ap (λ (p : List ExtractedTable × List String). p.0) (ok-injective h))) at
        m) [ ]
  select_tables-Proven source_sha256 (sidecar ∷ sidecars) tables warnings t h m =
      go sidecar.content refl (select_tables-Proven source_sha256 sidecars)
    where
      rest : Outcome (List ExtractedTable × List String)
      rest = select_tables uuid_text context source_sha256 sidecars

      more :
          Proven uuid_text context source_sha256 sidecars t
          → Proven uuid_text context source_sha256 (sidecar ∷ sidecars) t
      more p = record {
        sidecar = p.sidecar;
        listed = Memᴰ.tail p.listed;
        table = p.table;
        sha = p.sha;
        content = p.content;
        declares = p.declares;
        same_texts = p.same_texts;
        same_place = p.same_place;
        identity = p.identity;
      }

      first :
          (table : ExtractedTable) (sha : Option String)
          → sidecar.content ≡ Loading.loaded table sha
          → str_eq (declared_sha table sha) source_sha256 ≡ true
          → t ≡ bind uuid_text context table
          → Proven uuid_text context source_sha256 (sidecar ∷ sidecars) t
      first table sha e y same = rw same (record {
        sidecar = sidecar;
        listed = Memᴰ.head refl;
        table = table;
        sha = sha;
        content = e;
        declares = (str_eq_iff (declared_sha table sha) source_sha256).0 y;
        same_texts = bind-texts table;
        same_place = (refl, refl);
        identity = (refl, refl, refl);
      })

      go :
          (c : Loading)
          → sidecar.content ≡ c
          → ((ts : List ExtractedTable) (ws : List String) (x : ExtractedTable)
              → rest ≡ ok (ts, ws)
              → Memᴰ x ts
              → Proven uuid_text context source_sha256 sidecars x)
          → Proven uuid_text context source_sha256 (sidecar ∷ sidecars) t
      go (Loading.failing e') e ih = cc (rw (e, select_tables) at h)
      go (Loading.unreadable name) e ih =
          let ((ts, ws), e1, e2) = >>=-eq-ok rest _ (rw (e, select_tables) at h) in
          let (same, _) = ok-pair-injective e2 in more (ih ts ws t e1 (rw (sym same) at m))
      go (Loading.loaded table sha) e ih =
          let ((ts, ws), e1, e2) = >>=-eq-ok rest _ (rw (e, select_tables) at h) in
          let (same, _) = ok-pair-injective e2 in
          let m' = rw (sym same) at m in
          elim (Bool-cases (str_eq (declared_sha table sha) source_sha256)) [
            | inr f ↦ more (ih ts ws t e1 (rw f at m'))
            | inl y ↦ elim (mem-cons-cases (rw y at m')) [
              | inl eq ↦ first table sha e y eq
              | inr n ↦ more (ih ts ws t e1 n)
            ]
          ]

  result_of-mem :
      (ts : List ExtractedTable) (ws : List String) (r : TableExtractionResult) {x : ExtractedTable}
      → result_of uuid_text context (ts, ws) ≡ some r
      → Memᴰ x r.tables
      → Memᴰ x ts
  result_of-mem [] [] r h m = cc
  result_of-mem [] (w ∷ ws) r h m =
      rw (sym (ap (λ (s : TableExtractionResult). s.tables) (some_inj h))) at m
  result_of-mem (t ∷ ts) ws r h m =
      sort_tables-mem (t ∷ ts)
        (rw (sym (ap (λ (s : TableExtractionResult). s.tables) (some_inj h))) at m)

-- Every table that `load_for` returns comes from a sidecar that declares the digest of the processed
-- bytes. It has the texts and the place of the sidecar's table, and the identity of the context.
pub load_for-Proven :
    (uuid_text : ℕ → String) (context : TableExtractionContext) (source_sha256 : String)
    (sidecars : List Sidecar) (r : TableExtractionResult) (t : ExtractedTable)
    → load_for uuid_text context source_sha256 sidecars ≡ ok (some r)
    → Memᴰ t r.tables
    → Proven uuid_text context source_sha256 sidecars t
unfolding load_for
load_for-Proven uuid_text context source_sha256 sidecars r t h m =
    let ((ts, ws), e1, e2) =
      >>=-eq-ok (select_tables uuid_text context source_sha256 sidecars) _ h in
    select_tables-Proven uuid_text context source_sha256 sidecars ts ws t e1
      (result_of-mem uuid_text context ts ws r (ok-injective e2) m)
