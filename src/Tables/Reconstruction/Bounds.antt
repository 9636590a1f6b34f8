-- ===== src/Tables/Reconstruction/Bounds.antt =====
-- The columns of src/processing/tables/reconstruction.py stay inside their grid.
use evidence_first_investmen.Base.{
  ℕ, zero, suc, ◌+◌, ◌-◌, max, ◌≤◌, ◌<◌, pos, String, ◌≡◌, refl, sym, ap, inl, inr, Option, none,
  some, List, [], ◌∷◌, Memᴰ, map, select, select-mem, length, mem-cons-cases, Bool-cases, arith,
  some_inj, join, ℤ, ◌≤ℤ◌, ltb_ℤ,
}
use evidence_first_investmen.Ocr.{Score, finite, not_finite}
use evidence_first_investmen.Regex.{TextLibrary}
use evidence_first_investmen.Tables.{ExtractedCell, ExtractedRow, ExtractedTable, has_any}
use evidence_first_investmen.Tables.Reconstruction.{
  ColumnRole, ReconstructionContext, ReconstructedColumn, ReconstructedTable,
}
use evidence_first_investmen.Tables.Reconstruction.Rows.{Split, row_joined, split_header_band}
use evidence_first_investmen.Tables.Reconstruction.Columns.{
  merged_run, column_span, max_of, column_at, columns_at, columns_from_band, is_label, first_other,
  pick_from, pick_label_column,
}
use evidence_first_investmen.Tables.Reconstruction.Kinds.{
  ResolvedType, resolve_type, extract_unit_text,
}
use evidence_first_investmen.Tables.Reconstruction.Rebuild.{
  cap_confidence, lay_out, assemble, reconstruct,
}

merged_run-bounded : (cells : List ExtractedCell) → merged_run cells ≤ length cells
merged_run-bounded [] = omega arith
merged_run-bounded (cell ∷ cells) = ground (arith, merged_run-bounded cells)

column_span-bounded :
    (cells : List ExtractedCell) (col : ℕ)
    → col + column_span cells col ≤ max (length cells) (suc col)
unfolding column_span
column_span-bounded [] col = omega arith
column_span-bounded (cell ∷ cells) zero = ground (arith, merged_run-bounded cells)
column_span-bounded (cell ∷ cells) (suc col) = omega (arith, column_span-bounded cells col)

module _ {A : Type 0} where
  max_of-bounded :
      (f : A → ℕ) (xs : List A) (b : ℕ) → ((x : A) → Memᴰ x xs → f x ≤ b) → max_of (map f xs) ≤ b
  max_of-bounded f [] b h = omega arith
  max_of-bounded f (x ∷ xs) b h =
      omega (arith, h x (Memᴰ.head refl), max_of-bounded f xs b (λ y m. h y (Memᴰ.tail m)))

  mem-max_of : (f : A → ℕ) (xs : List A) {x : A} → Memᴰ x xs → f x ≤ max_of (map f xs)
  mem-max_of f [] m = elim m [ ]
  mem-max_of f (y ∷ ys) (Memᴰ.head e) = omega (arith, ap f e)
  mem-max_of f (y ∷ ys) (Memᴰ.tail m) = omega (arith, mem-max_of f ys m)

  length-map {κ} : {B : Type κ} (f : A → B) (xs : List A) → length (map f xs) ≡ length xs
  length-map f [] = refl
  length-map f (x ∷ xs) = ap suc (length-map f xs)

abbrev width_of : List ExtractedRow → ℕ
width_of band = max_of (map (λ (row : ExtractedRow). length row.cells) band)

-- A column with its span ends inside a grid of the width, and has a part for each row of the band.
pub record InGrid (width height : ℕ) (c : ReconstructedColumn) : Type 0 where
  pub ends : c.index + c.span ≤ width
  pub starts : c.index < width
  pub parts : length c.header_parts ≡ height

module _ (library : TextLibrary) (band : List ExtractedRow) where
  column_at-InGrid :
      (col : ℕ)
      → col < width_of band
      → InGrid (width_of band) (length band) (column_at library band col)
  column_at-InGrid col h = record {
    ends = ground (arith, spans, h);
    starts = h;
    parts = length-map _ band;
  }
    where
      spans :
          max_of (map (λ (row : ExtractedRow). column_span row.cells col) band)
          ≤ width_of band - col
      spans =
          max_of-bounded (λ (row : ExtractedRow). column_span row.cells col) band
            (width_of band - col)
            λ row m. omega (
              arith,
              column_span-bounded row.cells col,
              mem-max_of (λ (r : ExtractedRow). length r.cells) band m,
              h,
            )

  columns_at-InGrid :
      (col count : ℕ) (c : ReconstructedColumn)
      → col + count ≤ width_of band
      → Memᴰ c (columns_at library band col count)
      → InGrid (width_of band) (length band) c
  columns_at-InGrid col zero c h m = elim m [ ]
  columns_at-InGrid col (suc count) c h m = elim (mem-cons-cases m) [
    | inl e ↦ rw e (column_at-InGrid col (omega (arith, h)))
    | inr n ↦ columns_at-InGrid (suc col) count c (omega (arith, h)) n
  ]

  length-columns_at : (col count : ℕ) → length (columns_at library band col count) ≡ count
  length-columns_at col zero = refl
  length-columns_at col (suc count) = ap suc (length-columns_at (suc col) count)

  columns_from_band-InGrid :
      (c : ReconstructedColumn)
      → Memᴰ c (columns_from_band library band)
      → InGrid (length (columns_from_band library band)) (length band) c
  unfolding columns_from_band
  columns_from_band-InGrid c m =
      rw (length-columns_at 0 (width_of band))
        (columns_at-InGrid 0 (width_of band) c (omega arith) m)

first_other-index :
    (columns : List ReconstructedColumn) {i : ℕ}
    → first_other columns ≡ some i
    → (c : ReconstructedColumn) × Memᴰ c columns × (c.index ≡ i)
first_other-index [] h = cc
first_other-index (c ∷ columns) {i} h =
    go c.role refl λ h'. let (d, m, e) = first_other-index columns h' in (d, Memᴰ.tail m, e)
  where
    go :
        (role : ColumnRole)
        → c.role ≡ role
        → (first_other columns ≡ some i
            → (d : ReconstructedColumn) × Memᴰ d (c ∷ columns) × (d.index ≡ i))
        → (d : ReconstructedColumn) × Memᴰ d (c ∷ columns) × (d.index ≡ i)
    go ColumnRole.index e later = later (rw e at h)
    go ColumnRole.code e later = later (rw e at h)
    go ColumnRole.note e later = later (rw e at h)
    go ColumnRole.label e later = (c, Memᴰ.head refl, some_inj (rw e at h))
    go ColumnRole.value e later = (c, Memᴰ.head refl, some_inj (rw e at h))

pick_from-index :
    (columns labels : List ReconstructedColumn) {i : ℕ}
    → ((c : ReconstructedColumn) → Memᴰ c labels → Memᴰ c columns)
    → (pick_from columns labels).0 ≡ some i
    → (c : ReconstructedColumn) × Memᴰ c columns × (c.index ≡ i)
pick_from-index columns [] sub h = first_other-index columns h
pick_from-index columns (c ∷ []) sub h = (c, sub c (Memᴰ.head refl), some_inj h)
pick_from-index columns (c ∷ d ∷ labels) sub h = (c, sub c (Memᴰ.head refl), some_inj h)

pick_label_column-index :
    (columns : List ReconstructedColumn) {i : ℕ}
    → (pick_label_column columns).0 ≡ some i
    → (c : ReconstructedColumn) × Memᴰ c columns × (c.index ≡ i)
unfolding pick_label_column
pick_label_column-index columns h =
    pick_from-index columns (select (λ c. is_label c.role) columns)
      (λ c m. (select-mem (λ (x : ReconstructedColumn). is_label x.role) columns m).0) h

-- Every column ends inside the grid and has one part for each row of the band; the label column is one of
-- them; a confidence that is a number is at most 0.95.
pub record Bounded (t : ReconstructedTable) : Type 0 where
  pub columns :
      (c : ReconstructedColumn)
      → Memᴰ c t.columns
      → InGrid (length t.columns) (length t.header_band_row_indices) c
  pub label : (i : ℕ) → t.label_column_index ≡ some i → i < length t.columns
  pub confidence : (s : ℤ) → t.type_confidence ≡ some (finite s) → s ≤ℤ pos 9500

cap_confidence-bounded :
    (c : Option Score) (s : ℤ) → cap_confidence c ≡ some (finite s) → s ≤ℤ pos 9500
cap_confidence-bounded none s h = cc
cap_confidence-bounded (some not_finite) s h = cc
cap_confidence-bounded (some (finite c)) s h = elim (Bool-cases (ltb_ℤ (pos 9500) c)) [
  | inl t ↦ rw (sym (finite_inj (some_inj (rw t at h)))) (omega arith)
  | inr f ↦ rw (sym (finite_inj (some_inj (rw f at h)))) (ground (arith, f))
]
  where
    finite_inj : {a b : ℤ} → finite a ≡ finite b → a ≡ b
    finite_inj e = cc

module _ (library : TextLibrary) where
  assemble-Bounded :
      (table : ExtractedTable) (type : ResolvedType) (unit_text : Option String) (split : Split)
      → Bounded (assemble table type unit_text split (lay_out library split))
  assemble-Bounded table type unit_text split = elim (Bool-cases (has_any split.band)) [
    | inr f ↦ record {
      columns = λ c m. elim (rw f at m) [ ];
      label = λ i h. cc (rw f at h);
      confidence = cap_confidence-bounded type.confidence;
    }
    | inl t ↦ record {
      columns = λ c m.
          rw (t, length-map (λ (r : ExtractedRow). r.row_index) split.band)
            (columns_from_band-InGrid library split.band c (rw t at m));
      label = λ i h.
          let (c, m, e) =
            pick_label_column-index (columns_from_band library split.band) (rw t at h) in
          let inside = columns_from_band-InGrid library split.band c m in
          rw t (omega (arith, inside.starts, e));
      confidence = cap_confidence-bounded type.confidence;
    }
  ]

  -- In a rebuilt table every column ends inside the grid and has one part for each row of the header
  -- band, the label column is one of the columns, and a type confidence that is a number is at most 0.95.
  pub reconstruct-Bounded :
      (table : ExtractedTable) (context : ReconstructionContext)
      → Bounded (reconstruct library table context)
  unfolding reconstruct
  reconstruct-Bounded table context =
      assemble-Bounded table (resolve_type library table context)
        (extract_unit_text library
          (some (join "\n" (map row_joined table.rows)) ∷ context.surrounding_text ∷ []))
        (split_header_band library table.rows)
