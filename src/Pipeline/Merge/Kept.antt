-- ===== src/Pipeline/Merge/Kept.antt =====
-- What the merge of two table extractions in src/processing/pipeline.py keeps.
use evidence_first_investmen.Base.{
  ◌≡◌, Bool, true, not, ◌⊎◌, inl, inr, List, [], ◌∷◌, ◌++◌, Memᴰ, any, select, Bool-cases,
  mem-select, mem-append_left, mem-append_right, mem-cons-cases, mem_of_any, refl,
}
use evidence_first_investmen.Tables.{ExtractedTable, TableExtractionResult}
use evidence_first_investmen.Pipeline.Merge.{
  sorts_below, insert_table, sort_tables, raw_table_replaces_native, merge_table_extractions,
}

insert_table-head : (t : ExtractedTable) (ts : List ExtractedTable) → Memᴰ t (insert_table t ts)
insert_table-head t [] = Memᴰ.head refl
insert_table-head t (s ∷ ts) = elim (Bool-cases (sorts_below s t)) [
  | inl b ↦ rw b (Memᴰ.tail (insert_table-head t ts))
  | inr b ↦ rw b (Memᴰ.head refl)
]

insert_table-tail :
    (t : ExtractedTable) (ts : List ExtractedTable) {x : ExtractedTable}
    → Memᴰ x ts
    → Memᴰ x (insert_table t ts)
insert_table-tail t [] m = elim m [ ]
insert_table-tail t (s ∷ ts) m = elim (Bool-cases (sorts_below s t)) [
  | inr b ↦ rw b (Memᴰ.tail m)
  | inl b ↦ rw b (elim (mem-cons-cases m) [
    | inl e ↦ Memᴰ.head e
    | inr k ↦ Memᴰ.tail (insert_table-tail t ts k)
  ])
]

mem-sort_tables :
    (ts : List ExtractedTable) {x : ExtractedTable} → Memᴰ x ts → Memᴰ x (sort_tables ts)
unfolding sort_tables
mem-sort_tables [] m = elim m [ ]
mem-sort_tables (t ∷ ts) {x} m = elim (mem-cons-cases m) [
  | inl e ↦ rw e (insert_table-head t (sort_tables ts))
  | inr k ↦ insert_table-tail t (sort_tables ts) (mem-sort_tables ts k)
]

-- The merge loses no table: each raw table is in the result, and each native table is too, but for
-- one that a raw table replaces.
pub merge_table_extractions-keeps :
    (native raw : TableExtractionResult)
    → ((t : ExtractedTable)
        → Memᴰ t raw.tables
        → Memᴰ t (merge_table_extractions native raw).tables)
      × ((t : ExtractedTable)
          → Memᴰ t native.tables
          → Memᴰ t (merge_table_extractions native raw).tables
            ⊎ ((c : ExtractedTable) × Memᴰ c raw.tables × (raw_table_replaces_native c t ≡ true)))
unfolding merge_table_extractions
merge_table_extractions-keeps native raw =
    let replaced : ExtractedTable → Bool =
      λ t. any (λ candidate. raw_table_replaces_native candidate t) raw.tables in
    let kept = select (λ t. not (replaced t)) native.tables in
    (
      λ t m. mem-sort_tables (kept ++ raw.tables) (mem-append_right kept raw.tables m),
      λ t m. elim (Bool-cases (replaced t)) [
        | inl y ↦ inr (mem_of_any _ raw.tables y)
        | inr n ↦ inl (
            mem-sort_tables (kept ++ raw.tables) (
              mem-append_left kept raw.tables
                (mem-select (λ s. not (replaced s)) native.tables m (rw n refl))))
      ],
    )
