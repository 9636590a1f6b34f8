-- ===== src/Tables/Reconstruction/Reliable.antt =====
-- What the status OK of `reconstruct` in src/processing/tables/reconstruction.py promises.
use evidence_first_investmen.Base.{String, false, ◌≡◌, ◌≢◌, refl, some, List, [], ◌∷◌, Memᴰ, select}
use evidence_first_investmen.Tables.{ExtractedTable, TableExtractionStatus}
use evidence_first_investmen.Tables.Reconstruction.{
  TableType, RowKind, ReconstructedColumn, ReconstructedRow, ReconstructedTable,
}
use evidence_first_investmen.Tables.Reconstruction.Columns.{is_label}
use evidence_first_investmen.Tables.Reconstruction.Rebuild.{is_review_warning, review_tokens}

-- What a reader may rely on.
pub record Reliable (table : ExtractedTable) (t : ReconstructedTable) : Type 0 where
  pub extracted : table.status ≡ TableExtractionStatus.ok_
  pub typed : t.table_type ≢ TableType.unknown
  pub unit : (u : String) × (t.unit_text ≡ some u)
  pub label :
      (c : ReconstructedColumn) × (select (λ x. is_label x.role) t.columns ≡ c ∷ [])
      × (t.label_column_index ≡ some c.index)
  pub filled : (r : ReconstructedRow) × Memᴰ r t.rows × (r.kind ≡ RowKind.data_)

-- None of the warnings asks for a review.
abbrev IsCalm : List String → Type 0
IsCalm warnings = (w : String) → Memᴰ w warnings → is_review_warning w ≡ false

abbrev no_header_listed : Memᴰ "no_header_or_body" review_tokens
no_header_listed = Memᴰ.tail (Memᴰ.tail (Memᴰ.head refl))

abbrev unknown_listed : Memᴰ "unknown_table_type" review_tokens
unknown_listed = Memᴰ.tail (Memᴰ.head refl)

abbrev empty_body_listed : Memᴰ "empty_body" review_tokens
empty_body_listed = Memᴰ.tail (Memᴰ.tail (Memᴰ.tail (Memᴰ.head refl)))
