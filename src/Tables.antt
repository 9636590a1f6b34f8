-- ===== src/Tables.antt =====
-- The extracted tables of src/processing/tables/models.py. Finding the tables in a PDF
-- (src/processing/tables/extractor.py) is not modelled.
pub mod Reconstruction
pub mod Grid
pub mod RawSource
use evidence_first_investmen.Base.{
  ℕ, String, Bool, true, false, not, ◌||◌, Option, List, [], ◌∷◌, any,
}
use evidence_first_investmen.Domain.Block.{BoundingBox}
use evidence_first_investmen.Ocr.{Score}

pub data TableExtractionStatus : Type 0 where
  ok_ needs_review failed : TableExtractionStatus

pub record TableExtractionContext : Type 0 where
  pub document_id : Option ℕ
  pub artifact_id : Option ℕ
  pub source_sha256 : Option String
  pub source_label : Option String

pub record ExtractedCell : Type 0 where
  pub raw_text : String
  pub row : ℕ
  pub column : ℕ
  pub page : ℕ
  pub table_id : String
  pub document_id : Option ℕ
  pub artifact_id : Option ℕ
  pub bbox : Option BoundingBox
  pub bbox_estimated : Bool
  pub is_merged_continuation : Bool
  pub bbox_missing_warning : Option String

pub record ExtractedRow : Type 0 where
  pub row_index : ℕ
  pub cells : List ExtractedCell

pub record ExtractedTable : Type 0 where
  pub page : ℕ
  pub rows : List ExtractedRow
  pub table_id : String
  pub table_index : ℕ
  pub document_id : Option ℕ
  pub artifact_id : Option ℕ
  pub source_sha256 : Option String
  pub bbox : Option BoundingBox
  pub extractor_name : String
  pub extractor_version : String
  pub source_label : Option String
  pub confidence : Option Score
  pub status : TableExtractionStatus
  pub warnings : List String

pub record PageTableExtractionIssue : Type 0 where
  pub page : ℕ
  pub status : TableExtractionStatus
  pub reason : String
  pub detail : Option String

pub record TableExtractionResult : Type 0 where
  pub tables : List ExtractedTable
  pub page_issues : List PageTableExtractionIssue
  pub context : TableExtractionContext
  pub warnings : List String

abbrev pub is_ok : TableExtractionStatus → Bool
is_ok TableExtractionStatus.ok_ = true
is_ok TableExtractionStatus.needs_review = false
is_ok TableExtractionStatus.failed = false

abbrev pub is_needs_review : TableExtractionStatus → Bool
is_needs_review TableExtractionStatus.ok_ = false
is_needs_review TableExtractionStatus.needs_review = true
is_needs_review TableExtractionStatus.failed = false

abbrev pub has_any {ℓ} : {A : Type ℓ} → List A → Bool
has_any [] = false
has_any (x ∷ xs) = true

-- The property `needs_review`.
unfoldable pub extraction_needs_review : TableExtractionResult → Bool
extraction_needs_review r =
    has_any r.warnings
    || any (λ t. not (is_ok t.status)) r.tables
    || any (λ i. is_needs_review i.status) r.page_issues
