-- ===== src/Pipeline.antt =====
-- src/processing/pipeline.py: the request, the drafts and the result of the document processor, and
-- the status that the collected warnings give. The rest is in the children: merging what several
-- extractors found (Merge), the blocks (Blocks) and the two runs (Process).
pub mod Merge
pub mod Blocks
pub mod Parts
pub mod Documents
pub mod Process
use text.Mathlib.Text.{starts_with}
use evidence_first_investmen.Base.{
  ℕ, ℤ, String, Bool, true, false, ◌||◌, Option, none, some, List, [], ◌∷◌, any, str_eq, ◌<>◌,
  if◌then◌else◌,
}
use evidence_first_investmen.Domain.{
  DetectedFileType, ExtractionMethod, BlockType, ProcessingStatus,
}
use evidence_first_investmen.Domain.Block.{BoundingBox}
use evidence_first_investmen.Pdf.Detector.{DocumentOcrDecision}
use evidence_first_investmen.Ocr.{Score, OcrPageResult, DocumentOcrFallbackResult}
use evidence_first_investmen.Sections.{SectionDetectionResult}
use evidence_first_investmen.Classify.{DocumentClassification}
use evidence_first_investmen.Tables.{TableExtractionResult}
use evidence_first_investmen.Tables.Reconstruction.{ReconstructedTable}

abbrev pub pipeline_name : String
pipeline_name = "document_processor"

abbrev pub pipeline_version : String
pipeline_version = "doc13-v1"

pub record PipelinePageDraft : Type 0 where
  pub page_number : ℕ
  pub text : String
  pub extraction_method : ExtractionMethod
  pub ocr_confidence : Option Score
  pub width : ℤ
  pub height : ℤ

-- The dict of a block, by its key "source".
pub data Content : Type 0 where
  native : String → String → String → Content
  ocr : OcrPageResult → Content
  table_reconstruction : ReconstructedTable → Content
  sheet_reconstruction : ReconstructedTable → Option String → Content

pub record PipelineBlockDraft : Type 0 where
  pub page_number : ℕ
  pub block_index : ℕ
  pub block_type : BlockType
  pub bbox : Option BoundingBox
  pub content : Content

-- `metadata`, which repeats counts of the other fields, is left out.
pub record DocumentProcessingResult : Type 0 where
  pub artifact_id : ℕ
  pub file_type : DetectedFileType
  pub mime_type : Option String
  pub parser : String
  pub parser_version : String
  pub status : ProcessingStatus
  pub warnings : List String
  pub classification : Option DocumentClassification
  pub sections : Option SectionDetectionResult
  pub ocr_decision : Option DocumentOcrDecision
  pub ocr : Option DocumentOcrFallbackResult
  pub table_extraction : Option TableExtractionResult
  pub reconstructed_tables : List ReconstructedTable
  pub pages : List PipelinePageDraft
  pub blocks : List PipelineBlockDraft
  pub error : Option String
  pub source_sha256 : Option String

-- Bytes are numbers.
pub record DocumentProcessRequest : Type 0 where
  pub artifact_id : ℕ
  pub data_ : List ℕ
  pub filename : Option String
  pub title : Option String
  pub document_type : Option String
  pub source_label : Option String

abbrev pub review_prefixes : List String
review_prefixes =
    "ocr_required_but_engine_not_configured" ∷ "ocr_needs_review" ∷ "ocr_failed"
    ∷ "raw_table_source_failed" ∷ "table_extraction_failed" ∷ "table_extraction_needs_review"
    ∷ "table_reconstruction_needs_review" ∷ "classification_unmatched" ∷ "xls_not_supported" ∷ []

unfoldable pub asks_review : String → Bool
asks_review warning =
    any
      (λ token.
        str_eq warning token || starts_with warning (token <> ":") || starts_with warning token)
      review_prefixes

unfoldable pub terminal_status : List String → ProcessingStatus
terminal_status warnings =
    if any asks_review warnings then ProcessingStatus.needs_review else ProcessingStatus.processed
