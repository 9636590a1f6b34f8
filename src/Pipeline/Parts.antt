-- ===== src/Pipeline/Parts.antt =====
-- The collaborators of `DocumentProcessor` in src/processing/pipeline.py, which are the fields of
-- `Parts`, and the pure helpers of its runs. Each collaborator may return or raise.
use evidence_first_investmen.Base.{
  present, ℕ, String, not, ◌||◌, Option, none, some, List, [], ◌∷◌, ◌++◌, map, select, take,
  if◌then◌else◌, str_eq, is_blank, take_chars, join, ◌<>◌, Result, Error,
}
use evidence_first_investmen.Domain.{DetectedFileType, ProcessingStatus}
use evidence_first_investmen.Pdf.{ParsedPage, ParsedDocument}
use evidence_first_investmen.Pdf.Detector.{OcrThresholdPolicy}
use evidence_first_investmen.Ocr.{OcrQualityPolicy, Recognizer, DocumentOcrFallbackResult}
use evidence_first_investmen.Sections.{SectionDetectionResult}
use evidence_first_investmen.Classify.{ClassificationInput, DocumentClassification}
use evidence_first_investmen.Excel.{ParsedWorkbook}
use evidence_first_investmen.Tables.{
  ExtractedTable, TableExtractionContext, TableExtractionResult, extraction_needs_review,
}
use evidence_first_investmen.Tables.Reconstruction.{
  ReconstructionContext, ReconstructedTable, ReconstructStatus,
}
use evidence_first_investmen.Pipeline.{
  DocumentProcessingResult, DocumentProcessRequest, pipeline_name, pipeline_version,
}

pub record Parts : Type 0 where
  pub detect : List ℕ → Option String → Result (DetectedFileType × Option String)
  pub parse_pdf : List ℕ → ℕ → String → Result ParsedDocument
  pub ocr_policy : OcrThresholdPolicy
  pub quality_policy : OcrQualityPolicy
  pub ocr_engine : Option (List ℕ → Recognizer)
  pub parse_excel : List ℕ → ℕ → String → Result ParsedWorkbook
  pub classify : ClassificationInput → Result DocumentClassification
  pub detect_parsed_document : ParsedDocument → Result SectionDetectionResult
  pub detect_page_texts : List (ℕ × String) → Result SectionDetectionResult
  pub detect_workbook : ParsedWorkbook → Result SectionDetectionResult
  pub extract_pdf : List ℕ → TableExtractionContext → Result TableExtractionResult
  pub extract_workbook : ParsedWorkbook → TableExtractionContext → Result TableExtractionResult
  pub reconstruct : ExtractedTable → ReconstructionContext → Result ReconstructedTable
  pub load_raw : Option (String → TableExtractionContext → Result (Option TableExtractionResult))

-- 1.0, in the unit of sizes.
abbrev pub page_unit : ℕ
page_unit = 10000

-- A result with no findings: `_failed`, and the two refusals of `process`.
unfoldable pub empty_result :
    DocumentProcessRequest
    → DetectedFileType
    → Option String
    → ProcessingStatus
    → String
    → String
    → DocumentProcessingResult
empty_result request file_type mime_type status warning error = record {
  artifact_id = request.artifact_id;
  file_type = file_type;
  mime_type = mime_type;
  parser = pipeline_name;
  parser_version = pipeline_version;
  status = status;
  warnings = warning ∷ [];
  classification = none;
  sections = none;
  ocr_decision = none;
  ocr = none;
  table_extraction = none;
  reconstructed_tables = [];
  pages = [];
  blocks = [];
  error = some error;
  source_sha256 = none;
}

abbrev pub non_blank : List String → List String
non_blank = select (λ t. not (is_blank t))

abbrev pub ocr_texts : Option DocumentOcrFallbackResult → List String
ocr_texts none = []
ocr_texts (some r) = non_blank (map (λ p. p.text) (take 5 r.pages))

unfoldable pub pdf_text_sample : ParsedDocument → Option DocumentOcrFallbackResult → String
pdf_text_sample parsed ocr = take_chars 4000 (
    join "\n" (non_blank (map (λ (p : ParsedPage). p.text) (take 5 parsed.pages)) ++ ocr_texts ocr))

abbrev pub class_input : DocumentProcessRequest → String → ClassificationInput
class_input request sample = record {
  title = request.title;
  filename = request.filename;
  text_sample = some sample;
  document_type = present request.document_type;
}

abbrev pub class_warnings : DocumentClassification → List String
class_warnings c =
    if str_eq c.reason "unmatched_needs_llm" || str_eq c.reason "unmatched"
    then "classification_unmatched" ∷ []
    else []

abbrev pub table_context : DocumentProcessRequest → String → TableExtractionContext
table_context request sha = record {
  document_id = some request.artifact_id;
  artifact_id = some request.artifact_id;
  source_sha256 = some sha;
  source_label = request.filename;
}

abbrev pub table_warnings : TableExtractionResult → List String
table_warnings t = if extraction_needs_review t then "table_extraction_needs_review" ∷ [] else []

abbrev pub rebuilt_warnings : String → ReconstructStatus → List String
rebuilt_warnings table_id ReconstructStatus.ok_ = []
rebuilt_warnings table_id ReconstructStatus.needs_review =
    ("table_reconstruction_needs_review:" <> table_id) ∷ []

-- The two warnings that name an exception and its text.
abbrev pub failure_warnings : String → Error → List String
failure_warnings prefix e = (prefix <> e.name) ∷ take_chars 200 e.message ∷ []
