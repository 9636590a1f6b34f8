-- ===== src/Pipeline/Process.antt =====
-- The XLSX run of `DocumentProcessor` in src/processing/pipeline.py, and `process`. Where the source
-- appends to `warnings`, a step returns the warnings that it adds.
pub mod Quiet
pub mod Rebuilt
pub mod Clean
use evidence_first_investmen.Base.{
  unique, text_or, present, ℕ, pos, suc, ◌+◌, String, Bool, true, false, not, ◌||◌, Option, none,
  some, List, [], ◌∷◌, ◌++◌, map, select, take, if◌then◌else◌, str_eq, is_empty, is_blank,
  take_chars, join, ◌<>◌, Result, Outcome, ok, raise, Error, Exception, pdf_parse_error,
  excel_parse_error, is_processing_error, call, catch, ◌>>=◌,
}
use evidence_first_investmen.Domain.{DetectedFileType, ExtractionMethod, ProcessingStatus}
use evidence_first_investmen.Pdf.{ParsedPage, ParsedDocument}
use evidence_first_investmen.Pdf.Detector.{OcrThresholdPolicy, DocumentOcrDecision, decide_document}
use evidence_first_investmen.Ocr.{
  OcrQualityPolicy, Recognizer, OcrPageResult, DocumentOcrFallbackResult, run,
}
use evidence_first_investmen.Sections.{SectionDetectionResult}
use evidence_first_investmen.Classify.{ClassificationInput, DocumentClassification}
use evidence_first_investmen.Excel.{ExcelCell, ExcelSheet, ParsedWorkbook}
use evidence_first_investmen.Tables.{
  ExtractedTable, TableExtractionContext, TableExtractionResult, extraction_needs_review, has_any,
}
use evidence_first_investmen.Tables.Reconstruction.{
  ReconstructionContext, ReconstructedTable, ReconstructStatus,
}
use evidence_first_investmen.Pipeline.{
  PipelinePageDraft, DocumentProcessingResult, DocumentProcessRequest, pipeline_name,
  pipeline_version, terminal_status,
}
use evidence_first_investmen.Pipeline.Merge.{
  merge_section_hits, section_hint_for_page, merge_table_extractions, table_page_texts,
  merge_page_texts, get, put, value_or,
}
use evidence_first_investmen.Pipeline.Blocks.{pdf_blocks, excel_blocks}
use evidence_first_investmen.Pipeline.Parts.{
  Parts, page_unit, empty_result, non_blank, ocr_texts, pdf_text_sample, class_input,
  class_warnings, table_context, table_warnings, rebuilt_warnings, failure_warnings,
}
use evidence_first_investmen.Pipeline.Documents.{
  reconstruct_tables, ocr_warnings, has_bytes, read_with, read_ocr, supplement, ocr_page_texts,
  supplement_ocr, extract_tables, load_with, load_raw_tables, use_raw, raw_texts, parsed_texts,
  page_draft, pdf_result, process_parsed, pdf_failure, excel_failure, label, process_pdf,
}

module _ (parts : Parts) where
  abbrev pub cell_texts : List ExcelCell → List String
  cell_texts [] = []
  cell_texts (c ∷ cells) = elim (present c.value_text) [
    | none ↦ cell_texts cells
    | some t ↦ t ∷ cell_texts cells
  ]

  abbrev pub sheet_texts : List ExcelSheet → List String
  sheet_texts [] = []
  sheet_texts (s ∷ sheets) = cell_texts (take 40 s.cells) ++ sheet_texts sheets

  unfoldable pub sheet_sample : ParsedWorkbook → String
  sheet_sample workbook = take_chars 4000 (
      join "\n"
        (map (λ (s : ExcelSheet). s.name) workbook.sheets ++ sheet_texts (take 3 workbook.sheets)))

  abbrev pub sheet_names : List (ℕ × String) → List ExcelSheet → List (ℕ × String)
  sheet_names items [] = items
  sheet_names items (s ∷ sheets) = sheet_names (put (s.index + 1) s.name items) sheets

  abbrev pub sheet_draft : ExcelSheet → PipelinePageDraft
  sheet_draft s = record {
    page_number = s.index + 1;
    text = s.name;
    extraction_method = ExtractionMethod.native;
    ocr_confidence = none;
    width = pos page_unit;
    height = pos page_unit;
  }

  -- The run after the workbook has been parsed.
  unfoldable pub process_workbook :
      DocumentProcessRequest → Option String → ParsedWorkbook → Outcome DocumentProcessingResult
  unfolding sheet_sample reconstruct_tables excel_blocks terminal_status unique
  process_workbook request mime_type workbook = do
    classification ← call (parts.classify (class_input request (sheet_sample workbook)))
    sections ← call (parts.detect_workbook workbook)
    extraction ←
        call (parts.extract_workbook workbook (table_context request workbook.source_sha256))
    (reconstructed, w_rebuilt) ←
        reconstruct_tables parts (sheet_names [] workbook.sheets) sections extraction.tables
    let warnings = class_warnings classification ++ table_warnings extraction ++ w_rebuilt
    ok (record {
      artifact_id = request.artifact_id;
      file_type = DetectedFileType.xlsx;
      mime_type = mime_type;
      parser = workbook.parser_name;
      parser_version = workbook.parser_version <> "|" <> pipeline_version;
      status = terminal_status warnings;
      warnings = unique warnings;
      classification = some classification;
      sections = some sections;
      ocr_decision = none;
      ocr = none;
      table_extraction = some extraction;
      reconstructed_tables = reconstructed;
      pages = map sheet_draft workbook.sheets;
      blocks = excel_blocks reconstructed;
      error = none;
      source_sha256 = some workbook.source_sha256;
    })

  unfoldable pub process_excel :
      DocumentProcessRequest → Option String → Outcome DocumentProcessingResult
  unfolding process_workbook empty_result
  process_excel request mime_type =
      elim (parts.parse_excel request.data_ request.artifact_id (label parts request)) [
        | Result.returned workbook ↦ process_workbook request mime_type workbook
        | Result.raised e ↦ ok (
            empty_result request DetectedFileType.xlsx mime_type ProcessingStatus.failed
              "excel_parse_failed" (excel_failure parts e))
      ]

  abbrev pub type_name : DetectedFileType → String
  type_name DetectedFileType.pdf = "PDF"
  type_name DetectedFileType.xls = "XLS"
  type_name DetectedFileType.xlsx = "XLSX"
  type_name DetectedFileType.docx = "DOCX"
  type_name DetectedFileType.unknown = "unknown"

  unfoldable pub process_as :
      DocumentProcessRequest → DetectedFileType → Option String → Outcome DocumentProcessingResult
  unfolding process_pdf process_excel empty_result
  process_as request DetectedFileType.pdf mime_type = process_pdf parts request mime_type
  process_as request DetectedFileType.xlsx mime_type = process_excel request mime_type
  process_as request DetectedFileType.xls mime_type = ok (
      empty_result request DetectedFileType.xls mime_type ProcessingStatus.needs_review
        "xls_not_supported_use_xlsx" "XLS is detected but only XLSX parsing is implemented")
  process_as request DetectedFileType.docx mime_type = ok (
      empty_result request DetectedFileType.docx mime_type ProcessingStatus.failed
        "unsupported_file_type" ("unsupported file type: " <> type_name DetectedFileType.docx))
  process_as request DetectedFileType.unknown mime_type = ok (
      empty_result request DetectedFileType.unknown mime_type ProcessingStatus.failed
        "unsupported_file_type" ("unsupported file type: " <> type_name DetectedFileType.unknown))

  unfoldable pub process : DocumentProcessRequest → Outcome DocumentProcessingResult
  unfolding process_as
  process request = do
    (file_type, mime_type) ← call (parts.detect request.data_ request.filename)
    process_as request file_type mime_type
