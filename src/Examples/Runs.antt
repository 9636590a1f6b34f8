-- ===== src/Examples/Runs.antt =====
-- A small PDF through the pipeline (src/processing/pipeline.py).
use evidence_first_investmen.Base.{
  ℕ, pos, String, true, false, ◌≡◌, refl, ◌⊎◌, none, some, List, [], ◌∷◌, ◌++◌, Memᴰ, length,
  select, ◌==◌, Result, ok,
}
use evidence_first_investmen.Domain.{
  DetectedFileType, ExtractionMethod, BlockType, ProcessingStatus,
}
use evidence_first_investmen.Domain.Block
use evidence_first_investmen.Pdf.{ParsedDocument}
use evidence_first_investmen.Pdf.Detector.{OcrThresholdPolicy, default_ocr_policy}
use evidence_first_investmen.Ocr.{finite, default_ocr_quality_policy}
use evidence_first_investmen.Sections.{SectionDetectionResult}
use evidence_first_investmen.Classify.{DocumentClass, ClassificationMethod, DocumentClassification}
use evidence_first_investmen.Excel.{ParsedWorkbook}
use evidence_first_investmen.Tables.{ExtractedTable, TableExtractionStatus, TableExtractionResult}
use evidence_first_investmen.Tables.Reconstruction.{
  TableType, ReconstructStatus, ReconstructedTable,
}
use evidence_first_investmen.Pipeline.{
  PipelineBlockDraft, Content, DocumentProcessRequest, DocumentProcessingResult,
}
use evidence_first_investmen.Pipeline.Merge.{merge_table_extractions, raw_table_replaces_native}
use evidence_first_investmen.Pipeline.Merge.Kept.{merge_table_extractions-keeps}
use evidence_first_investmen.Pipeline.Blocks.{
  pdf_blocks, page_blocks, native_blocks, ocr_blocks, table_blocks, excel_blocks, sheet_blocks,
}
use evidence_first_investmen.Pipeline.Blocks.Numbering.{pdf_blocks-position, excel_blocks-position}
use evidence_first_investmen.Pipeline.Parts.{Parts}
use evidence_first_investmen.Examples.Documents.{text_block, page, document}

abbrev region : Block.BoundingBox
region = record { x0 = pos 0; y0 = pos 0; x1 = pos 50; y1 = pos 20 }

abbrev table : ℕ → String → ExtractedTable
table index name = record {
  page = 1;
  rows = [];
  table_id = name;
  table_index = index;
  document_id = some 1;
  artifact_id = some 1;
  source_sha256 = some "ab";
  bbox = some region;
  extractor_name = "pymupdf";
  extractor_version = "1";
  source_label = some "report.pdf";
  confidence = none;
  status = TableExtractionStatus.ok_;
  warnings = [];
}

abbrev extraction : List ExtractedTable → TableExtractionResult
extraction tables = record {
  tables = tables;
  page_issues = [];
  context = record {
    document_id = some 1;
    artifact_id = some 1;
    source_sha256 = some "ab";
    source_label = some "report.pdf";
  };
  warnings = [];
}

abbrev rebuilt : ExtractedTable → ReconstructedTable
rebuilt t = record {
  table_type = TableType.balance_sheet;
  unit_text = none;
  columns = [];
  rows = [];
  raw = t;
  status = ReconstructStatus.ok_;
  warnings = [];
  type_confidence = none;
  type_matched_text = none;
  header_band_row_indices = [];
  label_column_index = none;
}

abbrev classified : DocumentClassification
classified = record {
  document_class = DocumentClass.financial_statement;
  method = ClassificationMethod.pattern_;
  confidence = finite (pos 9000);
  matched_pattern = some "balance sheet";
  reason = "title";
}

abbrev no_sections : SectionDetectionResult
no_sections = record { hits = []; method = "vietnamese_heading_rules" }

abbrev parsed : ParsedDocument
parsed =
    document (page 1 "Balance sheet" (some 0) (text_block "Balance" ∷ text_block "sheet" ∷ []) ∷ [])

abbrev workbook : ParsedWorkbook
workbook = record {
  sheets = [];
  source_sha256 = "ab";
  parser_name = "openpyxl";
  parser_version = "3";
  source_label = none;
  artifact_id = some 1;
}

abbrev policy : OcrThresholdPolicy
policy = record default_ocr_policy { min_native_chars = 5 }

abbrev pub parts : Parts
parts = record {
  detect = λ bytes name. Result.returned (DetectedFileType.pdf, some "application/pdf");
  parse_pdf = λ bytes artifact label. Result.returned parsed;
  ocr_policy = policy;
  quality_policy = default_ocr_quality_policy;
  ocr_engine = none;
  parse_excel = λ bytes artifact label. Result.returned workbook;
  classify = λ input. Result.returned classified;
  detect_parsed_document = λ d. Result.returned no_sections;
  detect_page_texts = λ texts. Result.returned no_sections;
  detect_workbook = λ w. Result.returned no_sections;
  extract_pdf = λ bytes context. Result.returned (extraction (table 0 "t0" ∷ []));
  extract_workbook = λ w context. Result.returned (extraction []);
  reconstruct = λ t context. Result.returned (rebuilt t);
  load_raw = none;
}

abbrev pub request : DocumentProcessRequest
request = record {
  artifact_id = 1;
  data_ = 37 ∷ 80 ∷ [];
  filename = some "report.pdf";
  title = some "Report";
  document_type = some "financial_statement";
  source_label = some "report.pdf";
}

abbrev native_draft : ℕ → String → PipelineBlockDraft
native_draft index t = record {
  page_number = 1;
  block_index = index;
  block_type = BlockType.text;
  bbox = some record { x0 = pos 0; y0 = pos 0; x1 = pos 9; y1 = pos 2 };
  content = Content.native t "pymupdf" "1";
}

abbrev table_draft : PipelineBlockDraft
table_draft = record {
  page_number = 1;
  block_index = 2;
  block_type = BlockType.table;
  bbox = some region;
  content = Content.table_reconstruction (rebuilt (table 0 "t0"));
}

abbrev pub result : DocumentProcessingResult
result = record {
  artifact_id = 1;
  file_type = DetectedFileType.pdf;
  mime_type = some "application/pdf";
  parser = "pymupdf";
  parser_version = "1|doc13-v1";
  status = ProcessingStatus.processed;
  warnings = [];
  classification = some classified;
  sections = some no_sections;
  ocr_decision = some record {
    needs_ocr = false;
    reason = "all_pages_native_or_blank";
    pages =
        record {
          page_number = 1;
          needs_ocr = false;
          reason = "sufficient_native_text";
          char_count = 13;
          text_block_count = 2;
          image_coverage = some 0;
          image_count = 1;
          image_coverage_error = none;
          policy = policy;
        }
        ∷ [];
    policy = policy;
  };
  ocr = none;
  table_extraction = some (extraction (table 0 "t0" ∷ []));
  reconstructed_tables = rebuilt (table 0 "t0") ∷ [];
  pages =
      record {
        page_number = 1;
        text = "Balance sheet";
        extraction_method = ExtractionMethod.native;
        ocr_confidence = none;
        width = pos 100;
        height = pos 100;
      }
      ∷ [];
  blocks = native_draft 0 "Balance" ∷ native_draft 1 "sheet" ∷ table_draft ∷ [];
  error = none;
  source_sha256 = some "ab";
}

blocks_of_parsed :
    pdf_blocks parsed none (rebuilt (table 0 "t0") ∷ [])
    ≡ ok ((native_draft 0 "Balance" ∷ native_draft 1 "sheet" ∷ []) ++ table_draft ∷ [])
unfolding pdf_blocks native_blocks page_blocks ocr_blocks table_blocks
blocks_of_parsed = refl

pdf_blocks-position_example :
    table_draft.block_index
    ≡ length (
        select
          (λ (c : PipelineBlockDraft). c.page_number == 1)
          (native_draft 0 "Balance" ∷ native_draft 1 "sheet" ∷ []))
pdf_blocks-position_example =
    pdf_blocks-position parsed none (rebuilt (table 0 "t0") ∷ [])
      (native_draft 0 "Balance" ∷ native_draft 1 "sheet" ∷ []) [] table_draft blocks_of_parsed

abbrev sheet_draft : ℕ → String → PipelineBlockDraft
sheet_draft index name = record {
  page_number = 1;
  block_index = index;
  block_type = BlockType.table;
  bbox = none;
  content = Content.sheet_reconstruction (rebuilt (table index name)) (some "report.pdf");
}

blocks_of_sheets :
    excel_blocks (rebuilt (table 0 "t0") ∷ rebuilt (table 1 "t1") ∷ [])
    ≡ (sheet_draft 0 "t0" ∷ []) ++ sheet_draft 1 "t1" ∷ []
unfolding excel_blocks sheet_blocks
blocks_of_sheets = refl

excel_blocks-position_example :
    (sheet_draft 1 "t1").block_index
    ≡ length (select (λ (c : PipelineBlockDraft). c.page_number == 1) (sheet_draft 0 "t0" ∷ []))
excel_blocks-position_example =
    excel_blocks-position (rebuilt (table 0 "t0") ∷ rebuilt (table 1 "t1") ∷ [])
      (sheet_draft 0 "t0" ∷ []) [] (sheet_draft 1 "t1") blocks_of_sheets

merge_table_extractions-keeps_example :
    ((t : ExtractedTable)
      → Memᴰ t (table 1 "raw" ∷ [])
      → Memᴰ t
          (merge_table_extractions
            (extraction (table 0 "t0" ∷ []))
            (extraction (table 1 "raw" ∷ []))).tables)
    × ((t : ExtractedTable)
        → Memᴰ t (table 0 "t0" ∷ [])
        → Memᴰ t
            (merge_table_extractions
              (extraction (table 0 "t0" ∷ []))
              (extraction (table 1 "raw" ∷ []))).tables
          ⊎ ((c : ExtractedTable) × Memᴰ c (table 1 "raw" ∷ [])
              × (raw_table_replaces_native c t ≡ true)))
merge_table_extractions-keeps_example =
    merge_table_extractions-keeps (extraction (table 0 "t0" ∷ [])) (extraction (table 1 "raw" ∷ []))
