-- ===== src/Pipeline/Documents.antt =====
-- The PDF run of `DocumentProcessor` in src/processing/pipeline.py. Where the source appends to
-- `warnings`, a step returns the warnings that it adds.
use evidence_first_investmen.Base.{
  unique, text_or, ℕ, String, Bool, true, not, Option, none, some, List, [], ◌∷◌, ◌++◌, map, select,
  if◌then◌else◌, is_blank, ◌<>◌, Result, Outcome, ok, Error, pdf_parse_error, excel_parse_error,
  is_processing_error, call, catch, ◌>>=◌,
}
use evidence_first_investmen.Domain.{DetectedFileType, ExtractionMethod, ProcessingStatus}
use evidence_first_investmen.Pdf.{ParsedPage, ParsedDocument}
use evidence_first_investmen.Pdf.Detector.{DocumentOcrDecision, decide_document}
use evidence_first_investmen.Ocr.{Recognizer, OcrPageResult, DocumentOcrFallbackResult, run}
use evidence_first_investmen.Sections.{SectionDetectionResult}
use evidence_first_investmen.Classify.{DocumentClassification}
use evidence_first_investmen.Tables.{
  ExtractedTable, TableExtractionContext, TableExtractionResult, has_any,
}
use evidence_first_investmen.Tables.Reconstruction.{ReconstructedTable}
use evidence_first_investmen.Pipeline.{
  PipelinePageDraft, DocumentProcessingResult, DocumentProcessRequest, pipeline_version,
  terminal_status,
}
use evidence_first_investmen.Pipeline.Merge.{
  merge_section_hits, section_hint_for_page, merge_table_extractions, table_page_texts,
  merge_page_texts, get, put,
}
use evidence_first_investmen.Pipeline.Blocks.{pdf_blocks}
use evidence_first_investmen.Pipeline.Parts.{
  Parts, empty_result, pdf_text_sample, class_input, class_warnings, table_context, table_warnings,
  rebuilt_warnings, failure_warnings,
}

module _ (parts : Parts) where
  unfoldable pub reconstruct_tables :
      List (ℕ × String)
      → SectionDetectionResult
      → List ExtractedTable
      → Outcome (List ReconstructedTable × List String)
  unfolding section_hint_for_page
  reconstruct_tables page_texts sections [] = ok ([], [])
  reconstruct_tables page_texts sections (table ∷ tables) =
      call (
        parts.reconstruct table record {
          surrounding_text = get table.page page_texts;
          section_hint = section_hint_for_page sections table.page;
        })
      >>= λ rebuilt. reconstruct_tables page_texts sections tables >>= λ (out, warnings).
          ok (rebuilt ∷ out, rebuilt_warnings table.table_id rebuilt.status ++ warnings)

  abbrev pub ocr_warnings : DocumentOcrFallbackResult → List String
  ocr_warnings r = if r.needs_review then "ocr_needs_review" ∷ [] else []

  abbrev pub has_bytes : List ℕ → Bool
  has_bytes = has_any

  unfoldable pub read_with :
      Option (List ℕ → Recognizer)
      → DocumentProcessRequest
      → ParsedDocument
      → DocumentOcrDecision
      → Outcome (Option DocumentOcrFallbackResult × List String)
  read_with none request parsed decision = ok (none, "ocr_required_but_engine_not_configured" ∷ [])
  read_with (some engine) request parsed decision =
      catch is_processing_error
        (run (engine request.data_) parts.quality_policy parsed (not (has_bytes request.data_))
            decision
          >>= λ r. ok (some r, ocr_warnings r))
        (λ e. ok (none, failure_warnings "ocr_failed:" e))

  unfoldable pub read_ocr :
      DocumentProcessRequest
      → ParsedDocument
      → DocumentOcrDecision
      → Outcome (Option DocumentOcrFallbackResult × List String)
  unfolding read_with
  read_ocr request parsed decision =
      if decision.needs_ocr
      then read_with parts.ocr_engine request parsed decision
      else ok (none, [])

  abbrev pub supplement :
      SectionDetectionResult → List (ℕ × String) → Outcome SectionDetectionResult
  supplement sections texts = call (parts.detect_page_texts texts) >>= λ extra.
      if has_any extra.hits then ok (merge_section_hits sections extra) else ok sections

  abbrev pub ocr_page_texts : Option DocumentOcrFallbackResult → List (ℕ × String)
  ocr_page_texts none = []
  ocr_page_texts (some r) =
      map (λ (p : OcrPageResult). (p.page_number, p.text))
        (select (λ p. not (is_blank p.text)) r.pages)

  abbrev pub supplement_ocr :
      SectionDetectionResult → List (ℕ × String) → Outcome SectionDetectionResult
  supplement_ocr sections [] = ok sections
  supplement_ocr sections (t ∷ texts) = supplement sections (t ∷ texts)

  unfoldable pub extract_tables :
      DocumentProcessRequest
      → TableExtractionContext
      → Outcome (TableExtractionResult × List String)
  extract_tables request context =
      catch is_processing_error (call (parts.extract_pdf request.data_ context) >>= λ t. ok (t, []))
        (λ e. ok (
          record { tables = []; page_issues = []; context = context; warnings = [] },
          failure_warnings "table_extraction_failed:" e,
        ))

  abbrev pub load_with :
      Option (String → TableExtractionContext → Result (Option TableExtractionResult))
      → String
      → TableExtractionContext
      → Outcome (Option TableExtractionResult × List String)
  load_with none sha context = ok (none, [])
  load_with (some load) sha context =
      catch (λ _. true) (call (load sha context) >>= λ raw. ok (raw, []))
        (λ e. ok (none, failure_warnings "raw_table_source_failed:" e))

  unfoldable pub load_raw_tables :
      String → TableExtractionContext → Outcome (Option TableExtractionResult × List String)
  load_raw_tables sha context = load_with parts.load_raw sha context

  -- `if raw_tables is not None`: the tables, the sections and the warnings afterwards.
  abbrev pub use_raw :
      Option TableExtractionResult
      → TableExtractionResult
      → SectionDetectionResult
      → Outcome (TableExtractionResult × SectionDetectionResult × List String)
  use_raw none extraction sections = ok (extraction, sections, [])
  use_raw (some raw) extraction sections =
      supplement sections (table_page_texts raw) >>= λ sections'.
      ok (merge_table_extractions extraction raw, sections', raw.warnings)

  abbrev pub raw_texts : Option TableExtractionResult → List (ℕ × String)
  raw_texts none = []
  raw_texts (some raw) = table_page_texts raw

  abbrev pub parsed_texts : List (ℕ × String) → List ParsedPage → List (ℕ × String)
  parsed_texts items [] = items
  parsed_texts items (p ∷ pages) = parsed_texts (put p.page_number p.text items) pages

  abbrev pub page_draft : ParsedPage → PipelinePageDraft
  page_draft p = record {
    page_number = p.page_number;
    text = p.text;
    extraction_method = ExtractionMethod.native;
    ocr_confidence = none;
    width = p.width;
    height = p.height;
  }

  -- What the steps of a PDF run found, and all the warnings they gave, in order.
  abbrev pub pdf_result :
      DocumentProcessRequest
      → Option String
      → ParsedDocument
      → DocumentOcrDecision
      → Option DocumentOcrFallbackResult
      → DocumentClassification
      → SectionDetectionResult
      → TableExtractionResult
      → List ReconstructedTable
      → List String
      → Outcome DocumentProcessingResult
  pdf_result request mime_type parsed decision ocr classification sections extraction reconstructed
        warnings =
      pdf_blocks parsed ocr reconstructed >>= λ blocks. ok (record {
        artifact_id = request.artifact_id;
        file_type = DetectedFileType.pdf;
        mime_type = mime_type;
        parser = parsed.parser_name;
        parser_version = parsed.parser_version <> "|" <> pipeline_version;
        status = terminal_status warnings;
        warnings = unique warnings;
        classification = some classification;
        sections = some sections;
        ocr_decision = some decision;
        ocr = ocr;
        table_extraction = some extraction;
        reconstructed_tables = reconstructed;
        pages = map page_draft parsed.pages;
        blocks = blocks;
        error = none;
        source_sha256 = some parsed.source_sha256;
      })

  -- The run after the PDF has been parsed.
  unfoldable pub process_parsed :
      DocumentProcessRequest → Option String → ParsedDocument → Outcome DocumentProcessingResult
  unfolding decide_document read_ocr pdf_text_sample extract_tables load_raw_tables
      reconstruct_tables pdf_blocks terminal_status unique
  process_parsed request mime_type parsed = do
    let decision = decide_document parts.ocr_policy parsed
    (ocr, w_ocr) ← read_ocr request parsed decision
    classification ← call (parts.classify (class_input request (pdf_text_sample parsed ocr)))
    native_sections ← call (parts.detect_parsed_document parsed)
    ocr_sections ← supplement_ocr native_sections (ocr_page_texts ocr)
    let context = table_context request parsed.source_sha256
    (native, w_native) ← extract_tables request context
    (raw, w_raw) ← load_raw_tables parsed.source_sha256 context
    (extraction, sections, w_used) ← use_raw raw native ocr_sections
    (reconstructed, w_rebuilt) ←
        reconstruct_tables (merge_page_texts (parsed_texts [] parsed.pages) (raw_texts raw))
          sections extraction.tables
    pdf_result request mime_type parsed decision ocr classification sections extraction
        reconstructed
        (w_ocr
          ++ class_warnings classification
          ++ w_native
          ++ w_raw
          ++ w_used
          ++ table_warnings extraction
          ++ w_rebuilt)

  -- `str(exc)` for the parser's own error, the class and the text for any other.
  abbrev pub pdf_failure : Error → String
  pdf_failure e = elim e.class [ pdf_parse_error ↦ e.message | _ ↦ e.name <> ": " <> e.message ]

  abbrev pub excel_failure : Error → String
  excel_failure e = elim e.class [ excel_parse_error ↦ e.message | _ ↦ e.name <> ": " <> e.message ]

  abbrev pub label : DocumentProcessRequest → String
  label request = text_or request.source_label (text_or request.filename "bytes")

  unfoldable pub process_pdf :
      DocumentProcessRequest → Option String → Outcome DocumentProcessingResult
  unfolding process_parsed empty_result
  process_pdf request mime_type =
      elim (parts.parse_pdf request.data_ request.artifact_id (label request)) [
        | Result.returned parsed ↦ process_parsed request mime_type parsed
        | Result.raised e ↦ ok (
            empty_result request DetectedFileType.pdf mime_type ProcessingStatus.failed
              "pdf_parse_failed" (pdf_failure e))
      ]
