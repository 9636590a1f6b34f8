-- ===== src/Examples/Documents.antt =====
-- Small documents: pages, OCR results, tables (src/processing).
use mathlib.Core.Logic.{◌↔◌}
use evidence_first_investmen.Base.{
  ℕ, pos, String, Bool, true, false, ◌≡◌, refl, Option, none, some, List, [], ◌∷◌, Memᴰ, map,
  Result, ok,
}
use evidence_first_investmen.Pdf.{TextBlock, ParsedPage, ParsedDocument}
use evidence_first_investmen.Pdf.Detector.{
  default_ocr_policy, PageOcrDecision, DocumentOcrDecision, decide_page, decide_document,
}
use evidence_first_investmen.Pdf.Detector.Decisions.{IsExempt, decide_page_iff, decide_document_iff}
use evidence_first_investmen.Ocr.{
  OcrResultStatus, finite, OcrPageResult, DocumentOcrFallbackResult, default_ocr_quality_policy,
  Recognizer, run, run_pages, ocr_page, assess_ocr_quality,
}
use evidence_first_investmen.Ocr.Trust.{IsTrusted, pages_with, run_lem}

abbrev pub text_block : String → TextBlock
text_block t = record {
  text = t;
  bbox = some record { x0 = pos 0; y0 = pos 0; x1 = pos 9; y1 = pos 2 };
}

abbrev pub page : ℕ → String → Option ℕ → List TextBlock → ParsedPage
page n t coverage blocks = record {
  page_number = n;
  text = t;
  text_normalized = t;
  blocks = blocks;
  width = pos 100;
  height = pos 100;
  parser_name = "pymupdf";
  parser_version = "1";
  source_sha256 = "ab";
  image_coverage = coverage;
  image_count = 1;
  image_coverage_error = none;
}

abbrev pub document : List ParsedPage → ParsedDocument
document pages = record {
  pages = pages;
  source_sha256 = "ab";
  parser_name = "pymupdf";
  parser_version = "1";
  source_label = some "bytes";
  artifact_id = some 1;
}

-- A page that is blank, and one that is a scan.
abbrev blank_page : ParsedPage
blank_page = page 1 "" (some 100) []

abbrev scanned_page : ParsedPage
scanned_page = page 2 "" (some 9000) []

decide_page_iff_example :
    ((decide_page default_ocr_policy blank_page).needs_ocr ≡ false)
    ↔ IsExempt default_ocr_policy blank_page
decide_page_iff_example = decide_page_iff default_ocr_policy blank_page

decide_document_iff_example :
    (((decide_document default_ocr_policy (document (blank_page ∷ scanned_page ∷ []))).needs_ocr
        ≡ true)
      ↔ ((p : ParsedPage) × Memᴰ p (blank_page ∷ scanned_page ∷ [])
          × (¬ IsExempt default_ocr_policy p)))
    × ((decide_document default_ocr_policy (document (blank_page ∷ scanned_page ∷ []))).pages
        ≡ map (decide_page default_ocr_policy) (blank_page ∷ scanned_page ∷ []))
decide_document_iff_example =
    decide_document_iff default_ocr_policy (document (blank_page ∷ scanned_page ∷ []))

abbrev read_page : OcrResultStatus → String → String → OcrPageResult
read_page status quality reason = record {
  page_number = 2;
  engine = "paddle";
  engine_version = "2";
  text = "Total assets 120";
  confidence = some (finite (pos 9000));
  lines = [];
  raw = [];
  decision_reason = reason;
  status = status;
  quality_reason = quality;
  quality_policy_version = "ocr-quality-v1";
  quality_policy_min_confidence = pos 6000;
}

abbrev recognizer : Recognizer
recognizer n = Result.returned (read_page OcrResultStatus.needs_review "" "")

abbrev page_decision : ℕ → Bool → PageOcrDecision
page_decision n needs = record {
  page_number = n;
  needs_ocr = needs;
  reason = "image_only_page";
  char_count = 0;
  text_block_count = 0;
  image_coverage = none;
  image_count = 1;
  image_coverage_error = none;
  policy = default_ocr_policy;
}

abbrev resolved : DocumentOcrDecision
resolved = record {
  needs_ocr = true;
  reason = "pages_require_ocr";
  pages = page_decision 1 false ∷ page_decision 2 true ∷ [];
  policy = default_ocr_policy;
}

abbrev read_document : DocumentOcrFallbackResult
read_document = record {
  pages = read_page OcrResultStatus.ok_ "sufficient_confidence" "image_only_page" ∷ [];
  skipped_page_numbers = 1 ∷ [];
  source_sha256 = "ab";
  needs_review = false;
  quality_policy_version = "ocr-quality-v1";
  quality_policy_min_confidence = pos 6000;
}

run_reads :
    run recognizer default_ocr_quality_policy
      (document (blank_page ∷ scanned_page ∷ []))
      false
      resolved
    ≡ ok read_document
unfolding run run_pages ocr_page assess_ocr_quality
run_reads = refl

run_lem_example :
    (map (λ (p : OcrPageResult). p.page_number) read_document.pages
      ≡ pages_with true (blank_page ∷ scanned_page ∷ []) resolved.pages)
    × (read_document.skipped_page_numbers
        ≡ pages_with false (blank_page ∷ scanned_page ∷ []) resolved.pages)
    × ((read_document.needs_review ≡ true) ↔ (
        (p : OcrPageResult) × Memᴰ p read_document.pages
        × (p.status ≡ OcrResultStatus.needs_review)))
    × ((p : OcrPageResult)
        → Memᴰ p read_document.pages
        → p.status ≡ OcrResultStatus.ok_
        → IsTrusted default_ocr_quality_policy p)
run_lem_example =
    run_lem recognizer default_ocr_quality_policy (document (blank_page ∷ scanned_page ∷ [])) false
      resolved read_document run_reads
