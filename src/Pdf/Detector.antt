-- ===== src/Pdf/Detector.antt =====
-- src/processing/pdf/detector.py: which pages need OCR. Thresholds and coverages are in one unit.
pub mod Decisions
use evidence_first_investmen.Base.{
  ℕ, String, Bool, true, false, not, ◌&&◌, Option, none, some, List, [], ◌∷◌, map, any, length, ltb,
  leb, ◌==◌, if◌then◌else◌, count_chars,
}
use evidence_first_investmen.Pdf.{ParsedPage, ParsedDocument}

pub record OcrThresholdPolicy : Type 0 where
  pub min_native_chars : ℕ
  pub high_image_coverage : ℕ
  pub low_image_coverage : ℕ
  pub version : String

-- The default thresholds, 0.20 and 0.05, in ten-thousandths.
abbrev pub default_ocr_policy : OcrThresholdPolicy
default_ocr_policy = record {
  min_native_chars = 50;
  high_image_coverage = 2000;
  low_image_coverage = 500;
  version = "ocr-policy-v1";
}

pub record PageOcrDecision : Type 0 where
  pub page_number : ℕ
  pub needs_ocr : Bool
  pub reason : String
  pub char_count : ℕ
  pub text_block_count : ℕ
  pub image_coverage : Option ℕ
  pub image_count : ℕ
  pub image_coverage_error : Option String
  pub policy : OcrThresholdPolicy

pub record DocumentOcrDecision : Type 0 where
  pub needs_ocr : Bool
  pub reason : String
  pub pages : List PageOcrDecision
  pub policy : OcrThresholdPolicy

module _ (policy : OcrThresholdPolicy) where
  abbrev pub decision : ParsedPage → Bool → String → PageOcrDecision
  decision page needs_ocr reason = record {
    page_number = page.page_number;
    needs_ocr = needs_ocr;
    reason = reason;
    char_count = count_chars page.text_normalized;
    text_block_count = length page.blocks;
    image_coverage = page.image_coverage;
    image_count = page.image_count;
    image_coverage_error = page.image_coverage_error;
    policy = policy;
  }

  -- The tests after the coverage is known to be measured.
  abbrev pub decide_measured : ParsedPage → ℕ → ℕ → PageOcrDecision
  decide_measured page char_count coverage =
      if char_count == 0 && ltb coverage policy.low_image_coverage
      then decision page false "blank_page"
      else if leb policy.high_image_coverage coverage
      then decision page true "low_text_high_image_coverage"
      else if char_count == 0 && leb policy.low_image_coverage coverage
      then decision page true "image_only_page"
      else decision page true "insufficient_native_text"

  abbrev pub decide_coverage : ParsedPage → ℕ → Option ℕ → Option String → PageOcrDecision
  decide_coverage page char_count none error = decision page true "image_coverage_unavailable"
  decide_coverage page char_count (some coverage) (some error) =
      decision page true "image_coverage_incomplete"
  decide_coverage page char_count (some coverage) none = decide_measured page char_count coverage

  unfoldable pub decide_page : ParsedPage → PageOcrDecision
  decide_page page =
      if leb policy.min_native_chars (count_chars page.text_normalized)
      then decision page false "sufficient_native_text"
      else decide_coverage page (count_chars page.text_normalized) page.image_coverage
          page.image_coverage_error

  abbrev pub no_ocr_reason : List PageOcrDecision → String
  no_ocr_reason [] = "empty_document"
  no_ocr_reason (d ∷ ds) = "all_pages_native_or_blank"

  unfoldable pub decide_document : ParsedDocument → DocumentOcrDecision
  unfolding decide_page
  decide_document document =
      let page_decisions = map decide_page document.pages in
      if any (λ d. d.needs_ocr) page_decisions
      then record {
        needs_ocr = true;
        reason = "pages_require_ocr";
        pages = page_decisions;
        policy = policy;
      }
      else record {
        needs_ocr = false;
        reason = no_ocr_reason page_decisions;
        pages = page_decisions;
        policy = policy;
      }
