-- ===== src/Ocr.antt =====
-- src/processing/ocr: the OCR results (models.py), their quality (quality.py), and the run over the
-- pages that the detector flags (fallback.py). Rendering a page and the engine are external.
pub mod Trust
use evidence_first_investmen.Base.{
  ℕ, ℤ, pos, String, Bool, true, false, not, ◌&&◌, Option, none, some, List, [], ◌∷◌, map, any,
  length, ltb, leb, ◌==◌, if◌then◌else◌, leb_ℤ, ltb_ℤ, is_blank, Outcome, ok, raise, Error, error,
  ocr_failure, Result, call, ◌>>=◌,
}
use evidence_first_investmen.Pdf.{ParsedPage, ParsedDocument}
use evidence_first_investmen.Pdf.Detector.{
  OcrThresholdPolicy, PageOcrDecision, DocumentOcrDecision, decide_document,
}

pub data OcrResultStatus : Type 0 where
  ok_ needs_review : OcrResultStatus

-- A float score, in ten-thousandths; NaN and the infinities are `not_finite`.
pub data Score : Type 0 where
  not_finite : Score
  finite : ℤ → Score

-- 1.0
abbrev pub score_one : ℕ
score_one = 10000

pub record OcrTextLine : Type 0 where
  pub text : String
  pub confidence : Option Score
  pub bbox : Option (ℤ × ℤ × ℤ × ℤ)

pub record OcrPageResult : Type 0 where
  pub page_number : ℕ
  pub engine : String
  pub engine_version : String
  pub text : String
  pub confidence : Option Score
  pub lines : List OcrTextLine
  pub raw : List OcrTextLine
  pub decision_reason : String
  pub status : OcrResultStatus
  pub quality_reason : String
  pub quality_policy_version : String
  pub quality_policy_min_confidence : ℤ

pub record DocumentOcrFallbackResult : Type 0 where
  pub pages : List OcrPageResult
  pub skipped_page_numbers : List ℕ
  pub source_sha256 : String
  pub needs_review : Bool
  pub quality_policy_version : String
  pub quality_policy_min_confidence : ℤ

pub record OcrQualityPolicy : Type 0 where
  pub min_confidence : ℤ
  pub version : String

abbrev pub default_ocr_quality_policy : OcrQualityPolicy
default_ocr_quality_policy = record { min_confidence = pos 6000; version = "ocr-quality-v1" }

-- `math.isfinite(value) and 0.0 <= value <= 1.0`
abbrev pub is_valid_confidence : Score → Bool
is_valid_confidence not_finite = false
is_valid_confidence (finite v) = leb_ℤ (pos 0) v && leb_ℤ v (pos score_one)

-- `value < minimum`; a comparison with NaN is false.
abbrev pub score_lt : Score → ℤ → Bool
score_lt not_finite minimum = false
score_lt (finite v) minimum = ltb_ℤ v minimum

abbrev pub assess_confidence : OcrQualityPolicy → Option Score → OcrResultStatus × String
assess_confidence policy none = (OcrResultStatus.needs_review, "missing_confidence")
assess_confidence policy (some c) =
    if not (is_valid_confidence c)
    then (OcrResultStatus.needs_review, "invalid_confidence")
    else if score_lt c policy.min_confidence
    then (OcrResultStatus.needs_review, "low_confidence")
    else (OcrResultStatus.ok_, "sufficient_confidence")

abbrev pub verdict : OcrQualityPolicy → OcrPageResult → OcrResultStatus × String
verdict policy result =
    if is_blank result.text
    then (OcrResultStatus.needs_review, "no_text_detected")
    else assess_confidence policy result.confidence

unfoldable pub assess_ocr_quality : OcrQualityPolicy → OcrPageResult → OcrPageResult
assess_ocr_quality policy result = record result {
  status = (verdict policy result).0;
  quality_reason = (verdict policy result).1;
  quality_policy_version = policy.version;
  quality_policy_min_confidence = policy.min_confidence;
}

abbrev pub is_needs_review : OcrResultStatus → Bool
is_needs_review OcrResultStatus.needs_review = true
is_needs_review OcrResultStatus.ok_ = false

-- `render_pdf_page` and then the engine's `recognize`, for one page number.
abbrev pub Recognizer : Type 0
Recognizer = ℕ → Result OcrPageResult

module _ (recognize : Recognizer) (policy : OcrQualityPolicy) where
  -- One page that the detector flagged.
  unfoldable pub ocr_page : ParsedPage → PageOcrDecision → Outcome OcrPageResult
  unfolding assess_ocr_quality
  ocr_page page page_decision = call (recognize page.page_number) >>= λ result.
      if result.page_number == page.page_number
      then ok (assess_ocr_quality policy (record result { decision_reason = page_decision.reason }))
      else raise (error ocr_failure "OCRFailure" "OCR engine returned mismatched page_number")

  -- The loop over `zip(document.pages, resolved.pages)`: the OCR pages and the skipped numbers.
  unfoldable pub run_pages :
      List ParsedPage → List PageOcrDecision → Outcome (List OcrPageResult × List ℕ)
  unfolding ocr_page
  run_pages [] decisions = ok ([], [])
  run_pages (page ∷ pages) [] = ok ([], [])
  run_pages (page ∷ pages) (d ∷ decisions) =
      let rest = run_pages pages decisions in
      if not (page.page_number == d.page_number)
      then raise (error ocr_failure "OCRFailure" "OCR decision page_number mismatch")
      else if not d.needs_ocr
      then (rest >>= λ r. ok (r.0, page.page_number ∷ r.1))
      else (ocr_page page d >>= λ assessed. rest >>= λ r. ok (assessed ∷ r.0, r.1))

  unfoldable pub run :
      ParsedDocument → Bool → DocumentOcrDecision → Outcome DocumentOcrFallbackResult
  unfolding run_pages
  run document bytes_empty resolved =
      if bytes_empty
      then raise (error ocr_failure "OCRFailure" "pdf_bytes must not be empty for OCR fallback")
      else if not (length resolved.pages == length document.pages)
      then raise (
          error ocr_failure "OCRFailure"
            "OCR decision page count does not match parsed document pages")
      else run_pages document.pages resolved.pages >>= λ r. ok (record {
        pages = r.0;
        skipped_page_numbers = r.1;
        source_sha256 = document.source_sha256;
        needs_review = any (λ p. is_needs_review p.status) r.0;
        quality_policy_version = policy.version;
        quality_policy_min_confidence = policy.min_confidence;
      })
