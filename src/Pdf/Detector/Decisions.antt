-- ===== src/Pdf/Detector/Decisions.antt =====
-- What the detector decides, over every policy.
use evidence_first_investmen.Base.{
  ℕ, leb, String, ◌<◌, ◌≤◌, ◌≡◌, ◌↔◌, ◌⊎◌, inl, inr, refl, true, false, Option, none, some, map,
  Memᴰ, arith, any, any_of_mem, mem_of_any, Bool-cases, count_chars, mem-map_of_mem, mem_of_mem-map,
}
use evidence_first_investmen.Pdf.{ParsedPage, ParsedDocument}
use evidence_first_investmen.Pdf.Detector.{
  OcrThresholdPolicy, PageOcrDecision, decide_coverage, decide_page, decide_document,
}

-- The independent description: a page goes without OCR when it has enough native text, or when its
-- coverage was measured without error, is below the low threshold, and there is no text at all.
abbrev pub IsExempt : OcrThresholdPolicy → ParsedPage → Type 0
IsExempt policy page =
    (policy.min_native_chars ≤ count_chars page.text_normalized)
    ⊎ ((count_chars page.text_normalized ≡ 0)
        × (page.image_coverage_error ≡ none)
        × (coverage : ℕ) × (page.image_coverage ≡ some coverage)
        × (coverage < policy.low_image_coverage))

module _ (policy : OcrThresholdPolicy) (page : ParsedPage) (n : ℕ) where
  exempt_of_decision :
      (coverage : Option ℕ) (error : Option String)
      → (decide_coverage policy page n coverage error).needs_ocr ≡ false
      → (n ≡ 0) × (error ≡ none) × (k : ℕ) × (coverage ≡ some k) × (k < policy.low_image_coverage)
  exempt_of_decision none error h = cc
  exempt_of_decision (some k) (some error) h = cc
  exempt_of_decision (some k) none h = (ground arith, refl, k, refl, ground arith)

  decision_of_exempt :
      (coverage : Option ℕ) (error : Option String) (k : ℕ)
      → n ≡ 0
      → error ≡ none
      → coverage ≡ some k
      → k < policy.low_image_coverage
      → (decide_coverage policy page n coverage error).needs_ocr ≡ false
  decision_of_exempt none error k z e c l = cc
  decision_of_exempt (some j) (some error) k z e c l = cc
  decision_of_exempt (some j) none k z e c l = ground arith

-- A page is left without OCR exactly when it has enough native text, or has no text at all and a
-- coverage that was measured without error and is below the low threshold.
pub decide_page_iff :
    (policy : OcrThresholdPolicy) (page : ParsedPage)
    → ((decide_page policy page).needs_ocr ≡ false) ↔ IsExempt policy page
unfolding decide_page
decide_page_iff policy page =
    elim (Bool-cases (leb policy.min_native_chars (count_chars page.text_normalized))) [
      | inl t ↦ (λ h. inl (ground arith), λ h. rw (t, decide_page))
      | inr f ↦ (
        λ h. inr (
            exempt_of_decision policy page (count_chars page.text_normalized) page.image_coverage
              page.image_coverage_error (rw (f, decide_page) at h)),
        λ h. elim h [
          | inl enough ↦ absurd (ground arith)
          | inr (z, e, k, c, l) ↦
              rw (f, decide_page)
                (decision_of_exempt policy page (count_chars page.text_normalized)
                  page.image_coverage page.image_coverage_error k z e c l)
        ],
      )
    ]

-- A document needs OCR exactly when one of its pages is not exempt, and it decides its pages one by
-- one, in order.
pub decide_document_iff :
    (policy : OcrThresholdPolicy) (document : ParsedDocument)
    → (((decide_document policy document).needs_ocr ≡ true)
        ↔ ((page : ParsedPage) × Memᴰ page document.pages × (¬ IsExempt policy page)))
      × ((decide_document policy document).pages ≡ map (decide_page policy) document.pages)
unfolding decide_document
decide_document_iff policy document =
    ((λ h. found (ground arith), λ (page, m, n). rw (needs page m n)), ground arith)
  where
    found :
        any (λ (d : PageOcrDecision). d.needs_ocr) (map (decide_page policy) document.pages) ≡ true
        → (page : ParsedPage) × Memᴰ page document.pages × (¬ IsExempt policy page)
    found t =
        let (d, md, e) = mem_of_any _ (map (decide_page policy) document.pages) t in
        let (page, mp, same) = mem_of_mem-map (decide_page policy) document.pages md in
        (page, mp, λ exempt. cc ((decide_page_iff policy page).1 exempt))

    needs :
        (page : ParsedPage)
        → Memᴰ page document.pages
        → ¬ IsExempt policy page
        → any (λ (d : PageOcrDecision). d.needs_ocr) (map (decide_page policy) document.pages)
          ≡ true
    needs page m n =
        any_of_mem _ _ (mem-map_of_mem (decide_page policy) document.pages m)
          (elim (Bool-cases (decide_page policy page).needs_ocr) [
            | inl t ↦ t
            | inr f ↦ absurd (n ((decide_page_iff policy page).0 f))
          ])
