-- ===== src/Ocr/Trust.antt =====
-- OCR text is trusted only with a good score, and only the flagged pages are read.
use mathlib.Core.Path.{subst}
use evidence_first_investmen.Base.{
  ℕ, ◌≡◌, ◌↔◌, refl, sym, ap, ◌∙◌, inl, inr, Bool, true, false, not, Option, none, some, List, [],
  ◌∷◌, map, Memᴰ, arith, any, any_of_mem, mem_of_any, mem-cons-cases, length, pos, ℤ, ◌≤ℤ◌, ok,
  >>=-eq-ok, ok-injective, Bool-cases, ◌==◌, ==_iff, is_blank, call, if◌then◌else◌,
}
use evidence_first_investmen.Pdf.{ParsedPage, ParsedDocument}
use evidence_first_investmen.Pdf.Detector.{PageOcrDecision, DocumentOcrDecision}
use evidence_first_investmen.Ocr.{
  OcrResultStatus, Score, finite, not_finite, score_one, OcrPageResult, DocumentOcrFallbackResult,
  OcrQualityPolicy, assess_confidence, assess_ocr_quality, is_needs_review, Recognizer, ocr_page,
  run_pages, run,
}

-- What a trusted page has: text, and a score in [0, 1] that reaches the policy's minimum.
pub record IsTrusted (policy : OcrQualityPolicy) (p : OcrPageResult) : Type 0 where
  pub has_text : is_blank p.text ≡ false
  pub score : ℤ
  pub scored : p.confidence ≡ some (finite score)
  pub from_zero : pos 0 ≤ℤ score
  pub to_one : score ≤ℤ pos score_one
  pub enough : policy.min_confidence ≤ℤ score

confidence_enough :
    (policy : OcrQualityPolicy) (c : Option Score)
    → (assess_confidence policy c).0 ≡ OcrResultStatus.ok_
    → (v : ℤ) × (c ≡ some (finite v))
      × (pos 0 ≤ℤ v)
      × (v ≤ℤ pos score_one)
      × (policy.min_confidence ≤ℤ v)
confidence_enough policy none h = cc
confidence_enough policy (some not_finite) h = cc
confidence_enough policy (some (finite v)) h = (v, refl, ground arith, ground arith, ground arith)

-- A page that the assessment marks OK is one with text and a valid score that is high enough.
assess-IsTrusted :
    (policy : OcrQualityPolicy) (result : OcrPageResult)
    → (assess_ocr_quality policy result).status ≡ OcrResultStatus.ok_
    → IsTrusted policy (assess_ocr_quality policy result)
unfolding assess_ocr_quality
assess-IsTrusted policy result h = elim (Bool-cases (is_blank result.text)) [
  | inl blank ↦ cc (rw (blank, assess_ocr_quality) at h)
  | inr text ↦
      let (v, e, lo, hi, up) =
        confidence_enough policy result.confidence (rw (text, assess_ocr_quality) at h) in
      record { has_text = text; score = v; scored = e; from_zero = lo; to_one = hi; enough = up }
]

abbrev same_bool : Bool → Bool → Bool
same_bool true b = b
same_bool false b = not b

-- The numbers of the pages whose decision says `wanted`, in order.
abbrev pub pages_with : Bool → List ParsedPage → List PageOcrDecision → List ℕ
pages_with wanted [] decisions = []
pages_with wanted (page ∷ pages) [] = []
pages_with wanted (page ∷ pages) (d ∷ decisions) =
    if same_bool d.needs_ocr wanted
    then page.page_number ∷ pages_with wanted pages decisions
    else pages_with wanted pages decisions

is_needs_review_iff :
    (s : OcrResultStatus) → (is_needs_review s ≡ true) ↔ (s ≡ OcrResultStatus.needs_review)
is_needs_review_iff OcrResultStatus.needs_review = (λ _. refl, λ _. refl)
is_needs_review_iff OcrResultStatus.ok_ = (λ h. cc, λ h. cc)

review_iff :
    (pages : List OcrPageResult)
    → (any (λ (p : OcrPageResult). is_needs_review p.status) pages ≡ true)
      ↔ ((p : OcrPageResult) × Memᴰ p pages × (p.status ≡ OcrResultStatus.needs_review))
review_iff pages = (
  λ h. let (p, m, e) = mem_of_any _ pages h in (p, m, (is_needs_review_iff p.status).0 e),
  λ (p, m, e). any_of_mem _ pages m ((is_needs_review_iff p.status).1 e),
)

module _ (recognize : Recognizer) (policy : OcrQualityPolicy) where
  ocr_page-Assessed :
      (page : ParsedPage) (d : PageOcrDecision) {p : OcrPageResult}
      → ocr_page recognize policy page d ≡ ok p
      → (r : OcrPageResult) × (p ≡ assess_ocr_quality policy r) × (p.page_number ≡ page.page_number)
  unfolding ocr_page
  ocr_page-Assessed page d h =
      let (r, _, e) = >>=-eq-ok (call (recognize page.page_number)) _ h in
      elim (Bool-cases (r.page_number == page.page_number)) [
        | inr f ↦ cc (rw f at e)
        | inl t ↦
            let same = ok-injective (rw t at e) in
            (
              record r { decision_reason = d.reason },
              sym same,
              ap (λ (p : OcrPageResult). p.page_number) (sym same) ∙ (==_iff _ _).0 t,
            )
      ]

  -- What a run leaves: the flagged pages, each assessed, and the others, in order.
  pub record Ran (pages : List ParsedPage) (decisions : List PageOcrDecision)
      (r : List OcrPageResult × List ℕ) : Type 0 where
    pub read : map (λ (p : OcrPageResult). p.page_number) r.0 ≡ pages_with true pages decisions
    pub left : r.1 ≡ pages_with false pages decisions
    pub assessed :
        (p : OcrPageResult)
        → Memᴰ p r.0
        → (before : OcrPageResult) × (p ≡ assess_ocr_quality policy before)

  run_pages-Ran :
      (pages : List ParsedPage) (decisions : List PageOcrDecision) {r : List OcrPageResult × List ℕ}
      → run_pages recognize policy pages decisions ≡ ok r
      → Ran pages decisions r
  unfolding run_pages
  run_pages-Ran [] decisions h =
      subst (Ran [] decisions) (ok-injective h)
        (record { read = refl; left = refl; assessed = λ p m. elim m [ ] })
  run_pages-Ran (page ∷ pages) [] h =
      subst (Ran (page ∷ pages) []) (ok-injective h)
        (record { read = refl; left = refl; assessed = λ p m. elim m [ ] })
  run_pages-Ran (page ∷ pages) (d ∷ decisions) h =
      elim (Bool-cases (page.page_number == d.page_number)) [
        | inr f ↦ cc (rw f at h)
        | inl same ↦ elim (Bool-cases d.needs_ocr) [
          | inr skip ↦
              let (r, e, last) =
                >>=-eq-ok (run_pages recognize policy pages decisions) _ (rw (same, skip) at h) in
              let ih = run_pages-Ran pages decisions e in
              subst (Ran (page ∷ pages) (d ∷ decisions)) (ok-injective last) (record {
                read = rw skip ih.read;
                left = rw skip (ap (λ l. page.page_number ∷ l) ih.left);
                assessed = ih.assessed;
              })
          | inl read ↦
              let (p, e1, h1) =
                >>=-eq-ok (ocr_page recognize policy page d) _ (rw (same, read) at h) in
              let (r, e2, last) = >>=-eq-ok (run_pages recognize policy pages decisions) _ h1 in
              let ih = run_pages-Ran pages decisions e2 in
              let (before, made, number) = ocr_page-Assessed page d e1 in
              subst (Ran (page ∷ pages) (d ∷ decisions)) (ok-injective last) (record {
                read = rw (read, number) (ap (λ l. page.page_number ∷ l) ih.read);
                left = rw read ih.left;
                assessed = λ q m. elim (mem-cons-cases m) [
                  | inl first ↦ (before, first ∙ made)
                  | inr later ↦ ih.assessed q later
                ];
              })
        ]
      ]

-- A run that returns has read the flagged pages and skipped the others, in the document's order; its
-- result needs review exactly when one of its pages does; and each page that it marks OK has text and
-- a valid score that reaches the policy's minimum.
pub run_lem :
    (recognize : Recognizer) (policy : OcrQualityPolicy) (document : ParsedDocument)
    (bytes_empty : Bool) (resolved : DocumentOcrDecision) (result : DocumentOcrFallbackResult)
    → run recognize policy document bytes_empty resolved ≡ ok result
    → (map (λ (p : OcrPageResult). p.page_number) result.pages
        ≡ pages_with true document.pages resolved.pages)
      × (result.skipped_page_numbers ≡ pages_with false document.pages resolved.pages)
      × ((result.needs_review ≡ true)
          ↔ ((p : OcrPageResult) × Memᴰ p result.pages × (p.status ≡ OcrResultStatus.needs_review)))
      × ((p : OcrPageResult)
          → Memᴰ p result.pages
          → p.status ≡ OcrResultStatus.ok_
          → IsTrusted policy p)
unfolding run
run_lem recognize policy document empty_ resolved result h = elim (Bool-cases empty_) [
  | inl none_ ↦ cc (rw none_ at h)
  | inr bytes ↦ elim (Bool-cases (length resolved.pages == length document.pages)) [
    | inr f ↦ cc (rw (bytes, f) at h)
    | inl fits ↦
        let (r, ran, last) =
          >>=-eq-ok (run_pages recognize policy document.pages resolved.pages) _
            (rw (bytes, fits) at h) in
        let inv = run_pages-Ran recognize policy document.pages resolved.pages ran in
        let same = sym (ok-injective last) in
        let pages_are : result.pages ≡ r.0 = ap (λ (d : DocumentOcrFallbackResult). d.pages) same in
        (
          rw pages_are inv.read,
          ap (λ (d : DocumentOcrFallbackResult). d.skipped_page_numbers) same ∙ inv.left,
          rw (pages_are, ap (λ (d : DocumentOcrFallbackResult). d.needs_review) same)
              (review_iff r.0),
          λ p m good.
              let (before, made) = inv.assessed p (rw pages_are at m) in
              rw made (assess-IsTrusted policy before (rw made at good)),
        )
  ]
]
