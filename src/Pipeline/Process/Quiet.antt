-- ===== src/Pipeline/Process/Quiet.antt =====
-- The steps of src/processing/pipeline.py that gave no warning that asks for review.
use mathlib.Core.Path.{subst}
use mathlib.Core.List.{Memᴰ}
use text.Mathlib.Text.{starts_with}
use text.Mathlib.TextPositions.{starts_with-append}
use evidence_first_investmen.Base.{
  ℕ, String, ◌≡◌, refl, sym, ap, ◌∙◌, ◌≢◌, inl, inr, Bool, true, false, not, ◌||◌, Option, none,
  some, List, [], ◌∷◌, ◌++◌, any, arith, Bool-cases, any_of_mem, Result, ok, is_processing_error,
  call, >>=-eq-ok, ok-pair-injective, catch-eq-ok, call-eq-ok, if◌then◌else◌, str_eq, ◌<>◌,
  take_chars, str_eq_iff,
}
use evidence_first_investmen.Domain.{ProcessingStatus}
use evidence_first_investmen.Pdf.{ParsedDocument}
use evidence_first_investmen.Pdf.Detector.{DocumentOcrDecision}
use evidence_first_investmen.Ocr.{Recognizer, DocumentOcrFallbackResult, run}
use evidence_first_investmen.Classify.{DocumentClassification}
use evidence_first_investmen.Tables.{
  TableExtractionContext, TableExtractionResult, extraction_needs_review,
}
use evidence_first_investmen.Tables.Reconstruction.{ReconstructStatus}
use evidence_first_investmen.Pipeline.{
  DocumentProcessRequest, asks_review, review_prefixes, terminal_status,
}
use evidence_first_investmen.Pipeline.Parts.{
  Parts, class_warnings, table_warnings, rebuilt_warnings, failure_warnings,
}
use evidence_first_investmen.Pipeline.Documents.{
  read_ocr, read_with, ocr_warnings, extract_tables, has_bytes,
}

abbrev pub IsQuiet : List String → Type 0
IsQuiet warnings = any asks_review warnings ≡ false

pub IsQuiet-left : (xs ys : List String) → IsQuiet (xs ++ ys) → IsQuiet xs
IsQuiet-left [] ys h = refl
IsQuiet-left (x ∷ xs) ys h = elim (Bool-cases (asks_review x)) [
  | inl t ↦ cc (rw t at h)
  | inr f ↦ rw f (IsQuiet-left xs ys (rw f at h))
]

pub IsQuiet-right : (xs ys : List String) → IsQuiet (xs ++ ys) → IsQuiet ys
IsQuiet-right [] ys h = h
IsQuiet-right (x ∷ xs) ys h = elim (Bool-cases (asks_review x)) [
  | inl t ↦ cc (rw t at h)
  | inr f ↦ IsQuiet-right xs ys (rw f at h)
]

pub IsQuiet-of_processed :
    (ws : List String) → terminal_status ws ≡ ProcessingStatus.processed → IsQuiet ws
unfolding terminal_status
IsQuiet-of_processed ws h = elim (Bool-cases (any asks_review ws)) [
  | inl t ↦ cc (rw t at h)
  | inr f ↦ f
]

if_true {ℓ} : {A : Type ℓ} (b : Bool) (x y : A) → b ≡ true → (if b then x else y) ≡ x
if_true b x y h = ground arith

or_middle : (a b c : Bool) → b ≡ true → (a || b || c) ≡ true
or_middle a b c h = ground arith

-- A known token, a colon, and whatever follows.
asks_of_token :
    (token rest : String) → Memᴰ token review_prefixes → asks_review ((token <> ":") <> rest) ≡ true
unfolding asks_review
asks_of_token token rest m =
    any_of_mem
      (λ t.
        str_eq ((token <> ":") <> rest) t
        || starts_with ((token <> ":") <> rest) (t <> ":")
        || starts_with ((token <> ":") <> rest) t)
      review_prefixes m (or_middle _ _ _ (starts_with-append (token <> ":") rest))

abbrev rebuilt_listed : Memᴰ "table_reconstruction_needs_review" review_prefixes
rebuilt_listed =
    Memᴰ.tail (Memᴰ.tail (Memᴰ.tail (Memᴰ.tail (Memᴰ.tail (Memᴰ.tail (Memᴰ.head refl))))))

abbrev ocr_listed : Memᴰ "ocr_failed" review_prefixes
ocr_listed = Memᴰ.tail (Memᴰ.tail (Memᴰ.head refl))

abbrev extraction_listed : Memᴰ "table_extraction_failed" review_prefixes
extraction_listed = Memᴰ.tail (Memᴰ.tail (Memᴰ.tail (Memᴰ.tail (Memᴰ.head refl))))

asks_rebuilt : (id : String) → asks_review ("table_reconstruction_needs_review:" <> id) ≡ true
asks_rebuilt id = asks_of_token "table_reconstruction_needs_review" id rebuilt_listed

asks_ocr_failed : (name : String) → asks_review ("ocr_failed:" <> name) ≡ true
asks_ocr_failed name = asks_of_token "ocr_failed" name ocr_listed

asks_extraction_failed : (name : String) → asks_review ("table_extraction_failed:" <> name) ≡ true
asks_extraction_failed name = asks_of_token "table_extraction_failed" name extraction_listed

asks_exactly :
    (asks_review "ocr_required_but_engine_not_configured" ≡ true)
    × (asks_review "ocr_needs_review" ≡ true)
    × (asks_review "classification_unmatched" ≡ true)
    × (asks_review "table_extraction_needs_review" ≡ true)
unfolding asks_review
asks_exactly = (refl, refl, refl, refl)

quiet_head : (w : String) (ws : List String) → IsQuiet (w ∷ ws) → asks_review w ≢ true
quiet_head w ws h t = cc (rw t at h)

pub status_ok :
    (id : String) (s : ReconstructStatus)
    → IsQuiet (rebuilt_warnings id s)
    → s ≡ ReconstructStatus.ok_
status_ok id ReconstructStatus.ok_ h = refl
status_ok id ReconstructStatus.needs_review h = absurd (quiet_head _ [] h (asks_rebuilt id))

module _ (parts : Parts) where
  -- What a document that needs OCR has when its reading left no doubt.
  abbrev pub IsRead : DocumentOcrDecision → Option DocumentOcrFallbackResult → Type 0
  IsRead decision ocr =
      decision.needs_ocr ≡ true
      → (r : DocumentOcrFallbackResult) × (ocr ≡ some r) × (r.needs_review ≡ false)

  quiet_ocr_warnings :
      (r : DocumentOcrFallbackResult) → IsQuiet (ocr_warnings parts r) → r.needs_review ≡ false
  quiet_ocr_warnings r h = elim (Bool-cases r.needs_review) [
    | inl t ↦ absurd (quiet_head _ [] (rw t at h) asks_exactly.1)
    | inr f ↦ f
  ]

  read_with-IsRead :
      (engine : Option (List ℕ → Recognizer)) (request : DocumentProcessRequest)
      (parsed : ParsedDocument) (decision : DocumentOcrDecision)
      (ocr : Option DocumentOcrFallbackResult) (ws : List String)
      → read_with parts engine request parsed decision ≡ ok (ocr, ws)
      → IsQuiet ws
      → IsRead decision ocr
  unfolding read_with
  read_with-IsRead none request parsed decision ocr ws h quiet needs =
      absurd (quiet_head _ [] (subst IsQuiet (sym (ok-pair-injective h).1) quiet) asks_exactly.0)
  read_with-IsRead (some engine) request parsed decision ocr ws h quiet needs =
      elim (catch-eq-ok is_processing_error _ (λ e. ok (none, failure_warnings "ocr_failed:" e))
        h) [
          | inl done ↦
              let (r, e, h1) =
                >>=-eq-ok
                  (run (engine request.data_) parts.quality_policy parsed
                    (not (has_bytes parts request.data_)) decision)
                  _ done in
              let (same, same_ws) = ok-pair-injective h1 in
              (r, sym same, quiet_ocr_warnings r (subst IsQuiet (sym same_ws) quiet))
          | inr (e, failed) ↦ absurd (
              quiet_head _ (take_chars 200 e.message ∷ [])
                (subst IsQuiet (sym (ok-pair-injective failed).1) quiet) (asks_ocr_failed e.name))
        ]

  pub read_ocr-IsRead :
      (request : DocumentProcessRequest) (parsed : ParsedDocument) (decision : DocumentOcrDecision)
      (ocr : Option DocumentOcrFallbackResult) (ws : List String)
      → read_ocr parts request parsed decision ≡ ok (ocr, ws)
      → IsQuiet ws
      → IsRead decision ocr
  unfolding read_ocr
  read_ocr-IsRead request parsed decision ocr ws h quiet needs =
      read_with-IsRead parts.ocr_engine request parsed decision ocr ws
        (sym (if_true decision.needs_ocr _ _ needs) ∙ h) quiet needs

  pub extract_tables-returned :
      (request : DocumentProcessRequest) (context : TableExtractionContext)
      (extraction : TableExtractionResult) (ws : List String)
      → extract_tables parts request context ≡ ok (extraction, ws)
      → IsQuiet ws
      → parts.extract_pdf request.data_ context ≡ Result.returned extraction
  unfolding extract_tables
  extract_tables-returned request context extraction ws h quiet =
      elim (catch-eq-ok is_processing_error _
        (λ e. ok (
          record { tables = []; page_issues = []; context = context; warnings = [] },
          failure_warnings "table_extraction_failed:" e,
        ))
        h) [
          | inl done ↦
              let (r, e, h1) = >>=-eq-ok (call (parts.extract_pdf request.data_ context)) _ done in
              call-eq-ok _ e ∙ ap Result.returned (ok-pair-injective h1).0
          | inr (e, failed) ↦ absurd (
              quiet_head _ (take_chars 200 e.message ∷ [])
                (subst IsQuiet (sym (ok-pair-injective failed).1) quiet)
                (asks_extraction_failed e.name))
        ]

  pub quiet_classification :
      (c : DocumentClassification)
      → IsQuiet (class_warnings c)
      → (c.reason ≢ "unmatched_needs_llm") × (c.reason ≢ "unmatched")
  quiet_classification c h =
      elim (Bool-cases (str_eq c.reason "unmatched_needs_llm" || str_eq c.reason "unmatched")) [
        | inl t ↦ absurd (quiet_head _ [] (rw t at h) asks_exactly.2)
        | inr f ↦ (
          λ e. cc (sym f ∙ or_left _ _ ((str_eq_iff c.reason "unmatched_needs_llm").1 e)),
          λ e. cc (sym f ∙ or_right _ _ ((str_eq_iff c.reason "unmatched").1 e)),
        )
      ]
    where
      or_left : (a b : Bool) → a ≡ true → (a || b) ≡ true
      or_left a b h' = ground arith

      or_right : (a b : Bool) → b ≡ true → (a || b) ≡ true
      or_right a b h' = ground arith

  pub quiet_extraction :
      (t : TableExtractionResult) → IsQuiet (table_warnings t) → extraction_needs_review t ≡ false
  quiet_extraction t h = elim (Bool-cases (extraction_needs_review t)) [
    | inl y ↦ absurd (quiet_head _ [] (rw y at h) asks_exactly.3)
    | inr f ↦ f
  ]
