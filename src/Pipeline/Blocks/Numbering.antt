-- ===== src/Pipeline/Blocks/Numbering.antt =====
-- The block numbers that src/processing/pipeline.py gives: per page, 0, 1, 2 and so on.
use mathlib.Core.Path.{subst}
use evidence_first_investmen.Base.{
  ℕ, suc, ◌+◌, true, false, ◌≡◌, refl, ap, ◌∙◌, inl, inr, Option, some, List, [], ◌∷◌, ◌++◌, length,
  select, ◌==◌, ==_iff, if◌then◌else◌, Bool-cases, arith, ok, >>=-eq-ok, ok-injective,
  ok-pair-injective,
}
use evidence_first_investmen.Pdf.{TextBlock, ParsedPage, ParsedDocument}
use evidence_first_investmen.Ocr.{OcrPageResult, DocumentOcrFallbackResult}
use evidence_first_investmen.Tables.Reconstruction.{ReconstructedTable}
use evidence_first_investmen.Pipeline.{PipelineBlockDraft}
use evidence_first_investmen.Pipeline.Merge.{get, put, value_or}
use evidence_first_investmen.Pipeline.Blocks.{
  domain_box, page_blocks, native_blocks, ocr_blocks, ocr_pages_of, table_blocks, pdf_blocks,
  sheet_blocks, excel_blocks,
}

get-put {ℓ} :
    {A : Type ℓ} (p q : ℕ) (a : A) (m : List (ℕ × A))
    → get p (put q a m) ≡ (if q == p then some a else get p m)
get-put p q a [] = refl
get-put p q a ((r, b) ∷ m) = elim (Bool-cases (r == q)) [
  | inl t ↦
      let e : r ≡ q = (==_iff r q).0 t in
      elim (Bool-cases (q == p)) [
        | inl u ↦ let here : (r == p) ≡ true = ground arith in rw (t, u, here)
        | inr u ↦ let other : (r == p) ≡ false = ground arith in rw (t, u, other)
      ]
  | inr f ↦ elim (Bool-cases (r == p)) [
    | inl t ↦
        let e : r ≡ p = (==_iff r p).0 t in
        let apart : (q == p) ≡ false = ground arith in rw (f, t, apart)
    | inr u ↦ rw (f, u) (get-put p q a m)
  ]
]

-- How many blocks each page has so far, counted afresh.
abbrev bump : ℕ → (ℕ → ℕ) → ℕ → ℕ
bump q count p = if q == p then suc (count p) else count p

abbrev after : List PipelineBlockDraft → (ℕ → ℕ) → ℕ → ℕ
after [] count = count
after (b ∷ bs) count = after bs (bump b.page_number count)

data Numbered : (ℕ → ℕ) → List PipelineBlockDraft → Type 0 where
  nil : {count : ℕ → ℕ} → Numbered count []
  next :
      {count : ℕ → ℕ} {b : PipelineBlockDraft} {bs : List PipelineBlockDraft}
      → b.block_index ≡ count b.page_number
      → Numbered (bump b.page_number count) bs
      → Numbered count (b ∷ bs)

append-Numbered :
    (xs ys : List PipelineBlockDraft) (count : ℕ → ℕ)
    → Numbered count xs
    → Numbered (after xs count) ys
    → Numbered count (xs ++ ys)
append-Numbered [] ys count n m = m
append-Numbered (x ∷ xs) ys count (next e n) m =
    next e (append-Numbered xs ys (bump x.page_number count) n m)

after-append :
    (count : ℕ → ℕ) (xs ys : List PipelineBlockDraft)
    → after (xs ++ ys) count ≡ after ys (after xs count)
after-append count [] ys = refl
after-append count (x ∷ xs) ys = after-append (bump x.page_number count) xs ys

-- `indexes` says how many blocks each page has.
abbrev Tracks : List (ℕ × ℕ) → (ℕ → ℕ) → Type 0
Tracks indexes count = (p : ℕ) → value_or 0 (get p indexes) ≡ count p

place-Tracks :
    (indexes : List (ℕ × ℕ)) (count : ℕ → ℕ) (page : ℕ)
    → Tracks indexes count
    → Tracks (put page (suc (value_or 0 (get page indexes))) indexes) (bump page count)
place-Tracks indexes count page t p = elim (Bool-cases (page == p)) [
  | inl same ↦
      let e : page ≡ p = (==_iff page p).0 same in
      rw (get-put p page (suc (value_or 0 (get page indexes))) indexes, same, e) (ap suc (t p))
  | inr other ↦ rw (get-put p page (suc (value_or 0 (get page indexes))) indexes, other) (t p)
]

-- What a step does: it numbers its drafts from the counts so far, and keeps the counts.
record Step (count : ℕ → ℕ) (drafts : List PipelineBlockDraft) (last : List (ℕ × ℕ)) : Type 0 where
  numbered : Numbered count drafts
  tracks : Tracks last (after drafts count)

ocr_blocks-Step :
    (pages : List OcrPageResult) (indexes : List (ℕ × ℕ)) (count : ℕ → ℕ)
    → Tracks indexes count
    → Step count (ocr_blocks pages indexes).0 (ocr_blocks pages indexes).1
unfolding ocr_blocks
ocr_blocks-Step [] indexes count t = record { numbered = nil; tracks = t }
ocr_blocks-Step (page ∷ pages) indexes count t =
    let rest = ocr_blocks-Step pages _ _ (place-Tracks indexes count page.page_number t) in
    record { numbered = next (t page.page_number) rest.numbered; tracks = rest.tracks }

table_blocks-Step :
    (tables : List ReconstructedTable) (indexes : List (ℕ × ℕ)) (count : ℕ → ℕ)
    → Tracks indexes count
    → Step count (table_blocks tables indexes).0 (table_blocks tables indexes).1
unfolding table_blocks
table_blocks-Step [] indexes count t = record { numbered = nil; tracks = t }
table_blocks-Step (table ∷ tables) indexes count t =
    let rest = table_blocks-Step tables _ _ (place-Tracks indexes count table.raw.page t) in
    record { numbered = next (t table.raw.page) rest.numbered; tracks = rest.tracks }

sheet_blocks-Step :
    (tables : List ReconstructedTable) (indexes : List (ℕ × ℕ)) (count : ℕ → ℕ)
    → Tracks indexes count
    → Step count (sheet_blocks tables indexes).0 (sheet_blocks tables indexes).1
unfolding sheet_blocks
sheet_blocks-Step [] indexes count t = record { numbered = nil; tracks = t }
sheet_blocks-Step (table ∷ tables) indexes count t =
    let rest = sheet_blocks-Step tables _ _ (place-Tracks indexes count table.raw.page t) in
    record { numbered = next (t table.raw.page) rest.numbered; tracks = rest.tracks }

page_blocks-Step :
    (page : ParsedPage) (blocks : List TextBlock) (indexes : List (ℕ × ℕ)) (count : ℕ → ℕ)
    (drafts : List PipelineBlockDraft) (last : List (ℕ × ℕ))
    → Tracks indexes count
    → page_blocks page blocks indexes ≡ ok (drafts, last)
    → Step count drafts last
unfolding page_blocks
page_blocks-Step page [] indexes count drafts last t h =
    let (e, f) = ok-pair-injective h in
    subst (λ d. Step count d last) e
      (subst (Step count []) f (record { numbered = nil; tracks = t }))
page_blocks-Step page (block ∷ blocks) indexes count drafts last t h =
    let (bbox, e1, h1) = >>=-eq-ok (domain_box block.bbox) _ h in
    let indexes' = put page.page_number (suc (value_or 0 (get page.page_number indexes))) indexes in
    let ((more, last'), e2, h2) = >>=-eq-ok (page_blocks page blocks indexes') _ h1 in
    let (e, f) = ok-pair-injective h2 in
    let rest =
      page_blocks-Step page blocks indexes' (bump page.page_number count) more last'
        (place-Tracks indexes count page.page_number t) e2 in
    subst (λ d. Step count d last) e
      (subst (Step count _) f
        (record { numbered = next (t page.page_number) rest.numbered; tracks = rest.tracks }))

joined :
    (count : ℕ → ℕ) (own more : List PipelineBlockDraft) (last' : List (ℕ × ℕ))
    → Numbered count own
    → Step (after own count) more last'
    → Step count (own ++ more) last'
joined count own more last' n rest = record {
  numbered = append-Numbered own more count n rest.numbered;
  tracks = rw (after-append count own more) rest.tracks;
}

native_blocks-Step :
    (pages : List ParsedPage) (indexes : List (ℕ × ℕ)) (count : ℕ → ℕ)
    (drafts : List PipelineBlockDraft) (last : List (ℕ × ℕ))
    → Tracks indexes count
    → native_blocks pages indexes ≡ ok (drafts, last)
    → Step count drafts last
unfolding native_blocks
native_blocks-Step [] indexes count drafts last t h =
    let (e, f) = ok-pair-injective h in
    subst (λ d. Step count d last) e
      (subst (Step count []) f (record { numbered = nil; tracks = t }))
native_blocks-Step (page ∷ pages) indexes count drafts last t h =
    let ((own, middle), e1, h1) = >>=-eq-ok (page_blocks page page.blocks indexes) _ h in
    let ((more, last'), e2, h2) = >>=-eq-ok (native_blocks pages middle) _ h1 in
    let (e, f) = ok-pair-injective h2 in
    let first = page_blocks-Step page page.blocks indexes count own middle t e1 in
    let rest = native_blocks-Step pages middle (after own count) more last' first.tracks e2 in
    subst (λ d. Step count d last) e
      (subst (Step count (own ++ more)) f (joined count own more last' first.numbered rest))

position :
    (count : ℕ → ℕ) (before later : List PipelineBlockDraft) (b : PipelineBlockDraft)
    → Numbered count (before ++ b ∷ later)
    → b.block_index
      ≡ count b.page_number + length (select (λ c. c.page_number == b.page_number) before)
position count [] later b (next e n) = e ∙ omega arith
position count (x ∷ xs) later b (next e n) =
    let ih = position (bump x.page_number count) xs later b n in
    elim (Bool-cases (x.page_number == b.page_number)) [
      | inl t ↦ rw t (rw t at ih ∙ omega arith)
      | inr f ↦ rw f (rw f at ih)
    ]

-- In the blocks of a PDF, each block's number is the number of blocks of the same page that stand
-- before it, whether they are native text, OCR text or tables.
pub pdf_blocks-position :
    (parsed : ParsedDocument) (ocr : Option DocumentOcrFallbackResult)
    (reconstructed : List ReconstructedTable) (before later : List PipelineBlockDraft)
    (b : PipelineBlockDraft)
    → pdf_blocks parsed ocr reconstructed ≡ ok (before ++ b ∷ later)
    → b.block_index ≡ length (select (λ c. c.page_number == b.page_number) before)
unfolding pdf_blocks
pdf_blocks-position parsed ocr reconstructed before later b h =
    let ((native, indexes), e, h1) = >>=-eq-ok (native_blocks parsed.pages []) _ h in
    let zero_count : ℕ → ℕ = λ _. 0 in
    let first = native_blocks-Step parsed.pages [] zero_count native indexes (λ p. refl) e in
    let (read, indexes') = ocr_blocks (ocr_pages_of ocr) indexes in
    let (tables, last) = table_blocks reconstructed indexes' in
    let second =
      joined zero_count native read indexes' first.numbered
        (ocr_blocks-Step (ocr_pages_of ocr) indexes (after native zero_count) first.tracks) in
    let third = joined zero_count (native ++ read) tables last second.numbered (
      table_blocks-Step reconstructed indexes' (after (native ++ read) zero_count) second.tracks) in
    position zero_count before later b
      (subst (Numbered zero_count) (ok-injective h1) third.numbered)
    ∙ omega arith

-- In the blocks of a workbook, each block's number is the number of blocks of the same sheet that
-- stand before it.
pub excel_blocks-position :
    (reconstructed : List ReconstructedTable) (before later : List PipelineBlockDraft)
    (b : PipelineBlockDraft)
    → excel_blocks reconstructed ≡ before ++ b ∷ later
    → b.block_index ≡ length (select (λ c. c.page_number == b.page_number) before)
unfolding excel_blocks
excel_blocks-position reconstructed before later b h =
    position (λ _. 0) before later b
      (subst (Numbered (λ _. 0)) h
        (sheet_blocks-Step reconstructed [] (λ _. 0) (λ p. refl)).numbered)
    ∙ omega arith
