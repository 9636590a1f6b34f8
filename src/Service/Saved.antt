-- ===== src/Service/Saved.antt =====
-- What an attempt of src/services/process_document.py that succeeds has saved.
use mathlib.Core.Path.{subst}
use evidence_first_investmen.Base.{
  ℕ, suc, String, Bool, true, false, not, ◌≡◌, refl, sym, ap, ◌∙◌, ◌≢◌, inl, inr, Option, none,
  some, List, [], ◌∷◌, ◌++◌, map, any, select, Bool-cases, Outcome, ok, raise, out_of_fuel, Error,
  call, >>=-eq-ok, ok-injective, ok-pair-injective, ◌==◌, ==_refl, ◌<>◌,
}
use evidence_first_investmen.Domain.{ProcessingStatus}
use evidence_first_investmen.Publication.{Publication}
use evidence_first_investmen.Artifacts.{Artifact, RawObject, get_artifact, get_raw_object, first}
use evidence_first_investmen.Jobs.{DocumentProcessingJob, mark_finished, mark_processing}
use evidence_first_investmen.Pages.{
  DocumentPage, check_page, create_page, is_of_document, same_page_key, delete_by_document,
  delete_for_document,
}
use evidence_first_investmen.Pipeline.{
  PipelinePageDraft, DocumentProcessingResult, pipeline_name, pipeline_version,
}
use evidence_first_investmen.Pipeline.Merge.{put}
use evidence_first_investmen.Service.{
  Database, Draws, Collaborators, ProcessDocumentOutcome, request_for, review_error, save_pages,
  save_blocks, work, after_mark, fail_attempt, settle, marked, attempt, enqueue, with_raw,
  process_document,
}

-- The number and the text of a stored page, and of a page to store.
abbrev pub stored : DocumentPage → ℕ × String
stored p = (p.page_number, p.text)

abbrev pub drafted : PipelinePageDraft → ℕ × String
drafted d = (d.page_number, d.text)

module _ {ℓ} {A : Type ℓ} where
  append_assoc : (xs ys zs : List A) → (xs ++ ys) ++ zs ≡ xs ++ (ys ++ zs)
  append_assoc [] ys zs = refl
  append_assoc (x ∷ xs) ys zs = ap (◌∷◌ x) (append_assoc xs ys zs)

  append_nil : (xs : List A) → xs ++ [] ≡ xs
  append_nil [] = refl
  append_nil (x ∷ xs) = ap (◌∷◌ x) (append_nil xs)

select-add-in :
    (p : DocumentPage → Bool) (pages : List DocumentPage) (page : DocumentPage)
    → p page ≡ true
    → map stored (select p (pages ++ page ∷ [])) ≡ map stored (select p pages) ++ stored page ∷ []
select-add-in p [] page h = rw h
select-add-in p (q ∷ pages) page h = elim (Bool-cases (p q)) [
  | inl t ↦ rw t (ap (◌∷◌ (stored q)) (select-add-in p pages page h))
  | inr f ↦ rw f (select-add-in p pages page h)
]

select-add-out :
    (p : DocumentPage → Bool) (pages : List DocumentPage) (page : DocumentPage)
    → p page ≡ false
    → select p (pages ++ page ∷ []) ≡ select p pages
select-add-out p [] page h = rw h
select-add-out p (q ∷ pages) page h = elim (Bool-cases (p q)) [
  | inl t ↦ rw t (ap (◌∷◌ q) (select-add-out p pages page h))
  | inr f ↦ rw f (select-add-out p pages page h)
]

select-deleted :
    (p : DocumentPage → Bool) (pages : List DocumentPage)
    → (select p (select (λ q. not (p q)) pages) ≡ [])
      × (select (λ q. not (p q)) (select (λ q. not (p q)) pages) ≡ select (λ q. not (p q)) pages)
select-deleted p [] = (refl, refl)
select-deleted p (q ∷ pages) =
    let (none_left, all_left) = select-deleted p pages in
    elim (Bool-cases (p q)) [
      | inl t ↦ rw t (none_left, all_left)
      | inr f ↦ rw f (rw f (none_left, ap (◌∷◌ q) all_left))
    ]

create_page-ok :
    (page : DocumentPage) (pages pages' : List DocumentPage)
    → create_page page pages ≡ ok pages'
    → pages ++ page ∷ [] ≡ pages'
unfolding create_page
create_page-ok page pages pages' h =
    let (checked, e, h') = >>=-eq-ok (check_page page) _ h in
    elim (Bool-cases (any (same_page_key page) pages)) [
      | inl t ↦ cc (rw t at h')
      | inr f ↦ ok-injective (rw f at h')
    ]

-- The pages of other documents, and those of this one.
abbrev others : ℕ → List DocumentPage → List DocumentPage
others document_id pages = select (λ p. not (is_of_document document_id p)) pages

abbrev own : ℕ → List DocumentPage → List (ℕ × String)
own document_id pages = map stored (select (is_of_document document_id) pages)

save_pages-Saved :
    (draws : Draws) (document_id k : ℕ) (drafts : List PipelinePageDraft)
    (page_ids page_ids' : List (ℕ × ℕ)) (pages pages' : List DocumentPage)
    → save_pages draws document_id k drafts page_ids pages ≡ ok (page_ids', pages')
    → (own document_id pages' ≡ own document_id pages ++ map drafted drafts)
      × (others document_id pages' ≡ others document_id pages)
unfolding save_pages
save_pages-Saved draws document_id k [] page_ids page_ids' pages pages' h =
    let e = (ok-pair-injective h).1 in
    (
      ap (own document_id) (sym e) ∙ sym (append_nil (own document_id pages)),
      ap (others document_id) (sym e),
    )
save_pages-Saved draws document_id k (d ∷ drafts) page_ids page_ids' pages pages' h =
    let page : DocumentPage = record {
      id = draws.page_id k;
      document_id = document_id;
      page_number = d.page_number;
      text = d.text;
      extraction_method = d.extraction_method;
      ocr_confidence = d.ocr_confidence;
      width = d.width;
      height = d.height;
      created_at = draws.saved;
    } in
    let (middle, e, h') = >>=-eq-ok (create_page page pages) _ h in
    let added = create_page-ok page pages middle e in
    let (own_rest, others_rest) =
      save_pages-Saved draws document_id (suc k) drafts
        (put d.page_number (draws.page_id k) page_ids) page_ids' middle pages' h' in
    let mine : is_of_document document_id page ≡ true = ==_refl document_id in
    let own_step : own document_id middle ≡ own document_id pages ++ drafted d ∷ [] =
      ap (own document_id) (sym added)
      ∙ select-add-in (is_of_document document_id) pages page mine in
    let others_step : others document_id middle ≡ others document_id pages =
      ap (others document_id) (sym added)
      ∙ select-add-out (λ p. not (is_of_document document_id p)) pages page (ap not mine) in
    (
      own_rest
          ∙ ap (λ t. t ++ map drafted drafts) own_step
          ∙ append_assoc (own document_id pages) (drafted d ∷ []) (map drafted drafts),
      others_rest ∙ others_step,
    )

-- The pages of the document are the result's, in order, and no other page has changed.
pub record Replaced (document_id : ℕ) (before after : Database) (result : DocumentProcessingResult)
    : Type 0 where
  pub replaced :
      map stored (select (is_of_document document_id) after.pages) ≡ map drafted result.pages
  pub kept :
      select (λ p. not (is_of_document document_id p)) after.pages
      ≡ select (λ p. not (is_of_document document_id p)) before.pages

module _ (with_ : Collaborators) (draws : Draws) (job_id : ℕ) where
  work-Replaced :
      (artifact : Artifact) (publication : Option Publication) (raw : RawObject) (db db' : Database)
      (o : ProcessDocumentOutcome)
      → work with_ draws job_id artifact publication raw db ≡ ok (db', o)
      → Replaced artifact.id db db' o.result
  unfolding work delete_by_document
  work-Replaced artifact publication raw db db' o h =
      let (bytes, e1, h1) = >>=-eq-ok (call (with_.storage_get raw.object_path)) _ h in
      let (result, e2, h2) =
        >>=-eq-ok (call (with_.process (request_for artifact publication bytes))) _ h1 in
      let ((page_ids, pages), e3, h3) =
        >>=-eq-ok
          (save_pages draws artifact.id 0 result.pages [] (delete_by_document artifact.id db.pages))
          _ h2 in
      let (blocks, e4, h4) =
        >>=-eq-ok
          (save_blocks draws 0 result.blocks page_ids
            (delete_for_document artifact.id db.pages db.blocks))
          _ h3 in
      let ((jobs, j), e5, h5) =
        >>=-eq-ok
          (mark_finished with_.uuid_text job_id result.status
            (review_error result.status result.warnings result.error) (some result.parser)
            (some result.parser_version) draws.finished db.jobs)
          _ h4 in
      let (same_db, same_o) = ok-pair-injective h5 in
      let (saved, untouched) =
        save_pages-Saved draws artifact.id 0 result.pages [] page_ids
          (delete_by_document artifact.id db.pages) pages e3 in
      let (gone, stay) = select-deleted (is_of_document artifact.id) db.pages in
      subst (λ (d : Database). Replaced artifact.id db d o.result) same_db
        (subst
          (λ (p : ProcessDocumentOutcome).
            Replaced artifact.id db (record db { jobs = jobs; pages = pages; blocks = blocks })
              p.result)
          same_o
          (record {
            replaced = saved ∙ ap (λ t. map stored t ++ map drafted result.pages) gone;
            kept = untouched ∙ stay;
          }))

  fail_attempt-raises :
      (db : Database) (e : Error) (o : ProcessDocumentOutcome)
      → (fail_attempt with_ draws job_id db e).1 ≢ ok o
  unfolding fail_attempt
  fail_attempt-raises db e o = go (
      mark_finished with_.uuid_text job_id ProcessingStatus.failed
        (some (e.name <> ": " <> e.message)) none none draws.finished db.jobs)
    where
      go :
          (m : Outcome (List DocumentProcessingJob × DocumentProcessingJob))
          → (after_mark with_ db e m).1 ≢ ok o
      go (ok (jobs, j)) = λ h. cc
      go (raise e') = λ h. cc
      go out_of_fuel = λ h. cc

  attempt-Replaced :
      (artifact : Artifact) (publication : Option Publication) (raw : RawObject) (db : Database)
      (o : ProcessDocumentOutcome)
      → (attempt with_ draws job_id artifact publication raw db).1 ≡ ok o
      → Replaced artifact.id db (attempt with_ draws job_id artifact publication raw db).0 o.result
  unfolding attempt
  attempt-Replaced artifact publication raw db o =
      from_mark (
        mark_processing with_.uuid_text job_id pipeline_name pipeline_version draws.started db.jobs)
    where
      from_work :
          (running : Database) (m : Outcome (Database × ProcessDocumentOutcome))
          → work with_ draws job_id artifact publication raw running ≡ m
          → (settle with_ draws job_id running m).1 ≡ ok o
          → Replaced artifact.id running (settle with_ draws job_id running m).0 o.result
      from_work running (ok (db', o')) e h =
          subst (λ (p : ProcessDocumentOutcome). Replaced artifact.id running db' p.result)
            (ok-injective h) (work-Replaced artifact publication raw running db' o' e)
      from_work running (raise e') e h = absurd (fail_attempt-raises running e' o h)
      from_work running out_of_fuel e h = cc

      from_mark :
          (m : Outcome (List DocumentProcessingJob × DocumentProcessingJob))
          → (marked with_ draws job_id artifact publication raw db m).1 ≡ ok o
          → Replaced artifact.id db
              (marked with_ draws job_id artifact publication raw db m).0
              o.result
      from_mark (raise e) h = absurd (fail_attempt-raises db e o h)
      from_mark out_of_fuel h = cc
      from_mark (ok (jobs, j)) h =
          let running : Database = record db { jobs = jobs } in
          let r =
            from_work running (work with_ draws job_id artifact publication raw running) refl h in
          record { replaced = r.replaced; kept = r.kept }

-- An attempt that returns has replaced the pages of its document by those of the result, in their
-- order, with their numbers and texts; the pages of all other documents are as they were.
pub process_document-Replaced :
    (with_ : Collaborators) (draws : Draws) (document_id : ℕ) (db : Database) (artifact : Artifact)
    (o : ProcessDocumentOutcome)
    → get_artifact document_id db.artifacts ≡ some artifact
    → (process_document with_ draws document_id db).1 ≡ ok o
    → Replaced artifact.id db (process_document with_ draws document_id db).0 o.result
unfolding process_document enqueue
process_document-Replaced with_ draws document_id db artifact o found =
    rw found (from_raw (get_raw_object artifact.raw_object_id db.raw_objects))
  where
    from_raw :
        (raw : Option RawObject)
        → (with_raw with_ draws document_id artifact raw db).1 ≡ ok o
        → Replaced artifact.id db (with_raw with_ draws document_id artifact raw db).0 o.result
    from_raw none h = cc
    from_raw (some raw) h =
        let r =
          attempt-Replaced with_ draws draws.job_id artifact
            (first (λ (p : Publication). p.id == artifact.publication_id) db.publications) raw
            (enqueue with_ draws artifact db) o h in
        record { replaced = r.replaced; kept = r.kept }
