-- ===== src/Service/Attempt.antt =====
-- What an attempt of src/services/process_document.py leaves behind: a job in a terminal state, and
-- either all of the new pages and blocks or none of them.
use mathlib.Core.Path.{subst}
use evidence_first_investmen.Base.{
  ℕ, suc, String, true, ◌≡◌, refl, sym, ap, ◌∙◌, ◌≢◌, Option, none, some, List, [], ◌∷◌, any,
  Outcome, ok, raise, out_of_fuel, Error, call, >>=-eq-ok, if-ends, >>=-ends, call-ends, ltb, leb_ℤ,
  pos, ◌||◌, ok-injective, ok-pair-injective, ◌<>◌, ◌==◌,
}
use evidence_first_investmen.Domain.{ProcessingStatus, ExtractionMethod, is_terminal}
use evidence_first_investmen.Publication.{Publication}
use evidence_first_investmen.Artifacts.{Artifact, RawObject, get_artifact, get_raw_object, first}
use evidence_first_investmen.Jobs.{mark_finished}
use evidence_first_investmen.Jobs.Lifecycle.{
  HasJob, AllTerminal, create_pending-HasJob, mark_processing-HasJob, mark_finished-total,
  mark_finished-ok, mark_finished-ends,
}
use evidence_first_investmen.Ocr.{Score}
use evidence_first_investmen.Pages.{
  DocumentPage, DocumentBlock, check_page, refuse, check_confidence, create_page, create_block,
  delete_by_document, delete_for_document, same_page_key, same_block_key,
}
use evidence_first_investmen.Pipeline.{
  PipelinePageDraft, PipelineBlockDraft, pipeline_name, pipeline_version,
}
use evidence_first_investmen.Pipeline.Merge.{get}
use evidence_first_investmen.Service.{
  Database, Draws, Collaborators, ProcessDocumentOutcome, request_for, review_error, save_pages,
  save_block, save_blocks, work, fail_attempt, settle, attempt, enqueue, process_document,
}

check_page-ends : (page : DocumentPage) → check_page page ≢ out_of_fuel
unfolding check_page
check_page-ends page =
    if-ends (ltb page.page_number 1) (raise (refuse "page_number must be >= 1")) _ (λ h. cc)
      (if-ends (leb_ℤ page.width (pos 0) || leb_ℤ page.height (pos 0))
        (raise (refuse "width and height must be > 0"))
        (check_confidence page.extraction_method page.ocr_confidence page) (λ h. cc)
        (go page.extraction_method page.ocr_confidence))
  where
    go :
        (method : ExtractionMethod) (confidence : Option Score)
        → check_confidence method confidence page ≢ out_of_fuel
    go ExtractionMethod.native none = λ h. cc
    go ExtractionMethod.native (some c) = λ h. cc
    go ExtractionMethod.ocr none = λ h. cc
    go ExtractionMethod.ocr (some c) = λ h. cc

create_page-ends :
    (page : DocumentPage) (pages : List DocumentPage) → create_page page pages ≢ out_of_fuel
unfolding create_page
create_page-ends page pages =
    >>=-ends (check_page page) _ (check_page-ends page)
      λ _. if-ends (any (same_page_key page) pages) _ _ (λ h. cc) (λ h. cc)

save_pages-ends :
    (draws : Draws) (document_id k : ℕ) (drafts : List PipelinePageDraft) (page_ids : List (ℕ × ℕ))
    (pages : List DocumentPage)
    → save_pages draws document_id k drafts page_ids pages ≢ out_of_fuel
unfolding save_pages
save_pages-ends draws document_id k [] page_ids pages = λ h. cc
save_pages-ends draws document_id k (d ∷ drafts) page_ids pages =
    >>=-ends (create_page _ pages) _ (create_page-ends _ pages)
      λ pages'. save_pages-ends draws document_id (suc k) drafts _ pages'

create_block-ends :
    (block : DocumentBlock) (blocks : List DocumentBlock) → create_block block blocks ≢ out_of_fuel
unfolding create_block
create_block-ends block blocks = if-ends (any (same_block_key block) blocks) _ _ (λ h. cc) (λ h. cc)

save_block-ends :
    (draws : Draws) (k : ℕ) (d : PipelineBlockDraft) (page : Option ℕ) (blocks : List DocumentBlock)
    → save_block draws k d page blocks ≢ out_of_fuel
save_block-ends draws k d none blocks = λ h. cc
save_block-ends draws k d (some page) blocks = create_block-ends _ blocks

save_blocks-ends :
    (draws : Draws) (k : ℕ) (drafts : List PipelineBlockDraft) (page_ids : List (ℕ × ℕ))
    (blocks : List DocumentBlock)
    → save_blocks draws k drafts page_ids blocks ≢ out_of_fuel
unfolding save_blocks
save_blocks-ends draws k [] page_ids blocks = λ h. cc
save_blocks-ends draws k (d ∷ drafts) page_ids blocks =
    >>=-ends (save_block draws k d (get d.page_number page_ids) blocks) _
      (save_block-ends draws k d (get d.page_number page_ids) blocks)
      λ blocks'. save_blocks-ends draws (suc k) drafts page_ids blocks'

module _ (with_ : Collaborators) (draws : Draws) (job_id : ℕ) where
  pub work-ends :
      (artifact : Artifact) (publication : Option Publication) (raw : RawObject) (db : Database)
      → work with_ draws job_id artifact publication raw db ≢ out_of_fuel
  unfolding work
  work-ends artifact publication raw db =
      >>=-ends (call (with_.storage_get raw.object_path)) _ (call-ends _) λ bytes.
        >>=-ends (call (with_.process (request_for artifact publication bytes))) _ (call-ends _)
          λ result.
            >>=-ends
              (save_pages draws artifact.id 0 result.pages []
                (delete_by_document artifact.id db.pages))
              _
              (save_pages-ends draws artifact.id 0 result.pages []
                (delete_by_document artifact.id db.pages))
              λ saved.
                >>=-ends
                  (save_blocks draws 0 result.blocks saved.0
                    (delete_for_document artifact.id db.pages db.blocks))
                  _
                  (save_blocks-ends draws 0 result.blocks saved.0
                    (delete_for_document artifact.id db.pages db.blocks))
                  λ blocks.
                    >>=-ends
                      (mark_finished with_.uuid_text job_id result.status
                        (review_error result.status result.warnings result.error)
                        (some result.parser) (some result.parser_version) draws.finished db.jobs)
                      _
                      (mark_finished-ends with_.uuid_text job_id result.status
                        (review_error result.status result.warnings result.error)
                        (some result.parser) (some result.parser_version) draws.finished db.jobs)
                      λ finished h. cc

  -- What the attempt leaves: it ended, and its job is there, in a terminal state in each row.
  record Ended (x : Database × Outcome ProcessDocumentOutcome) : Type 0 where
    ends : x.1 ≢ out_of_fuel
    there : HasJob job_id x.0.jobs
    terminal : AllTerminal job_id x.0.jobs

  fail_attempt-Ended :
      (db : Database) (e : Error)
      → HasJob job_id db.jobs
      → Ended (fail_attempt with_ draws job_id db e)
  unfolding fail_attempt
  fail_attempt-Ended db e has =
      let ((jobs, j), found, there, terminal) =
        mark_finished-total with_.uuid_text job_id ProcessingStatus.failed
          (some (e.name <> ": " <> e.message)) none none draws.finished db.jobs refl has in
      rw found (record { ends = λ h. cc; there = there; terminal = terminal })

  -- A `work` that returns has written the status of its result, which is terminal, into the job.
  pub work-terminal :
      (artifact : Artifact) (publication : Option Publication) (raw : RawObject) (db db' : Database)
      (o : ProcessDocumentOutcome)
      → HasJob job_id db.jobs
      → work with_ draws job_id artifact publication raw db ≡ ok (db', o)
      → HasJob job_id db'.jobs
        × AllTerminal job_id db'.jobs
        × (o.job.status ≡ o.result.status)
        × (is_terminal o.job.status ≡ true)
  unfolding work
  work-terminal artifact publication raw db db' o has h =
      let (bytes, e1, h1) = >>=-eq-ok (call (with_.storage_get raw.object_path)) _ h in
      let (result, e2, h2) =
        >>=-eq-ok (call (with_.process (request_for artifact publication bytes))) _ h1 in
      let ((page_ids, pages), e3, h3) =
        >>=-eq-ok
          (save_pages draws artifact.id 0 result.pages [] (delete_by_document artifact.id db.pages))
          _ h2 in
      let (blocks, e4, h4) =
        >>=-eq-ok
          (save_blocks draws 0 result.blocks page_ids
            (delete_for_document artifact.id db.pages db.blocks))
          _ h3 in
      let failure : Option String = review_error result.status result.warnings result.error in
      let ((jobs, j), e5, h5) =
        >>=-eq-ok
          (mark_finished with_.uuid_text job_id result.status failure (some result.parser)
            (some result.parser_version) draws.finished db.jobs)
          _ h4 in
      let (same_db, same_o) = ok-pair-injective h5 in
      let (t, s) =
        mark_finished-ok with_.uuid_text job_id result.status failure (some result.parser)
          (some result.parser_version) draws.finished db.jobs jobs j e5 in
      let (r, made, there, terminal) =
        mark_finished-total with_.uuid_text job_id result.status failure (some result.parser)
          (some result.parser_version) draws.finished db.jobs t has in
      let same_jobs : r.0 ≡ db'.jobs =
        ap (λ p. p.0) (ok-injective (sym made ∙ e5)) ∙ ap (λ (d : Database). d.jobs) same_db in
      (
        subst (HasJob job_id) same_jobs there,
        subst (AllTerminal job_id) same_jobs terminal,
        subst (λ (p : ProcessDocumentOutcome). p.job.status ≡ p.result.status) same_o s,
        subst (λ (p : ProcessDocumentOutcome). is_terminal p.job.status ≡ true) same_o
            (ap is_terminal s ∙ t),
      )

  settle-Ended :
      (artifact : Artifact) (publication : Option Publication) (raw : RawObject) (db : Database)
      → HasJob job_id db.jobs
      → Ended (settle with_ draws job_id db (work with_ draws job_id artifact publication raw db))
  settle-Ended artifact publication raw db has =
      go (work with_ draws job_id artifact publication raw db) refl
    where
      go :
          (m : Outcome (Database × ProcessDocumentOutcome))
          → work with_ draws job_id artifact publication raw db ≡ m
          → Ended (settle with_ draws job_id db m)
      go (ok (db', o)) e =
          let (there, terminal, _, _) = work-terminal artifact publication raw db db' o has e in
          record { ends = λ h. cc; there = there; terminal = terminal }
      go (raise e') e = fail_attempt-Ended db e' has
      go out_of_fuel e = absurd (work-ends artifact publication raw db e)

  attempt-Ended :
      (artifact : Artifact) (publication : Option Publication) (raw : RawObject) (db : Database)
      → HasJob job_id db.jobs
      → Ended (attempt with_ draws job_id artifact publication raw db)
  unfolding attempt
  attempt-Ended artifact publication raw db has =
      let ((jobs, j), marks, there) =
        mark_processing-HasJob with_.uuid_text job_id pipeline_name pipeline_version draws.started
          db.jobs has in
      rw marks (settle-Ended artifact publication raw (record db { jobs = jobs }) there)

-- Where the artifact and its raw object are in the tables, an attempt comes to an end, whatever the
-- storage, the processor and the tables do: its job is in the table of jobs afterwards, in the state
-- PROCESSED, NEEDS_REVIEW or FAILED.
pub process_document-ends :
    (with_ : Collaborators) (draws : Draws) (document_id : ℕ) (db : Database) (artifact : Artifact)
    (raw : RawObject)
    → get_artifact document_id db.artifacts ≡ some artifact
    → get_raw_object artifact.raw_object_id db.raw_objects ≡ some raw
    → ((process_document with_ draws document_id db).1 ≢ out_of_fuel)
      × HasJob draws.job_id (process_document with_ draws document_id db).0.jobs
      × AllTerminal draws.job_id (process_document with_ draws document_id db).0.jobs
unfolding process_document enqueue
process_document-ends with_ draws document_id db artifact raw found_artifact found_raw =
    let ended =
      attempt-Ended with_ draws draws.job_id artifact
        (first (λ (p : Publication). p.id == artifact.publication_id) db.publications) raw
        (enqueue with_ draws artifact db)
        (create_pending-HasJob draws.job_id draws.created artifact.id _) in
    rw (found_artifact, found_raw) (ended.ends, ended.there, ended.terminal)
