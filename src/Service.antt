-- ===== src/Service.antt =====
-- `ProcessDocumentService` of src/services/process_document.py over the tables of a database. A
-- session's changes are kept at a commit and dropped at a rollback, so a body that raises returns no
-- table; ids and times that the code draws are arguments. One attempt runs at a time.
pub mod Attempt
pub mod Company
pub mod Saved
use evidence_first_investmen.Base.{
  text_or, ℕ, zero, suc, ◌+◌, ◌-◌, String, Bool, true, false, Option, none, some, List, [], ◌∷◌,
  ◌++◌, take, join, ◌<>◌, Result, Outcome, ok, ◌==◌, if◌then◌else◌, raise, out_of_fuel, Error,
  Exception, error, process_document_error, storage_error, call, ◌>>=◌,
}
use evidence_first_investmen.Domain.{ProcessingStatus}
use evidence_first_investmen.Publication.{Publication}
use evidence_first_investmen.Artifacts.{
  Artifact, RawObject, get_artifact, get_raw_object, list_ids_for_company, first,
}
use evidence_first_investmen.Jobs.{
  DocumentProcessingJob, create_pending, mark_stale_processing_failed, mark_processing,
  mark_finished,
}
use evidence_first_investmen.Pages.{
  DocumentPage, DocumentBlock, create_page, create_block, delete_by_document, delete_for_document,
}
use evidence_first_investmen.Pipeline.{
  PipelinePageDraft, PipelineBlockDraft, DocumentProcessRequest, DocumentProcessingResult,
  pipeline_name, pipeline_version,
}
use evidence_first_investmen.Pipeline.Merge.{get, put}

pub record Database : Type 0 where
  pub publications : List Publication
  pub artifacts : List Artifact
  pub raw_objects : List RawObject
  pub jobs : List DocumentProcessingJob
  pub pages : List DocumentPage
  pub blocks : List DocumentBlock

-- What an attempt draws: the clock at its steps, and the new ids of the job, the pages and the blocks.
pub record Draws : Type 0 where
  pub created : ℕ
  pub started : ℕ
  pub saved : ℕ
  pub finished : ℕ
  pub job_id : ℕ
  pub page_id : ℕ → ℕ
  pub block_id : ℕ → ℕ

-- The collaborators: object storage, the document processor, and `str` of an id.
pub record Collaborators : Type 0 where
  pub storage_get : String → Result (List ℕ)
  pub process : DocumentProcessRequest → Result DocumentProcessingResult
  pub uuid_text : ℕ → String
  pub stale_job_after : ℕ

pub record ProcessDocumentOutcome : Type 0 where
  pub job : DocumentProcessingJob
  pub result : DocumentProcessingResult

abbrev pub process_error : String → Error
process_error message = error process_document_error "ProcessDocumentError" message

abbrev pub title_of : Option Publication → Option String
title_of none = none
title_of (some p) = some p.title

abbrev pub type_of : Option Publication → Option String
type_of none = none
type_of (some p) = some p.document_type

abbrev pub request_for : Artifact → Option Publication → List ℕ → DocumentProcessRequest
request_for artifact publication bytes = record {
  artifact_id = artifact.id;
  data_ = bytes;
  filename = some artifact.filename;
  title = title_of publication;
  document_type = type_of publication;
  source_label = some artifact.filename;
}

-- `draws` numbers the pages from `k`; `page_ids` is the dict of the page numbers.
unfoldable pub save_pages :
    Draws
    → ℕ
    → ℕ
    → List PipelinePageDraft
    → List (ℕ × ℕ)
    → List DocumentPage
    → Outcome (List (ℕ × ℕ) × List DocumentPage)
save_pages draws document_id k [] page_ids pages = ok (page_ids, pages)
save_pages draws document_id k (d ∷ drafts) page_ids pages =
    create_page
      (record {
        id = draws.page_id k;
        document_id = document_id;
        page_number = d.page_number;
        text = d.text;
        extraction_method = d.extraction_method;
        ocr_confidence = d.ocr_confidence;
        width = d.width;
        height = d.height;
        created_at = draws.saved;
      })
      pages
    >>= λ pages'.
        save_pages draws document_id (suc k) drafts (put d.page_number (draws.page_id k) page_ids)
          pages'

abbrev pub save_block :
    Draws → ℕ → PipelineBlockDraft → Option ℕ → List DocumentBlock → Outcome (List DocumentBlock)
save_block draws k d none blocks = ok blocks
save_block draws k d (some page_id) blocks =
    create_block
      (record {
        id = draws.block_id k;
        page_id = page_id;
        block_index = d.block_index;
        block_type = d.block_type;
        bbox = d.bbox;
        content = d.content;
        created_at = draws.saved;
      })
      blocks

unfoldable pub save_blocks :
    Draws
    → ℕ
    → List PipelineBlockDraft
    → List (ℕ × ℕ)
    → List DocumentBlock
    → Outcome (List DocumentBlock)
save_blocks draws k [] page_ids blocks = ok blocks
save_blocks draws k (d ∷ drafts) page_ids blocks =
    save_block draws k d (get d.page_number page_ids) blocks >>= λ blocks'.
    save_blocks draws (suc k) drafts page_ids blocks'

abbrev pub review_error : ProcessingStatus → List String → Option String → Option String
review_error ProcessingStatus.needs_review (w ∷ ws) failure =
    some (text_or failure (join "; " (take 8 (w ∷ ws))))
review_error ProcessingStatus.needs_review [] failure = failure
review_error ProcessingStatus.pending ws failure = failure
review_error ProcessingStatus.processing ws failure = failure
review_error ProcessingStatus.processed ws failure = failure
review_error ProcessingStatus.failed ws failure = failure

-- What `raise ... from exc` raises.
abbrev pub translate_as : Exception → Error → Error
translate_as Exception.process_document_error e = e
translate_as Exception.storage_error e = process_error e.message
translate_as _ e = process_error (e.name <> ": " <> e.message)

abbrev pub translate : Error → Error
translate e = translate_as e.class e

module _ (with_ : Collaborators) where
  -- The `try` block after `mark_processing`, up to the last commit.
  unfoldable pub work :
      Draws
      → ℕ
      → Artifact
      → Option Publication
      → RawObject
      → Database
      → Outcome (Database × ProcessDocumentOutcome)
  unfolding save_pages save_blocks delete_by_document delete_for_document mark_finished
  work draws job_id artifact publication raw db = do
    bytes ← call (with_.storage_get raw.object_path)
    result ← call (with_.process (request_for artifact publication bytes))
    (page_ids, pages) ←
        save_pages draws artifact.id 0 result.pages [] (delete_by_document artifact.id db.pages)
    blocks ←
        save_blocks draws 0 result.blocks page_ids
          (delete_for_document artifact.id db.pages db.blocks)
    (jobs, finished) ←
        mark_finished with_.uuid_text job_id result.status
          (review_error result.status result.warnings result.error) (some result.parser)
          (some result.parser_version) draws.finished db.jobs
    ok (
      record db { jobs = jobs; pages = pages; blocks = blocks },
      record { job = finished; result = result },
    )

  -- The rollback to `db`, `_mark_job_failed` in a new session, and what is raised.
  abbrev pub after_mark :
      Database
      → Error
      → Outcome (List DocumentProcessingJob × DocumentProcessingJob)
      → Database × Outcome ProcessDocumentOutcome
  after_mark db e (ok (jobs, j)) = (record db { jobs = jobs }, raise (translate e))
  after_mark db e (raise e') = (db, raise e')
  after_mark db e out_of_fuel = (db, out_of_fuel)

  unfoldable pub fail_attempt :
      Draws → ℕ → Database → Error → Database × Outcome ProcessDocumentOutcome
  unfolding mark_finished
  fail_attempt draws job_id db e = after_mark db e (
      mark_finished with_.uuid_text job_id ProcessingStatus.failed
        (some (e.name <> ": " <> e.message)) none none draws.finished db.jobs)

  abbrev pub settle :
      Draws
      → ℕ
      → Database
      → Outcome (Database × ProcessDocumentOutcome)
      → Database × Outcome ProcessDocumentOutcome
  settle draws job_id db (ok (db', outcome)) = (db', ok outcome)
  settle draws job_id db (raise e) = fail_attempt draws job_id db e
  settle draws job_id db out_of_fuel = (db, out_of_fuel)

  abbrev pub marked :
      Draws
      → ℕ
      → Artifact
      → Option Publication
      → RawObject
      → Database
      → Outcome (List DocumentProcessingJob × DocumentProcessingJob)
      → Database × Outcome ProcessDocumentOutcome
  marked draws job_id artifact publication raw db (raise e) = fail_attempt draws job_id db e
  marked draws job_id artifact publication raw db out_of_fuel = (db, out_of_fuel)
  marked draws job_id artifact publication raw db (ok (jobs, j)) =
      let running = record db { jobs = jobs } in
      settle draws job_id running (work draws job_id artifact publication raw running)

  -- The `try` statement.
  unfoldable pub attempt :
      Draws
      → ℕ
      → Artifact
      → Option Publication
      → RawObject
      → Database
      → Database × Outcome ProcessDocumentOutcome
  unfolding work fail_attempt mark_processing
  attempt draws job_id artifact publication raw db =
      marked draws job_id artifact publication raw db (
        mark_processing with_.uuid_text job_id pipeline_name pipeline_version draws.started db.jobs)

  -- Stale jobs are recovered and the new job is pending; then the first commit.
  unfoldable pub enqueue : Draws → Artifact → Database → Database
  unfolding mark_stale_processing_failed create_pending
  enqueue draws artifact db =
      let (recovered, count) =
        mark_stale_processing_failed (draws.created - with_.stale_job_after) draws.created
          db.jobs in
      record db { jobs = (create_pending draws.job_id draws.created artifact.id recovered).0 }

  abbrev pub with_raw :
      Draws → ℕ → Artifact → Option RawObject → Database → Database × Outcome ProcessDocumentOutcome
  with_raw draws document_id artifact none db = (
    db,
    raise (process_error ("raw object missing for artifact: " <> with_.uuid_text document_id)),
  )
  with_raw draws document_id artifact (some raw) db =
      attempt draws draws.job_id artifact
        (first (λ (p : Publication). p.id == artifact.publication_id) db.publications) raw
        (enqueue draws artifact db)

  abbrev pub with_artifact :
      Draws → ℕ → Option Artifact → Database → Database × Outcome ProcessDocumentOutcome
  with_artifact draws document_id none db =
      (db, raise (process_error ("document artifact not found: " <> with_.uuid_text document_id)))
  with_artifact draws document_id (some artifact) db =
      with_raw draws document_id artifact (get_raw_object artifact.raw_object_id db.raw_objects) db

  unfoldable pub process_document : Draws → ℕ → Database → Database × Outcome ProcessDocumentOutcome
  unfolding attempt enqueue get_artifact get_raw_object first
  process_document draws document_id db =
      with_artifact draws document_id (get_artifact document_id db.artifacts) db

pub record Tally : Type 0 where
  pub processed : ℕ
  pub needs_review : ℕ
  pub failed : ℕ
  pub skipped : ℕ
  pub outcomes : List ProcessDocumentOutcome

abbrev pub no_tally : Tally
no_tally = record { processed = 0; needs_review = 0; failed = 0; skipped = 0; outcomes = [] }

abbrev pub count_failure : Tally → Tally
count_failure t = record t { failed = suc t.failed }

abbrev pub count_status : ProcessingStatus → Tally → Tally
count_status ProcessingStatus.processed t = record t { processed = suc t.processed }
count_status ProcessingStatus.needs_review t = record t { needs_review = suc t.needs_review }
count_status ProcessingStatus.failed t = record t { failed = suc t.failed }
count_status ProcessingStatus.pending t = record t { skipped = suc t.skipped }
count_status ProcessingStatus.processing t = record t { skipped = suc t.skipped }

abbrev pub count_outcome : ProcessDocumentOutcome → Tally → Tally
count_outcome o t = count_status o.job.status (record t { outcomes = t.outcomes ++ o ∷ [] })

-- `except ProcessDocumentError`
abbrev pub is_process_error : Exception → Bool
is_process_error Exception.process_document_error = true
is_process_error _ = false

module _ (with_ : Collaborators) (draws : ℕ → Draws) where
  -- What one document's outcome makes of the tally; an exception of another class ends the loop.
  abbrev pub tally_step : Outcome ProcessDocumentOutcome → Tally → Outcome Tally
  tally_step (ok o) t = ok (count_outcome o t)
  tally_step (raise e) t = if is_process_error e.class then ok (count_failure t) else raise e
  tally_step out_of_fuel t = out_of_fuel

  -- The loop over the artifact ids; `k` numbers the attempts.
  unfoldable pub process_all : ℕ → List ℕ → Database → Tally → Outcome (Database × Tally)
  unfolding process_document
  process_all k [] db t = ok (db, t)
  process_all k (document_id ∷ ids) db t =
      tally_step (process_document with_ (draws k) document_id db).1 t >>= λ t'.
      process_all (suc k) ids (process_document with_ (draws k) document_id db).0 t'

  -- `company` is the id that the ticker names, if there is one.
  unfoldable pub process_company : String → Option ℕ → Database → Outcome (Database × Tally)
  unfolding process_all list_ids_for_company
  process_company ticker none db = raise (process_error ("Unknown ticker " <> ticker))
  process_company ticker (some company_id) db =
      process_all 0 (list_ids_for_company company_id db.publications db.artifacts) db no_tally
