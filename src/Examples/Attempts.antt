-- ===== src/Examples/Attempts.antt =====
-- A small database through the service (src/services/process_document.py).
use evidence_first_investmen.Base.{
  ◌+◌, true, false, ◌≡◌, ◌≢◌, refl, ◌⊎◌, none, some, [], ◌∷◌, Memᴰ, length, Result, ok, out_of_fuel,
}
use evidence_first_investmen.Domain.{ProcessingStatus}
use evidence_first_investmen.Artifacts.{
  Artifact, RawObject, get_artifact, get_raw_object, list_ids_for_company, first,
}
use evidence_first_investmen.Jobs.{DocumentProcessingJob, is_stale, mark_stale_processing_failed}
use evidence_first_investmen.Jobs.Lifecycle.{stale_recovery, HasJob, AllTerminal}
use evidence_first_investmen.Service.{
  Database, Draws, Collaborators, Tally, process_document, process_company,
}
use evidence_first_investmen.Service.Attempt.{process_document-ends}
use evidence_first_investmen.Domain.{validate_terminal_status}
use evidence_first_investmen.Jobs.{create_pending, mark_processing, get_by_id, mark_finished}
use evidence_first_investmen.Pages.{
  create_page, check_page, create_block, delete_by_document, delete_for_document,
}
use evidence_first_investmen.Service.{
  ProcessDocumentOutcome, attempt, enqueue, work, save_pages, save_blocks,
}
use evidence_first_investmen.Service.Saved.{Replaced, process_document-Replaced}
use evidence_first_investmen.Service.Company.{
  Succeeds, Fails, process_document-cases, process_company-total,
}
use evidence_first_investmen.Examples.Lineages.{publication}
use evidence_first_investmen.Examples.Runs.{result}

abbrev artifact : Artifact
artifact = record {
  id = 1;
  publication_id = 5;
  attachment_reference = "a";
  filename = "report.pdf";
  mime_type = "application/pdf";
  file_size = 2;
  raw_object_id = 6;
  created_at = 1;
  updated_at = 1;
}

abbrev raw_object : RawObject
raw_object = record {
  id = 6;
  sha256 = "ab";
  object_path = "raw/ab";
  mime_type = "application/pdf";
  size_bytes = 2;
  created_at = 1;
  updated_at = 1;
}

abbrev old_job : DocumentProcessingJob
old_job = record {
  id = 3;
  artifact_id = 1;
  status = ProcessingStatus.processing;
  parser = none;
  parser_version = none;
  started_at = some 2;
  finished_at = none;
  error_ = none;
  created_at = 2;
  updated_at = 2;
}

abbrev database : Database
database = record {
  publications = publication 5 "b" none 20 true 1 ∷ [];
  artifacts = artifact ∷ [];
  raw_objects = raw_object ∷ [];
  jobs = old_job ∷ [];
  pages = [];
  blocks = [];
}

abbrev draws : Draws
draws = record {
  created = 5000;
  started = 5001;
  saved = 5002;
  finished = 5003;
  job_id = 4;
  page_id = λ k. 100 + k;
  block_id = λ k. 200 + k;
}

abbrev collaborators : Collaborators
collaborators = record {
  storage_get = λ path. Result.returned (37 ∷ 80 ∷ []);
  process = λ request. Result.returned result;
  uuid_text = λ i. "id";
  stale_job_after = 3600;
}

stale_recovery_example :
    ((j : DocumentProcessingJob)
      → Memᴰ j (mark_stale_processing_failed 1400 5000 (old_job ∷ [])).0
      → is_stale 1400 j ≡ false)
    × ((j : DocumentProcessingJob)
        → Memᴰ j (old_job ∷ [])
        → is_stale 1400 j ≡ false
        → Memᴰ j (mark_stale_processing_failed 1400 5000 (old_job ∷ [])).0)
stale_recovery_example = stale_recovery 1400 5000 (old_job ∷ [])

found_artifact : get_artifact 1 database.artifacts ≡ some artifact
unfolding get_artifact first
found_artifact = refl

found_raw : get_raw_object artifact.raw_object_id database.raw_objects ≡ some raw_object
unfolding get_raw_object first
found_raw = refl

process_document-ends_example :
    ((process_document collaborators draws 1 database).1 ≢ out_of_fuel)
    × HasJob 4 (process_document collaborators draws 1 database).0.jobs
    × AllTerminal 4 (process_document collaborators draws 1 database).0.jobs
process_document-ends_example =
    process_document-ends collaborators draws 1 database artifact raw_object found_artifact
      found_raw

process_document-cases_example :
    Succeeds (process_document collaborators draws 1 database)
    ⊎ Fails database (process_document collaborators draws 1 database)
process_document-cases_example = process_document-cases collaborators draws 1 database

process_company-total_example :
    (db' : Database) × (t : Tally) × (process_company collaborators
        (λ k. draws)
        "FPT"
        (some 7)
        database
      ≡ ok (db', t))
    × (t.processed + t.needs_review + t.failed
        ≡ length (list_ids_for_company 7 database.publications database.artifacts))
    × (t.skipped ≡ 0)
process_company-total_example = process_company-total collaborators (λ k. draws) "FPT" 7 database

abbrev outcome : ProcessDocumentOutcome
outcome = record {
  job = record {
    id = 4;
    artifact_id = 1;
    status = ProcessingStatus.processed;
    parser = some "pymupdf";
    parser_version = some "1|doc13-v1";
    started_at = some 5001;
    finished_at = some 5003;
    error_ = none;
    created_at = 5000;
    updated_at = 5003;
  };
  result = result;
}

attempt_returns : (process_document collaborators draws 1 database).1 ≡ ok outcome
unfolding process_document attempt enqueue mark_stale_processing_failed create_pending
    mark_processing get_by_id first work save_pages create_page check_page save_blocks create_block
    delete_by_document delete_for_document mark_finished validate_terminal_status get_artifact
    get_raw_object
attempt_returns = refl

process_document-Replaced_example :
    Replaced 1 database (process_document collaborators draws 1 database).0 result
process_document-Replaced_example =
    process_document-Replaced collaborators draws 1 database artifact outcome found_artifact
      attempt_returns
