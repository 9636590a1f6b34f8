-- ===== src/Jobs.antt =====
-- The rows of `document_processing_jobs` and the statements of
-- src/db/repositories/document_processing_job.py.
pub mod Lifecycle
use evidence_first_investmen.Base.{
  ℕ, String, Bool, true, false, ◌&&◌, ◌||◌, Option, none, some, List, [], ◌∷◌, ◌++◌, length, select,
  update_where, ltb, leb, ◌==◌, if◌then◌else◌, Outcome, ok, raise, Error, error, runtime_error,
  ◌>>◌, ◌<>◌,
}
use evidence_first_investmen.Domain.{ProcessingStatus, validate_terminal_status}
use evidence_first_investmen.Artifacts.{first}

pub record DocumentProcessingJob : Type 0 where
  pub id : ℕ
  pub artifact_id : ℕ
  pub status : ProcessingStatus
  pub parser : Option String
  pub parser_version : Option String
  pub started_at : Option ℕ
  pub finished_at : Option ℕ
  pub error_ : Option String
  pub created_at : ℕ
  pub updated_at : ℕ

abbrev pub has_job_id : ℕ → DocumentProcessingJob → Bool
has_job_id i j = j.id == i

unfoldable pub get_by_id : ℕ → List DocumentProcessingJob → Option DocumentProcessingJob
unfolding first
get_by_id i jobs = first (has_job_id i) jobs

unfoldable pub create_pending :
    ℕ → ℕ → ℕ → List DocumentProcessingJob → List DocumentProcessingJob × DocumentProcessingJob
create_pending new_id now artifact_id jobs =
    let job : DocumentProcessingJob = record {
      id = new_id;
      artifact_id = artifact_id;
      status = ProcessingStatus.pending;
      parser = none;
      parser_version = none;
      started_at = none;
      finished_at = none;
      error_ = none;
      created_at = now;
      updated_at = now;
    } in
    (jobs ++ job ∷ [], job)

-- ORDER BY created_at DESC, id DESC LIMIT 1
abbrev pub is_later : DocumentProcessingJob → DocumentProcessingJob → Bool
is_later a b = ltb b.created_at a.created_at || (a.created_at == b.created_at && leb b.id a.id)

abbrev pub latest_of : List DocumentProcessingJob → Option DocumentProcessingJob
latest_of [] = none
latest_of (j ∷ jobs) = elim (latest_of jobs) [
  | none ↦ some j
  | some k ↦ some (if is_later j k then j else k)
]

unfoldable pub get_latest_for_artifact :
    ℕ → List DocumentProcessingJob → Option DocumentProcessingJob
get_latest_for_artifact artifact_id jobs =
    latest_of (select (λ j. j.artifact_id == artifact_id) jobs)

abbrev pub is_processing : ProcessingStatus → Bool
is_processing ProcessingStatus.processing = true
is_processing ProcessingStatus.pending = false
is_processing ProcessingStatus.processed = false
is_processing ProcessingStatus.needs_review = false
is_processing ProcessingStatus.failed = false

abbrev pub is_stale : ℕ → DocumentProcessingJob → Bool
is_stale stale_before j = is_processing j.status && ltb j.updated_at stale_before

unfoldable pub mark_stale_processing_failed :
    ℕ → ℕ → List DocumentProcessingJob → List DocumentProcessingJob × ℕ
mark_stale_processing_failed stale_before now jobs = (
  update_where (is_stale stale_before)
      (λ j. record j {
        status = ProcessingStatus.failed;
        finished_at = some now;
        error_ = some "stale_processing_recovered";
        updated_at = now;
      })
      jobs,
  length (select (is_stale stale_before) jobs),
)

abbrev pub job_missing : String → Error
job_missing id = error runtime_error "RuntimeError" ("DocumentProcessingJob missing: " <> id)

-- A change of the row of a job, which must be there; the changed row is returned.
abbrev pub change :
    Option DocumentProcessingJob
    → (DocumentProcessingJob → DocumentProcessingJob)
    → ℕ
    → String
    → List DocumentProcessingJob
    → Outcome (List DocumentProcessingJob × DocumentProcessingJob)
change none f i id jobs = raise (job_missing id)
change (some j) f i id jobs = ok (update_where (has_job_id i) f jobs, f j)

-- `uuid_text` is `str` of an id.
module _ (uuid_text : ℕ → String) where
  unfoldable pub mark_processing :
      ℕ
      → String
      → String
      → ℕ
      → List DocumentProcessingJob
      → Outcome (List DocumentProcessingJob × DocumentProcessingJob)
  unfolding get_by_id
  mark_processing job_id parser parser_version now jobs =
      change (get_by_id job_id jobs)
        (λ j. record j {
          status = ProcessingStatus.processing;
          parser = some parser;
          parser_version = some parser_version;
          started_at = some now;
          finished_at = none;
          error_ = none;
          updated_at = now;
        })
        job_id (uuid_text job_id) jobs

  abbrev pub or_old : Option String → Option String → Option String
  or_old none old = old
  or_old (some new) old = some new

  abbrev pub finish :
      ProcessingStatus
      → Option String
      → Option String
      → Option String
      → ℕ
      → DocumentProcessingJob
      → DocumentProcessingJob
  finish status failure parser parser_version now j = record j {
    status = status;
    parser = or_old parser j.parser;
    parser_version = or_old parser_version j.parser_version;
    finished_at = some now;
    error_ = failure;
    updated_at = now;
  }

  unfoldable pub mark_finished :
      ℕ
      → ProcessingStatus
      → Option String
      → Option String
      → Option String
      → ℕ
      → List DocumentProcessingJob
      → Outcome (List DocumentProcessingJob × DocumentProcessingJob)
  unfolding get_by_id validate_terminal_status
  mark_finished job_id status failure parser parser_version now jobs =
      validate_terminal_status status
      >> change (get_by_id job_id jobs) (finish status failure parser parser_version now) job_id
          (uuid_text job_id) jobs
