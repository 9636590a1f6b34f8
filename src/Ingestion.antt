-- ===== src/Ingestion.antt =====
-- src/ingestion: the documents that a connector discovers (models.py), the rows of `ingestion_runs`
-- with the statements of src/db/repositories/ingestion_run.py, and the paths of raw objects
-- (src/storage/paths.py). The service itself is in the children.
pub mod Outside
pub mod Publications
pub mod Attachments
pub mod Ingest
pub mod Download
use evidence_first_investmen.Base.{
  ℕ, String, Bool, true, false, Option, none, some, List, [], ◌∷◌, ◌++◌, update_where, ◌==◌, ltb,
  is_empty, take_chars, count_chars, ◌<>◌, ◌||◌, if◌then◌else◌, Outcome, ok, raise, Error, error,
  runtime_error, value_error,
}
use evidence_first_investmen.Domain.{IngestionRunStatus, SourceType}
use evidence_first_investmen.Artifacts.{first}

pub data DocumentType : Type 0 where
  periodic_report financial_statement event_disclosure material_disclosure other : DocumentType

pub record SourceAttachment : Type 0 where
  pub filename : String
  pub download_reference : String
  pub reported_mime_type : Option String

-- Of `metadata`, the three keys that the service reads: `none` is a key that is missing, and a key that
-- is there is taken to hold a text. `None` under a key, which the source passes on, is not modelled.
pub record SourceDocument : Type 0 where
  pub source : SourceType
  pub source_document_id : String
  pub ticker : String
  pub title : String
  pub published_at : Option ℕ
  pub source_updated_date : Option ℕ
  pub published_at_precision : Option String
  pub detail_reference : Option String
  pub attachments : List SourceAttachment
  pub scope : Option String
  pub audit_status : Option String
  pub language : Option String
  pub document_type : DocumentType
  pub period_start : Option ℕ
  pub period_end : Option ℕ
  pub fiscal_year : Option ℕ
  pub fiscal_quarter : Option ℕ
  pub is_correction : Bool
  pub supersedes_source_document_id : Option String

pub record DownloadedArtifact : Type 0 where
  pub filename : String
  pub actual_mime_type : String
  pub size_bytes : ℕ
  pub sha256 : String
  pub object_path : String
  pub content : Option (List ℕ)

pub record Run : Type 0 where
  pub id : ℕ
  pub source : String
  pub ticker : String
  pub started_at : ℕ
  pub finished_at : Option ℕ
  pub status : IngestionRunStatus
  pub documents_discovered : ℕ
  pub documents_downloaded : ℕ
  pub documents_skipped : ℕ
  pub documents_failed : ℕ
  pub error_summary : Option String

-- `source.value` and `document_type.value`
abbrev pub source_value : SourceType → String
source_value SourceType.hose = "HOSE"
source_value SourceType.hnx = "HNX"
source_value SourceType.ssc = "SSC"
source_value SourceType.issuer_ir = "ISSUER_IR"
source_value SourceType.fixture = "FIXTURE"

abbrev pub type_value : DocumentType → String
type_value DocumentType.periodic_report = "periodic_report"
type_value DocumentType.financial_statement = "financial_statement"
type_value DocumentType.event_disclosure = "event_disclosure"
type_value DocumentType.material_disclosure = "material_disclosure"
type_value DocumentType.other = "other"

-- The counters default to 0 (migration 003). `ticker` is in upper case already.
unfoldable pub start : ℕ → ℕ → String → String → List Run → List Run
start new_id now source ticker runs =
    runs
    ++ (record {
      id = new_id;
      source = source;
      ticker = ticker;
      started_at = now;
      finished_at = none;
      status = IngestionRunStatus.running;
      documents_discovered = 0;
      documents_downloaded = 0;
      documents_skipped = 0;
      documents_failed = 0;
      error_summary = none;
    })
      ∷ []

abbrev pub has_run_id : ℕ → Run → Bool
has_run_id i r = r.id == i

abbrev pub close : IngestionRunStatus → ℕ → ℕ → ℕ → ℕ → Option String → ℕ → Run → Run
close status discovered downloaded skipped failed summary now r = record r {
  finished_at = some now;
  status = status;
  documents_discovered = discovered;
  documents_downloaded = downloaded;
  documents_skipped = skipped;
  documents_failed = failed;
  error_summary = summary;
}

abbrev pub close_row : Option Run → String → ℕ → (Run → Run) → List Run → Outcome (List Run)
close_row none id i f runs =
    raise (error runtime_error "RuntimeError" ("IngestionRun missing: " <> id))
close_row (some r) id i f runs = ok (update_where (has_run_id i) f runs)

-- `id` is `str` of the run's id.
unfoldable pub finish_by_id :
    String
    → ℕ
    → IngestionRunStatus
    → ℕ
    → ℕ
    → ℕ
    → ℕ
    → Option String
    → ℕ
    → List Run
    → Outcome (List Run)
unfolding first
finish_by_id id i status discovered downloaded skipped failed summary now runs =
    close_row (first (has_run_id i) runs) id i
      (close status discovered downloaded skipped failed summary now) runs

-- `normalized` is the digest after `strip` and `lower`, which leave a hexadecimal digest as it is.
unfoldable pub build_raw_object_path_by_sha : String → Outcome String
build_raw_object_path_by_sha normalized =
    if is_empty normalized || ltb (count_chars normalized) 8
    then raise (error value_error "ValueError" "sha256 must be non-empty")
    else ok ("raw_objects/" <> take_chars 8 normalized <> "/" <> normalized <> "/blob")
