-- ===== src/Ingestion/Outside.antt =====
-- What `IngestCompanyService` of src/ingestion/service.py works on. Each `session.begin()` is one
-- change of the tables, which happens or, where the database raises, does not. What happens outside
-- the tables is in `Outside`: the connector, the downloader, object storage, and the errors of the
-- database.
use evidence_first_investmen.Base.{
  ℕ, String, Bool, true, false, Option, none, some, List, Result, Outcome, raise, Error, Exception,
}
use evidence_first_investmen.Publication.{Publication}
use evidence_first_investmen.Artifacts.{Artifact, RawObject}
use evidence_first_investmen.Ingestion.{SourceAttachment, SourceDocument, DownloadedArtifact, Run}

-- The tables, and what has been put into object storage, newest first.
pub record World : Type 0 where
  pub publications : List Publication
  pub artifacts : List Artifact
  pub raw_objects : List RawObject
  pub runs : List Run
  pub stored : List (String × List ℕ)

-- The transactions of one document or attachment.
pub data Transaction : Type 0 where
  upsert link_parent find_artifact find_raw save_raw save_artifact : Transaction

-- `discover` is `none` where the registry has no connector for the source.
pub record Outside : Type 0 where
  pub discover : Option (Result (List SourceDocument))
  pub ensure_ready : Result Bool
  pub database : Transaction → ℕ → Option Error
  pub download : ℕ → SourceAttachment → Result DownloadedArtifact
  pub exists : ℕ → String → Result Bool
  pub put : ℕ → String → List ℕ → String → Result Bool

-- The ids and times that a run draws.
pub record Draws : Type 0 where
  pub run_id : ℕ
  pub run_text : String
  pub started : ℕ
  pub now : ℕ
  pub finished : ℕ
  pub publication_id : ℕ → ℕ
  pub raw_id : ℕ → ℕ
  pub artifact_id : ℕ → ℕ

-- `except SQLAlchemyError`, `except SourceError`, `except StorageError`
abbrev pub is_database_error : Exception → Bool
is_database_error Exception.sqlalchemy_error = true
is_database_error _ = false

abbrev pub is_storage_error : Exception → Bool
is_storage_error Exception.storage_error = true
is_storage_error _ = false

-- What the attachment loop catches.
abbrev pub is_caught : Exception → Bool
is_caught Exception.download_error = true
is_caught Exception.storage_error = true
is_caught Exception.ingestion_error = true
is_caught Exception.source_error = true
is_caught Exception.source_unavailable_error = true
is_caught Exception.sqlalchemy_error = true
is_caught _ = false

-- A transaction whose database raises `e` changes nothing.
abbrev pub guard {ℓ} : {A : Type ℓ} → Option Error → Outcome A → Outcome A
guard none m = m
guard (some e) m = raise e
