-- ===== src/Ingestion/Attachments.antt =====
-- The attachment loop of `ingest` in src/ingestion/service.py, with `_ensure_raw_object` and
-- `_ensure_artifact`. The tables and the storage change step by step, so a step returns them beside its
-- outcome, also where it raises.
pub mod Keys
pub mod Again
use evidence_first_investmen.Base.{
  ℕ, zero, suc, ◌+◌, String, Bool, true, false, not, ◌&&◌, ◌||◌, Option, none, some, List, [], ◌∷◌,
  ◌++◌, length, take, join, ◌<>◌, str_eq, ◌==◌, if◌then◌else◌, present, text_or, Result, returned,
  raised, Outcome, ok, raise, out_of_fuel, Error, Exception, error, ingestion_error, other_error,
  call, ◌>>=◌,
}
use evidence_first_investmen.Domain.{IngestionRunStatus, ProcessingStatus, SourceType}
use evidence_first_investmen.Publication.{
  Details, Publication, ensure, get_id_by_natural_key, mark_needs_review, mark_not_latest,
}
use evidence_first_investmen.Publication.Lineage.{link}
use evidence_first_investmen.Artifacts.{
  Artifact, RawObject, get_artifact_by_natural_key, ensure_artifact, get_by_sha256,
  ensure_raw_object,
}
use evidence_first_investmen.Ingestion.{
  SourceAttachment, SourceDocument, DownloadedArtifact, Run, source_value, type_value, start,
  finish_by_id, build_raw_object_path_by_sha,
}
use evidence_first_investmen.Ingestion.Outside.{World, Transaction, Outside, Draws, is_caught}

abbrev pub pending_path : String
pending_path = "raw_objects/pending/blob"

module _ (outside : Outside) (draws : Draws) where
  abbrev pub raw_row : ℕ → DownloadedArtifact → String → RawObject
  raw_row k a path = record {
    id = draws.raw_id k;
    sha256 = a.sha256;
    object_path = path;
    mime_type = a.actual_mime_type;
    size_bytes = a.size_bytes;
    created_at = draws.now;
    updated_at = draws.now;
  }

  abbrev pub artifact_row : ℕ → ℕ → SourceAttachment → DownloadedArtifact → ℕ → Artifact
  artifact_row k publication_id attachment a raw_object_id = record {
    id = draws.artifact_id k;
    publication_id = publication_id;
    attachment_reference = attachment.download_reference;
    filename = a.filename;
    mime_type = a.actual_mime_type;
    file_size = a.size_bytes;
    raw_object_id = raw_object_id;
    created_at = draws.now;
    updated_at = draws.now;
  }

  -- The upload, unless the object is there: what is in storage afterwards.
  abbrev pub upload_if :
      ℕ
      → String
      → List ℕ
      → String
      → Bool
      → List (String × List ℕ)
      → List (String × List ℕ) × Outcome Bool
  upload_if k path bytes mime true stored = (stored, ok true)
  upload_if k path bytes mime false stored = elim (outside.put k path bytes mime) [
    | Result.returned b ↦ ((path, bytes) ∷ stored, ok true)
    | Result.raised e ↦ (stored, raise e)
  ]

  abbrev pub upload :
      ℕ → String → List ℕ → String → List (String × List ℕ) → List (String × List ℕ) × Outcome Bool
  upload k path bytes mime stored = elim (outside.exists k path) [
    | Result.raised e ↦ (stored, raise e)
    | Result.returned there ↦ upload_if k path bytes mime there stored
  ]

  -- The last transaction of `_ensure_raw_object`, once the bytes are in storage.
  abbrev pub save_raw :
      ℕ
      → DownloadedArtifact
      → String
      → World
      → List (String × List ℕ) × Outcome Bool
      → World × Outcome ℕ
  save_raw k a path w (stored, raise e) = (record w { stored = stored }, raise e)
  save_raw k a path w (stored, out_of_fuel) = (record w { stored = stored }, out_of_fuel)
  save_raw k a path w (stored, ok b) = elim (outside.database Transaction.save_raw k) [
    | some e ↦ (record w { stored = stored }, raise e)
    | none ↦
        let (rows, i) = ensure_raw_object (raw_row k a path) w.raw_objects in
        (record w { raw_objects = rows; stored = stored }, ok i)
  ]

  abbrev pub store_content :
      ℕ → DownloadedArtifact → String → Option (List ℕ) → World → World × Outcome ℕ
  store_content k a path none w =
      (w, raise (error ingestion_error "IngestionError" "Downloaded artifact missing content"))
  store_content k a path (some bytes) w =
      save_raw k a path w (upload k path bytes a.actual_mime_type w.stored)

  abbrev pub store_unless :
      ℕ → DownloadedArtifact → String → Option RawObject → World → World × Outcome ℕ
  store_unless k a path (some r) w = (w, ok r.id)
  store_unless k a path none w = store_content k a path a.content w

  unfoldable pub ensure_raw : ℕ → DownloadedArtifact → String → World → World × Outcome ℕ
  unfolding get_by_sha256 ensure_raw_object
  ensure_raw k a path w = elim (outside.database Transaction.find_raw k) [
    | some e ↦ (w, raise e)
    | none ↦ store_unless k a path (get_by_sha256 a.sha256 w.raw_objects) w
  ]

  -- `_ensure_artifact`, once the raw object is there.
  abbrev pub save_artifact :
      ℕ → ℕ → SourceAttachment → DownloadedArtifact → World × Outcome ℕ → World × Outcome Bool
  save_artifact k publication_id attachment a (w, raise e) = (w, raise e)
  save_artifact k publication_id attachment a (w, out_of_fuel) = (w, out_of_fuel)
  save_artifact k publication_id attachment a (w, ok raw_object_id) =
      elim (outside.database Transaction.save_artifact k) [
        | some e ↦ (w, raise e)
        | none ↦
            let v = artifact_row k publication_id attachment a raw_object_id in
            (record w { artifacts = (ensure_artifact v w.artifacts).0 }, ok true)
      ]

  -- A downloaded attachment: its digest gives the path, and then the raw object and the artifact.
  abbrev pub keep :
      ℕ → ℕ → SourceAttachment → World → Result DownloadedArtifact → World × Outcome Bool
  keep k publication_id attachment w (Result.raised e) = (w, raise e)
  keep k publication_id attachment w (Result.returned a) =
      elim (build_raw_object_path_by_sha a.sha256) [
        | raise e ↦ (w, raise e)
        | out_of_fuel ↦ (w, out_of_fuel)
        | ok path ↦ save_artifact k publication_id attachment a (ensure_raw k a path w)
      ]

  -- Whether the attachment was downloaded now; `false` says that it was there already.
  abbrev pub fetch_unless :
      ℕ → ℕ → SourceAttachment → World → Option Artifact → World × Outcome Bool
  fetch_unless k publication_id attachment w (some a) = (w, ok false)
  fetch_unless k publication_id attachment w none =
      keep k publication_id attachment w (outside.download k attachment)

  -- The body of the `try` for one attachment.
  unfoldable pub process_attachment : Bool → ℕ → ℕ → SourceAttachment → World → World × Outcome Bool
  unfolding ensure_raw get_artifact_by_natural_key ensure_artifact build_raw_object_path_by_sha
  process_attachment dry_run k publication_id attachment w =
      if dry_run then (w, ok false) else elim (outside.database Transaction.find_artifact k) [
        | some e ↦ (w, raise e)
        | none ↦
            fetch_unless k publication_id attachment w
              (get_artifact_by_natural_key publication_id attachment.download_reference w.artifacts)
      ]

pub record Tally : Type 0 where
  pub downloaded : ℕ
  pub skipped : ℕ
  pub failed : ℕ
  pub errors : List String

abbrev pub no_tally : Tally
no_tally = record { downloaded = 0; skipped = 0; failed = 0; errors = [] }

-- One attachment's outcome in the tally; an exception that the loop does not catch ends it.
abbrev pub tally_step : Outcome Bool → Tally → Outcome Tally
tally_step (ok true) t = ok (record t { downloaded = suc t.downloaded })
tally_step (ok false) t = ok (record t { skipped = suc t.skipped })
tally_step (raise e) t =
    if is_caught e.class
    then ok (record t { failed = suc t.failed; errors = t.errors ++ e.message ∷ [] })
    else raise e
tally_step out_of_fuel t = out_of_fuel

-- The two loops as one, over the pairs of a publication's id and an attachment.
module _ (outside : Outside) (draws : Draws) (dry_run : Bool) where
  unfoldable pub process_attachments :
      ℕ → List (ℕ × SourceAttachment) → World → Tally → World × Outcome Tally
  unfolding process_attachment
  process_attachments k [] w t = (w, ok t)
  process_attachments k ((publication_id, attachment) ∷ items) w t =
      let (w', outcome) = process_attachment outside draws dry_run k publication_id attachment w in
      elim (tally_step outcome t) [
        | ok t' ↦ process_attachments (suc k) items w' t'
        | raise e ↦ (w', raise e)
        | out_of_fuel ↦ (w', out_of_fuel)
      ]
