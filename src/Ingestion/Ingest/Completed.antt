-- ===== src/Ingestion/Ingest/Completed.antt =====
-- What the status COMPLETED of a run of src/ingestion/service.py stands for.
use evidence_first_investmen.Base.{
  ℕ, ◌+◌, Bool, false, ◌≡◌, List, Memᴰ, length, Result, Outcome, ok,
}
use evidence_first_investmen.Domain.{IngestionRunStatus}
use evidence_first_investmen.Publication.{Publication}
use evidence_first_investmen.Ingestion.{SourceAttachment, SourceDocument}
use evidence_first_investmen.Ingestion.Outside.{World, Outside, Draws}
use evidence_first_investmen.Ingestion.Attachments.{Tally}
use evidence_first_investmen.Ingestion.Attachments.Keys.{IsFound}
use evidence_first_investmen.Ingestion.Ingest.{IngestionResult}
use evidence_first_investmen.Ingestion.Ingest.Items.{attachment_count}

-- What a completed run has done with the documents that the connector gave it.
pub record IsComplete (dry_run : Bool) (pubs : List SourceDocument) (w : World)
    (r : IngestionResult) : Type 0 where
  pub discovered : r.discovered ≡ length pubs
  pub none_failed : r.failed ≡ 0
  pub counted : r.downloaded + r.skipped ≡ attachment_count pubs
  pub kept :
      dry_run ≡ false
      → (p : SourceDocument) (a : SourceAttachment) → Memᴰ p pubs
      → Memᴰ a p.attachments
      → (i : ℕ) × IsFound i a.download_reference w.artifacts

module _ (outside : Outside) (draws : Draws) (fuel : ℕ) (dry_run : Bool) where
  -- What the attachment loop has done for its items, where it came to its end.
  record Looped (items : List (ℕ × SourceAttachment)) (x : World × Outcome Tally) : Type 0 where
    counted : (t : Tally) → x.1 ≡ ok t → t.downloaded + t.skipped + t.failed ≡ length items
    kept :
        (t : Tally)
        → x.1 ≡ ok t
        → t.failed ≡ 0
        → dry_run ≡ false
        → (i : ℕ) (a : SourceAttachment) → Memᴰ (i, a) items
        → IsFound i a.download_reference x.0.artifacts

  -- A stage that returns a completed result has done its work.
  abbrev Completes : List SourceDocument → World × Outcome IngestionResult → Type 0
  Completes pubs x =
      (r : IngestionResult)
      → x.1 ≡ ok r
      → r.status ≡ IngestionRunStatus.completed
      → IsComplete dry_run pubs x.0 r

  -- What the connector gave, and the work that was done with it.
  abbrev Completed : Result (List SourceDocument) → World → IngestionResult → Type 0
  Completed found w r =
      (pubs : List SourceDocument) × (found ≡ Result.returned pubs) × IsComplete dry_run pubs w r
