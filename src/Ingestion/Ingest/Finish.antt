-- ===== src/Ingestion/Ingest/Finish.antt =====
-- What `_finish_run` of src/ingestion/service.py leaves alone: all but the table of runs.
use evidence_first_investmen.Base.{
  ℕ, String, Bool, ◌≡◌, refl, Option, List, Outcome, ok, raise, out_of_fuel,
}
use evidence_first_investmen.Domain.{IngestionRunStatus}
use evidence_first_investmen.Ingestion.{Run, finish_by_id}
use evidence_first_investmen.Ingestion.Outside.{World, Outside, Draws}
use evidence_first_investmen.Ingestion.Ingest.{IngestionResult, closed, finish}

-- The artifacts, the raw objects and the storage of two worlds are the same.
abbrev pub SameFiles : World → World → Type 0
SameFiles w' w =
    (w'.artifacts ≡ w.artifacts) × (w'.raw_objects ≡ w.raw_objects) × (w'.stored ≡ w.stored)

module _ (outside : Outside) (draws : Draws) (fuel : ℕ) (dry_run : Bool) where
  closed-SameFiles :
      (w : World) (next : Outcome IngestionResult) (m : Outcome (List Run))
      → SameFiles (closed outside draws fuel dry_run w next m).0 w
  closed-SameFiles w next (ok runs) = (refl, refl, refl)
  closed-SameFiles w next (raise e) = (refl, refl, refl)
  closed-SameFiles w next out_of_fuel = (refl, refl, refl)

  closed-returns :
      (w : World) (next : Outcome IngestionResult) (m : Outcome (List Run)) (r : IngestionResult)
      → (closed outside draws fuel dry_run w next m).1 ≡ ok r
      → next ≡ ok r
  closed-returns w next (ok runs) r h = h
  closed-returns w next (raise e) r h = cc
  closed-returns w next out_of_fuel r h = cc

  pub finish-SameFiles :
      (w : World) (status : IngestionRunStatus) (discovered downloaded skipped failed : ℕ)
      (summary : Option String) (next : Outcome IngestionResult)
      → SameFiles
          (finish outside draws fuel dry_run w status discovered downloaded skipped failed summary
            next).0
          w
  unfolding finish
  finish-SameFiles w status discovered downloaded skipped failed summary next =
      closed-SameFiles w next (
        finish_by_id draws.run_text draws.run_id status discovered downloaded skipped failed summary
          draws.finished w.runs)

  pub finish-returns :
      (w : World) (status : IngestionRunStatus) (discovered downloaded skipped failed : ℕ)
      (summary : Option String) (next : Outcome IngestionResult) (r : IngestionResult)
      → (finish outside draws fuel dry_run w status discovered downloaded skipped failed summary
          next).1
        ≡ ok r
      → next ≡ ok r
  unfolding finish
  finish-returns w status discovered downloaded skipped failed summary next r h =
      closed-returns w next
        (finish_by_id draws.run_text draws.run_id status discovered downloaded skipped failed
          summary draws.finished w.runs)
        r h
