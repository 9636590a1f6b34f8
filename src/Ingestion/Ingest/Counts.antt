-- ===== src/Ingestion/Ingest/Counts.antt =====
-- What the counters of a run of src/ingestion/service.py add up to.
use evidence_first_investmen.Base.{
  ℕ, suc, ◌+◌, ◌<◌, Bool, true, false, ◌≡◌, ◌↔◌, sym, ap, ◌∙◌, inl, inr, List, [], ◌∷◌, length,
  Bool-cases, arith, Outcome, ok, raise, out_of_fuel, ok-injective, Outcome-cases,
}
use evidence_first_investmen.Domain.{IngestionRunStatus}
use evidence_first_investmen.Ingestion.{SourceAttachment}
use evidence_first_investmen.Ingestion.Outside.{World, Outside, Draws, is_caught}
use evidence_first_investmen.Ingestion.Attachments.{
  Tally, tally_step, process_attachment, process_attachments,
}
use evidence_first_investmen.Ingestion.Ingest.{run_status}

abbrev pub total : Tally → ℕ
total t = t.downloaded + t.skipped + t.failed

-- A step counts its attachment once, and what it adds is not taken away.
record Counted (t t' : Tally) : Type 0 where
  once : total t' ≡ suc (total t)

tally_step-Counted :
    (outcome : Outcome Bool) (t t' : Tally) → tally_step outcome t ≡ ok t' → Counted t t'
tally_step-Counted (ok true) t t' h = record {
  once = ap total (sym (ok-injective h)) ∙ omega arith;
}
tally_step-Counted (ok false) t t' h = record {
  once = ap total (sym (ok-injective h)) ∙ omega arith;
}
tally_step-Counted out_of_fuel t t' h = cc
tally_step-Counted (raise e) t t' h = elim (Bool-cases (is_caught e.class)) [
  | inl y ↦ record { once = ap total (sym (ok-injective (rw y at h))) ∙ omega arith }
  | inr n ↦ cc (rw n at h)
]

-- Where the attachment loop comes to its end, it has counted each attachment once: as downloaded, as
-- skipped or as failed.
pub process_attachments-total :
    (outside : Outside) (draws : Draws) (dry_run : Bool) (k : ℕ)
    (items : List (ℕ × SourceAttachment)) (w : World) (t t' : Tally)
    → (process_attachments outside draws dry_run k items w t).1 ≡ ok t'
    → t'.downloaded + t'.skipped + t'.failed ≡ t.downloaded + t.skipped + t.failed + length items
unfolding process_attachments
process_attachments-total outside draws dry_run k [] w t t' h =
    ap total (sym (ok-injective h)) ∙ omega arith
process_attachments-total outside draws dry_run k ((i, a) ∷ items) w t t' h =
    let (w1, outcome) = process_attachment outside draws dry_run k i a w in
    elim (Outcome-cases (tally_step outcome t)) [
      | inl (u, e) ↦
          let counted = tally_step-Counted outcome t u e in
          process_attachments-total outside draws dry_run (suc k) items w1 u t'
            (rw (e, process_attachments) at h)
          ∙ omega (arith, counted.once)
      | inr (inl (e', e)) ↦ cc (rw (e, process_attachments) at h)
      | inr (inr e) ↦ cc (rw (e, process_attachments) at h)
    ]

-- The status that the attachment loop comes to.
pub run_status_iff :
    (t : Tally)
    → ((run_status t ≡ IngestionRunStatus.completed) ↔ (t.failed ≡ 0))
      × ((run_status t ≡ IngestionRunStatus.failed)
          ↔ ((0 < t.failed) × (t.downloaded + t.skipped ≡ 0)))
      × ((run_status t ≡ IngestionRunStatus.partial)
          ↔ ((0 < t.failed) × (0 < t.downloaded + t.skipped)))
unfolding run_status
run_status_iff t = ground arith
