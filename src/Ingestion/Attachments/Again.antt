-- ===== src/Ingestion/Attachments/Again.antt =====
-- What the attachment loop of src/ingestion/service.py leaves in the table of artifacts.
use mathlib.Core.Path.{subst}
use evidence_first_investmen.Base.{
  ℕ, suc, ◌+◌, ◌≤◌, String, Bool, true, false, ◌≡◌, refl, sym, ap, ◌∙◌, inl, inr, none, List, [],
  ◌∷◌, Memᴰ, length, Bool-cases, Outcome-cases, arith, Outcome, ok, raise, out_of_fuel,
  ok-injective, mem-cons-cases,
}
use evidence_first_investmen.Ingestion.{SourceAttachment}
use evidence_first_investmen.Ingestion.Outside.{World, Transaction, Outside, Draws, is_caught}
use evidence_first_investmen.Ingestion.Attachments.{
  Tally, tally_step, process_attachment, process_attachments,
}
use evidence_first_investmen.Ingestion.Attachments.Keys.{IsFound, process_attachment-Keeps}

-- A step that counts no failure has an outcome that returned.
record Steady (outcome : Outcome Bool) (t t' : Tally) : Type 0 where
  grows : t.failed ≤ t'.failed
  returned : t'.failed ≡ t.failed → (b : Bool) × (outcome ≡ ok b)

tally_step-Steady :
    (outcome : Outcome Bool) (t t' : Tally) → tally_step outcome t ≡ ok t' → Steady outcome t t'
tally_step-Steady (ok true) t t' h =
    let e = ap (λ (u : Tally). u.failed) (ok-injective h) in
    record { grows = omega (arith, e); returned = λ s. (true, refl) }
tally_step-Steady (ok false) t t' h =
    let e = ap (λ (u : Tally). u.failed) (ok-injective h) in
    record { grows = omega (arith, e); returned = λ s. (false, refl) }
tally_step-Steady out_of_fuel t t' h = cc
tally_step-Steady (raise e) t t' h = elim (Bool-cases (is_caught e.class)) [
  | inl y ↦
      let f = ap (λ (u : Tally). u.failed) (ok-injective (rw y at h)) in
      record { grows = omega (arith, f); returned = λ s. absurd (omega (arith, f, s)) }
  | inr n ↦ cc (rw n at h)
]

module _ (outside : Outside) (draws : Draws) where
  process_attachments-keeps :
      (k : ℕ) (items : List (ℕ × SourceAttachment)) (w : World) (t : Tally) (q : ℕ)
      (reference : String)
      → IsFound q reference w.artifacts
      → IsFound q reference (process_attachments outside draws false k items w t).0.artifacts
  unfolding process_attachments
  process_attachments-keeps k [] w t q reference h = h
  process_attachments-keeps k ((p, a) ∷ items) w t q reference h =
      let x = process_attachment outside draws false k p a w in
      let h' = (process_attachment-Keeps outside draws k p a w).old q reference h in
      elim (Outcome-cases (tally_step x.1 t)) [
        | inl (u, e) ↦
            rw (e, process_attachments)
              (process_attachments-keeps (suc k) items x.0 u q reference h')
        | inr (inl (y, e)) ↦ rw (e, process_attachments) h'
        | inr (inr e) ↦ rw (e, process_attachments) h'
      ]

  process_attachments-grows :
      (k : ℕ) (items : List (ℕ × SourceAttachment)) (w : World) (t t' : Tally)
      → (process_attachments outside draws false k items w t).1 ≡ ok t'
      → t.failed ≤ t'.failed
  unfolding process_attachments
  process_attachments-grows k [] w t t' h =
      omega (arith, ap (λ (u : Tally). u.failed) (ok-injective h))
  process_attachments-grows k ((p, a) ∷ items) w t t' h =
      let x = process_attachment outside draws false k p a w in
      elim (Outcome-cases (tally_step x.1 t)) [
        | inl (u, e) ↦
            let s = tally_step-Steady x.1 t u e in
            let more =
              process_attachments-grows (suc k) items x.0 u t' (rw (e, process_attachments) at h) in
            omega (arith, s.grows, more)
        | inr (inl (y, e)) ↦ cc (rw (e, process_attachments) at h)
        | inr (inr e) ↦ cc (rw (e, process_attachments) at h)
      ]

  -- Where the loop comes to its end and none failed, each of its attachments has its artifact, found by
  -- the publication and the reference.
  pub process_attachments-IsFound :
      (k : ℕ) (items : List (ℕ × SourceAttachment)) (w : World) (t t' : Tally)
      → (process_attachments outside draws false k items w t).1 ≡ ok t'
      → t'.failed ≡ t.failed
      → (p : ℕ) (a : SourceAttachment) → Memᴰ (p, a) items
      → IsFound p a.download_reference
          (process_attachments outside draws false k items w t).0.artifacts
  unfolding process_attachments
  process_attachments-IsFound k [] w t t' h none_failed p a m = elim m [ ]
  process_attachments-IsFound k ((q, b) ∷ items) w t t' h none_failed p a m =
      let x = process_attachment outside draws false k q b w in
      elim (Outcome-cases (tally_step x.1 t)) [
        | inr (inl (y, e)) ↦ cc (rw (e, process_attachments) at h)
        | inr (inr e) ↦ cc (rw (e, process_attachments) at h)
        | inl (u, e) ↦
            let h' = rw (e, process_attachments) at h in
            let s = tally_step-Steady x.1 t u e in
            let more = process_attachments-grows (suc k) items x.0 u t' h' in
            let (b', r) = s.returned (omega (arith, s.grows, more, none_failed)) in
            let here = (process_attachment-Keeps outside draws k q b w).new b' r in
            rw (e, process_attachments)
              (elim (mem-cons-cases m) [
                | inr m' ↦
                    process_attachments-IsFound (suc k) items x.0 u t' h'
                      (omega (arith, s.grows, more, none_failed)) p a m'
                | inl same ↦ process_attachments-keeps (suc k) items x.0 u p a.download_reference (
                    subst
                      (λ (z : ℕ × SourceAttachment).
                        IsFound z.0 z.1.download_reference x.0.artifacts)
                      (sym same) here)
              ])
      ]

  process_attachment-known :
      (k p : ℕ) (a : SourceAttachment) (w : World)
      → outside.database Transaction.find_artifact k ≡ none
      → IsFound p a.download_reference w.artifacts
      → process_attachment outside draws false k p a w ≡ (w, ok false)
  unfolding process_attachment
  process_attachment-known k p a w answers (row, here) =
      rw (answers, process_attachment) (rw here refl)

  -- A run over attachments whose artifacts are there changes nothing and skips each.
  process_attachments-known :
      (k : ℕ) (items : List (ℕ × SourceAttachment)) (w : World) (t : Tally)
      → ((i : ℕ) → outside.database Transaction.find_artifact i ≡ none)
      → ((p : ℕ) (a : SourceAttachment)
          → Memᴰ (p, a) items
          → IsFound p a.download_reference w.artifacts)
      → (t' : Tally) × (process_attachments outside draws false k items w t ≡ (w, ok t'))
        × (t'.skipped ≡ t.skipped + length items)
        × (t'.downloaded ≡ t.downloaded)
        × (t'.failed ≡ t.failed)
  unfolding process_attachments
  process_attachments-known k [] w t answers found = (t, refl, omega arith, refl, refl)
  process_attachments-known k ((p, a) ∷ items) w t answers found =
      let (row, here) = found p a (Memᴰ.head refl) in
      let (t', e, more, same, none_failed) =
        process_attachments-known (suc k) items w (record t { skipped = suc t.skipped }) answers
          (λ q b m. found q b (Memᴰ.tail m)) in
      let skipped = process_attachment-known k p a w (answers k) (row, here) in
      (t', ap step skipped ∙ e, omega (arith, more), same, none_failed)
    where
      step : World × Outcome Bool → World × Outcome Tally
      step x = elim (tally_step x.1 t) [
        | ok t' ↦ process_attachments outside draws false (suc k) items x.0 t'
        | raise e ↦ (x.0, raise e)
        | out_of_fuel ↦ (x.0, out_of_fuel)
      ]

-- Where the loop comes to its end and none failed, the same attachments in a later run, with any
-- draws and any connection whose lookups of artifacts answer, change nothing: each is skipped.
pub process_attachments_again :
    (outside outside' : Outside) (draws draws' : Draws) (k k' : ℕ)
    (items : List (ℕ × SourceAttachment)) (w : World) (t t' u : Tally)
    → (process_attachments outside draws false k items w t).1 ≡ ok t'
    → t'.failed ≡ t.failed
    → ((i : ℕ) → outside'.database Transaction.find_artifact i ≡ none)
    → (u' : Tally) × (process_attachments outside' draws' false k' items
          (process_attachments outside draws false k items w t).0
          u
        ≡ ((process_attachments outside draws false k items w t).0, ok u'))
      × (u'.skipped ≡ u.skipped + length items)
      × (u'.downloaded ≡ u.downloaded)
      × (u'.failed ≡ u.failed)
process_attachments_again outside outside' draws draws' k k' items w t t' u ends none_failed
      answers =
    process_attachments-known outside' draws' k' items
      (process_attachments outside draws false k items w t).0 u answers
      (process_attachments-IsFound outside draws k items w t t' ends none_failed)
