-- ===== src/Jobs/Lifecycle.antt =====
-- The states that a job goes through (src/db/repositories/document_processing_job.py).
use evidence_first_investmen.Base.{
  ℕ, String, true, false, ◌≡◌, refl, sym, ap, ◌∙◌, ◌≢◌, inl, inr, Option, none, some, List, [], ◌∷◌,
  Memᴰ, ◌==◌, ==_iff, Bool-cases, arith, update_where, update_where-mem, mem-update_where, ok,
  out_of_fuel, ok-pair-injective,
}
use evidence_first_investmen.Domain.{ProcessingStatus, is_terminal, validate_terminal_status}
use evidence_first_investmen.Artifacts.{first}
use evidence_first_investmen.Jobs.{
  DocumentProcessingJob, has_job_id, get_by_id, create_pending, is_stale,
  mark_stale_processing_failed, change, mark_processing, mark_finished, finish,
}

-- Stale recovery leaves no job that has been processing since before the limit, and a job that was
-- not stale is in the table as it was.
pub stale_recovery :
    (stale_before now : ℕ) (jobs : List DocumentProcessingJob)
    → ((j : DocumentProcessingJob)
        → Memᴰ j (mark_stale_processing_failed stale_before now jobs).0
        → is_stale stale_before j ≡ false)
      × ((j : DocumentProcessingJob)
          → Memᴰ j jobs
          → is_stale stale_before j ≡ false
          → Memᴰ j (mark_stale_processing_failed stale_before now jobs).0)
unfolding mark_stale_processing_failed
stale_recovery stale_before now jobs = (
  λ j m.
      let (k, mk, e) = update_where-mem (is_stale stale_before) _ jobs m in
      elim (Bool-cases (is_stale stale_before k)) [ inl t ↦ rw (e, t) | inr f ↦ rw (e, f) f ],
  λ j m fresh.
      let kept =
        mem-update_where (is_stale stale_before)
          (λ k. record k {
            status = ProcessingStatus.failed;
            finished_at = some now;
            error_ = some "stale_processing_recovered";
            updated_at = now;
          })
          jobs m in
      rw fresh at kept,
)

abbrev pub HasJob : ℕ → List DocumentProcessingJob → Type 0
HasJob i jobs = (j : DocumentProcessingJob) × Memᴰ j jobs × (j.id ≡ i)

abbrev pub AllTerminal : ℕ → List DocumentProcessingJob → Type 0
AllTerminal i jobs =
    (j : DocumentProcessingJob) → Memᴰ j jobs → j.id ≡ i → is_terminal j.status ≡ true

pub get_by_id-some :
    (i : ℕ) (jobs : List DocumentProcessingJob)
    → HasJob i jobs
    → (j : DocumentProcessingJob) × (get_by_id i jobs ≡ some j) × Memᴰ j jobs × (j.id ≡ i)
unfolding get_by_id first
get_by_id-some i [] (j, m, e) = elim m [ ]
get_by_id-some i (k ∷ jobs) (j, m, e) = elim (Bool-cases (k.id == i)) [
  | inl t ↦ rw t (k, refl, Memᴰ.head refl, (==_iff k.id i).0 t)
  | inr f ↦
      let (l, found, ml, named) = get_by_id-some i jobs (j, later f m, e) in
      rw f (l, found, Memᴰ.tail ml, named)
]
  where
    later : (k.id == i) ≡ false → Memᴰ j (k ∷ jobs) → Memᴰ j jobs
    later f (Memᴰ.head e') = absurd (ground (arith, ap (λ (x : DocumentProcessingJob). x.id) e'))
    later f (Memᴰ.tail n) = n

pub create_pending-HasJob :
    (new_id now artifact_id : ℕ) (jobs : List DocumentProcessingJob)
    → HasJob new_id (create_pending new_id now artifact_id jobs).0
unfolding create_pending
create_pending-HasJob new_id now artifact_id [] = (_, Memᴰ.head refl, refl)
create_pending-HasJob new_id now artifact_id (j ∷ jobs) =
    let (k, m, e) = create_pending-HasJob new_id now artifact_id jobs in (k, Memᴰ.tail m, e)

-- A job's row is changed, and its id is not.
changed-HasJob :
    (i : ℕ) (f : DocumentProcessingJob → DocumentProcessingJob)
    → ((j : DocumentProcessingJob) → (f j).id ≡ j.id)
    → (jobs : List DocumentProcessingJob) → HasJob i jobs
    → HasJob i (update_where (has_job_id i) f jobs)
changed-HasJob i f same jobs (j, m, e) =
    let m' = mem-update_where (has_job_id i) f jobs m in
    let here : has_job_id i j ≡ true = (==_iff j.id i).1 e in (f j, rw here at m', same j ∙ e)

module _ (uuid_text : ℕ → String) where
  -- Where the job is in the table, `mark_processing` changes it, and the job stays there.
  pub mark_processing-HasJob :
      (i : ℕ) (parser version : String) (now : ℕ) (jobs : List DocumentProcessingJob)
      → HasJob i jobs
      → (r : List DocumentProcessingJob × DocumentProcessingJob) × (mark_processing uuid_text i
            parser version now jobs
          ≡ ok r)
        × HasJob i r.0
  unfolding mark_processing
  mark_processing-HasJob i parser version now jobs has =
      let (j, found, m, e) = get_by_id-some i jobs has in
      rw found (_, refl, changed-HasJob i _ (λ k. refl) jobs has)

  -- Where the job is in the table and the status is terminal, `mark_finished` returns the job with
  -- that status, and each row of the job has a terminal status.
  pub mark_finished-total :
      (i : ℕ) (status : ProcessingStatus) (failure parser version : Option String) (now : ℕ)
      (jobs : List DocumentProcessingJob)
      → is_terminal status ≡ true
      → HasJob i jobs
      → (r : List DocumentProcessingJob × DocumentProcessingJob) × (mark_finished uuid_text i status
            failure parser version now jobs
          ≡ ok r)
        × HasJob i r.0
        × AllTerminal i r.0
  unfolding mark_finished validate_terminal_status
  mark_finished-total i status failure parser version now jobs t has =
      let (j, found, m, e) = get_by_id-some i jobs has in
      rw (t, found)
        (
          _,
          refl,
          changed-HasJob i (finish uuid_text status failure parser version now) (λ k. refl) jobs
              has,
          all,
        )
    where
      all :
          AllTerminal i
            (update_where (has_job_id i) (finish uuid_text status failure parser version now) jobs)
      all k mk named =
          let (l, ml, e) =
            update_where-mem (has_job_id i) (finish uuid_text status failure parser version now)
              jobs mk in
          elim (Bool-cases (l.id == i)) [
            | inl here ↦ rw (e, here) t
            | inr other ↦
                let same : k ≡ l = e ∙ rw other refl in
                absurd (ground (arith, ap (λ (x : DocumentProcessingJob). x.id) same))
          ]

  -- A status that is not terminal is refused, whatever the table.
  pub mark_finished-ok :
      (i : ℕ) (status : ProcessingStatus) (failure parser version : Option String) (now : ℕ)
      (jobs jobs' : List DocumentProcessingJob) (j : DocumentProcessingJob)
      → mark_finished uuid_text i status failure parser version now jobs ≡ ok (jobs', j)
      → (is_terminal status ≡ true) × (j.status ≡ status)
  unfolding mark_finished validate_terminal_status
  mark_finished-ok i status failure parser version now jobs jobs' j h =
      elim (Bool-cases (is_terminal status)) [
        | inr f ↦ cc (rw f at h)
        | inl t ↦ (t, go (get_by_id i jobs) (rw t at h))
      ]
    where
      go :
          (o : Option DocumentProcessingJob)
          → change o (finish uuid_text status failure parser version now) i (uuid_text i) jobs
            ≡ ok (jobs', j)
          → j.status ≡ status
      go none k = cc
      go (some l) k = ap (λ (x : DocumentProcessingJob). x.status) (sym (ok-pair-injective k).1)

  pub mark_finished-ends :
      (i : ℕ) (status : ProcessingStatus) (failure parser version : Option String) (now : ℕ)
      (jobs : List DocumentProcessingJob)
      → mark_finished uuid_text i status failure parser version now jobs ≢ out_of_fuel
  unfolding mark_finished validate_terminal_status
  mark_finished-ends i status failure parser version now jobs =
      elim (Bool-cases (is_terminal status)) [
        | inr f ↦ λ h. cc (rw f at h)
        | inl t ↦ λ h. go (get_by_id i jobs) (rw t at h)
      ]
    where
      go :
          (o : Option DocumentProcessingJob)
          → change o (finish uuid_text status failure parser version now) i (uuid_text i) jobs
            ≢ out_of_fuel
      go none = λ h. cc
      go (some l) = λ h. cc
