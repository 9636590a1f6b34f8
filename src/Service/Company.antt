-- ===== src/Service/Company.antt =====
-- How an attempt of src/services/process_document.py can come out, and what a company's run counts.
use evidence_first_investmen.Base.{
  ℕ, suc, ◌+◌, String, true, ◌≡◌, refl, ◌∙◌, ◌⊎◌, inl, inr, Option, none, some, List, [], ◌∷◌, ◌++◌,
  length, arith, Option-cases, Outcome, ok, raise, out_of_fuel, Error, Exception, ◌<>◌, ◌==◌,
}
use evidence_first_investmen.Domain.{ProcessingStatus, is_terminal}
use evidence_first_investmen.Publication.{Publication}
use evidence_first_investmen.Artifacts.{
  Artifact, RawObject, get_artifact, get_raw_object, list_ids_for_company, first,
}
use evidence_first_investmen.Jobs.Lifecycle.{
  HasJob, create_pending-HasJob, mark_processing-HasJob, mark_finished-total,
}
use evidence_first_investmen.Pipeline.{pipeline_name, pipeline_version}
use evidence_first_investmen.Service.{
  Database, Draws, Collaborators, ProcessDocumentOutcome, process_error, translate, translate_as,
  work, fail_attempt, settle, attempt, enqueue, with_raw, process_document, Tally, no_tally,
  count_status, count_outcome, count_failure, is_process_error, process_all, process_company,
}
use evidence_first_investmen.Service.Attempt.{work-terminal, work-ends}

-- A `ProcessDocumentError`, and the pages and blocks of the database as they were.
pub record Fails (db : Database) (x : Database × Outcome ProcessDocumentOutcome) : Type 0 where
  pub failure : Error
  pub raised : x.1 ≡ raise failure
  pub class : is_process_error failure.class ≡ true
  pub same_pages : x.0.pages ≡ db.pages
  pub same_blocks : x.0.blocks ≡ db.blocks

-- An outcome whose job has the status of its result, which is terminal.
pub record Succeeds (x : Database × Outcome ProcessDocumentOutcome) : Type 0 where
  pub outcome : ProcessDocumentOutcome
  pub returned : x.1 ≡ ok outcome
  pub status : outcome.job.status ≡ outcome.result.status
  pub terminal : is_terminal outcome.job.status ≡ true

translate-class : (e : Error) → is_process_error (translate e).class ≡ true
translate-class e = go e.class refl
  where
    go : (c : Exception) → e.class ≡ c → is_process_error (translate_as c e).class ≡ true
    go Exception.process_document_error h = rw h
    go Exception.storage_error h = refl
    go _ h = refl

module _ (with_ : Collaborators) (draws : Draws) (job_id : ℕ) where
  fail_attempt-Fails :
      (db : Database) (e : Error)
      → HasJob job_id db.jobs
      → Fails db (fail_attempt with_ draws job_id db e)
  unfolding fail_attempt
  fail_attempt-Fails db e has =
      let ((jobs, j), found, _, _) =
        mark_finished-total with_.uuid_text job_id ProcessingStatus.failed
          (some (e.name <> ": " <> e.message)) none none draws.finished db.jobs refl has in
      rw found (record {
        failure = translate e;
        raised = refl;
        class = translate-class e;
        same_pages = refl;
        same_blocks = refl;
      })

  settle-cases :
      (artifact : Artifact) (publication : Option Publication) (raw : RawObject) (db : Database)
      → HasJob job_id db.jobs
      → Succeeds
          (settle with_ draws job_id db (work with_ draws job_id artifact publication raw db))
        ⊎ Fails db
            (settle with_ draws job_id db (work with_ draws job_id artifact publication raw db))
  settle-cases artifact publication raw db has =
      go (work with_ draws job_id artifact publication raw db) refl
    where
      go :
          (m : Outcome (Database × ProcessDocumentOutcome))
          → work with_ draws job_id artifact publication raw db ≡ m
          → Succeeds (settle with_ draws job_id db m) ⊎ Fails db (settle with_ draws job_id db m)
      go (ok (db', o)) e =
          let (_, _, status, terminal) =
            work-terminal with_ draws job_id artifact publication raw db db' o has e in
          inl (record { outcome = o; returned = refl; status = status; terminal = terminal })
      go (raise e') e = inr (fail_attempt-Fails db e' has)
      go out_of_fuel e = absurd (work-ends with_ draws job_id artifact publication raw db e)

  attempt-cases :
      (artifact : Artifact) (publication : Option Publication) (raw : RawObject) (db : Database)
      → HasJob job_id db.jobs
      → Succeeds (attempt with_ draws job_id artifact publication raw db)
        ⊎ Fails db (attempt with_ draws job_id artifact publication raw db)
  unfolding attempt
  attempt-cases artifact publication raw db has =
      let ((jobs, j), marks, there) =
        mark_processing-HasJob with_.uuid_text job_id pipeline_name pipeline_version draws.started
          db.jobs has in
      rw marks (elim (settle-cases artifact publication raw (record db { jobs = jobs }) there) [
        | inl s ↦ inl s
        | inr f ↦ inr (record {
          failure = f.failure;
          raised = f.raised;
          class = f.class;
          same_pages = f.same_pages;
          same_blocks = f.same_blocks;
        })
      ])

-- Whatever the storage, the processor and the tables do, an attempt comes out in one of two ways. It
-- returns a job that has the status of the processor's result, which is terminal; or it raises a
-- `ProcessDocumentError`, and the tables of pages and blocks are as they were.
pub process_document-cases :
    (with_ : Collaborators) (draws : Draws) (document_id : ℕ) (db : Database)
    → Succeeds (process_document with_ draws document_id db)
      ⊎ Fails db (process_document with_ draws document_id db)
unfolding process_document enqueue
process_document-cases with_ draws document_id db =
    elim (Option-cases (get_artifact document_id db.artifacts)) [
      | inl missing ↦ rw missing (
          inr (record {
            failure =
                process_error ("document artifact not found: " <> with_.uuid_text document_id);
            raised = refl;
            class = refl;
            same_pages = refl;
            same_blocks = refl;
          }))
      | inr (artifact, found) ↦
          rw found (with_raw-cases artifact (get_raw_object artifact.raw_object_id db.raw_objects))
    ]
  where
    with_raw-cases :
        (artifact : Artifact) (raw : Option RawObject)
        → Succeeds (with_raw with_ draws document_id artifact raw db)
          ⊎ Fails db (with_raw with_ draws document_id artifact raw db)
    with_raw-cases artifact none = inr (record {
      failure = process_error ("raw object missing for artifact: " <> with_.uuid_text document_id);
      raised = refl;
      class = refl;
      same_pages = refl;
      same_blocks = refl;
    })
    with_raw-cases artifact (some raw) =
        elim (attempt-cases with_ draws draws.job_id artifact
          (first (λ (p : Publication). p.id == artifact.publication_id) db.publications) raw
          (enqueue with_ draws artifact db)
          (create_pending-HasJob draws.job_id draws.created artifact.id _)) [
            | inl s ↦ inl s
            | inr f ↦ inr (record {
              failure = f.failure;
              raised = f.raised;
              class = f.class;
              same_pages = f.same_pages;
              same_blocks = f.same_blocks;
            })
          ]

abbrev pub total : Tally → ℕ
total t = t.processed + t.needs_review + t.failed + t.skipped

count_outcome-total :
    (o : ProcessDocumentOutcome) (t : Tally)
    → is_terminal o.job.status ≡ true
    → (total (count_outcome o t) ≡ suc (total t)) × ((count_outcome o t).skipped ≡ t.skipped)
count_outcome-total o t h = go o.job.status (record t { outcomes = t.outcomes ++ o ∷ [] }) h
  where
    go :
        (s : ProcessingStatus) (u : Tally)
        → is_terminal s ≡ true
        → (total (count_status s u) ≡ suc (total u)) × ((count_status s u).skipped ≡ u.skipped)
    go ProcessingStatus.processed u k = (omega arith, refl)
    go ProcessingStatus.needs_review u k = (omega arith, refl)
    go ProcessingStatus.failed u k = (omega arith, refl)
    go ProcessingStatus.pending u k = cc
    go ProcessingStatus.processing u k = cc

process_all-total :
    (with_ : Collaborators) (draws : ℕ → Draws) (k : ℕ) (ids : List ℕ) (db : Database) (t : Tally)
    → (db' : Database) × (t' : Tally) × (process_all with_ draws k ids db t ≡ ok (db', t'))
      × (total t' ≡ total t + length ids)
      × (t'.skipped ≡ t.skipped)
unfolding process_all
process_all-total with_ draws k [] db t = (db, t, refl, omega arith, refl)
process_all-total with_ draws k (i ∷ ids) db t =
    elim (process_document-cases with_ (draws k) i db) [
      | inl s ↦
          let (counted, kept) = count_outcome-total s.outcome t s.terminal in
          let (db', t', e, sum, skips) =
            process_all-total with_ draws (suc k) ids (process_document with_ (draws k) i db).0
              (count_outcome s.outcome t) in
          rw s.returned (db', t', e, omega (arith, sum, counted), skips ∙ kept)
      | inr f ↦
          let (db', t', e, sum, skips) =
            process_all-total with_ draws (suc k) ids (process_document with_ (draws k) i db).0
              (count_failure t) in
          rw (f.raised, f.class) (db', t', e, omega (arith, sum), skips)
    ]

-- The run over a company's artifacts comes to an end and skips none of them: every artifact is
-- counted once, as processed, in need of review, or failed.
pub process_company-total :
    (with_ : Collaborators) (draws : ℕ → Draws) (ticker : String) (company_id : ℕ) (db : Database)
    → (db' : Database) × (t : Tally) × (process_company with_ draws ticker (some company_id) db
        ≡ ok (db', t))
      × (t.processed + t.needs_review + t.failed
          ≡ length (list_ids_for_company company_id db.publications db.artifacts))
      × (t.skipped ≡ 0)
unfolding process_company
process_company-total with_ draws ticker company_id db =
    let (db', t, e, sum, skips) =
      process_all-total with_ draws 0 (list_ids_for_company company_id db.publications db.artifacts)
        db no_tally in
    (db', t, e, omega (arith, sum, skips), skips)
