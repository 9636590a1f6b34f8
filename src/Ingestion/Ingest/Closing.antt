-- ===== src/Ingestion/Ingest/Closing.antt =====
-- How a run of src/ingestion/service.py is closed, and when it is not.
use mathlib.Core.Path.{subst}
use evidence_first_investmen.Base.{
  ℕ, String, Bool, true, false, ◌≡◌, ◌≢◌, refl, sym, ap, ◌∙◌, inl, inr, Option, none, some, List,
  [], ◌∷◌, Memᴰ, length, ◌==◌, ==_iff, if◌then◌else◌, Bool-cases, Option-cases, arith, some_inj,
  update_where, update_where-mem, mem-update_where, Result, Outcome, ok, raise, out_of_fuel, Error,
  ok-injective, is_source_error, mem-append_right,
}
use evidence_first_investmen.Domain.{IngestionRunStatus, SourceType}
use evidence_first_investmen.Publication.{Publication}
use evidence_first_investmen.Artifacts.{first}
use evidence_first_investmen.Ingestion.{
  SourceAttachment, SourceDocument, Run, source_value, start, has_run_id, close, finish_by_id,
}
use evidence_first_investmen.Ingestion.Outside.{
  World, Outside, Draws, is_database_error, is_storage_error,
}
use evidence_first_investmen.Ingestion.Publications.{Ids, Upserted, upsert_all, link_all}
use evidence_first_investmen.Ingestion.Attachments.{Tally, no_tally, process_attachments}
use evidence_first_investmen.Ingestion.Ingest.{
  IngestionResult, summary_of, attachments_of, no_result, closed, finish, after_attachments,
  attachments_step, database_failure, after_links, after_upserts, after_discovery, when_ready,
  with_company, ingest,
}

first-some :
    (p : Run → Bool) (rows : List Run) {r : Run}
    → first p rows ≡ some r
    → Memᴰ r rows × (p r ≡ true)
unfolding first
first-some p [] h = cc
first-some p (s ∷ rows) h = elim (Bool-cases (p s)) [
  | inl t ↦ let e = some_inj (rw t at h) in (Memᴰ.head (sym e), ap p (sym e) ∙ t)
  | inr f ↦ let (m, e) = first-some p rows (rw f at h) in (Memᴰ.tail m, e)
]

-- The row says what the result says, and that the run is over.
pub record Says (r : IngestionResult) (row : Run) : Type 0 where
  pub status : row.status ≡ r.status
  pub discovered : row.documents_discovered ≡ r.discovered
  pub downloaded : row.documents_downloaded ≡ r.downloaded
  pub skipped : row.documents_skipped ≡ r.skipped
  pub failed : row.documents_failed ≡ r.failed

-- The run is in the table, and each row that has its id says what the result says.
pub record Closed (run_id : ℕ) (w : World) (r : IngestionResult) : Type 0 where
  pub row : Run
  pub listed : Memᴰ row w.runs
  pub named : row.id ≡ run_id
  pub says : (x : Run) → Memᴰ x w.runs → x.id ≡ run_id → Says r x

module _ (outside : Outside) (draws : Draws) (fuel : ℕ) (dry_run : Bool) where
  -- Closing the run with the status and the counters of the result that comes after it.
  abbrev finish_with :
      World
      → IngestionResult
      → Option String
      → Outcome IngestionResult
      → World × Outcome IngestionResult
  finish_with w r summary next =
      finish outside draws fuel dry_run w r.status r.discovered r.downloaded r.skipped r.failed
        summary next

  finish-Closed :
      (w : World) (r r' : IngestionResult) (summary : Option String)
      → (finish_with w r summary (ok r)).1 ≡ ok r'
      → Closed draws.run_id (finish_with w r summary (ok r)).0 r'
  unfolding finish finish_by_id
  finish-Closed w r r' summary h = elim (Option-cases (first (has_run_id draws.run_id) w.runs)) [
    | inl missing ↦ cc (rw (missing, finish_by_id) at h)
    | inr (s, found) ↦
        let (m, e) = first-some (has_run_id draws.run_id) w.runs found in
        rw (found, finish_by_id)
          (subst (Closed draws.run_id (record w { runs = after }))
            (ok-injective (rw (found, finish_by_id) at h)) (made s m e))
  ]
    where
      closing : Run → Run
      closing = close r.status r.discovered r.downloaded r.skipped r.failed summary draws.finished

      after : List Run
      after = update_where (has_run_id draws.run_id) closing w.runs

      made :
          (s : Run)
          → Memᴰ s w.runs
          → has_run_id draws.run_id s ≡ true
          → Closed draws.run_id (record w { runs = after }) r
      made s m e =
          let there = mem-update_where (has_run_id draws.run_id) closing w.runs m in
          record {
            row = closing s;
            listed = rw e at there;
            named = (==_iff s.id draws.run_id).0 e;
            says = λ x mx named.
                let (y, my, ey) = update_where-mem (has_run_id draws.run_id) closing w.runs mx in
                elim (Bool-cases (y.id == draws.run_id)) [
                  | inl t ↦ subst (Says r) (sym (ey ∙ rw t refl)) (says_closing y)
                  | inr f ↦
                      let q : x ≡ y = ey ∙ rw f refl in
                      absurd (ground (arith, ap (λ (z : Run). z.id) q))
                ];
          }
        where
          says_closing : (y : Run) → Says r (closing y)
          says_closing y = record {
            status = refl;
            discovered = refl;
            downloaded = refl;
            skipped = refl;
            failed = refl;
          }

  finish-raises :
      (w : World) (status : IngestionRunStatus) (discovered downloaded skipped failed : ℕ)
      (summary : Option String) (e : Error) (r : IngestionResult)
      → (finish outside draws fuel dry_run w status discovered downloaded skipped failed summary
          (raise e)).1
        ≢ ok r
  unfolding finish
  finish-raises w status discovered downloaded skipped failed summary e r = go (
      finish_by_id draws.run_text draws.run_id status discovered downloaded skipped failed summary
        draws.finished w.runs)
    where
      go : (m : Outcome (List Run)) → (closed outside draws fuel dry_run w (raise e) m).1 ≢ ok r
      go (ok runs) = λ h. cc
      go (raise e') = λ h. cc
      go out_of_fuel = λ h. cc

  -- A stage that returns a result has closed the run with it.
  abbrev Closes : World × Outcome IngestionResult → Type 0
  Closes x = (r : IngestionResult) → x.1 ≡ ok r → Closed draws.run_id x.0 r

  after_attachments-Closes :
      (discovered created : ℕ) (x : World × Outcome Tally)
      → Closes (after_attachments outside draws fuel dry_run discovered created x)
  after_attachments-Closes discovered created (w, ok t) r h =
      finish-Closed w _ r (summary_of t.errors) h
  after_attachments-Closes discovered created (w, raise e) r h = cc
  after_attachments-Closes discovered created (w, out_of_fuel) r h = cc

  attachments_step-Closes :
      (discovered created : ℕ) (w : World) (m : Outcome (List (ℕ × SourceAttachment)))
      → Closes (attachments_step outside draws fuel dry_run discovered created w m)
  attachments_step-Closes discovered created w (ok items) r h =
      after_attachments-Closes discovered created
        (process_attachments outside draws dry_run 0 items w no_tally) r h
  attachments_step-Closes discovered created w (raise e) r h = cc
  attachments_step-Closes discovered created w out_of_fuel r h = cc

  database_failure-Closes :
      (discovered created : ℕ) (w : World) (e : Error)
      → Closes (database_failure outside draws fuel dry_run discovered created w e)
  database_failure-Closes discovered created w e r h =
      elim (Bool-cases (is_database_error e.class)) [
        | inl t ↦ rw t (finish-Closed w _ r (some e.message) (rw t at h))
        | inr f ↦ cc (rw f at h)
      ]

  after_links-Closes :
      (ids : Ids) (pubs : List SourceDocument) (created : ℕ) (w : World)
      (x : List Publication × Outcome Bool)
      → Closes (after_links outside draws fuel dry_run ids pubs created w x)
  after_links-Closes ids pubs created w (rows, ok b) r h =
      attachments_step-Closes (length pubs) created (record w { publications = rows })
        (attachments_of ids pubs) r h
  after_links-Closes ids pubs created w (rows, raise e) r h =
      database_failure-Closes (length pubs) created (record w { publications = rows }) e r h
  after_links-Closes ids pubs created w (rows, out_of_fuel) r h = cc

  after_upserts-Closes :
      (pubs : List SourceDocument) (w : World) (u : Upserted) (failure : Option Error)
      → Closes (after_upserts outside draws fuel dry_run pubs w u failure)
  after_upserts-Closes pubs w u (some e) =
      database_failure-Closes (length pubs) u.created (record w { publications = u.rows }) e
  after_upserts-Closes pubs w u none =
      after_links-Closes u.ids pubs u.created w (link_all outside draws fuel 0 u.ids pubs u.rows)

  after_discovery-Closes :
      (company_id : ℕ) (w : World) (found : Result (List SourceDocument))
      → Closes (after_discovery outside draws fuel dry_run company_id w found)
  after_discovery-Closes company_id w (Result.returned pubs) r h =
      let u = upsert_all outside draws company_id 0 pubs [] 0 w.publications in
      after_upserts-Closes pubs w u u.failure r h
  after_discovery-Closes company_id w (Result.raised e) r h =
      elim (Bool-cases (is_source_error e.class)) [
        | inl t ↦ absurd (finish-raises w _ _ _ _ _ (some e.message) e r (rw t at h))
        | inr f ↦ cc (rw f at h)
      ]

  when_ready-Closes :
      (company_id : ℕ) (w : World) (found : Result (List SourceDocument)) (ready : Result Bool)
      → Closes (when_ready outside draws fuel dry_run company_id w found ready)
  when_ready-Closes company_id w found (Result.returned b) r h =
      after_discovery-Closes company_id w found r h
  when_ready-Closes company_id w found (Result.raised e) r h =
      elim (Bool-cases (is_storage_error e.class)) [
        | inl t ↦ rw t (finish-Closed w (no_result draws.run_id) r (some e.message) (rw t at h))
        | inr f ↦ cc (rw f at h)
      ]

  with_company-Closes :
      (ticker : String) (source : SourceType) (company : Option (ℕ × String)) (w : World)
      (found : Result (List SourceDocument))
      → Closes (with_company outside draws fuel dry_run ticker source company w found)
  with_company-Closes ticker source none w found r h = cc
  with_company-Closes ticker source (some (company_id, name)) w found r h =
      when_ready-Closes company_id
        (record w { runs = start draws.run_id draws.started (source_value source) name w.runs })
        found (if dry_run then Result.returned true else outside.ensure_ready) r h

-- Where `ingest` returns a result, whichever way it got there, the run is in the table and its row has
-- the status and the counters of the result.
pub ingest-Closed :
    (outside : Outside) (draws : Draws) (fuel : ℕ) (dry_run : Bool) (ticker : String)
    (source : SourceType) (company : Option (ℕ × String)) (w : World) (r : IngestionResult)
    → (ingest outside draws fuel dry_run ticker source company w).1 ≡ ok r
    → Closed draws.run_id (ingest outside draws fuel dry_run ticker source company w).0 r
unfolding ingest
ingest-Closed outside draws fuel dry_run ticker source company w r h =
    elim (Option-cases outside.discover) [
      | inl missing ↦ cc (rw (missing, ingest) at h)
      | inr (found, e) ↦
          rw (e, ingest)
            (with_company-Closes outside draws fuel dry_run ticker source company w found r
              (rw (e, ingest) at h))
    ]

-- Where the connector raises an exception that is no `SourceError`, `ingest` raises it, and the run
-- that it has opened stays in the table with the status RUNNING.
pub ingest_unclosed :
    (outside : Outside) (draws : Draws) (fuel : ℕ) (ticker : String) (source : SourceType)
    (company_id : ℕ) (name : String) (w : World) (e : Error)
    → outside.discover ≡ some (Result.raised e)
    → outside.ensure_ready ≡ Result.returned true
    → is_source_error e.class ≡ false
    → ((ingest outside draws fuel false ticker source (some (company_id, name)) w).1 ≡ raise e)
      × ((row : Run) × Memᴰ row
            (ingest outside draws fuel false ticker source (some (company_id, name)) w).0.runs
          × (row.id ≡ draws.run_id)
          × (row.status ≡ IngestionRunStatus.running))
unfolding ingest start
ingest_unclosed outside draws fuel ticker source company_id name w e found ready other =
    rw (found, ready, ingest)
      (rw other (refl, (_, mem-append_right w.runs _ (Memᴰ.head refl), refl, refl)))
