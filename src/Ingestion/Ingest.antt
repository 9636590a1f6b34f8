-- ===== src/Ingestion/Ingest.antt =====
-- `IngestCompanyService.ingest` of src/ingestion/service.py as a whole. The transactions that open and
-- close the run are taken to succeed, but for the row that `finish_by_id` misses.
pub mod Counts
pub mod Closing
pub mod Finish
pub mod DryRun
pub mod Items
pub mod Completed
use evidence_first_investmen.Base.{
  ℕ, zero, suc, ◌+◌, String, Bool, true, false, not, ◌&&◌, ◌||◌, Option, none, some, List, [], ◌∷◌,
  ◌++◌, map, length, take, join, ◌==◌, if◌then◌else◌, Result, Outcome, ok, raise, out_of_fuel,
  Error, error, ingestion_error, is_source_error, source_error, ◌<>◌, ◌>>=◌,
}
use evidence_first_investmen.Domain.{IngestionRunStatus, SourceType}
use evidence_first_investmen.Publication.{Publication}
use evidence_first_investmen.Ingestion.{
  SourceAttachment, SourceDocument, Run, source_value, start, finish_by_id,
}
use evidence_first_investmen.Ingestion.Outside.{
  World, Outside, Draws, is_database_error, is_storage_error,
}
use evidence_first_investmen.Ingestion.Publications.{Ids, Upserted, id_of, upsert_all, link_all}
use evidence_first_investmen.Ingestion.Attachments.{Tally, no_tally, process_attachments}

-- `artifacts_downloaded` and `duplicates_skipped`, which repeat two counters, are left out.
pub record IngestionResult : Type 0 where
  pub run_id : ℕ
  pub discovered : ℕ
  pub publications_created : ℕ
  pub downloaded : ℕ
  pub skipped : ℕ
  pub failed : ℕ
  pub status : IngestionRunStatus

-- The status after the attachments, from the counters.
unfoldable pub run_status : Tally → IngestionRunStatus
run_status t =
    if not (t.failed == 0) && (not (t.downloaded == 0) || not (t.skipped == 0))
    then IngestionRunStatus.partial
    else if not (t.failed == 0) && t.downloaded == 0 && t.skipped == 0
    then IngestionRunStatus.failed
    else IngestionRunStatus.completed

abbrev pub summary_of : List String → Option String
summary_of [] = none
summary_of (e ∷ errors) = some (join "; " (take 10 (e ∷ errors)))

-- The attachments of the documents, each with its publication's id, in the order of the loops. The
-- linkage loop has read the same keys before.
unfoldable pub attachments_of : Ids → List SourceDocument → Outcome (List (ℕ × SourceAttachment))
attachments_of ids [] = ok []
attachments_of ids (pub_ ∷ pubs) = id_of ids pub_ >>= λ i. attachments_of ids pubs >>= λ rest.
    ok (map (λ (a : SourceAttachment). (i, a)) pub_.attachments ++ rest)

abbrev pub no_result : ℕ → IngestionResult
no_result run_id = record {
  run_id = run_id;
  discovered = 0;
  publications_created = 0;
  downloaded = 0;
  skipped = 0;
  failed = 0;
  status = IngestionRunStatus.failed;
}

abbrev pub no_connector : Error
no_connector = error source_error "SourceError" "No connector registered for source"

module _ (outside : Outside) (draws : Draws) (fuel : ℕ) (dry_run : Bool) where
  -- What comes after `_finish_run`, which may raise itself.
  abbrev pub closed :
      World → Outcome IngestionResult → Outcome (List Run) → World × Outcome IngestionResult
  closed w next (ok runs) = (record w { runs = runs }, next)
  closed w next (raise e) = (w, raise e)
  closed w next out_of_fuel = (w, out_of_fuel)

  -- `_finish_run` with the status, the numbers of documents discovered, downloaded, skipped and
  -- failed, and the summary of the errors; and then what comes after it.
  unfoldable pub finish :
      World
      → IngestionRunStatus
      → ℕ
      → ℕ
      → ℕ
      → ℕ
      → Option String
      → Outcome IngestionResult
      → World × Outcome IngestionResult
  unfolding finish_by_id
  finish w status discovered downloaded skipped failed summary next = closed w next (
      finish_by_id draws.run_text draws.run_id status discovered downloaded skipped failed summary
        draws.finished w.runs)

  abbrev pub after_attachments : ℕ → ℕ → World × Outcome Tally → World × Outcome IngestionResult
  after_attachments discovered created (w, raise e) = (w, raise e)
  after_attachments discovered created (w, out_of_fuel) = (w, out_of_fuel)
  after_attachments discovered created (w, ok t) =
      finish w (run_status t) discovered t.downloaded t.skipped t.failed (summary_of t.errors) (
        ok record {
          run_id = draws.run_id;
          discovered = discovered;
          publications_created = created;
          downloaded = t.downloaded;
          skipped = t.skipped;
          failed = t.failed;
          status = run_status t;
        })

  abbrev pub attachments_step :
      ℕ → ℕ → World → Outcome (List (ℕ × SourceAttachment)) → World × Outcome IngestionResult
  attachments_step discovered created w (raise e) = (w, raise e)
  attachments_step discovered created w out_of_fuel = (w, out_of_fuel)
  attachments_step discovered created w (ok items) =
      after_attachments discovered created
        (process_attachments outside draws dry_run 0 items w no_tally)

  -- A failure of the database in one of the first two loops closes the run. Nothing has been
  -- downloaded or skipped by then, so the status is FAILED.
  abbrev pub database_failure : ℕ → ℕ → World → Error → World × Outcome IngestionResult
  database_failure discovered created w e =
      if is_database_error e.class
      then finish w IngestionRunStatus.failed discovered 0 0 1 (some e.message) (
          ok record {
            run_id = draws.run_id;
            discovered = discovered;
            publications_created = created;
            downloaded = 0;
            skipped = 0;
            failed = 1;
            status = IngestionRunStatus.failed;
          })
      else (w, raise e)

  abbrev pub after_links :
      Ids
      → List SourceDocument
      → ℕ
      → World
      → List Publication × Outcome Bool
      → World × Outcome IngestionResult
  after_links ids pubs created w (rows, ok b) =
      attachments_step (length pubs) created (record w { publications = rows })
        (attachments_of ids pubs)
  after_links ids pubs created w (rows, raise e) =
      database_failure (length pubs) created (record w { publications = rows }) e
  after_links ids pubs created w (rows, out_of_fuel) =
      (record w { publications = rows }, out_of_fuel)

  abbrev pub after_upserts :
      List SourceDocument → World → Upserted → Option Error → World × Outcome IngestionResult
  after_upserts pubs w u (some e) =
      database_failure (length pubs) u.created (record w { publications = u.rows }) e
  after_upserts pubs w u none =
      after_links u.ids pubs u.created w (link_all outside draws fuel 0 u.ids pubs u.rows)

  abbrev pub after_discovery :
      ℕ → World → Result (List SourceDocument) → World × Outcome IngestionResult
  after_discovery company_id w (Result.raised e) =
      if is_source_error e.class
      then finish w IngestionRunStatus.failed 0 0 0 0 (some e.message) (raise e)
      else (w, raise e)
  after_discovery company_id w (Result.returned pubs) =
      let u = upsert_all outside draws company_id 0 pubs [] 0 w.publications in
      after_upserts pubs w u u.failure

  abbrev pub when_ready :
      ℕ → World → Result (List SourceDocument) → Result Bool → World × Outcome IngestionResult
  when_ready company_id w found (Result.returned b) = after_discovery company_id w found
  when_ready company_id w found (Result.raised e) =
      if is_storage_error e.class
      then finish w IngestionRunStatus.failed 0 0 0 0 (some e.message) (ok (no_result draws.run_id))
      else (w, raise e)

  abbrev pub with_company :
      String
      → SourceType
      → Option (ℕ × String)
      → World
      → Result (List SourceDocument)
      → World × Outcome IngestionResult
  with_company ticker source none w found =
      (w, raise (error ingestion_error "IngestionError" ("Unknown ticker " <> ticker)))
  with_company ticker source (some (company_id, name)) w found =
      when_ready company_id
        (record w { runs = start draws.run_id draws.started (source_value source) name w.runs })
        found (if dry_run then Result.returned true else outside.ensure_ready)

  -- `company` is the id and the ticker that `get_by_ticker` finds, if there is one.
  unfoldable pub ingest :
      String → SourceType → Option (ℕ × String) → World → World × Outcome IngestionResult
  unfolding finish start process_attachments run_status attachments_of upsert_all link_all
  ingest ticker source company w = elim outside.discover [
    | none ↦ (w, raise no_connector)
    | some found ↦ with_company ticker source company w found
  ]
