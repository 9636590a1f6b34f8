-- ===== src/Ingestion/Ingest/DryRun.antt =====
-- What a dry run of `ingest` in src/ingestion/service.py leaves alone. It writes its run, and it
-- upserts and links publications.
use mathlib.Core.Path.{subst}
use evidence_first_investmen.Base.{
  ℕ, suc, String, Bool, true, ◌≡◌, refl, sym, ap, ◌∙◌, inl, inr, Option, none, some, List, [], ◌∷◌,
  length, Bool-cases, Option-cases, Result, Outcome, ok, raise, out_of_fuel, Error, ok-injective,
  is_source_error,
}
use evidence_first_investmen.Domain.{SourceType}
use evidence_first_investmen.Publication.{Publication}
use evidence_first_investmen.Ingestion.{SourceAttachment, SourceDocument, source_value, start}
use evidence_first_investmen.Ingestion.Outside.{World, Outside, Draws, is_database_error}
use evidence_first_investmen.Ingestion.Publications.{Ids, Upserted, upsert_all, link_all}
use evidence_first_investmen.Ingestion.Attachments.{
  Tally, no_tally, process_attachment, process_attachments,
}
use evidence_first_investmen.Ingestion.Ingest.{
  IngestionResult, attachments_of, after_attachments, attachments_step, database_failure,
  after_links, after_upserts, after_discovery, with_company, ingest,
}
use evidence_first_investmen.Ingestion.Ingest.Finish.{SameFiles, finish-SameFiles, finish-returns}

-- What a dry run of the attachments does: nothing but counting.
dry_attachments :
    (outside : Outside) (draws : Draws) (k : ℕ) (items : List (ℕ × SourceAttachment)) (w : World)
    (t : Tally)
    → (t' : Tally) × (process_attachments outside draws true k items w t ≡ (w, ok t'))
      × (t'.downloaded ≡ t.downloaded)
unfolding process_attachments process_attachment
dry_attachments outside draws k [] w t = (t, refl, refl)
dry_attachments outside draws k ((i, a) ∷ items) w t =
    dry_attachments outside draws (suc k) items w (record t { skipped = suc t.skipped })

-- The files are the same afterwards, and a result has no download in it.
abbrev IsDry : World → World × Outcome IngestionResult → Type 0
IsDry w x = SameFiles x.0 w × ((r : IngestionResult) → x.1 ≡ ok r → r.downloaded ≡ 0)

module _ (outside : Outside) (draws : Draws) (fuel : ℕ) where
  after_attachments-IsDry :
      (discovered created : ℕ) (w : World) (t : Tally)
      → t.downloaded ≡ 0
      → IsDry w (after_attachments outside draws fuel true discovered created (w, ok t))
  after_attachments-IsDry discovered created w t zero_ = (
    finish-SameFiles outside draws fuel true w _ _ _ _ _ _ _,
    λ r h.
        let e = ok-injective (finish-returns outside draws fuel true w _ _ _ _ _ _ _ r h) in
        ap (λ (s : IngestionResult). s.downloaded) (sym e) ∙ zero_,
  )

  attachments_step-IsDry :
      (discovered created : ℕ) (w : World) (m : Outcome (List (ℕ × SourceAttachment)))
      → IsDry w (attachments_step outside draws fuel true discovered created w m)
  attachments_step-IsDry discovered created w (ok items) =
      let (t, e, none_) = dry_attachments outside draws 0 items w no_tally in
      subst (λ x. IsDry w (after_attachments outside draws fuel true discovered created x)) (sym e)
        (after_attachments-IsDry discovered created w t none_)
  attachments_step-IsDry discovered created w (raise e) = ((refl, refl, refl), λ r h. cc)
  attachments_step-IsDry discovered created w out_of_fuel = ((refl, refl, refl), λ r h. cc)

  database_failure-IsDry :
      (discovered created : ℕ) (w : World) (e : Error)
      → IsDry w (database_failure outside draws fuel true discovered created w e)
  database_failure-IsDry discovered created w e = elim (Bool-cases (is_database_error e.class)) [
    | inl t ↦ rw t (
      finish-SameFiles outside draws fuel true w _ _ _ _ _ _ _,
      λ r h.
          ap (λ (s : IngestionResult). s.downloaded)
            (sym (ok-injective (finish-returns outside draws fuel true w _ _ _ _ _ _ _ r h))),
    )
    | inr f ↦ rw f ((refl, refl, refl), λ r h. cc)
  ]

  after_links-IsDry :
      (ids : Ids) (pubs : List SourceDocument) (created : ℕ) (w : World)
      (x : List Publication × Outcome Bool)
      → IsDry w (after_links outside draws fuel true ids pubs created w x)
  after_links-IsDry ids pubs created w (rows, ok b) =
      attachments_step-IsDry (length pubs) created (record w { publications = rows })
        (attachments_of ids pubs)
  after_links-IsDry ids pubs created w (rows, raise e) =
      database_failure-IsDry (length pubs) created (record w { publications = rows }) e
  after_links-IsDry ids pubs created w (rows, out_of_fuel) = ((refl, refl, refl), λ r h. cc)

  after_upserts-IsDry :
      (pubs : List SourceDocument) (w : World) (u : Upserted) (failure : Option Error)
      → IsDry w (after_upserts outside draws fuel true pubs w u failure)
  after_upserts-IsDry pubs w u (some e) =
      database_failure-IsDry (length pubs) u.created (record w { publications = u.rows }) e
  after_upserts-IsDry pubs w u none =
      after_links-IsDry u.ids pubs u.created w (link_all outside draws fuel 0 u.ids pubs u.rows)

  after_discovery-IsDry :
      (company_id : ℕ) (w : World) (found : Result (List SourceDocument))
      → IsDry w (after_discovery outside draws fuel true company_id w found)
  after_discovery-IsDry company_id w (Result.returned pubs) =
      let u = upsert_all outside draws company_id 0 pubs [] 0 w.publications in
      after_upserts-IsDry pubs w u u.failure
  after_discovery-IsDry company_id w (Result.raised e) =
      elim (Bool-cases (is_source_error e.class)) [
        | inl t ↦ rw t (
          finish-SameFiles outside draws fuel true w _ _ _ _ _ _ _,
          λ r h. cc (finish-returns outside draws fuel true w _ _ _ _ _ _ _ r h),
        )
        | inr f ↦ rw f ((refl, refl, refl), λ r h. cc)
      ]

-- A dry run downloads and stores nothing: whether it returns a result or raises, the artifacts, the
-- raw objects and the storage are afterwards as they were, and a result that it returns counts no
-- download. Publications and the table of runs may change.
pub ingest-dry_run :
    (outside : Outside) (draws : Draws) (fuel : ℕ) (ticker : String) (source : SourceType)
    (company : Option (ℕ × String)) (w : World)
    → SameFiles (ingest outside draws fuel true ticker source company w).0 w
      × ((r : IngestionResult)
          → (ingest outside draws fuel true ticker source company w).1 ≡ ok r
          → r.downloaded ≡ 0)
unfolding ingest
ingest-dry_run outside draws fuel ticker source company w = elim (Option-cases outside.discover) [
  | inl missing ↦ rw (missing, ingest) ((refl, refl, refl), λ r h. cc)
  | inr (found, e) ↦ rw (e, ingest) (with_company-IsDry company found)
]
  where
    with_company-IsDry :
        (company' : Option (ℕ × String)) (found : Result (List SourceDocument))
        → IsDry w (with_company outside draws fuel true ticker source company' w found)
    with_company-IsDry none found = ((refl, refl, refl), λ r h. cc)
    with_company-IsDry (some (company_id, name)) found =
        after_discovery-IsDry outside draws fuel company_id
          (record w { runs = start draws.run_id draws.started (source_value source) name w.runs })
          found
