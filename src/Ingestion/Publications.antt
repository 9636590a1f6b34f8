-- ===== src/Ingestion/Publications.antt =====
-- The first two loops of `ingest` in src/ingestion/service.py: the publications are upserted, and then
-- linked to their predecessors.
use evidence_first_investmen.Base.{
  ℕ, suc, String, Bool, true, false, not, ◌&&◌, Option, none, some, List, [], ◌∷◌, str_eq,
  if◌then◌else◌, present, Outcome, ok, raise, out_of_fuel, Error, error, other_error, ◌>>=◌,
}
use evidence_first_investmen.Domain.{ProcessingStatus}
use evidence_first_investmen.Publication.{
  Publication, ensure, get_id_by_natural_key, mark_needs_review, mark_not_latest,
}
use evidence_first_investmen.Publication.Lineage.{link}
use evidence_first_investmen.Ingestion.{SourceDocument, source_value, type_value}
use evidence_first_investmen.Ingestion.Outside.{Transaction, Outside, Draws, guard}

abbrev pub needs_review : SourceDocument → Bool
needs_review pub_ = elim (present pub_.supersedes_source_document_id) [
  | none ↦ pub_.is_correction
  | some s ↦ false
]

abbrev pub is_first_version : SourceDocument → Bool
is_first_version pub_ = elim (present pub_.supersedes_source_document_id) [
  | none ↦ not pub_.is_correction
  | some s ↦ false
]

-- `metadata.get(key, default)`, for a key that is missing or holds a text.
abbrev pub scope_or : Option String → String → String
scope_or none default = default
scope_or (some t) default = t

-- The values that `_ensure_publication` passes on.
abbrev pub values_of : Draws → ℕ → ℕ → SourceDocument → Publication
values_of draws company_id k pub_ = record {
  id = draws.publication_id k;
  company_id = company_id;
  source = source_value pub_.source;
  source_document_id = pub_.source_document_id;
  details = record {
    title = pub_.title;
    document_type = type_value pub_.document_type;
    published_at = pub_.published_at;
    source_updated_date = pub_.source_updated_date;
    published_at_precision = pub_.published_at_precision;
    scope = scope_or pub_.scope "unknown";
    audit_status = scope_or pub_.audit_status "unknown";
    language = pub_.language;
    source_reference = pub_.detail_reference;
  };
  period_start = pub_.period_start;
  period_end = pub_.period_end;
  fiscal_year = pub_.fiscal_year;
  fiscal_quarter = pub_.fiscal_quarter;
  parent_publication_id = none;
  is_correction = pub_.is_correction;
  is_latest_version = is_first_version pub_;
  processing_status =
      if needs_review pub_ then ProcessingStatus.needs_review else ProcessingStatus.pending;
  created_at = draws.now;
  updated_at = draws.now;
}

-- `publication_ids`: the items by (source, document), the newest first.
abbrev pub Ids : Type 0
Ids = List ((String × String) × ℕ)

abbrev pub get_id : String → String → Ids → Option ℕ
get_id source document [] = none
get_id source document (((s, d), i) ∷ ids) =
    if str_eq s source && str_eq d document then some i else get_id source document ids

-- `publication_ids[...]`
abbrev pub id_of : Ids → SourceDocument → Outcome ℕ
id_of ids pub_ = elim (get_id (source_value pub_.source) pub_.source_document_id ids) [
  | none ↦ raise (error other_error "KeyError" pub_.source_document_id)
  | some i ↦ ok i
]

pub record Upserted : Type 0 where
  pub rows : List Publication
  pub ids : Ids
  pub created : ℕ
  pub failure : Option Error

module _ (outside : Outside) (draws : Draws) where
  -- "Upsert all publications first": the loop ends at the first error.
  unfoldable pub upsert_all : ℕ → ℕ → List SourceDocument → Ids → ℕ → List Publication → Upserted
  unfolding ensure
  upsert_all company_id k [] ids created rows = record {
    rows = rows;
    ids = ids;
    created = created;
    failure = none;
  }
  upsert_all company_id k (pub_ ∷ pubs) ids created rows =
      let (rows', i, new) = ensure (values_of draws company_id k pub_) rows in
      elim (outside.database Transaction.upsert k) [
        | some e ↦ record { rows = rows; ids = ids; created = created; failure = some e }
        | none ↦
            upsert_all company_id (suc k) pubs
              (((source_value pub_.source, pub_.source_document_id), i) ∷ ids)
              (if new then suc created else created) rows'
      ]

  -- One publication of the linkage loop. A successor whose predecessor is not known is set aside.
  abbrev pub link_found : ℕ → ℕ → Option ℕ → List Publication → Outcome (List Publication)
  link_found fuel child none rows = ok (mark_needs_review draws.now child rows)
  link_found fuel child (some parent) rows = link fuel draws.now child parent rows

  abbrev pub parent_of : String → String → Option ℕ → List Publication → Option ℕ
  parent_of source document (some i) rows = some i
  parent_of source document none rows = get_id_by_natural_key source document rows

  abbrev pub link_superseding :
      ℕ
      → Option Error
      → Ids
      → SourceDocument
      → ℕ
      → Option String
      → List Publication
      → Outcome (List Publication)
  link_superseding fuel disrupted ids pub_ child none rows =
      if pub_.is_correction
      then guard disrupted
          (ok (mark_not_latest draws.now child (mark_needs_review draws.now child rows)))
      else ok rows
  link_superseding fuel disrupted ids pub_ child (some parent_document) rows = guard disrupted (
      link_found fuel child
        (parent_of (source_value pub_.source) parent_document
          (get_id (source_value pub_.source) parent_document ids) rows)
        rows)

  -- The tables up to the first error, and that error.
  unfoldable pub link_all :
      ℕ → ℕ → Ids → List SourceDocument → List Publication → List Publication × Outcome Bool
  unfolding link mark_needs_review mark_not_latest get_id_by_natural_key
  link_all fuel k ids [] rows = (rows, ok true)
  link_all fuel k ids (pub_ ∷ pubs) rows =
      elim (id_of ids pub_ >>= λ child.
      link_superseding fuel (outside.database Transaction.link_parent k) ids pub_ child
        (present pub_.supersedes_source_document_id) rows) [
          | ok rows' ↦ link_all fuel (suc k) ids pubs rows'
          | raise e ↦ (rows, raise e)
          | out_of_fuel ↦ (rows, out_of_fuel)
        ]
