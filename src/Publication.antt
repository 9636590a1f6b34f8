-- ===== src/Publication.antt =====
-- The rows of `source_publications` and the statements of
-- src/db/repositories/source_publication.py that read or write one row. The lineage walk and the
-- link of a successor to its predecessor are in `Publication/Lineage`.
--
-- A table is the list of its rows; a statement is the function on rows that its text says. Ids are
-- numbers (a UUID and its text have one order), times are numbers, and the time and the new id that
-- a statement draws are arguments.
pub mod Lineage
pub mod Ensure
use evidence_first_investmen.Base.{
  ℕ, String, Bool, true, false, ◌&&◌, Option, none, some, List, [], ◌∷◌, ◌++◌, ◌==◌, str_eq,
  update_where, if◌then◌else◌,
}
use evidence_first_investmen.Domain.{ProcessingStatus}

-- What a second discovery of a document writes anew.
pub record Details : Type 0 where
  pub title : String
  pub document_type : String
  pub published_at : Option ℕ
  pub source_updated_date : Option ℕ
  pub published_at_precision : Option String
  pub scope : String
  pub audit_status : String
  pub language : Option String
  pub source_reference : Option String

pub record Publication : Type 0 where
  pub id : ℕ
  pub company_id : ℕ
  pub source : String
  pub source_document_id : String
  pub details : Details
  pub open details use *
  pub period_start : Option ℕ
  pub period_end : Option ℕ
  pub fiscal_year : Option ℕ
  pub fiscal_quarter : Option ℕ
  pub parent_publication_id : Option ℕ
  pub is_correction : Bool
  pub is_latest_version : Bool
  pub processing_status : ProcessingStatus
  pub created_at : ℕ
  pub updated_at : ℕ

abbrev pub has_natural_key : String → String → Publication → Bool
has_natural_key source document r = str_eq r.source source && str_eq r.source_document_id document

-- At most one row has a natural key (uq of migration 003), so the first match is the only one.
unfoldable pub get_by_natural_key : String → String → List Publication → Option Publication
get_by_natural_key source document [] = none
get_by_natural_key source document (r ∷ rows) =
    if has_natural_key source document r then some r else get_by_natural_key source document rows

unfoldable pub get_id_by_natural_key : String → String → List Publication → Option ℕ
unfolding get_by_natural_key
get_id_by_natural_key source document rows = elim (get_by_natural_key source document rows) [
  | none ↦ none
  | some r ↦ some r.id
]

-- INSERT ... ON CONFLICT (source, source_document_id) DO UPDATE ... RETURNING id, with whether the
-- row was new. `v` carries the values, the new id and the time (created_at, updated_at).
unfoldable pub ensure : Publication → List Publication → List Publication × ℕ × Bool
unfolding get_by_natural_key
ensure v rows = elim (get_by_natural_key v.source v.source_document_id rows) [
  | none ↦ (rows ++ v ∷ [], v.id, true)
  | some r ↦ (
    update_where (has_natural_key v.source v.source_document_id)
        (λ r. record r { details = v.details; updated_at = v.updated_at }) rows,
    r.id,
    false,
  )
]

abbrev pub has_id : ℕ → Publication → Bool
has_id i r = r.id == i

unfoldable pub mark_not_latest : ℕ → ℕ → List Publication → List Publication
mark_not_latest now i =
    update_where (has_id i) (λ r. record r { is_latest_version = false; updated_at = now })

unfoldable pub mark_needs_review : ℕ → ℕ → List Publication → List Publication
mark_needs_review now i = update_where (has_id i) λ r. record r {
  is_latest_version = false;
  processing_status = ProcessingStatus.needs_review;
  updated_at = now;
}
