-- ===== src/Publication/Ensure.antt =====
-- The upsert of a discovered publication.
use mathlib.Core.List.{append-nil}
use text.Mathlib.TextPositions.{eq_refl}
use evidence_first_investmen.Base.{
  suc, ◌≡◌, refl, ap, String, Bool, true, false, none, some, List, [], ◌∷◌, ◌++◌, sym, length,
  if◌then◌else◌, update_where, Bool-cases, Option-cases, ◌⊎◌, inl, inr, some_inj,
}
use evidence_first_investmen.Publication.{Publication, has_natural_key, get_by_natural_key, ensure}

has_natural_key_self : (v : Publication) → has_natural_key v.source v.source_document_id v ≡ true
has_natural_key_self v = rw (eq_refl v.source, eq_refl v.source_document_id)

get_by_natural_key-append :
    (source document : String) (rows : List Publication) (v : Publication)
    → get_by_natural_key source document rows ≡ none
    → has_natural_key source document v ≡ true
    → get_by_natural_key source document (rows ++ v ∷ []) ≡ some v
unfolding get_by_natural_key
get_by_natural_key-append source document [] v h k = rw k
get_by_natural_key-append source document (r ∷ rows) v h k =
    elim (Bool-cases (has_natural_key source document r)) [
      | inl t ↦ cc (rw (t, get_by_natural_key) at h)
      | inr f ↦
          rw f
            (get_by_natural_key-append source document rows v (rw (f, get_by_natural_key) at h) k)
    ]

-- The columns that the upsert sets on a row that is there.
abbrev refresh : Publication → Publication → Publication
refresh v r = record r { details = v.details; updated_at = v.updated_at }

get_by_natural_key-refresh :
    (source document : String) (v : Publication) (rows : List Publication) {r : Publication}
    → get_by_natural_key source document rows ≡ some r
    → get_by_natural_key source document
        (update_where (has_natural_key source document) (refresh v) rows)
      ≡ some (refresh v r)
unfolding get_by_natural_key
get_by_natural_key-refresh source document v [] h = cc
get_by_natural_key-refresh source document v (s ∷ rows) h =
    elim (Bool-cases (has_natural_key source document s)) [
      | inl t ↦
          let e = some_inj (rw (t, get_by_natural_key) at h) in
          rw (t, t) (ap (λ r. some (refresh v r)) e)
      | inr f ↦
          rw (f, f)
            (get_by_natural_key-refresh source document v rows (rw (f, get_by_natural_key) at h))
    ]

ensure-new :
    (v : Publication) (rows : List Publication)
    → get_by_natural_key v.source v.source_document_id rows ≡ none
    → ensure v rows ≡ (rows ++ v ∷ [], v.id, true)
unfolding ensure
ensure-new v rows h = rw (h, ensure)

ensure-old :
    (v : Publication) (rows : List Publication) {s : Publication}
    → get_by_natural_key v.source v.source_document_id rows ≡ some s
    → ensure v rows
      ≡ (update_where (has_natural_key v.source v.source_document_id) (refresh v) rows, s.id, false)
unfolding ensure
ensure-old v rows h = rw (h, ensure)

-- After an upsert the natural key finds a row, which has the id that the upsert returned and the
-- details that it was given.
pub ensure-get :
    (v : Publication) (rows : List Publication)
    → (r : Publication) × (get_by_natural_key v.source v.source_document_id (ensure v rows).0
        ≡ some r)
      × (r.id ≡ (ensure v rows).1)
      × (r.details ≡ v.details)
ensure-get v rows = elim (Option-cases (get_by_natural_key v.source v.source_document_id rows)) [
  | inl new ↦ rw (ensure-new v rows new) (
    v,
    get_by_natural_key-append v.source v.source_document_id rows v new (has_natural_key_self v),
    refl,
    refl,
  )
  | inr (s, old) ↦
      rw (ensure-old v rows old) (
        refresh v s,
        get_by_natural_key-refresh v.source v.source_document_id v rows old,
        refl,
        refl,
      )
]

length-update_where {ℓ} :
    {A : Type ℓ} (p : A → Bool) (f : A → A) (xs : List A) → length (update_where p f xs) ≡ length xs
length-update_where p f [] = refl
length-update_where p f (x ∷ xs) = ap suc (length-update_where p f xs)

-- Ingesting a document again, with whatever details, creates nothing: the second upsert of a natural
-- key returns the id of the first, says that the row is not new, and leaves as many rows.
pub ensure_again :
    (v v' : Publication) (rows : List Publication)
    → v'.source ≡ v.source
    → v'.source_document_id ≡ v.source_document_id
    → ((ensure v' (ensure v rows).0).1 ≡ (ensure v rows).1)
      × ((ensure v' (ensure v rows).0).2 ≡ false)
      × (length (ensure v' (ensure v rows).0).0 ≡ length (ensure v rows).0)
ensure_again v v' rows same_source same_document =
    let (r, found, named, _) = ensure-get v rows in
    let found' : get_by_natural_key v'.source v'.source_document_id (ensure v rows).0 ≡ some r =
      rw (same_source, same_document) found in
    rw (ensure-old v' (ensure v rows).0 found') (
      named,
      refl,
      length-update_where (has_natural_key v'.source v'.source_document_id) (refresh v')
          (ensure v rows).0,
    )

-- The columns of a row that carry its place in a lineage and its processing.
pub record SameLineage (r' r : Publication) : Type 0 where
  pub id : r'.id ≡ r.id
  pub parent : r'.parent_publication_id ≡ r.parent_publication_id
  pub latest : r'.is_latest_version ≡ r.is_latest_version
  pub correction : r'.is_correction ≡ r.is_correction
  pub status : r'.processing_status ≡ r.processing_status

-- The table after an upsert of `v`, row by row: each row is the row before, or has the natural key of
-- `v`, the details of `v` and the lineage of the row before.
abbrev pub AllKept : Publication → List Publication → List Publication → Type 0
AllKept v [] [] = Unit {0}
AllKept v [] (r' ∷ rows') = ⊥
AllKept v (r ∷ rows) [] = ⊥
AllKept v (r ∷ rows) (r' ∷ rows') =
    ((r' ≡ r)
      ⊎ ((has_natural_key v.source v.source_document_id r ≡ true)
          × SameLineage r' r
          × (r'.details ≡ v.details)))
    × AllKept v rows rows'

AllKept-refl : (v : Publication) (rows : List Publication) → AllKept v rows rows
AllKept-refl v [] = tt
AllKept-refl v (r ∷ rows) = (inl refl, AllKept-refl v rows)

update_where-AllKept :
    (v : Publication) (rows : List Publication)
    → AllKept v rows (update_where (has_natural_key v.source v.source_document_id) (refresh v) rows)
update_where-AllKept v [] = tt
update_where-AllKept v (r ∷ rows) =
    elim (Bool-cases (has_natural_key v.source v.source_document_id r)) [
      | inl t ↦ rw t (
        inr (
          refl,
          record { id = refl; parent = refl; latest = refl; correction = refl; status = refl },
          refl,
        ),
        update_where-AllKept v rows,
      )
      | inr f ↦ rw f (inl refl, update_where-AllKept v rows)
    ]

-- An upsert keeps the number and the order of the rows of the table, and adds the given row behind
-- them exactly when it says that the row is new. Each row that was there is unchanged, or it has the
-- natural key of the given row: then it takes the given details, and keeps its id, its parent, its
-- flags and its processing status.
pub ensure-AllKept :
    (v : Publication) (rows : List Publication)
    → (front : List Publication) × AllKept v rows front
      × ((ensure v rows).0 ≡ front ++ (if (ensure v rows).2 then v ∷ [] else []))
ensure-AllKept v rows =
    elim (Option-cases (get_by_natural_key v.source v.source_document_id rows)) [
      | inl new ↦ rw (ensure-new v rows new) (rows, AllKept-refl v rows, refl)
      | inr (s, old) ↦
          let after =
            update_where (has_natural_key v.source v.source_document_id) (refresh v) rows in
          rw (ensure-old v rows old) (after, update_where-AllKept v rows, sym (append-nil after))
    ]
