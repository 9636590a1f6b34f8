-- ===== src/Artifacts.antt =====
-- The rows of `document_artifacts` and `raw_objects`, and the statements of
-- src/db/repositories/document_artifact.py and src/db/repositories/raw_object.py.
use evidence_first_investmen.Base.{
  str_eq, ◌++◌, ℕ, String, Bool, ◌&&◌, ◌||◌, Option, none, some, List, [], ◌∷◌, map, select, any,
  ltb, ◌==◌, if◌then◌else◌,
}
use evidence_first_investmen.Publication.{Publication}

pub record Artifact : Type 0 where
  pub id : ℕ
  pub publication_id : ℕ
  pub attachment_reference : String
  pub filename : String
  pub mime_type : String
  pub file_size : ℕ
  pub raw_object_id : ℕ
  pub created_at : ℕ
  pub updated_at : ℕ

pub record RawObject : Type 0 where
  pub id : ℕ
  pub sha256 : String
  pub object_path : String
  pub mime_type : String
  pub size_bytes : ℕ
  pub created_at : ℕ
  pub updated_at : ℕ

-- The first row that passes a test; the keys below are unique.
unfoldable pub first {ℓ} : {A : Type ℓ} → (A → Bool) → List A → Option A
first p [] = none
first p (x ∷ xs) = if p x then some x else first p xs

unfoldable pub get_artifact : ℕ → List Artifact → Option Artifact
unfolding first
get_artifact i rows = first (λ a. a.id == i) rows

unfoldable pub get_raw_object : ℕ → List RawObject → Option RawObject
unfolding first
get_raw_object i rows = first (λ r. r.id == i) rows

abbrev pub is_of_company : ℕ → List Publication → Artifact → Bool
is_of_company company publications a =
    any (λ (p : Publication). p.id == a.publication_id && p.company_id == company) publications

-- ORDER BY created_at DESC, id DESC
abbrev pub is_newer : Artifact → Artifact → Bool
is_newer a b = ltb b.created_at a.created_at || (a.created_at == b.created_at && ltb b.id a.id)

abbrev pub insert_newest : Artifact → List Artifact → List Artifact
insert_newest a [] = a ∷ []
insert_newest a (b ∷ rows) =
    let rest = insert_newest a rows in if is_newer b a then b ∷ rest else a ∷ b ∷ rows

unfoldable pub newest_first : List Artifact → List Artifact
newest_first [] = []
newest_first (a ∷ rows) = insert_newest a (newest_first rows)

unfoldable pub list_ids_for_company : ℕ → List Publication → List Artifact → List ℕ
unfolding newest_first
list_ids_for_company company publications rows =
    map (λ a. a.id) (newest_first (select (is_of_company company publications) rows))

-- The natural key of an artifact (migration 003).
abbrev pub has_reference : ℕ → String → Artifact → Bool
has_reference publication_id reference a =
    a.publication_id == publication_id && str_eq a.attachment_reference reference

unfoldable pub get_artifact_by_natural_key : ℕ → String → List Artifact → Option Artifact
unfolding first
get_artifact_by_natural_key publication_id reference rows =
    first (has_reference publication_id reference) rows

-- INSERT ... ON CONFLICT (publication_id, attachment_reference) DO NOTHING, and then the id of the
-- row that has the key. `v` carries the values, the new id and the time.
unfoldable pub ensure_artifact : Artifact → List Artifact → List Artifact × ℕ
unfolding get_artifact_by_natural_key
ensure_artifact v rows =
    elim (get_artifact_by_natural_key v.publication_id v.attachment_reference rows) [
      | none ↦ (rows ++ v ∷ [], v.id)
      | some a ↦ (rows, a.id)
    ]

abbrev pub has_sha256 : String → RawObject → Bool
has_sha256 sha r = str_eq r.sha256 sha

unfoldable pub get_by_sha256 : String → List RawObject → Option RawObject
unfolding first
get_by_sha256 sha rows = first (has_sha256 sha) rows

-- INSERT ... ON CONFLICT (sha256) DO NOTHING, and then the id of the row that has the digest.
unfoldable pub ensure_raw_object : RawObject → List RawObject → List RawObject × ℕ
unfolding get_by_sha256
ensure_raw_object v rows = elim (get_by_sha256 v.sha256 rows) [
  | none ↦ (rows ++ v ∷ [], v.id)
  | some r ↦ (rows, r.id)
]
