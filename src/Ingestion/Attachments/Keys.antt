-- ===== src/Ingestion/Attachments/Keys.antt =====
-- What the upsert of an artifact (src/db/repositories/document_artifact.py) and one attachment of the
-- loop in src/ingestion/service.py do to the natural keys of the artifacts.
use mathlib.Core.Path.{subst}
use evidence_first_investmen.Base.{
  ℕ, String, Bool, true, false, ◌≡◌, refl, sym, inl, inr, Option, none, some, List, [], ◌∷◌, ◌++◌,
  ==_refl, str_eq_iff, Bool-cases, Option-cases, Outcome-cases, Result, Outcome, ok, raise,
  out_of_fuel,
}
use evidence_first_investmen.Artifacts.{
  Artifact, RawObject, first, get_by_sha256, has_reference, get_artifact_by_natural_key,
  ensure_artifact,
}
use evidence_first_investmen.Ingestion.{
  SourceAttachment, DownloadedArtifact, build_raw_object_path_by_sha,
}
use evidence_first_investmen.Ingestion.Outside.{World, Transaction, Outside, Draws}
use evidence_first_investmen.Ingestion.Attachments.{
  upload, save_raw, store_content, store_unless, ensure_raw, artifact_row, save_artifact, keep,
  process_attachment,
}

-- The table has an artifact with the natural key.
abbrev pub IsFound : ℕ → String → List Artifact → Type 0
IsFound p reference rows = (a : Artifact) × (get_artifact_by_natural_key p reference rows ≡ some a)

-- Rows are only added at the end.
first-append :
    (q : Artifact → Bool) (rows more : List Artifact) {a : Artifact}
    → first q rows ≡ some a
    → first q (rows ++ more) ≡ some a
unfolding first
first-append q [] more h = cc
first-append q (r ∷ rows) more h = elim (Bool-cases (q r)) [
  | inl t ↦ rw t (rw t at h)
  | inr f ↦ rw f (first-append q rows more (rw f at h))
]

first-end :
    (q : Artifact → Bool) (rows : List Artifact) (v : Artifact)
    → first q rows ≡ none
    → q v ≡ true
    → first q (rows ++ v ∷ []) ≡ some v
unfolding first
first-end q [] v h t = rw t refl
first-end q (r ∷ rows) v h t = elim (Bool-cases (q r)) [
  | inl y ↦ cc (rw y at h)
  | inr f ↦ rw f (first-end q rows v (rw f at h) t)
]

has_own_reference : (v : Artifact) → has_reference v.publication_id v.attachment_reference v ≡ true
has_own_reference v =
    rw (==_refl v.publication_id, (str_eq_iff v.attachment_reference v.attachment_reference).1 refl)
      refl

pub ensure_artifact-IsFound :
    (v : Artifact) (rows : List Artifact)
    → IsFound v.publication_id v.attachment_reference (ensure_artifact v rows).0
unfolding ensure_artifact get_artifact_by_natural_key
ensure_artifact-IsFound v rows =
    elim (Option-cases (get_artifact_by_natural_key v.publication_id v.attachment_reference rows)) [
      | inl e ↦ rw (e, ensure_artifact) (v, first-end _ rows v e (has_own_reference v))
      | inr (a, e) ↦ rw (e, ensure_artifact) (a, e)
    ]

pub ensure_artifact-keeps :
    (v : Artifact) (rows : List Artifact) (p : ℕ) (reference : String)
    → IsFound p reference rows
    → IsFound p reference (ensure_artifact v rows).0
unfolding ensure_artifact get_artifact_by_natural_key
ensure_artifact-keeps v rows p reference (a, h) =
    elim (Option-cases (get_artifact_by_natural_key v.publication_id v.attachment_reference rows)) [
      | inl e ↦ rw (e, ensure_artifact) (a, first-append _ rows (v ∷ []) h)
      | inr (b, e) ↦ rw (e, ensure_artifact) (a, h)
    ]

module _ (outside : Outside) (draws : Draws) (k : ℕ) where
  save_raw-artifacts :
      (a : DownloadedArtifact) (path : String) (w : World)
      (x : List (String × List ℕ) × Outcome Bool)
      → (save_raw outside draws k a path w x).0.artifacts ≡ w.artifacts
  save_raw-artifacts a path w (stored, raise e) = refl
  save_raw-artifacts a path w (stored, out_of_fuel) = refl
  save_raw-artifacts a path w (stored, ok b) =
      elim (Option-cases (outside.database Transaction.save_raw k)) [
        | inl n ↦ rw (n, save_raw) refl
        | inr (e, h) ↦ rw (h, save_raw) refl
      ]

  store_content-artifacts :
      (a : DownloadedArtifact) (path : String) (content : Option (List ℕ)) (w : World)
      → (store_content outside draws k a path content w).0.artifacts ≡ w.artifacts
  store_content-artifacts a path none w = refl
  store_content-artifacts a path (some bytes) w =
      save_raw-artifacts a path w (upload outside draws k path bytes a.actual_mime_type w.stored)

  ensure_raw-artifacts :
      (a : DownloadedArtifact) (path : String) (w : World)
      → (ensure_raw outside draws k a path w).0.artifacts ≡ w.artifacts
  unfolding ensure_raw
  ensure_raw-artifacts a path w = elim (Option-cases (outside.database Transaction.find_raw k)) [
    | inr (e, h) ↦ rw (h, ensure_raw) refl
    | inl n ↦ rw (n, ensure_raw) (go (get_by_sha256 a.sha256 w.raw_objects))
  ]
    where
      go :
          (o : Option RawObject)
          → (store_unless outside draws k a path o w).0.artifacts ≡ w.artifacts
      go none = store_content-artifacts a path a.content w
      go (some r) = refl

  module _ (p : ℕ) (attachment : SourceAttachment) where
    -- What a stage makes of the artifacts of `w`: it keeps each key, and finds this one if it returns.
    pub record Keeps (w : World) (x : World × Outcome Bool) : Type 0 where
      pub old :
          (q : ℕ) (reference : String)
          → IsFound q reference w.artifacts
          → IsFound q reference x.0.artifacts
      pub new : (b : Bool) → x.1 ≡ ok b → IsFound p attachment.download_reference x.0.artifacts

    same :
        (w w' : World) (e : w'.artifacts ≡ w.artifacts) (m : Outcome Bool)
        → ((b : Bool) → m ≡ ok b → IsFound p attachment.download_reference w'.artifacts)
        → Keeps w (w', m)
    same w w' e m new = record {
      old = λ q reference h. subst (IsFound q reference) (sym e) h;
      new = new;
    }

    save_artifact-Keeps :
        (a : DownloadedArtifact) (w : World) (x : World × Outcome ℕ)
        → x.0.artifacts ≡ w.artifacts
        → Keeps w (save_artifact outside draws k p attachment a x)
    save_artifact-Keeps a w (w', raise e) h = same w w' h (raise e) λ b r. cc
    save_artifact-Keeps a w (w', out_of_fuel) h = same w w' h out_of_fuel λ b r. cc
    save_artifact-Keeps a w (w', ok i) h =
        elim (Option-cases (outside.database Transaction.save_artifact k)) [
          | inr (e, f) ↦ rw (f, save_artifact) (same w w' h (raise e) λ b r. cc)
          | inl n ↦
              rw (n, save_artifact)
                (record {
                  old = λ q reference found.
                      ensure_artifact-keeps (artifact_row outside draws k p attachment a i)
                        w'.artifacts q reference (subst (IsFound q reference) (sym h) found);
                  new = λ b r.
                      ensure_artifact-IsFound (artifact_row outside draws k p attachment a i)
                        w'.artifacts;
                })
        ]

    keep-Keeps :
        (w : World) (d : Result DownloadedArtifact)
        → Keeps w (keep outside draws k p attachment w d)
    keep-Keeps w (Result.raised e) = same w w refl (raise e) λ b r. cc
    keep-Keeps w (Result.returned a) =
        elim (Outcome-cases (build_raw_object_path_by_sha a.sha256)) [
          | inl (path, e) ↦
              rw (e, keep)
                (save_artifact-Keeps a w (ensure_raw outside draws k a path w)
                  (ensure_raw-artifacts a path w))
          | inr (inl (x, e)) ↦ rw (e, keep) (same w w refl (raise x) λ b r. cc)
          | inr (inr e) ↦ rw (e, keep) (same w w refl out_of_fuel λ b r. cc)
        ]

    pub process_attachment-Keeps :
        (w : World) → Keeps w (process_attachment outside draws false k p attachment w)
    unfolding process_attachment
    process_attachment-Keeps w =
        elim (Option-cases (outside.database Transaction.find_artifact k)) [
          | inr (e, h) ↦ rw (h, process_attachment) (same w w refl (raise e) λ b r. cc)
          | inl n ↦
              elim (Option-cases
                (get_artifact_by_natural_key p attachment.download_reference w.artifacts)) [
                  | inl missing ↦
                      rw (n, missing, process_attachment)
                        (keep-Keeps w (outside.download k attachment))
                  | inr (a, found) ↦
                      rw (n, found, process_attachment) (same w w refl (ok false) λ b r. (a, found))
                ]
        ]
