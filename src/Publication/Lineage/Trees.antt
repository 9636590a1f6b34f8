-- ===== src/Publication/Lineage/Trees.antt =====
-- Lineages as trees: a row has one root, and a root's lineage is entered from above only.
use mathlib.Core.Path.{subst}
use evidence_first_investmen.Base.{ℕ, ◌≡◌, refl, sym, ap, ◌∙◌, ◌⊎◌, inl, inr, none, List, Memᴰ}
use evidence_first_investmen.Publication.{Publication}
use evidence_first_investmen.Publication.Lineage.Descent.{Edge, Descendant, here, below}

-- `id` is the primary key.
abbrev pub UniqueIds : List Publication → Type 0
UniqueIds rows = (r s : Publication) → Memᴰ r rows → Memᴰ s rows → r.id ≡ s.id → r ≡ s

-- What the walks need of it.
abbrev pub OneParent : List Publication → Type 0
OneParent rows =
    (r s : Publication)
    → Memᴰ r rows
    → Memᴰ s rows
    → r.id ≡ s.id
    → r.parent_publication_id ≡ s.parent_publication_id

pub OneParent-of_UniqueIds : {rows : List Publication} → UniqueIds rows → OneParent rows
OneParent-of_UniqueIds u r s m n e = ap (λ (r : Publication). r.parent_publication_id) (u r s m n e)

-- A row with this id and no parent.
pub record Top (rows : List Publication) (root : ℕ) : Type 0 where
  pub top : Publication
  pub listed : Memᴰ top rows
  pub named : top.id ≡ root
  pub no_parent : top.parent_publication_id ≡ none

module _ {rows : List Publication} (one : OneParent rows) where
  not-Edge-Top : {p i : ℕ} → Top rows i → Edge rows p i → ⊥
  not-Edge-Top t e =
      cc (one t.top e.row t.listed e.listed (t.named ∙ sym e.named), t.no_parent, e.up)

  Edge-unique : {p q i : ℕ} → Edge rows p i → Edge rows q i → p ≡ q
  Edge-unique e f = cc (one e.row f.row e.listed f.listed (e.named ∙ sym f.named), e.up, f.up)

  -- Two roots over one row are one root.
  pub root_unique :
      {a b i : ℕ} → Top rows a → Top rows b → Descendant rows a i → Descendant rows b i → a ≡ b
  root_unique ta tb here here = refl
  root_unique ta tb here (below d e) = absurd (not-Edge-Top ta e)
  root_unique ta tb (below d e) here = absurd (not-Edge-Top tb e)
  root_unique {a} {b} ta tb (below d e) (below d' e') =
      root_unique ta tb d (subst (Descendant rows b) (Edge-unique e' e) d')

-- The first step of a descent.
pub first_step :
    {rows : List Publication} {p i : ℕ}
    → Descendant rows p i
    → (p ≡ i) ⊎ ((j : ℕ) × Edge rows p j × Descendant rows j i)
first_step here = inl refl
first_step {rows} (below {i = i} d e) = elim (first_step d) [
  | inl same ↦ inr (i, subst (λ k. Edge rows k i) (sym same) e, here)
  | inr (j, step, rest) ↦ inr (j, step, below rest e)
]
