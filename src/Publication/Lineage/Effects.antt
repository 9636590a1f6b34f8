-- ===== src/Publication/Lineage/Effects.antt =====
-- Which rows a link leaves alone, and what it does to the lineage that a re-linked row leaves.
use mathlib.Core.Path.{subst}
use evidence_first_investmen.Base.{
  ℕ, ◌≡◌, ◌≢◌, sym, ap, ◌∙◌, inl, inr, false, List, Memᴰ, arith, mem-update_where, ◌==◌, ==_iff, ok,
  ok-injective, Bool-cases, if◌then◌else◌,
}
use evidence_first_investmen.Publication.{Publication, has_id}
use evidence_first_investmen.Publication.Lineage.{find_root, set_parent, set_latest, link}
use evidence_first_investmen.Publication.Lineage.Descent.{Descendant}
use evidence_first_investmen.Publication.Lineage.Clearing.{Cleared-id}
use evidence_first_investmen.Publication.Lineage.Steps.{
  Linked, link-Linked, roots_of, child_root-cleared, set_parent-back, set_latest-back,
}
use evidence_first_investmen.Publication.Lineage.Latest.{Descendant-linked, picked}

untouched : (i : ℕ) (r r' : Publication) → r.id ≢ i → (if has_id i r then r' else r) ≡ r
untouched i r r' h = ground arith

module _ (fuel now child parent : ℕ) (rows : List Publication) {rows' : List Publication}
    (l : Linked fuel now child parent rows rows') where
  abbrev linked : List Publication
  linked = set_parent now child parent l.middle

  -- A row outside both lineages is still there, as it was.
  Linked-keeps :
      (r : Publication)
      → Memᴰ r rows
      → ¬ Descendant rows l.child_root r.id
      → ¬ Descendant rows l.parent_root r.id
      → Memᴰ r (set_latest now l.latest.id linked)
  Linked-keeps r m off_child off_parent =
      let (r1, m1, c) = l.clears.forth r m in
      let same : r1 ≡ r = c.outside (λ k mk d. elim (roots_of l.child_root l.parent_root k mk) [
        | inl e ↦ off_child (subst (λ k. Descendant rows k r.id) e d)
        | inr e ↦ off_parent (subst (λ k. Descendant rows k r.id) e d)
      ]) in
      let not_child : r.id ≢ child =
        λ e. off_child (subst (Descendant rows l.child_root) (sym e) l.child_top.over) in
      let not_latest : r.id ≢ l.latest.id = λ e.
        elim (Descendant-linked fuel now child parent rows l
          (picked fuel now child parent rows l).is_below) [
            | inl a ↦ off_parent (subst (Descendant rows l.parent_root) (sym e) a)
            | inr b ↦ off_child (subst (Descendant rows l.child_root) (sym e) b)
          ] in
      let in_linked : Memᴰ r linked =
        subst (λ x. Memᴰ x linked)
          (untouched child r1 _ (λ e. not_child (ap (λ (r : Publication). r.id) (sym same) ∙ e))
            ∙ same)
          (mem-update_where (has_id child) _ l.middle m1) in
      subst (λ x. Memᴰ x (set_latest now l.latest.id linked)) (untouched l.latest.id r _ not_latest)
        (mem-update_where (has_id l.latest.id) _ linked in_linked)

  -- The rows of the final table that were below one of the two roots, the new leaf apart.
  pub Linked-flag :
      (r' : Publication)
      → Memᴰ r' (set_latest now l.latest.id linked)
      → r'.id ≢ l.latest.id
      → Descendant rows l.child_root r'.id
      → r'.is_latest_version ≡ false
  Linked-flag r' m other d =
      let (r2, m2, id2, flag2, _, _, _) = set_latest-back now l.latest.id linked r' m in
      let (r1, m1, id1, flag1, _, _) = set_parent-back now child parent l.middle r2 m2 in
      let (r0, m0, c) = l.clears.back r1 m1 in
      let e = id2 ∙ id1 ∙ Cleared-id c in
      let cleared_row =
        c.inside l.child_root (child_root-cleared l.child_root l.parent_root)
          (subst (Descendant rows l.child_root) e d) in
      let flag1' : r1.is_latest_version ≡ false =
        ap (λ (r : Publication). r.is_latest_version) cleared_row in
      elim (Bool-cases (r2.id == l.latest.id)) [
        | inl t ↦ absurd (other (id2 ∙ (==_iff r2.id l.latest.id).0 t))
        | inr f ↦ (rw f at flag2) ∙ flag1 ∙ flag1'
      ]

-- A link changes no row outside the lineages of the child's root and of the parent's root: each such
-- row is in the table afterwards, with every column as it was.
pub link-keeps :
    (fuel now child parent child_root parent_root : ℕ) (rows rows' : List Publication)
    → find_root fuel rows child ≡ ok child_root
    → find_root fuel rows parent ≡ ok parent_root
    → link fuel now child parent rows ≡ ok rows'
    → (r : Publication) → Memᴰ r rows
    → ¬ Descendant rows child_root r.id
    → ¬ Descendant rows parent_root r.id
    → Memᴰ r rows'
link-keeps fuel now child parent child_root parent_root rows rows' ca pb h r m off_child
      off_parent =
    let l = link-Linked fuel now child parent rows h in
    let ea : l.child_root ≡ child_root = ok-injective (sym l.found_child ∙ ca) in
    let eb : l.parent_root ≡ parent_root = ok-injective (sym l.found_parent ∙ pb) in
    subst (Memᴰ r) l.final (
      Linked-keeps fuel now child parent rows l r m
        (λ d. off_child (subst (λ k. Descendant rows k r.id) ea d))
        (λ d. off_parent (subst (λ k. Descendant rows k r.id) eb d)))
