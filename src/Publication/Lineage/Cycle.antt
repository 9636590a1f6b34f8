-- ===== src/Publication/Lineage/Cycle.antt =====
-- A root that is linked below one of its own descendants, or below itself.
use mathlib.Core.Path.{subst}
use evidence_first_investmen.Base.{
  ℕ, zero, suc, ◌≡◌, ◌≢◌, sym, ◌∙◌, inl, inr, some, List, [], ◌∷◌, Memᴰ, arith, ◌==◌, ==_iff, ok,
  >>=-eq-ok, if◌then◌else◌, select, mem-select,
}
use evidence_first_investmen.Publication.{Publication, has_id}
use evidence_first_investmen.Publication.Lineage.{
  children, lineage_from, lineage, latest_leaf, set_parent, link, ids,
}
use evidence_first_investmen.Publication.Lineage.Descent.{
  Edge, Descendant, here, below, Descendant-mono, Edge-children, mem-ids,
}
use evidence_first_investmen.Publication.Lineage.Clearing.{Cleared-id, Cleared-parent}
use evidence_first_investmen.Publication.Lineage.Steps.{Linked, link-Linked, set_parent-forth}
use evidence_first_investmen.Publication.Lineage.Latest.{linked_top}
use evidence_first_investmen.Publication.Lineage.Trees.{
  UniqueIds, OneParent, OneParent-of_UniqueIds, Top, root_unique, first_step,
}

-- Where every row of a set has a row of the set below it, the recursive query that meets the set
-- does not end.
lineage_from_endless :
    (rows : List Publication) (S : ℕ → Type 0)
    → ((p : ℕ) → S p → (i : ℕ) × Edge rows p i × S i)
    → (fuel : ℕ) (frontier : List ℕ) (p : ℕ) → Memᴰ p frontier
    → S p
    → (found : List ℕ) → lineage_from fuel rows frontier ≢ ok found
unfolding lineage_from
lineage_from_endless rows S next zero frontier p m s found h = cc
lineage_from_endless rows S next (suc fuel) [] p m s found h = elim m [ ]
lineage_from_endless rows S next (suc fuel) (j ∷ frontier) p m s found h =
    let (i, e, si) = next p s in
    let (rest, ends, _) = >>=-eq-ok (lineage_from fuel rows (children rows (j ∷ frontier))) _ h in
    lineage_from_endless rows S next fuel (children rows (j ∷ frontier)) i
      (Edge-children rows (j ∷ frontier) m e) si rest ends

module _ (fuel now child parent : ℕ) (rows : List Publication) {rows' : List Publication}
    (l : Linked fuel now child parent rows rows') (t : Top rows child) where
  abbrev linked : List Publication
  linked = set_parent now child parent l.middle

  -- The root has no parent to lose, so every edge stays, and one is added.
  kept : OneParent rows → (p i : ℕ) → Edge rows p i → Edge linked p i
  kept one p i e =
      let (r1, m1, c) = l.clears.forth e.row e.listed in
      let (r2, m2, id2, up2) = set_parent-forth now child parent l.middle r1 m1 in
      let not_child : r1.id ≢ child = λ same. cc (
        one e.row t.top e.listed t.listed (sym (Cleared-id c) ∙ same ∙ sym t.named),
        e.up,
        t.no_parent,
      ) in
      record {
        row = r2;
        listed = m2;
        named = id2 ∙ Cleared-id c ∙ e.named;
        up = up2 ∙ keep r1 not_child ∙ Cleared-parent c ∙ e.up;
      }
    where
      keep :
          (r : Publication)
          → r.id ≢ child
          → (if r.id == child then some parent else r.parent_publication_id)
            ≡ r.parent_publication_id
      keep r h = ground arith

  added : Edge linked parent child
  added =
      let (r1, m1, c) = l.clears.forth t.top t.listed in
      let (r2, m2, id2, up2) = set_parent-forth now child parent l.middle r1 m1 in
      let named = Cleared-id c ∙ t.named in
      record {
        row = r2;
        listed = m2;
        named = id2 ∙ named;
        up = up2 ∙ rw ((==_iff r1.id child).1 named);
      }

  -- Above the child in the linked table there is always a row below.
  around :
      OneParent rows
      → Descendant rows child parent
      → (p : ℕ) → Descendant linked p child
      → (i : ℕ) × Edge linked p i × Descendant linked i child
  around one d p above = elim (first_step above) [
    | inr next ↦ next
    | inl at_child ↦ elim (first_step (Descendant-mono (kept one) d)) [
      | inl loop ↦ (child, subst (λ k. Edge linked k child) (sym loop ∙ sym at_child) added, here)
      | inr (j, step, rest) ↦
          (j, subst (λ k. Edge linked k j) (sym at_child) step, below rest added)
    ]
  ]

-- Ids being unique, the link of a root to a row of its own lineage, itself included, returns no
-- table, however much fuel it is given.
pub link_cycle :
    (fuel now child parent : ℕ) (rows rows' : List Publication)
    → UniqueIds rows
    → Top rows child
    → Descendant rows child parent
    → link fuel now child parent rows ≢ ok rows'
unfolding latest_leaf lineage
link_cycle fuel now child parent rows rows' unique t d h =
    let l = link-Linked fuel now child parent rows h in
    let one = OneParent-of_UniqueIds unique in
    let top_of_parent : Top rows l.parent_root = record {
      top = l.parent_top.top;
      listed = l.parent_top.listed;
      named = l.parent_top.named;
      no_parent = l.parent_top.no_parent;
    } in
    let same : l.parent_root ≡ child = root_unique one top_of_parent t l.parent_top.over d in
    let (found, ends, _) =
      >>=-eq-ok (lineage fuel (set_parent now child parent l.middle) l.parent_root) _ l.picked in
    let (r, listed, named) = linked_top fuel now child parent rows l in
    lineage_from_endless (set_parent now child parent l.middle)
      (λ p. Descendant (set_parent now child parent l.middle) p child)
      (around fuel now child parent rows l t one d) fuel _ l.parent_root
      (start _ l.parent_root r listed named)
      (subst (λ k. Descendant (set_parent now child parent l.middle) k child) (sym same) here) found
      ends
  where
    start :
        (rows : List Publication) (root : ℕ) (r : Publication)
        → Memᴰ r rows
        → r.id ≡ root
        → Memᴰ root (ids (select (has_id root) rows))
    start rows root r listed named =
        subst (λ k. Memᴰ k (ids (select (has_id root) rows))) named
          (mem-ids _ (mem-select (has_id root) rows listed ((==_iff r.id root).1 named)))
