-- ===== src/Publication/Lineage/Forest.antt =====
-- On lineages without cycles the walks of `link` end, and enough fuel is known.
use mathlib.Core.Path.{subst}
use evidence_first_investmen.Base.{
  ℕ, zero, suc, ◌+◌, ◌≤◌, ◌<◌, ◌≡◌, refl, sym, inl, inr, true, ◌&&◌, some, List, [], ◌∷◌, ◌++◌,
  Memᴰ, arith, elem, any, mem_of_any, ok, Bool-cases, Option-cases, select, mem-select, select-mem,
}
use evidence_first_investmen.Publication.{Publication, has_id}
use evidence_first_investmen.Publication.Lineage.{
  select_parent, find_root, children, lineage_from, lineage, is_leaf, latest_leaf, ids, has_parent,
}
use evidence_first_investmen.Publication.Lineage.Descent.{
  Edge, Descendant, here, below, find_row_of_mem, find_row-listed, children-Edge, ids-mem,
  has_parent_iff, Descendant-lineage,
}
use evidence_first_investmen.Publication.Lineage.Order.{first_row-some}

-- Parents are rows (the foreign key), and a rank falls along every edge: no cycle.
pub record IsForest (rank : ℕ → ℕ) (bound : ℕ) (rows : List Publication) : Type 0 where
  pub falls : (p i : ℕ) → Edge rows p i → rank i < rank p
  pub low : (r : Publication) → Memᴰ r rows → rank r.id < bound
  pub listed_parent :
      (r : Publication)
      → Memᴰ r rows
      → (p : ℕ) → r.parent_publication_id ≡ some p
      → (s : Publication) × Memᴰ s rows × (s.id ≡ p)

module _ {rank : ℕ → ℕ} {bound : ℕ} {rows : List Publication}
    (forest : IsForest rank bound rows) where
  select_parent-total :
      (r : Publication)
      → Memᴰ r rows
      → (s : Publication) × Memᴰ s rows
        × (s.id ≡ r.id)
        × (select_parent rows r.id ≡ ok s.parent_publication_id)
  unfolding select_parent
  select_parent-total r m =
      let (s, found) = find_row_of_mem rows m in
      let (ms, es) = find_row-listed r.id rows found in (s, ms, es, rw (found, select_parent))

  -- `_find_root` ends: each step up gains rank, and ranks are below `bound`.
  pub find_root-total :
      (fuel : ℕ) (r : Publication)
      → Memᴰ r rows
      → bound ≤ rank r.id + fuel
      → (root : ℕ) × (find_root fuel rows r.id ≡ ok root)
  unfolding find_root
  find_root-total zero r m enough = absurd (omega (arith, forest.low r m))
  find_root-total (suc fuel) r m enough =
      let (s, ms, es, found) = select_parent-total r m in
      elim (Option-cases s.parent_publication_id) [
        | inl top ↦ (r.id, rw (found, top))
        | inr (p, up) ↦
            let (t, mt, et) = forest.listed_parent s ms p up in
            let edge : Edge rows p r.id = record { row = s; listed = ms; named = es; up = up } in
            let (root, e) =
              find_root-total fuel t mt (rw et (omega (arith, forest.falls p r.id edge))) in
            (root, rw (found, up) (rw et at e))
      ]

  lineage_from-total :
      (fuel : ℕ) (frontier : List ℕ)
      → ((p : ℕ) → Memᴰ p frontier → rank p < fuel)
      → (found : List ℕ) × (lineage_from (suc fuel) rows frontier ≡ ok found)
  unfolding lineage_from
  lineage_from-total fuel [] low = ([], refl)
  lineage_from-total zero (j ∷ frontier) low = absurd (omega (arith, low j (Memᴰ.head refl)))
  lineage_from-total (suc fuel) (j ∷ frontier) low =
      let (rest, e) = lineage_from-total fuel (children rows (j ∷ frontier)) λ p m.
        let (q, mq, edge) = children-Edge rows (j ∷ frontier) m in
        omega (arith, low q mq, forest.falls q p edge) in
      ((j ∷ frontier) ++ rest, rw e)

  pub lineage-total :
      (fuel root : ℕ) → bound < fuel → (found : List ℕ) × (lineage fuel rows root ≡ ok found)
  unfolding lineage
  lineage-total zero root enough = absurd (omega arith)
  lineage-total (suc fuel) root enough =
      lineage_from-total fuel (ids (select (has_id root) rows)) λ p m.
        let (r, picked, named) = ids-mem _ m in
        let (listed, _) = select-mem (has_id root) rows picked in
        rw (sym named) (omega (arith, forest.low r listed))

  -- Every row has a leaf below it.
  leaf_below :
      (k : ℕ) (root : ℕ) (r : Publication)
      → Memᴰ r rows
      → Descendant rows root r.id
      → rank r.id < k
      → (s : Publication) × Memᴰ s rows × Descendant rows root s.id × (is_leaf rows s ≡ true)
  leaf_below zero root r m d low = absurd (omega arith)
  leaf_below (suc k) root r m d low = elim (Bool-cases (any (has_parent r.id) rows)) [
    | inr leaf ↦ (r, m, d, rw leaf)
    | inl inner ↦
        let (s, ms, up) = mem_of_any (has_parent r.id) rows inner in
        let edge : Edge rows r.id s.id = record {
          row = s;
          listed = ms;
          named = refl;
          up = (has_parent_iff r.id s).0 up;
        } in
        leaf_below k root s ms (below d edge) (omega (arith, forest.falls r.id s.id edge))
  ]

  pub latest_leaf-total :
      (fuel root : ℕ) (top : Publication)
      → Memᴰ top rows
      → top.id ≡ root
      → bound < fuel
      → (latest : Publication) × (latest_leaf fuel rows root ≡ ok latest)
  unfolding latest_leaf
  latest_leaf-total fuel root top m named enough =
      let (found, ends) = lineage-total fuel root enough in
      let (s, ms, d, leaf) =
        leaf_below bound root top m (subst (Descendant rows root) (sym named) here)
          (forest.low top m) in
      let (latest, e) = first_row-some _ (
        mem-select (λ r. elem r.id found && is_leaf rows r) rows ms
          (rw (Descendant-lineage fuel rows root ends top m named d, leaf))) in
      (latest, rw (ends, e))
