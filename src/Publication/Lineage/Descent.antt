-- ===== src/Publication/Lineage/Descent.antt =====
-- The rows below a root, as a relation, and that the walks find exactly those.
use evidence_first_investmen.Base.{
  ℕ, zero, suc, ◌≡◌, refl, sym, ap, ◌∙◌, inl, inr, true, Option, none, some, List, [], ◌∷◌, Memᴰ,
  arith, elem, elem_of_mem, mem_of_elem, mem-select, select-mem, mem-cons-cases, mem-append_left,
  mem-append_right, mem-append-cases, ◌==◌, ==_iff, select, ok, >>=-eq-ok, Bool-cases, Option-cases,
  ok-injective, some_inj,
}
use mathlib.Core.Path.{subst}
use mathlib.Core.Logic.{◌↔◌}
use evidence_first_investmen.Publication.{Publication, has_id}
use evidence_first_investmen.Publication.Lineage.{
  find_row, select_parent, find_root, has_parent, ids, children, lineage_from, lineage,
}

-- Some row has the id `i` and names `p` as its parent.
pub record Edge (rows : List Publication) (p i : ℕ) : Type 0 where
  pub row : Publication
  pub listed : Memᴰ row rows
  pub named : row.id ≡ i
  pub up : row.parent_publication_id ≡ some p

pub data Descendant (rows : List Publication) (root : ℕ) : ℕ → Type 0 where
  here : Descendant rows root root
  below : {p i : ℕ} → Descendant rows root p → Edge rows p i → Descendant rows root i

pub Descendant-trans :
    {rows : List Publication} {a b c : ℕ}
    → Descendant rows a b
    → Descendant rows b c
    → Descendant rows a c
Descendant-trans d here = d
Descendant-trans d (below e step) = below (Descendant-trans d e) step

-- A map of edges maps descents.
pub Descendant-mono :
    {rows rows' : List Publication} {root : ℕ}
    → ((p i : ℕ) → Edge rows p i → Edge rows' p i)
    → {i : ℕ} → Descendant rows root i
    → Descendant rows' root i
Descendant-mono f here = here
Descendant-mono f (below d e) = below (Descendant-mono f d) (f _ _ e)

pub find_row-listed :
    (i : ℕ) (rows : List Publication) {r : Publication}
    → find_row i rows ≡ some r
    → Memᴰ r rows × (r.id ≡ i)
unfolding find_row
find_row-listed i [] h = cc
find_row-listed i (r ∷ rows) h = elim (Bool-cases (r.id == i)) [
  | inl t ↦
      let e = some_inj (rw t at h) in
      (Memᴰ.head (sym e), ap (λ (s : Publication). s.id) (sym e) ∙ (==_iff r.id i).0 t)
  | inr f ↦ let (m, e) = find_row-listed i rows (rw f at h) in (Memᴰ.tail m, e)
]

pub find_row_of_mem :
    {r : Publication} (rows : List Publication)
    → Memᴰ r rows
    → (s : Publication) × (find_row r.id rows ≡ some s)
unfolding find_row
find_row_of_mem [] m = elim m [ ]
find_row_of_mem {r} (s ∷ rows) m = elim (Bool-cases (s.id == r.id)) [
  | inl t ↦ (s, rw t)
  | inr f ↦ elim (mem-cons-cases m) [
    | inl e ↦ absurd (ground (arith, ap (λ (s : Publication). s.id) e))
    | inr k ↦ let (u, e) = find_row_of_mem rows k in (u, rw f e)
  ]
]

pub select_parent-listed :
    (rows : List Publication) (c : ℕ) {parent : Option ℕ}
    → select_parent rows c ≡ ok parent
    → (r : Publication) × Memᴰ r rows × (r.id ≡ c) × (r.parent_publication_id ≡ parent)
unfolding select_parent
select_parent-listed rows c h = elim (Option-cases (find_row c rows)) [
  | inl missing ↦ cc (rw (missing, select_parent) at h)
  | inr (r, found) ↦
      let (listed, named) = find_row-listed c rows found in
      (r, listed, named, ok-injective (rw (found, select_parent) at h))
]

-- `_find_root` returns an ancestor that has a row and no parent.
pub record Root (rows : List Publication) (root c : ℕ) : Type 0 where
  pub top : Publication
  pub listed : Memᴰ top rows
  pub named : top.id ≡ root
  pub no_parent : top.parent_publication_id ≡ none
  pub over : Descendant rows root c

pub find_root-Root :
    (fuel : ℕ) (rows : List Publication) (c : ℕ) {root : ℕ}
    → find_root fuel rows c ≡ ok root
    → Root rows root c
unfolding find_root
find_root-Root zero rows c h = cc
find_root-Root (suc fuel) rows c {root} h =
    let (parent, found, rest) = >>=-eq-ok (select_parent rows c) _ h in
    let (r, listed, named, up) = select_parent-listed rows c found in
    elim (Option-cases parent) [
      | inl top ↦
          let e = ok-injective (rw top at rest) in
          record {
            top = r;
            listed = listed;
            named = named ∙ e;
            no_parent = up ∙ top;
            over = subst (λ k. Descendant rows k c) e here;
          }
      | inr (p, some_p) ↦
          let above = find_root-Root fuel rows p (rw some_p at rest) in
          record {
            top = above.top;
            listed = above.listed;
            named = above.named;
            no_parent = above.no_parent;
            over =
                below above.over
                  record { row = r; listed = listed; named = named; up = up ∙ some_p };
          }
    ]

pub mem-ids : (rows : List Publication) {r : Publication} → Memᴰ r rows → Memᴰ r.id (ids rows)
mem-ids [] m = elim m [ ]
mem-ids (s ∷ rows) (Memᴰ.head e) = Memᴰ.head (ap (λ (r : Publication). r.id) e)
mem-ids (s ∷ rows) (Memᴰ.tail m) = Memᴰ.tail (mem-ids rows m)

pub ids-mem :
    (rows : List Publication) {i : ℕ}
    → Memᴰ i (ids rows)
    → (r : Publication) × Memᴰ r rows × (r.id ≡ i)
ids-mem [] m = elim m [ ]
ids-mem (s ∷ rows) m = elim (mem-cons-cases m) [
  | inl e ↦ (s, Memᴰ.head refl, sym e)
  | inr k ↦ let (r, listed, named) = ids-mem rows k in (r, Memᴰ.tail listed, named)
]

pub has_parent_iff :
    (p : ℕ) (r : Publication) → (has_parent p r ≡ true) ↔ (r.parent_publication_id ≡ some p)
has_parent_iff p r = ground arith

pub children-Edge :
    (rows : List Publication) (frontier : List ℕ) {i : ℕ}
    → Memᴰ i (children rows frontier)
    → (p : ℕ) × Memᴰ p frontier × Edge rows p i
unfolding children
children-Edge rows [] m = elim m [ ]
children-Edge rows (p ∷ frontier) m =
    elim (mem-append-cases (ids (select (has_parent p) rows)) (children rows frontier) m) [
      | inl here_ ↦
          let (r, picked, named) = ids-mem (select (has_parent p) rows) here_ in
          let (listed, up) = select-mem (has_parent p) rows picked in
          (
            p,
            Memᴰ.head refl,
            record { row = r; listed = listed; named = named; up = (has_parent_iff p r).0 up },
          )
      | inr later ↦ let (q, mq, e) = children-Edge rows frontier later in (q, Memᴰ.tail mq, e)
    ]

pub Edge-children :
    (rows : List Publication) (frontier : List ℕ) {p i : ℕ}
    → Memᴰ p frontier
    → Edge rows p i
    → Memᴰ i (children rows frontier)
unfolding children
Edge-children rows [] m e = elim m [ ]
Edge-children rows (q ∷ frontier) {p} m e = elim (mem-cons-cases m) [
  | inr later ↦
      mem-append_right (ids (select (has_parent q) rows)) (children rows frontier)
        (Edge-children rows frontier later e)
  | inl same ↦ mem-append_left (ids (select (has_parent q) rows)) (children rows frontier) (
      rw (sym e.named) (
        mem-ids (select (has_parent q) rows) (
          mem-select (has_parent q) rows e.listed
            ((has_parent_iff q e.row).1 (e.up ∙ ap some same)))))
]

-- `found` holds the frontier, and everything below what it holds.
record Closed (rows : List Publication) (frontier found : List ℕ) : Type 0 where
  starts : (p : ℕ) → Memᴰ p frontier → Memᴰ p found
  down : (p i : ℕ) → Memᴰ p found → Edge rows p i → Memᴰ i found

lineage_from-Closed :
    (fuel : ℕ) (rows : List Publication) (frontier : List ℕ) {found : List ℕ}
    → lineage_from fuel rows frontier ≡ ok found
    → Closed rows frontier found
unfolding lineage_from
lineage_from-Closed zero rows frontier h = cc
lineage_from-Closed (suc fuel) rows [] h = record {
  starts = λ p m. elim m [ ];
  down = λ p i m e. elim (subst (Memᴰ p) (sym (ok-injective h)) m) [ ];
}
lineage_from-Closed (suc fuel) rows (j ∷ frontier) h =
    let (rest, ends, e) = >>=-eq-ok (lineage_from fuel rows (children rows (j ∷ frontier))) _ h in
    let ih = lineage_from-Closed fuel rows (children rows (j ∷ frontier)) ends in
    subst (Closed rows (j ∷ frontier)) (ok-injective e) record {
      starts = λ p m. mem-append_left (j ∷ frontier) rest m;
      down = λ p i m step. elim (mem-append-cases (j ∷ frontier) rest m) [
        | inl first ↦
            mem-append_right (j ∷ frontier) rest
              (ih.starts i (Edge-children rows (j ∷ frontier) first step))
        | inr later ↦ mem-append_right (j ∷ frontier) rest (ih.down p i later step)
      ];
    }

lineage_from-Descendant :
    (fuel : ℕ) (rows : List Publication) (frontier : List ℕ) (root : ℕ) {found : List ℕ}
    → lineage_from fuel rows frontier ≡ ok found
    → ((p : ℕ) → Memᴰ p frontier → Descendant rows root p)
    → (i : ℕ) → Memᴰ i found
    → Descendant rows root i
unfolding lineage_from
lineage_from-Descendant zero rows frontier root h all i m = cc
lineage_from-Descendant (suc fuel) rows [] root h all i m =
    elim (subst (Memᴰ i) (sym (ok-injective h)) m) [ ]
lineage_from-Descendant (suc fuel) rows (j ∷ frontier) root h all i m =
    let (rest, ends, e) = >>=-eq-ok (lineage_from fuel rows (children rows (j ∷ frontier))) _ h in
    elim (mem-append-cases (j ∷ frontier) rest (subst (Memᴰ i) (sym (ok-injective e)) m)) [
      | inl first ↦ all i first
      | inr later ↦
          lineage_from-Descendant fuel rows (children rows (j ∷ frontier)) root ends
            (λ p mp.
              let (q, mq, step) = children-Edge rows (j ∷ frontier) mp in below (all q mq) step)
            i later
    ]

module _ (fuel : ℕ) (rows : List Publication) (root : ℕ) {found : List ℕ}
    (ends : lineage fuel rows root ≡ ok found) where
  -- The recursive query returns only rows below the root.
  pub lineage-Descendant : (i : ℕ) → elem i found ≡ true → Descendant rows root i
  unfolding lineage
  lineage-Descendant i m =
      lineage_from-Descendant fuel rows _ root ends
        (λ p mp.
          let (r, picked, named) = ids-mem _ mp in
          let (listed, is_root) = select-mem (has_id root) rows picked in
          subst (Descendant rows root) (sym ((==_iff r.id root).0 is_root) ∙ named) here)
        i (mem_of_elem i found m)

  -- It returns every row below a root that has a row.
  pub Descendant-lineage :
      (r : Publication)
      → Memᴰ r rows
      → r.id ≡ root
      → {i : ℕ} → Descendant rows root i
      → elem i found ≡ true
  unfolding lineage
  Descendant-lineage r listed named d = elem_of_mem _ found (walk d)
    where
      closed : Closed rows (ids (select (has_id root) rows)) found
      closed = lineage_from-Closed fuel rows _ ends

      walk : {i : ℕ} → Descendant rows root i → Memᴰ i found
      walk here = closed.starts root (
          subst (λ k. Memᴰ k (ids (select (has_id root) rows))) named
            (mem-ids _ (mem-select (has_id root) rows listed ((==_iff r.id root).1 named))))
      walk (below d e) = closed.down _ _ (walk d) e
