-- ===== src/Publication/Lineage/Latest.antt =====
-- What `link` leaves behind: one latest version in the lineage that it writes.
use mathlib.Core.Path.{subst}
use evidence_first_investmen.Base.{
  ℕ, ◌≡◌, ◌≢◌, refl, sym, ap, ◌∙◌, ◌⊎◌, inl, inr, Bool, true, false, ◌&&◌, Option, none, some, List,
  Memᴰ, arith, elem, any, any_of_mem, mem_of_any, mem-select, select-mem, ◌==◌, ==_iff, ==_refl,
  select, ok, >>=-eq-ok, some_inj, ok-injective, Bool-cases, if◌then◌else◌,
}
use evidence_first_investmen.Publication.{Publication}
use evidence_first_investmen.Publication.Lineage.{
  find_root, has_parent, lineage, set_parent, set_latest, is_leaf, scalar_one, latest_leaf, link,
  sorts_before,
}
use evidence_first_investmen.Publication.Lineage.Descent.{
  Edge, Descendant, here, below, Descendant-mono, lineage-Descendant, Descendant-lineage,
  has_parent_iff,
}
use evidence_first_investmen.Publication.Lineage.Order.{first_row-first}
use evidence_first_investmen.Publication.Lineage.Clearing.{Cleared-id, Edge-Clears, cleared}
use evidence_first_investmen.Publication.Lineage.Steps.{
  Linked, link-Linked, child_root-cleared, parent_root-cleared, set_parent-back, set_parent-forth,
  set_latest-back, set_latest-forth,
}

-- A lineage with one latest version: the first, in the order of the query, of its leaves.
pub record OneLatest (rows : List Publication) (root : ℕ) : Type 0 where
  pub latest : Publication
  pub listed : Memᴰ latest rows
  pub flagged : latest.is_latest_version ≡ true
  pub is_below : Descendant rows root latest.id
  pub leaf : (r : Publication) → Memᴰ r rows → r.parent_publication_id ≢ some latest.id
  pub only :
      (r : Publication)
      → Memᴰ r rows
      → Descendant rows root r.id
      → r.is_latest_version ≡ (r.id == latest.id)
  pub newest :
      (r : Publication)
      → Memᴰ r rows
      → Descendant rows root r.id
      → ((s : Publication) → Memᴰ s rows → s.parent_publication_id ≢ some r.id)
      → sorts_before latest r ≡ true

is_leaf-ne :
    (rows : List Publication) (r s : Publication)
    → is_leaf rows r ≡ true
    → Memᴰ s rows
    → s.parent_publication_id ≢ some r.id
is_leaf-ne rows r s h m e = cc (any_of_mem (has_parent r.id) rows m ((has_parent_iff r.id s).1 e))

is_leaf-eq :
    (rows : List Publication) (r : Publication)
    → ((s : Publication) → Memᴰ s rows → s.parent_publication_id ≢ some r.id)
    → is_leaf rows r ≡ true
is_leaf-eq rows r no_child = elim (Bool-cases (any (has_parent r.id) rows)) [
  | inl t ↦
      let (s, m, e) = mem_of_any (has_parent r.id) rows t in
      absurd (no_child s m ((has_parent_iff r.id s).0 e))
  | inr f ↦ rw f
]

scalar_one-eq-ok {ℓ} : {A : Type ℓ} (o : Option A) {a : A} → scalar_one o ≡ ok a → o ≡ some a
scalar_one-eq-ok none h = cc
scalar_one-eq-ok (some b) h = cc

-- What the query for the newest leaf returns, over any table.
pub record Picked (rows : List Publication) (root : ℕ) (latest : Publication) : Type 0 where
  pub listed : Memᴰ latest rows
  pub is_below : Descendant rows root latest.id
  pub leaf : is_leaf rows latest ≡ true
  pub first :
      (r : Publication)
      → Memᴰ r rows
      → Descendant rows root r.id
      → is_leaf rows r ≡ true
      → sorts_before latest r ≡ true

latest_leaf-Picked :
    (fuel : ℕ) (rows : List Publication) (root : ℕ) (top latest : Publication)
    → Memᴰ top rows
    → top.id ≡ root
    → latest_leaf fuel rows root ≡ ok latest
    → Picked rows root latest
unfolding latest_leaf
latest_leaf-Picked fuel rows root top latest top_listed named h =
    let (found, ends, h1) = >>=-eq-ok (lineage fuel rows root) _ h in
    let wanted = λ (r : Publication). elem r.id found && is_leaf rows r in
    let (picked, above) = first_row-first (select wanted rows) (scalar_one-eq-ok _ h1) in
    let (listed, both) = select-mem wanted rows picked in
    record {
      listed = listed;
      is_below = lineage-Descendant fuel rows root ends latest.id (ground arith);
      leaf = ground arith;
      first = λ r m d leaf. above r (
          mem-select wanted rows m
            (rw (Descendant-lineage fuel rows root ends top top_listed named d, leaf)));
    }

if_true-false : (b : Bool) → (if b then true else false) ≡ b
if_true-false true = refl
if_true-false false = refl

-- How the parents of `rows` and of the linked table differ.
module _ (fuel now child parent : ℕ) (rows : List Publication) {rows' : List Publication}
    (l : Linked fuel now child parent rows rows') where
  abbrev linked : List Publication
  linked = set_parent now child parent l.middle

  pub Edge-linked : (p i : ℕ) → Edge linked p i → Edge rows p i ⊎ ((i ≡ child) × (p ≡ parent))
  Edge-linked p i e =
      let (r, listed, same_id, _, up, _) =
        set_parent-back now child parent l.middle e.row e.listed in
      elim (Bool-cases (r.id == child)) [
        | inl t ↦
            inr (sym e.named ∙ same_id ∙ (==_iff r.id child).0 t, some_inj (sym e.up ∙ up ∙ rw t))
        | inr f ↦ inl (
            Edge-Clears l.clears p i (record {
              row = r;
              listed = listed;
              named = sym same_id ∙ e.named;
              up = sym (up ∙ rw f) ∙ e.up;
            }))
      ]

  pub Edge-final : (p i : ℕ) → Edge (set_latest now l.latest.id linked) p i → Edge linked p i
  Edge-final p i e =
      let (r, listed, same_id, _, up, _, _) =
        set_latest-back now l.latest.id linked e.row e.listed in
      record { row = r; listed = listed; named = sym same_id ∙ e.named; up = sym up ∙ e.up }

  pub final-Edge : (p i : ℕ) → Edge linked p i → Edge (set_latest now l.latest.id linked) p i
  final-Edge p i e =
      let (r, listed, same_id, _, up, _) = set_latest-forth now l.latest.id linked e.row e.listed in
      record { row = r; listed = listed; named = same_id ∙ e.named; up = up ∙ e.up }

  -- Whatever the link puts below the parent's root was below one of the two roots.
  pub Descendant-linked :
      {i : ℕ}
      → Descendant linked l.parent_root i
      → Descendant rows l.parent_root i ⊎ Descendant rows l.child_root i
  Descendant-linked here = inl here
  Descendant-linked (below d e) = elim (Edge-linked _ _ e) [
    | inl old ↦ elim (Descendant-linked d) [ inl a ↦ inl (below a old) | inr b ↦ inr (below b old) ]
    | inr (is_child, _) ↦ inr (subst (Descendant rows l.child_root) (sym is_child) l.child_top.over)
  ]

  pub linked_top : (t : Publication) × Memᴰ t linked × (t.id ≡ l.parent_root)
  linked_top =
      let (m, m_listed, m_same) = l.clears.forth l.parent_top.top l.parent_top.listed in
      let (t, listed, same_id, _) = set_parent-forth now child parent l.middle m m_listed in
      (t, listed, same_id ∙ Cleared-id m_same ∙ l.parent_top.named)

  pub picked : Picked linked l.parent_root l.latest
  picked =
      let (t, listed, named) = linked_top in
      latest_leaf-Picked fuel linked l.parent_root t l.latest listed named l.picked

  -- Every row below the parent's root is cleared before the newest leaf is flagged.
  linked_flag :
      (r : Publication)
      → Memᴰ r linked
      → Descendant linked l.parent_root r.id
      → r.is_latest_version ≡ false
  linked_flag r m d =
      let (r1, m1, id1, flag1, _, _) = set_parent-back now child parent l.middle r m in
      let (r0, m0, c) = l.clears.back r1 m1 in
      let e = id1 ∙ Cleared-id c in
      let clear : r1 ≡ cleared now r0 = elim (Descendant-linked d) [
        | inl a ↦
            c.inside l.parent_root (parent_root-cleared l.child_root l.parent_root)
              (subst (Descendant rows l.parent_root) e a)
        | inr b ↦
            c.inside l.child_root (child_root-cleared l.child_root l.parent_root)
              (subst (Descendant rows l.child_root) e b)
      ] in
      flag1 ∙ ap (λ (r : Publication). r.is_latest_version) clear

  pub final-OneLatest : OneLatest (set_latest now l.latest.id linked) l.parent_root
  final-OneLatest =
      let (f, f_listed, f_id, f_flag, f_up, f_time) =
        set_latest-forth now l.latest.id linked l.latest picked.listed in
      record {
        latest = f;
        listed = f_listed;
        flagged = f_flag ∙ rw (==_refl l.latest.id);
        is_below =
            subst (Descendant (set_latest now l.latest.id linked) l.parent_root) (sym f_id)
              (Descendant-mono final-Edge picked.is_below);
        leaf = λ r m e.
            let (s, ms, _, _, up, _, _) = set_latest-back now l.latest.id linked r m in
            is_leaf-ne linked l.latest s picked.leaf ms (sym up ∙ e ∙ ap some f_id);
        only = λ r m d.
            let (s, ms, same_id, flag, up, _, _) = set_latest-back now l.latest.id linked r m in
            let cleared_ =
              linked_flag s ms
                (subst (Descendant linked l.parent_root) same_id (Descendant-mono Edge-final d)) in
            flag ∙ rw (cleared_, f_id, same_id) (if_true-false (s.id == l.latest.id));
        newest = λ r m d no_child.
            let (s, ms, same_id, flag, up, time, _) = set_latest-back now l.latest.id linked r m in
            let before =
              picked.first s ms
                (subst (Descendant linked l.parent_root) same_id (Descendant-mono Edge-final d))
                (is_leaf-eq linked s (λ t mt e.
                  let (t', mt', _, _, up', _) = set_latest-forth now l.latest.id linked t mt in
                  no_child t' mt' (up' ∙ e ∙ ap some (sym same_id)))) in
            rw (f_id, f_time, same_id, time) before;
      }

-- A link that returns leaves exactly one latest version in the lineage of the parent's root: a leaf,
-- and the first of the leaves by publication time (a missing time first) and then by id, both
-- descending. Every other row of that lineage has lost its flag.
pub link-OneLatest :
    (fuel now child parent root : ℕ) (rows rows' : List Publication)
    → find_root fuel rows parent ≡ ok root
    → link fuel now child parent rows ≡ ok rows'
    → OneLatest rows' root
link-OneLatest fuel now child parent root rows rows' above h =
    let l = link-Linked fuel now child parent rows h in
    let e : l.parent_root ≡ root = ok-injective (sym l.found_parent ∙ above) in
    subst (OneLatest rows') e (
      subst (λ t. OneLatest t l.parent_root) l.final (final-OneLatest fuel now child parent rows l))
