-- ===== src/Publication/Lineage/Total.antt =====
-- A link below a row of another branch returns, and leaves lineages without cycles.
use evidence_first_investmen.Base.{
  ℕ, suc, ◌+◌, ◌<◌, ◌≡◌, refl, sym, ap, ◌∙◌, inl, inr, Bool, true, false, List, [], ◌∷◌, Memᴰ,
  arith, elem, ◌==◌, ==_iff, ok, Bool-cases, if◌then◌else◌, update_where, update_where-mem,
  mem-update_where, some_inj,
}
use evidence_first_investmen.Publication.{Publication, has_id}
use evidence_first_investmen.Publication.Lineage.{
  find_root, lineage, clear_all, roots_to_clear, set_parent, set_latest, link,
}
use evidence_first_investmen.Publication.Lineage.Descent.{
  Edge, Descendant, here, below, Descendant-mono, Descendant-lineage, lineage-Descendant,
  find_root-Root,
}
use evidence_first_investmen.Publication.Lineage.Clearing.{
  cleared, Edge-Clears, Cleared-id, clear_all-Clears,
}
use evidence_first_investmen.Publication.Lineage.Steps.{set_parent-back, set_parent-forth, roots_of}
use evidence_first_investmen.Publication.Lineage.Forest.{
  IsForest, find_root-total, lineage-total, latest_leaf-total,
}

if_eq {ℓ} :
    {A B : Type ℓ} (g : A → B) (b : Bool) (x y : A) → g x ≡ g y → g (if b then x else y) ≡ g y
if_eq g true x y h = h
if_eq g false x y h = refl

-- An UPDATE that sets neither ids nor parents.
module _ {rank : ℕ → ℕ} {bound : ℕ} {rows : List Publication} (p : Publication → Bool)
    (f : Publication → Publication) (same_id : (r : Publication) → (f r).id ≡ r.id)
    (same_up : (r : Publication) → (f r).parent_publication_id ≡ r.parent_publication_id)
    (forest : IsForest rank bound rows) where
  update-back :
      (r' : Publication)
      → Memᴰ r' (update_where p f rows)
      → (r : Publication) × Memᴰ r rows
        × (r'.id ≡ r.id)
        × (r'.parent_publication_id ≡ r.parent_publication_id)
  update-back r' m =
      let (r, listed, e) = update_where-mem p f rows m in
      (
        r,
        listed,
        ap (λ (r : Publication). r.id) e ∙ if_eq (λ r. r.id) (p r) (f r) r (same_id r),
        ap (λ (r : Publication). r.parent_publication_id) e
            ∙ if_eq (λ r. r.parent_publication_id) (p r) (f r) r (same_up r),
      )

  IsForest-update : IsForest rank bound (update_where p f rows)
  IsForest-update = record {
    falls = λ q i e.
        let (r, m, ei, eu) = update-back e.row e.listed in
        forest.falls q i
          (record { row = r; listed = m; named = sym ei ∙ e.named; up = sym eu ∙ e.up });
    low = λ r' m'.
        let (r, m, ei, eu) = update-back r' m' in omega (arith, forest.low r m, ap rank ei);
    listed_parent = λ r' m' q up.
        let (r, m, ei, eu) = update-back r' m' in
        let (s, ms, es) = forest.listed_parent r m q (sym eu ∙ up) in
        (
          (if p s then f s else s),
          mem-update_where p f rows ms,
          if_eq (λ r. r.id) (p s) (f s) s (same_id s) ∙ es,
        );
  }

clear_all-total :
    (fuel now : ℕ) {rank : ℕ → ℕ} {bound : ℕ} (roots : List ℕ) (rows : List Publication)
    → IsForest rank bound rows
    → bound < fuel
    → (rows' : List Publication) × (clear_all fuel now roots rows ≡ ok rows')
      × IsForest rank bound rows'
unfolding clear_all
clear_all-total fuel now [] rows forest enough = (rows, refl, forest)
clear_all-total fuel now (root ∷ roots) rows forest enough =
    let (found, ends) = lineage-total forest fuel root enough in
    let rows1 : List Publication = update_where (λ r. elem r.id found) (cleared now) rows in
    let forest1 =
      IsForest-update (λ r. elem r.id found) (cleared now) (λ r. refl) (λ r. refl) forest in
    let (rows', e, forest') = clear_all-total fuel now roots rows1 forest1 enough in
    (rows', rw ends e, forest')

-- The rank after the link: what is not below the child moves up by `bound`.
abbrev lifted : (ℕ → ℕ) → ℕ → List ℕ → ℕ → ℕ
lifted rank bound low i = if elem i low then rank i else rank i + bound

module _ {rank : ℕ → ℕ} {bound : ℕ} {rows : List Publication} (forest : IsForest rank bound rows)
    (now child parent : ℕ) (c p : Publication) (mc : Memᴰ c rows) (mp : Memᴰ p rows)
    (ec : c.id ≡ child) (ep : p.id ≡ parent) (apart : ¬ Descendant rows child parent) (low : List ℕ)
    (ends : lineage (suc bound) rows child ≡ ok low) where
  in_low : (i : ℕ) → Descendant rows child i → elem i low ≡ true
  in_low i d = Descendant-lineage (suc bound) rows child ends c mc ec d

  set_parent-falls :
      (q i : ℕ)
      → Edge (set_parent now child parent rows) q i
      → lifted rank bound low i < lifted rank bound low q
  set_parent-falls q i e =
      let (r, listed, same_id, _, up, _) = set_parent-back now child parent rows e.row e.listed in
      elim (Bool-cases (r.id == child)) [
        | inr f ↦
            let edge : Edge rows q i = record {
              row = r;
              listed = listed;
              named = sym same_id ∙ e.named;
              up = sym (up ∙ rw f) ∙ e.up;
            } in
            elim (Bool-cases (elem q low)) [
              | inl t ↦
                  let d = below (lineage-Descendant (suc bound) rows child ends q t) edge in
                  rw (t, in_low i d) (forest.falls q i edge)
              | inr out ↦ rw out (raise_lt i q (forest.falls q i edge))
            ]
        | inl t ↦
            let ei : i ≡ child = sym e.named ∙ same_id ∙ (==_iff r.id child).0 t in
            let eq : parent ≡ q = some_inj (sym (up ∙ rw t) ∙ e.up) in
            rw (ei, sym eq, in_low child here, parent_out)
              (omega (arith, forest.low c mc, ap rank ec))
      ]
    where
      raise_lt : (i q : ℕ) → rank i < rank q → lifted rank bound low i < rank q + bound
      raise_lt i q h = ground arith

      parent_out : elem parent low ≡ false
      parent_out = elim (Bool-cases (elem parent low)) [
        | inl t ↦ absurd (apart (lineage-Descendant (suc bound) rows child ends parent t))
        | inr f ↦ f
      ]

  IsForest-set_parent :
      IsForest (lifted rank bound low) (bound + bound) (set_parent now child parent rows)
  IsForest-set_parent = record {
    falls = set_parent-falls;
    low = λ r' m'.
        let (r, m, same_id, _, _, _) = set_parent-back now child parent rows r' m' in
        rw same_id (lifted_low r.id (forest.low r m));
    listed_parent = λ r' m' q up'.
        let (r, m, same_id, _, up, _) = set_parent-back now child parent rows r' m' in
        elim (Bool-cases (r.id == child)) [
          | inl t ↦
              let (p', mp', ep', _) = set_parent-forth now child parent rows p mp in
              (p', mp', ep' ∙ ep ∙ some_inj (sym (up ∙ rw t) ∙ up'))
          | inr f ↦
              let (s, ms, es) = forest.listed_parent r m q (sym (up ∙ rw f) ∙ up') in
              let (s', ms', es', _) = set_parent-forth now child parent rows s ms in
              (s', ms', es' ∙ es)
        ];
  }
    where
      lifted_low : (i : ℕ) → rank i < bound → lifted rank bound low i < bound + bound
      lifted_low i h = ground arith

-- On lineages without cycles, where both rows exist and the parent is not below the child, `link`
-- with more than twice `bound` fuel returns a table, and that has no cycle either.
pub link-total :
    (fuel now child parent : ℕ) (rank : ℕ → ℕ) (bound : ℕ) (rows : List Publication)
    (c p : Publication)
    → IsForest rank bound rows
    → Memᴰ c rows
    → c.id ≡ child
    → Memᴰ p rows
    → p.id ≡ parent
    → ¬ Descendant rows child parent
    → bound + bound < fuel
    → (rows' : List Publication) × (link fuel now child parent rows ≡ ok rows')
      × (rank' : ℕ → ℕ) × IsForest rank' (bound + bound) rows'
unfolding link
link-total fuel now child parent rank bound rows c p forest mc ec mp ep apart enough =
    let (a, found_a) = find_root-total forest fuel c mc (omega arith) in
    let (b, found_b) = find_root-total forest fuel p mp (omega arith) in
    let found_a' : find_root fuel rows child ≡ ok a = rw ec at found_a in
    let found_b' : find_root fuel rows parent ≡ ok b = rw ep at found_b in
    let top_a = find_root-Root fuel rows child found_a' in
    let top_b = find_root-Root fuel rows parent found_b' in
    let (middle, clearing, forest1) =
      clear_all-total fuel now (roots_to_clear a b) rows forest (omega arith) in
    let clears =
      clear_all-Clears fuel now (roots_to_clear a b) rows
        (λ k m. elim (roots_of a b k m) [
          | inl e ↦ (top_a.top, top_a.listed, top_a.named ∙ sym e)
          | inr e ↦ (top_b.top, top_b.listed, top_b.named ∙ sym e)
        ])
        clearing in
    let (c1, mc1, same_c) = clears.forth c mc in
    let (p1, mp1, same_p) = clears.forth p mp in
    let (low, ends) = lineage-total forest1 (suc bound) child (omega arith) in
    let forest2 =
      IsForest-set_parent forest1 now child parent c1 p1 mc1 mp1 (Cleared-id same_c ∙ ec)
        (Cleared-id same_p ∙ ep) (λ d. apart (Descendant-mono (Edge-Clears clears) d)) low ends in
    let (t1, mt1, same_t) = clears.forth top_b.top top_b.listed in
    let (t2, mt2, et2, _) = set_parent-forth now child parent middle t1 mt1 in
    let (latest, picked) =
      latest_leaf-total forest2 fuel b t2 mt2 (et2 ∙ Cleared-id same_t ∙ top_b.named) enough in
    (
      set_latest now latest.id (set_parent now child parent middle),
      rw (found_a', found_b', clearing, picked),
      lifted rank bound low,
      IsForest-update (has_id latest.id)
          (λ r. record r { is_latest_version = true; updated_at = now }) (λ r. refl) (λ r. refl)
          forest2,
    )
