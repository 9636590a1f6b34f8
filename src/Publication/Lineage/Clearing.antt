-- ===== src/Publication/Lineage/Clearing.antt =====
-- `_lock_and_clear_latest` clears the flag of every row below its root and changes no other row.
use evidence_first_investmen.Base.{
  ℕ, ◌≡◌, refl, sym, ap, ◌∙◌, ◌⊎◌, inl, inr, false, List, [], ◌∷◌, Memᴰ, elem, mem-cons-cases,
  update_where-mem, mem-update_where, ok, >>=-eq-ok, ok-injective, Bool-cases, if◌then◌else◌,
}
use mathlib.Core.Path.{subst}
use evidence_first_investmen.Publication.{Publication}
use evidence_first_investmen.Publication.Lineage.{lineage, lock_and_clear_latest, clear_all}
use evidence_first_investmen.Publication.Lineage.Descent.{
  Edge, Descendant, Descendant-mono, lineage-Descendant, Descendant-lineage,
}

abbrev pub cleared : ℕ → Publication → Publication
cleared now r = record r { is_latest_version = false; updated_at = now }

-- What the clearing of `roots` makes of one row.
pub record Cleared (now : ℕ) (roots : List ℕ) (rows : List Publication) (r r' : Publication)
    : Type 0 where
  pub either : (r' ≡ r) ⊎ (r' ≡ cleared now r)
  pub inside : (root : ℕ) → Memᴰ root roots → Descendant rows root r.id → r' ≡ cleared now r
  pub outside : ((root : ℕ) → Memᴰ root roots → ¬ Descendant rows root r.id) → r' ≡ r

pub record Clears (now : ℕ) (roots : List ℕ) (rows rows' : List Publication) : Type 0 where
  pub back :
      (r' : Publication)
      → Memᴰ r' rows'
      → (r : Publication) × Memᴰ r rows × Cleared now roots rows r r'
  pub forth :
      (r : Publication)
      → Memᴰ r rows
      → (r' : Publication) × Memᴰ r' rows' × Cleared now roots rows r r'

pub Cleared-id :
    {now : ℕ} {roots : List ℕ} {rows : List Publication} {r r' : Publication}
    → Cleared now roots rows r r'
    → r'.id ≡ r.id
Cleared-id c = elim c.either [
  | inl e ↦ ap (λ (r : Publication). r.id) e
  | inr e ↦ ap (λ (r : Publication). r.id) e
]

pub Cleared-parent :
    {now : ℕ} {roots : List ℕ} {rows : List Publication} {r r' : Publication}
    → Cleared now roots rows r r'
    → r'.parent_publication_id ≡ r.parent_publication_id
Cleared-parent c = elim c.either [
  | inl e ↦ ap (λ (r : Publication). r.parent_publication_id) e
  | inr e ↦ ap (λ (r : Publication). r.parent_publication_id) e
]

module _ {now : ℕ} {roots : List ℕ} {rows rows' : List Publication}
    (c : Clears now roots rows rows') where
  pub Clears-Edge : (p i : ℕ) → Edge rows p i → Edge rows' p i
  Clears-Edge p i e =
      let (r', listed, same) = c.forth e.row e.listed in
      record {
        row = r';
        listed = listed;
        named = Cleared-id same ∙ e.named;
        up = Cleared-parent same ∙ e.up;
      }

  pub Edge-Clears : (p i : ℕ) → Edge rows' p i → Edge rows p i
  Edge-Clears p i e =
      let (r, listed, same) = c.back e.row e.listed in
      record {
        row = r;
        listed = listed;
        named = sym (Cleared-id same) ∙ e.named;
        up = sym (Cleared-parent same) ∙ e.up;
      }

-- One query's worth, from the set of ids that the recursive query returns.
lock_and_clear_latest-Clears :
    (fuel now root : ℕ) (rows : List Publication) {rows' : List Publication}
    → (top : Publication) → Memᴰ top rows
    → top.id ≡ root
    → lock_and_clear_latest fuel now root rows ≡ ok rows'
    → Clears now (root ∷ []) rows rows'
unfolding lock_and_clear_latest
lock_and_clear_latest-Clears fuel now root rows {rows'} top listed named h =
    let (found, ends, e) = >>=-eq-ok (lineage fuel rows root) _ h in
    subst (Clears now (root ∷ []) rows) (ok-injective e) record {
      back = λ r' m.
          let (r, mr, er) = update_where-mem (λ r. elem r.id found) (cleared now) rows m in
          (r, mr, row found ends r r' er);
      forth = λ r m. (
        (if elem r.id found then cleared now r else r),
        mem-update_where (λ r. elem r.id found) (cleared now) rows m,
        row found ends r _ refl,
      );
    }
  where
    row :
        (found : List ℕ)
        → lineage fuel rows root ≡ ok found
        → (r r' : Publication) → r' ≡ (if elem r.id found then cleared now r else r)
        → Cleared now (root ∷ []) rows r r'
    row found ends r r' e = record {
      either = elim (Bool-cases (elem r.id found)) [
        | inl t ↦ inr (rw t at e)
        | inr f ↦ inl (rw f at e)
      ];
      inside = λ k m d. elim (mem-cons-cases m) [
        | inl same ↦
            rw
              (Descendant-lineage fuel rows root ends top listed named
                (subst (λ j. Descendant rows j r.id) same d))
              at e
        | inr none_ ↦ elim none_ [ ]
      ];
      outside = λ out. elim (Bool-cases (elem r.id found)) [
        | inl t ↦ absurd (out root (Memᴰ.head refl) (lineage-Descendant fuel rows root ends r.id t))
        | inr f ↦ rw f at e
      ];
    }

-- Two clearings, one after the other, at one time.
Cleared-trans :
    {now root : ℕ} {roots : List ℕ} {rows rows' : List Publication} {r r' r'' : Publication}
    → ((k : ℕ) → Descendant rows k r.id → Descendant rows' k r'.id)
    → ((k : ℕ) → Descendant rows' k r'.id → Descendant rows k r.id)
    → Cleared now (root ∷ []) rows r r'
    → Cleared now roots rows' r' r''
    → Cleared now (root ∷ roots) rows r r''
Cleared-trans {now} {r = r} to from c d = record {
  either = elim c.either [
    | inl e ↦ elim d.either [ inl e' ↦ inl (e' ∙ e) | inr e' ↦ inr (e' ∙ ap (cleared now) e) ]
    | inr e ↦ elim d.either [ inl e' ↦ inr (e' ∙ e) | inr e' ↦ inr (e' ∙ ap (cleared now) e) ]
  ];
  inside = λ k m below_k. elim (mem-cons-cases m) [
    | inl same ↦
        let e = c.inside k (Memᴰ.head same) below_k in
        elim d.either [ inl e' ↦ e' ∙ e | inr e' ↦ e' ∙ ap (cleared now) e ]
    | inr later ↦
        let e' = d.inside k later (to k below_k) in
        elim c.either [ inl e ↦ e' ∙ ap (cleared now) e | inr e ↦ e' ∙ ap (cleared now) e ]
  ];
  outside = λ out.
      d.outside (λ k m b. out k (Memᴰ.tail m) (from k b))
      ∙ c.outside (λ k m b. elim (mem-cons-cases m) [
        | inl same ↦ out k (Memᴰ.head same) b
        | inr none_ ↦ elim none_ [ ]
      ]);
}

Clears-trans :
    {now root : ℕ} {roots : List ℕ} {rows rows' rows'' : List Publication}
    → Clears now (root ∷ []) rows rows'
    → Clears now roots rows' rows''
    → Clears now (root ∷ roots) rows rows''
Clears-trans {now} {root} {rows = rows} {rows' = rows'} c d = record {
  back = λ r'' m.
      let (r', m', second) = d.back r'' m in
      let (r, m0, first) = c.back r' m' in
      (r, m0, Cleared-trans (to first) (from first) first second);
  forth = λ r m.
      let (r', m', first) = c.forth r m in
      let (r'', m'', second) = d.forth r' m' in
      (r'', m'', Cleared-trans (to first) (from first) first second);
}
  where
    to :
        {r r' : Publication}
        → Cleared now (root ∷ []) rows r r'
        → (k : ℕ) → Descendant rows k r.id
        → Descendant rows' k r'.id
    to first k b =
        subst (Descendant rows' k) (sym (Cleared-id first)) (Descendant-mono (Clears-Edge c) b)

    from :
        {r r' : Publication}
        → Cleared now (root ∷ []) rows r r'
        → (k : ℕ) → Descendant rows' k r'.id
        → Descendant rows k r.id
    from first k b =
        subst (Descendant rows k) (Cleared-id first) (Descendant-mono (Edge-Clears c) b)

pub clear_all-Clears :
    (fuel now : ℕ) (roots : List ℕ) (rows : List Publication) {rows' : List Publication}
    → ((root : ℕ) → Memᴰ root roots → (t : Publication) × Memᴰ t rows × (t.id ≡ root))
    → clear_all fuel now roots rows ≡ ok rows'
    → Clears now roots rows rows'
unfolding clear_all
clear_all-Clears fuel now [] rows tops h = subst (Clears now [] rows) (ok-injective h) record {
  back =
      λ r m. (r, m, record { either = inl refl; inside = λ k n. elim n [ ]; outside = λ _. refl });
  forth =
      λ r m. (r, m, record { either = inl refl; inside = λ k n. elim n [ ]; outside = λ _. refl });
}
clear_all-Clears fuel now (root ∷ roots) rows tops h =
    let (rows1, first, rest) = >>=-eq-ok (lock_and_clear_latest fuel now root rows) _ h in
    let (top, listed, named) = tops root (Memᴰ.head refl) in
    let c = lock_and_clear_latest-Clears fuel now root rows top listed named first in
    let d =
      clear_all-Clears fuel now roots rows1
        (λ k m.
          let (t, mt, et) = tops k (Memᴰ.tail m) in
          let (t', mt', same) = c.forth t mt in (t', mt', Cleared-id same ∙ et))
        rest in
    Clears-trans c d
