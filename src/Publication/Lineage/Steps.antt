-- ===== src/Publication/Lineage/Steps.antt =====
-- The tables that `link` goes through, and what its two updates make of a row.
use evidence_first_investmen.Base.{
  ℕ, ◌≡◌, ◌≢◌, refl, sym, ap, ◌∙◌, ◌⊎◌, inl, inr, true, some, List, Memᴰ, arith, mem-cons-cases,
  update_where-mem, mem-update_where, ◌==◌, leb, ==_iff, ok, >>=-eq-ok, ok-injective, Bool-cases,
  if◌then◌else◌,
}
use evidence_first_investmen.Publication.{Publication, has_id}
use evidence_first_investmen.Publication.Lineage.{
  find_root, clear_all, roots_to_clear, set_parent, set_latest, latest_leaf, link,
}
use evidence_first_investmen.Publication.Lineage.Descent.{Root, find_root-Root}
use evidence_first_investmen.Publication.Lineage.Clearing.{Clears, clear_all-Clears}

-- The intermediate tables of a `link` that returns.
pub record Linked (fuel now child parent : ℕ) (rows rows' : List Publication) : Type 0 where
  pub child_root : ℕ
  pub parent_root : ℕ
  pub child_top : Root rows child_root child
  pub parent_top : Root rows parent_root parent
  pub found_child : find_root fuel rows child ≡ ok child_root
  pub found_parent : find_root fuel rows parent ≡ ok parent_root
  pub middle : List Publication
  pub clears : Clears now (roots_to_clear child_root parent_root) rows middle
  pub latest : Publication
  pub picked : latest_leaf fuel (set_parent now child parent middle) parent_root ≡ ok latest
  pub final : set_latest now latest.id (set_parent now child parent middle) ≡ rows'

pub roots_of : (a b : ℕ) (k : ℕ) → Memᴰ k (roots_to_clear a b) → (k ≡ a) ⊎ (k ≡ b)
roots_of a b k m = elim (Bool-cases (a == b)) [
  | inl t ↦ elim (mem-cons-cases (rw t at m)) [ inl e ↦ inl e | inr n ↦ elim n [ ] ]
  | inr f ↦ elim (Bool-cases (leb a b)) [
    | inl l ↦ elim (mem-cons-cases (rw (f, l) at m)) [
      | inl e ↦ inl e
      | inr m' ↦ elim (mem-cons-cases m') [ inl e ↦ inr e | inr n ↦ elim n [ ] ]
    ]
    | inr l ↦ elim (mem-cons-cases (rw (f, l) at m)) [
      | inl e ↦ inr e
      | inr m' ↦ elim (mem-cons-cases m') [ inl e ↦ inl e | inr n ↦ elim n [ ] ]
    ]
  ]
]

pub child_root-cleared : (a b : ℕ) → Memᴰ a (roots_to_clear a b)
child_root-cleared a b = elim (Bool-cases (a == b)) [
  | inl t ↦ rw t (Memᴰ.head refl)
  | inr f ↦ elim (Bool-cases (leb a b)) [
    | inl l ↦ rw (f, l) (Memᴰ.head refl)
    | inr l ↦ rw (f, l) (Memᴰ.tail (Memᴰ.head refl))
  ]
]

pub parent_root-cleared : (a b : ℕ) → Memᴰ b (roots_to_clear a b)
parent_root-cleared a b = elim (Bool-cases (a == b)) [
  | inl t ↦ rw t (Memᴰ.head (sym ((==_iff a b).0 t)))
  | inr f ↦ elim (Bool-cases (leb a b)) [
    | inl l ↦ rw (f, l) (Memᴰ.tail (Memᴰ.head refl))
    | inr l ↦ rw (f, l) (Memᴰ.head refl)
  ]
]

pub link-Linked :
    (fuel now child parent : ℕ) (rows : List Publication) {rows' : List Publication}
    → link fuel now child parent rows ≡ ok rows'
    → Linked fuel now child parent rows rows'
unfolding link
link-Linked fuel now child parent rows h =
    let (a, found_a, h1) = >>=-eq-ok (find_root fuel rows child) _ h in
    let (b, found_b, h2) = >>=-eq-ok (find_root fuel rows parent) _ h1 in
    let (middle, clearing, h3) = >>=-eq-ok (clear_all fuel now (roots_to_clear a b) rows) _ h2 in
    let (latest, picked, h4) =
      >>=-eq-ok (latest_leaf fuel (set_parent now child parent middle) b) _ h3 in
    let top_a = find_root-Root fuel rows child found_a in
    let top_b = find_root-Root fuel rows parent found_b in
    record {
      child_root = a;
      parent_root = b;
      child_top = top_a;
      parent_top = top_b;
      found_child = found_a;
      found_parent = found_b;
      middle = middle;
      clears =
          clear_all-Clears fuel now (roots_to_clear a b) rows
            (λ k m. elim (roots_of a b k m) [
              | inl e ↦ (top_a.top, top_a.listed, top_a.named ∙ sym e)
              | inr e ↦ (top_b.top, top_b.listed, top_b.named ∙ sym e)
            ])
            clearing;
      latest = latest;
      picked = picked;
      final = ok-injective h4;
    }

-- The row of `middle` that a row of the table after `set_parent` comes from.
pub set_parent-back :
    (now child parent : ℕ) (middle : List Publication) (r' : Publication)
    → Memᴰ r' (set_parent now child parent middle)
    → (r : Publication) × Memᴰ r middle
      × (r'.id ≡ r.id)
      × (r'.is_latest_version ≡ r.is_latest_version)
      × (r'.parent_publication_id
          ≡ (if r.id == child then some parent else r.parent_publication_id))
      × (r.id ≢ child → r' ≡ r)
set_parent-back now child parent middle r' m =
    let (r, listed, e) = update_where-mem (has_id child) _ middle m in
    elim (Bool-cases (r.id == child)) [
      | inl t ↦
          let e' = rw t at e in
          (
            r,
            listed,
            ap (λ (r : Publication). r.id) e',
            ap (λ (r : Publication). r.is_latest_version) e',
            rw t (ap (λ (r : Publication). r.parent_publication_id) e'),
            λ other. absurd (other ((==_iff r.id child).0 t)),
          )
      | inr f ↦
          let e' = rw f at e in
          (
            r,
            listed,
            ap (λ (r : Publication). r.id) e',
            ap (λ (r : Publication). r.is_latest_version) e',
            rw f (ap (λ (r : Publication). r.parent_publication_id) e'),
            λ other. e',
          )
    ]

pub set_latest-back :
    (now i : ℕ) (rows : List Publication) (r' : Publication)
    → Memᴰ r' (set_latest now i rows)
    → (r : Publication) × Memᴰ r rows
      × (r'.id ≡ r.id)
      × (r'.is_latest_version ≡ (if r.id == i then true else r.is_latest_version))
      × (r'.parent_publication_id ≡ r.parent_publication_id)
      × (r'.published_at ≡ r.published_at)
      × (r.id ≢ i → r' ≡ r)
set_latest-back now i rows r' m =
    let (r, listed, e) = update_where-mem (has_id i) _ rows m in
    elim (Bool-cases (r.id == i)) [
      | inl t ↦
          let e' = rw t at e in
          (
            r,
            listed,
            ap (λ (r : Publication). r.id) e',
            rw t (ap (λ (r : Publication). r.is_latest_version) e'),
            ap (λ (r : Publication). r.parent_publication_id) e',
            ap (λ (r : Publication). r.published_at) e',
            λ other. absurd (other ((==_iff r.id i).0 t)),
          )
      | inr f ↦
          let e' = rw f at e in
          (
            r,
            listed,
            ap (λ (r : Publication). r.id) e',
            rw f (ap (λ (r : Publication). r.is_latest_version) e'),
            ap (λ (r : Publication). r.parent_publication_id) e',
            ap (λ (r : Publication). r.published_at) e',
            λ other. e',
          )
    ]

pub set_latest-forth :
    (now i : ℕ) (rows : List Publication) (r : Publication)
    → Memᴰ r rows
    → (r' : Publication) × Memᴰ r' (set_latest now i rows)
      × (r'.id ≡ r.id)
      × (r'.is_latest_version ≡ (if r.id == i then true else r.is_latest_version))
      × (r'.parent_publication_id ≡ r.parent_publication_id)
      × (r'.published_at ≡ r.published_at)
set_latest-forth now i rows r listed = (
  _,
  mem-update_where (has_id i) _ rows listed,
  ground arith,
  ground arith,
  ground arith,
  ground arith,
)

pub set_parent-forth :
    (now child parent : ℕ) (rows : List Publication) (r : Publication)
    → Memᴰ r rows
    → (r' : Publication) × Memᴰ r' (set_parent now child parent rows)
      × (r'.id ≡ r.id)
      × (r'.parent_publication_id
          ≡ (if r.id == child then some parent else r.parent_publication_id))
set_parent-forth now child parent rows r listed =
    (_, mem-update_where (has_id child) _ rows listed, ground arith, ground arith)
