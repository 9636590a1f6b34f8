-- ===== src/Base/Lists.antt =====
-- Lists measured by native numbers, tables of rows, and membership that keeps its witness.
use Prim.Native.Nat.{ℕ, zero, suc, ◌+◌}
use mathlib.Core.Path.{◌≡◌, refl, sym, ap, ◌∙◌}
use mathlib.Core.Logic.{◌⊎◌, inl, inr}
use mathlib.Core.List.{List, [], ◌∷◌, ◌++◌, map, Memᴰ}
use mathlib.Core.Bool.{Bool, true, false, ◌||◌}
use native.Mathlib.Omega.{arith}
use evidence_first_investmen.Base.Tests.{◌==◌, if◌then◌else◌, Bool-cases, ==_iff}

module _ {ℓ} {A : Type ℓ} where
  abbrev pub length : List A → ℕ
  length [] = 0
  length (x ∷ xs) = suc (length xs)

  pub length-append : (xs ys : List A) → length (xs ++ ys) ≡ length xs + length ys
  length-append [] ys = omega arith
  length-append (x ∷ xs) ys = omega (arith, length-append xs ys)

  -- `xs[:n]`
  abbrev pub take : ℕ → List A → List A
  take zero xs = []
  take (suc n) [] = []
  take (suc n) (x ∷ xs) = x ∷ take n xs

  -- The rows that pass a test, in order: a comprehension, or the WHERE of a SELECT.
  abbrev pub select : (A → Bool) → List A → List A
  select p [] = []
  select p (x ∷ xs) = if p x then x ∷ select p xs else select p xs

  -- UPDATE ... SET f WHERE p.
  abbrev pub update_where : (A → Bool) → (A → A) → List A → List A
  update_where p f [] = []
  update_where p f (x ∷ xs) = (if p x then f x else x) ∷ update_where p f xs

  abbrev pub any : (A → Bool) → List A → Bool
  any p [] = false
  any p (x ∷ xs) = p x || any p xs

  pub mem-cons-cases : {x y : A} {ys : List A} → Memᴰ x (y ∷ ys) → (x ≡ y) ⊎ Memᴰ x ys
  mem-cons-cases (Memᴰ.head e) = inl e
  mem-cons-cases (Memᴰ.tail m) = inr m

module _ {ℓ} {A : Type ℓ} where
  pub mem-select :
      (p : A → Bool) (xs : List A) {x : A} → Memᴰ x xs → p x ≡ true → Memᴰ x (select p xs)
  mem-select p [] m h = elim m [ ]
  mem-select p (y ∷ ys) (Memᴰ.head e) h = rw (ap p (sym e) ∙ h) (Memᴰ.head e)
  mem-select p (y ∷ ys) (Memᴰ.tail m) h = elim (Bool-cases (p y)) [
    | inl t ↦ rw t (Memᴰ.tail (mem-select p ys m h))
    | inr f ↦ rw f (mem-select p ys m h)
  ]

  pub select-mem :
      (p : A → Bool) (xs : List A) {x : A} → Memᴰ x (select p xs) → Memᴰ x xs × (p x ≡ true)
  select-mem p [] m = elim m [ ]
  select-mem p (y ∷ ys) {x} m = elim (Bool-cases (p y)) [
    | inr f ↦ let (m', h) = select-mem p ys (rw f at m) in (Memᴰ.tail m', h)
    | inl t ↦ elim (mem-cons-cases (rw t at m)) [
      | inl e ↦ (Memᴰ.head e, ap p e ∙ t)
      | inr k ↦ let (m', h) = select-mem p ys k in (Memᴰ.tail m', h)
    ]
  ]

  -- A row after an UPDATE comes from a row before it.
  pub update_where-mem :
      (p : A → Bool) (f : A → A) (xs : List A) {x : A}
      → Memᴰ x (update_where p f xs)
      → (y : A) × Memᴰ y xs × (x ≡ (if p y then f y else y))
  update_where-mem p f [] m = elim m [ ]
  update_where-mem p f (y ∷ ys) m = elim (mem-cons-cases m) [
    | inl e ↦ (y, Memᴰ.head refl, e)
    | inr k ↦ let (z, mz, e) = update_where-mem p f ys k in (z, Memᴰ.tail mz, e)
  ]

  pub mem-update_where :
      (p : A → Bool) (f : A → A) (xs : List A) {y : A}
      → Memᴰ y xs
      → Memᴰ (if p y then f y else y) (update_where p f xs)
  mem-update_where p f [] m = elim m [ ]
  mem-update_where p f (z ∷ zs) (Memᴰ.head e) = Memᴰ.head (ap (λ y. if p y then f y else y) e)
  mem-update_where p f (z ∷ zs) (Memᴰ.tail m) = Memᴰ.tail (mem-update_where p f zs m)

  pub any_of_mem : (p : A → Bool) (xs : List A) {x : A} → Memᴰ x xs → p x ≡ true → any p xs ≡ true
  any_of_mem p [] m h = elim m [ ]
  any_of_mem p (y ∷ ys) (Memᴰ.head e) h = rw (ap p (sym e) ∙ h)
  any_of_mem p (y ∷ ys) (Memᴰ.tail m) h = ground (arith, any_of_mem p ys m h)

  pub mem_of_any :
      (p : A → Bool) (xs : List A) → any p xs ≡ true → (x : A) × Memᴰ x xs × (p x ≡ true)
  mem_of_any p [] h = cc
  mem_of_any p (y ∷ ys) h = elim (Bool-cases (p y)) [
    | inl t ↦ (y, Memᴰ.head refl, t)
    | inr f ↦ let (x, m, e) = mem_of_any p ys (ground arith) in (x, Memᴰ.tail m, e)
  ]

  pub mem-map_of_mem {κ} :
      {B : Type κ} (f : A → B) (xs : List A) {x : A} → Memᴰ x xs → Memᴰ (f x) (map f xs)
  mem-map_of_mem f [] m = elim m [ ]
  mem-map_of_mem f (z ∷ zs) (Memᴰ.head e) = Memᴰ.head (ap f e)
  mem-map_of_mem f (z ∷ zs) (Memᴰ.tail m) = Memᴰ.tail (mem-map_of_mem f zs m)

  pub mem_of_mem-map {κ} :
      {B : Type κ} (f : A → B) (xs : List A) {y : B}
      → Memᴰ y (map f xs)
      → (x : A) × Memᴰ x xs × (y ≡ f x)
  mem_of_mem-map f [] m = elim m [ ]
  mem_of_mem-map f (z ∷ zs) m = elim (mem-cons-cases m) [
    | inl e ↦ (z, Memᴰ.head refl, e)
    | inr k ↦ let (x, mx, e) = mem_of_mem-map f zs k in (x, Memᴰ.tail mx, e)
  ]

  pub mem-append_left : (xs ys : List A) {x : A} → Memᴰ x xs → Memᴰ x (xs ++ ys)
  mem-append_left [] ys m = elim m [ ]
  mem-append_left (z ∷ zs) ys (Memᴰ.head e) = Memᴰ.head e
  mem-append_left (z ∷ zs) ys (Memᴰ.tail m) = Memᴰ.tail (mem-append_left zs ys m)

  pub mem-append_right : (xs ys : List A) {x : A} → Memᴰ x ys → Memᴰ x (xs ++ ys)
  mem-append_right [] ys m = m
  mem-append_right (z ∷ zs) ys m = Memᴰ.tail (mem-append_right zs ys m)

  pub mem-append-cases : (xs ys : List A) {x : A} → Memᴰ x (xs ++ ys) → Memᴰ x xs ⊎ Memᴰ x ys
  mem-append-cases [] ys m = inr m
  mem-append-cases (z ∷ zs) ys m = elim (mem-cons-cases m) [
    | inl e ↦ inl (Memᴰ.head e)
    | inr k ↦ elim (mem-append-cases zs ys k) [ inl a ↦ inl (Memᴰ.tail a) | inr b ↦ inr b ]
  ]

-- `x IN (...)` and Python's `in`, on numbers.
abbrev pub elem : ℕ → List ℕ → Bool
elem i = any (λ j. i == j)

pub elem_of_mem : (i : ℕ) (xs : List ℕ) → Memᴰ i xs → elem i xs ≡ true
elem_of_mem i xs m = any_of_mem _ xs m (ground arith)

pub mem_of_elem : (i : ℕ) (xs : List ℕ) → elem i xs ≡ true → Memᴰ i xs
mem_of_elem i [] h = cc
mem_of_elem i (j ∷ xs) h = elim (Bool-cases (i == j)) [
  | inl t ↦ Memᴰ.head ((==_iff i j).0 t)
  | inr f ↦ Memᴰ.tail (mem_of_elem i xs (ground arith))
]
