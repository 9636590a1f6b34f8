-- ===== src/Publication/Lineage/Order.antt =====
-- The order of the query that picks the newest leaf.
use evidence_first_investmen.Base.{
  ◌≡◌, refl, sym, inl, inr, true, false, none, some, List, [], ◌∷◌, Memᴰ, arith, mem-cons-cases,
  Bool-cases, Option-cases, some_inj, if◌then◌else◌,
}
use evidence_first_investmen.Publication.{Publication}
use evidence_first_investmen.Publication.Lineage.{first_row, sorts_before}

pub sorts_before_refl : (a : Publication) → sorts_before a a ≡ true
sorts_before_refl a = ground arith

sorts_before_total : (a b : Publication) → sorts_before a b ≡ false → sorts_before b a ≡ true
sorts_before_total a b h = ground arith

sorts_before_trans :
    (a b c : Publication)
    → sorts_before a b ≡ true
    → sorts_before b c ≡ true
    → sorts_before a c ≡ true
sorts_before_trans a b c h k = ground arith

first_row-none : (rows : List Publication) → first_row rows ≡ none → rows ≡ []
unfolding first_row
first_row-none [] h = refl
first_row-none (r ∷ rows) h = ground arith

-- LIMIT 1 returns a row of the query that sorts before every other.
pub first_row-first :
    (rows : List Publication) {r : Publication}
    → first_row rows ≡ some r
    → Memᴰ r rows × ((s : Publication) → Memᴰ s rows → sorts_before r s ≡ true)
unfolding first_row
first_row-first [] h = cc
first_row-first (t ∷ rows) {r} h = elim (Option-cases (first_row rows)) [
  | inl nothing ↦
      let e : t ≡ r = some_inj (rw (nothing, first_row) at h) in
      (
        Memᴰ.head (sym e),
        λ s m. elim (mem-cons-cases m) [
          | inl same ↦ rw (same, sym e) (sorts_before_refl t)
          | inr later ↦ elim (rw (first_row-none rows nothing) at later) [ ]
        ],
      )
  | inr (u, found) ↦
      let (mu, above) = first_row-first rows found in
      let h' : (if sorts_before t u then t else u) ≡ r = some_inj (rw (found, first_row) at h) in
      elim (Bool-cases (sorts_before t u)) [
        | inl first ↦
            let e : t ≡ r = rw first at h' in
            (
              Memᴰ.head (sym e),
              λ s m. rw (sym e) (elim (mem-cons-cases m) [
                | inl same ↦ rw same (sorts_before_refl t)
                | inr later ↦ sorts_before_trans t u s first (above s later)
              ]),
            )
        | inr second ↦
            let e : u ≡ r = rw second at h' in
            (
              rw (sym e) (Memᴰ.tail mu),
              λ s m. rw (sym e) (elim (mem-cons-cases m) [
                | inl same ↦ rw same (sorts_before_total t u second)
                | inr later ↦ above s later
              ]),
            )
      ]
]

pub first_row-some :
    (rows : List Publication) {s : Publication}
    → Memᴰ s rows
    → (r : Publication) × (first_row rows ≡ some r)
unfolding first_row
first_row-some [] m = elim m [ ]
first_row-some (t ∷ rows) m = elim (Option-cases (first_row rows)) [
  | inl nothing ↦ (t, rw (nothing, first_row))
  | inr (u, found) ↦ ((if sorts_before t u then t else u), rw (found, first_row))
]
