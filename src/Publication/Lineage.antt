-- ===== src/Publication/Lineage.antt =====
-- `link_child_to_parent_and_update_latest` of src/db/repositories/source_publication.py.
--
-- `_find_root` and the recursive query walk until they find nothing more, so they take fuel, and
-- `out_of_fuel` says that the walk had not ended. The recursive query is run as the database runs
-- it: a working table of ids is joined with the rows below it until the join is empty.
pub mod Descent
mod Order
pub mod Clearing
pub mod Steps
pub mod Latest
pub mod Trees
pub mod Effects
pub mod Stranded
pub mod Cycle
pub mod Forest
pub mod Total
use evidence_first_investmen.Base.{
  ℕ, zero, suc, Bool, true, false, not, ◌&&◌, ◌||◌, Option, none, some, List, [], ◌∷◌, ◌++◌, map,
  any, elem, ◌==◌, ltb, leb, select, update_where, if◌then◌else◌, Outcome, ok, raise, out_of_fuel,
  sqlalchemy_error, Error, error, ◌>>=◌,
}
use evidence_first_investmen.Publication.{Publication, has_id}

-- What `scalar_one` raises on no row.
abbrev pub no_result_found : Error
no_result_found = error sqlalchemy_error "NoResultFound" "No row was found when one was required"

unfoldable pub find_row : ℕ → List Publication → Option Publication
find_row i [] = none
find_row i (r ∷ rows) = if has_id i r then some r else find_row i rows

-- SELECT parent_publication_id WHERE id = current: `scalar_one` raises where no row has the id.
unfoldable pub select_parent : List Publication → ℕ → Outcome (Option ℕ)
unfolding find_row
select_parent rows current = elim (find_row current rows) [
  | none ↦ raise no_result_found
  | some r ↦ ok r.parent_publication_id
]

-- `while True`
unfoldable pub find_root : ℕ → List Publication → ℕ → Outcome ℕ
unfolding select_parent
find_root zero rows current = out_of_fuel
find_root (suc fuel) rows current = do
  parent ← select_parent rows current
  elim parent [ none ↦ ok current | some p ↦ find_root fuel rows p ]

abbrev pub has_parent : ℕ → Publication → Bool
has_parent p r = elim r.parent_publication_id [ none ↦ false | some q ↦ q == p ]

abbrev pub ids : List Publication → List ℕ
ids = map (λ r. r.id)

-- The join of the working table with the rows whose parent it names.
unfoldable pub children : List Publication → List ℕ → List ℕ
children rows [] = []
children rows (p ∷ frontier) = ids (select (has_parent p) rows) ++ children rows frontier

unfoldable pub lineage_from : ℕ → List Publication → List ℕ → Outcome (List ℕ)
lineage_from zero rows frontier = out_of_fuel
lineage_from (suc fuel) rows [] = ok []
lineage_from (suc fuel) rows (i ∷ frontier) = do
  below ← lineage_from fuel rows (children rows (i ∷ frontier))
  ok ((i ∷ frontier) ++ below)

unfoldable pub lineage : ℕ → List Publication → ℕ → Outcome (List ℕ)
unfolding lineage_from children
lineage fuel rows root = lineage_from fuel rows (ids (select (has_id root) rows))

unfoldable pub lock_and_clear_latest : ℕ → ℕ → ℕ → List Publication → Outcome (List Publication)
unfolding lineage
lock_and_clear_latest fuel now root rows = do
  found ← lineage fuel rows root
  ok (
      update_where (λ r. elem r.id found)
        (λ r. record r { is_latest_version = false; updated_at = now }) rows)

-- DESC puts a missing time first.
abbrev pub published_after : Option ℕ → Option ℕ → Bool
published_after none none = false
published_after none (some y) = true
published_after (some x) none = false
published_after (some x) (some y) = ltb y x

-- ORDER BY published_at DESC, id::text DESC
abbrev pub sorts_before : Publication → Publication → Bool
sorts_before a b =
    published_after a.published_at b.published_at
    || (not (published_after b.published_at a.published_at) && leb b.id a.id)

-- LIMIT 1
unfoldable pub first_row : List Publication → Option Publication
first_row [] = none
first_row (r ∷ rows) = elim (first_row rows) [
  | none ↦ some r
  | some s ↦ some (if sorts_before r s then r else s)
]

abbrev pub is_leaf : List Publication → Publication → Bool
is_leaf rows r = not (any (has_parent r.id) rows)

-- `result.scalar_one()`
abbrev pub scalar_one {ℓ} : {A : Type ℓ} → Option A → Outcome A
scalar_one none = raise no_result_found
scalar_one (some a) = ok a

unfoldable pub latest_leaf : ℕ → List Publication → ℕ → Outcome Publication
unfolding lineage first_row
latest_leaf fuel rows root = do
  found ← lineage fuel rows root
  scalar_one (first_row (select (λ r. elem r.id found && is_leaf rows r) rows))

abbrev pub roots_to_clear : ℕ → ℕ → List ℕ
roots_to_clear child_root parent_root =
    if child_root == parent_root
    then child_root ∷ []
    else if leb child_root parent_root
    then child_root ∷ parent_root ∷ []
    else parent_root ∷ child_root ∷ []

unfoldable pub clear_all : ℕ → ℕ → List ℕ → List Publication → Outcome (List Publication)
unfolding lock_and_clear_latest
clear_all fuel now [] rows = ok rows
clear_all fuel now (root ∷ roots) rows = do
  cleared ← lock_and_clear_latest fuel now root rows
  clear_all fuel now roots cleared

abbrev pub set_parent : ℕ → ℕ → ℕ → List Publication → List Publication
set_parent now child parent =
    update_where (has_id child)
      (λ r. record r { parent_publication_id = some parent; updated_at = now })

abbrev pub set_latest : ℕ → ℕ → List Publication → List Publication
set_latest now i =
    update_where (has_id i) (λ r. record r { is_latest_version = true; updated_at = now })

unfoldable pub link : ℕ → ℕ → ℕ → ℕ → List Publication → Outcome (List Publication)
unfolding find_root clear_all latest_leaf
link fuel now child parent rows = do
  child_root ← find_root fuel rows child
  parent_root ← find_root fuel rows parent
  cleared ← clear_all fuel now (roots_to_clear child_root parent_root) rows
  let linked = set_parent now child parent cleared
  latest ← latest_leaf fuel linked parent_root
  ok (set_latest now latest.id linked)
