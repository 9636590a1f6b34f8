-- ===== src/Examples/Lineages.antt =====
-- Small tables of publications (src/db/repositories/source_publication.py).
use evidence_first_investmen.Base.{
  ℕ, ◌+◌, String, Bool, true, false, ◌≡◌, ◌≢◌, refl, sym, ap, ◌∙◌, Option, none, some, List, [],
  ◌∷◌, ◌++◌, Memᴰ, length, ◌==◌, if◌then◌else◌, arith, ok,
}
use evidence_first_investmen.Domain.{ProcessingStatus}
use evidence_first_investmen.Publication.{Details, Publication, ensure, get_by_natural_key}
use evidence_first_investmen.Publication.Ensure.{ensure-get, ensure_again, ensure-AllKept, AllKept}
use evidence_first_investmen.Publication.Lineage.{
  find_row, select_parent, find_root, children, lineage_from, lineage, lock_and_clear_latest,
  first_row, latest_leaf, clear_all, link,
}
use evidence_first_investmen.Publication.Lineage.Descent.{Edge, Descendant, here, below}
use evidence_first_investmen.Publication.Lineage.Trees.{UniqueIds, Top}
use evidence_first_investmen.Publication.Lineage.Latest.{OneLatest, link-OneLatest}
use evidence_first_investmen.Publication.Lineage.Forest.{IsForest}
use evidence_first_investmen.Publication.Lineage.Total.{link-total}
use evidence_first_investmen.Publication.Lineage.Effects.{link-keeps}
use evidence_first_investmen.Publication.Lineage.Stranded.{relink_strands}
use evidence_first_investmen.Publication.Lineage.Cycle.{link_cycle}

abbrev pub details_of : String → ℕ → Details
details_of title published = record {
  title = title;
  document_type = "financial_statement";
  published_at = some published;
  source_updated_date = none;
  published_at_precision = none;
  scope = "consolidated";
  audit_status = "audited";
  language = none;
  source_reference = none;
}

abbrev pub publication : ℕ → String → Option ℕ → ℕ → Bool → ℕ → Publication
publication i document parent published latest updated = record {
  id = i;
  company_id = 7;
  source = "FIXTURE";
  source_document_id = document;
  details = details_of "Report" published;
  period_start = none;
  period_end = none;
  fiscal_year = none;
  fiscal_quarter = none;
  parent_publication_id = parent;
  is_correction = false;
  is_latest_version = latest;
  processing_status = ProcessingStatus.pending;
  created_at = 1;
  updated_at = updated;
}

-- Three documents, each its own lineage.
abbrev three : List Publication
three =
    publication 1 "a" none 10 true 1
    ∷ publication 2 "b" none 20 true 1
    ∷ publication 3 "c" none 30 true 1
    ∷ []

-- After the link of 2 below 1.
abbrev three_linked : List Publication
three_linked =
    publication 1 "a" none 10 false 9
    ∷ publication 2 "b" (some 1) 20 true 9
    ∷ publication 3 "c" none 30 true 1
    ∷ []

root_of_2 : find_root 10 three 2 ≡ ok 2
unfolding find_root select_parent find_row
root_of_2 = refl

root_of_1 : find_root 10 three 1 ≡ ok 1
unfolding find_root select_parent find_row
root_of_1 = refl

three_links : link 10 9 2 1 three ≡ ok three_linked
unfolding link find_root select_parent find_row clear_all lock_and_clear_latest lineage lineage_from
    children latest_leaf first_row
three_links = refl

link-OneLatest_example : OneLatest three_linked 1
link-OneLatest_example = link-OneLatest 10 9 2 1 1 three three_linked root_of_1 three_links

three_are_roots : (r : Publication) → Memᴰ r three → r.parent_publication_id ≡ none
three_are_roots r (Memᴰ.head e) = ap (λ (p : Publication). p.parent_publication_id) e
three_are_roots r (Memᴰ.tail (Memᴰ.head e)) = ap (λ (p : Publication). p.parent_publication_id) e
three_are_roots r (Memᴰ.tail (Memᴰ.tail (Memᴰ.head e))) =
    ap (λ (p : Publication). p.parent_publication_id) e
three_are_roots r (Memᴰ.tail (Memᴰ.tail (Memᴰ.tail m))) = elim m [ ]

no-Edge : {p i : ℕ} → Edge three p i → ⊥
no-Edge e = cc (three_are_roots e.row e.listed, e.up)

only_itself : {a b : ℕ} → Descendant three a b → a ≡ b
only_itself here = refl
only_itself (below d e) = absurd (no-Edge e)

three-IsForest : IsForest (λ _. 0) 1 three
three-IsForest = record {
  falls = λ p i e. absurd (no-Edge e);
  low = λ r m. omega arith;
  listed_parent = λ r m p e. cc (three_are_roots r m, e);
}

link-total_example :
    (rows' : List Publication) × (link 10 9 2 1 three ≡ ok rows')
    × (rank' : ℕ → ℕ) × IsForest rank' (1 + 1) rows'
link-total_example =
    link-total 10 9 2 1 (λ _. 0) 1 three (publication 2 "b" none 20 true 1)
      (publication 1 "a" none 10 true 1) three-IsForest (Memᴰ.tail (Memᴰ.head refl)) refl
      (Memᴰ.head refl) refl (λ d. absurd (ground (arith, only_itself d))) (omega arith)

link-keeps_example : Memᴰ (publication 3 "c" none 30 true 1) three_linked
link-keeps_example =
    link-keeps 10 9 2 1 2 1 three three_linked root_of_2 root_of_1 three_links
      (publication 3 "c" none 30 true 1) (Memᴰ.tail (Memᴰ.tail (Memᴰ.head refl)))
      (λ d. absurd (ground (arith, only_itself d))) (λ d. absurd (ground (arith, only_itself d)))

-- 2 supersedes 1, and 3 is another lineage.
abbrev chain_and_root : List Publication
chain_and_root =
    publication 1 "a" none 10 false 1
    ∷ publication 2 "b" (some 1) 20 true 1
    ∷ publication 3 "c" none 30 true 1
    ∷ []

-- After the link of 2 below 3.
abbrev relinked : List Publication
relinked =
    publication 1 "a" none 10 false 9
    ∷ publication 2 "b" (some 3) 20 true 9
    ∷ publication 3 "c" none 30 false 9
    ∷ []

abbrev row_of : ℕ → Publication
row_of i =
    if i == 1
    then publication 1 "a" none 10 false 1
    else if i == 2
    then publication 2 "b" (some 1) 20 true 1
    else publication 3 "c" none 30 true 1

named_row : (r : Publication) → Memᴰ r chain_and_root → r ≡ row_of r.id
named_row r (Memᴰ.head e) = e ∙ sym (ap (λ (p : Publication). row_of p.id) e)
named_row r (Memᴰ.tail (Memᴰ.head e)) = e ∙ sym (ap (λ (p : Publication). row_of p.id) e)
named_row r (Memᴰ.tail (Memᴰ.tail (Memᴰ.head e))) =
    e ∙ sym (ap (λ (p : Publication). row_of p.id) e)
named_row r (Memᴰ.tail (Memᴰ.tail (Memᴰ.tail m))) = elim m [ ]

chain-UniqueIds : UniqueIds chain_and_root
chain-UniqueIds r s m n e = named_row r m ∙ ap row_of e ∙ sym (named_row s n)

chain_root : find_root 10 chain_and_root 2 ≡ ok 1
unfolding find_root select_parent find_row
chain_root = refl

other_root : find_root 10 chain_and_root 3 ≡ ok 3
unfolding find_root select_parent find_row
other_root = refl

chain_links : link 10 9 2 3 chain_and_root ≡ ok relinked
unfolding link find_root select_parent find_row clear_all lock_and_clear_latest lineage lineage_from
    children latest_leaf first_row
chain_links = refl

relink_strands_example :
    Top relinked 1
    × ((r : Publication)
        → Memᴰ r relinked
        → Descendant relinked 1 r.id
        → r.is_latest_version ≡ false)
relink_strands_example =
    relink_strands 10 9 2 3 1 3 chain_and_root relinked chain-UniqueIds chain_root other_root
      (λ e. absurd (ground (arith, e))) (λ e. absurd (ground (arith, e))) chain_links

-- A link of 1 below its own successor.
link_cycle_example : link 10 9 1 2 chain_and_root ≢ ok relinked
link_cycle_example =
    link_cycle 10 9 1 2 chain_and_root relinked chain-UniqueIds
      (record {
        top = publication 1 "a" none 10 false 1;
        listed = Memᴰ.head refl;
        named = refl;
        no_parent = refl;
      })
      (below here (record {
        row = publication 2 "b" (some 1) 20 true 1;
        listed = Memᴰ.tail (Memᴰ.head refl);
        named = refl;
        up = refl;
      }))

-- A second discovery of "b", with a new title.
abbrev rediscovered : Publication
rediscovered = record (publication 4 "b" none 20 true 5) {
  details = details_of "Restated report" 21;
}

ensure-get_example :
    (r : Publication) × (get_by_natural_key "FIXTURE" "b" (ensure rediscovered three).0 ≡ some r)
    × (r.id ≡ (ensure rediscovered three).1)
    × (r.details ≡ details_of "Restated report" 21)
ensure-get_example = ensure-get rediscovered three

ensure_again_example :
    ((ensure rediscovered (ensure (publication 4 "b" none 20 true 5) three).0).1
      ≡ (ensure (publication 4 "b" none 20 true 5) three).1)
    × ((ensure rediscovered (ensure (publication 4 "b" none 20 true 5) three).0).2 ≡ false)
    × (length (ensure rediscovered (ensure (publication 4 "b" none 20 true 5) three).0).0
        ≡ length (ensure (publication 4 "b" none 20 true 5) three).0)
ensure_again_example = ensure_again (publication 4 "b" none 20 true 5) rediscovered three refl refl

ensure-AllKept_example :
    (front : List Publication) × AllKept rediscovered three front
    × ((ensure rediscovered three).0
        ≡ front ++ (if (ensure rediscovered three).2 then rediscovered ∷ [] else []))
ensure-AllKept_example = ensure-AllKept rediscovered three
