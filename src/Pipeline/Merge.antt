-- ===== src/Pipeline/Merge.antt =====
-- The merges of src/processing/pipeline.py: section hits, tables, and the texts of pages. A dict is
-- the list of its items in the order of their insertion.
pub mod Kept
use evidence_first_investmen.Base.{
  ℕ, ℤ, pos, ◌+◌, ◌*◌, ◌≤◌, String, Bool, true, false, not, ◌&&◌, ◌||◌, Option, none, some, List,
  [], ◌∷◌, ◌++◌, map, any, select, length, ltb, leb, ◌==◌, if◌then◌else◌, ◌-ℤ◌, ◌*ℤ◌, ltb_ℤ, leb_ℤ,
  str_eq, is_empty, join, ◌<>◌,
}
use evidence_first_investmen.Domain.Block.{BoundingBox}
use evidence_first_investmen.Sections.{
  StatementSection, SectionHit, SectionDetectionResult, same_section,
}
use evidence_first_investmen.Tables.{
  ExtractedCell, ExtractedRow, ExtractedTable, TableExtractionResult, has_any,
}

abbrev pub same_page : Option ℕ → Option ℕ → Bool
same_page none none = true
same_page none (some p) = false
same_page (some p) none = false
same_page (some p) (some q) = p == q

-- `hit.page_number == page`
abbrev pub is_on_page : ℕ → SectionHit → Bool
is_on_page page hit = same_page hit.page_number (some page)

-- The section that all hits of the page name, if there is one.
abbrev pub only_section : List SectionHit → Option StatementSection
only_section [] = none
only_section (hit ∷ hits) =
    if any (λ h. not (same_section hit.section h.section)) hits then none else some hit.section

unfoldable pub section_hint_for_page : SectionDetectionResult → ℕ → Option StatementSection
section_hint_for_page sections page = only_section (select (is_on_page page) sections.hits)

-- The key of a hit in `seen`.
abbrev pub same_hit : SectionHit → SectionHit → Bool
same_hit a b =
    same_section a.section b.section
    && same_page a.page_number b.page_number
    && str_eq a.matched_text b.matched_text

unfoldable pub merge_hits : List SectionHit → List SectionHit → List SectionHit
merge_hits merged [] = merged
merge_hits merged (hit ∷ extra) =
    if any (λ seen. same_hit seen hit) merged
    then merge_hits merged extra
    else merge_hits (merged ++ hit ∷ []) extra

unfoldable pub merge_section_hits :
    SectionDetectionResult → SectionDetectionResult → SectionDetectionResult
unfolding merge_hits
merge_section_hits primary extra = record {
  hits = merge_hits primary.hits extra.hits;
  method = primary.method <> "+supplemental_text";
}

abbrev pub min_ℤ : ℤ → ℤ → ℤ
min_ℤ a b = if ltb_ℤ b a then b else a

abbrev pub max_ℤ : ℤ → ℤ → ℤ
max_ℤ a b = if ltb_ℤ a b then b else a

abbrev pub area : BoundingBox → ℤ
area b = (b.x1 -ℤ b.x0) *ℤ (b.y1 -ℤ b.y0)

abbrev pub overlap : BoundingBox → BoundingBox → ℤ
overlap a b =
    max_ℤ (pos 0) (min_ℤ a.x1 b.x1 -ℤ max_ℤ a.x0 b.x0)
    *ℤ max_ℤ (pos 0) (min_ℤ a.y1 b.y1 -ℤ max_ℤ a.y0 b.y0)

-- `smaller_area > 0 and overlap / smaller_area >= 0.8`
abbrev pub boxes_overlap : Option BoundingBox → Option BoundingBox → Bool
boxes_overlap none b = false
boxes_overlap (some a) none = false
boxes_overlap (some a) (some b) =
    let smaller_area = min_ℤ (area a) (area b) in
    ltb_ℤ (pos 0) smaller_area && leb_ℤ (pos 8 *ℤ smaller_area) (pos 10 *ℤ overlap a b)

unfoldable pub raw_table_replaces_native : ExtractedTable → ExtractedTable → Bool
raw_table_replaces_native raw native =
    if not (raw.page == native.page) || any (str_eq "partial_statement_region") raw.warnings
    then false
    else boxes_overlap raw.bbox native.bbox

-- `sorted` by (page, table_index), which keeps the order of equal keys.
abbrev pub sorts_below : ExtractedTable → ExtractedTable → Bool
sorts_below s t = ltb s.page t.page || (s.page == t.page && ltb s.table_index t.table_index)

abbrev pub insert_table : ExtractedTable → List ExtractedTable → List ExtractedTable
insert_table t [] = t ∷ []
insert_table t (s ∷ ts) =
    let rest = insert_table t ts in if sorts_below s t then s ∷ rest else t ∷ s ∷ ts

unfoldable pub sort_tables : List ExtractedTable → List ExtractedTable
sort_tables [] = []
sort_tables (t ∷ ts) = insert_table t (sort_tables ts)

unfoldable pub merge_table_extractions :
    TableExtractionResult → TableExtractionResult → TableExtractionResult
unfolding raw_table_replaces_native sort_tables
merge_table_extractions native raw =
    let native_tables =
      select (λ t. not (any (λ candidate. raw_table_replaces_native candidate t) raw.tables))
        native.tables in
    record {
      tables = sort_tables (native_tables ++ raw.tables);
      page_issues = native.page_issues ++ raw.page_issues;
      context = raw.context;
      warnings = native.warnings ++ raw.warnings;
    }

-- Items whose keys are page numbers.
abbrev pub get {ℓ} : {A : Type ℓ} → ℕ → List (ℕ × A) → Option A
get page [] = none
get page ((p, a) ∷ items) = if p == page then some a else get page items

abbrev pub put {ℓ} : {A : Type ℓ} → ℕ → A → List (ℕ × A) → List (ℕ × A)
put page a [] = (page, a) ∷ []
put page a ((p, b) ∷ items) =
    let rest = put page a items in if p == page then (p, a) ∷ items else (p, b) ∷ rest

abbrev pub value_or {ℓ} : {A : Type ℓ} → A → Option A → A
value_or a none = a
value_or a (some b) = b

abbrev pub insert_page {ℓ} : {A : Type ℓ} → ℕ × A → List (ℕ × A) → List (ℕ × A)
insert_page (p, a) [] = (p, a) ∷ []
insert_page (p, a) ((q, b) ∷ items) =
    let rest = insert_page (p, a) items in
    if ltb q p then (q, b) ∷ rest else (p, a) ∷ (q, b) ∷ items

abbrev pub sort_pages {ℓ} : {A : Type ℓ} → List (ℕ × A) → List (ℕ × A)
sort_pages [] = []
sort_pages (item ∷ items) = insert_page item (sort_pages items)

abbrev pub non_empty : List String → List String
non_empty = select (λ t. not (is_empty t))

abbrev pub row_text : ExtractedRow → String
row_text row = join " " (non_empty (map (λ c. c.raw_text) row.cells))

abbrev pub lines_by_page : List (ℕ × List String) → List ExtractedTable → List (ℕ × List String)
lines_by_page by_page [] = by_page
lines_by_page by_page (t ∷ ts) =
    lines_by_page
      (put t.page (value_or [] (get t.page by_page) ++ non_empty (map row_text t.rows)) by_page) ts

unfoldable pub table_page_texts : TableExtractionResult → List (ℕ × String)
table_page_texts extraction =
    map (λ (page, lines). (page, join "\n" lines))
      (select (λ (page, lines). has_any lines) (sort_pages (lines_by_page [] extraction.tables)))

unfoldable pub merge_page_texts : List (ℕ × String) → List (ℕ × String) → List (ℕ × String)
merge_page_texts merged [] = merged
merge_page_texts merged ((page, text) ∷ extra) =
    if is_empty text
    then merge_page_texts merged extra
    else merge_page_texts
        (put page (join "\n" (non_empty (value_or "" (get page merged) ∷ text ∷ []))) merged) extra
