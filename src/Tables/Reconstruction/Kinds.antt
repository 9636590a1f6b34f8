-- ===== src/Tables/Reconstruction/Kinds.antt =====
-- The statement that a table belongs to and the unit of its values, in
-- src/processing/tables/reconstruction.py.
use evidence_first_investmen.Base.{
  ℕ, String, Bool, true, not, ◌&&◌, Option, none, some, List, [], ◌∷◌, ◌++◌, map, select, length,
  ltb, leb, if◌then◌else◌, is_empty, strip, take_chars, count_chars, split_lines, words, join,
  present,
}
use evidence_first_investmen.Ocr.{Score, finite}
use evidence_first_investmen.Base.{pos}
use evidence_first_investmen.Regex.{Pattern, Match, TextLibrary}
use evidence_first_investmen.Sections.{StatementSection, same_section}
use evidence_first_investmen.Sections.Headings.{HeadingRule, is_seen, match_heading_line}
use evidence_first_investmen.Tables.{ExtractedRow, ExtractedTable}
use evidence_first_investmen.Tables.Reconstruction.{TableType, ReconstructionContext}
use evidence_first_investmen.Tables.Reconstruction.Rows.{visible_texts, row_joined}

-- A heading: the section, the text of the line and the confidence of the rule.
pub record Heading : Type 0 where
  pub section : StatementSection
  pub text : String
  pub confidence : Score

-- `best` and `best_priority`, which is -1 where there is none.
pub record Best : Type 0 where
  pub heading : Heading
  pub priority : ℕ

abbrev pub heading_of : HeadingRule → String → Heading
heading_of r text = record { section = r.section; text = text; confidence = r.confidence }

abbrev pub type_of_section : StatementSection → TableType
type_of_section StatementSection.balance_sheet = TableType.balance_sheet
type_of_section StatementSection.income_statement = TableType.income_statement
type_of_section StatementSection.cash_flow_statement = TableType.cash_flow_statement
type_of_section StatementSection.notes = TableType.notes

abbrev pub section_text : StatementSection → String
section_text StatementSection.balance_sheet = "balance_sheet"
section_text StatementSection.income_statement = "income_statement"
section_text StatementSection.cash_flow_statement = "cash_flow_statement"
section_text StatementSection.notes = "notes"

abbrev pub beats : HeadingRule → Option Best → Bool
beats r none = true
beats r (some b) = ltb b.priority r.priority

-- `section` is none, or is this one.
abbrev pub agrees : StatementSection → Option StatementSection → Bool
agrees s none = true
agrees s (some t) = same_section t s

abbrev pub section_of : Option Heading → Option StatementSection
section_of none = none
section_of (some h) = some h.section

pub record ResolvedType : Type 0 where
  pub table_type : TableType
  pub confidence : Option Score
  pub matched_text : Option String
  pub warnings : List String

abbrev pub resolved : Option Heading → List String → ResolvedType
resolved none warnings = record {
  table_type = TableType.unknown;
  confidence = none;
  matched_text = none;
  warnings = warnings;
}
resolved (some h) warnings = record {
  table_type = type_of_section h.section;
  confidence = some h.confidence;
  matched_text = some h.text;
  warnings = warnings;
}

abbrev pub hint_heading : StatementSection → Heading
hint_heading s = record { section = s; text = section_text s; confidence = finite (pos 7000) }

abbrev pub not_empty : String → Bool
not_empty t = not (is_empty t)

abbrev pub or_else {ℓ} : {A : Type ℓ} → Option A → Option A → Option A
or_else none b = b
or_else (some a) b = some a

module _ (library : TextLibrary) where
  abbrev pub best_line : Option Best → List String → Option Best
  best_line best [] = best
  best_line best (line ∷ lines) = elim (match_heading_line library line) [
    | none ↦ best_line best lines
    | some r ↦
        best_line
          (if beats r best
            then some record { heading = heading_of r (strip line); priority = r.priority }
            else best)
          lines
  ]

  abbrev pub heading_of_start : String → Option Heading
  heading_of_start text =
      let start = take_chars 180 (strip text) in
      elim (match_heading_line library start) [ none ↦ none | some r ↦ some (heading_of r start) ]

  unfoldable pub heading_from_text : String → Option Heading
  unfolding match_heading_line split_lines
  heading_from_text text = elim (best_line none (split_lines text)) [
    | some b ↦ some b.heading
    | none ↦ heading_of_start text
  ]

  -- The sections that the lines name, each once.
  abbrev pub sections_in : List StatementSection → List String → List StatementSection
  sections_in found [] = found
  sections_in found (line ∷ lines) = elim (match_heading_line library line) [
    | none ↦ sections_in found lines
    | some r ↦ sections_in (if is_seen r.section found then found else r.section ∷ found) lines
  ]

  unfoldable pub collect_section_hits_in_text : String → List StatementSection
  unfolding match_heading_line split_lines
  collect_section_hits_in_text text = sections_in [] (split_lines text)

  abbrev pub caption_of : Option Match → Option String
  caption_of none = none
  caption_of (some m) =
      let captured = join " " (words m.captured) in
      if not_empty captured && leb (count_chars captured) 120 then some captured else none

  abbrev pub scale_of : Option Match → Option String
  scale_of none = none
  scale_of (some m) = present (some (strip m.whole))

  abbrev pub unit_in : Option String → Option String
  unit_in none = none
  unit_in (some blob) =
      or_else (caption_of (library.search Pattern.unit_caption blob))
        (scale_of (library.search Pattern.unit_scale blob))

  unfoldable pub extract_unit_text : List (Option String) → Option String
  unfolding words
  extract_unit_text [] = none
  extract_unit_text (blob ∷ blobs) = or_else (unit_in (present blob)) (extract_unit_text blobs)

  -- The heading in the surrounding text, unless it names several sections and nothing else decides.
  abbrev pub surrounding_heading :
      Option String → Option Heading → Option StatementSection → Option Heading × List String
  surrounding_heading none internal hint = (none, [])
  surrounding_heading (some text) (some h) hint = (heading_from_text text, [])
  surrounding_heading (some text) none (some s) = (heading_from_text text, [])
  surrounding_heading (some text) none none =
      if ltb 1 (length (collect_section_hits_in_text text))
      then (none, "ambiguous_section_context" ∷ [])
      else (heading_from_text text, [])

  abbrev pub choose :
      Option Heading → Option StatementSection → Option Heading × List String → ResolvedType
  choose (some h) hint (surrounding, warnings) = resolved (some h) (
      warnings
      ++ (if agrees h.section hint && agrees h.section (section_of surrounding)
          then []
          else "conflicting_table_type" ∷ []))
  choose none (some s) (surrounding, warnings) = resolved (some (hint_heading s)) warnings
  choose none none (surrounding, warnings) = resolved surrounding warnings

  abbrev pub internal_heading : List ExtractedRow → Option Heading
  internal_heading rows =
      let text = join "\n" (select not_empty (map row_joined rows)) in
      if is_empty text then none else heading_from_text text

  unfoldable pub resolve_type : ExtractedTable → ReconstructionContext → ResolvedType
  unfolding visible_texts heading_from_text collect_section_hits_in_text
  resolve_type table context =
      let internal = internal_heading table.rows in
      choose internal context.section_hint
        (surrounding_heading (present context.surrounding_text) internal context.section_hint)
