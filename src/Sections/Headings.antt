-- ===== src/Sections/Headings.antt =====
-- The heading rules of src/processing/sections/headings.py, with `fold_text` of
-- src/processing/classify/patterns.py.
use Prim.Native.Char.{Char, char, code}
use evidence_first_investmen.Base.{
  ℕ, pos, ◌+◌, String, Bool, ◌&&◌, ◌||◌, Option, none, some, List, [], ◌∷◌, any, ltb, ◌==◌,
  if◌then◌else◌, is_empty, count_chars, strip, rstrip_with, lines_kept,
}
use evidence_first_investmen.Ocr.{Score, finite}
use evidence_first_investmen.Regex.{Pattern, TextLibrary, is_found}
use evidence_first_investmen.Sections.{StatementSection, SectionHit, same_section}

pub record HeadingRule : Type 0 where
  pub section : StatementSection
  pub pattern : Pattern
  pub confidence : Score
  pub name : String
  pub priority : ℕ

abbrev rule : StatementSection → Pattern → ℕ → String → ℕ → HeadingRule
rule section pattern confidence name priority = record {
  section = section;
  pattern = pattern;
  confidence = finite (pos confidence);
  name = name;
  priority = priority;
}

-- In the order of `sorted`: the priorities fall, and equal ones stay as they are written.
abbrev pub heading_rules : List HeadingRule
heading_rules =
    rule StatementSection.notes Pattern.vi_notes 9200 "vi_notes" 100
    ∷ rule StatementSection.balance_sheet Pattern.vi_balance_sheet 9500 "vi_balance_sheet" 90
    ∷ rule StatementSection.income_statement Pattern.vi_income_statement 9500 "vi_income_statement"
        90
    ∷ rule StatementSection.cash_flow_statement Pattern.vi_cash_flow 9500 "vi_cash_flow" 90
    ∷ rule StatementSection.notes Pattern.en_notes 8200 "en_notes" 50
    ∷ rule StatementSection.balance_sheet Pattern.en_balance_sheet 8500 "en_balance_sheet" 40
    ∷ rule StatementSection.income_statement Pattern.en_income_statement 8500 "en_income_statement"
        40
    ∷ rule StatementSection.cash_flow_statement Pattern.en_cash_flow 8500 "en_cash_flow" 40
    ∷ rule StatementSection.notes Pattern.vi_notes_short_heading 7500 "vi_notes_short_heading" 30
    ∷ []

abbrev pub letter_d : Char
letter_d = char 100 tt

abbrev pub space : Char
space = char 32 tt

-- The letters that NFKD does not take apart are mapped first; afterwards separators become spaces.
abbrev pub map_letters : String → String
map_letters String.[] = String.[]
map_letters (String.◌∷◌ c s) =
    String.◌∷◌ (if code c == 273 || code c == 272 || code c == 208 then letter_d else c)
      (map_letters s)

abbrev pub drop_marks : (Char → Bool) → String → String
drop_marks is_combining String.[] = String.[]
drop_marks is_combining (String.◌∷◌ c s) =
    let rest = drop_marks is_combining s in if is_combining c then rest else String.◌∷◌ c rest

abbrev pub space_separators : String → String
space_separators String.[] = String.[]
space_separators (String.◌∷◌ c s) =
    String.◌∷◌ (if code c == 95 || code c == 45 || code c == 46 then space else c)
      (space_separators s)

abbrev pub is_seen : StatementSection → List StatementSection → Bool
is_seen section seen = any (λ s. same_section section s) seen

module _ (library : TextLibrary) where
  unfoldable pub fold_text : String → String
  fold_text value =
      space_separators (drop_marks library.is_combining (library.normalize (map_letters value)))

  abbrev pub first_rule : String → List HeadingRule → Option HeadingRule
  first_rule folded [] = none
  first_rule folded (r ∷ rules) =
      if is_found (library.search r.pattern folded) then some r else first_rule folded rules

  unfoldable pub match_heading_line : String → Option HeadingRule
  unfolding fold_text
  match_heading_line line =
      let stripped = strip line in
      if is_empty stripped || ltb 180 (count_chars stripped)
      then none
      else first_rule (fold_text stripped) heading_rules

  abbrev pub is_line_end : Char → Bool
  is_line_end c = code c == 13 || code c == 10

  abbrev pub hit_of : HeadingRule → String → Option ℕ → ℕ → SectionHit
  hit_of r content page_number offset = record {
    section = r.section;
    matched_rule = r.name;
    matched_text = strip content;
    confidence = r.confidence;
    page_number = page_number;
    start_char = some offset;
  }

  -- The loop over the lines, from an offset and the sections seen before.
  unfoldable pub collect_lines :
      Option ℕ → Bool → ℕ → List StatementSection → List String → List SectionHit
  unfolding match_heading_line
  collect_lines page_number one_hit offset seen [] = []
  collect_lines page_number one_hit offset seen (line ∷ lines) =
      let content = rstrip_with is_line_end line in
      let next = offset + count_chars line in
      elim (match_heading_line content) [
        | none ↦ collect_lines page_number one_hit next seen lines
        | some r ↦
            let repeated = one_hit && is_seen r.section seen in
            let rest =
              collect_lines page_number one_hit next (if repeated then seen else r.section ∷ seen)
                lines in
            if repeated then rest else hit_of r content page_number offset ∷ rest
      ]

  unfoldable pub collect_section_hits : String → Option ℕ → Bool → List SectionHit
  unfolding collect_lines lines_kept
  collect_section_hits text page_number one_hit =
      collect_lines page_number one_hit 0 [] (lines_kept text)
