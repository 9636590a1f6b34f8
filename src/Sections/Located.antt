-- ===== src/Sections/Located.antt =====
-- Where the hits of src/processing/sections/headings.py stand in the text.
use evidence_first_investmen.Base.{
  ℕ, ◌+◌, String, Bool, true, false, ◌&&◌, ◌||◌, ◌≡◌, refl, ap, ◌∙◌, inl, inr, Option, some, List,
  [], ◌∷◌, ◌++◌, Memᴰ, mem-cons-cases, Bool-cases, Option-cases, arith, count_chars, strip,
  rstrip_with, lines_kept,
}
use evidence_first_investmen.Sections.Lines.{concat, IsSplit, concat-lines_kept, lines_kept-IsSplit}
use evidence_first_investmen.Regex.{TextLibrary}
use evidence_first_investmen.Sections.{StatementSection, SectionHit, same_section}
use evidence_first_investmen.Sections.Headings.{
  HeadingRule, is_seen, is_line_end, match_heading_line, collect_lines, collect_section_hits,
}

-- How many characters the lines have together.
abbrev pub total_chars : List String → ℕ
total_chars [] = 0
total_chars (l ∷ ls) = count_chars l + total_chars ls

-- The hit's line, the lines around it, and the rule that found it.
pub record Located (library : TextLibrary) (lines : List String) (page_number : Option ℕ)
    (offset : ℕ) (hit : SectionHit) : Type 0 where
  pub before : List String
  pub line : String
  pub after : List String
  pub parts : lines ≡ before ++ (line ∷ after)
  pub start : hit.start_char ≡ some (offset + total_chars before)
  pub rule : HeadingRule
  pub found : match_heading_line library (rstrip_with (is_line_end library) line) ≡ some rule
  pub section : hit.section ≡ rule.section
  pub text : hit.matched_text ≡ strip (rstrip_with (is_line_end library) line)
  pub page : hit.page_number ≡ page_number

module _ (library : TextLibrary) (page_number : Option ℕ) (one_hit : Bool) where
  later :
      (line : String) (lines : List String) (offset : ℕ) (hit : SectionHit)
      → Located library lines page_number (offset + count_chars line) hit
      → Located library (line ∷ lines) page_number offset hit
  later line lines offset hit d = record {
    before = line ∷ d.before;
    line = d.line;
    after = d.after;
    parts = ap (λ rest. line ∷ rest) d.parts;
    start = d.start ∙ ap some (omega arith);
    rule = d.rule;
    found = d.found;
    section = d.section;
    text = d.text;
    page = d.page;
  }

  collect_lines-Located :
      (offset : ℕ) (seen : List StatementSection) (lines : List String) (hit : SectionHit)
      → Memᴰ hit (collect_lines library page_number one_hit offset seen lines)
      → Located library lines page_number offset hit
  unfolding collect_lines
  collect_lines-Located offset seen [] hit m = elim m [ ]
  collect_lines-Located offset seen (line ∷ lines) hit m =
      let next = offset + count_chars line in
      elim (Option-cases (match_heading_line library (rstrip_with (is_line_end library) line))) [
        | inl e ↦
            later line lines offset hit
              (collect_lines-Located next seen lines hit (rw (e, collect_lines) at m))
        | inr (r, e) ↦
            let m' = rw (e, collect_lines) at m in
            elim (Bool-cases (one_hit && is_seen r.section seen)) [
              | inl t ↦
                  later line lines offset hit
                    (collect_lines-Located next seen lines hit (rw t at m'))
              | inr f ↦ elim (mem-cons-cases (rw f at m')) [
                | inr n ↦
                    later line lines offset hit
                      (collect_lines-Located next (r.section ∷ seen) lines hit n)
                | inl same ↦ record {
                  before = [];
                  line = line;
                  after = lines;
                  parts = refl;
                  start = ap (λ (h : SectionHit). h.start_char) same ∙ ap some (omega arith);
                  rule = r;
                  found = e;
                  section = ap (λ (h : SectionHit). h.section) same;
                  text = ap (λ (h : SectionHit). h.matched_text) same;
                  page = ap (λ (h : SectionHit). h.page_number) same;
                }
              ]
            ]
      ]

-- Each hit comes from a line of the text. The lines make up the text, they are cut at each boundary of
-- `str.splitlines` and nowhere else, the hit starts where its line does, and its section and its text
-- are those of the rule that matches this line.
pub collect_section_hits-Located :
    (library : TextLibrary) (text : String) (page_number : Option ℕ) (one_hit : Bool)
    (hit : SectionHit)
    → Memᴰ hit (collect_section_hits library text page_number one_hit)
    → (lines : List String) × (concat lines ≡ text)
      × IsSplit lines
      × Located library lines page_number 0 hit
unfolding collect_section_hits
collect_section_hits-Located library text page_number one_hit hit m = (
  lines_kept text,
  concat-lines_kept text,
  lines_kept-IsSplit text,
  collect_lines-Located library page_number one_hit 0 [] (lines_kept text) hit m,
)

-- No two hits name one section.
abbrev pub IsDistinct : List SectionHit → Type 0
IsDistinct [] = Unit {0}
IsDistinct (h ∷ hits) =
    ((g : SectionHit) → Memᴰ g hits → same_section g.section h.section ≡ false) × IsDistinct hits

module _ (library : TextLibrary) (page_number : Option ℕ) where
  -- The hits avoid the sections seen before, and each other.
  collect_lines-Fresh :
      (offset : ℕ) (seen : List StatementSection) (lines : List String)
      → ((g : SectionHit)
          → Memᴰ g (collect_lines library page_number true offset seen lines)
          → is_seen g.section seen ≡ false)
        × IsDistinct (collect_lines library page_number true offset seen lines)
  unfolding collect_lines
  collect_lines-Fresh offset seen [] = ((λ g m. elim m [ ]), tt)
  collect_lines-Fresh offset seen (line ∷ lines) =
      let next = offset + count_chars line in
      elim (Option-cases (match_heading_line library (rstrip_with (is_line_end library) line))) [
        | inl e ↦ rw (e, collect_lines) (collect_lines-Fresh next seen lines)
        | inr (r, e) ↦
            rw (e, collect_lines)
              (elim (Bool-cases (is_seen r.section seen)) [
                | inl t ↦ rw t (collect_lines-Fresh next seen lines)
                | inr f ↦
                    let (fresh, distinct) = collect_lines-Fresh next (r.section ∷ seen) lines in
                    rw f (
                      (λ g m. elim (mem-cons-cases m) [
                        | inl same ↦ ap (λ (h : SectionHit). is_seen h.section seen) same ∙ f
                        | inr n ↦ or-right _ _ (fresh g n)
                      ]),
                      ((λ g m. or-left _ _ (fresh g m)), distinct),
                    )
              ])
      ]
    where
      or-left : (a b : Bool) → (a || b) ≡ false → a ≡ false
      or-left a b h = ground arith

      or-right : (a b : Bool) → (a || b) ≡ false → b ≡ false
      or-right a b h = ground arith

-- With one hit for each section, which is how pages are read, no section is hit twice.
pub collect_section_hits-IsDistinct :
    (library : TextLibrary) (text : String) (page_number : Option ℕ)
    → IsDistinct (collect_section_hits library text page_number true)
unfolding collect_section_hits
collect_section_hits-IsDistinct library text page_number =
    (collect_lines-Fresh library page_number 0 [] (lines_kept text)).1
