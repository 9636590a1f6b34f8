-- ===== src/Regex.antt =====
-- What the code takes from Python's `re` and `unicodedata`: a compiled pattern is a name, and what it
-- finds in a text is the library's.
use Prim.Native.Char.{Char}
use evidence_first_investmen.Base.{String, Bool, Option, none, some, false, true}

-- The patterns of src/processing/sections/headings.py, then those of
-- src/processing/tables/reconstruction.py; the last six are the literals of `_role_from_header` and of
-- `_looks_like_data_row`.
pub data Pattern : Type 0 where
  vi_notes vi_notes_short_heading vi_balance_sheet vi_income_statement : Pattern
  vi_cash_flow en_notes en_balance_sheet en_income_statement en_cash_flow : Pattern
  year date_dmy date_iso date_text period_token separator_cell : Pattern
  unit_caption unit_scale : Pattern
  label_header index_header code_header note_header small_number : Pattern

-- `match.group(0)` and `match.group(1)`
pub record Match : Type 0 where
  pub whole : String
  pub captured : String

-- `search`, and whether `match` and `fullmatch` find something; NFKD of the text in lower case; and
-- three properties of characters.
pub record TextLibrary : Type 0 where
  pub search : Pattern → String → Option Match
  pub matches : Pattern → String → Bool
  pub full_matches : Pattern → String → Bool
  pub normalize : String → String
  pub is_combining : Char → Bool
  pub is_digit : Char → Bool
  pub is_alnum : Char → Bool

abbrev pub is_found : Option Match → Bool
is_found none = false
is_found (some m) = true
