-- ===== src/Tables/Reconstruction/Rows.antt =====
-- What src/processing/tables/reconstruction.py asks of a row's texts, and `_split_header_band`.
use evidence_first_investmen.Base.{
  ℕ, zero, suc, ◌-◌, max, String, Bool, true, false, not, ◌&&◌, ◌||◌, Option, none, some, List, [],
  ◌∷◌, ◌++◌, select, any, length, leb, if◌then◌else◌, is_empty, strip, any_char, count_chars, join,
}
use Prim.Native.Nat.{◌/◌}
use evidence_first_investmen.Regex.{Pattern, TextLibrary, is_found}
use evidence_first_investmen.Sections.Headings.{HeadingRule, match_heading_line}
use evidence_first_investmen.Tables.{ExtractedCell, ExtractedRow, has_any}

-- `_row_visible_texts`
unfoldable pub visible_texts : List ExtractedCell → List String
visible_texts [] = []
visible_texts (cell ∷ cells) =
    let rest = visible_texts cells in
    let text = strip cell.raw_text in
    if cell.is_merged_continuation || is_empty text then rest else text ∷ rest

abbrev pub row_joined : ExtractedRow → String
row_joined row = join " " (visible_texts row.cells)

abbrev pub is_empty_row : ExtractedRow → Bool
is_empty_row row = not (has_any (visible_texts row.cells))

abbrev pub is_rule : Option HeadingRule → Bool
is_rule none = false
is_rule (some r) = true

-- What `_split_header_band` returns: the band, the body and the warnings.
pub record Split : Type 0 where
  pub band : List ExtractedRow
  pub body : List ExtractedRow
  pub warnings : List String

module _ (library : TextLibrary) where
  abbrev pub has_digit : String → Bool
  has_digit text = any_char library.is_digit text

  unfoldable pub is_unit_row : ExtractedRow → Bool
  unfolding visible_texts
  is_unit_row row =
      let joined = row_joined row in
      if is_empty joined
      then false
      else is_found (library.search Pattern.unit_caption joined)
        || is_found (library.search Pattern.unit_scale joined)

  abbrev pub is_title : List String → Bool
  is_title [] = false
  is_title (text ∷ texts) =
      is_rule (match_heading_line library (join " " (text ∷ texts)))
      || is_rule (match_heading_line library text)
      || (not (has_any texts) && not (has_digit text) && leb 8 (count_chars text))

  unfoldable pub is_title_row : ExtractedRow → Bool
  unfolding visible_texts match_heading_line
  is_title_row row = is_title (visible_texts row.cells)

  unfoldable pub is_period_token : String → Bool
  is_period_token text =
      let stripped = strip text in
      if is_empty stripped
      then false
      else library.matches Pattern.year stripped
        || library.matches Pattern.date_dmy stripped
        || library.matches Pattern.date_iso stripped
        || library.matches Pattern.date_text stripped
        || library.matches Pattern.period_token stripped

  -- `max(1, len(texts) - 1)` tokens at least, in texts that are not empty.
  unfoldable pub looks_like_period_subheader : ExtractedRow → Bool
  unfolding visible_texts is_period_token
  looks_like_period_subheader row =
      let texts = visible_texts row.cells in
      has_any texts && leb (max 1 (length texts - 1)) (length (select is_period_token texts))

  unfoldable pub looks_like_header_row : ExtractedRow → Bool
  unfolding visible_texts is_period_token looks_like_period_subheader
  looks_like_header_row row =
      let texts = visible_texts row.cells in
      let numeric = length (select (λ text. has_digit text && not (is_period_token text)) texts) in
      has_any texts
      && (looks_like_period_subheader row
          || (leb 2 (length texts) && leb numeric (max 1 (length texts / 3))))

  abbrev pub is_amount : String → Bool
  is_amount text =
      has_digit text
      && not (is_period_token text)
      && not (library.full_matches Pattern.small_number (strip text))

  unfoldable pub looks_like_data_row : ExtractedRow → Bool
  unfolding visible_texts is_period_token looks_like_period_subheader
  looks_like_data_row row =
      let texts = visible_texts row.cells in
      leb 2 (length texts) && not (looks_like_period_subheader row) && any is_amount texts

  -- The rows that stand before the header band.
  abbrev pub is_leading : ExtractedRow → Bool
  is_leading row = is_empty_row row || is_unit_row row || is_title_row row

  abbrev pub skip_leading : List ExtractedRow → List ExtractedRow
  skip_leading [] = []
  skip_leading (row ∷ rows) =
      let rest = skip_leading rows in if is_leading row then rest else row ∷ rows

  abbrev pub is_header : ExtractedRow → Bool
  is_header row = looks_like_header_row row || looks_like_period_subheader row

  abbrev pub starts_data : ExtractedRow → Bool
  starts_data row = looks_like_data_row row && not (looks_like_period_subheader row)

  -- The rest of the band, once it has a row, of at most `left` rows more; and the rows after it.
  abbrev pub more_band : ℕ → List ExtractedRow → List ExtractedRow × List ExtractedRow
  more_band zero rows = ([], rows)
  more_band (suc left) [] = ([], [])
  more_band (suc left) (row ∷ rows) =
      let (band, body) = more_band left rows in
      if starts_data row || not (is_header row) then ([], row ∷ rows) else (row ∷ band, body)

  -- A band of `_MAX_HEADER_BAND_ROWS` rows before one that looks like a header.
  abbrev pub oversized : List ExtractedRow → List ExtractedRow → List String
  oversized band [] = []
  oversized band (row ∷ rows) =
      if leb 4 (length band) && looks_like_header_row row then "oversized_header_band" ∷ [] else []

  abbrev pub incomplete : List ExtractedRow → List String
  incomplete [] = []
  incomplete (row ∷ rows) =
      if looks_like_period_subheader row then "header_band_incomplete" ∷ [] else []

  abbrev pub split_from : List ExtractedRow → Split
  split_from [] = record { band = []; body = []; warnings = "no_header_or_body" ∷ [] }
  split_from (row ∷ rows) =
      let (more, after) = more_band 3 rows in
      if is_header row
      then record {
        band = row ∷ more;
        body = after;
        warnings = oversized (row ∷ more) after ++ incomplete after;
      }
      else record {
        band = row ∷ [];
        body = rows;
        warnings = "uncertain_header_row" ∷ incomplete rows;
      }

  unfoldable pub split_header_band : List ExtractedRow → Split
  unfolding visible_texts is_unit_row is_title_row looks_like_header_row looks_like_data_row
      looks_like_period_subheader
  split_header_band rows = split_from (skip_leading rows)
