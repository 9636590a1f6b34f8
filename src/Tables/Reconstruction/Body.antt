-- ===== src/Tables/Reconstruction/Body.antt =====
-- The body rows of src/processing/tables/reconstruction.py, and what kind of row each is.
use Prim.Native.Char.{code}
use evidence_first_investmen.Base.{
  ℕ, zero, suc, ◌-◌, String, Bool, true, false, not, ◌&&◌, ◌||◌, Option, none, some, List, [], ◌∷◌,
  map, select, any, if◌then◌else◌, is_blank, any_char, count_chars, ◌==◌,
}
use evidence_first_investmen.Regex.{Pattern, TextLibrary}
use evidence_first_investmen.Tables.{ExtractedCell, ExtractedRow}
use evidence_first_investmen.Tables.Reconstruction.{ReconstructedColumn, ReconstructedRow, RowKind}
use evidence_first_investmen.Tables.Reconstruction.Columns.{is_value}

-- `cells[i]`, where `i` is in range.
abbrev pub cell_at : ℕ → List ExtractedCell → Option ExtractedCell
cell_at i [] = none
cell_at zero (cell ∷ cells) = some cell
cell_at (suc i) (cell ∷ cells) = cell_at i cells

-- The cell of the label column, if the row has one.
abbrev pub label_cell : Option ℕ → List ExtractedCell → Option ExtractedCell
label_cell none cells = none
label_cell (some i) cells = cell_at i cells

abbrev pub text_of : Option ExtractedCell → String
text_of none = ""
text_of (some cell) = cell.raw_text

abbrev pub label_text : Option ExtractedCell → String
label_text none = ""
label_text (some cell) = if cell.is_merged_continuation then "" else cell.raw_text

abbrev pub is_merged_cell : Option ExtractedCell → Bool
is_merged_cell none = false
is_merged_cell (some cell) = cell.is_merged_continuation

abbrev pub visible_raw : List ExtractedCell → List String
visible_raw cells =
    map (λ (c : ExtractedCell). c.raw_text) (select (λ c. not c.is_merged_continuation) cells)

abbrev pub is_visible : String → Bool
is_visible text = not (is_blank text)

abbrev pub is_label_index : Option ℕ → ℕ → Bool
is_label_index none i = false
is_label_index (some l) i = i == l

-- `label.lstrip(" \t")`
abbrev pub strip_indent : String → String
strip_indent String.[] = String.[]
strip_indent (String.◌∷◌ c s) =
    let rest = strip_indent s in if code c == 32 || code c == 9 then rest else String.◌∷◌ c s

abbrev pub is_section_kind : RowKind → Bool
is_section_kind RowKind.section_header = true
is_section_kind _ = false

abbrev pub is_continuation_kind : RowKind → Bool
is_continuation_kind RowKind.continuation = true
is_continuation_kind _ = false

abbrev pub is_separator_kind : RowKind → Bool
is_separator_kind RowKind.separator = true
is_separator_kind _ = false

-- The texts of the value columns, apart from the label column.
unfoldable pub value_texts : List ReconstructedColumn → Option ℕ → List ExtractedCell → List String
value_texts columns label_column_index cells =
    map (λ (c : ReconstructedColumn). text_of (cell_at c.index cells))
      (select (λ c. is_value c.role && not (is_label_index label_column_index c.index)) columns)

module _ (library : TextLibrary) where
  abbrev pub is_separator_text : String → Bool
  is_separator_text text = is_blank text || library.matches Pattern.separator_cell text

  unfoldable pub row_kind : String → List String → List ExtractedCell → Option ℕ → RowKind
  row_kind label values cells label_column_index =
      let visible = visible_raw cells in
      if not (any is_visible visible)
      then RowKind.empty
      else if not (any (λ text. not (is_separator_text text)) visible)
          && not (any (any_char library.is_alnum) visible)
      then RowKind.separator
      else if is_merged_cell (label_cell label_column_index cells)
      then RowKind.continuation
      else if is_visible label && not (any is_visible values)
      then RowKind.section_header
      else RowKind.data_

  unfoldable pub body_row : List ReconstructedColumn → Option ℕ → ExtractedRow → ReconstructedRow
  unfolding value_texts row_kind
  body_row columns label_column_index row =
      let label = label_text (label_cell label_column_index row.cells) in
      let values = value_texts columns label_column_index row.cells in
      let kind = row_kind label values row.cells label_column_index in
      record {
        row_index = row.row_index;
        label = label;
        values = values;
        cells = row.cells;
        cells_by_column = map (λ (c : ExtractedCell). c.raw_text) row.cells;
        kind = kind;
        indent_spaces = count_chars label - count_chars (strip_indent label);
        is_section_header = is_section_kind kind;
        is_continuation = is_continuation_kind kind;
        is_separator = is_separator_kind kind;
        label_column_index = label_column_index;
      }
