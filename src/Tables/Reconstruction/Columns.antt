-- ===== src/Tables/Reconstruction/Columns.antt =====
-- The columns of a header band and their roles, in src/processing/tables/reconstruction.py.
use evidence_first_investmen.Base.{
  ℕ, zero, suc, max, String, Bool, true, false, not, Option, none, some, List, [], ◌∷◌, map, select,
  length, if◌then◌else◌, is_empty, strip, join,
}
use evidence_first_investmen.Regex.{Pattern, TextLibrary, is_found}
use evidence_first_investmen.Sections.Headings.{fold_text}
use evidence_first_investmen.Tables.{ExtractedCell, ExtractedRow}
use evidence_first_investmen.Tables.Reconstruction.{ColumnRole, ReconstructedColumn}

-- `_carry_parts`: a merged cell repeats the text before it.
abbrev pub carry_from : String → List ExtractedCell → List String
carry_from last [] = []
carry_from last (cell ∷ cells) =
    let text = if cell.is_merged_continuation then last else strip cell.raw_text in
    text ∷ carry_from text cells

unfoldable pub carry_parts : ExtractedRow → List String
carry_parts row = carry_from "" row.cells

-- `parts[col] if col < len(parts) else ""`
abbrev pub part_at : ℕ → List String → String
part_at col [] = ""
part_at zero (t ∷ ts) = t
part_at (suc col) (t ∷ ts) = part_at col ts

-- How many merged cells come next.
abbrev pub merged_run : List ExtractedCell → ℕ
merged_run [] = 0
merged_run (cell ∷ cells) =
    let rest = merged_run cells in if cell.is_merged_continuation then suc rest else 0

-- `_column_span`
unfoldable pub column_span : List ExtractedCell → ℕ → ℕ
column_span [] col = 1
column_span (cell ∷ cells) zero = if cell.is_merged_continuation then 0 else suc (merged_run cells)
column_span (cell ∷ cells) (suc col) = column_span cells col

abbrev pub max_of : List ℕ → ℕ
max_of [] = 0
max_of (n ∷ ns) = max n (max_of ns)

-- A cell of the row that is no merged continuation.
abbrev pub is_own_cell : List ExtractedCell → ℕ → Bool
is_own_cell [] col = false
is_own_cell (cell ∷ cells) zero = not cell.is_merged_continuation
is_own_cell (cell ∷ cells) (suc col) = is_own_cell cells col

abbrev pub is_own_first : List ExtractedRow → ℕ → Bool
is_own_first [] col = false
is_own_first (row ∷ rows) col = is_own_cell row.cells col

abbrev pub is_label : ColumnRole → Bool
is_label ColumnRole.label = true
is_label _ = false

abbrev pub is_value : ColumnRole → Bool
is_value ColumnRole.value = true
is_value _ = false

-- The first column that is neither index, code nor note.
abbrev pub first_other : List ReconstructedColumn → Option ℕ
first_other [] = none
first_other (col ∷ columns) = elim col.role [
  | ColumnRole.index ↦ first_other columns
  | ColumnRole.code ↦ first_other columns
  | ColumnRole.note ↦ first_other columns
  | ColumnRole.label ↦ some col.index
  | ColumnRole.value ↦ some col.index
]

abbrev pub pick_from : List ReconstructedColumn → List ReconstructedColumn → Option ℕ × List String
pick_from columns [] = (first_other columns, "ambiguous_label_column" ∷ [])
pick_from columns (c ∷ []) = (some c.index, [])
pick_from columns (c ∷ d ∷ labels) = (some c.index, "ambiguous_label_column" ∷ [])

unfoldable pub pick_label_column : List ReconstructedColumn → Option ℕ × List String
pick_label_column columns = pick_from columns (select (λ c. is_label c.role) columns)

module _ (library : TextLibrary) where
  unfoldable pub role_from_header : String → ColumnRole
  unfolding fold_text
  role_from_header header_text =
      let folded = fold_text library header_text in
      if is_found (library.search Pattern.label_header folded)
      then ColumnRole.label
      else if is_found (library.search Pattern.index_header folded)
      then ColumnRole.index
      else if is_found (library.search Pattern.code_header folded)
      then ColumnRole.code
      else if is_found (library.search Pattern.note_header folded)
      then ColumnRole.note
      else ColumnRole.value

  abbrev pub column_at : List ExtractedRow → ℕ → ReconstructedColumn
  column_at band col =
      let parts = map (λ row. part_at col (carry_parts row)) band in
      let composed = join " | " (select (λ part. not (is_empty part)) parts) in
      let span = max_of (map (λ (row : ExtractedRow). column_span row.cells col) band) in
      record {
        index = col;
        header_text = composed;
        header_parts = parts;
        role = role_from_header composed;
        span = if is_own_first band col then max span 1 else span;
      }

  -- The columns `col`, `col + 1`, …, of which there are `count`.
  abbrev pub columns_at : List ExtractedRow → ℕ → ℕ → List ReconstructedColumn
  columns_at band col zero = []
  columns_at band col (suc count) = column_at band col ∷ columns_at band (suc col) count

  unfoldable pub columns_from_band : List ExtractedRow → List ReconstructedColumn
  unfolding carry_parts column_span role_from_header
  columns_from_band band =
      columns_at band 0 (max_of (map (λ (row : ExtractedRow). length row.cells) band))
