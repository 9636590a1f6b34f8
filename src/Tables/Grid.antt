-- ===== src/Tables/Grid.antt =====
-- src/processing/tables/extractor.py without its PDF side: the quality of a table, and the grid of a
-- worksheet, `ExcelGridTableExtractor.extract`. Scores are in ten-thousandths; the share of missing
-- boxes is rounded down to that unit, and the status does not depend on it.
pub mod Placed
use Prim.Native.Nat.{◌/◌}
use evidence_first_investmen.Base.{
  ℕ, zero, suc, ◌+◌, ◌-◌, ◌*◌, min, max, pos, String, Bool, true, false, not, ◌&&◌, ◌||◌, Option,
  none, some, List, [], ◌∷◌, ◌++◌, map, select, any, length, leb, ltb, ◌==◌, if◌then◌else◌, ◌<>◌,
  show, text_or, present,
}
use evidence_first_investmen.Domain.Block.{BoundingBox}
use evidence_first_investmen.Ocr.{Score, finite}
use evidence_first_investmen.Excel.{ExcelCell, ExcelSheet, ParsedWorkbook}
use evidence_first_investmen.Tables.{
  TableExtractionStatus, TableExtractionContext, ExtractedCell, ExtractedRow, ExtractedTable,
  TableExtractionResult,
}

-- `str` of a UUID is a parameter.
abbrev pub doc_key : (ℕ → String) → TableExtractionContext → String
doc_key uuid_text context = elim context.document_id [
  | some d ↦ uuid_text d
  | none ↦ elim context.artifact_id [
    | some a ↦ uuid_text a
    | none ↦ text_or context.source_sha256 (text_or context.source_label "unknown-doc")
  ]
]

unfoldable pub make_table_id : (ℕ → String) → TableExtractionContext → ℕ → ℕ → String
unfolding show
make_table_id uuid_text context page table_index =
    doc_key uuid_text context <> ":p" <> show page <> ":t" <> show table_index

abbrev pub has_box : Option BoundingBox → Bool
has_box none = false
has_box (some b) = true

abbrev pub is_jagged : List ExtractedRow → Bool
is_jagged [] = false
is_jagged (row ∷ rows) = any (λ (r : ExtractedRow). not (length r.cells == length row.cells)) rows

abbrev pub lacks_box : ExtractedCell → Bool
lacks_box cell = not (has_box cell.bbox) && not cell.is_merged_continuation

abbrev pub count_cells : (ExtractedCell → Bool) → List ExtractedRow → ℕ
count_cells p [] = 0
count_cells p (row ∷ rows) = length (select p row.cells) + count_cells p rows

-- What the assessment says: the confidence, the status and the warnings.
pub record Quality : Type 0 where
  pub confidence : Score
  pub status : TableExtractionStatus
  pub warnings : List String

abbrev pub warn_if : Bool → String → List String
warn_if b warning = if b then warning ∷ [] else []

-- `missing` cells of `total` lack a box.
abbrev pub score_of : Bool → Bool → ℕ → ℕ → ℕ
score_of boxless jagged missing total =
    let score =
      7500
      - (if boxless then 1500 else 0)
      - (if jagged then 2000 else 0)
      - (if missing == 0 then 0 else min 2500 ((2500 * missing) / total)) in
    max 500 (min 8500 score)

abbrev pub judge : Bool → Bool → ℕ → ℕ → List String → Quality
judge boxless jagged missing total warnings = record {
  confidence = finite (pos (score_of boxless jagged missing total));
  status =
      if leb 6000 (score_of boxless jagged missing total) && not jagged && missing == 0
      then TableExtractionStatus.ok_
      else TableExtractionStatus.needs_review;
  warnings =
      warnings
      ++ (warn_if boxless "missing_table_bbox"
          ++ (warn_if jagged "jagged_rows"
              ++ warn_if (not (missing == 0))
                  ("missing_cell_bbox:" <> show missing <> "/" <> show total)));
}

unfoldable pub assess_table_quality :
    List ExtractedRow → Option BoundingBox → List String → Bool → Quality
unfolding show
assess_table_quality [] table_bbox warnings expect = record {
  confidence = finite (pos 2000);
  status = TableExtractionStatus.needs_review;
  warnings = warnings ++ "empty_grid" ∷ [];
}
assess_table_quality (row ∷ rows) table_bbox warnings expect =
    judge (expect && not (has_box table_bbox)) (is_jagged (row ∷ rows))
      (if expect then count_cells lacks_box (row ∷ rows) else 0)
      (max 1 (count_cells (λ c. true) (row ∷ rows))) warnings

abbrev pub is_some {ℓ} : {A : Type ℓ} → Option A → Bool
is_some none = false
is_some (some a) = true

abbrev pub has_content : ExcelCell → Bool
has_content cell = is_some cell.value || is_some cell.formula_text

abbrev pub is_populated : ExcelCell → Bool
is_populated cell = has_content cell || cell.is_merged

-- `min` and `max` of a list that is not empty.
abbrev pub least : ℕ → List ℕ → ℕ
least n [] = n
least n (m ∷ ms) = min n (least m ms)

abbrev pub greatest : ℕ → List ℕ → ℕ
greatest n [] = n
greatest n (m ∷ ms) = max n (greatest m ms)

abbrev pub is_at : ℕ → ℕ → ExcelCell → Bool
is_at r c cell = cell.row == r && cell.column == c

-- `by_coord`: of several cells with the coordinates, the last.
abbrev pub by_coord : ℕ → ℕ → List ExcelCell → Option ExcelCell
by_coord r c [] = none
by_coord r c (cell ∷ cells) = elim (by_coord r c cells) [
  | some found ↦ some found
  | none ↦ if is_at r c cell then some cell else none
]

abbrev pub is_continuation : Option ExcelCell → Bool
is_continuation none = false
is_continuation (some src) = src.is_merged && not (has_content src)

-- A merged cell without content has the text "" too.
abbrev pub raw_of : ExcelCell → String
raw_of src = elim src.formula_text [
  | some f ↦ f
  | none ↦ elim src.value_text [ some t ↦ t | none ↦ elim src.value [ none ↦ "" | some v ↦ v ] ]
]

abbrev pub raw_text_of : Option ExcelCell → String
raw_text_of none = ""
raw_text_of (some src) = if src.is_merged && not (has_content src) then "" else raw_of src

-- What all cells of one sheet's table share.
pub record Frame : Type 0 where
  pub page : ℕ
  pub table_id : String
  pub document_id : Option ℕ
  pub artifact_id : Option ℕ
  pub min_row : ℕ
  pub min_col : ℕ

module _ (frame : Frame) (cells : List ExcelCell) where
  abbrev pub grid_cell : ℕ → ℕ → ExtractedCell
  grid_cell r c = record {
    raw_text = raw_text_of (by_coord r c cells);
    row = r - frame.min_row;
    column = c - frame.min_col;
    page = frame.page;
    table_id = frame.table_id;
    document_id = frame.document_id;
    artifact_id = frame.artifact_id;
    bbox = none;
    bbox_estimated = false;
    is_merged_continuation = is_continuation (by_coord r c cells);
    bbox_missing_warning = some "excel_has_no_page_bbox";
  }

  -- `count` cells from column `c`, and `count` rows from row `r`.
  abbrev pub grid_cells : ℕ → ℕ → ℕ → List ExtractedCell
  grid_cells r c zero = []
  grid_cells r c (suc count) = grid_cell r c ∷ grid_cells r (suc c) count

  abbrev pub grid_rows : ℕ → ℕ → ℕ → List ExtractedRow
  grid_rows columns r zero = []
  grid_rows columns r (suc count) =
      record { row_index = r - frame.min_row; cells = grid_cells r frame.min_col columns }
      ∷ grid_rows columns (suc r) count

  -- The warnings, in the order in which the cells are made.
  abbrev pub cell_warnings : Option ExcelCell → List String
  cell_warnings none = []
  cell_warnings (some src) =
      warn_if (src.is_merged && not (has_content src)) ("merged_continuation:" <> src.address)

  abbrev pub cells_warnings : ℕ → ℕ → ℕ → List String
  cells_warnings r c zero = []
  cells_warnings r c (suc count) =
      cell_warnings (by_coord r c cells) ++ cells_warnings r (suc c) count

  abbrev pub rows_warnings : ℕ → ℕ → ℕ → List String
  rows_warnings columns r zero = []
  rows_warnings columns r (suc count) =
      cells_warnings r frame.min_col columns ++ rows_warnings columns (suc r) count

abbrev pub or_value {ℓ} : {A : Type ℓ} → Option A → Option A → Option A
or_value none b = b
or_value (some a) b = some a

-- `a or b` of texts.
abbrev pub or_text : Option String → Option String → Option String
or_text a b = or_value (present a) b

module _ (uuid_text : ℕ → String) (workbook : ParsedWorkbook)
    (context : TableExtractionContext) where
  abbrev pub sheet_table : ExcelSheet → List ExtractedRow → Quality → List String → ExtractedTable
  sheet_table sheet rows quality more = record {
    page = suc sheet.index;
    rows = rows;
    table_id = make_table_id uuid_text context (suc sheet.index) 0;
    table_index = 0;
    document_id = context.document_id;
    artifact_id = or_value context.artifact_id workbook.artifact_id;
    source_sha256 = or_text context.source_sha256 (some workbook.source_sha256);
    bbox = none;
    extractor_name = "excel_grid";
    extractor_version = "workbook";
    source_label = some sheet.name;
    confidence = some quality.confidence;
    status = quality.status;
    warnings = quality.warnings ++ more;
  }

  abbrev pub frame_of : ExcelSheet → ℕ → ℕ → Frame
  frame_of sheet min_row min_col = record {
    page = suc sheet.index;
    table_id = make_table_id uuid_text context (suc sheet.index) 0;
    document_id = context.document_id;
    artifact_id = or_value context.artifact_id workbook.artifact_id;
    min_row = min_row;
    min_col = min_col;
  }

  -- The table over the used range, given the populated cells.
  abbrev pub used_range : ExcelSheet → List ExcelCell → ExtractedTable
  used_range sheet [] =
      sheet_table sheet [] (assess_table_quality [] none ("empty_sheet" ∷ []) false) []
  used_range sheet (cell ∷ populated) =
      let min_row = least cell.row (map (λ (c : ExcelCell). c.row) populated) in
      let max_row = greatest cell.row (map (λ (c : ExcelCell). c.row) populated) in
      let min_col = least cell.column (map (λ (c : ExcelCell). c.column) populated) in
      let max_col = greatest cell.column (map (λ (c : ExcelCell). c.column) populated) in
      let frame = frame_of sheet min_row min_col in
      let columns = suc max_col - min_col in
      let rows = grid_rows frame sheet.cells columns min_row (suc max_row - min_row) in
      sheet_table sheet rows
        (assess_table_quality rows none
          (rows_warnings frame sheet.cells columns min_row (suc max_row - min_row)) false)
        ("excel_no_page_bbox" ∷ [])

  unfoldable pub extract_sheet : ExcelSheet → ExtractedTable
  unfolding make_table_id assess_table_quality
  extract_sheet sheet =
      used_range sheet (if any has_content sheet.cells then select is_populated sheet.cells else [])

-- `context or TableExtractionContext(...)`
abbrev pub context_or : Option TableExtractionContext → ParsedWorkbook → TableExtractionContext
context_or (some context) workbook = context
context_or none workbook = record {
  document_id = none;
  artifact_id = workbook.artifact_id;
  source_sha256 = some workbook.source_sha256;
  source_label = workbook.source_label;
}

unfoldable pub extract :
    (ℕ → String) → ParsedWorkbook → Option TableExtractionContext → TableExtractionResult
unfolding extract_sheet
extract uuid_text workbook context =
    let resolved = context_or context workbook in
    record {
      tables = map (extract_sheet uuid_text workbook resolved) workbook.sheets;
      page_issues = [];
      context = resolved;
      warnings = [];
    }
