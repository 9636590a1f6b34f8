-- ===== src/Examples/Grids.antt =====
-- A small statement, a small sheet and a sidecar (src/processing/tables, src/processing/sections).
use Prim.Native.Char.{code}
use text.Mathlib.Text.{starts_with}
use evidence_first_investmen.Base.{
  ℕ, pos, String, Bool, true, false, ◌&&◌, ◌≡◌, ◌↔◌, refl, Option, none, some, List, [], ◌∷◌, Memᴰ,
  any, leb, if◌then◌else◌, str_eq, ok, lines_kept, show,
}
use evidence_first_investmen.Ocr.{finite}
use evidence_first_investmen.Excel.{
  ExcelCellValueKind, ExcelSheetVisibility, ExcelCell, ExcelSheet, ParsedWorkbook,
}
use evidence_first_investmen.Regex.{Pattern, Match, TextLibrary}
use evidence_first_investmen.Sections.{StatementSection, SectionHit}
use evidence_first_investmen.Sections.Headings.{
  fold_text, match_heading_line, collect_lines, collect_section_hits,
}
use evidence_first_investmen.Sections.Lines.{concat, IsSplit}
use evidence_first_investmen.Sections.Located.{
  Located, IsDistinct, collect_section_hits-Located, collect_section_hits-IsDistinct,
}
use evidence_first_investmen.Tables.{
  TableExtractionStatus, TableExtractionContext, ExtractedCell, ExtractedRow, ExtractedTable,
  TableExtractionResult,
}
use evidence_first_investmen.Tables.Reconstruction.{ReconstructionContext}
use evidence_first_investmen.Tables.Reconstruction.Rebuild.{reconstruct}
use evidence_first_investmen.Tables.Reconstruction.Kept.{Kept, reconstruct-Kept}
use evidence_first_investmen.Tables.Reconstruction.Reliable.{Reliable}
use evidence_first_investmen.Tables.Reconstruction.Bounds.{Bounded, reconstruct-Bounded}
use evidence_first_investmen.Tables.Grid.{is_jagged, has_content, extract_sheet}
use evidence_first_investmen.Tables.Grid.Placed.{
  Stands, corner, extract_sheet-Stands, extract_sheet-status,
}
use evidence_first_investmen.Tables.RawSource.{Loading, Sidecar, bind, select_tables, load_for}
use evidence_first_investmen.Tables.RawSource.Bound.{Proven, load_for-Proven}
use evidence_first_investmen.Pipeline.Merge.{sort_tables}

-- A pattern library that knows four patterns, and letters without marks.
abbrev found_if : Bool → String → Option Match
found_if b t = if b then some record { whole = t; captured = t } else none

abbrev search_few : Pattern → String → Option Match
search_few Pattern.en_balance_sheet t = found_if (starts_with t "balance sheet") t
search_few Pattern.unit_caption t = found_if (starts_with t "Unit: VND") "Unit: VND"
search_few Pattern.label_header t = found_if (str_eq t "items") t
search_few _ t = none

abbrev matches_few : Pattern → String → Bool
matches_few Pattern.year t = str_eq t "2023"
matches_few _ t = false

abbrev few : TextLibrary
few = record {
  search = search_few;
  matches = matches_few;
  full_matches = λ p t. false;
  normalize = λ t. t;
  is_combining = λ c. false;
  is_digit = λ c. leb 48 (code c) && leb (code c) 57;
  is_alnum = λ c. leb 48 (code c);
}

abbrev cell_of : ℕ → ℕ → String → ExtractedCell
cell_of r c t = record {
  raw_text = t;
  row = r;
  column = c;
  page = 1;
  table_id = "a:p1:t0";
  document_id = some 1;
  artifact_id = some 1;
  bbox = none;
  bbox_estimated = false;
  is_merged_continuation = false;
  bbox_missing_warning = none;
}

abbrev row_of : ℕ → String → String → ExtractedRow
row_of r a b = record { row_index = r; cells = cell_of r 0 a ∷ cell_of r 1 b ∷ [] }

abbrev statement : ExtractedTable
statement = record {
  page = 1;
  rows =
      row_of 0 "Unit: VND" ""
      ∷ row_of 1 "balance sheet" ""
      ∷ row_of 2 "items" "2023"
      ∷ row_of 3 "Cash" "1000"
      ∷ [];
  table_id = "a:p1:t0";
  table_index = 0;
  document_id = some 1;
  artifact_id = some 1;
  source_sha256 = none;
  bbox = none;
  extractor_name = "pymupdf_find_tables";
  extractor_version = "1";
  source_label = none;
  confidence = some (finite (pos 7500));
  status = TableExtractionStatus.ok_;
  warnings = [];
}

abbrev no_context : ReconstructionContext
no_context = record { surrounding_text = none; section_hint = none }

reconstruct-Kept_example : Kept few statement (reconstruct few statement no_context)
reconstruct-Kept_example = reconstruct-Kept few statement no_context

reconstruct-Bounded_example : Bounded (reconstruct few statement no_context)
reconstruct-Bounded_example = reconstruct-Bounded few statement no_context

abbrev headline : SectionHit
headline = record {
  section = StatementSection.balance_sheet;
  matched_rule = "en_balance_sheet";
  matched_text = "balance sheet";
  confidence = finite (pos 8500);
  page_number = some 3;
  start_char = some 6;
}

headline_listed :
    Memᴰ headline (collect_section_hits few "items\nbalance sheet\nbalance sheet 2" (some 3) true)
unfolding collect_section_hits collect_lines match_heading_line fold_text lines_kept
headline_listed = Memᴰ.head refl

collect_section_hits-Located_example :
    (lines : List String) × (concat lines ≡ "items\nbalance sheet\nbalance sheet 2")
    × IsSplit lines
    × Located few lines (some 3) 0 headline
collect_section_hits-Located_example =
    collect_section_hits-Located few "items\nbalance sheet\nbalance sheet 2" (some 3) true headline
      headline_listed

collect_section_hits-IsDistinct_example :
    IsDistinct (collect_section_hits few "items\nbalance sheet\nbalance sheet 2" (some 3) true)
collect_section_hits-IsDistinct_example =
    collect_section_hits-IsDistinct few "items\nbalance sheet\nbalance sheet 2" (some 3)

-- A sheet whose used range starts at row 2, column 3.
abbrev excel_cell : ℕ → ℕ → Option String → Bool → ExcelCell
excel_cell r c v merged = record {
  sheet_name = "BS";
  row = r;
  column = c;
  address = "C2";
  value_kind = ExcelCellValueKind.scalar;
  value = v;
  value_text = v;
  number_format = "General";
  formula_text = none;
  is_merged = merged;
  merge_range = none;
}

abbrev sheet : ExcelSheet
sheet = record {
  name = "BS";
  index = 0;
  cells =
      excel_cell 2 3 (some "Cash") false
      ∷ excel_cell 3 4 (some "1000") false
      ∷ excel_cell 2 4 none true
      ∷ [];
  visibility = ExcelSheetVisibility.visible;
  merged_ranges = [];
}

abbrev workbook : ParsedWorkbook
workbook = record {
  sheets = sheet ∷ [];
  source_sha256 = "ab";
  parser_name = "openpyxl";
  parser_version = "3";
  source_label = none;
  artifact_id = some 1;
}

abbrev bound_to : TableExtractionContext
bound_to = record {
  document_id = some 1;
  artifact_id = some 1;
  source_sha256 = some "ab";
  source_label = none;
}

abbrev amount : ExcelCell
amount = excel_cell 3 4 (some "1000") false

extract_sheet-Stands_example :
    Stands
      (corner (λ x. x.row) sheet)
      (corner (λ x. x.column) sheet)
      (extract_sheet show workbook bound_to sheet)
      amount
extract_sheet-Stands_example =
    extract_sheet-Stands show workbook bound_to sheet amount refl (Memᴰ.tail (Memᴰ.head refl)) refl
      refl

extract_sheet-status_example :
    (is_jagged (extract_sheet show workbook bound_to sheet).rows ≡ false)
    × (((extract_sheet show workbook bound_to sheet).status ≡ TableExtractionStatus.ok_)
        ↔ (any has_content sheet.cells ≡ true))
    × ((extract_sheet show workbook bound_to sheet).confidence
        ≡ some (finite (pos (if any has_content sheet.cells then 7500 else 2000))))
extract_sheet-status_example = extract_sheet-status show workbook bound_to sheet

-- A vetted table of these bytes, one of other bytes, and a file that is no JSON.
abbrev sidecars : List Sidecar
sidecars =
    record { name = "a.json"; content = Loading.loaded statement (some "ab") }
    ∷ record { name = "b.json"; content = Loading.loaded statement (some "cd") }
    ∷ record { name = "c.json"; content = Loading.unreadable "JSONDecodeError" }
    ∷ []

abbrev vetted : TableExtractionResult
vetted = record {
  tables = bind show bound_to statement ∷ [];
  page_issues = [];
  context = bound_to;
  warnings = "raw_table_sidecar_failed:c.json:JSONDecodeError" ∷ [];
}

vetted_loaded : load_for show bound_to "ab" sidecars ≡ ok (some vetted)
unfolding load_for select_tables sort_tables
vetted_loaded = refl

load_for-Proven_example : Proven show bound_to "ab" sidecars (bind show bound_to statement)
load_for-Proven_example =
    load_for-Proven show bound_to "ab" sidecars vetted (bind show bound_to statement) vetted_loaded
      (Memᴰ.head refl)
