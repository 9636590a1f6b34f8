-- ===== src/Excel.antt =====
-- The workbook models of src/processing/excel/models.py. Reading the workbook is a library's work.
-- A cell's raw value is `str` of it.
use evidence_first_investmen.Base.{ℕ, String, Bool, Option, List}

pub data ExcelCellValueKind : Type 0 where
  empty scalar formula : ExcelCellValueKind

pub data ExcelSheetVisibility : Type 0 where
  visible hidden very_hidden : ExcelSheetVisibility

pub record ExcelCell : Type 0 where
  pub sheet_name : String
  pub row : ℕ
  pub column : ℕ
  pub address : String
  pub value_kind : ExcelCellValueKind
  pub value : Option String
  pub value_text : Option String
  pub number_format : String
  pub formula_text : Option String
  pub is_merged : Bool
  pub merge_range : Option String

pub record ExcelSheet : Type 0 where
  pub name : String
  pub index : ℕ
  pub cells : List ExcelCell
  pub visibility : ExcelSheetVisibility
  pub merged_ranges : List String

pub record ParsedWorkbook : Type 0 where
  pub sheets : List ExcelSheet
  pub source_sha256 : String
  pub parser_name : String
  pub parser_version : String
  pub source_label : Option String
  pub artifact_id : Option ℕ
