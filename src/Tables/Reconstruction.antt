-- ===== src/Tables/Reconstruction.antt =====
-- The reconstructed tables of src/processing/tables/reconstruction.py. How they are filled is in the
-- children.
pub mod Rows
pub mod Columns
pub mod Body
pub mod Bands
pub mod Kinds
pub mod Rebuild
pub mod Kept
pub mod Reliable
pub mod Bounds
use evidence_first_investmen.Base.{ℕ, String, Bool, Option, List}
use evidence_first_investmen.Ocr.{Score}
use evidence_first_investmen.Sections.{StatementSection}
use evidence_first_investmen.Tables.{ExtractedCell, ExtractedTable}

pub data TableType : Type 0 where
  balance_sheet income_statement cash_flow_statement notes unknown : TableType

pub data ReconstructStatus : Type 0 where
  ok_ needs_review : ReconstructStatus

pub data ColumnRole : Type 0 where
  label index code note value : ColumnRole

pub data RowKind : Type 0 where
  data_ section_header separator continuation empty : RowKind

pub record ReconstructionContext : Type 0 where
  pub surrounding_text : Option String
  pub section_hint : Option StatementSection

pub record ReconstructedColumn : Type 0 where
  pub index : ℕ
  pub header_text : String
  pub header_parts : List String
  pub role : ColumnRole
  pub span : ℕ

pub record ReconstructedRow : Type 0 where
  pub row_index : ℕ
  pub label : String
  pub values : List String
  pub cells : List ExtractedCell
  pub cells_by_column : List String
  pub kind : RowKind
  pub indent_spaces : ℕ
  pub is_section_header : Bool
  pub is_continuation : Bool
  pub is_separator : Bool
  pub label_column_index : Option ℕ

pub record ReconstructedTable : Type 0 where
  pub table_type : TableType
  pub unit_text : Option String
  pub columns : List ReconstructedColumn
  pub rows : List ReconstructedRow
  pub raw : ExtractedTable
  pub status : ReconstructStatus
  pub warnings : List String
  pub type_confidence : Option Score
  pub type_matched_text : Option String
  pub header_band_row_indices : List ℕ
  pub label_column_index : Option ℕ
