-- ===== src/Pdf.antt =====
-- The parsed document of src/processing/pdf/models.py. Reading the PDF (src/processing/pdf/native.py)
-- is a library's work. Coordinates and fractions are integers and naturals in one small unit.
pub mod Detector
use evidence_first_investmen.Base.{ℕ, ℤ, String, Option, List}

pub record BoundingBox : Type 0 where
  pub x0 : ℤ
  pub y0 : ℤ
  pub x1 : ℤ
  pub y1 : ℤ

pub record TextBlock : Type 0 where
  pub text : String
  pub bbox : Option BoundingBox

pub record ParsedPage : Type 0 where
  pub page_number : ℕ
  pub text : String
  pub text_normalized : String
  pub blocks : List TextBlock
  pub width : ℤ
  pub height : ℤ
  pub parser_name : String
  pub parser_version : String
  pub source_sha256 : String
  pub image_coverage : Option ℕ
  pub image_count : ℕ
  pub image_coverage_error : Option String

pub record ParsedDocument : Type 0 where
  pub pages : List ParsedPage
  pub source_sha256 : String
  pub parser_name : String
  pub parser_version : String
  pub source_label : Option String
  pub artifact_id : Option ℕ
