-- ===== src/Sections.antt =====
-- The section models of src/processing/sections/models.py. The heading rules and the detector are in
-- the children.
pub mod Headings
pub mod Detector
pub mod Lines
pub mod Located
use evidence_first_investmen.Base.{ℕ, String, Bool, true, false, Option, List}
use evidence_first_investmen.Ocr.{Score}

pub data StatementSection : Type 0 where
  balance_sheet income_statement cash_flow_statement notes : StatementSection

pub record SectionHit : Type 0 where
  pub section : StatementSection
  pub matched_rule : String
  pub matched_text : String
  pub confidence : Score
  pub page_number : Option ℕ
  pub start_char : Option ℕ

pub record SectionDetectionResult : Type 0 where
  pub hits : List SectionHit
  pub method : String

abbrev pub same_section : StatementSection → StatementSection → Bool
same_section StatementSection.balance_sheet StatementSection.balance_sheet = true
same_section StatementSection.income_statement StatementSection.income_statement = true
same_section StatementSection.cash_flow_statement StatementSection.cash_flow_statement = true
same_section StatementSection.notes StatementSection.notes = true
same_section _ _ = false
