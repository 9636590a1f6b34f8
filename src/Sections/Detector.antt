-- ===== src/Sections/Detector.antt =====
-- `StatementSectionDetector` of src/processing/sections/detector.py.
use evidence_first_investmen.Base.{
  ℕ, suc, String, true, Option, none, some, List, [], ◌∷◌, ◌++◌, if◌then◌else◌,
}
use evidence_first_investmen.Excel.{ExcelSheet, ParsedWorkbook}
use evidence_first_investmen.Pdf.{ParsedPage, ParsedDocument}
use evidence_first_investmen.Regex.{TextLibrary}
use evidence_first_investmen.Sections.{StatementSection, SectionHit, SectionDetectionResult}
use evidence_first_investmen.Sections.Headings.{
  HeadingRule, is_seen, match_heading_line, collect_section_hits,
}

-- `method` where the model's class gives none.
abbrev default_method : String
default_method = "vietnamese_heading_rules"

module _ (library : TextLibrary) where
  abbrev pub detect_text : String → Option ℕ → List SectionHit
  detect_text text page_number = collect_section_hits library text page_number true

  -- The texts of pages, each with its number.
  abbrev pub hits_of_pages : List (ℕ × String) → List SectionHit
  hits_of_pages [] = []
  hits_of_pages ((page_number, text) ∷ pages) =
      detect_text text (some page_number) ++ hits_of_pages pages

  unfoldable pub detect_page_texts : List (ℕ × String) → SectionDetectionResult
  unfolding collect_section_hits
  detect_page_texts pages = record { hits = hits_of_pages pages; method = default_method }

  abbrev pub hits_of_document : List ParsedPage → List SectionHit
  hits_of_document [] = []
  hits_of_document (page ∷ pages) =
      detect_text page.text (some page.page_number) ++ hits_of_document pages

  unfoldable pub detect_parsed_document : ParsedDocument → SectionDetectionResult
  unfolding collect_section_hits
  detect_parsed_document document = record {
    hits = hits_of_document document.pages;
    method = default_method;
  }

  abbrev pub sheet_hit : HeadingRule → ExcelSheet → SectionHit
  sheet_hit r sheet = record {
    section = r.section;
    matched_rule = r.name;
    matched_text = sheet.name;
    confidence = r.confidence;
    page_number = some (suc sheet.index);
    start_char = none;
  }

  -- The loop over the sheets, from the sections seen before.
  abbrev pub hits_of_sheets : List StatementSection → List ExcelSheet → List SectionHit
  hits_of_sheets seen [] = []
  hits_of_sheets seen (sheet ∷ sheets) = elim (match_heading_line library sheet.name) [
    | none ↦ hits_of_sheets seen sheets
    | some r ↦
        let repeated = is_seen r.section seen in
        let rest = hits_of_sheets (if repeated then seen else r.section ∷ seen) sheets in
        if repeated then rest else sheet_hit r sheet ∷ rest
  ]

  unfoldable pub detect_workbook : ParsedWorkbook → SectionDetectionResult
  unfolding match_heading_line
  detect_workbook workbook = record {
    hits = hits_of_sheets [] workbook.sheets;
    method = "sheet_name_heading_rules";
  }
