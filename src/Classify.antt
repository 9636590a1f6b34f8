-- ===== src/Classify.antt =====
-- The classification models of src/processing/classify/models.py. The patterns and the folding of
-- text (src/processing/classify/patterns.py, classifier.py) are not modelled.
use evidence_first_investmen.Base.{String, Option}
use evidence_first_investmen.Ocr.{Score}

pub data DocumentClass : Type 0 where
  financial_statement annual_report management_explanation board_resolution : DocumentClass
  shareholder_document material_disclosure other : DocumentClass

pub data ClassificationMethod : Type 0 where
  pattern_ metadata llm : ClassificationMethod

-- `metadata` holds the key "document_type" at most, which is all that the pipeline puts there.
pub record ClassificationInput : Type 0 where
  pub title : Option String
  pub filename : Option String
  pub text_sample : Option String
  pub document_type : Option String

pub record DocumentClassification : Type 0 where
  pub document_class : DocumentClass
  pub method : ClassificationMethod
  pub confidence : Score
  pub matched_pattern : Option String
  pub reason : String
