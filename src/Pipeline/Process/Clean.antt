-- ===== src/Pipeline/Process/Clean.antt =====
-- What the status PROCESSED of src/processing/pipeline.py stands for: no step of the run fell back.
use evidence_first_investmen.Base.{◌≡◌, ◌⊎◌, ◌≢◌, true, false, none, some, Result}
use evidence_first_investmen.Domain.{DetectedFileType}
use evidence_first_investmen.Pdf.Detector.{DocumentOcrDecision}
use evidence_first_investmen.Ocr.{DocumentOcrFallbackResult}
use evidence_first_investmen.Classify.{ClassificationInput, DocumentClassification}
use evidence_first_investmen.Sections.{SectionDetectionResult}
use evidence_first_investmen.Excel.{ParsedWorkbook}
use evidence_first_investmen.Tables.{
  TableExtractionContext, TableExtractionResult, extraction_needs_review,
}
use evidence_first_investmen.Pipeline.{DocumentProcessingResult, DocumentProcessRequest}
use evidence_first_investmen.Pipeline.Merge.{merge_table_extractions}
use evidence_first_investmen.Pipeline.Parts.{Parts}
use evidence_first_investmen.Pipeline.Process.Rebuilt.{AllRebuilt}

-- Where the tables of a result come from: a PDF has those of the extractor, to which those of the
-- raw sources may be put, and a workbook has those that were extracted from it.
pub record IsExtracted (parts : Parts) (request : DocumentProcessRequest)
    (file_type : DetectedFileType) (extraction : TableExtractionResult) : Type 0 where
  pub native :
      file_type ≡ DetectedFileType.pdf
      → (context : TableExtractionContext) × (t : TableExtractionResult) × (parts.extract_pdf
            request.data_ context
          ≡ Result.returned t)
        × ((extraction ≡ t)
            ⊎ ((raw : TableExtractionResult) × (extraction ≡ merge_table_extractions t raw)))
  pub workbook :
      file_type ≡ DetectedFileType.xlsx
      → (book : ParsedWorkbook) × (context : TableExtractionContext) × (parts.extract_workbook book
            context
          ≡ Result.returned extraction)

-- A processed document: its type is one that is parsed, the classifier gave it a classification that
-- is not marked as unmatched, the pages that needed OCR were read well enough, its tables were
-- extracted without a doubt, and each of them was rebuilt without a doubt.
pub record IsClean (parts : Parts) (request : DocumentProcessRequest) (r : DocumentProcessingResult)
    : Type 0 where
  pub parsed : (r.file_type ≡ DetectedFileType.pdf) ⊎ (r.file_type ≡ DetectedFileType.xlsx)
  pub classification_ : DocumentClassification
  pub classified : r.classification ≡ some classification_
  pub given :
      (input : ClassificationInput) × (parts.classify input ≡ Result.returned classification_)
  pub matched :
      (classification_.reason ≢ "unmatched_needs_llm") × (classification_.reason ≢ "unmatched")
  pub extraction : TableExtractionResult
  pub recorded : r.table_extraction ≡ some extraction
  pub trusted : extraction_needs_review extraction ≡ false
  pub extracted : IsExtracted parts request r.file_type extraction
  pub sections : SectionDetectionResult
  pub detected : r.sections ≡ some sections
  pub rebuilt : AllRebuilt parts sections extraction.tables r.reconstructed_tables
  pub read :
      (d : DocumentOcrDecision)
      → r.ocr_decision ≡ some d
      → d.needs_ocr ≡ true
      → (o : DocumentOcrFallbackResult) × (r.ocr ≡ some o) × (o.needs_review ≡ false)
  pub no_error : r.error ≡ none
