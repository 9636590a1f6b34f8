-- ===== src/Domain.antt =====
-- The enumerations of src/domain/enums.py and the job of src/domain/processing_job.py.
pub mod Block
use evidence_first_investmen.Base.{Bool, true, false}
use evidence_first_investmen.Base.{Outcome, ok, raise, error, value_error, if◌then◌else◌}

pub data ProcessingStatus : Type 0 where
  pending processing processed needs_review failed : ProcessingStatus

pub data DetectedFileType : Type 0 where
  pdf xls xlsx docx unknown : DetectedFileType

pub data ExtractionMethod : Type 0 where
  native ocr : ExtractionMethod

pub data BlockType : Type 0 where
  text table image : BlockType

pub data IngestionRunStatus : Type 0 where
  running completed partial failed : IngestionRunStatus

pub data VersionResolutionType : Type 0 where
  new_document duplicate new_version correction : VersionResolutionType

pub data SourceType : Type 0 where
  hose hnx ssc issuer_ir fixture : SourceType

-- `status in _TERMINAL`
abbrev pub is_terminal : ProcessingStatus → Bool
is_terminal ProcessingStatus.processed = true
is_terminal ProcessingStatus.needs_review = true
is_terminal ProcessingStatus.failed = true
is_terminal _ = false

unfoldable pub validate_terminal_status : ProcessingStatus → Outcome ProcessingStatus
validate_terminal_status status =
    if is_terminal status
    then ok status
    else raise (
        error value_error "ValueError" "terminal status must be PROCESSED, NEEDS_REVIEW, or FAILED")
