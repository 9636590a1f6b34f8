-- ===== src/Examples/Imports.antt =====
-- A small run of the ingestion (src/ingestion/service.py).
use evidence_first_investmen.Base.{
  ℕ, ◌+◌, ◌<◌, String, true, false, ◌≡◌, refl, none, some, List, [], ◌∷◌, Memᴰ, length, Result, ok,
  raise, Error, error, http_error,
}
use evidence_first_investmen.Domain.{IngestionRunStatus, SourceType}
use evidence_first_investmen.Publication.{ensure}
use evidence_first_investmen.Artifacts.{
  first, get_artifact_by_natural_key, ensure_artifact, get_by_sha256, ensure_raw_object,
}
use evidence_first_investmen.Ingestion.{
  DocumentType, SourceAttachment, SourceDocument, DownloadedArtifact, Run, start, finish_by_id,
  build_raw_object_path_by_sha,
}
use evidence_first_investmen.Ingestion.Outside.{World, Outside, Draws}
use evidence_first_investmen.Ingestion.Publications.{upsert_all, link_all}
use evidence_first_investmen.Ingestion.Attachments.{
  Tally, no_tally, ensure_raw, process_attachment, process_attachments,
}
use evidence_first_investmen.Ingestion.Attachments.Keys.{IsFound}
use evidence_first_investmen.Ingestion.Attachments.Again.{
  process_attachments-IsFound, process_attachments_again,
}
use evidence_first_investmen.Ingestion.Ingest.{
  IngestionResult, run_status, attachments_of, finish, ingest,
}
use evidence_first_investmen.Ingestion.Ingest.Counts.{process_attachments-total}
use evidence_first_investmen.Ingestion.Ingest.Closing.{Closed, ingest-Closed, ingest_unclosed}
use evidence_first_investmen.Ingestion.Ingest.Finish.{SameFiles}
use evidence_first_investmen.Ingestion.Ingest.DryRun.{ingest-dry_run}
use evidence_first_investmen.Base.{◌⊎◌, if◌then◌else◌, ◌==◌}
use evidence_first_investmen.Ingestion.Attachments.{pending_path}
use evidence_first_investmen.Ingestion.Download.{
  Response, Network, DownloaderConfig, give_up, stream_download, attempts, download_with_retry,
  detect_mime, reject_html, sanitize_filename, download,
}
use evidence_first_investmen.Ingestion.Download.Retries.{
  IsRetried, Settled, download_with_retry-cases,
}
use evidence_first_investmen.Ingestion.Download.Accepted.{Accepted, download-Accepted}

abbrev attachment : String → SourceAttachment
attachment reference = record {
  filename = "report.pdf";
  download_reference = reference;
  reported_mime_type = none;
}

abbrev report : SourceDocument
report = record {
  source = SourceType.fixture;
  source_document_id = "d1";
  ticker = "FPT";
  title = "Report";
  published_at = some 20;
  source_updated_date = none;
  published_at_precision = none;
  detail_reference = none;
  attachments = attachment "u1" ∷ attachment "u2" ∷ [];
  scope = none;
  audit_status = none;
  language = none;
  document_type = DocumentType.financial_statement;
  period_start = none;
  period_end = none;
  fiscal_year = none;
  fiscal_quarter = none;
  is_correction = false;
  supersedes_source_document_id = none;
}

abbrev content_of : ℕ → DownloadedArtifact
content_of k = record {
  filename = "report.pdf";
  actual_mime_type = "application/pdf";
  size_bytes = 2;
  sha256 = "0123456789abcdef";
  object_path = "raw_objects/pending/blob";
  content = some (37 ∷ 80 ∷ []);
}

abbrev calm : Outside
calm = record {
  discover = some (Result.returned (report ∷ []));
  ensure_ready = Result.returned true;
  database = λ t k. none;
  download = λ k a. Result.returned (content_of k);
  exists = λ k path. Result.returned false;
  put = λ k path bytes mime. Result.returned true;
}

abbrev http_failure : Error
http_failure = error http_error "HTTPStatusError" "503"

-- The source answers with an error that is no `SourceError`.
abbrev broken : Outside
broken = record calm { discover = some (Result.raised http_failure) }

abbrev draws : Draws
draws = record {
  run_id = 9;
  run_text = "9";
  started = 100;
  now = 101;
  finished = 102;
  publication_id = λ k. 10 + k;
  raw_id = λ k. 20 + k;
  artifact_id = λ k. 30 + k;
}

abbrev nothing_yet : World
nothing_yet = record { publications = []; artifacts = []; raw_objects = []; runs = []; stored = [] }

abbrev items : List (ℕ × SourceAttachment)
items = (10, attachment "u1") ∷ (10, attachment "u2") ∷ []

abbrev two_downloaded : Tally
two_downloaded = record { downloaded = 2; skipped = 0; failed = 0; errors = [] }

both_downloaded :
    (process_attachments calm draws false 0 items nothing_yet no_tally).1 ≡ ok two_downloaded
unfolding process_attachments process_attachment ensure_raw get_artifact_by_natural_key
    ensure_artifact build_raw_object_path_by_sha get_by_sha256 ensure_raw_object first
both_downloaded = refl

process_attachments-total_example :
    two_downloaded.downloaded + two_downloaded.skipped + two_downloaded.failed
    ≡ no_tally.downloaded + no_tally.skipped + no_tally.failed + length items
process_attachments-total_example =
    process_attachments-total calm draws false 0 items nothing_yet no_tally two_downloaded
      both_downloaded

process_attachments-IsFound_example :
    IsFound 10 "u1" (process_attachments calm draws false 0 items nothing_yet no_tally).0.artifacts
process_attachments-IsFound_example =
    process_attachments-IsFound calm draws 0 items nothing_yet no_tally two_downloaded
      both_downloaded refl 10 (attachment "u1") (Memᴰ.head refl)

process_attachments_again_example :
    (u : Tally) × (process_attachments broken draws false 5 items
        (process_attachments calm draws false 0 items nothing_yet no_tally).0
        no_tally
      ≡ ((process_attachments calm draws false 0 items nothing_yet no_tally).0, ok u))
    × (u.skipped ≡ no_tally.skipped + length items)
    × (u.downloaded ≡ no_tally.downloaded)
    × (u.failed ≡ no_tally.failed)
process_attachments_again_example =
    process_attachments_again calm broken draws draws 0 5 items nothing_yet no_tally two_downloaded
      no_tally both_downloaded refl (λ i. refl)

abbrev complete : IngestionResult
complete = record {
  run_id = 9;
  discovered = 1;
  publications_created = 1;
  downloaded = 2;
  skipped = 0;
  failed = 0;
  status = IngestionRunStatus.completed;
}

run_completed :
    (ingest calm draws 3 false "FPT" SourceType.fixture (some (7, "FPT")) nothing_yet).1
    ≡ ok complete
unfolding ingest upsert_all link_all ensure attachments_of finish finish_by_id start run_status
    process_attachments process_attachment ensure_raw get_artifact_by_natural_key ensure_artifact
    build_raw_object_path_by_sha get_by_sha256 ensure_raw_object first
run_completed = refl

ingest-Closed_example :
    Closed draws.run_id
      (ingest calm draws 3 false "FPT" SourceType.fixture (some (7, "FPT")) nothing_yet).0
      complete
ingest-Closed_example =
    ingest-Closed calm draws 3 false "FPT" SourceType.fixture (some (7, "FPT")) nothing_yet complete
      run_completed

ingest-dry_run_example :
    SameFiles
      (ingest calm draws 3 true "FPT" SourceType.fixture (some (7, "FPT")) nothing_yet).0
      nothing_yet
    × ((r : IngestionResult)
        → (ingest calm draws 3 true "FPT" SourceType.fixture (some (7, "FPT")) nothing_yet).1 ≡ ok r
        → r.downloaded ≡ 0)
ingest-dry_run_example =
    ingest-dry_run calm draws 3 "FPT" SourceType.fixture (some (7, "FPT")) nothing_yet

ingest_unclosed_example :
    ((ingest broken draws 3 false "FPT" SourceType.fixture (some (7, "FPT")) nothing_yet).1
      ≡ raise http_failure)
    × ((row : Run) × Memᴰ row
          (ingest broken draws 3 false "FPT" SourceType.fixture
            (some (7, "FPT"))
            nothing_yet).0.runs
        × (row.id ≡ draws.run_id)
        × (row.status ≡ IngestionRunStatus.running))
ingest_unclosed_example =
    ingest_unclosed broken draws 3 "FPT" SourceType.fixture 7 "FPT" nothing_yet http_failure refl
      refl refl

-- A server that is busy once, and then sends a small PDF in two chunks.
abbrev network : Network
network = record {
  respond = λ i url.
      if i == 0
      then Response.refused http_failure
      else Response.streamed ((37 ∷ 80 ∷ []) ∷ (68 ∷ 70 ∷ []) ∷ []) none;
  read = λ path. none;
  guess = λ bytes. some "application/pdf";
  hash = λ bytes. "0123456789abcdef";
  lower = λ t. t;
  replace_unsafe = λ t. t;
}

abbrev config : DownloaderConfig
config = record { max_retries = 3; max_file_size_bytes = 100 }

abbrev small_pdf : DownloadedArtifact
small_pdf = record {
  filename = "report.pdf";
  actual_mime_type = "application/pdf";
  size_bytes = 4;
  sha256 = "0123456789abcdef";
  object_path = pending_path;
  content = some (37 ∷ 80 ∷ 68 ∷ 70 ∷ []);
}

small_pdf_downloaded :
    download network config (attachment "https://fpt.com/a.pdf") pending_path ≡ ok small_pdf
unfolding download download_with_retry attempts stream_download detect_mime reject_html
    sanitize_filename
small_pdf_downloaded = refl

download-Accepted_example : Accepted network config (attachment "https://fpt.com/a.pdf") small_pdf
download-Accepted_example =
    download-Accepted network config (attachment "https://fpt.com/a.pdf") pending_path small_pdf
      small_pdf_downloaded

download_with_retry-cases_example :
    Settled network config "https://fpt.com/a.pdf" 0 3
      (download_with_retry network config "https://fpt.com/a.pdf")
    ⊎ ((download_with_retry network config "https://fpt.com/a.pdf"
          ≡ raise (give_up "https://fpt.com/a.pdf"))
        × ((i : ℕ) → i < 3 → IsRetried network config "https://fpt.com/a.pdf" i))
download_with_retry-cases_example = download_with_retry-cases network config "https://fpt.com/a.pdf"
