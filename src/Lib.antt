-- ===== src/Lib.antt =====
-- Evidence-first Investment Research collects the publications of listed companies, keeps their
-- versions, and turns each document into pages, text blocks and tables whose origin stays visible.
-- This library models the part of the program that decides what is kept and what is trusted.
--
-- How the parts interact. `ProcessDocumentService` (src/services/process_document.py) takes an
-- artifact, opens a job for it, reads its bytes from storage, and hands them to `DocumentProcessor`
-- (src/processing/pipeline.py). The processor detects the type, parses, decides which pages need OCR
-- (src/processing/pdf/detector.py), reads those (src/processing/ocr), classifies, finds sections,
-- extracts and rebuilds tables, and numbers the blocks; its warnings decide the status. The service
-- then replaces the pages and blocks of the document and closes the job. Before that,
-- `IngestCompanyService` (src/ingestion/service.py) discovers the publications of a company, upserts
-- them, links each successor to its predecessor, downloads the attachments, puts their bytes into
-- storage by digest, and closes its run with the counters. The publications form lineages of versions
-- (src/db/repositories/source_publication.py), and the link of a successor keeps one version of a
-- lineage marked as the latest.
--
-- Files:
--   Base          numbers, lists, text, outcomes and exception classes that the modules share
--   Domain        src/domain/enums.py and processing_job.py; Domain/Block: document_block.py
--   Publication   the rows and one-row statements of source_publication.py; Publication/Lineage:
--                 `link_child_to_parent_and_update_latest`, as `link`, with its nested functions as
--                 `find_root`, `lock_and_clear_latest` and `latest_leaf`
--   Pdf, Ocr      src/processing/pdf/models.py and detector.py; src/processing/ocr/models.py,
--                 quality.py and fallback.py
--   Regex         what the code takes from Python's `re` and `unicodedata`, as a parameter
--   Sections      src/processing/sections: the data types, headings.py (Headings), detector.py
--                 (Detector); Located: where the hits stand; Lines: the lines of a text, independently
--                 of the code that splits it
--   Classify, Excel
--                 the data types of src/processing/classify and excel
--   Tables        src/processing/tables/models.py; Grid: extractor.py without its PDF side;
--                 RawSource: raw_source.py; Reconstruction: reconstruction.py, with the rows and the
--                 header band (Rows), the columns (Columns), the body (Body), the statement and the
--                 unit (Kinds) and `reconstruct` (Rebuild)
--   Pipeline      src/processing/pipeline.py: results and status (Pipeline), merges (Merge), blocks
--                 (Blocks), the collaborators (Parts), `_process_pdf` (Documents), `_process_excel`
--                 and `process` (Process)
--   Artifacts, Jobs, Pages
--                 the rows and statements of the repositories in src/db/repositories
--   Ingestion     src/ingestion/models.py and the rows of ingestion_run.py; Outside: what a run reads
--                 and may fail on; Publications, Attachments and Ingest: the loops of
--                 src/ingestion/service.py and `ingest` as a whole, with its run (Closing), its status
--                 (Completed) and the dry run (DryRun); Download: src/ingestion/downloader.py
--   Service       `process_document` and `process_company` of src/services/process_document.py
--   Examples      concrete inputs
--
-- A table is the list of its rows and a statement a function on it. A UUID is a number, and so is a
-- time. A float (a coordinate, a coverage, a score) is an integer in a fixed small unit, so rounding
-- is not modelled. Bytes are lists of numbers. An exception is a value: its class, its name and its
-- text. Code that mutates a list or a dict returns the new one; a body that raises returns none,
-- which is the rollback.
--
-- Fuel. Only the walks over lineages take fuel, since the code's loop and the recursive query walk
-- until they find nothing more. On a table without cycles whose ranks are below a bound, more than
-- twice the bound is enough; on a cycle no fuel is.
--
-- Parameters. The pipeline takes its collaborators as parameters, also where another module models
-- them, since the code does. A compiled regular expression is a name, and what it finds is a parameter,
-- as are Unicode's tables. A key of a document's metadata is missing or holds a text. In the ingestion the connector, the downloader, object storage and the errors
-- of the database are parameters, and so is the reading of a sidecar file.
--
-- Not modelled: the connectors, the resolvers of duplicates and versions, the extraction of tables from a
-- PDF page, the rules for classes, and the detection of file types; PyMuPDF, openpyxl, PaddleOCR, MinIO,
-- the HTTP client and the database itself, which are libraries and services; locks and concurrent
-- sessions; settings, logging and wiring.
pub mod Base
pub mod Domain
pub mod Publication
pub mod Pdf
pub mod Ocr
pub mod Sections
pub mod Classify
pub mod Excel
pub mod Tables
pub mod Pipeline
pub mod Artifacts
pub mod Jobs
pub mod Pages
pub mod Service
pub mod Ingestion
pub mod Regex
pub mod Examples
