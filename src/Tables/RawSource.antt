-- ===== src/Tables/RawSource.antt =====
-- The vetted tables of src/processing/tables/raw_source.py: `load_for` of `JsonRawTableSource`, and how
-- a table is bound to the document that is processed. Reading a sidecar file and taking its JSON apart
-- is a parameter.
pub mod Bound
use evidence_first_investmen.Base.{
  ℕ, String, Bool, true, false, not, Option, none, some, List, [], ◌∷◌, ◌++◌, map, str_eq,
  if◌then◌else◌, ◌<>◌, show, text_or, Outcome, ok, raise, Error, ◌>>=◌,
}
use evidence_first_investmen.Pipeline.Merge.{sort_tables}
use evidence_first_investmen.Tables.{
  TableExtractionContext, ExtractedCell, ExtractedRow, ExtractedTable, TableExtractionResult,
  has_any,
}

-- What loading a sidecar comes to: the table with `source.sha256` of the payload; one of the exceptions
-- that `load_for` catches, by the name of its class; or any other.
pub data Loading : Type 0 where
  loaded : ExtractedTable → Option String → Loading
  unreadable : String → Loading
  failing : Error → Loading

pub record Sidecar : Type 0 where
  pub name : String
  pub content : Loading

-- `str(source.get("sha256") or table.source_sha256 or "")`
abbrev pub declared_sha : ExtractedTable → Option String → String
declared_sha table sha = text_or sha (text_or table.source_sha256 "")

module _ (uuid_text : ℕ → String) (context : TableExtractionContext) where
  abbrev pub table_key : String
  table_key = elim context.document_id [
    | some d ↦ uuid_text d
    | none ↦ elim context.artifact_id [
      | some a ↦ uuid_text a
      | none ↦ text_or context.source_sha256 "unknown-doc"
    ]
  ]

  abbrev pub bind_cell : String → ExtractedCell → ExtractedCell
  bind_cell id cell = record cell {
    table_id = id;
    document_id = context.document_id;
    artifact_id = context.artifact_id;
  }

  abbrev pub bind_row : String → ExtractedRow → ExtractedRow
  bind_row id row = record row { cells = map (bind_cell id) row.cells }

  unfoldable pub bind_to_processing_context : ExtractedTable → ExtractedTable
  unfolding show
  bind_to_processing_context table =
      let id = table_key <> ":p" <> show table.page <> ":raw:t" <> show table.table_index in
      record table {
        table_id = id;
        document_id = context.document_id;
        artifact_id = context.artifact_id;
        source_sha256 = context.source_sha256;
        source_label = context.source_label;
        rows = map (bind_row id) table.rows;
      }

  abbrev pub bind : ExtractedTable → ExtractedTable
  bind table = record (bind_to_processing_context table) { extractor_name = "json_raw_table" }

  -- The tables that are selected, and the warnings.
  unfoldable pub select_tables : String → List Sidecar → Outcome (List ExtractedTable × List String)
  unfolding bind_to_processing_context
  select_tables source_sha256 [] = ok ([], [])
  select_tables source_sha256 (sidecar ∷ sidecars) =
      let rest = select_tables source_sha256 sidecars in
      elim sidecar.content [
        | failing e ↦ raise e
        | unreadable type_name ↦ rest >>= λ (tables, warnings).
            ok
              (tables, ("raw_table_sidecar_failed:" <> sidecar.name <> ":" <> type_name) ∷ warnings)
        | loaded table sha ↦ rest >>= λ (tables, warnings). ok (
          (if str_eq (declared_sha table sha) source_sha256 then bind table ∷ tables else tables),
          warnings,
        )
      ]

  abbrev pub result_of : List ExtractedTable × List String → Option TableExtractionResult
  result_of ([], []) = none
  result_of ([], w ∷ warnings) =
      some record { tables = []; page_issues = []; context = context; warnings = w ∷ warnings }
  result_of (t ∷ tables, warnings) = some record {
    tables = sort_tables (t ∷ tables);
    page_issues = [];
    context = context;
    warnings = warnings;
  }

  unfoldable pub load_for : String → List Sidecar → Outcome (Option TableExtractionResult)
  unfolding select_tables sort_tables
  load_for source_sha256 sidecars =
      select_tables source_sha256 sidecars >>= λ found. ok (result_of found)
