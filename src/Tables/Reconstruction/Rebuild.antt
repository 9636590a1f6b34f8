-- ===== src/Tables/Reconstruction/Rebuild.antt =====
-- `FinancialTableReconstructor.reconstruct` of src/processing/tables/reconstruction.py.
use text.Mathlib.Text.{starts_with}
use evidence_first_investmen.Base.{
  ℕ, pos, String, Bool, true, false, not, ◌&&◌, ◌||◌, Option, none, some, List, [], ◌∷◌, ◌++◌, map,
  any, ltb_ℤ, if◌then◌else◌, str_eq, join, unique, ◌<>◌,
}
use evidence_first_investmen.Ocr.{Score, finite, not_finite}
use evidence_first_investmen.Regex.{TextLibrary}
use evidence_first_investmen.Tables.{ExtractedRow, ExtractedTable, is_ok, has_any}
use evidence_first_investmen.Tables.Reconstruction.{
  TableType, ReconstructStatus, RowKind, ReconstructionContext, ReconstructedColumn,
  ReconstructedRow, ReconstructedTable,
}
use evidence_first_investmen.Tables.Reconstruction.Rows.{
  Split, visible_texts, row_joined, split_header_band,
}
use evidence_first_investmen.Tables.Reconstruction.Columns.{columns_from_band, pick_label_column}
use evidence_first_investmen.Tables.Reconstruction.Body.{body_row}
use evidence_first_investmen.Tables.Reconstruction.Kinds.{
  ResolvedType, resolve_type, extract_unit_text,
}

abbrev pub is_unknown : TableType → Bool
is_unknown TableType.unknown = true
is_unknown _ = false

abbrev pub is_missing {ℓ} : {A : Type ℓ} → Option A → Bool
is_missing none = true
is_missing (some a) = false

abbrev pub is_data_kind : RowKind → Bool
is_data_kind RowKind.data_ = true
is_data_kind _ = false

abbrev pub review_tokens : List String
review_tokens =
    "empty_raw_table" ∷ "unknown_table_type" ∷ "no_header_or_body" ∷ "empty_body"
    ∷ "conflicting_table_type" ∷ "ambiguous_section_context" ∷ "uncertain_header_row"
    ∷ "ambiguous_label_column" ∷ "header_band_incomplete" ∷ "oversized_header_band" ∷ "jagged_rows"
    ∷ "empty_grid" ∷ []

unfoldable pub is_review_warning : String → Bool
is_review_warning warning =
    any (λ token. str_eq warning token || starts_with warning (token <> ":")) review_tokens

-- `min(type_confidence, 0.95)`, which keeps a first argument that is no number.
abbrev pub cap_score : Score → Score
cap_score not_finite = not_finite
cap_score (finite c) = if ltb_ℤ (pos 9500) c then finite (pos 9500) else finite c

abbrev pub cap_confidence : Option Score → Option Score
cap_confidence none = none
cap_confidence (some c) = some (cap_score c)

-- The columns, the rows and the label column that a split gives, with its warnings.
pub record Layout : Type 0 where
  pub columns : List ReconstructedColumn
  pub rows : List ReconstructedRow
  pub label_column_index : Option ℕ
  pub warnings : List String

abbrev pub when : Bool → String → List String
when b warning = if b then warning ∷ [] else []

abbrev pub all_warnings :
    ExtractedTable → ResolvedType → Option String → Split → Layout → List String
all_warnings table type unit_text split layout =
    table.warnings
    ++ (type.warnings
        ++ (split.warnings
            ++ (layout.warnings
                ++ (when (not (has_any table.rows)) "empty_raw_table"
                    ++ (when (is_unknown type.table_type) "unknown_table_type"
                        ++ (when (is_missing unit_text) "missing_unit_text"
                            ++ when
                                (has_any split.band
                                  && not (
                                      any (λ (r : ReconstructedRow). is_data_kind r.kind)
                                        layout.rows))
                                "empty_body"))))))

abbrev pub asks_review : ExtractedTable → ResolvedType → Option String → List String → Bool
asks_review table type unit_text warnings =
    any is_review_warning warnings
    || (not (is_unknown type.table_type) && is_missing unit_text)
    || not (is_ok table.status)

abbrev pub assemble :
    ExtractedTable → ResolvedType → Option String → Split → Layout → ReconstructedTable
assemble table type unit_text split layout =
    let warnings = all_warnings table type unit_text split layout in
    record {
      table_type = type.table_type;
      unit_text = unit_text;
      columns = layout.columns;
      rows = layout.rows;
      raw = table;
      status =
          if asks_review table type unit_text warnings
          then ReconstructStatus.needs_review
          else ReconstructStatus.ok_;
      warnings = unique (warnings ++ when (not (is_ok table.status)) "raw_extraction_not_ok");
      type_confidence = cap_confidence type.confidence;
      type_matched_text = type.matched_text;
      header_band_row_indices = map (λ (r : ExtractedRow). r.row_index) split.band;
      label_column_index = layout.label_column_index;
    }

module _ (library : TextLibrary) where
  abbrev pub lay_out : Split → Layout
  lay_out split =
      let columns = columns_from_band library split.band in
      let (label, warnings) = pick_label_column columns in
      if has_any split.band
      then record {
        columns = columns;
        rows = map (body_row library columns label) split.body;
        label_column_index = label;
        warnings = warnings;
      }
      else record { columns = []; rows = []; label_column_index = none; warnings = [] }

  -- No context is a context without text and hint.
  unfoldable pub reconstruct : ExtractedTable → ReconstructionContext → ReconstructedTable
  unfolding visible_texts resolve_type extract_unit_text split_header_band columns_from_band
      pick_label_column body_row is_review_warning
  reconstruct table context =
      let cell_blob = join "\n" (map row_joined table.rows) in
      let unit_text = extract_unit_text library (some cell_blob ∷ context.surrounding_text ∷ []) in
      let split = split_header_band library table.rows in
      assemble table (resolve_type library table context) unit_text split (lay_out split)
