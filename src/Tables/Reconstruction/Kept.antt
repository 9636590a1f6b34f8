-- ===== src/Tables/Reconstruction/Kept.antt =====
-- What `reconstruct` of src/processing/tables/reconstruction.py keeps of the table that it is given.
use evidence_first_investmen.Base.{
  ℕ, String, ◌≡◌, refl, sym, ap, Option, some, List, [], ◌∷◌, map, join,
}
use evidence_first_investmen.Regex.{TextLibrary}
use evidence_first_investmen.Tables.{ExtractedCell, ExtractedRow, ExtractedTable}
use evidence_first_investmen.Tables.Reconstruction.{
  ReconstructionContext, ReconstructedColumn, ReconstructedRow, ReconstructedTable,
}
use evidence_first_investmen.Tables.Reconstruction.Rows.{Split, row_joined, split_header_band}
use evidence_first_investmen.Tables.Reconstruction.Body.{body_row}
use evidence_first_investmen.Tables.Reconstruction.Bands.{Divides, split_header_band-Divides}
use evidence_first_investmen.Tables.Reconstruction.Kinds.{
  ResolvedType, resolve_type, extract_unit_text,
}
use evidence_first_investmen.Tables.Reconstruction.Rebuild.{lay_out, assemble, reconstruct}

-- The parts of a rebuilt table come from the raw one.
pub record Kept (library : TextLibrary) (table : ExtractedTable) (t : ReconstructedTable)
    : Type 0 where
  pub raw : t.raw ≡ table
  pub split : Split
  pub divides : Divides library table.rows split
  pub header : t.header_band_row_indices ≡ map (λ (r : ExtractedRow). r.row_index) split.band
  pub cells :
      map (λ (r : ReconstructedRow). r.cells) t.rows
      ≡ map (λ (r : ExtractedRow). r.cells) split.body
  pub indices :
      map (λ (r : ReconstructedRow). r.row_index) t.rows
      ≡ map (λ (r : ExtractedRow). r.row_index) split.body
  pub texts :
      map (λ (r : ReconstructedRow). r.cells_by_column) t.rows
      ≡ map (λ (r : ExtractedRow). map (λ (c : ExtractedCell). c.raw_text) r.cells) split.body

module _ (library : TextLibrary) where
  module _ (columns : List ReconstructedColumn) (label : Option ℕ) where
    body_rows-cells :
        (rows : List ExtractedRow)
        → map (λ (r : ReconstructedRow). r.cells) (map (body_row library columns label) rows)
          ≡ map (λ (r : ExtractedRow). r.cells) rows
    unfolding body_row
    body_rows-cells [] = refl
    body_rows-cells (r ∷ rows) = ap (λ rest. r.cells ∷ rest) (body_rows-cells rows)

    body_rows-indices :
        (rows : List ExtractedRow)
        → map (λ (r : ReconstructedRow). r.row_index) (map (body_row library columns label) rows)
          ≡ map (λ (r : ExtractedRow). r.row_index) rows
    unfolding body_row
    body_rows-indices [] = refl
    body_rows-indices (r ∷ rows) = ap (λ rest. r.row_index ∷ rest) (body_rows-indices rows)

    body_rows-texts :
        (rows : List ExtractedRow)
        → map
            (λ (r : ReconstructedRow). r.cells_by_column)
            (map (body_row library columns label) rows)
          ≡ map (λ (r : ExtractedRow). map (λ (c : ExtractedCell). c.raw_text) r.cells) rows
    unfolding body_row
    body_rows-texts [] = refl
    body_rows-texts (r ∷ rows) =
        ap (λ rest. map (λ (c : ExtractedCell). c.raw_text) r.cells ∷ rest) (body_rows-texts rows)

  assemble-Kept :
      (table : ExtractedTable) (type : ResolvedType) (unit_text : Option String) (split : Split)
      → Divides library table.rows split
      → Kept library table (assemble table type unit_text split (lay_out library split))
  assemble-Kept table type unit_text split d = go split.band refl
    where
      go :
          (band : List ExtractedRow)
          → band ≡ split.band
          → Kept library table (assemble table type unit_text split (lay_out library split))
      go [] e =
          let none_after = d.bodiless (sym e) in
          record {
            raw = refl;
            split = split;
            divides = d;
            header = refl;
            cells = rw (sym e, none_after) refl;
            indices = rw (sym e, none_after) refl;
            texts = rw (sym e, none_after) refl;
          }
      go (row ∷ rows) e = record {
        raw = refl;
        split = split;
        divides = d;
        header = refl;
        cells = rw (sym e) (body_rows-cells _ _ split.body);
        indices = rw (sym e) (body_rows-indices _ _ split.body);
        texts = rw (sym e) (body_rows-texts _ _ split.body);
      }

  -- A reconstruction keeps the raw table as it is. Its rows have the indices, the cells and the raw texts
  -- of the body rows, in order; together with the leading rows and the band, these are the rows of the
  -- table, and the header indices are those of the band.
  pub reconstruct-Kept :
      (table : ExtractedTable) (context : ReconstructionContext)
      → Kept library table (reconstruct library table context)
  unfolding reconstruct
  reconstruct-Kept table context =
      assemble-Kept table (resolve_type library table context)
        (extract_unit_text library
          (some (join "\n" (map row_joined table.rows)) ∷ context.surrounding_text ∷ []))
        (split_header_band library table.rows) (split_header_band-Divides library table.rows)
