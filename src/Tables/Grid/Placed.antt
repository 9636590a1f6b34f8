-- ===== src/Tables/Grid/Placed.antt =====
-- What the grid of a worksheet (src/processing/tables/extractor.py) makes of its cells.
use evidence_first_investmen.Base.{
  ℕ, zero, suc, ◌+◌, ◌-◌, ◌≤◌, ◌<◌, pos, String, true, false, not, ◌≡◌, ◌↔◌, refl, sym, ap, ◌∙◌,
  inl, inr, none, some, List, [], ◌∷◌, Memᴰ, map, select, any, length, ◌==◌, ==_refl, if◌then◌else◌,
  Bool-cases, arith, mem-select, mem_of_any,
}
use evidence_first_investmen.Ocr.{finite}
use evidence_first_investmen.Excel.{ExcelCell, ExcelSheet, ParsedWorkbook}
use evidence_first_investmen.Tables.{
  TableExtractionStatus, TableExtractionContext, ExtractedCell, ExtractedRow, ExtractedTable,
}
use evidence_first_investmen.Tables.Grid.{
  Frame, is_jagged, assess_table_quality, has_content, is_populated, least, greatest, by_coord,
  raw_text_of, grid_cell, grid_cells, grid_rows, frame_of, used_range, extract_sheet,
}

module _ (frame : Frame) (cells : List ExcelCell) where
  length-grid_cells : (r c count : ℕ) → length (grid_cells frame cells r c count) ≡ count
  length-grid_cells r c zero = refl
  length-grid_cells r c (suc count) = ap suc (length-grid_cells r (suc c) count)

  same_lengths :
      (columns r count : ℕ)
      → any
          (λ (row : ExtractedRow). not (length row.cells == columns))
          (grid_rows frame cells columns r count)
        ≡ false
  same_lengths columns r zero = refl
  same_lengths columns r (suc count) =
      rw (length-grid_cells r frame.min_col columns, ==_refl columns)
        (same_lengths columns (suc r) count)

  grid-rectangular :
      (columns r count : ℕ) → is_jagged (grid_rows frame cells columns r count) ≡ false
  grid-rectangular columns r zero = refl
  grid-rectangular columns r (suc count) =
      rw (length-grid_cells r frame.min_col columns) (same_lengths columns (suc r) count)

  mem-grid_cells :
      (r c count j : ℕ)
      → c ≤ j
      → j < c + count
      → Memᴰ (grid_cell frame cells r j) (grid_cells frame cells r c count)
  mem-grid_cells r c zero j low high = absurd (omega (arith, low, high))
  mem-grid_cells r c (suc count) j low high = elim (Bool-cases (c == j)) [
    | inl t ↦ Memᴰ.head (ap (grid_cell frame cells r) (ground (arith, t)))
    | inr f ↦
        Memᴰ.tail (mem-grid_cells r (suc c) count j (ground (arith, f, low)) (omega (arith, high)))
  ]

  abbrev grid_row : ℕ → ℕ → ExtractedRow
  grid_row columns r = record {
    row_index = r - frame.min_row;
    cells = grid_cells frame cells r frame.min_col columns;
  }

  mem-grid_rows :
      (columns r count i : ℕ)
      → r ≤ i
      → i < r + count
      → Memᴰ (grid_row columns i) (grid_rows frame cells columns r count)
  mem-grid_rows columns r zero i low high = absurd (omega (arith, low, high))
  mem-grid_rows columns r (suc count) i low high = elim (Bool-cases (r == i)) [
    | inl t ↦ Memᴰ.head (ap (grid_row columns) (ground (arith, t)))
    | inr f ↦
        Memᴰ.tail
          (mem-grid_rows columns (suc r) count i (ground (arith, f, low)) (omega (arith, high)))
  ]

  grid-judged :
      (columns r count : ℕ) (warnings : List String)
      → 0 < count
      → ((assess_table_quality (grid_rows frame cells columns r count) none warnings false).status
          ≡ TableExtractionStatus.ok_)
        × ((assess_table_quality
              (grid_rows frame cells columns r count)
              none
              warnings
              false).confidence
            ≡ finite (pos 7500))
  unfolding assess_table_quality
  grid-judged columns r zero warnings h = absurd (omega (arith, h))
  grid-judged columns r (suc count) warnings h =
      rw (grid-rectangular columns r (suc count)) (refl, refl)

content_populated : (cell : ExcelCell) → has_content cell ≡ true → is_populated cell ≡ true
content_populated cell h = rw h refl

module _ (f : ExcelCell → ℕ) where
  least-mem :
      (c : ExcelCell) (cs : List ExcelCell) {x : ExcelCell}
      → Memᴰ x (c ∷ cs)
      → least (f c) (map f cs) ≤ f x
  least-mem c [] (Memᴰ.head e) = omega (arith, ap f e)
  least-mem c [] (Memᴰ.tail m) = elim m [ ]
  least-mem c (d ∷ cs) (Memᴰ.head e) = omega (arith, ap f e)
  least-mem c (d ∷ cs) (Memᴰ.tail m) = omega (arith, least-mem d cs m)

  greatest-mem :
      (c : ExcelCell) (cs : List ExcelCell) {x : ExcelCell}
      → Memᴰ x (c ∷ cs)
      → f x ≤ greatest (f c) (map f cs)
  greatest-mem c [] (Memᴰ.head e) = omega (arith, ap f e)
  greatest-mem c [] (Memᴰ.tail m) = elim m [ ]
  greatest-mem c (d ∷ cs) (Memᴰ.head e) = omega (arith, ap f e)
  greatest-mem c (d ∷ cs) (Memᴰ.tail m) = omega (arith, greatest-mem d cs m)

  spread :
      (c : ExcelCell) (cs : List ExcelCell) → least (f c) (map f cs) ≤ greatest (f c) (map f cs)
  spread c cs = omega (arith, least-mem c cs (Memᴰ.head refl), greatest-mem c cs (Memᴰ.head refl))

-- The least row or column of a populated cell.
abbrev pub min_of : List ℕ → ℕ
min_of [] = 0
min_of (n ∷ ns) = least n ns

abbrev pub corner : (ExcelCell → ℕ) → ExcelSheet → ℕ
corner f sheet = min_of (map f (select is_populated sheet.cells))

-- A cell of the sheet stands in the table, so far from the corner as in the sheet, with its text.
pub record Stands (min_row min_col : ℕ) (t : ExtractedTable) (cell : ExcelCell) : Type 0 where
  pub row : ExtractedRow
  pub row_listed : Memᴰ row t.rows
  pub placed : ExtractedCell
  pub cell_listed : Memᴰ placed row.cells
  pub down : placed.row + min_row ≡ cell.row
  pub across : placed.column + min_col ≡ cell.column
  pub same_row : row.row_index ≡ placed.row
  pub text : placed.raw_text ≡ raw_text_of (some cell)

module _ (uuid_text : ℕ → String) (workbook : ParsedWorkbook) (context : TableExtractionContext)
    (sheet : ExcelSheet) where
  used_range-Stands :
      (c : ExcelCell) (cs : List ExcelCell) (cell : ExcelCell)
      → Memᴰ cell (c ∷ cs)
      → by_coord cell.row cell.column sheet.cells ≡ some cell
      → Stands
          (least c.row (map (λ (x : ExcelCell). x.row) cs))
          (least c.column (map (λ (x : ExcelCell). x.column) cs))
          (used_range uuid_text workbook context sheet (c ∷ cs))
          cell
  used_range-Stands c cs cell m own =
      let low = least-mem (λ x. x.row) c cs m in
      let high = greatest-mem (λ x. x.row) c cs m in
      let left = least-mem (λ x. x.column) c cs m in
      let right = greatest-mem (λ x. x.column) c cs m in
      record {
        row = _;
        row_listed = mem-grid_rows _ sheet.cells _ _ _ cell.row low (omega (arith, low, high));
        placed = _;
        cell_listed =
            mem-grid_cells _ sheet.cells cell.row _ _ cell.column left (omega (arith, left, right));
        down = omega (arith, low);
        across = omega (arith, left);
        same_row = refl;
        text = ap raw_text_of own;
      }

  -- Where the sheet has a value or a formula, each populated cell that is the last with its coordinates
  -- stands in the table with its text, as far from the table's corner as in the sheet from the least row
  -- and column of a populated cell.
  pub extract_sheet-Stands :
      (cell : ExcelCell)
      → any has_content sheet.cells ≡ true
      → Memᴰ cell sheet.cells
      → is_populated cell ≡ true
      → by_coord cell.row cell.column sheet.cells ≡ some cell
      → Stands
          (corner (λ x. x.row) sheet)
          (corner (λ x. x.column) sheet)
          (extract_sheet uuid_text workbook context sheet)
          cell
  unfolding extract_sheet
  extract_sheet-Stands cell h m p own =
      rw h (go (select is_populated sheet.cells) refl (mem-select is_populated sheet.cells m p))
    where
      go :
          (l : List ExcelCell)
          → l ≡ select is_populated sheet.cells
          → Memᴰ cell (select is_populated sheet.cells)
          → Stands
              (corner (λ x. x.row) sheet)
              (corner (λ x. x.column) sheet)
              (used_range uuid_text workbook context sheet (select is_populated sheet.cells))
              cell
      go [] e n = elim (rw (sym e) at n) [ ]
      go (c ∷ cs) e n = rw (sym e) (used_range-Stands c cs cell (rw (sym e) at n) own)

  used_range-status :
      (c : ExcelCell) (cs : List ExcelCell)
      → (is_jagged (used_range uuid_text workbook context sheet (c ∷ cs)).rows ≡ false)
        × ((used_range uuid_text workbook context sheet (c ∷ cs)).status
            ≡ TableExtractionStatus.ok_)
        × ((used_range uuid_text workbook context sheet (c ∷ cs)).confidence
            ≡ some (finite (pos 7500)))
  used_range-status c cs =
      let min_row = least c.row (map (λ (x : ExcelCell). x.row) cs) in
      let min_col = least c.column (map (λ (x : ExcelCell). x.column) cs) in
      let max_row = greatest c.row (map (λ (x : ExcelCell). x.row) cs) in
      let max_col = greatest c.column (map (λ (x : ExcelCell). x.column) cs) in
      let frame = frame_of uuid_text workbook context sheet min_row min_col in
      let (fine, sure) =
        grid-judged frame sheet.cells (suc max_col - min_col) min_row (suc max_row - min_row) _
          (omega (arith, spread (λ x. x.row) c cs)) in
      (
        grid-rectangular frame sheet.cells (suc max_col - min_col) min_row (suc max_row - min_row),
        fine,
        ap some sure,
      )

  has_content-status :
      any has_content sheet.cells ≡ true
      → (is_jagged (extract_sheet uuid_text workbook context sheet).rows ≡ false)
        × ((extract_sheet uuid_text workbook context sheet).status ≡ TableExtractionStatus.ok_)
        × ((extract_sheet uuid_text workbook context sheet).confidence ≡ some (finite (pos 7500)))
  unfolding extract_sheet
  has_content-status h = rw h (go (select is_populated sheet.cells) refl)
    where
      go :
          (l : List ExcelCell)
          → l ≡ select is_populated sheet.cells
          → (is_jagged
                (used_range uuid_text workbook context sheet (select is_populated sheet.cells)).rows
              ≡ false)
            × ((used_range uuid_text workbook context sheet
                  (select is_populated sheet.cells)).status
                ≡ TableExtractionStatus.ok_)
            × ((used_range uuid_text workbook context sheet
                  (select is_populated sheet.cells)).confidence
                ≡ some (finite (pos 7500)))
      go [] e =
          let (cell, m, content) = mem_of_any has_content sheet.cells h in
          elim (rw (sym e) at
            (mem-select is_populated sheet.cells m (content_populated cell content))) [ ]
      go (c ∷ cs) e = rw (sym e) (used_range-status c cs)

  -- The table of a sheet is rectangular. It is OK exactly when the sheet has a value or a formula, and
  -- its confidence is 0.75 then and 0.2 otherwise.
  pub extract_sheet-status :
      (is_jagged (extract_sheet uuid_text workbook context sheet).rows ≡ false)
      × (((extract_sheet uuid_text workbook context sheet).status ≡ TableExtractionStatus.ok_)
          ↔ (any has_content sheet.cells ≡ true))
      × ((extract_sheet uuid_text workbook context sheet).confidence
          ≡ some (finite (pos (if any has_content sheet.cells then 7500 else 2000))))
  unfolding extract_sheet assess_table_quality
  extract_sheet-status = elim (Bool-cases (any has_content sheet.cells)) [
    | inl t ↦
        let (square, fine, sure) = has_content-status t in
        (square, ((λ e. t), λ e. fine), sure ∙ rw t refl)
    | inr f ↦ rw f (refl, ((λ e. cc), λ e. cc), refl)
  ]
