-- ===== src/Pipeline/Blocks.antt =====
-- `_pdf_blocks` and `_excel_blocks` of src/processing/pipeline.py. `indexes`, which counts the blocks
-- of each page, is the state that every step takes and returns.
pub mod Numbering
use evidence_first_investmen.Base.{
  ℕ, suc, String, Option, none, some, List, [], ◌∷◌, ◌++◌, Outcome, ok, ◌>>=◌,
}
use evidence_first_investmen.Domain.{BlockType}
use evidence_first_investmen.Domain.Block.{bounding_box}
use evidence_first_investmen.Domain.Block
use evidence_first_investmen.Pdf.{TextBlock, ParsedPage, ParsedDocument, BoundingBox}
use evidence_first_investmen.Ocr.{OcrPageResult, DocumentOcrFallbackResult}
use evidence_first_investmen.Tables.Reconstruction.{ReconstructedTable}
use evidence_first_investmen.Pipeline.{PipelineBlockDraft, Content}
use evidence_first_investmen.Pipeline.Merge.{get, put, value_or}

-- `indexes.get(page_number, 0)`, and then the count goes up by one.
abbrev pub next_index : ℕ → List (ℕ × ℕ) → ℕ × List (ℕ × ℕ)
next_index page_number indexes =
    let idx = value_or 0 (get page_number indexes) in (idx, put page_number (suc idx) indexes)

-- One draft, numbered; the page, kind, box and content are given.
abbrev pub place :
    ℕ
    → BlockType
    → Option Block.BoundingBox
    → Content
    → List (ℕ × ℕ)
    → PipelineBlockDraft × List (ℕ × ℕ)
place page block_type bbox content indexes =
    let (idx, indexes') = next_index page indexes in
    (
      record {
        page_number = page;
        block_index = idx;
        block_type = block_type;
        bbox = bbox;
        content = content;
      },
      indexes',
    )

-- The box of a text block, checked as the domain checks it.
abbrev pub domain_box : Option BoundingBox → Outcome (Option Block.BoundingBox)
domain_box none = ok none
domain_box (some b) = bounding_box b.x0 b.y0 b.x1 b.y1 >>= λ box. ok (some box)

unfoldable pub page_blocks :
    ParsedPage → List TextBlock → List (ℕ × ℕ) → Outcome (List PipelineBlockDraft × List (ℕ × ℕ))
page_blocks page [] indexes = ok ([], indexes)
page_blocks page (block ∷ blocks) indexes = domain_box block.bbox >>= λ bbox.
    let content = Content.native block.text page.parser_name page.parser_version in
    let (draft, indexes') = place page.page_number BlockType.text bbox content indexes in
    page_blocks page blocks indexes' >>= λ (drafts, last). ok (draft ∷ drafts, last)

unfoldable pub native_blocks :
    List ParsedPage → List (ℕ × ℕ) → Outcome (List PipelineBlockDraft × List (ℕ × ℕ))
unfolding page_blocks
native_blocks [] indexes = ok ([], indexes)
native_blocks (page ∷ pages) indexes = page_blocks page page.blocks indexes >>= λ (here, indexes').
    native_blocks pages indexes' >>= λ (there, last). ok (here ++ there, last)

unfoldable pub ocr_blocks :
    List OcrPageResult → List (ℕ × ℕ) → List PipelineBlockDraft × List (ℕ × ℕ)
ocr_blocks [] indexes = ([], indexes)
ocr_blocks (page ∷ pages) indexes =
    let (draft, indexes') = place page.page_number BlockType.text none (Content.ocr page) indexes in
    let (drafts, last) = ocr_blocks pages indexes' in (draft ∷ drafts, last)

abbrev pub ocr_pages_of : Option DocumentOcrFallbackResult → List OcrPageResult
ocr_pages_of none = []
ocr_pages_of (some r) = r.pages

unfoldable pub table_blocks :
    List ReconstructedTable → List (ℕ × ℕ) → List PipelineBlockDraft × List (ℕ × ℕ)
table_blocks [] indexes = ([], indexes)
table_blocks (table ∷ tables) indexes =
    let (draft, indexes') =
      place table.raw.page BlockType.table table.raw.bbox (Content.table_reconstruction table)
        indexes in
    let (drafts, last) = table_blocks tables indexes' in (draft ∷ drafts, last)

unfoldable pub pdf_blocks :
    ParsedDocument
    → Option DocumentOcrFallbackResult
    → List ReconstructedTable
    → Outcome (List PipelineBlockDraft)
unfolding native_blocks ocr_blocks table_blocks
pdf_blocks parsed ocr reconstructed = native_blocks parsed.pages [] >>= λ (native, after_native).
    let (read, after_ocr) = ocr_blocks (ocr_pages_of ocr) after_native in
    let (tables, last) = table_blocks reconstructed after_ocr in ok (native ++ read ++ tables)

unfoldable pub sheet_blocks :
    List ReconstructedTable → List (ℕ × ℕ) → List PipelineBlockDraft × List (ℕ × ℕ)
sheet_blocks [] indexes = ([], indexes)
sheet_blocks (table ∷ tables) indexes =
    let (draft, indexes') =
      place table.raw.page BlockType.table none
        (Content.sheet_reconstruction table table.raw.source_label) indexes in
    let (drafts, last) = sheet_blocks tables indexes' in (draft ∷ drafts, last)

unfoldable pub excel_blocks : List ReconstructedTable → List PipelineBlockDraft
unfolding sheet_blocks
excel_blocks reconstructed = (sheet_blocks reconstructed []).0
