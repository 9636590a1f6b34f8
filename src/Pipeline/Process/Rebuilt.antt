-- ===== src/Pipeline/Process/Rebuilt.antt =====
-- Where the tables of a run of src/processing/pipeline.py come from, and what was rebuilt from them.
use mathlib.Core.Path.{subst}
use evidence_first_investmen.Base.{
  ℕ, String, ◌≡◌, refl, sym, ap, inl, inr, Option, none, some, List, [], ◌∷◌, ◌++◌, Result, ok,
  call, >>=-eq-ok, ok-pair-injective, call-eq-ok, ◌⊎◌, ok-injective,
}
use evidence_first_investmen.Sections.{SectionDetectionResult}
use evidence_first_investmen.Tables.{ExtractedTable, TableExtractionResult}
use evidence_first_investmen.Tables.Reconstruction.{
  ReconstructedTable, ReconstructStatus, ReconstructionContext,
}
use evidence_first_investmen.Pipeline.Merge.{get, section_hint_for_page, merge_table_extractions}
use evidence_first_investmen.Pipeline.Parts.{Parts, rebuilt_warnings}
use evidence_first_investmen.Pipeline.Documents.{reconstruct_tables, use_raw, raw_texts, supplement}
use evidence_first_investmen.Pipeline.Process.Quiet.{
  IsQuiet, IsQuiet-left, IsQuiet-right, status_ok,
}

module _ (parts : Parts) where
  -- The rebuilt tables are those of the extracted ones, one for each, in their order: what the
  -- reconstructor returned for the table and the section of its page, without a doubt about it.
  abbrev pub AllRebuilt :
      SectionDetectionResult → List ExtractedTable → List ReconstructedTable → Type 0
  AllRebuilt sections [] [] = Unit
  AllRebuilt sections [] (r ∷ rs) = ⊥
  AllRebuilt sections (t ∷ ts) [] = ⊥
  AllRebuilt sections (t ∷ ts) (r ∷ rs) =
      ((context : ReconstructionContext) × (context.section_hint
          ≡ section_hint_for_page sections t.page)
        × (parts.reconstruct t context ≡ Result.returned r)
        × (r.status ≡ ReconstructStatus.ok_))
      × AllRebuilt sections ts rs

  pub reconstruct_tables-AllRebuilt :
      (texts : List (ℕ × String)) (sections : SectionDetectionResult) (tables : List ExtractedTable)
      (out : List ReconstructedTable) (ws : List String)
      → reconstruct_tables parts texts sections tables ≡ ok (out, ws)
      → IsQuiet ws
      → AllRebuilt sections tables out
  unfolding reconstruct_tables
  reconstruct_tables-AllRebuilt texts sections [] out ws h quiet =
      subst (AllRebuilt sections []) (ok-pair-injective h).0 tt
  reconstruct_tables-AllRebuilt texts sections (table ∷ tables) out ws h quiet =
      let context : ReconstructionContext = record {
        surrounding_text = get table.page texts;
        section_hint = section_hint_for_page sections table.page;
      } in
      let (rebuilt, e1, h1) = >>=-eq-ok (call (parts.reconstruct table context)) _ h in
      let ((rest, w), e2, h2) = >>=-eq-ok (reconstruct_tables parts texts sections tables) _ h1 in
      let (same_out, same_ws) = ok-pair-injective h2 in
      let own : List String = rebuilt_warnings table.table_id rebuilt.status in
      let quiet' : IsQuiet (own ++ w) = subst IsQuiet (sym same_ws) quiet in
      subst (AllRebuilt sections (table ∷ tables)) same_out (
        (
          context,
          refl,
          call-eq-ok _ e1,
          status_ok table.table_id rebuilt.status (IsQuiet-left own w quiet'),
        ),
        reconstruct_tables-AllRebuilt texts sections tables rest w e2 (IsQuiet-right own w quiet'),
      )

  -- The tables of the raw sources are put to those that were extracted, or nothing is.
  pub use_raw-cases :
      (raw : Option TableExtractionResult) (native : TableExtractionResult)
      (sections : SectionDetectionResult)
      (out : TableExtractionResult × SectionDetectionResult × List String)
      → use_raw parts raw native sections ≡ ok out
      → (out.0 ≡ native)
        ⊎ ((t : TableExtractionResult) × (out.0 ≡ merge_table_extractions native t))
  use_raw-cases none native sections out h = inl (
      ap (λ (x : TableExtractionResult × SectionDetectionResult × List String). x.0)
        (sym (ok-injective h)))
  use_raw-cases (some raw) native sections out h =
      let (s, e, h1) = >>=-eq-ok (supplement parts sections (raw_texts parts (some raw))) _ h in
      inr (
        raw,
        ap (λ (x : TableExtractionResult × SectionDetectionResult × List String). x.0)
            (sym (ok-injective h1)),
      )
