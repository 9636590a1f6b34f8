-- ===== src/Publication/Lineage/Stranded.antt =====
-- A row that already has a predecessor, and is linked to a row of another lineage: the lineage that
-- it leaves keeps its root and loses its latest version.
use mathlib.Core.Path.{subst}
use evidence_first_investmen.Base.{
  ℕ, ◌≡◌, ◌≢◌, sym, ◌∙◌, inl, inr, false, some, List, Memᴰ, arith, ◌==◌, ok, ok-injective,
  if◌then◌else◌,
}
use evidence_first_investmen.Publication.{Publication}
use evidence_first_investmen.Publication.Lineage.{find_root, set_parent, set_latest, link}
use evidence_first_investmen.Publication.Lineage.Descent.{
  Descendant, here, below, Descendant-mono, Root,
}
use evidence_first_investmen.Publication.Lineage.Clearing.{Cleared-id, Cleared-parent}
use evidence_first_investmen.Publication.Lineage.Steps.{
  Linked, link-Linked, set_parent-back, set_parent-forth, set_latest-back, set_latest-forth,
}
use evidence_first_investmen.Publication.Lineage.Latest.{
  Edge-linked, Edge-final, final-Edge, picked,
}
use evidence_first_investmen.Publication.Lineage.Trees.{
  UniqueIds, OneParent, OneParent-of_UniqueIds, Top, root_unique,
}
use evidence_first_investmen.Publication.Lineage.Effects.{Linked-flag}

module _ (fuel now child parent : ℕ) (rows : List Publication) {rows' : List Publication}
    (l : Linked fuel now child parent rows rows') where
  abbrev final : List Publication
  final = set_latest now l.latest.id (set_parent now child parent l.middle)

  -- A row of the final table, and the parent that it has there.
  final-back :
      (r' : Publication)
      → Memᴰ r' final
      → (r : Publication) × Memᴰ r rows
        × (r'.id ≡ r.id)
        × (r'.parent_publication_id
            ≡ (if r.id == child then some parent else r.parent_publication_id))
  final-back r' m =
      let (r2, m2, id2, _, up2, _, _) = set_latest-back now l.latest.id _ r' m in
      let (r1, m1, id1, _, up1, _) = set_parent-back now child parent l.middle r2 m2 in
      let (r0, m0, c) = l.clears.back r1 m1 in
      (r0, m0, id2 ∙ id1 ∙ Cleared-id c, up2 ∙ up1 ∙ rw (Cleared-id c, Cleared-parent c))

  final-OneParent : OneParent rows → OneParent final
  final-OneParent one r s m n e =
      let (r0, m0, idr, upr) = final-back r m in
      let (s0, n0, ids, ups) = final-back s n in
      let same : r0.id ≡ s0.id = sym idr ∙ e ∙ ids in
      upr ∙ rw (one r0 s0 m0 n0 same, same) (sym ups)

  final-Top : {root : ℕ} → Top rows root → root ≢ child → Top final root
  final-Top t other =
      let (r1, m1, c) = l.clears.forth t.top t.listed in
      let (r2, m2, id2, up2) = set_parent-forth now child parent l.middle r1 m1 in
      let (r3, m3, id3, _, up3, _) = set_latest-forth now l.latest.id _ r2 m2 in
      let id1 = Cleared-id c ∙ t.named in
      record {
        top = r3;
        listed = m3;
        named = id3 ∙ id2 ∙ id1;
        no_parent = up3 ∙ up2 ∙ keep r1 (λ e. other (sym id1 ∙ e)) ∙ Cleared-parent c ∙ t.no_parent;
      }
    where
      keep :
          (r : Publication)
          → r.id ≢ child
          → (if r.id == child then some parent else r.parent_publication_id)
            ≡ r.parent_publication_id
      keep r h = ground arith

  Descendant-final : {i : ℕ} → Descendant final l.child_root i → Descendant rows l.child_root i
  Descendant-final here = here
  Descendant-final (below d e) =
      elim (Edge-linked fuel now child parent rows l _ _
        (Edge-final fuel now child parent rows l _ _ e)) [
          | inl old ↦ below (Descendant-final d) old
          | inr (is_child, _) ↦ subst (Descendant rows l.child_root) (sym is_child) l.child_top.over
        ]

abbrev top_of : {rows : List Publication} {root c : ℕ} → Root rows root c → Top rows root
top_of r = record { top = r.top; listed = r.listed; named = r.named; no_parent = r.no_parent }

-- Ids being unique, where `child` is not the root of its lineage and the parent is in another
-- lineage, a link that returns leaves the root of the child's old lineage in the table, and no row
-- that is still below it is a latest version.
pub relink_strands :
    (fuel now child parent old new : ℕ) (rows rows' : List Publication)
    → UniqueIds rows
    → find_root fuel rows child ≡ ok old
    → find_root fuel rows parent ≡ ok new
    → old ≢ new
    → old ≢ child
    → link fuel now child parent rows ≡ ok rows'
    → Top rows' old
      × ((r : Publication) → Memᴰ r rows' → Descendant rows' old r.id → r.is_latest_version ≡ false)
relink_strands fuel now child parent old new rows rows' unique ca pb apart inner h =
    subst
      (λ k.
        Top rows' k
        × ((r : Publication)
            → Memᴰ r rows'
            → Descendant rows' k r.id
            → r.is_latest_version ≡ false))
      ea
      (subst
        (λ t.
          Top t l.child_root
          × ((r : Publication)
              → Memᴰ r t
              → Descendant t l.child_root r.id
              → r.is_latest_version ≡ false))
        l.final (old_top, none_latest))
  where
    l : Linked fuel now child parent rows rows'
    l = link-Linked fuel now child parent rows h

    ea : l.child_root ≡ old
    ea = ok-injective (sym l.found_child ∙ ca)

    eb : l.parent_root ≡ new
    eb = ok-injective (sym l.found_parent ∙ pb)

    one : OneParent rows
    one = OneParent-of_UniqueIds unique

    roots_apart : l.child_root ≢ l.parent_root
    roots_apart e = apart (sym ea ∙ e ∙ eb)

    old_top : Top (final fuel now child parent rows l) l.child_root
    old_top = final-Top fuel now child parent rows l (top_of l.child_top) (λ e. inner (sym ea ∙ e))

    new_top : Top (final fuel now child parent rows l) l.parent_root
    new_top = final-Top fuel now child parent rows l (top_of l.parent_top) λ e. roots_apart (
        root_unique one (top_of l.child_top) (top_of l.parent_top) l.child_top.over
          (subst (λ k. Descendant rows l.parent_root k) e here))

    none_latest :
        (r : Publication)
        → Memᴰ r (final fuel now child parent rows l)
        → Descendant (final fuel now child parent rows l) l.child_root r.id
        → r.is_latest_version ≡ false
    none_latest r m d =
        let newest : Descendant (final fuel now child parent rows l) l.parent_root l.latest.id =
          Descendant-mono (final-Edge fuel now child parent rows l)
            (picked fuel now child parent rows l).is_below in
        let off : r.id ≢ l.latest.id = λ e. roots_apart (
          root_unique (final-OneParent fuel now child parent rows l one) old_top new_top d (
            subst (Descendant (final fuel now child parent rows l) l.parent_root) (sym e)
              newest)) in
        Linked-flag fuel now child parent rows l r m off
          (Descendant-final fuel now child parent rows l d)
