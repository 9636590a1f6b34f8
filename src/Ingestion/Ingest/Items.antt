-- ===== src/Ingestion/Ingest/Items.antt =====
-- The attachments that the last loop of `ingest` in src/ingestion/service.py goes through.
use mathlib.Core.Path.{subst}
use evidence_first_investmen.Base.{
  ℕ, ◌+◌, ◌≡◌, refl, sym, ap, ◌∙◌, List, [], ◌∷◌, map, Memᴰ, length, arith, ok, ok-injective,
  >>=-eq-ok, mem-append_left, mem-append_right, mem-map_of_mem, length-append,
}
use evidence_first_investmen.Ingestion.{SourceAttachment, SourceDocument}
use evidence_first_investmen.Ingestion.Publications.{Ids, id_of}
use evidence_first_investmen.Ingestion.Ingest.{attachments_of}

abbrev pub attachment_count : List SourceDocument → ℕ
attachment_count [] = 0
attachment_count (pub_ ∷ pubs) = length pub_.attachments + attachment_count pubs

length-map {ℓ ℓ'} :
    {A : Type ℓ} {B : Type ℓ'} (f : A → B) (xs : List A) → length (map f xs) ≡ length xs
length-map f [] = refl
length-map f (x ∷ xs) = omega (arith, length-map f xs)

-- The loop has an item for each attachment, and no more items than attachments.
pub attachments_of-length :
    (ids : Ids) (pubs : List SourceDocument) (items : List (ℕ × SourceAttachment))
    → attachments_of ids pubs ≡ ok items
    → length items ≡ attachment_count pubs
unfolding attachments_of
attachments_of-length ids [] items h = ap length (sym (ok-injective h))
attachments_of-length ids (p ∷ pubs) items h =
    let (i, e1, h1) = >>=-eq-ok (id_of ids p) _ h in
    let (rest, e2, h2) = >>=-eq-ok (attachments_of ids pubs) _ h1 in
    let own : List (ℕ × SourceAttachment) = map (λ (a : SourceAttachment). (i, a)) p.attachments in
    ap length (sym (ok-injective h2))
    ∙ omega (
      arith,
      length-append own rest,
      length-map {B = ℕ × SourceAttachment} (λ (a : SourceAttachment). (i, a)) p.attachments,
      attachments_of-length ids pubs rest e2,
    )

pub attachments_of-listed :
    (ids : Ids) (pubs : List SourceDocument) (items : List (ℕ × SourceAttachment))
    → attachments_of ids pubs ≡ ok items
    → (p : SourceDocument) (a : SourceAttachment) → Memᴰ p pubs
    → Memᴰ a p.attachments
    → (i : ℕ) × Memᴰ (i, a) items
unfolding attachments_of
attachments_of-listed ids [] items h p a m m' = elim m [ ]
attachments_of-listed ids (q ∷ pubs) items h p a m m' =
    let (i, e1, h1) = >>=-eq-ok (id_of ids q) _ h in
    let (rest, e2, h2) = >>=-eq-ok (attachments_of ids pubs) _ h1 in
    let own : List (ℕ × SourceAttachment) = map (λ (b : SourceAttachment). (i, b)) q.attachments in
    elim m [
      | Memᴰ.head e ↦ (
        i,
        subst (Memᴰ (i, a)) (ok-injective h2) (
            mem-append_left own rest (
              mem-map_of_mem (λ (b : SourceAttachment). (i, b)) q.attachments
                (subst (λ (d : SourceDocument). Memᴰ a d.attachments) e m'))),
      )
      | Memᴰ.tail n ↦
          let (j, listed) = attachments_of-listed ids pubs rest e2 p a n m' in
          (j, subst (Memᴰ (j, a)) (ok-injective h2) (mem-append_right own rest listed))
    ]
