-- ===== src/Pages.antt =====
-- The rows of `document_pages` and `document_blocks`, and the statements of
-- src/db/repositories/document_page.py and src/db/repositories/document_block.py, with the tests of
-- the domain constructors (src/domain/document_page.py, src/domain/document_block.py) and the unique
-- constraints of migrations 006 and 007.
use evidence_first_investmen.Base.{
  ℕ, ℤ, pos, String, Bool, not, ◌&&◌, ◌||◌, Option, none, some, List, [], ◌∷◌, ◌++◌, any, map,
  select, elem, ltb, leb_ℤ, ◌==◌, if◌then◌else◌, Outcome, ok, raise, Error, error, value_error,
  sqlalchemy_error, ◌>>◌,
}
use evidence_first_investmen.Domain.{ExtractionMethod, BlockType}
use evidence_first_investmen.Domain.Block.{BoundingBox}
use evidence_first_investmen.Ocr.{Score}
use evidence_first_investmen.Pipeline.{Content}

pub record DocumentPage : Type 0 where
  pub id : ℕ
  pub document_id : ℕ
  pub page_number : ℕ
  pub text : String
  pub extraction_method : ExtractionMethod
  pub ocr_confidence : Option Score
  pub width : ℤ
  pub height : ℤ
  pub created_at : ℕ

pub record DocumentBlock : Type 0 where
  pub id : ℕ
  pub page_id : ℕ
  pub block_index : ℕ
  pub block_type : BlockType
  pub bbox : Option BoundingBox
  pub content : Content
  pub created_at : ℕ

abbrev pub refuse : String → Error
refuse message = error value_error "ValueError" message

abbrev pub integrity_error : Error
integrity_error = error sqlalchemy_error "IntegrityError" "unique constraint"

abbrev pub check_confidence : ExtractionMethod → Option Score → DocumentPage → Outcome DocumentPage
check_confidence ExtractionMethod.native none page = ok page
check_confidence ExtractionMethod.native (some c) page =
    raise (refuse "native extraction must not set ocr_confidence")
check_confidence ExtractionMethod.ocr none page =
    raise (refuse "ocr extraction requires ocr_confidence")
check_confidence ExtractionMethod.ocr (some c) page = ok page

-- `DocumentPage.__post_init__`
unfoldable pub check_page : DocumentPage → Outcome DocumentPage
check_page page =
    if ltb page.page_number 1
    then raise (refuse "page_number must be >= 1")
    else if leb_ℤ page.width (pos 0) || leb_ℤ page.height (pos 0)
    then raise (refuse "width and height must be > 0")
    else check_confidence page.extraction_method page.ocr_confidence page

abbrev pub same_page_key : DocumentPage → DocumentPage → Bool
same_page_key p q = p.document_id == q.document_id && p.page_number == q.page_number

unfoldable pub create_page : DocumentPage → List DocumentPage → Outcome (List DocumentPage)
unfolding check_page
create_page page pages =
    check_page page
    >> (if any (same_page_key page) pages then raise integrity_error else ok (pages ++ page ∷ []))

abbrev pub is_of_document : ℕ → DocumentPage → Bool
is_of_document document_id p = p.document_id == document_id

unfoldable pub delete_by_document : ℕ → List DocumentPage → List DocumentPage
delete_by_document document_id pages = select (λ p. not (is_of_document document_id p)) pages

abbrev pub same_block_key : DocumentBlock → DocumentBlock → Bool
same_block_key a b = a.page_id == b.page_id && a.block_index == b.block_index

-- Block numbers are never negative here and contents are dicts, so the constructor accepts them.
unfoldable pub create_block : DocumentBlock → List DocumentBlock → Outcome (List DocumentBlock)
create_block block blocks =
    if any (same_block_key block) blocks then raise integrity_error else ok (blocks ++ block ∷ [])

abbrev pub page_ids_of : ℕ → List DocumentPage → List ℕ
page_ids_of document_id pages = map (λ p. p.id) (select (is_of_document document_id) pages)

-- With no page ids the statement is skipped, which deletes as little.
unfoldable pub delete_for_document : ℕ → List DocumentPage → List DocumentBlock → List DocumentBlock
delete_for_document document_id pages blocks =
    select (λ b. not (elem b.page_id (page_ids_of document_id pages))) blocks
