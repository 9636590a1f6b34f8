-- ===== src/Domain/Block.antt =====
-- The boxes, pages and blocks of src/domain/document_block.py and src/domain/document_page.py, with
-- the tests that their constructors make. Coordinates and sizes are integers in one small unit.
use evidence_first_investmen.Base.{
  ℤ, ◌||◌, ltb_ℤ, if◌then◌else◌, Outcome, ok, raise, error, value_error,
}

pub record BoundingBox : Type 0 where
  pub x0 : ℤ
  pub y0 : ℤ
  pub x1 : ℤ
  pub y1 : ℤ

-- The constructor, which refuses a box that is turned over.
abbrev pub bounding_box : ℤ → ℤ → ℤ → ℤ → Outcome BoundingBox
bounding_box x0 y0 x1 y1 =
    if ltb_ℤ x1 x0 || ltb_ℤ y1 y0
    then raise (error value_error "ValueError" "bbox requires x1 >= x0 and y1 >= y0")
    else ok (record { x0 = x0; y0 = y0; x1 = x1; y1 = y1 })
