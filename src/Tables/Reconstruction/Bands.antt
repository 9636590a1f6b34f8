-- ===== src/Tables/Reconstruction/Bands.antt =====
-- How `_split_header_band` of src/processing/tables/reconstruction.py divides the rows.
use evidence_first_investmen.Base.{
  ℕ, zero, suc, ◌≤◌, Bool, true, false, not, ◌||◌, ◌≡◌, ◌⊎◌, refl, sym, ap, ◌∙◌, inl, inr, List, [],
  ◌∷◌, ◌++◌, Memᴰ, length, Bool-cases, arith, mem-cons-cases,
}
use evidence_first_investmen.Regex.{TextLibrary}
use evidence_first_investmen.Tables.{ExtractedRow}
use evidence_first_investmen.Tables.Reconstruction.Rows.{
  Split, is_leading, skip_leading, is_header, starts_data, more_band, split_from, split_header_band,
}

module _ (library : TextLibrary) where
  -- What comes before the header band is only empty, unit and title rows. Nothing is lost between the
  -- leading rows, the band and the body, the band has at most four rows, each of which looks like a
  -- header unless it is the only one, and without a band there is no body.
  pub record Divides (rows : List ExtractedRow) (s : Split) : Type 0 where
    pub lead : List ExtractedRow
    pub parts : rows ≡ lead ++ (s.band ++ s.body)
    pub leading : (r : ExtractedRow) → Memᴰ r lead → is_leading library r ≡ true
    pub bounded : length s.band ≤ 4
    pub headers :
        (r : ExtractedRow) → Memᴰ r s.band → (is_header library r ≡ true) ⊎ (s.band ≡ r ∷ [])
    pub bodiless : s.band ≡ [] → s.body ≡ []

  more_band-parts :
      (left : ℕ) (rows : List ExtractedRow)
      → rows ≡ (more_band library left rows).0 ++ (more_band library left rows).1
  more_band-parts zero rows = refl
  more_band-parts (suc left) [] = refl
  more_band-parts (suc left) (row ∷ rows) =
      elim (Bool-cases (starts_data library row || not (is_header library row))) [
        | inl t ↦ rw t refl
        | inr f ↦ rw f (ap (λ rest. row ∷ rest) (more_band-parts left rows))
      ]

  more_band-bounded :
      (left : ℕ) (rows : List ExtractedRow) → length (more_band library left rows).0 ≤ left
  more_band-bounded zero rows = omega arith
  more_band-bounded (suc left) [] = omega arith
  more_band-bounded (suc left) (row ∷ rows) =
      elim (Bool-cases (starts_data library row || not (is_header library row))) [
        | inl t ↦ rw t (omega arith)
        | inr f ↦ rw f (omega (arith, more_band-bounded left rows))
      ]

  header_of : (a b : Bool) → (a || not b) ≡ false → b ≡ true
  header_of a b h = ground arith

  more_band-headers :
      (left : ℕ) (rows : List ExtractedRow) (r : ExtractedRow)
      → Memᴰ r (more_band library left rows).0
      → is_header library r ≡ true
  more_band-headers zero rows r m = elim m [ ]
  more_band-headers (suc left) [] r m = elim m [ ]
  more_band-headers (suc left) (row ∷ rows) r m =
      elim (Bool-cases (starts_data library row || not (is_header library row))) [
        | inl t ↦ elim (rw t at m) [ ]
        | inr f ↦ elim (mem-cons-cases (rw f at m)) [
          | inl e ↦ ap (is_header library) e ∙ header_of (starts_data library row) _ f
          | inr n ↦ more_band-headers left rows r n
        ]
      ]

  split_from-Divides : (rows : List ExtractedRow) → Divides rows (split_from library rows)
  split_from-Divides [] = record {
    lead = [];
    parts = refl;
    leading = λ r m. elim m [ ];
    bounded = omega arith;
    headers = λ r m. elim m [ ];
    bodiless = λ h. refl;
  }
  split_from-Divides (row ∷ rows) = elim (Bool-cases (is_header library row)) [
    | inl t ↦ rw t (record {
      lead = [];
      parts = ap (λ rest. row ∷ rest) (more_band-parts 3 rows);
      leading = λ r m. elim m [ ];
      bounded = omega (arith, more_band-bounded 3 rows);
      headers = λ r m. elim (mem-cons-cases m) [
        | inl e ↦ inl (ap (is_header library) e ∙ t)
        | inr n ↦ inl (more_band-headers 3 rows r n)
      ];
      bodiless = λ h. cc;
    })
    | inr f ↦ rw f (record {
      lead = [];
      parts = refl;
      leading = λ r m. elim m [ ];
      bounded = omega arith;
      headers = λ r m. elim (mem-cons-cases m) [
        | inl e ↦ inr (ap (λ x. x ∷ []) (sym e))
        | inr n ↦ elim n [ ]
      ];
      bodiless = λ h. cc;
    })
  ]

  skip_leading-Divides :
      (rows : List ExtractedRow) → Divides rows (split_from library (skip_leading library rows))
  skip_leading-Divides [] = split_from-Divides []
  skip_leading-Divides (row ∷ rows) = elim (Bool-cases (is_leading library row)) [
    | inr f ↦ rw f (split_from-Divides (row ∷ rows))
    | inl t ↦
        let d = skip_leading-Divides rows in
        rw t (record {
          lead = row ∷ d.lead;
          parts = ap (λ rest. row ∷ rest) d.parts;
          leading = λ r m. elim (mem-cons-cases m) [
            | inl e ↦ ap (is_leading library) e ∙ t
            | inr n ↦ d.leading r n
          ];
          bounded = d.bounded;
          headers = d.headers;
          bodiless = d.bodiless;
        })
  ]

  -- The split of a table's rows divides them.
  pub split_header_band-Divides :
      (rows : List ExtractedRow) → Divides rows (split_header_band library rows)
  unfolding split_header_band
  split_header_band-Divides rows = skip_leading-Divides rows
