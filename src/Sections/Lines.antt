-- ===== src/Sections/Lines.antt =====
-- What the lines of `str.splitlines(keepends=True)` are, by the places where a text is cut. The boundaries
-- are those of Python's documentation; src/processing/sections/headings.py walks these lines.
use Prim.Native.Char.{Char, code}
use mathlib.Core.Path.{subst}
use evidence_first_investmen.Base.{
  ℕ, String, Bool, true, false, not, ◌&&◌, ◌≡◌, refl, ap, ◌∙◌, sym, if◌then◌else◌, inl, inr, List,
  [], ◌∷◌, any, ◌==◌, is_empty, Bool-cases, arith, lines_kept, is_break, ends_line, cons_first,
}

-- `s + t`, which walks `s`.
abbrev pub glue : String → String → String
glue String.[] t = t
glue (String.◌∷◌ c s) t = String.◌∷◌ c (glue s t)

-- `"".join(lines)`
abbrev pub concat : List String → String
concat [] = String.[]
concat (l ∷ ls) = glue l (concat ls)

-- Line feed, vertical tab, form feed, carriage return, the file, group and record separators, next line,
-- line separator and paragraph separator.
abbrev pub boundaries : List ℕ
boundaries = 10 ∷ 11 ∷ 12 ∷ 13 ∷ 28 ∷ 29 ∷ 30 ∷ 133 ∷ 8232 ∷ 8233 ∷ []

-- A text is cut between two characters after a boundary, but not inside "\r\n".
abbrev pub is_cut : Char → Char → Bool
is_cut c d = any (λ n. code c == n) boundaries && not (code c == 13 && code d == 10)

-- Nothing is cut inside the text.
abbrev pub is_uncut : String → Bool
is_uncut String.[] = true
is_uncut (String.◌∷◌ c String.[]) = true
is_uncut (String.◌∷◌ c (String.◌∷◌ d s)) = not (is_cut c d) && is_uncut (String.◌∷◌ d s)

-- The text is cut where its second part begins.
abbrev pub is_cut_between : String → String → Bool
is_cut_between String.[] t = false
is_cut_between (String.◌∷◌ c String.[]) String.[] = false
is_cut_between (String.◌∷◌ c String.[]) (String.◌∷◌ d t) = is_cut c d
is_cut_between (String.◌∷◌ c (String.◌∷◌ d s)) t = is_cut_between (String.◌∷◌ d s) t

-- The lines are not empty, they are cut from one another, and none is cut inside: a text has one list of
-- such lines.
abbrev pub IsSplit : List String → Type 0
IsSplit [] = Unit {0}
IsSplit (l ∷ []) = (is_empty l ≡ false) × (is_uncut l ≡ true)
IsSplit (l ∷ m ∷ ls) =
    (is_empty l ≡ false) × (is_uncut l ≡ true) × (is_cut_between l m ≡ true) × IsSplit (m ∷ ls)

is_break_lem : (c : Char) → is_break c ≡ any (λ n. code c == n) boundaries
is_break_lem c = ground arith

ends_line-cut : (c d : Char) (s : String) → ends_line c (String.◌∷◌ d s) ≡ is_cut c d
ends_line-cut c d s = ap (λ b. b && not (code c == 13 && code d == 10)) (is_break_lem c)

concat-cons_first :
    (c : Char) (ls : List String) → concat (cons_first c ls) ≡ String.◌∷◌ c (concat ls)
concat-cons_first c [] = refl
concat-cons_first c (l ∷ ls) = refl

-- The lines that `splitlines` keeps whole are the text.
pub concat-lines_kept : (s : String) → concat (lines_kept s) ≡ s
unfolding lines_kept
concat-lines_kept String.[] = refl
concat-lines_kept (String.◌∷◌ c s) = elim (Bool-cases (ends_line c s)) [
  | inl t ↦ rw t (ap (λ r. String.◌∷◌ c r) (concat-lines_kept s))
  | inr f ↦
      rw f (concat-cons_first c (lines_kept s) ∙ ap (λ r. String.◌∷◌ c r) (concat-lines_kept s))
]

-- The lines of a text that is not empty begin with its first character.
lines_kept-first :
    (d : Char) (s : String)
    → (l : String) × (ls : List String) × (lines_kept (String.◌∷◌ d s) ≡ String.◌∷◌ d l ∷ ls)
unfolding lines_kept
lines_kept-first d s = elim (Bool-cases (ends_line d s)) [
  | inl t ↦ (String.[], lines_kept s, rw t refl)
  | inr f ↦ rw f (first (lines_kept s))
]
  where
    first :
        (rest : List String)
        → (l : String) × (ls : List String) × (cons_first d rest ≡ String.◌∷◌ d l ∷ ls)
    first [] = (String.[], [], refl)
    first (m ∷ ls) = (m, ls, refl)

cut-front :
    (c d : Char) (l : String) (ls : List String)
    → is_cut c d ≡ true
    → IsSplit (String.◌∷◌ d l ∷ ls)
    → IsSplit (String.◌∷◌ c String.[] ∷ String.◌∷◌ d l ∷ ls)
cut-front c d l ls t h = (refl, refl, t, h)

uncut-front :
    (c d : Char) (l : String) (ls : List String)
    → is_cut c d ≡ false
    → IsSplit (String.◌∷◌ d l ∷ ls)
    → IsSplit (String.◌∷◌ c (String.◌∷◌ d l) ∷ ls)
uncut-front c d l [] f (some_text, whole) = (refl, rw (f, whole) refl)
uncut-front c d l (m ∷ ls) f (some_text, whole, cut, h) = (refl, rw (f, whole) refl, cut, h)

-- `splitlines` splits.
pub lines_kept-IsSplit : (s : String) → IsSplit (lines_kept s)
unfolding lines_kept
lines_kept-IsSplit String.[] = tt
lines_kept-IsSplit (String.◌∷◌ c String.[]) = elim (Bool-cases (ends_line c String.[])) [
  | inl t ↦ rw t (refl, refl)
  | inr f ↦ rw f (refl, refl)
]
lines_kept-IsSplit (String.◌∷◌ c (String.◌∷◌ d s)) =
    let (l, ls, e) = lines_kept-first d s in
    let h : IsSplit (String.◌∷◌ d l ∷ ls) = subst IsSplit e (lines_kept-IsSplit (String.◌∷◌ d s)) in
    subst IsSplit
      (sym (
        ap
          (λ rest.
            if ends_line c (String.◌∷◌ d s)
            then String.◌∷◌ c String.[] ∷ rest
            else cons_first c rest)
          e))
      (elim (Bool-cases (ends_line c (String.◌∷◌ d s))) [
        | inl t ↦ rw t (cut-front c d l ls (sym (ends_line-cut c d s) ∙ t) h)
        | inr f ↦ rw f (uncut-front c d l ls (sym (ends_line-cut c d s) ∙ f) h)
      ])
