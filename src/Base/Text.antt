-- ===== src/Base/Text.antt =====
-- What the program uses of Python's `str`: blank text, truncation, joining.
use Prim.Native.Nat.{ℕ, zero, suc, ◌/◌, ◌%◌}
use Prim.Native.Char.{Char, code}
use Prim.Native.String
use Prim.Native.String.{String}
use mathlib.Core.Bool.{Bool, true, false, not, ◌&&◌, ◌||◌}
use mathlib.Core.List.{List, [], ◌∷◌}
use mathlib.Core.Option.{Option, none, some}
use evidence_first_investmen.Base.Tests.{leb, ◌==◌, if◌then◌else◌}
use text.Mathlib.Text.{◌==◌ as str_eq}

-- `str.isspace` of one character.
abbrev pub is_space : Char → Bool
is_space ch =
    let c = code ch in
    (leb 9 c && leb c 13)
    || (leb 28 c && leb c 32)
    || c == 133
    || c == 160
    || c == 5760
    || (leb 8192 c && leb c 8202)
    || c == 8232
    || c == 8233
    || c == 8239
    || c == 8287
    || c == 12288

-- `not text.strip()`
abbrev pub is_blank : String → Bool
is_blank String.[] = true
is_blank (String.◌∷◌ c s) = is_space c && is_blank s

abbrev pub is_empty : String → Bool
is_empty String.[] = true
is_empty (String.◌∷◌ c s) = false

-- `text[:n]`
abbrev pub take_chars : ℕ → String → String
take_chars zero s = String.[]
take_chars (suc n) String.[] = String.[]
take_chars (suc n) (String.◌∷◌ c s) = String.◌∷◌ c (take_chars n s)

infixr 65 ◌<>◌
abbrev pub ◌<>◌ : String → String → String
s <> t = String.◌++◌ s t

-- `separator.join(texts)`
abbrev pub join : String → List String → String
join separator [] = ""
join separator (t ∷ []) = t
join separator (t ∷ u ∷ ts) = t <> separator <> join separator (u ∷ ts)

-- `len(text)`
abbrev pub count_chars : String → ℕ
count_chars String.[] = 0
count_chars (String.◌∷◌ c s) = suc (count_chars s)

-- `text or default`
abbrev pub text_or : Option String → String → String
text_or none default = default
text_or (some t) default = if is_empty t then default else t

abbrev pub present : Option String → Option String
present none = none
present (some t) = if is_empty t then none else some t

-- `text.lstrip()`, `text.rstrip()` and `text.strip()`
abbrev pub lstrip : String → String
lstrip String.[] = String.[]
lstrip (String.◌∷◌ c s) = let rest = lstrip s in if is_space c then rest else String.◌∷◌ c s

abbrev pub rstrip_with : (Char → Bool) → String → String
rstrip_with drops String.[] = String.[]
rstrip_with drops (String.◌∷◌ c s) =
    let rest = rstrip_with drops s in
    if drops c && is_empty rest then String.[] else String.◌∷◌ c rest

abbrev pub strip : String → String
strip s = rstrip_with is_space (lstrip s)

abbrev pub any_char : (Char → Bool) → String → Bool
any_char p String.[] = false
any_char p (String.◌∷◌ c s) = p c || any_char p s

-- The line boundaries of `str.splitlines`.
abbrev pub is_break : Char → Bool
is_break ch =
    let c = code ch in
    (leb 10 c && leb c 13) || (leb 28 c && leb c 30) || c == 133 || c == 8232 || c == 8233

abbrev pub starts_with_newline : String → Bool
starts_with_newline String.[] = false
starts_with_newline (String.◌∷◌ c s) = code c == 10

-- A boundary that ends its line: "\r\n" is one, which ends at its "\n".
abbrev pub ends_line : Char → String → Bool
ends_line c s = is_break c && not (code c == 13 && starts_with_newline s)

abbrev pub cons_first : Char → List String → List String
cons_first c [] = String.◌∷◌ c String.[] ∷ []
cons_first c (l ∷ ls) = String.◌∷◌ c l ∷ ls

-- `text.splitlines(keepends=True)` and `text.splitlines()`
unfoldable pub lines_kept : String → List String
lines_kept String.[] = []
lines_kept (String.◌∷◌ c s) =
    let rest = lines_kept s in
    if ends_line c s then String.◌∷◌ c String.[] ∷ rest else cons_first c rest

unfoldable pub split_lines : String → List String
split_lines String.[] = []
split_lines (String.◌∷◌ c s) =
    let rest = split_lines s in
    if ends_line c s then String.[] ∷ rest else if is_break c then rest else cons_first c rest

abbrev pub starts_blank : String → Bool
starts_blank String.[] = true
starts_blank (String.◌∷◌ c s) = is_space c

-- `text.split()`
unfoldable pub words : String → List String
words String.[] = []
words (String.◌∷◌ c s) =
    let rest = words s in
    if is_space c
    then rest
    else if starts_blank s
    then String.◌∷◌ c String.[] ∷ rest
    else cons_first c rest

-- `tuple(dict.fromkeys(warnings))`: the first of each text, in order.
abbrev pub without : String → List String → List String
without w [] = []
without w (v ∷ vs) = if str_eq v w then without w vs else v ∷ without w vs

unfoldable pub unique : List String → List String
unique [] = []
unique (w ∷ ws) = w ∷ without w (unique ws)

abbrev pub digit : ℕ → String
digit n =
    if n == 0
    then "0"
    else if n == 1
    then "1"
    else if n == 2
    then "2"
    else if n == 3
    then "3"
    else if n == 4
    then "4"
    else if n == 5
    then "5"
    else if n == 6
    then "6"
    else if n == 7
    then "7"
    else if n == 8
    then "8"
    else "9"

-- The digits of a number; as much fuel as the number is enough.
abbrev pub digits : ℕ → ℕ → String
digits zero n = digit n
digits (suc fuel) n = elim (leb n 9) [
  | true ↦ digit n
  | false ↦ digits fuel (n / 10) <> digit (n % 10)
]

-- `str(n)`
unfoldable pub show : ℕ → String
show n = digits n n
