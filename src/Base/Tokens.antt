-- ===== src/Base/Tokens.antt =====
-- `strtok` of string.h, and how it takes apart a line of fields.
use slg.Base.{
  ℕ, ◌≡◌, ◌≢◌, refl, List, [], ◌∷◌, ◌++◌, Option, none, some, Bool, arith, ◌==◌, if◌then◌else◌,
}
use slg.Base.Text.{c_string}
use slg.Base.Decimal.{AllDigits, IsNumeral}

unfoldable pub skip : (ℕ → Bool) → List ℕ → List ℕ
skip is_delimiter [] = []
skip is_delimiter (c ∷ s) = let rest = skip is_delimiter s in if is_delimiter c then rest else c ∷ s

unfoldable pub until_delimiter : (ℕ → Bool) → List ℕ → List ℕ × List ℕ
until_delimiter is_delimiter [] = ([], [])
until_delimiter is_delimiter (c ∷ s) =
    let rest = until_delimiter is_delimiter s in
    if is_delimiter c then ([], s) else (c ∷ rest.0, rest.1)

unfoldable pub token_of : (ℕ → Bool) → List ℕ → Option (List ℕ) × List ℕ
token_of is_delimiter [] = (none, [])
token_of is_delimiter (c ∷ s) =
    let found = until_delimiter is_delimiter (c ∷ s) in (some found.0, found.1)

-- The next token, NULL at the end, and what the next call with NULL goes on from.
unfoldable pub strtok : (ℕ → Bool) → List ℕ → Option (List ℕ) × List ℕ
unfolding skip until_delimiter token_of
strtok is_delimiter s = token_of is_delimiter (skip is_delimiter s)

abbrev pub comma : ℕ → Bool
comma c = c == b','

abbrev pub Plain : List ℕ → Type 0
Plain [] = Unit {0}
Plain (c ∷ s) = (c ≢ 0) × (c ≢ b',') × (c ≢ b'\n') × Plain s

-- Text that can be a field of a message: a byte at least, and no NUL, comma or end of line.
abbrev pub IsField : List ℕ → Type 0
IsField [] = ⊥
IsField (c ∷ s) = Plain (c ∷ s)

AllDigits-Plain : (s : List ℕ) → AllDigits s → Plain s
AllDigits-Plain [] h = tt
AllDigits-Plain (c ∷ s) h = ground (arith, AllDigits-Plain s)

pub IsNumeral-IsField : (s : List ℕ) → IsNumeral s → IsField s
IsNumeral-IsField [] h = absurd h
IsNumeral-IsField (c ∷ s) h = AllDigits-Plain (c ∷ s) h

until_delimiter-field :
    (w rest : List ℕ) → Plain w → until_delimiter comma (w ++ b',' ∷ rest) ≡ (w, rest)
unfolding until_delimiter
until_delimiter-field [] rest h = refl
until_delimiter-field (c ∷ w) rest h = ground (arith, until_delimiter-field w rest)

until_delimiter-last : (w : List ℕ) → Plain w → until_delimiter comma w ≡ (w, [])
unfolding until_delimiter
until_delimiter-last [] h = refl
until_delimiter-last (c ∷ w) h = ground (arith, until_delimiter-last w)

pub strtok-field : (w rest : List ℕ) → IsField w → strtok comma (w ++ b',' ∷ rest) ≡ (some w, rest)
unfolding strtok skip token_of
strtok-field [] rest h = absurd h
strtok-field (c ∷ w) rest h = ground (arith, until_delimiter-field (c ∷ w) rest h)

pub strtok-last : (w : List ℕ) → IsField w → strtok comma w ≡ (some w, [])
unfolding strtok skip token_of
strtok-last [] h = absurd h
strtok-last (c ∷ w) h = ground (arith, until_delimiter-last (c ∷ w) h)

until_delimiter-line :
    (w : List ℕ) → Plain w → until_delimiter comma (w ++ b'\n' ∷ []) ≡ (w ++ b'\n' ∷ [], [])
unfolding until_delimiter
until_delimiter-line [] h = refl
until_delimiter-line (c ∷ w) h = ground (arith, until_delimiter-line w)

-- A last field with the end of the line behind it, which is no delimiter.
pub strtok-line :
    (w : List ℕ) → IsField w → strtok comma (w ++ b'\n' ∷ []) ≡ (some (w ++ b'\n' ∷ []), [])
unfolding strtok skip token_of
strtok-line [] h = absurd h
strtok-line (c ∷ w) h = ground (arith, until_delimiter-line (c ∷ w) h)

pub c_string-field : (w rest : List ℕ) → Plain w → c_string (w ++ rest) ≡ w ++ c_string rest
unfolding c_string
c_string-field [] rest h = refl
c_string-field (c ∷ w) rest h = ground (arith, c_string-field w rest)
