-- ===== src/Master/Config/Lines.antt =====
-- A configuration file of comments, empty lines and assignments: what reading it does.
use slg.Base.{
  ◌⊎◌, ℕ, zero, suc, ◌≤◌, ◌<◌, ◌≡◌, ◌≢◌, refl, List, [], ◌∷◌, ◌++◌, some, true, length, arith,
}
use slg.Base.Text.{c_string}
use slg.Base.Tokens.{strtok, skip, until_delimiter, token_of}
use slg.Base.Outcome.{Outcome, ok, ◌>>=◌}
use slg.Master.Config.{Config, BadConfig, blank, fgets}
use slg.Master.Config.Names.{Name, spelled, meaning, IsNone}

-- An assignment has delimiters before the name, between the name and the value, and text behind them.
pub data Line : Type 0 where
  comment : List ℕ → Line
  empty : Line
  assignment : (lead : List ℕ) (name : Name) (separator value trail : List ℕ) → Line

-- A line without its end.
abbrev pub body_of : Line → List ℕ
body_of (comment s) = b'#' ∷ s
body_of empty = []
body_of (assignment lead name separator value trail) =
    lead ++ (spelled name ++ (separator ++ (value ++ trail)))

-- "#text\n", "\n", "name = value\n"
abbrev pub text_of : Line → List ℕ
text_of l = body_of l ++ b'\n' ∷ []

abbrev pub file_of : List Line → List ℕ
file_of [] = []
file_of (l ∷ ls) = text_of l ++ file_of ls

-- No NUL and no end of line.
abbrev pub OneLine : List ℕ → Type 0
OneLine [] = Unit {0}
OneLine (c ∷ s) = (c ≢ 0) × (c ≢ b'\n') × OneLine s

abbrev pub NoBlank : List ℕ → Type 0
NoBlank [] = Unit {0}
NoBlank (c ∷ s) = (c ≢ 0) × (c ≢ b'\n') × (c ≢ b' ') × (c ≢ b'=') × NoBlank s

-- Blanks and equality signs.
abbrev pub Blanks : List ℕ → Type 0
Blanks [] = Unit {0}
Blanks (c ∷ s) = ((c ≡ b' ') ⊎ (c ≡ b'=')) × Blanks s

-- A name or a value: not empty, and no blank in it.
abbrev pub IsWord : List ℕ → Type 0
IsWord [] = ⊥
IsWord (c ∷ s) = NoBlank (c ∷ s)

abbrev pub IsName : List ℕ → Type 0
IsName [] = ⊥
IsName (c ∷ s) = (c ≢ b'#') × NoBlank (c ∷ s)

abbrev pub IsSeparator : List ℕ → Type 0
IsSeparator [] = ⊥
IsSeparator (c ∷ s) = Blanks (c ∷ s)

-- Nothing, or a blank and any text.
abbrev pub IsTrail : List ℕ → Type 0
IsTrail [] = Unit {0}
IsTrail (c ∷ s) = ((c ≡ b' ') ⊎ (c ≡ b'=')) × OneLine s

abbrev pub IsLine : Line → Type 0
IsLine (comment s) = OneLine s
IsLine empty = Unit {0}
IsLine (assignment lead name separator value trail) =
    Blanks lead
    × IsName (spelled name)
    × IsNone name
    × IsSeparator separator
    × IsWord value
    × IsTrail trail

abbrev pub AreLines : List Line → Type 0
AreLines [] = Unit {0}
AreLines (l ∷ ls) = IsLine l × (length (text_of l) ≤ 2047) × AreLines ls

-- What the lines mean, one after another.
abbrev pub apply_line : Line → Config → Outcome BadConfig Config
apply_line (comment s) c = ok c
apply_line empty c = ok c
apply_line (assignment lead name separator value trail) c = meaning name value c

abbrev pub apply_lines : List Line → Config → Outcome BadConfig Config
apply_lines [] c = ok c
apply_lines (l ∷ ls) c = apply_line l c >>= apply_lines ls

pub NoBlank-OneLine : (s : List ℕ) → NoBlank s → OneLine s
NoBlank-OneLine [] h = tt
NoBlank-OneLine (c ∷ s) h = (h.0, h.1, NoBlank-OneLine s h.4)

pub OneLine-append : (s t : List ℕ) → OneLine s → OneLine t → OneLine (s ++ t)
OneLine-append [] t h k = k
OneLine-append (c ∷ s) t h k = (h.0, h.1, OneLine-append s t h.2 k)

pub fgets-line :
    (n : ℕ) (s rest : List ℕ)
    → OneLine s
    → length s < n
    → fgets n (s ++ b'\n' ∷ rest) ≡ (s ++ b'\n' ∷ [], rest)
unfolding fgets
fgets-line zero s rest h l = absurd (omega arith)
fgets-line (suc n) [] rest h l = refl
fgets-line (suc n) (c ∷ s) rest h l = ground (arith, fgets-line n s rest)

pub c_string-line : (s : List ℕ) → OneLine s → c_string (s ++ b'\n' ∷ []) ≡ s ++ b'\n' ∷ []
unfolding c_string
c_string-line [] h = refl
c_string-line (c ∷ s) h = ground (arith, c_string-line s)

until_delimiter-word :
    (w rest : List ℕ) (d : ℕ)
    → NoBlank w
    → blank d ≡ true
    → until_delimiter blank (w ++ d ∷ rest) ≡ (w, rest)
unfolding until_delimiter
until_delimiter-word [] rest d h b = ground (arith, b)
until_delimiter-word (c ∷ w) rest d h b = ground (arith, until_delimiter-word w rest d)

pub strtok-word :
    (w rest : List ℕ) (d : ℕ)
    → IsWord w
    → blank d ≡ true
    → strtok blank (w ++ d ∷ rest) ≡ (some w, rest)
unfolding strtok skip token_of
strtok-word [] rest d h b = absurd h
strtok-word (c ∷ w) rest d h b = ground (arith, until_delimiter-word (c ∷ w) rest d h b)

blank_of : (c : ℕ) → (c ≡ b' ') ⊎ (c ≡ b'=') → blank c ≡ true
blank_of c h = ground arith

-- Delimiters in front of a token are skipped.
pub strtok-Blanks : (s rest : List ℕ) → Blanks s → strtok blank (s ++ rest) ≡ strtok blank rest
unfolding strtok skip
strtok-Blanks [] rest h = refl
strtok-Blanks (c ∷ s) rest (d, h) = rw (blank_of c d) (strtok-Blanks s rest h)

pub strtok-separator :
    (w separator rest : List ℕ)
    → IsWord w
    → IsSeparator separator
    → (rest' : List ℕ) × (strtok blank (w ++ (separator ++ rest)) ≡ (some w, rest'))
      × (strtok blank rest' ≡ strtok blank rest)
strtok-separator w [] rest h b = absurd b
strtok-separator w (d ∷ s) rest h (b, bs) =
    (s ++ rest, strtok-word w (s ++ rest) d h (blank_of d b), strtok-Blanks s rest bs)

pub strtok-trail :
    (w trail : List ℕ)
    → IsWord w
    → IsTrail trail
    → (rest : List ℕ) × (strtok blank (w ++ (trail ++ b'\n' ∷ [])) ≡ (some w, rest))
strtok-trail w [] h t = ([], strtok-word w [] b'\n' h refl)
strtok-trail w (d ∷ s) h (b, o) =
    (s ++ b'\n' ∷ [], strtok-word w (s ++ b'\n' ∷ []) d h (blank_of d b))

pub Blanks-OneLine : (s : List ℕ) → Blanks s → OneLine s
Blanks-OneLine [] h = tt
Blanks-OneLine (c ∷ s) (b, h) = (ground arith, ground arith, Blanks-OneLine s h)

pub IsTrail-OneLine : (s : List ℕ) → IsTrail s → OneLine s
IsTrail-OneLine [] h = tt
IsTrail-OneLine (c ∷ s) (b, h) = (ground arith, ground arith, h)

pub IsSeparator-Blanks : (s : List ℕ) → IsSeparator s → Blanks s
IsSeparator-Blanks [] h = absurd h
IsSeparator-Blanks (c ∷ s) h = h
