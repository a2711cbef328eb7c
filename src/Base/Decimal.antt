-- ===== src/Base/Decimal.antt =====
-- `%d` and `%u` of printf, and that `atoi` reads them back.
use slg.Base.{
  ℕ, zero, suc, ◌+◌, ◌-◌, ◌/◌, ◌%◌, ◌^◌, ◌≤◌, ◌<◌, ◌≡◌, refl, ◌∙◌, ◌*◌, List, [], ◌∷◌, ◌++◌, arith,
  ltb, lt→ltb, length, if◌then◌else◌,
}
use slg.Base.Int.{pos}
use slg.Base.Text.{read_digits, atoi}

-- The digits of `n` before `out`; the fuel `n + 1` is enough.
digits : ℕ → ℕ → List ℕ → List ℕ
digits zero n out = out
digits (suc f) n out =
    let d = b'0' + n % 10 in
    let rest = digits f (n / 10) (d ∷ out) in if ltb n 10 then d ∷ out else rest

unfoldable pub decimal : ℕ → List ℕ
unfolding digits
decimal n = digits (suc n) n []

-- `%d` of the 32 bits of a word: the upper half of the words is negative.
unfoldable pub print_int : ℕ → List ℕ
unfolding decimal
print_int w = if ltb w (2 ^ 31) then decimal w else b'-' ∷ decimal (2 ^ 32 - w)

abbrev pub IsDigit : ℕ → Type 0
IsDigit c = (b'0' ≤ c) × (c ≤ b'9')

-- Text that a printed number can be: digits, and at least one.
abbrev pub AllDigits : List ℕ → Type 0
AllDigits [] = Unit {0}
AllDigits (c ∷ s) = IsDigit c × AllDigits s

abbrev pub IsNumeral : List ℕ → Type 0
IsNumeral [] = ⊥
IsNumeral (c ∷ s) = IsDigit c × AllDigits s

digits-IsNumeral : (f n : ℕ) (out : List ℕ) → n < f → AllDigits out → IsNumeral (digits f n out)
unfolding digits
digits-IsNumeral zero n out h a = absurd (omega arith)
digits-IsNumeral (suc f) n out h a =
    ground (arith, digits-IsNumeral f (n / 10) ((b'0' + n % 10) ∷ out))

pub decimal-IsNumeral : (n : ℕ) → IsNumeral (decimal n)
unfolding decimal
decimal-IsNumeral n = digits-IsNumeral (suc n) n [] (omega arith) tt

read_digits-digits :
    (f n : ℕ) (out : List ℕ) → n < f → read_digits 0 (digits f n out) ≡ read_digits n out
unfolding digits read_digits
read_digits-digits zero n out h = absurd (omega arith)
read_digits-digits (suc f) n out h =
    ground (arith, read_digits-digits f (n / 10) ((b'0' + n % 10) ∷ out))

atoi_numeral : (s : List ℕ) → IsNumeral s → atoi s ≡ pos (read_digits 0 s)
unfolding atoi
atoi_numeral [] h = absurd h
atoi_numeral (c ∷ s) h = ground arith

-- `atoi` reads back what `%d` prints.
pub atoi-decimal : (n : ℕ) → atoi (decimal n) ≡ pos n
unfolding decimal read_digits
atoi-decimal n =
    rw (
      atoi_numeral (decimal n) (decimal-IsNumeral n),
      read_digits-digits (suc n) n [] (omega arith),
    )

read_digits-line : (m : ℕ) (s : List ℕ) → read_digits m (s ++ b'\n' ∷ []) ≡ read_digits m s
unfolding read_digits
read_digits-line m [] = refl
read_digits-line m (c ∷ s) = ground (arith, read_digits-line (m * 10 + (c - b'0')) s)

atoi_line : (s : List ℕ) → IsNumeral s → atoi (s ++ b'\n' ∷ []) ≡ atoi s
unfolding atoi
atoi_line [] h = absurd h
atoi_line (c ∷ s) h = ground (arith, read_digits-line 0 (c ∷ s))

-- The end of the line does not change the number.
pub atoi-decimal_line : (n : ℕ) → atoi (decimal n ++ b'\n' ∷ []) ≡ pos n
atoi-decimal_line n = atoi_line (decimal n) (decimal-IsNumeral n) ∙ atoi-decimal n

digits-length :
    (k f n : ℕ) (out : List ℕ) → n < 10 ^ suc k → length (digits f n out) ≤ suc k + length out
unfolding digits
digits-length k zero n out h = omega arith
digits-length zero (suc f) n out h = rw (lt→ltb n 10 (omega arith)) (omega arith)
digits-length (suc k) (suc f) n out h =
    let m : 10 ^ suc (suc k) ≡ 10 * 10 ^ suc k = ground arith in
    let later = digits-length k f (n / 10) ((b'0' + n % 10) ∷ out) (omega (arith, m)) in
    ground (arith, later)

-- A number below 10 ^ k has at most k digits.
pub length-decimal : (k n : ℕ) → n < 10 ^ suc k → length (decimal n) ≤ suc k
unfolding decimal
length-decimal k n h = omega (arith, digits-length k (suc n) n [] h)
