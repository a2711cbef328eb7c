-- ===== src/Base/Text.antt =====
-- C strings as lists of bytes, and what the source uses of string.h, strings.h and stdlib.h.
use Prim.Native.Char.{code}
use Prim.Native.String.{String}
use slg.Base.{
  ℕ, zero, suc, ◌+◌, ◌-◌, ◌*◌, List, [], ◌∷◌, map, Option, none, some, Bool, true, false, ◌&&◌,
  ◌||◌, ◌==◌, if◌then◌else◌, leb, ltb, ◌^◌,
}
use slg.Base.Int.{ℤ, pos, negsuc}

-- the bytes of a literal
abbrev pub codes : String → List ℕ
codes String.[] = []
codes (String.◌∷◌ c s) = code c ∷ codes s

-- The string in an array: what stands before its first NUL.
unfoldable pub c_string : List ℕ → List ℕ
c_string [] = []
c_string (c ∷ s) = if c == 0 then [] else c ∷ c_string s

unfoldable pub starts_with : List ℕ → List ℕ → Bool
starts_with [] s = true
starts_with (p ∷ ps) [] = false
starts_with (p ∷ ps) (c ∷ s) = (p == c) && starts_with ps s

-- The offset of the first occurrence.
unfoldable pub strstr : List ℕ → List ℕ → Option ℕ
unfolding starts_with
strstr needle [] = if starts_with needle [] then some 0 else none
strstr needle (c ∷ s) =
    let rest = strstr needle s in
    if starts_with needle (c ∷ s) then some 0 else elim rest [ none ↦ none | some i ↦ some (suc i) ]

unfoldable pub to_lower : ℕ → ℕ
to_lower c = if leb b'A' c && leb c b'Z' then c + 32 else c

unfoldable pub strcasestr : List ℕ → List ℕ → Option ℕ
unfolding strstr to_lower
strcasestr needle s = strstr (map to_lower needle) (map to_lower s)

unfoldable pub is_space : ℕ → Bool
is_space c = (c == 32) || (leb 9 c && leb c 13)

unfoldable pub is_digit : ℕ → Bool
is_digit c = leb b'0' c && leb c b'9'

-- The number that the digits at the head of a string spell behind `n`.
unfoldable pub read_digits : ℕ → List ℕ → ℕ
unfolding is_digit
read_digits n [] = n
read_digits n (c ∷ s) =
    let rest = read_digits (n * 10 + (c - b'0')) s in if is_digit c then rest else n

minus : ℕ → ℤ
minus zero = pos 0
minus (suc n) = negsuc n

-- `atoi` on a number that an int holds; any other is undefined in C, and is kept as it is here.
unfoldable pub atoi : List ℕ → ℤ
unfolding is_space read_digits minus
atoi [] = pos 0
atoi (c ∷ s) =
    let rest = atoi s in
    if is_space c
    then rest
    else if c == b'-'
    then minus (read_digits 0 s)
    else if c == b'+'
    then pos (read_digits 0 s)
    else pos (read_digits 0 (c ∷ s))

module _ {ℓ} {A : Type ℓ} where
  abbrev pub drop : ℕ → List A → List A
  drop zero xs = xs
  drop (suc n) [] = []
  drop (suc n) (x ∷ xs) = drop n xs

-- `atol`, as the C library does it on what a long cannot hold
unfoldable pub atol : List ℕ → ℤ
unfolding atoi
atol s = elim (atoi s) [
  | pos n ↦ pos (if ltb n (2 ^ 63) then n else 2 ^ 63 - 1)
  | negsuc n ↦ negsuc (if ltb n (2 ^ 63) then n else 2 ^ 63 - 1)
]
