-- ===== src/Base/Count.antt =====
-- How often a number stands in a list of numbers, and what that says of the list's length.
use Prim.Native.Nat.{ℕ, zero, suc, ◌+◌, ◌≤◌, ◌<◌}
use mathlib.Core.Path.{◌≡◌, refl}
use mathlib.Core.List.{List, [], ◌∷◌, ◌++◌}
use native.Mathlib.Decide.{dec_lt}
use native.Mathlib.Omega.{arith}
use slg.Base.Tests.{◌==◌, if◌then◌else◌}
use slg.Base.Lists.{length}

-- one where the numbers agree, nothing elsewhere
abbrev pub tally : ℕ → ℕ → ℕ
tally x i = if x == i then 1 else 0

unfoldable pub count : ℕ → List ℕ → ℕ
count i [] = 0
count i (x ∷ xs) = tally x i + count i xs

pub count-append : (i : ℕ) (xs ys : List ℕ) → count i (xs ++ ys) ≡ count i xs + count i ys
unfolding count
count-append i [] ys = omega arith
count-append i (x ∷ xs) ys = omega (arith, count-append i xs ys)

-- the sum of the counts of the numbers below `n`
pub total : ℕ → List ℕ → ℕ
total zero xs = 0
total (suc n) xs = total n xs + count n xs

total-nil : (n : ℕ) → total n [] ≡ 0
unfolding total count
total-nil zero = refl
total-nil (suc n) = omega (arith, total-nil n)

total-cons_above : (n x : ℕ) (xs : List ℕ) → n ≤ x → total n (x ∷ xs) ≡ total n xs
unfolding total count
total-cons_above zero x xs h = refl
total-cons_above (suc n) x xs h = ground (arith, total-cons_above n x xs)

total-cons : (n x : ℕ) (xs : List ℕ) → x < n → total n (x ∷ xs) ≡ suc (total n xs)
unfolding total count
total-cons zero x xs h = absurd (omega arith)
total-cons (suc n) x xs h = ground (arith, total-cons n x xs, total-cons_above n x xs)

-- every number of the list is below `n`
abbrev pub AllBelow : ℕ → List ℕ → Type 0
AllBelow n [] = Unit {0}
AllBelow n (x ∷ xs) = (x < n) × AllBelow n xs

pub AllBelow-append :
    (n : ℕ) (xs ys : List ℕ) → AllBelow n xs → AllBelow n ys → AllBelow n (xs ++ ys)
AllBelow-append n [] ys hx hy = hy
AllBelow-append n (x ∷ xs) ys (h, hx) hy = (h, AllBelow-append n xs ys hx hy)

length-eq-total : (n : ℕ) (xs : List ℕ) → AllBelow n xs → length xs ≡ total n xs
length-eq-total n [] h = omega (arith, total-nil n)
length-eq-total n (x ∷ xs) h = omega (arith, length-eq-total n xs h.1, total-cons n x xs h.0)

total-le : (n : ℕ) (xs : List ℕ) → ((i : ℕ) → count i xs ≤ 1) → total n xs ≤ n
unfolding total
total-le zero xs h = omega arith
total-le (suc n) xs h = omega (arith, total-le n xs h, h n)

total-lt :
    (n i : ℕ) (xs : List ℕ) → ((j : ℕ) → count j xs ≤ 1) → i < n → count i xs ≡ 0 → total n xs < n
unfolding total
total-lt zero i xs h lt e = absurd (omega arith)
total-lt (suc n) i xs h lt e = elim (dec_lt i n) [
  | yes p ↦ omega (arith, total-lt n i xs h p e, h n)
  | no p ↦ ground (arith, total-le n xs h)
]

-- A list of distinct numbers below `n` that misses one of them is shorter than `n`.
pub length-lt_of_missing :
    (n i : ℕ) (xs : List ℕ)
    → AllBelow n xs
    → ((j : ℕ) → count j xs ≤ 1)
    → i < n
    → count i xs ≡ 0
    → length xs < n
length-lt_of_missing n i xs below once lt e =
    omega (arith, length-eq-total n xs below, total-lt n i xs once lt e)

pub count_above : (n i : ℕ) (xs : List ℕ) → AllBelow n xs → n ≤ i → count i xs ≡ 0
unfolding count
count_above n i [] h le = refl
count_above n i (x ∷ xs) h le = ground (arith, count_above n i xs h.1 le)

pub count-cons : (i x : ℕ) (xs : List ℕ) → count i (x ∷ xs) ≡ tally x i + count i xs
unfolding count
count-cons i x xs = refl

pub count-nil : (i : ℕ) → count i [] ≡ 0
unfolding count
count-nil i = refl

-- a number at the end of a list
pub count-snoc : (i x : ℕ) (xs : List ℕ) → count i (xs ++ (x ∷ [])) ≡ count i xs + tally x i
unfolding count
count-snoc i x xs = omega (arith, count-append i xs (x ∷ []))
