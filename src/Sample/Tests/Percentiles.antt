-- ===== src/Sample/Tests/Percentiles.antt =====
-- Percentiles of two samples of three whole numbers.
use mathlib.Core.List.{Perm}
use mathlib.Core.List.Perm
use native.Mathlib.Nat.{mul-le-mul_right, le_of_mul-le-mul_left, div-add-mod, mul-pos}
use slg.Base.{ℕ, ◌+◌, ◌-◌, ◌*◌, ◌/◌, ◌%◌, ◌≤◌, ◌≡◌, refl, [], ◌∷◌, true, arith, ltb, ◌<◌}
use slg.Base.Outcome.{ok}
use slg.Sample.{Sample, Arithmetic}
use slg.Sample.Fill.{Holds}
use slg.Sample.Percentile.{
  Floats, Deviation, compare_elem, percentil_average_lf, percentil_stddev_lf,
}
use slg.Sample.Percentile.Steady.{percentil-perm}
use slg.Sample.Percentile.Rounding.{IsRounded}
use slg.Sample.Tests.Insertion.{insertion, insertion-Sorts, ltb-IsOrder}

abbrev pub whole : Arithmetic ℕ
whole = record { nought = 0; add = λ a b. a + b; divide = λ a b. a / b; of_count = λ n. n }

abbrev pub spread : Deviation ℕ
spread = record {
  square_of_difference = λ a b. (a - b) * (a - b) + (b - a) * (b - a);
  root = λ a. a;
}

-- Exact fractions: a numerator and a denominator.
abbrev pub exact : Floats (ℕ × ℕ)
exact = record {
  of_count = λ n. (n, 1);
  subtract = λ a b. (a.0 * b.1 - b.0 * a.1, a.1 * b.1);
  divide = λ a b. (a.0 * b.1, a.1 * b.0);
  multiply = λ a b. (a.0 * b.0, a.1 * b.1);
  to_float = λ a. a;
  floor = λ a. a.0 / a.1;
}

abbrev pub AtMost : ℕ × ℕ → ℕ → ℕ → Type 0
AtMost g p q = (0 < g.1) × (g.0 * q ≤ p * g.1)

weaker_bound : (a b p q p' q' : ℕ) → 0 < q → p * q' ≤ p' * q → a * q ≤ p * b → a * q' ≤ p' * b
weaker_bound a b p q p' q' hq le h =
    let m = mul-le-mul_right q' h in
    let k = mul-le-mul_right b le in
    let scaled : q * (a * q') ≤ q * (p' * b) = omega (arith, m, k) in
    le_of_mul-le-mul_left scaled hq

quotient_bound : (a b p q n : ℕ) → a * q ≤ p * b → a * 1 * (q * n * 1000) ≤ p * 1001 * (b * n)
quotient_bound a b p q n h = let m = mul-le-mul_right n h in omega (arith, m)

product_bound :
    (a b p q n : ℕ) → a * q ≤ p * b → n * a * (q * (1000 * 1000)) ≤ n * p * (1001 * 1001) * (1 * b)
product_bound a b p q n h = let m = mul-le-mul_right n h in omega (arith, m)

positive_product : (b n : ℕ) → 0 < b → 0 < n → 0 < b * n
positive_product b n hb hn = mul-pos hb hn

floor_bound : (a b p q : ℕ) → 0 < b → a * q ≤ p * b → a / b * q ≤ p
floor_bound a b p q hb h =
    let d : b * (a / b) + a % b ≡ a = div-add-mod a b in
    let low : b * (a / b) ≤ a = omega (arith, d) in
    let m = mul-le-mul_right q low in
    let scaled : b * (a / b * q) ≤ b * p = omega (arith, m, h) in le_of_mul-le-mul_left scaled hb

pub exact-IsRounded : IsRounded exact AtMost
exact-IsRounded = record {
  weaker = λ g p q p' q' hq hq' le h. (h.0, weaker_bound g.0 g.1 p q p' q' hq le h.1);
  difference = λ a b small le. (omega arith, omega arith);
  quotient = λ g p q n hq hn small low high h.
      (positive_product g.1 n h.0 hn, quotient_bound g.0 g.1 p q n h.1);
  rounded = λ g p q hq low high h. (h.0, omega (arith, h.1));
  product = λ g p q n hq hn fits low high h.
      (positive_product 1 g.1 (omega arith) h.0, product_bound g.0 g.1 p q n h.1);
  whole = λ g p q hq fits h. floor_bound g.0 g.1 p q h.0 h.1;
}

abbrev one_way : Sample ℕ
one_way = record { s = 5 ∷ 1 ∷ 9 ∷ []; nb_elem = 3; size_max = 3 }

abbrev other_way : Sample ℕ
other_way = record { s = 9 ∷ 5 ∷ 1 ∷ 0 ∷ []; nb_elem = 3; size_max = 4 }

one_way-Holds : Holds one_way (5 ∷ 1 ∷ 9 ∷ [])
one_way-Holds = record { storage = refl; fits = omega arith; count = refl; elements = refl }

other_way-Holds : Holds other_way (9 ∷ 5 ∷ 1 ∷ [])
other_way-Holds = record { storage = refl; fits = omega arith; count = refl; elements = refl }

turned : Perm {A = ℕ} (5 ∷ 1 ∷ 9 ∷ []) (9 ∷ 5 ∷ 1 ∷ [])
turned = Perm.trans (Perm.cons 5 (Perm.swap 9 1 [])) (Perm.swap 9 5 (1 ∷ []))

percentil-perm_example :
    (percentil_average_lf whole spread ltb insertion exact true one_way 40
      ≡ percentil_average_lf whole spread ltb insertion exact true other_way 40)
    × (percentil_stddev_lf whole spread ltb insertion exact true one_way 40
        ≡ percentil_stddev_lf whole spread ltb insertion exact true other_way 40)
percentil-perm_example =
    percentil-perm whole spread ltb ltb-IsOrder exact insertion insertion one_way other_way
      (5 ∷ 1 ∷ 9 ∷ []) (9 ∷ 5 ∷ 1 ∷ []) insertion-Sorts insertion-Sorts one_way-Holds
      other_way-Holds turned true 40

-- The middle one of three is left for 10 percent, where 45 percent of three are cut on each side.
middle_one : percentil_average_lf whole spread ltb insertion exact true one_way 10 ≡ ok 5
unfolding percentil_average_lf compare_elem
middle_one = refl
