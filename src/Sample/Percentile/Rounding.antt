-- ===== src/Sample/Percentile/Rounding.antt =====
-- How far rounding can move the number of elements that are cut.
use slg.Base.{ℕ, ◌-◌, ◌*◌, ◌^◌, ◌≤◌, ◌<◌, arith}
use slg.Sample.Percentile.{Floats, side_percent_to_cut, start_of}

module _ {ℓ} {G : Type ℓ} where
  -- What is used of the arithmetic of doubles and floats. `Within g p q` is that g is from 0 to p / q. Whole
  -- numbers below 2 ^ 24 and their differences are exact; any other operation, with a bound from 1 / 1000
  -- to 2 ^ 64, exceeds its exact result by at most a thousandth; and floor, on a number that an unsigned
  -- long holds, does not exceed its argument.
  pub record IsRounded (fl : Floats G) (Within : G → ℕ → ℕ → Type 0) : Type ℓ where
    pub weaker :
        (g : G) (p q p' q' : ℕ) → 0 < q → 0 < q' → p * q' ≤ p' * q → Within g p q → Within g p' q'
    pub difference :
        (a b : ℕ)
        → a < 2 ^ 24
        → b ≤ a
        → Within (fl.subtract (fl.of_count a) (fl.of_count b)) (a - b) 1
    pub quotient :
        (g : G) (p q n : ℕ)
        → 0 < q
        → 0 < n
        → n < 2 ^ 24
        → q * n ≤ p * 1000
        → p ≤ q * n * 2 ^ 64
        → Within g p q
        → Within (fl.divide g (fl.of_count n)) (p * 1001) (q * n * 1000)
    pub rounded :
        (g : G) (p q : ℕ)
        → 0 < q
        → q ≤ p * 1000
        → p ≤ q * 2 ^ 64
        → Within g p q
        → Within (fl.to_float g) (p * 1001) (q * 1000)
    pub product :
        (g : G) (p q n : ℕ)
        → 0 < q
        → 0 < n
        → n < 2 ^ 64
        → q ≤ p * 1000
        → p ≤ q
        → Within g p q
        → Within (fl.multiply (fl.of_count n) g) (n * p * (1001 * 1001)) (q * (1000 * 1000))
    pub whole : (g : G) (p q : ℕ) → 0 < q → p < q * 2 ^ 64 → Within g p q → fl.floor g * q ≤ p

  module _ (fl : Floats G) (Within : G → ℕ → ℕ → Type 0) (h : IsRounded fl Within) where
    side-Within :
        (percent : ℕ)
        → 0 < percent
        → percent ≤ 100
        → Within (side_percent_to_cut fl percent) 497 1000
    unfolding side_percent_to_cut
    side-Within percent low high =
        let left =
          h.weaker _ (100 - percent) 1 99 1 (omega arith) (omega arith) (omega arith)
            (h.difference 100 percent (omega arith) high) in
        let half =
          h.quotient _ 99 1 2 (omega arith) (omega arith) (omega arith) (omega arith) (omega arith)
            left in
        let side =
          h.quotient _ 99099 2000 100 (omega arith) (omega arith) (omega arith) (omega arith)
            (omega arith) half in
        let cut = h.rounded _ 99198099 200000000 (omega arith) (omega arith) (omega arith) side in
        h.weaker _ 99297297099 200000000000 497 1000 (omega arith) (omega arith) (omega arith) cut

    -- Fewer than half of the elements are cut on each side.
    pub start_of-few :
        (percent n : ℕ)
        → 0 < percent
        → percent ≤ 100
        → 0 < n
        → n < 2 ^ 64
        → 2 * start_of fl percent n < n
    unfolding start_of
    start_of-few percent n low high some fits =
        let side = side-Within percent low high in
        let product =
          h.product _ 497 1000 n (omega arith) some fits (omega arith) (omega arith) side in
        let few =
          h.whole _ (n * 497 * (1001 * 1001)) (1000 * (1000 * 1000)) (omega arith) (omega arith)
            product in
        omega (arith, few)
