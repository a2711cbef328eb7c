-- ===== src/Base/Sum.antt =====
-- Sums over the first indices of an array.
use slg.Base.{ℕ, zero, suc, ◌+◌, ◌<◌, ◌≤◌, ◌≡◌, refl, arith}
use slg.Base.Update.{update}

abbrev pub sum : ℕ → (ℕ → ℕ) → ℕ
sum zero f = 0
sum (suc n) f = sum n f + f n

module _ {ℓ} {A : Type ℓ} (f : A → ℕ) where
  sum-update_above :
      (n i : ℕ) (xs : ℕ → A) (x : A)
      → n ≤ i
      → sum n (λ j. f (update xs i x j)) ≡ sum n (λ j. f (xs j))
  sum-update_above zero i xs x h = refl
  sum-update_above (suc n) i xs x h = ground (arith, sum-update_above n i xs x)

  -- A new entry replaces the old one in the sum.
  pub sum-update :
      (n i : ℕ) (xs : ℕ → A) (x : A)
      → i < n
      → sum n (λ j. f (update xs i x j)) + f (xs i) ≡ sum n (λ j. f (xs j)) + f x
  sum-update zero i xs x h = absurd (omega arith)
  sum-update (suc n) i xs x h = ground (arith, sum-update n i xs x, sum-update_above n i xs x)

pub sum-snoc : (i : ℕ) (f : ℕ → ℕ) → sum (i + 1) f ≡ sum i f + f i
sum-snoc i f = let e : i + 1 ≡ suc i = omega arith in rw e
