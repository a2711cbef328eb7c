-- ===== src/Specweb05/Draw.antt =====
-- What `zipf` and `choose_url` draw.
use slg.Base.{
  ℕ, zero, suc, ◌+◌, ◌≤◌, ◌<◌, ◌≡◌, refl, ap, ◌∙◌, ◌⊎◌, inl, inr, List, [], ◌∷◌, Option, true,
  false, ◌||◌, ℕ_discrete, arith, Bool-cases,
}
use slg.Base.Outcome.{ok, stop}
use slg.Specweb.{Doubles, equal}
use slg.Specweb05.{no_zipf_value, constant, pull, first_sum, zipf}

module _ {ℓ} {D : Type ℓ} (f : Doubles D) (pow : ℕ → D) where
  -- The sum of the first `i` probabilities.
  abbrev pub sum_to : D → ℕ → D
  sum_to c zero = f.nought
  sum_to c (suc i) = f.add (sum_to c i) (f.divide c (pow (suc i)))

  -- The first value, of 1 to `n`, whose sum is not below the number.
  abbrev pub IsValue : D → D → ℕ → ℕ → Type 0
  IsValue c z n i =
      (1 ≤ i)
      × (i ≤ n)
      × (f.less (sum_to c i) z ≡ false)
      × ((j : ℕ) → 1 ≤ j → j < i → f.less (sum_to c j) z ≡ true)

  first_sum-on :
      (c z : D) (i k : ℕ)
      → f.less (sum_to c (suc i)) z ≡ true
      → first_sum f pow c z (i + 1) (suc k) (sum_to c i)
        ≡ first_sum f pow c z (i + 1 + 1) k (sum_to c (i + 1))
  unfolding first_sum
  first_sum-on c z i k s = let next : i + 1 ≡ suc i = omega arith in rw (next, s) refl

  -- The loop stops at the first value, or every sum is below the number.
  first_sum-IsValue :
      (c z : D) (n i k : ℕ)
      → i + k ≡ n
      → ((j : ℕ) → 1 ≤ j → j < i + 1 → f.less (sum_to c j) z ≡ true)
      → ((first_sum f pow c z (i + 1) k (sum_to c i) ≡ stop no_zipf_value)
          × ((j : ℕ) → 1 ≤ j → j ≤ n → f.less (sum_to c j) z ≡ true))
        ⊎ ((v : ℕ) × (first_sum f pow c z (i + 1) k (sum_to c i) ≡ ok v) × IsValue c z n v)
  unfolding first_sum
  first_sum-IsValue c z n i zero e below = inl (refl, λ j h le. below j h (omega arith))
  first_sum-IsValue c z n i (suc k) e below =
      let next : i + 1 ≡ suc i = omega arith in
      elim (Bool-cases (f.less (sum_to c (suc i)) z)) [
        | inr s ↦ inr (
          i + 1,
          rw (next, s) refl,
          (omega arith, omega arith, rw next s, λ j h lt. below j h lt),
        )
        | inl s ↦ elim (first_sum-IsValue c z n (i + 1) k (omega arith) (further c z i below s)) [
          | inl (o, all) ↦ inl (first_sum-on c z i k s ∙ o, all)
          | inr (v, o, d) ↦ inr (v, first_sum-on c z i k s ∙ o, d)
        ]
      ]
    where
      further :
          (c z : D) (i : ℕ)
          → ((j : ℕ) → 1 ≤ j → j < i + 1 → f.less (sum_to c j) z ≡ true)
          → f.less (sum_to c (suc i)) z ≡ true
          → (j : ℕ) → 1 ≤ j
          → j < i + 1 + 1
          → f.less (sum_to c j) z ≡ true
      further c z i below s j h lt = elim (ℕ_discrete j (suc i)) [
        | yes e ↦ rw e s
        | no ne ↦ below j h (omega (arith, ne))
      ]

  -- The numbers up to the first that is neither 0 nor 1.
  abbrev pub Pulls : List D → D → Type ℓ
  Pulls [] z = D × ⊥
  Pulls (x ∷ zs) z =
      (((equal f x f.nought || equal f x f.one) ≡ false) × (x ≡ z))
      ⊎ (((equal f x f.nought || equal f x f.one) ≡ true) × Pulls zs z)

  pull-Pulls : (zs : List D) (z : D) → Pulls zs z → pull f pow zs ≡ ok z
  unfolding pull
  pull-Pulls [] z h = absurd h.1
  pull-Pulls (x ∷ zs) z (inl (e, same)) = rw e (ap ok same)
  pull-Pulls (x ∷ zs) z (inr (e, h)) = rw e (pull-Pulls zs z h)

  -- `zipf` gives the first of the values 1 to `n` whose sum of probabilities is not below the number
  -- that it draws, and keeps its constant; if every sum is below the number, the assert fails.
  pub zipf-IsValue :
      (first : Option D) (n : ℕ) (zs : List D) (z : D)
      → Pulls zs z
      → ((zipf f pow first n zs ≡ stop no_zipf_value)
          × ((j : ℕ) → 1 ≤ j → j ≤ n → f.less (sum_to (constant f pow first n) j) z ≡ true))
        ⊎ ((v : ℕ) × (zipf f pow first n zs ≡ ok (v, constant f pow first n))
            × IsValue (constant f pow first n) z n v)
  unfolding zipf
  zipf-IsValue first n zs z h =
      elim (first_sum-IsValue (constant f pow first n) z n 0 n (omega arith)
        (λ j l lt. absurd (omega arith))) [
          | inl (o, all) ↦ inl (rw (pull-Pulls zs z h, o) refl, all)
          | inr (v, o, d) ↦ inr (v, rw (pull-Pulls zs z h, o) refl, d)
        ]
