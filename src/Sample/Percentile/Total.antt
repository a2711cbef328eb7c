-- ===== src/Sample/Percentile/Total.antt =====
-- Where the functions of an interval succeed.
use mathlib.Core.Path.{subst}
use slg.Base.{
  ℕ, zero, suc, ◌+◌, ◌-◌, ◌*◌, ◌^◌, ◌≤◌, ◌<◌, ◌≡◌, refl, sym, ◌∙◌, List, [], ◌∷◌, Bool, true, arith,
  false, ltb, ◌&&◌, ◌||◌, ◌==◌, Bool-cases, inl, inr, ℕ_discrete, if◌then◌else◌, length, lt→ltb,
  ne→==, eq→==, ◌≢◌,
}
use slg.Base.Int.{ℤ}
use slg.Base.Word.{sub64}
use slg.Base.Outcome.{Outcome, ok, stop, ◌>>=◌}
use slg.Sample.{Sample, Failed, assertion, Arithmetic, load, add_from, helper_average_lf}
use slg.Sample.Fill.{Holds}
use slg.Sample.Percentile.Rounding.{IsRounded, start_of-few}
use slg.Sample.Percentile.{
  Floats, start_of, Deviation, compare_elem, between, on_interval, percentil_average_lf,
  percentil_stddev_lf, square_from, helper_stddev_lf, interval_stddev_lf, interval_average_lf,
}
use slg.Sample.Percentile.Sorting.{Sorts}
use slg.Sample.Percentile.Steady.{sorted_copy-Holds, length-perm}

abbrev pub Returns {ℓ} : {F : Type ℓ} → Outcome Failed F → Type ℓ
Returns {F = F} m = (v : F) × (m ≡ ok v)

pub load-Returns {ℓ} : {F : Type ℓ} (tab : List F) (i : ℕ) → i < length tab → Returns (load tab i)
unfolding load
load-Returns [] i h = absurd (omega arith)
load-Returns (x ∷ tab) zero h = (x, refl)
load-Returns (x ∷ tab) (suc i) h = load-Returns tab i (omega arith)

module _ {ℓ} {F : Type ℓ} (f : Arithmetic F) (d : Deviation F) where
  add_from-Returns :
      (tab : List F) (k i : ℕ) (avg : F) → i + k ≤ length tab → Returns (add_from f tab i k avg)
  unfolding add_from
  add_from-Returns tab zero i avg h = (avg, refl)
  add_from-Returns tab (suc k) i avg h =
      let (v, e) = load-Returns tab i (omega arith) in
      let (w, e') = add_from-Returns tab k (i + 1) (f.add avg v) (omega arith) in (w, rw e e')

  square_from-Returns :
      (tab : List F) (avg : F) (k i : ℕ) (acc : F)
      → i + k ≤ length tab
      → Returns (square_from f d tab avg i k acc)
  unfolding square_from
  square_from-Returns tab avg zero i acc h = (acc, refl)
  square_from-Returns tab avg (suc k) i acc h =
      let (v, e) = load-Returns tab i (omega arith) in
      let (w, e') =
        square_from-Returns tab avg k (i + 1) (f.add acc (d.square_of_difference v avg))
          (omega arith) in
      (w, rw e e')

  pub average-Returns :
      (tab : List F) (i j : ℕ) → i ≤ j → j < length tab → Returns (helper_average_lf f tab i j)
  unfolding helper_average_lf
  average-Returns tab i j le lt =
      let (v, e) = add_from-Returns tab (j + 1 - i) i f.nought (omega arith) in
      (f.divide v (f.of_count (sub64 (j + 1) i)), rw e refl)

  pub stddev-Returns :
      (tab : List F) (i j : ℕ) → i ≤ j → j < length tab → Returns (helper_stddev_lf f d tab i j)
  unfolding helper_stddev_lf
  stddev-Returns tab i j le lt =
      let (avg, e) = average-Returns tab i j le lt in
      let (v, e') = square_from-Returns tab avg (j + 1 - i) i f.nought (omega arith) in
      (d.root (f.divide v (f.of_count (sub64 (j + 1) i))), rw (e, e') refl)

-- All asserts hold and the result is returned, or one of them stops.
abbrev pub Decides {ℓ} : {F : Type ℓ} → Outcome Failed F → Bool → Type ℓ
Decides m holds = (holds ≡ true → Returns m) × (holds ≡ false → m ≡ stop assertion)

-- `percent > 0 && percent <= 100`
abbrev pub in_range : ℕ → Bool
in_range percent = ltb 0 percent && ltb percent 101

no_false : false ≢ true
no_false e = ground arith

pub always : (percent n : ℕ) → (in_range percent && ((n == 0) || true)) ≡ in_range percent
always percent n = elim (Bool-cases (n == 0)) [
  | inl e ↦ rw e (and_true (in_range percent))
  | inr e ↦ rw e (and_true (in_range percent))
]
  where
    and_true : (b : Bool) → (b && true) ≡ b
    and_true true = refl
    and_true false = refl

-- What is done with the copy, if there is one.
on_copy {ℓ} :
    {F : Type ℓ} (allocated : Bool) (copy : List F) (action : List F → Outcome Failed F)
    → Returns (action copy)
    → Decides ((if allocated then ok copy else stop assertion) >>= action) allocated
on_copy true copy action r = (λ y. r, λ y. absurd (no_false (sym y)))
on_copy false copy action r = (λ y. absurd (no_false y), λ y. refl)

between-Decides {ℓ} :
    {F : Type ℓ} (start_i n : ℕ) (use_interval : ℕ → ℕ → Outcome Failed F) (holds : Bool)
    → 2 * start_i < n
    → n < 2 ^ 64
    → ((i j : ℕ) → i ≤ j → j < n → Decides (use_interval i j) holds)
    → Decides (between start_i n use_interval) holds
unfolding between
between-Decides start_i n use_interval holds few fits r =
    let e : sub64 n start_i ≡ n - start_i = omega arith in
    rw (e, lt→ltb start_i (n - start_i) (omega arith))
      (r start_i (n - start_i - 1) (omega arith) (omega arith))

module _ {ℓ} {F G : Type ℓ} (fl : Floats G) (Within : G → ℕ → ℕ → Type 0)
    (rounds : IsRounded fl Within) where
  on_interval-Decides :
      (nought : F) (n percent : ℕ) (use_interval : ℕ → ℕ → Outcome Failed F) (holds : Bool)
      → n < 2 ^ 64
      → ((i j : ℕ) → i ≤ j → j < n → Decides (use_interval i j) holds)
      → Decides
          (on_interval nought fl n percent use_interval)
          (in_range percent && ((n == 0) || holds))
  unfolding on_interval
  on_interval-Decides nought n percent use_interval holds fits r =
      elim (Bool-cases (in_range percent)) [
        | inr e ↦ rw e (λ y. absurd (no_false y), λ y. refl)
        | inl e ↦ elim (ℕ_discrete n 0) [
          | yes z ↦ rw (e, eq→== n 0 z) (λ y. (nought, refl), λ y. absurd (no_false (sym y)))
          | no nz ↦
              let inside : (0 < percent) × (percent ≤ 100) = ground (arith, e) in
              rw (e, ne→== n 0 nz)
                (between-Decides (start_of fl percent n) n use_interval holds
                  (start_of-few fl Within rounds percent n inside.0 inside.1 (omega (arith, nz))
                    fits)
                  fits r)
        ]
      ]

  module _ (f : Arithmetic F) (d : Deviation F) (less : F → F → Bool) where
    pub interval_functions-Decides :
        (sort : (F → F → ℤ) → List F → List F) (sample : Sample F) (vs : List F)
        → Sorts sort (compare_elem less)
        → Holds sample vs
        → sample.nb_elem < 2 ^ 64
        → (percent : ℕ) (allocated : Bool)
        → Decides (interval_stddev_lf f d fl sample percent) (in_range percent)
          × Decides (interval_average_lf f d fl sample percent) (in_range percent)
          × Decides
              (percentil_average_lf f d less sort fl allocated sample percent)
              (in_range percent && ((sample.nb_elem == 0) || allocated))
          × Decides
              (percentil_stddev_lf f d less sort fl allocated sample percent)
              (in_range percent && ((sample.nb_elem == 0) || allocated))
    unfolding interval_stddev_lf interval_average_lf percentil_average_lf percentil_stddev_lf
    interval_functions-Decides sort sample vs sorts h fits percent allocated =
        let n : length (sort (compare_elem less) vs) ≡ sample.nb_elem =
          length-perm _ _ (sorts.same_elements vs) ∙ h.count in
        let copied = sorted_copy-Holds (sort (compare_elem less)) allocated sample vs h in
        (
          subst (Decides (interval_stddev_lf f d fl sample percent)) (always percent sample.nb_elem)
              (on_interval-Decides f.nought sample.nb_elem percent _ true fits (λ i j le lt. (
                λ y. stddev-Returns f d sample.s i j le (omega (arith, h.storage, h.fits)),
                λ y. absurd (no_false (sym y)),
              ))),
          subst (Decides (interval_average_lf f d fl sample percent))
              (always percent sample.nb_elem)
              (on_interval-Decides f.nought sample.nb_elem percent _ true fits (λ i j le lt. (
                λ y. average-Returns f d sample.s i j le (omega (arith, h.storage, h.fits)),
                λ y. absurd (no_false (sym y)),
              ))),
          on_interval-Decides f.nought sample.nb_elem percent _ allocated fits (λ i j le lt.
              subst (λ c. Decides (c >>= (λ temp. helper_average_lf f temp i j)) allocated)
                (sym copied)
                (on_copy allocated (sort (compare_elem less) vs) (λ t. helper_average_lf f t i j)
                  (average-Returns f d (sort (compare_elem less) vs) i j le (omega (arith, n))))),
          on_interval-Decides f.nought sample.nb_elem percent _ allocated fits (λ i j le lt.
              subst (λ c. Decides (c >>= (λ temp. helper_stddev_lf f d temp i j)) allocated)
                (sym copied)
                (on_copy allocated (sort (compare_elem less) vs) (λ t. helper_stddev_lf f d t i j)
                  (stddev-Returns f d (sort (compare_elem less) vs) i j le (omega (arith, n))))),
        )
