-- ===== src/Sample/Search.antt =====
-- The least and the greatest element of a table.
use slg.Base.{
  ℕ, zero, suc, ◌+◌, ◌-◌, ◌≤◌, ◌<◌, ◌≡◌, refl, sym, ◌∙◌, List, length, get_or, get_elem?-eq-get_or,
  arith, ltb, Bool, true, false, if◌then◌else◌, ◌⊎◌, dec_lt, inl, inr,
}
use mathlib.Core.Path.{subst}
use slg.Base.Outcome.{ok, ◌>>=◌}
use slg.Sample.{load, search_from, t_min_search_ul, t_max_search_ul}

one_of : (b : Bool) (x y : ℕ) → ((if b then x else y) ≡ x) ⊎ ((if b then x else y) ≡ y)
one_of true x y = inl refl
one_of false x y = inr refl

load-get_or : (table : List ℕ) (i : ℕ) → i < length table → load table i ≡ ok (get_or table i 0)
unfolding load
load-get_or table i h = ground (arith, get_elem?-eq-get_or table i 0 h)

module _ (less : ℕ → ℕ → Bool) (Below : ℕ → ℕ → Type 0) (below_refl : (a : ℕ) → Below a a)
    (below_trans : (a b c : ℕ) → Below a b → Below b c → Below a c)
    (picks : (v best : ℕ)
      → Below (if less v best then v else best) v
        × Below (if less v best then v else best) best) where
  -- What a search of `k` elements from the `i`th on finds.
  record Found (table : List ℕ) (i k best v : ℕ) : Type 0 where
    below_best : Below v best
    below_all : (j : ℕ) → i ≤ j → j < i + k → Below v (get_or table j 0)
    member : (v ≡ best) ⊎ ((j : ℕ) × (j < i + k) × (get_or table j 0 ≡ v))

  search_from-Found :
      (table : List ℕ) (i k best : ℕ)
      → i + k ≤ length table
      → (v : ℕ) × (search_from less table i k best ≡ ok v) × Found table i k best v
  unfolding search_from
  search_from-Found table i zero best h = (
    best,
    refl,
    record {
      below_best = below_refl best;
      below_all = λ j a b. absurd (omega arith);
      member = inl refl;
    },
  )
  search_from-Found table i (suc k) best h =
      let w = get_or table i 0 in
      let next = if less w best then w else best in
      let (v, e, f) = search_from-Found table (i + 1) k next (omega arith) in
      (
        v,
        rw (load-get_or table i (omega arith)) e,
        record {
          below_best = below_trans v next best f.below_best (picks w best).1;
          below_all = λ j a b. elim (dec_lt i j) [
            | yes lt ↦ f.below_all j (omega arith) (omega arith)
            | no ge ↦
                let same : i ≡ j = omega arith in
                subst (λ x. Below v (get_or table x 0)) same
                  (below_trans v next w f.below_best (picks w best).0)
          ];
          member = elim f.member [
            | inl q ↦ elim (one_of (less w best) w best) [
              | inl a ↦ inr (i, omega arith, sym (q ∙ a))
              | inr a ↦ inl (q ∙ a)
            ]
            | inr (j, lt, q) ↦ inr (j, omega arith, q)
          ];
        },
      )

  search-member :
      (table : List ℕ) (n : ℕ)
      → 0 < n
      → n ≤ length table
      → (v : ℕ) × ((load table 0 >>= (λ first. search_from less table 1 (n - 1) first)) ≡ ok v)
        × ((j : ℕ) → j < n → Below v (get_or table j 0))
        × ((j : ℕ) × (j < n) × (get_or table j 0 ≡ v))
  search-member table n p h =
      let first = get_or table 0 0 in
      let (v, e, f) = search_from-Found table 1 (n - 1) first (omega arith) in
      (
        v,
        rw (load-get_or table 0 (omega arith)) e,
        λ j lt. elim (dec_lt 0 j) [
          | yes above ↦ f.below_all j (omega arith) (omega arith)
          | no first_one ↦
              let same : 0 ≡ j = omega arith in
              subst (λ x. Below v (get_or table x 0)) same f.below_best
        ],
        elim f.member [ inl q ↦ (0, p, sym q) | inr (j, lt, q) ↦ (j, omega arith, q) ],
      )

-- On a table of at least `n` elements, of which there is one at least, `t_minSearch_ul` and
-- `t_maxSearch_ul` return an element among the first `n` that is not above, or not below, any of them.
pub t_min_max-bounds :
    (table : List ℕ) (n : ℕ)
    → 0 < n
    → n ≤ length table
    → ((v : ℕ) × (t_min_search_ul table n ≡ ok v)
        × ((j : ℕ) → j < n → v ≤ get_or table j 0)
        × ((j : ℕ) × (j < n) × (get_or table j 0 ≡ v)))
      × ((v : ℕ) × (t_max_search_ul table n ≡ ok v)
          × ((j : ℕ) → j < n → get_or table j 0 ≤ v)
          × ((j : ℕ) × (j < n) × (get_or table j 0 ≡ v)))
unfolding t_min_search_ul t_max_search_ul
t_min_max-bounds table n p h = (
  search-member ltb (λ a b. a ≤ b) (λ a. omega arith) (λ a b c x y. omega arith)
      (λ v best. ground arith) table n p h,
  search-member (λ v best. ltb best v) (λ a b. b ≤ a) (λ a. omega arith) (λ a b c x y. omega arith)
      (λ v best. ground arith) table n p h,
)
