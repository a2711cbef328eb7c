-- ===== src/Specweb/Zipf.antt =====
-- Which directories `zipf` draws from the table of `setupZipf`: never the last two, and, for a number below
-- every entry, an access behind the table.
use slg.Base.{
  ℕ, zero, suc, ◌+◌, ◌-◌, ◌<◌, ◌≡◌, ◌≢◌, refl, sym, ap, ◌∙◌, ◌⊎◌, inl, inr, List, [], ◌∷◌, true,
  false, arith, length, length-set, set, get_or, get_or-set_self, get_or-set_ne, Bool-cases, ne→==,
  ℕ_discrete,
}
use slg.Base.Int.{pos}
use slg.Base.Outcome.{ok, stop}
use slg.Specweb.{
  Doubles, out_of_bounds, reciprocals, running_sums, normalised, setup_zipf, first_not_above, zipf,
}

module _ {ℓ} {D : Type ℓ} (f : Doubles D) where
  -- The number is below the first `n` entries.
  abbrev pub Under : D → List D → ℕ → Type 0
  Under r table n = (j : ℕ) → j < n → f.less r (get_or table j f.one) ≡ true

  -- Where the loop stops: behind the table, or at the first entry that is not above the number.
  abbrev Stops : D → List D → ℕ → Type 0
  Stops r table i =
      ((first_not_above f r table i ≡ stop out_of_bounds) × Under r table (length table))
      ⊎ ((j : ℕ) × (j < length table)
          × (first_not_above f r table i ≡ ok (i + j))
          × (f.less r (get_or table j f.one) ≡ false)
          × Under r table j)

  Under-cons :
      (r x : D) (table : List D) (n : ℕ)
      → f.less r x ≡ true
      → Under r table n
      → Under r (x ∷ table) (suc n)
  Under-cons r x table n e u zero h = e
  Under-cons r x table n e u (suc j) h = u j (omega arith)

  pub first_not_above-Stops : (r : D) (table : List D) (i : ℕ) → Stops r table i
  unfolding first_not_above
  first_not_above-Stops r [] i = inl (refl, λ j h. absurd (omega arith))
  first_not_above-Stops r (x ∷ table) i = elim (Bool-cases (f.less r x)) [
    | inr e ↦
        let z : i ≡ i + 0 = omega arith in
        inr (0, omega arith, rw e (ap ok z), e, λ j h. absurd (omega arith))
    | inl e ↦ elim (first_not_above-Stops r table (i + 1)) [
      | inl (s, u) ↦ inl (rw e s, Under-cons r x table (length table) e u)
      | inr (j, lt, s, stopped, u) ↦
          let z : i + 1 + j ≡ i + suc j = omega arith in
          inr (suc j, omega arith, rw e (s ∙ ap ok z), stopped, Under-cons r x table j e u)
    ]
  ]

  length-reciprocals : (i k : ℕ) → length (reciprocals f i k) ≡ k
  unfolding reciprocals
  length-reciprocals i zero = refl
  length-reciprocals i (suc k) = ap suc (length-reciprocals (i + 1) k)

  length-running_sums : (acc : D) (xs : List D) → length (running_sums f acc xs).0 ≡ length xs
  unfolding running_sums
  length-running_sums acc [] = refl
  length-running_sums acc (x ∷ xs) = ap suc (length-running_sums (f.add acc x) xs)

  length-normalised : (total : D) (xs : List D) → length (normalised f total xs) ≡ length xs
  unfolding normalised
  length-normalised total [] = refl
  length-normalised total (x ∷ xs) = ap suc (length-normalised total xs)

  get_or-normalised :
      (total d : D) (xs : List D) (i : ℕ)
      → i < length xs
      → get_or (normalised f total xs) i d ≡ f.subtract f.one (f.divide (get_or xs i d) total)
  unfolding normalised
  get_or-normalised total d [] i h = absurd (omega arith)
  get_or-normalised total d (x ∷ xs) zero h = refl
  get_or-normalised total d (x ∷ xs) (suc i) h = get_or-normalised total d xs i (omega arith)

  zero-add : (j : ℕ) → 0 + j ≡ j
  zero-add j = omega arith

  -- `zipf_sum` after the second loop.
  abbrev pub zipf_sum : ℕ → D
  zipf_sum size = (running_sums f f.nought (reciprocals f 1 size)).1

  -- An entry that was set to 0 becomes 1, whatever else is set to 0.
  cleared :
      (xs : List D) (i j : ℕ) (d : D)
      → i < length xs
      → (get_or xs i d ≡ f.nought) ⊎ (j ≡ i)
      → get_or (set xs j f.nought) i d ≡ f.nought
  cleared xs i j d lt h = elim (ℕ_discrete j i) [
    | yes e ↦ rw e (get_or-set_self xs i f.nought d lt)
    | no n ↦ elim h [ inl z ↦ get_or-set_ne xs j i f.nought d n ∙ z | inr e ↦ absurd (n e) ]
  ]

  -- The directory before the first entry that is not above the number, none of the last two.
  abbrev pub IsDirectory : ℕ → List D → D → ℕ → Type 0
  IsDirectory size table r dir =
      (dir + 2 < size) × Under r table (dir + 1) × (f.less r (get_or table (dir + 1) f.one) ≡ false)

  abbrev pub Draws : ℕ → List D → D → Type 0
  Draws size table r = (dir : ℕ) × (zipf f r table ≡ ok (pos dir)) × IsDirectory size table r dir

  module _ (size : ℕ) (some_directory : 0 < size)
      (unit : f.subtract f.one (f.divide f.nought (zipf_sum size)) ≡ f.one) where
    abbrev pub filled_table : List D
    filled_table = normalised f (zipf_sum size) (
        set (set (running_sums f f.nought (reciprocals f 1 size)).0 (size - 1) f.nought) 0 f.nought)

    abbrev sums : List D
    sums = (running_sums f f.nought (reciprocals f 1 size)).0

    length-sums : length sums ≡ size
    length-sums = length-running_sums f.nought (reciprocals f 1 size) ∙ length-reciprocals 1 size

    setup_zipf-filled : setup_zipf f size ≡ ok filled_table
    unfolding setup_zipf
    setup_zipf-filled = rw (ne→== size 0 (λ e. omega arith)) refl

    end_is_one : (i : ℕ) → i < size → (i ≡ size - 1) ⊎ (i ≡ 0) → get_or filled_table i f.one ≡ f.one
    end_is_one i lt h =
        let l : length (set sums (size - 1) f.nought) ≡ size =
          length-set sums (size - 1) f.nought ∙ length-sums in
        let whole : length (set (set sums (size - 1) f.nought) 0 f.nought) ≡ size =
          length-set (set sums (size - 1) f.nought) 0 f.nought ∙ l in
        let zeroed : get_or (set (set sums (size - 1) f.nought) 0 f.nought) i f.one ≡ f.nought =
          cleared (set sums (size - 1) f.nought) i 0 f.one (omega (arith, l)) (at_end i lt h) in
        get_or-normalised (zipf_sum size) f.one _ i (omega (arith, whole))
        ∙ ap (λ x. f.subtract f.one (f.divide x (zipf_sum size))) zeroed
        ∙ unit
      where
        at_end :
            (i : ℕ)
            → i < size
            → (i ≡ size - 1) ⊎ (i ≡ 0)
            → (get_or (set sums (size - 1) f.nought) i f.one ≡ f.nought) ⊎ (0 ≡ i)
        at_end i lt (inl e) =
            inl (rw e (get_or-set_self sums (size - 1) f.nought f.one (omega (arith, length-sums))))
        at_end i lt (inr e) = inr (sym e)

    length-filled_table : length filled_table ≡ size
    length-filled_table =
        length-normalised (zipf_sum size) (set (set sums (size - 1) f.nought) 0 f.nought)
        ∙ length-set (set sums (size - 1) f.nought) 0 f.nought
        ∙ length-set sums (size - 1) f.nought
        ∙ length-sums

    end_is_above :
        (r : D)
        → f.less r f.one ≡ true
        → (i : ℕ) → i < size
        → (i ≡ size - 1) ⊎ (i ≡ 0)
        → f.less r (get_or filled_table i f.one) ≢ false
    end_is_above r below i lt h stopped =
        let e : f.less r (get_or filled_table i f.one) ≡ true =
          ap (f.less r) (end_is_one i lt h) ∙ below in
        absurd (cc (e, stopped))

    drawn :
        (r : D)
        → f.less r f.one ≡ true
        → (j : ℕ) → j < size
        → first_not_above f r filled_table 0 ≡ ok j
        → f.less r (get_or filled_table j f.one) ≡ false
        → Under r filled_table j
        → Draws size filled_table r
    unfolding zipf
    drawn r below zero lt s stopped u = absurd (end_is_above r below 0 lt (inr refl) stopped)
    drawn r below (suc j) lt s stopped u = elim (ℕ_discrete (suc j) (size - 1)) [
      | yes e ↦ absurd (end_is_above r below (suc j) lt (inl e) stopped)
      | no n ↦
          let z : suc j ≡ j + 1 = omega arith in
          (j, rw s refl, (omega arith, rw z at u, rw z at stopped))
    ]

    -- For a number below 1, `zipf` on the table that `setupZipf` makes either draws the directory before
    -- the first entry that is not above the number, and which is none of the last two, since
    -- both ends of the table are 1; or every entry is above the number, and it reads behind the table. It
    -- is assumed that 1 - 0 / zipf_sum is 1.
    pub zipf-setup_zipf :
        (r : D)
        → f.less r f.one ≡ true
        → (table : List D) × (setup_zipf f size ≡ ok table)
          × (((zipf f r table ≡ stop out_of_bounds) × Under r table size) ⊎ Draws size table r)
    unfolding zipf
    zipf-setup_zipf r below = (
      filled_table,
      setup_zipf-filled,
      elim (first_not_above-Stops r filled_table 0) [
        | inl (s, u) ↦ inl (rw s refl, λ j lt. u j (omega (arith, length-filled_table)))
        | inr (j, lt, s, stopped, u) ↦ inr (
            drawn r below j (omega (arith, length-filled_table)) (s ∙ ap ok (zero-add j)) stopped u)
      ],
    )
