-- ===== src/Specweb/Draw.antt =====
-- What `get_new_value_from_table` draws, and the url of `choose_url`.
use slg.Base.{
  ℕ, zero, suc, ◌+◌, ◌<◌, ◌≡◌, refl, ap, ◌∙◌, ◌⊎◌, inl, inr, List, [], ◌∷◌, true, false, arith,
  length, get_or, Bool-cases, take, lt→ltb,
}
use slg.Base.Int.{pos}
use slg.Base.Outcome.{ok, stop}
use slg.Specweb.{
  zipf, Doubles, out_of_bounds, first_not_below, get_new_value_from_table, url_text, choose_url,
  equal, setup_zipf,
}
use slg.Specweb.Zipf.{IsDirectory, Under, zipf_sum, zipf-setup_zipf}

module _ {ℓ} {D : Type ℓ} (f : Doubles D) where
  -- A table of sums of frequencies: its last entry is 1.
  abbrev pub LastIsOne : D → List D → Type ℓ
  LastIsOne d [] = d ≡ f.one
  LastIsOne d (x ∷ table) = LastIsOne x table

  abbrev pub IsTotal : List D → Type ℓ
  IsTotal table = (0 < length table) × LastIsOne f.nought table

  -- The value `i` is the first whose sum is not below the number.
  abbrev pub IsDrawn : D → List D → ℕ → Type 0
  IsDrawn r table i =
      (i < length table)
      × (f.less (get_or table i f.one) r ≡ false)
      × ((j : ℕ) → j < i → f.less (get_or table j f.one) r ≡ true)

  pub earlier :
      (r x : D) (table : List D) (n : ℕ)
      → f.less x r ≡ true
      → ((j : ℕ) → j < n → f.less (get_or table j f.one) r ≡ true)
      → (j : ℕ) → j < suc n
      → f.less (get_or (x ∷ table) j f.one) r ≡ true
  earlier r x table n e u zero h = e
  earlier r x table n e u (suc j) h = u j (omega arith)

  pub skip :
      (r : D) (size : ℕ) (x : D) (table : List D) (k : ℕ)
      → f.less r (f.of_count size) ≡ true
      → f.less x r ≡ true
      → first_not_below f r size (x ∷ table) k ≡ first_not_below f r size table (k + 1)
  unfolding first_not_below
  skip r size x table k small e = rw (e, small) refl

  first_not_below-IsDrawn :
      (r : D) (size : ℕ) (table : List D) (k : ℕ)
      → f.less r (f.of_count size) ≡ true
      → f.less f.one r ≡ false
      → IsTotal table
      → (i : ℕ) × (first_not_below f r size table k ≡ ok (k + i)) × IsDrawn r table i
  unfolding first_not_below
  first_not_below-IsDrawn r size [] k small below t = absurd (omega (arith, t.0))
  first_not_below-IsDrawn r size (x ∷ []) k small below (t, last) =
      let e : f.less x r ≡ false = ap (λ y. f.less y r) last ∙ below in
      let z : k ≡ k + 0 = omega arith in
      (0, rw e (ap ok z), (omega arith, e, λ j h. absurd (omega arith)))
  first_not_below-IsDrawn r size (x ∷ y ∷ table) k small below (t, last) =
      elim (Bool-cases (f.less x r)) [
        | inr e ↦
            let z : k ≡ k + 0 = omega arith in
            (0, rw e (ap ok z), (omega arith, e, λ j h. absurd (omega arith)))
        | inl e ↦
            let (i, s, drawn) =
              first_not_below-IsDrawn r size (y ∷ table) (k + 1) small below (omega arith, last) in
            let z : k + 1 + i ≡ k + suc i = omega arith in
            (
              suc i,
              skip r size x (y ∷ table) k small e ∙ (s ∙ ap ok z),
              (omega (arith, drawn.0), drawn.1, earlier r x (y ∷ table) i e drawn.2),
            )
      ]

  pub not_equal : (a b : D) → f.less a b ≡ true → equal f a b ≡ false
  unfolding equal
  not_equal a b e = rw (equal, e) refl

  pub get_new_value_from_table-IsDrawn :
      (r : D) (size : ℕ) (table : List D)
      → f.less r (f.of_count size) ≡ true
      → f.less f.one r ≡ false
      → IsTotal table
      → (i : ℕ) × (get_new_value_from_table f r table size ≡ ok (pos i)) × IsDrawn r table i
  unfolding get_new_value_from_table
  get_new_value_from_table-IsDrawn r size table small below t =
      let (i, s, drawn) = first_not_below-IsDrawn r size table 0 small below t in
      let z : 0 + i ≡ i = omega arith in
      (i, rw (s, not_equal r (f.of_count size) small, z) refl, drawn)

  -- With the tables of directories, classes and files that the program builds, and three numbers of which
  -- the first is below 1 and the others are not above it (and below 4 and 9), `choose_url` fails no
  -- assert: it gives the url of the directory before the first entry of its table that is not above the
  -- first number, which `zipf` draws, and of the class and the file whose sums of frequencies are the
  -- first that are not below their numbers, unless the first number is below every entry of its table,
  -- which is then read past its end. The directory is none of the last two. It is assumed that
  -- 1 - 0 / zipf_sum is 1, that there is a directory, and that the tables of classes and files have 4 and
  -- 9 entries and end with 1.
  pub choose_url-IsDrawn :
      (size : ℕ)
      → (some_directory : 0 < size)
      → (unit : f.subtract f.one (f.divide f.nought (zipf_sum f size)) ≡ f.one)
      → (class_freq file_freq : List D) → length class_freq ≡ 4
      → length file_freq ≡ 9
      → IsTotal class_freq
      → IsTotal file_freq
      → (r1 r2 r3 : D) → f.less r1 f.one ≡ true
      → (f.less f.one r2 ≡ false) × (f.less r2 (f.of_count 4) ≡ true)
      → (f.less f.one r3 ≡ false) × (f.less r3 (f.of_count 9) ≡ true)
      → (dir_zipf : List D) × (setup_zipf f size ≡ ok dir_zipf)
        × (((choose_url f dir_zipf class_freq file_freq r1 r2 r3 ≡ stop out_of_bounds)
              × Under f r1 dir_zipf size)
            ⊎ ((dir : ℕ) × (theclass : ℕ) × (file : ℕ) × (zipf f r1 dir_zipf ≡ ok (pos dir))
                × IsDirectory f size dir_zipf r1 dir
                × IsDrawn r2 class_freq theclass
                × IsDrawn r3 file_freq file
                × (choose_url f dir_zipf class_freq file_freq r1 r2 r3
                    ≡ ok (take 62 (url_text (pos dir) theclass file)))))
  unfolding choose_url
  choose_url-IsDrawn size some_directory unit class_freq file_freq c9 f9 ct ft r1 r2 r3 b1 b2 b3 =
      let (table, filled, drawn) = zipf-setup_zipf f size some_directory unit r1 b1 in
      let (theclass, ec, dc) = get_new_value_from_table-IsDrawn r2 4 class_freq b2.1 b2.0 ct in
      let (file, ef, df) = get_new_value_from_table-IsDrawn r3 9 file_freq b3.1 b3.0 ft in
      (
        table,
        filled,
        elim drawn [
          | inl (s, u) ↦ inl (rw s refl, u)
          | inr (dir, s, directory) ↦ inr (
            dir,
            theclass,
            file,
            s,
            directory,
            dc,
            df,
            rw
                (
                  s,
                  ec,
                  ef,
                  lt→ltb theclass 4 (omega (arith, dc.0, c9)),
                  lt→ltb file 9 (omega (arith, df.0, f9)),
                )
                refl,
          )
        ],
      )
