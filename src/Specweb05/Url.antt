-- ===== src/Specweb05/Url.antt =====
-- The urls of `choose_url`.
use slg.Base.{
  ℕ, suc, ◌+◌, ◌%◌, ◌≤◌, ◌<◌, ◌≡◌, refl, ap, ◌∙◌, ◌⊎◌, inl, inr, List, [], ◌∷◌, ◌++◌, Option, some,
  true, false, arith, length, get_or, get_elem?-eq-get_or, Bool-cases, take,
}
use native.Mathlib.Nat.{mod-lt}
use slg.Base.Int.{pos}
use slg.Base.Text.{codes}
use slg.Base.Outcome.{ok, stop}
use slg.Specweb.{Doubles, equal, first_not_below, get_new_value_from_table}
use slg.Specweb.Draw.{IsTotal, IsDrawn, get_new_value_from_table-IsDrawn, not_equal, earlier, skip}
use slg.Specweb05.{
  no_zipf_value, download_url, constant, checked, table_of, choose_download, choose_url, at_index,
  named_url, images_files, php_files,
}
use slg.Specweb05.Draw.{sum_to, IsValue, Pulls, zipf-IsValue}

at_index-get_or {ℓ} :
    {A : Type ℓ} (tab : List A) (i : ℕ) (d : A)
    → i < length tab
    → at_index tab i ≡ ok (get_or tab i d)
unfolding at_index
at_index-get_or tab i d lt = rw (at_index, get_elem?-eq-get_or tab i d lt) refl

module _ {ℓ} {D : Type ℓ} (f : Doubles D) (minus_one : D) where
  -- A row of `file_freq`: sums up to 1, none of them -1, and then anything.
  abbrev pub IsRow : List D → Type ℓ
  IsRow [] = D × ⊥
  IsRow (x ∷ table) = (equal f x minus_one ≡ false) × ((x ≡ f.one) ⊎ IsRow table)

  first_not_below-IsRow :
      (r : D) (size : ℕ) (table : List D) (k : ℕ)
      → f.less r (f.of_count size) ≡ true
      → f.less f.one r ≡ false
      → IsRow table
      → (i : ℕ) × (first_not_below f r size table k ≡ ok (k + i))
        × IsDrawn f r table i
        × (equal f (get_or table i f.one) minus_one ≡ false)
  unfolding first_not_below
  first_not_below-IsRow r size [] k small below h = absurd h.1
  first_not_below-IsRow r size (x ∷ table) k small below (own, h) = elim (Bool-cases (f.less x r)) [
    | inr e ↦
        let z : k ≡ k + 0 = omega arith in
        (0, rw e (ap ok z), (omega arith, e, λ j lt. absurd (omega arith)), own)
    | inl e ↦ elim h [
      | inl last ↦ absurd (cc (e, ap (λ y. f.less y r) last, below))
      | inr rest ↦
          let (i, s, drawn, other) = first_not_below-IsRow r size table (k + 1) small below rest in
          let z : k + 1 + i ≡ k + suc i = omega arith in
          (
            suc i,
            skip f r size x table k small e ∙ (s ∙ ap ok z),
            (omega (arith, drawn.0), drawn.1, earlier f r x table i e drawn.2),
            other,
          )
    ]
  ]

  get_new_value_from_table-IsRow :
      (r : D) (size : ℕ) (table : List D)
      → f.less r (f.of_count size) ≡ true
      → f.less f.one r ≡ false
      → IsRow table
      → (i : ℕ) × (get_new_value_from_table f r table size ≡ ok (pos i))
        × IsDrawn f r table i
        × (equal f (get_or table i f.one) minus_one ≡ false)
  unfolding get_new_value_from_table
  get_new_value_from_table-IsRow r size table small below t =
      let (i, s, drawn, own) = first_not_below-IsRow r size table 0 small below t in
      let z : 0 + i ≡ i = omega arith in
      (i, rw (s, not_equal f r (f.of_count size) small, z) refl, drawn, own)

module _ {ℓ} {D : Type ℓ} (f : Doubles D) (pow : ℕ → D) (minus_one type_freq_0 type_freq_1 : D)
    (class_freq : List D) (file_freq : List (List D)) (num_dirs : ℕ) where
  abbrev row : ℕ → List D
  row theclass = get_or file_freq theclass []

  -- Every class has a row of files.
  abbrev pub HasRows : Type ℓ
  HasRows =
      (length class_freq ≤ length file_freq)
      × ((theclass : ℕ) → theclass < length class_freq → IsRow f minus_one (row theclass))

  -- The url of a directory that `zipf` draws, and of the class and the file whose sums of frequencies
  -- are the first that are not below their numbers.
  abbrev pub IsDownload : D → D → D → D → List ℕ → Type 0
  IsDownload c z r_class r_file url =
      (dir : ℕ) × (theclass : ℕ) × (file : ℕ) × IsValue f pow c z num_dirs dir
      × IsDrawn f r_class class_freq theclass
      × IsDrawn f r_file (row theclass) file
      × (url ≡ download_url dir theclass file)

  checked-download_url :
      (dir theclass file : ℕ)
      → theclass < length file_freq
      → file < length (row theclass)
      → equal f (get_or (row theclass) file f.one) minus_one ≡ false
      → checked f pow minus_one type_freq_0 type_freq_1 class_freq file_freq num_dirs dir
          (pos theclass)
          (pos file)
        ≡ ok (download_url dir theclass file)
  unfolding checked
  checked-download_url dir theclass file there here own =
      rw
        (
          at_index-get_or file_freq theclass [] there,
          at_index-get_or (row theclass) file f.one here,
          own,
        )
        refl

  module _ (first : Option D) (zs : List D) (z r_class r_file : D) (pulls : Pulls f pow zs z)
      (total : IsTotal f class_freq) (rows : HasRows)
      (class_number : (f.less f.one r_class ≡ false) × (f.less r_class (f.of_count 6) ≡ true))
      (file_number : (f.less f.one r_file ≡ false) × (f.less r_file (f.of_count 5) ≡ true)) where
    abbrev pub c : D
    c = constant f pow first num_dirs

    choose_download-IsDownload :
        ((choose_download f pow minus_one type_freq_0 type_freq_1 class_freq file_freq num_dirs
              first zs r_class r_file
            ≡ stop no_zipf_value)
          × ((j : ℕ) → 1 ≤ j → j ≤ num_dirs → f.less (sum_to f pow c j) z ≡ true))
        ⊎ ((url : List ℕ) × (choose_download f pow minus_one type_freq_0 type_freq_1 class_freq
                file_freq num_dirs first zs r_class r_file
              ≡ ok (url, some c))
            × IsDownload c z r_class r_file url)
    unfolding choose_download checked table_of
    choose_download-IsDownload = elim (zipf-IsValue f pow first num_dirs zs z pulls) [
      | inl (e, all) ↦ inl (rw e refl, all)
      | inr (dir, e, value) ↦
          let (theclass, ec, dc) =
            get_new_value_from_table-IsDrawn f r_class 6 class_freq class_number.1 class_number.0
              total in
          let there : theclass < length file_freq = omega (arith, dc.0, rows.0) in
          let (file, ef, df, own) =
            get_new_value_from_table-IsRow f minus_one r_file 5 (row theclass) file_number.1
              file_number.0 (rows.1 theclass dc.0) in
          inr (
            download_url dir theclass file,
            rw
                (
                  e,
                  ec,
                  at_index-get_or file_freq theclass [] there,
                  ef,
                  checked-download_url dir theclass file there df.0 own,
                )
                refl,
            (dir, theclass, file, value, dc, df, refl),
          )
    ]

    -- The url of the branch that the first number takes, and what `zipf` keeps.
    abbrev pub IsUrl : D → ℕ → List ℕ → Option D → Type ℓ
    IsUrl d d2 url kept =
        ((f.less d type_freq_0 ≡ true)
          × (url ≡ take 127 (codes "/support/images/" ++ get_or images_files (d2 % 31) []))
          × (kept ≡ first))
        ⊎ (((f.less d type_freq_0 ≡ false)
              × (f.less d type_freq_1 ≡ true)
              × (url ≡ take 127 (codes "/support/" ++ get_or php_files (d2 % 6) []))
              × (kept ≡ first))
            ⊎ ((f.less d type_freq_0 ≡ false)
                × (f.less d type_freq_1 ≡ false)
                × IsDownload c z r_class r_file url
                × (kept ≡ some c)))

    -- `choose_url` does not panic and reads no table past its end, if the sums of frequencies end with 1,
    -- each class has a row whose sums reach 1 before an entry of -1, and the numbers for the class and
    -- the file are at most 1. It gives the url of an image or of a PHP page of its lists, or that of a
    -- directory, a class and a file that the tables draw, and only a download fixes the constant of
    -- `zipf`. The one failure is the assert of `zipf`, when all sums of probabilities, by rounding, are
    -- below the number.
    pub choose_url-IsUrl :
        (d : D) (d2 : ℕ)
        → ((choose_url f pow minus_one type_freq_0 type_freq_1 class_freq file_freq num_dirs first d
                d2 zs r_class r_file
              ≡ stop no_zipf_value)
            × ((j : ℕ) → 1 ≤ j → j ≤ num_dirs → f.less (sum_to f pow c j) z ≡ true))
          ⊎ ((url : List ℕ) × (kept : Option D) × (choose_url f pow minus_one type_freq_0
                  type_freq_1 class_freq file_freq num_dirs first d d2 zs r_class r_file
                ≡ ok (url, kept))
              × IsUrl d d2 url kept)
    unfolding choose_url named_url
    choose_url-IsUrl d d2 = elim (Bool-cases (f.less d type_freq_0)) [
      | inl image ↦
          let i : d2 % 31 < 31 = mod-lt d2 (omega arith) in
          inr (
            _,
            first,
            rw (image, at_index-get_or images_files (d2 % 31) [] i) refl,
            inl (image, refl, refl),
          )
      | inr other ↦ elim (Bool-cases (f.less d type_freq_1)) [
        | inl php ↦
            let i : d2 % 6 < 6 = mod-lt d2 (omega arith) in
            inr (
              _,
              first,
              rw (other, php, at_index-get_or php_files (d2 % 6) [] i) refl,
              inr (inl (other, php, refl, refl)),
            )
        | inr download ↦ elim choose_download-IsDownload [
          | inl (e, all) ↦ inl (rw (other, download) e, all)
          | inr (url, e, is) ↦
              inr (url, some c, rw (other, download) e, inr (inr (other, download, is, refl)))
        ]
      ]
    ]
