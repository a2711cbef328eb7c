-- ===== src/Specweb05/Tests.antt =====
-- The tables of master_slave.h in ten-thousandths, with three directories.
use slg.Base.{
  ℕ, ◌+◌, ◌-◌, ◌*◌, ◌/◌, ◌≤◌, ◌<◌, ◌≡◌, refl, ◌⊎◌, inl, inr, List, [], ◌∷◌, Option, none, some,
  true, arith, ltb, zero, suc, get_or,
}
use slg.Base.Text.{codes}
use slg.Base.Decimal.{decimal}
use slg.Base.Outcome.{ok, stop}
use slg.Specweb.{Doubles, equal}
use slg.Specweb.Draw.{IsTotal}
use slg.Specweb05.{no_zipf_value, constant, choose_url, download_url}
use slg.Specweb05.Draw.{sum_to, Pulls}
use slg.Specweb05.Url.{HasRows, IsRow, IsUrl, choose_url-IsUrl}

abbrev parts : Doubles ℕ
parts = record {
  nought = 0;
  one = 10000;
  of_count = λ n. n * 10000;
  add = λ a b. a + b;
  subtract = λ a b. a - b;
  divide = λ a b. a * 10000 / b;
  less = ltb;
}

-- Instead of the powers of 1.2, those of 1.
abbrev pow : ℕ → ℕ
pow i = i * 10000

-- No entry of the tables is this.
abbrev minus_one : ℕ
minus_one = 99999

abbrev class_freq : List ℕ
class_freq = 1366 ∷ 2627 ∷ 5467 ∷ 7699 ∷ 8949 ∷ 10000 ∷ []

abbrev file_freq : List (List ℕ)
file_freq =
    (2730 ∷ 3640 ∷ 5290 ∷ 7150 ∷ 10000 ∷ [])
    ∷ (5790 ∷ 7570 ∷ 10000 ∷ minus_one ∷ minus_one ∷ [])
    ∷ (2750 ∷ 4450 ∷ 6150 ∷ 10000 ∷ minus_one ∷ [])
    ∷ (6660 ∷ 10000 ∷ minus_one ∷ minus_one ∷ minus_one ∷ [])
    ∷ (10000 ∷ minus_one ∷ minus_one ∷ minus_one ∷ minus_one ∷ [])
    ∷ (10000 ∷ minus_one ∷ minus_one ∷ minus_one ∷ minus_one ∷ [])
    ∷ []

rows-HasRows : HasRows parts pow minus_one 8500 9900 class_freq file_freq 3
unfolding equal
rows-HasRows = (omega arith, each)
  where
    each : (theclass : ℕ) → theclass < 6 → IsRow parts minus_one (get_or file_freq theclass [])
    each zero lt = (refl, inr (refl, inr (refl, inr (refl, inr (refl, inl refl)))))
    each (suc zero) lt = (refl, inr (refl, inr (refl, inl refl)))
    each (suc (suc zero)) lt = (refl, inr (refl, inr (refl, inr (refl, inl refl))))
    each (suc (suc (suc zero))) lt = (refl, inr (refl, inl refl))
    each (suc (suc (suc (suc zero)))) lt = (refl, inl refl)
    each (suc (suc (suc (suc (suc zero))))) lt = (refl, inl refl)
    each (suc (suc (suc (suc (suc (suc n)))))) lt = absurd (omega arith)

one_download :
    choose_url parts pow minus_one 8500 9900 class_freq file_freq 3 none 9950 7
      (0 ∷ 6000 ∷ [])
      3000
      5000
    ≡ ok (codes "/support/downloads/dir0000000002/download2_2", some 5454)
unfolding choose_url decimal download_url
one_download = refl

one_image :
    choose_url parts pow minus_one 8500 9900 class_freq file_freq 3 none 100 32 [] 3000 5000
    ≡ ok (codes "/support/images/flattab_sl", none)
unfolding choose_url
one_image = refl

-- With six directories the sum of all probabilities is 9997 by rounding.
no_value :
    choose_url parts pow minus_one 8500 9900 class_freq file_freq 6 none 9950 7
      (9999 ∷ [])
      3000
      5000
    ≡ stop no_zipf_value
unfolding choose_url
no_value = refl

pulled : Pulls parts pow (0 ∷ 6000 ∷ []) 6000
unfolding equal
pulled = inr (refl, inl (refl, refl))

classes-IsTotal : IsTotal parts class_freq
classes-IsTotal = (omega arith, refl)

choose_url-IsUrl_example :
    ((choose_url parts pow minus_one 8500 9900 class_freq file_freq 3 none 9950 7
          (0 ∷ 6000 ∷ [])
          3000
          5000
        ≡ stop no_zipf_value)
      × ((j : ℕ)
          → 1 ≤ j
          → j ≤ 3
          → ltb (sum_to parts pow (constant parts pow none 3) j) 6000 ≡ true))
    ⊎ ((url : List ℕ) × (kept : Option ℕ) × (choose_url parts pow minus_one 8500 9900 class_freq
            file_freq 3 none 9950 7
            (0 ∷ 6000 ∷ [])
            3000
            5000
          ≡ ok (url, kept))
        × IsUrl parts pow minus_one 8500 9900 class_freq file_freq 3 none
            (0 ∷ 6000 ∷ [])
            6000
            3000
            5000
            pulled
            classes-IsTotal
            rows-HasRows
            (refl, refl)
            (refl, refl)
            9950
            7
            url
            kept)
choose_url-IsUrl_example =
    choose_url-IsUrl parts pow minus_one 8500 9900 class_freq file_freq 3 none (0 ∷ 6000 ∷ []) 6000
      3000 5000 pulled classes-IsTotal rows-HasRows (refl, refl) (refl, refl) 9950 7
