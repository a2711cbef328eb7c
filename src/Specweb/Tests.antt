-- ===== src/Specweb/Tests.antt =====
-- The tables of master_slave.h in millionths, with five directories.
use slg.Base.{ℕ, ◌+◌, ◌-◌, ◌*◌, ◌/◌, ◌≡◌, refl, ◌⊎◌, List, [], ◌∷◌, arith, ltb, take}
use slg.Base.Int.{pos}
use slg.Base.Text.{codes}
use slg.Base.Decimal.{decimal}
use slg.Base.Outcome.{ok, stop}
use slg.Specweb.{
  Doubles, out_of_bounds, setup_zipf, running_sums, reciprocals, zipf, url_text, choose_url,
}
use slg.Specweb.Zipf.{Under, IsDirectory}
use slg.Specweb.Draw.{IsDrawn, choose_url-IsDrawn}

abbrev millionths : Doubles ℕ
millionths = record {
  nought = 0;
  one = 1000000;
  of_count = λ n. n * 1000000;
  add = λ a b. a + b;
  subtract = λ a b. a - b;
  divide = λ a b. a * 1000000 / b;
  less = ltb;
}

abbrev class_freq : List ℕ
class_freq = 350000 ∷ 850000 ∷ 990000 ∷ 1000000 ∷ []

abbrev file_freq : List ℕ
file_freq = 39000 ∷ 98000 ∷ 186000 ∷ 363000 ∷ 716000 ∷ 834000 ∷ 905000 ∷ 955000 ∷ 1000000 ∷ []

abbrev five_directories : List ℕ
five_directories = 1000000 ∷ 343066 ∷ 197081 ∷ 87592 ∷ 1000000 ∷ []

five_directories_filled : setup_zipf millionths 5 ≡ ok five_directories
unfolding setup_zipf
five_directories_filled = refl

-- A number in the middle draws directory 0, the greatest ones too, and a small one reads past the table.
three_draws :
    (zipf millionths 500000 five_directories ≡ ok (pos 0))
    × (zipf millionths 90000 five_directories ≡ ok (pos 2))
    × (zipf millionths 80000 five_directories ≡ stop out_of_bounds)
unfolding zipf
three_draws = (refl, refl, refl)

one_url :
    choose_url millionths five_directories class_freq file_freq 90000 900000 100000
    ≡ ok (codes "/dir00002/class2_2")
unfolding choose_url decimal
one_url = refl

choose_url-IsDrawn_example :
    (dir_zipf : List ℕ) × (setup_zipf millionths 5 ≡ ok dir_zipf)
    × (((choose_url millionths dir_zipf class_freq file_freq 90000 900000 100000
            ≡ stop out_of_bounds)
          × Under millionths 90000 dir_zipf 5)
        ⊎ ((dir : ℕ) × (theclass : ℕ) × (file : ℕ) × (zipf millionths 90000 dir_zipf ≡ ok (pos dir))
            × IsDirectory millionths 5 dir_zipf 90000 dir
            × IsDrawn millionths 900000 class_freq theclass
            × IsDrawn millionths 100000 file_freq file
            × (choose_url millionths dir_zipf class_freq file_freq 90000 900000 100000
                ≡ ok (take 62 (url_text (pos dir) theclass file)))))
unfolding running_sums reciprocals
choose_url-IsDrawn_example =
    choose_url-IsDrawn millionths 5 (omega arith) refl class_freq file_freq refl refl
      (omega arith, refl) (omega arith, refl) 90000 900000 100000 refl (refl, refl) (refl, refl)
