-- ===== src/Specweb05.antt =====
-- slg.c, built with SPECWEB05_FILE_ACCESS_PATTERN, and its tables in master_slave.h: `zipf` and `choose_url`. The
-- arithmetic of doubles and `pow` are parameters; the numbers that `rand` gives are arguments.
pub mod Draw
pub mod Url
mod Tests
use slg.Base.{
  ℕ, zero, suc, ◌+◌, ◌-◌, ◌%◌, List, [], ◌∷◌, ◌++◌, Option, none, some, Bool, true, false, ◌||◌,
  ◌==◌, if◌then◌else◌, length, take, get_elem?, replicate,
}
use slg.Base.Int.{ℤ, pos, negsuc}
use slg.Base.Text.{codes}
use slg.Base.Decimal.{decimal}
use slg.Base.Outcome.{Outcome, ok, stop, within, ◌>>=◌}
use slg.Specweb.{Doubles, Trouble, out_of_bounds, equal, get_new_value_from_table}

-- PANIC, the assert on `zipf_value`, and the accesses to the tables.
pub data Trouble05 : Type 0 where
  big_bug no_zipf_value no_more_numbers : Trouble05
  at_table : Trouble → Trouble05

abbrev pub php_files : List (List ℕ)
php_files =
    codes "index.php"
    ∷ codes "fileCatalog.php?id=3279&category=4&os=4&lang=9"
    ∷ codes "search.php?q=cdrom+wireless+memory"
    ∷ codes "file.php?id=36043"
    ∷ codes "product.php?id=1812"
    ∷ codes "catalog.php?id=1165"
    ∷ []

abbrev pub images_files : List (List ℕ)
images_files =
    codes "template_javascripts"
    ∷ codes "flattab_sl"
    ∷ codes "h_product_selection"
    ∷ codes "blue_arrow_top"
    ∷ codes "print"
    ∷ codes "email"
    ∷ codes "flattab_nr"
    ∷ codes "bar"
    ∷ codes "button-1"
    ∷ codes "nav_q"
    ∷ codes "us"
    ∷ codes "help"
    ∷ codes "aaa"
    ∷ codes "masthead_transparent"
    ∷ codes "button-3"
    ∷ codes "masthead_local_sep"
    ∷ codes "H_Service_Tag_Unkown"
    ∷ codes "content_arrow"
    ∷ codes "masthead_global"
    ∷ codes "global"
    ∷ codes "content_action"
    ∷ codes "H_D"
    ∷ codes "masthead_subnavsep"
    ∷ codes "note"
    ∷ codes "button-2"
    ∷ codes "___"
    ∷ codes "flattab_nl"
    ∷ codes "blue_arrow_right"
    ∷ codes "flattab_sr"
    ∷ codes "ccc"
    ∷ codes "spacer"
    ∷ []

-- `tab[i]`
unfoldable pub at_index {ℓ} : {A : Type ℓ} → List A → ℕ → Outcome Trouble05 A
at_index tab i = elim (get_elem? tab i) [ none ↦ stop (at_table out_of_bounds) | some a ↦ ok a ]

-- "/support/images/%s" and "/support/%s"
unfoldable pub named_url : List ℕ → List (List ℕ) → ℕ → Outcome Trouble05 (List ℕ)
unfolding at_index
named_url prefix files i = at_index files i >>= (λ name. ok (take 127 (prefix ++ name)))

-- "/support/downloads/dir%010d/download%d_%d"
unfoldable pub download_url : ℕ → ℕ → ℕ → List ℕ
download_url dir theclass file = take 127 (
    codes "/support/downloads/dir"
    ++ (replicate (10 - length (decimal dir)) b'0'
        ++ (decimal dir ++ (codes "/download" ++ (decimal theclass ++ (b'_' ∷ decimal file))))))

module _ {ℓ} {D : Type ℓ} (f : Doubles D) (pow : ℕ → D) where
  -- The sum of `1.0 / pow(i, alpha)`, `k` of them from the `i`th on.
  unfoldable pub reciprocal_sum : D → ℕ → ℕ → D
  reciprocal_sum c i zero = c
  reciprocal_sum c i (suc k) = reciprocal_sum (f.add c (f.divide f.one (pow i))) (i + 1) k

  -- The static `first` and `c`: nothing before the first call.
  unfoldable pub constant : Option D → ℕ → D
  unfolding reciprocal_sum
  constant none n = f.divide f.one (reciprocal_sum f.nought 1 n)
  constant (some c) n = c

  -- The loop that draws: the first number that is neither 0 nor 1
  unfoldable pub pull : List D → Outcome Trouble05 D
  unfolding equal
  pull [] = stop no_more_numbers
  pull (z ∷ zs) =
      let later = pull zs in if equal f z f.nought || equal f z f.one then later else ok z

  -- The loop that maps `z` to a value, `k` rounds from `i` on, and the assert after it.
  unfoldable pub first_sum : D → D → ℕ → ℕ → D → Outcome Trouble05 ℕ
  first_sum c z i zero sum_prob = stop no_zipf_value
  first_sum c z i (suc k) sum_prob =
      let sum_prob' = f.add sum_prob (f.divide c (pow i)) in
      let later = first_sum c z (i + 1) k sum_prob' in if f.less sum_prob' z then later else ok i

  -- `zipf`: the value, and what it keeps for the next call
  unfoldable pub zipf : Option D → ℕ → List D → Outcome Trouble05 (ℕ × D)
  unfolding constant pull first_sum
  zipf first n zs =
      let c = constant first n in pull zs >>= (λ z. first_sum c z 1 n f.nought >>= (λ i. ok (i, c)))

  module _ (minus_one : D) (type_freq_0 type_freq_1 : D) (class_freq : List D)
      (file_freq : List (List D)) (num_dirs : ℕ) where
    -- `class == -1 || file == -1 || file_freq[class][file] == -1`, and the url if not
    checked : ℕ → ℤ → ℤ → Outcome Trouble05 (List ℕ)
    unfolding at_index equal
    checked dir (pos theclass) (pos file) = at_index file_freq theclass >>= (λ table.
        at_index table file >>= (λ frequency.
          if equal f frequency minus_one
          then stop big_bug
          else ok (download_url dir theclass file)))
    checked dir theclass file = stop big_bug

    -- `file_freq[class]`, an access below the array for -1
    table_of : ℤ → Outcome Trouble05 (List D)
    unfolding at_index
    table_of (pos theclass) = at_index file_freq theclass
    table_of (negsuc n) = stop (at_table out_of_bounds)

    -- The branch of `choose_url` with the downloads.
    unfoldable pub choose_download :
        Option D → List D → D → D → Outcome Trouble05 (List ℕ × Option D)
    unfolding zipf get_new_value_from_table checked table_of
    choose_download first zs r_class r_file = zipf first num_dirs zs >>= (λ dir.
        within at_table (get_new_value_from_table f r_class class_freq 6) >>= (λ theclass.
          table_of theclass >>= (λ table.
            within at_table (get_new_value_from_table f r_file table 5)
            >>= (λ file. checked dir.0 theclass file >>= (λ url. ok (url, some dir.1))))))

    -- `choose_url`, and what `zipf` keeps for the next call. Each branch draws what it needs.
    unfoldable pub choose_url :
        Option D → D → ℕ → List D → D → D → Outcome Trouble05 (List ℕ × Option D)
    unfolding named_url choose_download
    choose_url first d d2 zs r_class r_file =
        if f.less d type_freq_0
        then named_url (codes "/support/images/") images_files (d2 % 31) >>= (λ u. ok (u, first))
        else if f.less d type_freq_1
        then named_url (codes "/support/") php_files (d2 % 6) >>= (λ u. ok (u, first))
        else choose_download first zs r_class r_file
