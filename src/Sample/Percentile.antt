-- ===== src/Sample/Percentile.antt =====
-- stats_utils.c: the deviations and the functions of percentiles. The power, the root and `qsort` are
-- parameters, and so is `calloc`'s answer.
pub mod Rounding
pub mod Sorting
pub mod Steady
pub mod Total
use slg.Base.{
  ℕ, zero, suc, ◌+◌, ◌-◌, List, [], ◌∷◌, Option, none, some, Bool, true, false, length, take, ◌==◌,
  if◌then◌else◌, ltb, ◌&&◌,
}
use slg.Base.Int.{ℤ, pos, negsuc}
use slg.Base.Word.{sub64}
use slg.Base.Outcome.{Outcome, ok, stop, ◌>>=◌}
use slg.Sample.{Sample, Failed, assertion, out_of_bounds, load, Arithmetic, helper_average_lf}

-- What the deviations use beside the arithmetic of the averages: `powl(x - avg, 2)` and `sqrtl`.
pub record Deviation {ℓ} (F : Type ℓ) : Type ℓ where
  pub square_of_difference : F → F → F
  pub root : F → F

-- `compare_elem`
unfoldable pub compare_elem {ℓ} : {F : Type ℓ} → (F → F → Bool) → F → F → ℤ
compare_elem less a b = if less a b then negsuc 0 else if less b a then pos 1 else pos 0

-- The arithmetic of doubles and floats on the numbers of an interval: `to_float` rounds a double to a
-- float, and `multiply` is of floats, as `of_count` is of a number of elements there.
pub record Floats {ℓ} (G : Type ℓ) : Type ℓ where
  pub of_count : ℕ → G
  pub subtract : G → G → G
  pub divide : G → G → G
  pub multiply : G → G → G
  pub to_float : G → G
  pub floor : G → ℕ

-- `side_percent_to_cut`, ((100.0-(float)percent)/2.0)/100.0
unfoldable pub side_percent_to_cut {ℓ} : {G : Type ℓ} → Floats G → ℕ → G
side_percent_to_cut fl percent = fl.to_float (
    fl.divide (fl.divide (fl.subtract (fl.of_count 100) (fl.of_count percent)) (fl.of_count 2))
      (fl.of_count 100))

-- `start_i`, floor(nb_elem * side_percent_to_cut)
unfoldable pub start_of {ℓ} : {G : Type ℓ} → Floats G → (percent nb_elem : ℕ) → ℕ
unfolding side_percent_to_cut
start_of fl percent nb_elem =
    fl.floor (fl.multiply (fl.of_count nb_elem) (side_percent_to_cut fl percent))

-- `assert(end_i > start_i)`; `use_interval` gets the first and the last index that are kept.
unfoldable pub between {ℓ} :
    {F : Type ℓ}
    → (start_i nb_elem : ℕ) → (use_interval : ℕ → ℕ → Outcome Failed F) → Outcome Failed F
between start_i nb_elem use_interval =
    let end_i = sub64 nb_elem start_i in
    if ltb start_i end_i then use_interval start_i (end_i - 1) else stop assertion

-- What a function of an interval does first: the asserts, the empty sample, and the elements to cut on
-- each side. A percentage below 0 fails like 0.
unfoldable pub on_interval {ℓ} :
    {F G : Type ℓ}
    → (nought : F) → (fl : Floats G) → (nb_elem percent : ℕ)
    → (use_interval : ℕ → ℕ → Outcome Failed F) → Outcome Failed F
unfolding between start_of
on_interval nought fl nb_elem percent use_interval =
    if ltb 0 percent && ltb percent 101
    then if nb_elem == 0
      then ok nought
      else between (start_of fl percent nb_elem) nb_elem use_interval
    else stop assertion

module _ {ℓ} {F : Type ℓ} (f : Arithmetic F) (d : Deviation F) where
  -- `interval_average_Lf`
  unfoldable pub interval_average_lf : {G : Type ℓ} → Floats G → Sample F → ℕ → Outcome Failed F
  unfolding helper_average_lf on_interval
  interval_average_lf fl sample percent =
      on_interval f.nought fl sample.nb_elem percent (helper_average_lf f sample.s)

  -- The loop of `_helper_stddev_Lf` over `k` elements from the `i`th on.
  unfoldable pub square_from : List F → F → ℕ → ℕ → F → Outcome Failed F
  unfolding load
  square_from tab avg i zero stddev = ok stddev
  square_from tab avg i (suc k) stddev =
      load tab i
      >>= (λ v. square_from tab avg (i + 1) k (f.add stddev (d.square_of_difference v avg)))

  -- `_helper_stddev_Lf`
  unfoldable pub helper_stddev_lf : List F → ℕ → ℕ → Outcome Failed F
  unfolding helper_average_lf square_from
  helper_stddev_lf tab start_i end_i = helper_average_lf f tab start_i end_i >>= (λ avg.
      square_from tab avg start_i (end_i + 1 - start_i) f.nought
      >>= (λ stddev. ok (d.root (f.divide stddev (f.of_count (sub64 (end_i + 1) start_i))))))

  -- `stddev_Lf`
  unfoldable pub stddev_lf : Sample F → Outcome Failed F
  unfolding helper_stddev_lf
  stddev_lf sample =
      if sample.nb_elem == 0 then ok f.nought else helper_stddev_lf sample.s 0 (sample.nb_elem - 1)

  -- `interval_stddev_Lf`
  unfoldable pub interval_stddev_lf : {G : Type ℓ} → Floats G → Sample F → ℕ → Outcome Failed F
  unfolding helper_stddev_lf on_interval
  interval_stddev_lf fl sample percent =
      on_interval f.nought fl sample.nb_elem percent (helper_stddev_lf sample.s)

-- `temp`: the elements of a sample, copied and sorted.
unfoldable pub sorted_copy {ℓ} :
    {F : Type ℓ} → (List F → List F) → Bool → Sample F → Outcome Failed (List F)
sorted_copy qsort allocated sample =
    if allocated
    then if ltb (length sample.s) sample.nb_elem
      then stop out_of_bounds
      else ok (qsort (take sample.nb_elem sample.s))
    else stop assertion

-- `qsort`, given the function that compares.
module _ {ℓ} {F : Type ℓ} (f : Arithmetic F) (d : Deviation F) (less : F → F → Bool)
    (qsort : (F → F → ℤ) → List F → List F) {G : Type ℓ} (fl : Floats G) where
  -- `percentil_average_Lf`
  unfoldable pub percentil_average_lf : Bool → Sample F → ℕ → Outcome Failed F
  unfolding on_interval sorted_copy helper_average_lf
  percentil_average_lf allocated sample percentil =
      on_interval f.nought fl sample.nb_elem percentil (λ start_i end_i.
        sorted_copy (qsort (compare_elem less)) allocated sample
        >>= (λ temp. helper_average_lf f temp start_i end_i))

  -- `percentil_stddev_Lf`
  unfoldable pub percentil_stddev_lf : Bool → Sample F → ℕ → Outcome Failed F
  unfolding on_interval sorted_copy helper_stddev_lf
  percentil_stddev_lf allocated sample percentil =
      on_interval f.nought fl sample.nb_elem percentil (λ start_i end_i.
        sorted_copy (qsort (compare_elem less)) allocated sample
        >>= (λ temp. helper_stddev_lf f d temp start_i end_i))

-- `t_average_f`, and `t_average_ul` on the doubles that its elements become. The asserts let every table
-- through that is not NULL.
module _ {ℓ} {F : Type ℓ} (f : Arithmetic F) where
  table_from : List F → ℕ → ℕ → F → Outcome Failed F
  unfolding load
  table_from tab i zero moy = ok moy
  table_from tab i (suc k) moy = load tab i >>= (λ v. table_from tab (i + 1) k (f.add moy v))

  unfoldable pub t_average : List F → ℕ → Outcome Failed F
  unfolding table_from
  t_average table n = table_from table 0 n f.nought >>= (λ moy. ok (f.divide moy (f.of_count n)))
