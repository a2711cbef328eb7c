-- ===== src/Specweb.antt =====
-- slg.c, built with SPECWEB99_FILE_ACCESS_PATTERN: the table of directories, the draws from tables, and
-- `choose_url`. The arithmetic of doubles is a parameter; `rand` gives the numbers that are drawn.
pub mod Zipf
pub mod Draw
mod Tests
use slg.Base.{
  ℕ, zero, suc, ◌+◌, ◌-◌, List, [], ◌∷◌, ◌++◌, Option, none, some, Bool, true, false, ◌&&◌, ◌==◌,
  if◌then◌else◌, ltb, length, set, map, take, replicate,
}
use slg.Base.Int.{ℤ, pos, negsuc}
use slg.Base.Text.{codes}
use slg.Base.Decimal.{decimal}
use slg.Base.Outcome.{Outcome, ok, stop, ◌>>=◌}

pub data Trouble : Type 0 where
  out_of_bounds assertion : Trouble

-- The arithmetic of doubles that the tables use.
pub record Doubles {ℓ} (D : Type ℓ) : Type ℓ where
  pub nought : D
  pub one : D
  pub of_count : ℕ → D
  pub add : D → D → D
  pub subtract : D → D → D
  pub divide : D → D → D
  pub less : D → D → Bool

module _ {ℓ} {D : Type ℓ} (f : Doubles D) where
  -- The first loop of `setupZipf`: `k` entries, 1 / i from the `i`th on.
  unfoldable pub reciprocals : ℕ → ℕ → List D
  reciprocals i zero = []
  reciprocals i (suc k) = f.divide f.one (f.of_count i) ∷ reciprocals (i + 1) k

  -- The second loop: each entry becomes the sum up to it, and `zipf_sum` the last sum.
  unfoldable pub running_sums : D → List D → List D × D
  running_sums zipf_sum [] = ([], zipf_sum)
  running_sums zipf_sum (x ∷ table) =
      let (rest, total) = running_sums (f.add zipf_sum x) table in (f.add zipf_sum x ∷ rest, total)

  -- The third loop.
  unfoldable pub normalised : D → List D → List D
  normalised zipf_sum [] = []
  normalised zipf_sum (x ∷ table) =
      f.subtract f.one (f.divide x zipf_sum) ∷ normalised zipf_sum table

  -- `setupZipf`, on a table of `size` entries
  unfoldable pub setup_zipf : ℕ → Outcome Trouble (List D)
  unfolding reciprocals running_sums normalised
  setup_zipf size =
      let (sums, zipf_sum) = running_sums f.nought (reciprocals 1 size) in
      if size == 0
      then stop out_of_bounds
      else ok (normalised zipf_sum (set (set sums (size - 1) f.nought) 0 f.nought))

  -- The loop of `zipf` from entry `i` on, which has no bound of its own.
  unfoldable pub first_not_above : D → List D → ℕ → Outcome Trouble ℕ
  first_not_above r [] i = stop out_of_bounds
  first_not_above r (x ∷ table) i =
      let later = first_not_above r table (i + 1) in if f.less r x then later else ok i

  before : ℕ → ℤ
  before zero = negsuc 0
  before (suc i) = pos i

  -- `zipf`, with the number that is drawn
  unfoldable pub zipf : D → List D → Outcome Trouble ℤ
  unfolding first_not_above before
  zipf r table = first_not_above r table 0 >>= (λ i. ok (before i))

  -- The loop of `get_new_value_from_table` from entry `i` on.
  unfoldable pub first_not_below : D → ℕ → List D → ℕ → Outcome Trouble ℕ
  first_not_below r table_size [] i = stop out_of_bounds
  first_not_below r table_size (x ∷ table) i =
      let later = first_not_below r table_size table (i + 1) in
      if f.less x r && f.less r (f.of_count table_size) then later else ok i

  unfoldable pub equal : D → D → Bool
  equal a b = elim (f.less a b) [
    | true ↦ false
    | false ↦ elim (f.less b a) [ true ↦ false | false ↦ true ]
  ]

  -- `get_new_value_from_table`, where `==` of numbers that are not NaN is that neither is less
  unfoldable pub get_new_value_from_table : D → List D → ℕ → Outcome Trouble ℤ
  unfolding first_not_below equal
  get_new_value_from_table r table table_size =
      first_not_below r table_size table 0
      >>= (λ i. ok (if equal r (f.of_count table_size) then negsuc 0 else pos i))

  -- `assert(value >= 0 && value < size)`
  in_range : ℤ → ℕ → Outcome Trouble ℕ
  in_range (pos n) size = if ltb n size then ok n else stop assertion
  in_range (negsuc n) size = stop assertion

-- "%05d"
unfoldable pub five_digits : ℤ → List ℕ
five_digits (pos n) = replicate (5 - length (decimal n)) b'0' ++ decimal n
five_digits (negsuc n) = b'-' ∷ (replicate (4 - length (decimal (suc n))) b'0' ++ decimal (suc n))

-- "%sdir%05d/class%d_%d"
unfoldable pub url_text : ℤ → ℕ → ℕ → List ℕ
unfolding five_digits
url_text dir theclass file =
    codes "/dir"
    ++ (five_digits dir ++ (codes "/class" ++ (decimal theclass ++ (b'_' ∷ decimal file))))

module _ {ℓ} {D : Type ℓ} (f : Doubles D) (dir_zipf class_freq file_freq : List D) where
  -- `choose_url`, with the three numbers that are drawn; snprintf keeps at most 62 bytes
  unfoldable pub choose_url : D → D → D → Outcome Trouble (List ℕ)
  unfolding zipf get_new_value_from_table in_range url_text
  choose_url r1 r2 r3 = zipf f r1 dir_zipf >>= (λ dir.
      get_new_value_from_table f r2 class_freq 4 >>= (λ theclass.
        get_new_value_from_table f r3 file_freq 9 >>= (λ file.
          in_range f theclass 4
          >>= (λ c. in_range f file 9 >>= (λ n. ok (take 62 (url_text dir c n)))))))
