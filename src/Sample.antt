-- ===== src/Sample.antt =====
-- stats_utils.c: samples of long doubles, and the tables of unsigned longs. The arithmetic of long doubles
-- is a parameter.
pub mod Fill
pub mod Search
pub mod Percentile
pub mod Tests
use slg.Base.{
  ℕ, zero, suc, ◌+◌, ◌-◌, List, [], ◌∷◌, Option, none, some, Bool, true, false, length, set,
  replicate, get_elem?, ◌==◌, if◌then◌else◌, ltb, ◌&&◌,
}
use slg.Base.Word.{sub64}
use slg.Base.Outcome.{Outcome, ok, stop, ◌>>=◌}

pub data Failed : Type 0 where
  assertion out_of_bounds : Failed

-- `stats_sample_Lf_t`, without the name, which is printed only.
pub record Sample {ℓ} (F : Type ℓ) : Type ℓ where
  pub s : List F
  pub nb_elem : ℕ
  pub size_max : ℕ

module _ {ℓ} {F : Type ℓ} where
  -- `init_stats_sample_Lf`, with the answer of calloc
  unfoldable pub init_stats_sample_lf : F → Bool → ℕ → Outcome Failed (Sample F)
  init_stats_sample_lf nought allocated size_max =
      if allocated
      then ok (record { s = replicate size_max nought; nb_elem = 0; size_max = size_max })
      else stop assertion

  -- `destroy_stats_sample_Lf`
  unfoldable pub destroy_stats_sample_lf : Sample F → Sample F
  destroy_stats_sample_lf sample = record { s = []; nb_elem = 0; size_max = 0 }

  -- `tab[i] = val`
  store : List F → ℕ → F → Outcome Failed (List F)
  store tab i val = if ltb i (length tab) then ok (set tab i val) else stop out_of_bounds

  -- `tab[i]`
  unfoldable pub load : List F → ℕ → Outcome Failed F
  load tab i = elim (get_elem? tab i) [ none ↦ stop out_of_bounds | some v ↦ ok v ]

  -- `insert_Lf`
  unfoldable pub insert_lf : Sample F → F → Outcome Failed (Sample F)
  unfolding store
  insert_lf sample val =
      if ltb sample.nb_elem sample.size_max
      then store sample.s sample.nb_elem val
        >>= (λ s. ok (record { s = s; nb_elem = sample.nb_elem + 1; size_max = sample.size_max }))
      else stop assertion

  -- The search that `min_Lf` and `t_minSearch_ul` do, `max_Lf` and `t_maxSearch_ul` with the order turned
  -- round: `k` elements from the `i`th on, against the best one so far.
  unfoldable pub search_from : (F → F → Bool) → List F → ℕ → ℕ → F → Outcome Failed F
  unfolding load
  search_from less tab i zero best = ok best
  search_from less tab i (suc k) best =
      load tab i >>= (λ v. search_from less tab (i + 1) k (if less v best then v else best))

  -- `min_Lf`
  unfoldable pub min_lf : (F → F → Bool) → Sample F → Outcome Failed F
  unfolding load search_from
  min_lf less sample =
      if sample.nb_elem == 0
      then stop assertion
      else load sample.s 0 >>= (λ first. search_from less sample.s 0 sample.nb_elem first)

  -- `max_Lf`
  unfoldable pub max_lf : (F → F → Bool) → Sample F → Outcome Failed F
  unfolding load search_from
  max_lf less sample =
      if sample.nb_elem == 0
      then stop assertion
      else load sample.s 0
        >>= (λ first. search_from (λ v best. less best v) sample.s 0 sample.nb_elem first)

-- `t_minSearch_ul`; its assert lets every table through that is not NULL.
unfoldable pub t_min_search_ul : List ℕ → ℕ → Outcome Failed ℕ
unfolding load search_from
t_min_search_ul table n = load table 0 >>= (λ first. search_from ltb table 1 (n - 1) first)

-- `t_maxSearch_ul`
unfoldable pub t_max_search_ul : List ℕ → ℕ → Outcome Failed ℕ
unfolding load search_from
t_max_search_ul table n =
    load table 0 >>= (λ first. search_from (λ v best. ltb best v) table 1 (n - 1) first)

-- The arithmetic of long doubles that the averages use.
pub record Arithmetic {ℓ} (F : Type ℓ) : Type ℓ where
  pub nought : F
  pub add : F → F → F
  pub divide : F → F → F
  pub of_count : ℕ → F

module _ {ℓ} {F : Type ℓ} (f : Arithmetic F) where
  add_from : List F → ℕ → ℕ → F → Outcome Failed F
  unfolding load
  add_from tab i zero avg = ok avg
  add_from tab i (suc k) avg = load tab i >>= (λ v. add_from tab (i + 1) k (f.add avg v))

  -- `_helper_average_Lf`, over the elements from `start_i` to `end_i`
  unfoldable pub helper_average_lf : List F → ℕ → ℕ → Outcome Failed F
  unfolding add_from
  helper_average_lf tab start_i end_i =
      add_from tab start_i (end_i + 1 - start_i) f.nought
      >>= (λ avg. ok (f.divide avg (f.of_count (sub64 (end_i + 1) start_i))))

  -- `average_Lf`
  unfoldable pub average_lf : Sample F → Outcome Failed F
  unfolding helper_average_lf
  average_lf sample =
      if sample.nb_elem == 0 then ok f.nought else helper_average_lf sample.s 0 (sample.nb_elem - 1)
