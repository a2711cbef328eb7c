-- ===== src/Master/Measures.antt =====
-- The measures of a wave: `master_stats_t`, `init_master_stat_report`, `fill_master_stat_report`. Doubles
-- and long doubles are one type, whose arithmetic is a parameter.
use slg.Base.{ℕ, zero, suc, List, [], ◌∷◌, true, length}
use slg.Base.Outcome.{Outcome, ok, ◌>>=◌}
use slg.Sample.{Sample, Failed, Arithmetic, init_stats_sample_lf, insert_lf}
use slg.Protocol.Response.{SlaveStats}

-- One value for each measure: `master_stats_t` is nine samples.
pub record Measures {ℓ} (A : Type ℓ) : Type ℓ where
  pub total_time : A
  pub avg_ct : A
  pub avg_rt : A
  pub avg_crt : A
  pub resp_rate : A
  pub bytes_rate : A
  pub max_ct : A
  pub min_ct : A
  pub errors : A

module _ {ℓ} {F : Type ℓ} where
  -- `init_master_stat_report` for one wave, if calloc succeeds
  unfoldable pub init_wave : F → ℕ → Outcome Failed (Measures (Sample F))
  init_wave nought n = do
    total_time ← init_stats_sample_lf nought true n
    avg_ct ← init_stats_sample_lf nought true n
    avg_rt ← init_stats_sample_lf nought true n
    avg_crt ← init_stats_sample_lf nought true n
    resp_rate ← init_stats_sample_lf nought true n
    bytes_rate ← init_stats_sample_lf nought true n
    max_ct ← init_stats_sample_lf nought true n
    min_ct ← init_stats_sample_lf nought true n
    errors ← init_stats_sample_lf nought true n
    ok (record {
      total_time = total_time;
      avg_ct = avg_ct;
      avg_rt = avg_rt;
      avg_crt = avg_crt;
      resp_rate = resp_rate;
      bytes_rate = bytes_rate;
      max_ct = max_ct;
      min_ct = min_ct;
      errors = errors;
    })

  -- `init_master_stat_report`
  unfoldable pub init_master_stat_report : F → ℕ → ℕ → Outcome Failed (List (Measures (Sample F)))
  init_master_stat_report nought zero n = ok []
  init_master_stat_report nought (suc nb_waves) n = do
    wave ← init_wave nought n
    waves ← init_master_stat_report nought nb_waves n
    ok (wave ∷ waves)

  -- The nine inserts at the end of `fill_master_stat_report`, in their order.
  unfoldable pub insert_measures :
      Measures (Sample F) → Measures F → Outcome Failed (Measures (Sample F))
  insert_measures w v = do
    total_time ← insert_lf w.total_time v.total_time
    avg_ct ← insert_lf w.avg_ct v.avg_ct
    avg_rt ← insert_lf w.avg_rt v.avg_rt
    avg_crt ← insert_lf w.avg_crt v.avg_crt
    bytes_rate ← insert_lf w.bytes_rate v.bytes_rate
    resp_rate ← insert_lf w.resp_rate v.resp_rate
    max_ct ← insert_lf w.max_ct v.max_ct
    min_ct ← insert_lf w.min_ct v.min_ct
    errors ← insert_lf w.errors v.errors
    ok (record {
      total_time = total_time;
      avg_ct = avg_ct;
      avg_rt = avg_rt;
      avg_crt = avg_crt;
      resp_rate = resp_rate;
      bytes_rate = bytes_rate;
      max_ct = max_ct;
      min_ct = min_ct;
      errors = errors;
    })

module _ {ℓ} {F : Type ℓ} (f : Arithmetic F) (multiply : F → F → F) where
  -- A sum over the slaves, from 0.
  over_slaves : (SlaveStats F → F) → F → List (SlaveStats F) → F
  over_slaves measure sum [] = sum
  over_slaves measure sum (s ∷ slaves) = over_slaves measure (f.add sum (measure s)) slaves

  -- The values that `fill_master_stat_report` inserts; nothing is added to maxCT and minCT.
  unfoldable pub wave_values : List (SlaveStats F) → ℕ → Measures F
  unfolding over_slaves
  wave_values slaves duration =
      let total = λ (measure : SlaveStats F → F). over_slaves measure f.nought slaves in
      let nb_slaves = f.of_count (length slaves) in
      let rate = λ (x : F). multiply (f.divide x (f.of_count duration)) (f.of_count 1000000) in
      record {
        total_time = f.divide (total (λ s. f.of_count s.total_time)) nb_slaves;
        avg_ct = f.divide (total (λ s. s.avg_ct)) nb_slaves;
        avg_rt = f.divide (total (λ s. s.avg_rt)) nb_slaves;
        avg_crt = f.divide (total (λ s. s.avg_crt)) nb_slaves;
        resp_rate = rate (total (λ s. f.of_count s.resp_recv));
        bytes_rate = rate (total (λ s. f.of_count s.bytes_recv));
        max_ct = f.divide f.nought nb_slaves;
        min_ct = f.divide f.nought nb_slaves;
        errors = total (λ s. f.of_count s.errors);
      }

  -- `fill_master_stat_report`, on the entry of its wave
  unfoldable pub fill_master_stat_report :
      List (SlaveStats F) → ℕ → Measures (Sample F) → Outcome Failed (Measures (Sample F))
  unfolding wave_values insert_measures
  fill_master_stat_report slaves duration w = insert_measures w (wave_values slaves duration)
