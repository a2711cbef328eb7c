-- ===== src/Master/Printed.antt =====
-- slg_master.c, `print_stats`: the values of a wave, and where they come from. The text is left out.
pub mod Total
use slg.Base.{ℕ, ◌+◌, ◌*◌, List, Option, none, some, Bool, true, false, if◌then◌else◌}
use slg.Base.Int.{ℤ, pos, negsuc}
use slg.Base.Word.{u32}
use slg.Base.Outcome.{Outcome, ok, stop, ◌>>=◌}
use slg.Sample.{Sample, Failed, assertion, Arithmetic, load, average_lf}
use slg.Sample.Percentile.{Floats, Deviation, percentil_average_lf, percentil_stddev_lf, stddev_lf}
use slg.Master.Measures.{Measures}

-- What is printed beside the averages: a deviation as a share of its average, and bytes as megabits.
pub record Format {ℓ} (F : Type ℓ) : Type ℓ where
  pub share : F → F → F
  pub megabits : F → F

-- An average and the share that the deviation is of it.
pub record Pair {ℓ} (F : Type ℓ) : Type ℓ where
  pub average : F
  pub deviation : F

-- The line on standard output, and the one on standard error that -r asks for.
pub record Row {ℓ} (F : Type ℓ) : Type ℓ where
  pub clients : ℕ
  pub resp_rate : Pair F
  pub bytes_rate : Pair F
  pub connect_time : Pair F
  pub response_time : Pair F
  pub connected_response_time : Pair F
  pub total_time : Pair F
  pub errors : Pair F
  pub throughput : Option (F × F)

-- `percent_stats_kept_master` is an int; one below 0 fails the assert like 0.
unfoldable pub kept : ℤ → ℕ
kept (pos n) = n
kept (negsuc n) = 0

module _ {ℓ} {F : Type ℓ} (f : Arithmetic F) (d : Deviation F) (format : Format F)
    (less : F → F → Bool) (qsort : (F → F → ℤ) → List F → List F) {G : Type ℓ} (fl : Floats G) where
  -- The two values that are printed of a sample, with whether the calloc for each succeeds.
  unfoldable pub pair_of : Bool → Bool → ℤ → Sample F → Outcome Failed (Pair F)
  unfolding kept percentil_average_lf percentil_stddev_lf
  pair_of first second percent sample = do
    avg ← percentil_average_lf f d less qsort fl first sample (kept percent)
    stddev ← percentil_stddev_lf f d less qsort fl second sample (kept percent)
    ok (record { average = avg; deviation = format.share stddev avg })

  unfoldable pub throughput_of : Bool → Sample F → Outcome Failed (Option (F × F))
  unfolding average_lf stddev_lf
  throughput_of false sample = ok none
  throughput_of true sample = do
    avg ← average_lf f sample
    stddev ← stddev_lf f d sample
    ok (some (avg, stddev))

  -- `print_stats`, for wave `w`, with whether each calloc succeeds, in the order of the calls; the number of
  -- clients is the word of an int.
  unfoldable pub print_stats :
      (ℕ → Bool) → Bool → ℤ → ℕ → ℕ → ℕ → ℕ → List (Measures (Sample F)) → Outcome Failed (Row F)
  unfolding pair_of throughput_of
  print_stats calloc more_output percent nb_clients_min step nb_slaves w master_stats = do
    stats ← load master_stats w
    throughput ← throughput_of more_output stats.resp_rate
    resp_rate ← pair_of (calloc 0) (calloc 1) percent stats.resp_rate
    bytes_rate ← pair_of (calloc 2) (calloc 3) percent stats.bytes_rate
    connect_time ← pair_of (calloc 4) (calloc 5) percent stats.avg_ct
    response_time ← pair_of (calloc 6) (calloc 7) percent stats.avg_rt
    connected_response_time ← pair_of (calloc 8) (calloc 9) percent stats.avg_crt
    total_time ← pair_of (calloc 10) (calloc 11) percent stats.total_time
    errors ← pair_of (calloc 12) (calloc 13) percent stats.errors
    ok (record {
      clients = u32 ((nb_clients_min + w * step) * nb_slaves);
      resp_rate = resp_rate;
      bytes_rate = record bytes_rate { average = format.megabits bytes_rate.average };
      connect_time = connect_time;
      response_time = response_time;
      connected_response_time = connected_response_time;
      total_time = total_time;
      errors = errors;
      throughput = throughput;
    })
