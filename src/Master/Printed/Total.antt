-- ===== src/Master/Printed/Total.antt =====
-- Printing the waves never fails.
use slg.Base.{
  ◌/◌, if◌then◌else◌, ◌==◌, ne→==, ℕ, zero, suc, ◌+◌, ◌-◌, ◌*◌, ◌^◌, ◌≤◌, ◌<◌, ◌≡◌, refl, List, [],
  ◌∷◌, map, none, some, Bool, true, false, length, arith, lt→ltb, ◌∙◌, ◌&&◌, ◌||◌,
}
use slg.Base.Word.{u32}
use slg.Base.Int.{ℤ}
use slg.Base.Outcome.{Outcome, ok}
use slg.Protocol.Response.{SlaveStats}
use slg.Sample.{Sample, Failed, Arithmetic, load, average_lf, helper_average_lf}
use slg.Sample.Fill.{Holds}
use slg.Sample.Percentile.{Floats, Deviation, compare_elem, stddev_lf, helper_stddev_lf}
use slg.Sample.Percentile.Rounding.{IsRounded}
use slg.Sample.Percentile.Sorting.{Sorts}
use slg.Sample.Percentile.Total.{
  Returns, in_range, always, interval_functions-Decides, average-Returns, stddev-Returns,
}
use slg.Master.Measures.{Measures}
use slg.Master.Filled.{Filled, Column}
use slg.Master.WaveCount.{AllFilled, measured, length-client_counts, run_master-waves}
use slg.Master.Waves.{run_master}
use slg.Master.Config.{Config, check_all_parameters_filled}
use slg.Master.Printed.{Format, Pair, Row, kept, pair_of, throughput_of, print_stats}

-- The check of the parameters lets only the percentages pass that the samples accept.
kept-checked :
    (c checked : Config)
    → check_all_parameters_filled c ≡ ok checked
    → (0 < kept c.percent_stats_kept_master) × (kept c.percent_stats_kept_master ≤ 100)
unfolding check_all_parameters_filled kept
kept-checked c checked h = ground arith

-- An empty sample gives 0, another one what its elements give.
or_nought {ℓ} :
    {F : Type ℓ} (nought : F) (use_all : ℕ → Outcome Failed F) (n : ℕ)
    → ((i : ℕ) → i < n → Returns (use_all i))
    → Returns (if n == 0 then ok nought else use_all (n - 1))
or_nought nought use_all zero h = (nought, refl)
or_nought nought use_all (suc n) h =
    let e : suc n - 1 ≡ n = omega arith in
    rw (ne→== (suc n) 0 (λ z. omega arith), e) (h n (omega arith))

module _ {ℓ} {F : Type ℓ} (f : Arithmetic F) (d : Deviation F) (format : Format F)
    (less : F → F → Bool) (qsort : (F → F → ℤ) → List F → List F) {G : Type ℓ} (fl : Floats G)
    (Within : G → ℕ → ℕ → Type 0) (rounds : IsRounded fl Within)
    (sorts : Sorts qsort (compare_elem less)) where
  throughput_of-Returns :
      (more_output : Bool) (sample : Sample F) (vs : List F)
      → Holds sample vs
      → Returns (throughput_of f d format less qsort fl more_output sample)
  unfolding throughput_of average_lf stddev_lf
  throughput_of-Returns false sample vs h = (none, refl)
  throughput_of-Returns true sample vs h =
      let (a, e) =
        or_nought f.nought (λ i. helper_average_lf f sample.s 0 i) sample.nb_elem
          (λ i lt.
            average-Returns f d sample.s 0 i (omega arith) (omega (arith, h.storage, h.fits))) in
      let (s, e') =
        or_nought f.nought (λ i. helper_stddev_lf f d sample.s 0 i) sample.nb_elem
          (λ i lt.
            stddev-Returns f d sample.s 0 i (omega arith) (omega (arith, h.storage, h.fits))) in
      (some (a, s), rw (e, e') refl)

  module _ (calloc : ℕ → Bool) (succeeds : (k : ℕ) → calloc k ≡ true) (n : ℕ) (fits : n < 2 ^ 64)
      (percent : ℤ) (low : 0 < kept percent) (high : kept percent ≤ 100) where
    inside : in_range (kept percent) ≡ true
    inside = rw (lt→ltb 0 (kept percent) low, lt→ltb (kept percent) 101 (omega (arith, high))) refl

    pair_of-Returns :
        (j k : ℕ) (sample : Sample F) (measure : Measures F → F) (vs : List (Measures F))
        → Column n sample measure vs
        → (v : Pair F) × (pair_of f d format less qsort fl (calloc j) (calloc k) percent sample
            ≡ ok v)
    unfolding pair_of
    pair_of-Returns j k sample measure vs c =
        let r =
          interval_functions-Decides fl Within rounds f d less qsort sample (map measure vs) sorts
            c.holds (let h = c.holds in omega (arith, h.fits, c.size)) (kept percent) true in
        let possible : (in_range (kept percent) && ((sample.nb_elem == 0) || true)) ≡ true =
          always (kept percent) sample.nb_elem ∙ inside in
        let (a, e) = r.2.0 possible in
        let (s, e') = r.3.0 possible in
        (
          record { average = a; deviation = format.share s a },
          rw (succeeds j, succeeds k, e, e') refl,
        )

    printed_wave :
        (more_output : Bool) (nb_clients_min step nb_slaves w : ℕ)
        (all : List (Measures (Sample F))) (stats : Measures (Sample F)) (vs : List (Measures F))
        → load all w ≡ ok stats
        → Filled n stats vs
        → (row : Row F) × (print_stats f d format less qsort fl calloc more_output percent
              nb_clients_min step nb_slaves w all
            ≡ ok row)
    unfolding print_stats
    printed_wave more_output nb_clients_min step nb_slaves w all stats vs l h =
        let (t, e0) = throughput_of-Returns more_output stats.resp_rate _ (h.resp_rate.holds) in
        let (p1, e1) = pair_of-Returns 0 1 stats.resp_rate _ vs h.resp_rate in
        let (p2, e2) = pair_of-Returns 2 3 stats.bytes_rate _ vs h.bytes_rate in
        let (p3, e3) = pair_of-Returns 4 5 stats.avg_ct _ vs h.avg_ct in
        let (p4, e4) = pair_of-Returns 6 7 stats.avg_rt _ vs h.avg_rt in
        let (p5, e5) = pair_of-Returns 8 9 stats.avg_crt _ vs h.avg_crt in
        let (p6, e6) = pair_of-Returns 10 11 stats.total_time _ vs h.total_time in
        let (p7, e7) = pair_of-Returns 12 13 stats.errors _ vs h.errors in
        (
          record {
            clients = u32 ((nb_clients_min + w * step) * nb_slaves);
            resp_rate = p1;
            bytes_rate = record p2 { average = format.megabits p2.average };
            connect_time = p3;
            response_time = p4;
            connected_response_time = p5;
            total_time = p6;
            errors = p7;
            throughput = t;
          },
          rw (l, e0, e1, e2, e3, e4, e5, e6, e7) refl,
        )

AllFilled-load {ℓ} :
    {F : Type ℓ} (f : Arithmetic F) (multiply : F → F → F)
    (slaves_answer : ℕ → ℕ → List (SlaveStats F) × ℕ) (n v w : ℕ) (all : List (Measures (Sample F)))
    → AllFilled f multiply slaves_answer n v all
    → w < length all
    → (stats : Measures (Sample F)) × (load all w ≡ ok stats)
      × Filled n stats (measured f multiply slaves_answer (v + w) 0 n)
unfolding load
AllFilled-load f multiply slaves_answer n v w [] a lt = absurd (omega arith)
AllFilled-load f multiply slaves_answer n v zero (s ∷ all) a lt =
    let e : v + 0 ≡ v = omega arith in (s, refl, rw e (a.0))
AllFilled-load f multiply slaves_answer n v (suc w) (s ∷ all) a lt =
    let e : v + suc w ≡ v + 1 + w = omega arith in
    rw e (AllFilled-load f multiply slaves_answer n (v + 1) w all a.1 (omega arith))

module _ {ℓ} {F : Type ℓ} (f : Arithmetic F) (multiply : F → F → F) (d : Deviation F)
    (format : Format F) (less : F → F → Bool) (qsort : (F → F → ℤ) → List F → List F) {G : Type ℓ}
    (fl : Floats G) where
  -- Whatever the slaves answer, the master that passed the check of its parameters prints every wave
  -- that it ran, and no assert of the percentiles fails, if every `calloc` succeeds, `qsort` sorts, the
  -- operations of floats and doubles exceed the exact result by at most a thousandth (`IsRounded`), the step is positive, the least number of clients is not above the greatest,
  -- one more step fits in 32 bits, and the number of iterations is below 2 ^ 32.
  pub print_stats-Returns :
      (slaves_answer : ℕ → ℕ → List (SlaveStats F) × ℕ)
      → Sorts qsort (compare_elem less)
      → (Within : G → ℕ → ℕ → Type 0) → IsRounded fl Within
      → (calloc : ℕ → Bool) → ((k : ℕ) → calloc k ≡ true)
      → (c checked : Config) (step : ℕ) → check_all_parameters_filled c ≡ ok checked
      → 0 < step
      → c.nb_clients_min ≤ c.nb_clients_max
      → c.nb_clients_max + step < 2 ^ 32
      → c.nb_iterations_in_a_wave < 2 ^ 32
      → (more_output : Bool) (nb_slaves : ℕ)
      → (run : List ℕ) × (all : List (Measures (Sample F))) × (run_master f multiply slaves_answer
            c.nb_clients_min c.nb_clients_max step c.nb_iterations_in_a_wave
          ≡ ok (run, all))
        × ((w : ℕ)
            → w < length run
            → (row : Row F) × (print_stats f d format less qsort fl calloc more_output
                  c.percent_stats_kept_master c.nb_clients_min step nb_slaves w all
                ≡ ok row))
  print_stats-Returns slaves_answer sorts Within rounds calloc succeeds c checked step check s le
        fits few more_output nb_slaves =
      let n = c.nb_iterations_in_a_wave in
      let (stats, e, size, filled) =
        run_master-waves f multiply slaves_answer c.nb_clients_min c.nb_clients_max step n s le
          fits in
      let (low, high) = kept-checked c checked check in
      (
        _,
        stats,
        e,
        λ w lt.
            let (wave, l, h) = AllFilled-load f multiply slaves_answer n 0 w stats filled (
              omega (
                arith,
                size,
                lt,
                length-client_counts c.nb_clients_min step
                    ((c.nb_clients_max - c.nb_clients_min) / step + 1),
              )) in
            printed_wave f d format less qsort fl Within rounds sorts calloc succeeds n
              (omega arith) c.percent_stats_kept_master low high more_output c.nb_clients_min step
              nb_slaves w stats wave _ l h,
      )
