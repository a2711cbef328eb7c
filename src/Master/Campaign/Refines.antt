-- ===== src/Master/Campaign/Refines.antt =====
-- `main` with its connections does what the loops of Master/Waves do with what the slaves report.
use slg.Base.{
  ℕ, zero, suc, ◌+◌, ◌-◌, ◌*◌, ◌/◌, ◌%◌, ◌^◌, ◌≤◌, ◌<◌, ◌≡◌, refl, ap, ◌∙◌, inl, inr, List, [], ◌∷◌,
  ◌++◌, map, replicate, true, false, Bool-cases, leb, leb→le, set, arith, ne→==, ◌==◌,
  if◌then◌else◌, ℕ_discrete,
}
use mathlib.Core.List.{map-append}
use slg.Base.Int.{ℤ, pos}
use slg.Base.Word.{u32}
use slg.Base.Outcome.{ok, within, ◌>>=◌}
use slg.Time.{compare_time}
use slg.Protocol.Order.{Load}
use slg.Protocol.Response.{Report, SlaveStats}
use slg.Protocol.Report.{reported}
use slg.Sample.{Sample, Arithmetic, load}
use slg.Master.Measures.{Measures, init_master_stat_report}
use slg.Master.Iteration.{IterationAnswers, warmup_time}
use slg.Master.Iteration.Whole.{Plays, wires, run_iteration-Plays, warmup_time-Plays}
use slg.Master.Waves.{lift, nb_waves_of, run_iterations, run_waves, run_master}
use slg.Master.WaveCount.{client_counts, AllFilled, run_master-waves}
use slg.Master.Campaign.{as_main, with_clients, play_iterations, play_waves, play_main}
use slg.Master.Campaign.Carrying.{carrying, carrying-round, carrying-wave, carrying-bind}

module _ {ℓ} {F : Type ℓ} (f : Arithmetic F) (multiply : F → F → F) (atof : List ℕ → F)
    (print_lf : F → List ℕ) (l : Load) (name : List ℕ) (slaves targets : List (List ℕ × ℤ))
    (warmups : ℕ → IterationAnswers) (iterations : ℕ → ℕ → IterationAnswers)
    (reports : ℕ → ℕ → List (Report F)) where
  -- What the slaves report in an iteration of a wave, and the time between the readings of the clock.
  abbrev pub reported_in : ℕ → ℕ → List (SlaveStats F) × ℕ
  reported_in w i = (
    map (reported print_lf atof) (reports w i),
    compare_time (iterations w i).start_time (iterations w i).stop_time,
  )

  -- What the connections of a wave carry: the orders of the warmup, if there is one, and those of
  -- each iteration.
  abbrev pub wave_wires : ℕ → ℕ → List (List (List ℕ))
  wave_wires n nb_clients =
      (if l.warmup_length == 0
        then []
        else wires f multiply atof print_lf (with_clients nb_clients l) name true targets)
      ∷ replicate n (wires f multiply atof print_lf (with_clients nb_clients l) name false targets)

  -- Every slave is reached, takes its order and reports, in the warmup and in `n` iterations.
  pub record WavePlays (n w nb_clients : ℕ) : Type ℓ where
    pub warm :
        0 < l.warmup_length
        → (rs : List (Report F)) × Plays f multiply atof print_lf
            (with_clients nb_clients l)
            name
            true
            slaves
            targets
            (warmups w)
            rs
    pub plays :
        (i : ℕ)
        → i < n
        → Plays f multiply atof print_lf
            (with_clients nb_clients l)
            name
            false
            slaves
            targets
            (iterations w i)
            (reports w i)

  play_iterations-Plays :
      (n w nb_clients i k : ℕ) (stats : Measures (Sample F))
      → WavePlays n w nb_clients
      → i + k ≤ n
      → play_iterations f multiply atof l name slaves targets warmups iterations nb_clients w i k
          stats
        ≡ carrying
            (replicate k
              (wires f multiply atof print_lf (with_clients nb_clients l) name false targets))
            (run_iterations f multiply reported_in w i k stats)
  unfolding play_iterations run_iterations
  play_iterations-Plays n w nb_clients i zero stats p le = refl
  play_iterations-Plays n w nb_clients i (suc k) stats p le =
      let played =
        run_iteration-Plays f multiply atof print_lf (with_clients nb_clients l) name slaves targets
          (iterations w i) (reports w i) stats (p.plays i (omega arith)) in
      rw played (
        carrying-round _ _ _ _ _
          (λ after. play_iterations-Plays n w nb_clients (i + 1) k after p (omega arith)))

  warmup_time-WavePlays :
      (n w nb_clients : ℕ)
      → WavePlays n w nb_clients
      → warmup_time f multiply atof
          (with_clients nb_clients l)
          name
          slaves
          targets
          (pos l.warmup_length)
          (warmups w)
        ≡ ok (
            if l.warmup_length == 0
            then []
            else wires f multiply atof print_lf (with_clients nb_clients l) name true targets)
  unfolding warmup_time
  warmup_time-WavePlays n w nb_clients p = elim (ℕ_discrete l.warmup_length 0) [
    | yes e ↦ rw e refl
    | no ne ↦
        let (rs, plays) = p.warm (omega (arith, ne)) in
        warmup_time-Plays f multiply atof print_lf (with_clients nb_clients l) name slaves targets
          (warmups w) rs l.warmup_length (omega (arith, ne)) plays
        ∙ rw (ne→== l.warmup_length 0 ne) refl
  ]

  module _ (step max n min : ℕ) (room : max + step < 2 ^ 32)
      (p : (w : ℕ) → min + step * w ≤ max → WavePlays n w (min + step * w)) where
    later :
        (w nb_clients : ℕ)
        → nb_clients ≡ min + step * w
        → nb_clients ≤ max
        → u32 (nb_clients + step) ≡ min + step * (w + 1)
    later w nb_clients e le =
        let small : (nb_clients + step) % 2 ^ 32 ≡ nb_clients + step = omega arith in
        let d : step * (w + 1) ≡ step * w + step = ground arith in omega (arith, small, e, d)

    play_waves-WavePlays :
        (fuel w nb_clients : ℕ) (run : List ℕ) (stats : List (Measures (Sample F)))
        → nb_clients ≡ min + step * w
        → play_waves f multiply atof l name slaves targets warmups iterations fuel step max n
            nb_clients w
            (map (wave_wires n) run)
            stats
          ≡ (within as_main
                (run_waves f multiply reported_in fuel step max n nb_clients w run stats)
              >>= (λ r. ok (map (wave_wires n) r.0, r.1)))
    unfolding play_waves run_waves
    play_waves-WavePlays zero w nb_clients run stats e = refl
    play_waves-WavePlays (suc fuel) w nb_clients run stats e =
        elim (Bool-cases (leb nb_clients max)) [
          | inr above ↦ rw above refl
          | inl below ↦
              let le = leb→le nb_clients max below in
              let plays : WavePlays n w nb_clients = rw e (p w (omega (arith, e, le))) in
              rw (below, warmup_time-WavePlays n w nb_clients plays)
                (carrying-wave _ _ _ _
                  (λ after. rw (← map-append (wave_wires n) run (nb_clients ∷ [])) (
                    play_waves-WavePlays fuel (w + 1) (u32 (nb_clients + step))
                      (run ++ nb_clients ∷ []) (set stats w after) (later w nb_clients e le)))
                  (load stats w) _ _
                  (λ s. play_iterations-Plays n w nb_clients 0 n s plays (omega arith)))
        ]

    -- When in each wave every slave is reached, takes the order of the wave in one write and reports in at
    -- most 1023 bytes, with averages that print as fields, in the warmup and in each iteration, `main` with its connections ends just as its loops on what the slaves
    -- report: with the same failure, or with the same samples, and then the connections of each wave that
    -- is run have carried the orders for its number of clients, those of the warmup first, if there is
    -- one. There must be room for one more step in 32 bits.
    pub play_main-run_master :
        play_main f multiply atof l name slaves targets warmups iterations min max step n ≡ (
          within as_main (run_master f multiply reported_in min max step n)
          >>= (λ r. ok (map (wave_wires n) r.0, r.1)))
    unfolding play_main run_master
    play_main-run_master = carrying-bind _ (nb_waves_of min max step) _ _ (λ nb_waves.
        carrying-bind _ (lift (init_master_stat_report f.nought nb_waves n)) _ _
          (λ stats. play_waves-WavePlays (nb_waves + 1) 0 min [] stats (omega arith)))

    -- Let each slave be reached, take its order in one write and report in at most 1023 bytes, with averages
    -- that print as fields, in the warmup of each wave, if there is one, and in each of its iterations; let the step be positive, the least
    -- number of clients not above the greatest, and the greatest with one more step below 2 ^ 32. Then
    -- `main` ends without a failure after (max - min) / step + 1 waves, whose connections have carried
    -- the orders for min, min + step, ... clients, and its samples hold for each wave what
    -- `fill_master_stat_report` makes of the reports of its iterations, in order.
    pub play_main-waves :
        0 < step
        → min ≤ max
        → (stats : List (Measures (Sample F))) × (play_main f multiply atof l name slaves targets
              warmups iterations min max step n
            ≡ ok (map (wave_wires n) (client_counts min step ((max - min) / step + 1)), stats))
          × AllFilled f multiply reported_in n 0 stats
    play_main-waves positive le =
        let (stats, e, size, filled) =
          run_master-waves f multiply reported_in min max step n positive le room in
        (
          stats,
          play_main-run_master
              ∙ ap (λ m. within as_main m >>= (λ r. ok (map (wave_wires n) r.0, r.1))) e,
          filled,
        )
