-- ===== src/Master/Campaign.antt =====
-- slg_master.c: `main` from the computation of `nb_waves` on, with the connections to the slaves: a warmup
-- and the iterations of each wave. Master/Waves has the same loops on what the slaves report.
pub mod Carrying
pub mod Refines
use slg.Base.{ℕ, zero, suc, ◌+◌, List, [], ◌∷◌, ◌++◌, set, ◌==◌, if◌then◌else◌, leb}
use slg.Base.Int.{ℤ, pos}
use slg.Base.Word.{u32}
use slg.Base.Outcome.{Outcome, ok, stop, within, ◌>>=◌}
use slg.Protocol.Order.{Load}
use slg.Sample.{Sample, Arithmetic, load}
use slg.Master.Measures.{Measures, init_master_stat_report}
use slg.Master.Iteration.{IterationFailed, not_filled, IterationAnswers, run_iteration, warmup_time}
use slg.Master.Waves.{MasterFailed, division_by_zero, no_fuel, measures_failed, lift, nb_waves_of}

pub data MainFailed : Type 0 where
  iteration_failed : IterationFailed → MainFailed
  main_failed : MasterFailed → MainFailed

-- A sample that is full stops `main` in an iteration.
abbrev pub as_main : MasterFailed → MainFailed
as_main division_by_zero = main_failed division_by_zero
as_main no_fuel = main_failed no_fuel
as_main (measures_failed e) = iteration_failed (not_filled e)

-- `nb_clients = nb_clients_min`, and later `nb_clients += step`, as the next order prints it
abbrev pub with_clients : ℕ → Load → Load
with_clients nb_clients l = record l { nb_clients = nb_clients }

module _ {ℓ} {F : Type ℓ} (f : Arithmetic F) (multiply : F → F → F) (atof : List ℕ → F) (l : Load)
    (name : List ℕ) (slaves targets : List (List ℕ × ℤ)) (warmups : ℕ → IterationAnswers)
    (iterations : ℕ → ℕ → IterationAnswers) where
  -- `k` iterations of wave `w` from the `i`th on: what the connections of each have carried, and the
  -- entry of the wave.
  unfoldable pub play_iterations :
      ℕ
      → ℕ
      → ℕ
      → ℕ
      → Measures (Sample F)
      → Outcome MainFailed (List (List (List ℕ)) × Measures (Sample F))
  unfolding run_iteration
  play_iterations nb_clients w i zero stats = ok ([], stats)
  play_iterations nb_clients w i (suc k) stats =
      within iteration_failed (
        run_iteration f multiply atof (with_clients nb_clients l) name slaves targets
          (iterations w i) stats)
      >>= (λ r. play_iterations nb_clients w (i + 1) k r.1 >>= (λ rest. ok (r.0 ∷ rest.0, rest.1)))

  -- The loop over the waves: what the connections of each wave have carried, those of its warmup
  -- first, and `master_stats`.
  unfoldable pub play_waves :
      ℕ
      → ℕ
      → ℕ
      → ℕ
      → ℕ
      → ℕ
      → List (List (List (List ℕ)))
      → List (Measures (Sample F))
      → Outcome MainFailed (List (List (List (List ℕ))) × List (Measures (Sample F)))
  unfolding play_iterations warmup_time
  play_waves zero step nb_clients_max n nb_clients w sent master_stats = stop (main_failed no_fuel)
  play_waves (suc fuel) step nb_clients_max n nb_clients w sent master_stats =
      if leb nb_clients nb_clients_max
      then within iteration_failed (
          warmup_time f multiply atof (with_clients nb_clients l) name slaves targets
            (pos l.warmup_length) (warmups w))
        >>= (λ warmup. within as_main (lift (load master_stats w)) >>= (λ stats.
            play_iterations nb_clients w 0 n stats >>= (λ r.
              play_waves fuel step nb_clients_max n (u32 (nb_clients + step)) (w + 1)
                (sent ++ (warmup ∷ r.0) ∷ []) (set master_stats w r.1))))
      else ok (sent, master_stats)

  -- `main`, with fuel for one more round than there are waves
  unfoldable pub play_main :
      ℕ → ℕ → ℕ → ℕ → Outcome MainFailed (List (List (List (List ℕ))) × List (Measures (Sample F)))
  unfolding nb_waves_of play_waves
  play_main nb_clients_min nb_clients_max step n =
      within as_main (nb_waves_of nb_clients_min nb_clients_max step) >>= (λ nb_waves.
        within as_main (lift (init_master_stat_report f.nought nb_waves n)) >>= (λ master_stats.
          play_waves (nb_waves + 1) step nb_clients_max n nb_clients_min 0 [] master_stats))
