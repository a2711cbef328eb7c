-- ===== src/Master/Waves.antt =====
-- The loops of `main`: a wave for each number of clients, of `nb_iterations_in_a_wave` orders each. The
-- warmup, whose responses are dropped, and what is printed are left out.
use slg.Base.{ℕ, zero, suc, ◌+◌, ◌/◌, List, [], ◌∷◌, ◌++◌, set, ◌==◌, if◌then◌else◌, leb}
use slg.Base.Word.{u32, sub32}
use slg.Base.Outcome.{Outcome, ok, stop, ◌>>=◌}
use slg.Sample.{Sample, Failed, Arithmetic, load}
use slg.Protocol.Response.{SlaveStats}
use slg.Master.Measures.{Measures, init_master_stat_report, fill_master_stat_report}

pub data MasterFailed : Type 0 where
  division_by_zero no_fuel : MasterFailed
  measures_failed : Failed → MasterFailed

abbrev pub lift {ℓ} : {A : Type ℓ} → Outcome Failed A → Outcome MasterFailed A
lift (ok a) = ok a
lift (stop e) = stop (measures_failed e)

-- `nb_waves`, of 32-bit numbers; `step` stands for the int that the division makes unsigned
unfoldable pub nb_waves_of : ℕ → ℕ → ℕ → Outcome MasterFailed ℕ
nb_waves_of nb_clients_min nb_clients_max step =
    if step == 0
    then stop division_by_zero
    else ok (u32 (sub32 nb_clients_max nb_clients_min / step + 1))

module _ {ℓ} {F : Type ℓ} (f : Arithmetic F) (multiply : F → F → F)
    (slaves_answer : ℕ → ℕ → List (SlaveStats F) × ℕ) where
  -- `k` iterations of wave `w` from the `i`th on, with what the slaves answered in each, and the time
  -- that it took.
  unfoldable pub run_iterations :
      ℕ → ℕ → ℕ → Measures (Sample F) → Outcome MasterFailed (Measures (Sample F))
  run_iterations w i zero stats = ok stats
  run_iterations w i (suc k) stats =
      let answer = slaves_answer w i in
      lift (fill_master_stat_report f multiply answer.0 answer.1 stats)
      >>= (λ stats'. run_iterations w (i + 1) k stats')

  -- The loop over the waves: `nb_clients` for this one, of number `w`. The result is the numbers of
  -- clients of the waves run, and `master_stats`.
  unfoldable pub run_waves :
      ℕ
      → ℕ
      → ℕ
      → ℕ
      → ℕ
      → ℕ
      → List ℕ
      → List (Measures (Sample F))
      → Outcome MasterFailed (List ℕ × List (Measures (Sample F)))
  unfolding run_iterations
  run_waves zero step nb_clients_max n nb_clients w run master_stats = stop no_fuel
  run_waves (suc fuel) step nb_clients_max n nb_clients w run master_stats =
      if leb nb_clients nb_clients_max
      then lift (load master_stats w) >>= (λ stats. run_iterations w 0 n stats >>= (λ stats'.
        run_waves fuel step nb_clients_max n (u32 (nb_clients + step)) (w + 1)
          (run ++ nb_clients ∷ []) (set master_stats w stats')))
      else ok (run, master_stats)

  -- `main` from the computation of `nb_waves` on, with fuel for one more round than there are waves
  unfoldable pub run_master :
      ℕ → ℕ → ℕ → ℕ → Outcome MasterFailed (List ℕ × List (Measures (Sample F)))
  unfolding nb_waves_of run_waves
  run_master nb_clients_min nb_clients_max step n = do
    nb_waves ← nb_waves_of nb_clients_min nb_clients_max step
    master_stats ← lift (init_master_stat_report f.nought nb_waves n)
    run_waves (nb_waves + 1) step nb_clients_max n nb_clients_min 0 [] master_stats
