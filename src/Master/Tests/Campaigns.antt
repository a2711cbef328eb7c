-- ===== src/Master/Tests/Campaigns.antt =====
-- Two waves of two slaves, each with a warmup and one iteration.
use slg.Base.{
  ℕ, zero, suc, ◌+◌, ◌-◌, ◌*◌, ◌/◌, ◌≤◌, ◌≡◌, refl, List, [], ◌∷◌, map, Bool, true, false, arith,
}
use slg.Base.Text.{codes}
use slg.Base.Decimal.{decimal, print_int}
use slg.Base.Outcome.{ok, within, ◌>>=◌}
use slg.Os.{wrote, got}
use slg.Protocol.Order.{order_message, order_for}
use slg.Protocol.Response.{Report, response_message}
use slg.Protocol.Orders.{orders, takes_whole}
use slg.Sample.{Sample}
use slg.Master.Measures.{Measures}
use slg.Master.Waves.{run_master}
use slg.Master.WaveCount.{client_counts, AllFilled}
use slg.Master.Iteration.{IterationAnswers}
use slg.Master.Iteration.Whole.{Plays}
use slg.Master.Campaign.{as_main, with_clients, play_main}
use slg.Master.Campaign.Refines.{
  WavePlays, reported_in, wave_wires, play_main-run_master, play_main-waves,
}
use slg.Master.Tests.{whole, times}
use slg.Master.Tests.Iterations.{
  light, two_slaves, two_targets, report, as_text, of_text, answers_on, report-IsSent,
}

abbrev round_answers : IterationAnswers
round_answers = record {
  connects = answers_on 5 ∷ answers_on 6 ∷ [];
  writes = λ socket. wrote 19 ∷ [];
  start_time = record { tv_sec = 10; tv_usec = 0 };
  reads = λ socket. got (codes "3,2,1,5,6,7,4,8,0\n") ∷ [];
  stop_time = record { tv_sec = 13; tv_usec = 0 };
}

abbrev warmups : ℕ → IterationAnswers
warmups w = round_answers

abbrev iterations : ℕ → ℕ → IterationAnswers
iterations w i = round_answers

abbrev reports : ℕ → ℕ → List (Report ℕ)
reports w i = report ∷ report ∷ []

abbrev RoundPlays : Bool → ℕ → Type 0
RoundPlays warmup nb_clients =
    Plays whole times of_text as_text (with_clients nb_clients light) (codes "m") warmup two_slaves
      two_targets round_answers (report ∷ report ∷ [])

-- The calls of `write` take an order for 2 or 3 clients.
round-RoundPlays :
    (warmup : Bool) (nb_clients : ℕ)
    → map round_answers.writes (5 ∷ 6 ∷ [])
      ≡ map takes_whole (orders (with_clients nb_clients light) warmup (codes "m") 0 two_targets)
    → RoundPlays warmup nb_clients
unfolding response_message decimal
round-RoundPlays warmup nb_clients ordered = record {
  sockets = 5 ∷ 6 ∷ [];
  reached = (((1, refl, refl), refl, refl), (((1, refl, refl), refl, refl), tt));
  ordered = ordered;
  parts = (codes "3,2,1,5,6,7,4,8,0\n" ∷ []) ∷ (codes "3,2,1,5,6,7,4,8,0\n" ∷ []) ∷ [];
  heard = refl;
  respond = (report-IsSent, tt, refl, (report-IsSent, tt, refl, tt));
}

abbrev AnyWavePlays : ℕ → ℕ → Type 0
AnyWavePlays w nb_clients =
    WavePlays whole times of_text as_text light (codes "m") two_slaves two_targets warmups
      iterations reports 1 w nb_clients

waves-AnyWavePlays : (w : ℕ) → 2 + 1 * w ≤ 3 → AnyWavePlays w (2 + 1 * w)
unfolding order_message order_for print_int
waves-AnyWavePlays zero le = record {
  warm = λ h. (report ∷ report ∷ [], round-RoundPlays true 2 refl);
  plays = λ i h. round-RoundPlays false 2 refl;
}
waves-AnyWavePlays (suc zero) le = record {
  warm = λ h. (report ∷ report ∷ [], round-RoundPlays true 3 refl);
  plays = λ i h. round-RoundPlays false 3 refl;
}
waves-AnyWavePlays (suc (suc w)) le = absurd (omega arith)

play_main-run_master_example :
    play_main whole times of_text light
      (codes "m")
      two_slaves
      two_targets
      warmups
      iterations
      2
      3
      1
      1
    ≡ (within as_main (
          run_master whole times
            (reported_in whole times of_text as_text light
              (codes "m")
              two_slaves
              two_targets
              warmups
              iterations
              reports)
            2
            3
            1
            1)
        >>= (λ r. ok (
          map
              (wave_wires whole times of_text as_text light
                (codes "m")
                two_slaves
                two_targets
                warmups
                iterations
                reports
                1)
              r.0,
          r.1,
        )))
play_main-run_master_example =
    play_main-run_master whole times of_text as_text light (codes "m") two_slaves two_targets
      warmups iterations reports 1 3 1 2 (omega arith) waves-AnyWavePlays

-- The first wave: the warmup's orders, and those of the iteration.
two_clients :
    wave_wires whole times of_text as_text light
      (codes "m")
      two_slaves
      two_targets
      warmups
      iterations
      reports
      1
      2
    ≡ (codes "0,m,web,80,2,1,4,0\n" ∷ codes "1,m,web,81,2,1,4,0\n" ∷ [])
      ∷ (codes "0,m,web,80,2,3,4,0\n" ∷ codes "1,m,web,81,2,3,4,0\n" ∷ [])
      ∷ []
unfolding order_message order_for print_int
two_clients = refl

play_main-waves_example :
    (stats : List (Measures (Sample ℕ))) × (play_main whole times of_text light
        (codes "m")
        two_slaves
        two_targets
        warmups
        iterations
        2
        3
        1
        1
      ≡ ok (
        map
            (wave_wires whole times of_text as_text light
              (codes "m")
              two_slaves
              two_targets
              warmups
              iterations
              reports
              1)
            (client_counts 2 1 ((3 - 2) / 1 + 1)),
        stats,
      ))
    × AllFilled whole times
        (reported_in whole times of_text as_text light
          (codes "m")
          two_slaves
          two_targets
          warmups
          iterations
          reports)
        1
        0
        stats
play_main-waves_example =
    play_main-waves whole times of_text as_text light (codes "m") two_slaves two_targets warmups
      iterations reports 1 3 1 2 (omega arith) waves-AnyWavePlays (omega arith) (omega arith)
