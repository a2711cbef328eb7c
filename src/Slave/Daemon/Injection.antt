-- ===== src/Slave/Daemon/Injection.antt =====
-- One iteration of the master with one slave, from end to end: the order of slg_master.c, the daemon of
-- slg.c that plays it, and its response, read by slg_master.c.
use slg.Base.{ℕ, ◌≤◌, ◌≡◌, ◌≢◌, List, true, arith}
use slg.Base.Outcome.{ok}
use slg.Protocol.Order.{Order, Parameters}
use slg.Protocol.Response.{Report}
use slg.Slave.{System}
use slg.Slave.Totals.{check_parameters, compute_stats}
use slg.Slave.Daemon.{Daemon, OrderAnswers, report_of}

-- What `check_parameters` lets through.
abbrev pub IsPlayable : Parameters → Type 0
IsPlayable p =
    (p.nb_clients ≤ 1024) × (p.port ≢ 0) × (p.duration ≢ 0) × (p.nb_msg_per_connection ≢ 0)

checked :
    (p : Parameters)
    → IsPlayable p
    → check_parameters p.nb_clients p.port p.duration p.nb_msg_per_connection ≡ ok true
unfolding check_parameters
checked p h = ground (arith, h)

module _ {ℓ κ} {LongDouble : Type ℓ} {Double : Type κ} (average : ℕ → ℕ → LongDouble)
    (print_lf : LongDouble → List ℕ) (atof : List ℕ → Double) where
  -- The report of the run that ended in `t`.
  abbrev pub report : OrderAnswers → System → Report LongDouble
  report a t =
      report_of average print_lf a.start_time a.stop_time
        (compute_stats t.config.nb_clients t.all_clients t.stats)
