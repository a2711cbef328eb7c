-- ===== src/Slave/Daemon/Orders.antt =====
-- What holds of every order that the daemon serves, one after another.
use slg.Base.{
  ℕ, ◌%◌, ◌^◌, ◌<◌, ◌≡◌, ◌≢◌, refl, List, [], ◌∷◌, Option, none, some, Bool, false, arith,
}
use slg.Base.Outcome.{Outcome, ok, stop, Ensures, Ensures-bind, Ensures-within, within, ◌>>=◌}
use slg.Os.{ReadAnswer}
use slg.Client.{Stats}
use slg.Client.Lifecycle.{Tolerated}
use slg.Protocol.Line.{read_line}
use slg.Protocol.Order.{Parameters, wait_master_order, parse_order, read_fields}
use slg.Slave.{Config, System, set_up}
use slg.Slave.SetUp.{set_up-Owned}
use slg.Slave.Threads.{Kept, started-Inv}
use slg.Slave.Totals.{check_parameters, compute_stats, reset_stats}
use slg.Protocol.Response.{send_stat_response}
use slg.Base.{ltb}
use slg.Slave.Daemon.{report_of, go_on}
use slg.Slave.Balance.Reached.{totals, compute_stats-agrees}
use slg.Slave.Daemon.{
  Daemon, Served, OrderAnswers, Stopped, order_failed, bad_parameter, no_buffers, duration_too_low,
  thread_failed, response_failed, find_host, config_of, with_buffers, long_enough, run_threads,
  finish_order, play_order, serve_order, serve_orders,
}
use slg.Slave.Daemon.Run.{run_threads-Kept}

abbrev Whatever {ℓ} : {E : Type ℓ} → E → Type 0
Whatever e = Unit {0}

anything {ℓ κ} : {E : Type ℓ} {A : Type κ} (m : Outcome E A) → Ensures Whatever Whatever m
anything (ok a) = tt
anything (stop e) = tt

-- The words of an order fit their C types.
abbrev InWords : Parameters → Type 0
InWords p = p.nb_msg_per_connection < 2 ^ 32

read_fields-InWords :
    (proc_freq : ℕ) (req : List ℕ) → Ensures Whatever InWords (read_fields proc_freq req)
unfolding read_fields
read_fields-InWords proc_freq req = ground arith

wait_master_order-InWords :
    (proc_freq : ℕ) (answers : List ReadAnswer)
    → Ensures Whatever InWords (wait_master_order proc_freq answers)
unfolding wait_master_order parse_order
wait_master_order-InWords proc_freq answers =
    Ensures-bind Whatever Whatever InWords (read_line 256 answers []) (parse_order proc_freq)
      (anything (read_line 256 answers []))
      (λ line x. ground (arith, read_fields-InWords proc_freq))

-- The ends of the daemon that the code rules out: buffers that cannot be made though malloc succeeds, the
-- exit on a short duration, which `check_parameters` comes before, and the faults that the protocol of
-- the threads rules out.
abbrev pub Allowed : Stopped → Type 0
Allowed no_buffers = ⊥
Allowed duration_too_low = ⊥
Allowed (thread_failed f) = Tolerated f
Allowed _ = Unit {0}

-- The number of responses added up over the clients, and the two counts of measures.
abbrev pub Agrees : Stats → Type 0
Agrees g =
    (g.global_total_resp_recv % 2 ^ 64 ≡ g.nb_rt % 2 ^ 64) × (g.nb_crt % 2 ^ 64 ≡ g.nb_rt % 2 ^ 64)

abbrev pub IsFresh : Daemon → Type 0
IsFresh d = d.stats.global_total_resp_recv ≡ 0

abbrev pub Fine : Served → Type 0
Fine served = Agrees served.reported × IsFresh served.daemon

find_host-Allowed :
    (n : ℕ) (host : Option (List ℕ)) (address : Option ℕ)
    → Ensures Allowed Whatever (find_host n host address)
unfolding find_host
find_host-Allowed n host address = ground arith

abbrev pub AllFine : List Served → Type 0
AllFine [] = Unit {0}
AllFine (x ∷ xs) = Fine x × AllFine xs

abbrev pub EndsAllowed : Option Stopped → Type 0
EndsAllowed none = Unit {0}
EndsAllowed (some e) = Allowed e

abbrev pub AllFineResult : List Served × Option Stopped → Type 0
AllFineResult r = AllFine r.0 × EndsAllowed r.1

go_on-Fine :
    (m : Outcome Stopped Served) (rest : Daemon → List Served × Option Stopped)
    → Ensures Allowed Fine m
    → ((d : Daemon) → IsFresh d → AllFineResult (rest d))
    → AllFineResult (go_on m rest)
unfolding go_on
go_on-Fine (stop e) rest h k = (tt, h)
go_on-Fine (ok served) rest h k = let r = k served.daemon h.1 in ((h, r.0), r.1)

module _ {ℓ} {LongDouble : Type ℓ} (average : ℕ → ℕ → LongDouble)
    (print_lf : LongDouble → List ℕ) where
  finish_order-Fine :
      (a : OrderAnswers) (t : System)
      → Agrees (compute_stats t.config.nb_clients t.all_clients t.stats)
      → Ensures Allowed Fine (finish_order average print_lf a t)
  unfolding finish_order reset_stats
  finish_order-Fine a t h =
      Ensures-bind Allowed Whatever Fine _ _
        (Ensures-within response_failed Allowed Whatever
          (send_stat_response print_lf
            (report_of average print_lf a.start_time a.stop_time (totals t)) a.response)
          (anything _))
        (λ wire x. (h, refl))

  threads-Fine :
      (c : Config) (address : ℕ) (d : Daemon) (a : OrderAnswers) (s : System)
      → IsFresh d
      → c.nb_msg_per_connection < 2 ^ 32
      → set_up c address d.max_connect_socket d.stats ≡ some s
      → Ensures Allowed Fine
          (within thread_failed (run_threads a.actions s) >>= finish_order average print_lf a)
  threads-Fine c address d a s fresh fits set =
      Ensures-bind Allowed (Kept s) Fine _ _
        (Ensures-within thread_failed Allowed (Kept s) (run_threads a.actions s)
          (run_threads-Kept a.actions s (started-Inv c address d.max_connect_socket d.stats set)))
        (λ t kept.
          finish_order-Fine a t (
            compute_stats-agrees c address d.max_connect_socket d.stats fits fresh set
              kept.reached))

  set_up-Fine :
      (file : List ℕ) (d : Daemon) (a : OrderAnswers) (p : Parameters) (address : ℕ)
      → IsFresh d
      → InWords p
      → p.duration ≢ 0
      → Ensures Allowed Fine (
          with_buffers (set_up (config_of file p) address d.max_connect_socket d.stats) >>= (λ s.
            long_enough p.duration s >>= (λ s'.
              within thread_failed (run_threads a.actions s')
              >>= (λ t. finish_order average print_lf a t))))
  unfolding with_buffers long_enough config_of
  set_up-Fine file d a p address fresh fits long =
      let (s, set, c, o) = set_up-Owned (config_of file p) address d.max_connect_socket d.stats in
      let e : ltb p.duration 1 ≡ false = ground (arith, long) in
      rw (set, e) (threads-Fine (config_of file p) address d a s fresh fits set)

  checked_duration :
      (p : Parameters)
      → Ensures Allowed
          (λ (b : Bool). p.duration ≢ 0)
          (within bad_parameter
            (check_parameters p.nb_clients p.port p.duration p.nb_msg_per_connection))
  unfolding check_parameters
  checked_duration p = ground arith

  play_order-Fine :
      (file : List ℕ) (d : Daemon) (a : OrderAnswers) (p : Parameters)
      → IsFresh d
      → InWords p
      → Ensures Allowed Fine (play_order average print_lf file d a p)
  unfolding play_order
  play_order-Fine file d a p fresh fits =
      Ensures-bind Allowed (λ (b : Bool). p.duration ≢ 0) Fine _ _ (checked_duration p)
        (λ b long.
          Ensures-bind Allowed Whatever Fine (find_host p.nb_clients p.host a.address) _
            (find_host-Allowed p.nb_clients p.host a.address)
            (λ address x. set_up-Fine file d a p address fresh fits long))

  serve_order-Fine :
      (proc_freq : ℕ) (file : List ℕ) (d : Daemon) (a : OrderAnswers)
      → IsFresh d
      → Ensures Allowed Fine (serve_order average print_lf proc_freq file d a)
  unfolding serve_order
  serve_order-Fine proc_freq file d a fresh =
      Ensures-bind Allowed InWords Fine _ _
        (Ensures-within order_failed Allowed InWords (wait_master_order proc_freq a.order)
          (wait_master_order-InWords proc_freq a.order))
        (λ p fits. play_order-Fine file d a p fresh fits)

  -- Whatever a daemon that starts with no response counted is ordered, one order after another, whatever
  -- the system calls answer and however its threads are scheduled: in the measures that it reports for
  -- each order, the number of responses added up over the clients is nb_RT, and so is nb_CRT, modulo
  -- 2 ^ 64; and it ends for none of the reasons that the code rules out, which are a full or broken
  -- buffer, a client in a state that does not fit, an access outside an array, and the exit of `main`
  -- on a duration below 1.
  pub serve_orders-Fine :
      (proc_freq : ℕ) (file : List ℕ) (d : Daemon) (orders : List OrderAnswers)
      → IsFresh d
      → AllFine (serve_orders average print_lf proc_freq file d orders).0
        × EndsAllowed (serve_orders average print_lf proc_freq file d orders).1
  unfolding serve_orders
  serve_orders-Fine proc_freq file d [] fresh = (tt, tt)
  serve_orders-Fine proc_freq file d (a ∷ rest) fresh =
      go_on-Fine (serve_order average print_lf proc_freq file d a) _
        (serve_order-Fine proc_freq file d a fresh)
        (λ d' fresh'. serve_orders-Fine proc_freq file d' rest fresh')
