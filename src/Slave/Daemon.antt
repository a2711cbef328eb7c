-- ===== src/Slave/Daemon.antt =====
-- slg.c: the daemon loop of `main`, which serves one order of the master after another.
pub mod Run
pub mod Orders
pub mod Idle
pub mod Injection
use mathlib.Core.Option.{bind}
use slg.Base.{
  ℕ, zero, suc, ◌+◌, ◌-◌, List, [], ◌∷◌, ◌++◌, Option, none, some, Bool, true, false, if◌then◌else◌,
  ltb, map, length, take, ◌==◌,
}
use slg.Base.Text.{codes}
use slg.Base.Int.{ℤ, negsuc}
use slg.Base.Outcome.{Outcome, ok, stop, within, ◌>>=◌}
use slg.Time.{Timeval, compare_time}
use slg.Os.{ReadAnswer, WriteAnswer}
use slg.Client.{Client, Stats, M, Fault}
use slg.Protocol.Line.{Failure}
use slg.Protocol.Order.{Parameters, wait_master_order}
use slg.Protocol.Response.{Report, send_stat_response}
use slg.Slave.{Config, System, set_up}
use slg.Slave.Totals.{BadParameter, check_parameters, compute_stats, reset_stats}
use slg.Slave.Writer.{WriterAnswers, writer_take, writer_serve}
use slg.Slave.Reader.{ReaderAnswers, reader_take, reader_serve}

-- What the scheduler lets run next: a round of one of the four loops.
pub data Action : Type 0 where
  take_to_write take_to_read : Action
  serve_writing : ℕ → WriterAnswers → Action
  serve_reading : ℕ → ReaderAnswers → Action

-- The loops that serve run over the clients, so a number past them is no round at all.
unfoldable pub act : Action → System → M System
act take_to_write s = writer_take s >>= (λ (t, more). ok t)
act take_to_read s = reader_take s >>= (λ (t, more). ok t)
act (serve_writing i a) s = if ltb i s.config.nb_clients then writer_serve s i a else ok s
act (serve_reading i a) s = if ltb i s.config.nb_clients then reader_serve s i a else ok s

-- The threads between `pthread_create` and `pthread_join`, in the order that the scheduler chose.
unfoldable pub run_threads : List Action → System → M System
unfolding act
run_threads [] s = ok s
run_threads (x ∷ actions) s = act x s >>= run_threads actions

-- Why the daemon ends.
pub data Stopped : Type 0 where
  order_failed : Failure → Stopped
  bad_parameter : BadParameter → Stopped
  lookup_failed no_buffers duration_too_low : Stopped
  thread_failed : Fault → Stopped
  response_failed : Failure → Stopped

-- The file that the clients ask for: DEFAULT_DIR with the second argument behind it, or the default.
unfoldable pub target_file : Option (List ℕ) → List ℕ
target_file none = codes "/index.html"
target_file (some name) = codes "/" ++ name

-- `init_server_target`, which every client calls with the same name and the same answer of
-- gethostbyname.
unfoldable pub find_host : ℕ → Option (List ℕ) → Option ℕ → Outcome Stopped ℕ
find_host zero host address = ok 0
find_host (suc n) (some name) (some address) = ok address
find_host (suc n) (some name) none = stop lookup_failed
find_host (suc n) none address = stop lookup_failed

abbrev pub name_of : Option (List ℕ) → List ℕ
name_of none = []
name_of (some name) = name

-- The order as the threads read it.
unfoldable pub config_of : List ℕ → Parameters → Config
config_of file p = record {
  nb_clients = p.nb_clients;
  nb_msg_per_connection = p.nb_msg_per_connection;
  host = name_of p.host;
  port = p.port;
  file = file;
}

-- What the daemon keeps from order to order.
pub record Daemon : Type 0 where
  pub stats : Stats
  pub max_connect_socket : ℕ

-- The answers of the system for one order.
pub record OrderAnswers : Type 0 where
  pub order : List ReadAnswer
  pub address : Option ℕ
  pub start_time : Timeval
  pub actions : List Action
  pub stop_time : Timeval
  pub response : List WriteAnswer

-- What one order leaves: the measures that were reported, the bytes that the master gets, the descriptors
-- that `clean_remaing_clients_fd` closes, and the daemon.
pub record Served : Type 0 where
  pub reported : Stats
  pub wire : List ℕ
  pub closed : List (Option ℕ)
  pub daemon : Daemon

-- `clean_remaing_clients_fd`, over `k` clients from the `i`th on
unfoldable pub clean_remaining_clients_fd : ℕ → ℕ → (ℕ → Client) → List (Option ℕ)
clean_remaining_clients_fd i zero clients = []
clean_remaining_clients_fd i (suc k) clients =
    (clients i).fd ∷ clean_remaining_clients_fd (i + 1) k clients

unfoldable pub with_buffers : Option System → Outcome Stopped System
with_buffers none = stop no_buffers
with_buffers (some s) = ok s

-- `if (duration < 1)`
unfoldable pub long_enough : ℕ → System → Outcome Stopped System
long_enough duration s = if ltb duration 1 then stop duration_too_low else ok s

-- `rest` is what the daemon does with the orders that follow.
unfoldable pub go_on :
    Outcome Stopped Served → (Daemon → List Served × Option Stopped) → List Served × Option Stopped
go_on (stop e) rest = ([], some e)
go_on (ok served) rest = let (more, e) = rest served.daemon in (served ∷ more, e)

-- The quotient of a sum and a count, and "%Lf", are parameters.
module _ {ℓ} {LongDouble : Type ℓ} (average : ℕ → ℕ → LongDouble)
    (print_lf : LongDouble → List ℕ) where
  unfoldable pub report_of : Timeval → Timeval → Stats → Report LongDouble
  report_of start_time stop_time g = record {
    elapsed = compare_time start_time stop_time;
    global_total_bytes_recv = g.global_total_bytes_recv;
    global_total_resp_recv = g.global_total_resp_recv;
    global_avg_ct = average g.global_avg_ct g.nb_ct;
    global_avg_rt = average g.global_avg_rt g.nb_rt;
    global_avg_crt = average g.global_avg_crt g.nb_crt;
    global_min_ct = g.global_min_ct;
    global_max_ct = g.global_max_ct;
    global_errors = g.global_errors;
  }

  -- From the end of the threads to the end of the loop.
  unfoldable pub finish_order : OrderAnswers → System → Outcome Stopped Served
  unfolding report_of clean_remaining_clients_fd
  finish_order a t =
      let g = compute_stats t.config.nb_clients t.all_clients t.stats in
      within response_failed
        (send_stat_response print_lf (report_of a.start_time a.stop_time g) a.response)
      >>= (λ wire. ok (record {
        reported = g;
        wire = wire;
        closed = clean_remaining_clients_fd 0 t.config.nb_clients t.all_clients;
        daemon = record { stats = reset_stats g; max_connect_socket = t.connect_fds.max };
      }))

  -- From `check_parameters` on, for an order that has been read.
  unfoldable pub play_order : List ℕ → Daemon → OrderAnswers → Parameters → Outcome Stopped Served
  unfolding finish_order find_host config_of with_buffers long_enough run_threads
  play_order file d a p =
      within bad_parameter (check_parameters p.nb_clients p.port p.duration p.nb_msg_per_connection)
      >>= (λ checked. find_host p.nb_clients p.host a.address >>= (λ address.
          with_buffers (set_up (config_of file p) address d.max_connect_socket d.stats) >>= (λ s.
            long_enough p.duration s >>= (λ s'.
              within thread_failed (run_threads a.actions s') >>= (λ t. finish_order a t)))))

  -- One round of the daemon loop.
  unfoldable pub serve_order : ℕ → List ℕ → Daemon → OrderAnswers → Outcome Stopped Served
  unfolding play_order
  serve_order proc_freq file d a =
      within order_failed (wait_master_order proc_freq a.order) >>= play_order file d a

  -- The daemon loop: what it served, and why it ended unless it waits for the next order.
  unfoldable pub serve_orders :
      ℕ → List ℕ → Daemon → List OrderAnswers → List Served × Option Stopped
  unfolding serve_order go_on
  serve_orders proc_freq file d [] = ([], none)
  serve_orders proc_freq file d (a ∷ rest) =
      go_on (serve_order proc_freq file d a) (λ d'. serve_orders proc_freq file d' rest)
