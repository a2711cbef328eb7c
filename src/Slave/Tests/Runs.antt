-- ===== src/Slave/Tests/Runs.antt =====
-- Whole loops of the threads, and a daemon that serves two orders.
use mathlib.Core.Option.{bind}
use slg.Base.{ℕ, ◌+◌, ◌≡◌, refl, List, [], ◌∷◌, ◌++◌, Option, none, some, false, arith, map}
use slg.Base.Text.{codes}
use slg.Base.Decimal.{decimal}
use slg.Base.Outcome.{ok, Ensures}
use slg.Os.{got, wrote}
use slg.Client.Lifecycle.{Tolerated}
use slg.Circular.{open_circ, get_circ, put_circ}
use slg.Slave.{System, set_up, started}
use slg.Slave.Writer.{WriterAnswers, writer_take}
use slg.Slave.Reader.{ReaderAnswers, reader_take}
use slg.Slave.Invariant.{Inv, Owned}
use slg.Slave.Threads.{Kept, started-Inv}
use slg.Slave.Rounds.{Round, write_round, read_round, fill, writing_func, reading_func}
use slg.Slave.Rounds.Filling.{fill-ends}
use slg.Slave.Rounds.Loops.{Done, all_rounds, threads_end}
use slg.Slave.Daemon.{
  Daemon, OrderAnswers, Served, Stopped, take_to_write, serve_writing, take_to_read, serve_orders,
}
use slg.Slave.Daemon.Orders.{AllFine, EndsAllowed, serve_orders-Fine}
use slg.Slave.Daemon.Idle.{none_yet, count_idle, printed_idle, idle_clients, printed_idle-count}
use slg.Protocol.Order.{wait_master_order}
use slg.Protocol.Line.{read_line}
use slg.Base.Tokens.{strtok}
use slg.Base.Text.{c_string, atoi}
use slg.Slave.Totals.{check_parameters, compute_stats, reset_stats}
use slg.Slave.Writer.{writer_serve}
use slg.Client.Connect.{initialize_connect_client_to_server}
use slg.Protocol.Response.{send_stat_response}
use slg.Time.{compare_time}
use slg.Protocol.Order.{Order}
use slg.Slave.Daemon.{report_of}
use slg.Protocol.Response.{SlaveStats}
use slg.Slave.Daemon.{run_threads}
use slg.Slave.Tests.{nothing_yet, one_client, at_start, set_up_one, noon, connects, reads_nothing}

abbrev start_inv : Inv at_start
start_inv = started-Inv one_client 7 0 nothing_yet set_up_one

fill-ends_example :
    ((t : System) × (fill writer_take 2 at_start ≡ ok (t, false))
      × Kept at_start t
      × Owned t [] start_inv.rs)
    × ((t : System) × (fill reader_take 2 at_start ≡ ok (t, false))
        × Kept at_start t
        × Owned t start_inv.ws [])
unfolding started
fill-ends_example = fill-ends at_start start_inv.ws start_inv.rs start_inv.owned

abbrev writes : List (Round WriterAnswers)
writes = record { select_fails = false; answers = λ i. connects; current_time_cycles = 149 } ∷ []

abbrev last_write : Round WriterAnswers
last_write = record { select_fails = false; answers = λ i. connects; current_time_cycles = 150 }

abbrev reads : List (Round ReaderAnswers)
reads =
    record { select_fails = false; answers = λ i. reads_nothing; current_time_cycles = 120 } ∷ []

abbrev last_read : Round ReaderAnswers
last_read = record { select_fails = false; answers = λ i. reads_nothing; current_time_cycles = 160 }

threads_end_example :
    ((writing_func 100 50 (writes ++ last_write ∷ writes) at_start
        ≡ all_rounds
            (λ a t. write_round (t.config.nb_clients + 1) a t)
            (writes ++ last_write ∷ [])
            at_start)
      × Ensures Tolerated
          (Done at_start)
          (writing_func 100 50 (writes ++ last_write ∷ writes) at_start))
    × ((reading_func 100 50 (reads ++ last_read ∷ []) at_start
          ≡ all_rounds
              (λ a t. read_round (t.config.nb_clients + 1) a t)
              (reads ++ last_read ∷ [])
              at_start)
        × Ensures Tolerated
            (Done at_start)
            (reading_func 100 50 (reads ++ last_read ∷ []) at_start))
threads_end_example =
    threads_end 100 50 writes last_write writes reads last_read [] at_start start_inv
      (omega arith, tt) (omega arith) (omega arith, tt) (omega arith)

abbrev an_order : OrderAnswers
an_order = record {
  order = got (codes "3,m,localhost,80,1,5,") ∷ got (codes "2,0\n") ∷ [];
  address = some 7;
  start_time = noon;
  actions = take_to_write ∷ take_to_read ∷ serve_writing 0 connects ∷ serve_writing 9 connects ∷ [];
  stop_time = noon;
  response = wrote 10 ∷ wrote 8 ∷ wrote 100 ∷ [];
}

abbrev idle : Daemon
idle = record { stats = nothing_yet; max_connect_socket = 0 }

abbrev quotient : ℕ → ℕ → ℕ
quotient a b = a

abbrev outcome : List Served × Option Stopped
outcome = serve_orders quotient decimal 1000 (codes "/") idle (an_order ∷ an_order ∷ [])

serve_orders-Fine_example : AllFine (outcome.0) × EndsAllowed (outcome.1)
serve_orders-Fine_example =
    serve_orders-Fine quotient decimal 1000 (codes "/") idle (an_order ∷ an_order ∷ []) refl

-- Both orders are served, each closes the descriptor of its client, and the answer is a line of counters.
both_served :
    (map (λ (s : Served). s.closed) (outcome.0) ≡ (some 5 ∷ []) ∷ (some 5 ∷ []) ∷ [])
    × (outcome.1 ≡ none)
unfolding serve_orders wait_master_order read_line strtok c_string check_parameters atoi set_up bind
    open_circ put_circ writer_take get_circ reader_take writer_serve
    initialize_connect_client_to_server send_stat_response decimal compute_stats compare_time
    reset_stats
both_served = (refl, refl)

printed_idle-count_example :
    printed_idle 1 (count_idle 0 1 at_start.all_clients none_yet)
    ≡ idle_clients 0 1 at_start.all_clients
printed_idle-count_example = printed_idle-count 1 at_start.all_clients (omega arith)

abbrev one_order : Order
one_order = record {
  slave = 3;
  name = codes "m";
  target = codes "localhost";
  target_port = 80;
  clients = 1;
  length_in_seconds = 5;
  msg_per_connection = 2;
  delay = 0;
}

abbrev one_digit : ℕ → List ℕ
one_digit n = b'0' ∷ []

abbrev first_byte : List ℕ → ℕ
first_byte [] = 0
first_byte (c ∷ s) = c

abbrev no_results : SlaveStats ℕ
no_results = record {
  total_time = 0;
  bytes_recv = 0;
  resp_recv = 0;
  avg_ct = 0;
  avg_rt = 0;
  avg_crt = 0;
  min_ct = 0;
  max_ct = 0;
  errors = 0;
}

-- The order in two parts, and the response in one.
abbrev order_parts : List (List ℕ)
order_parts = codes "3,m,localhost,80,1,5," ∷ codes "2,0\n" ∷ []

abbrev response_parts : List (List ℕ)
response_parts = codes "0,0,0,0,0,0,18446744073709551615,0,0\n" ∷ []

abbrev taken_client : (t : System) × (run_threads (take_to_write ∷ []) at_start ≡ ok t)
unfolding run_threads writer_take get_circ bind started report_of
taken_client = (_, refl)

abbrev an_hour_ago : OrderAnswers
an_hour_ago = record an_order { actions = take_to_write ∷ []; response = wrote 37 ∷ [] }
