-- ===== src/Slave/Tests.antt =====
-- A slave with one client, from the set-up through its first rounds.
mod Runs
use mathlib.Core.Option.{bind}
use slg.Base.{
  ℕ, ◌%◌, ◌^◌, ◌-◌, ◌≡◌, ◌≢◌, refl, inl, inr, List, [], ◌∷◌, none, some, true, false, arith,
}
use slg.Base.Int.{pos}
use slg.Base.Text.{codes}
use slg.Time.{Timeval}
use slg.Os.{eagain, einprogress, eof, write_failed, clear}
use slg.Circular.{CircularBuffer, open_circ, get_circ, put_circ}
use slg.Client.{Stats, ring_full, bad_state, out_of_bounds, no_socket}
use slg.Client.Connect.{initialize_connect_client_to_server}
use slg.Slave.{Config, System, set_up, started}
use slg.Slave.Writer.{WriterAnswers, writer_take, writer_serve}
use slg.Slave.Reader.{ReaderAnswers}
use slg.Slave.Invariant.{Owned}
use slg.Slave.SetUp.{up_to, set_up-Owned}
use slg.Slave.ReadSet.{Covers}
use slg.Slave.ReadSet.Reached.{reachable-Covers}
use slg.Slave.Totals.{compute_stats}
use slg.Slave.Totals.Extremes.{compute_stats-forgets}
use slg.Slave.Balance.Reached.{totals, compute_stats-agrees}
use slg.Slave.Threads.{Reach, here, next, writer_takes, reachable-Owned, threads_fault}

abbrev nothing_yet : Stats
nothing_yet = record {
  global_avg_ct = 0;
  nb_ct = 0;
  global_avg_rt = 0;
  nb_rt = 0;
  global_avg_crt = 0;
  nb_crt = 0;
  global_errors = 0;
  global_nb_requests_taken = 0;
  global_max_ct = 0;
  global_min_ct = 0;
  global_total_bytes_recv = 0;
  global_total_resp_recv = 0;
  file_nb_req = 0;
  file_nb_req_successful = 0;
  file_nb_reads = 0;
}

abbrev one_client : Config
one_client = record {
  nb_clients = 1;
  nb_msg_per_connection = 2;
  host = codes "localhost";
  port = 80;
  file = codes "/index.html";
}

abbrev empty_ring : CircularBuffer
empty_ring = record { buffer = pos 0 ∷ pos 0 ∷ []; size = 2; write_pos = 0; read_pos = 0 }

abbrev at_start : System
at_start = started one_client 7 0 nothing_yet empty_ring (record empty_ring { write_pos = 1 })

set_up_one : set_up one_client 7 0 nothing_yet ≡ some at_start
unfolding set_up open_circ put_circ bind
set_up_one = refl

abbrev noon : Timeval
noon = record { tv_sec = 43200; tv_usec = 0 }

-- the socket is there, and the connection is under way
abbrev connects : WriterAnswers
connects = record {
  ready = λ fd. false;
  pending_error = clear;
  now = noon;
  write_answer = write_failed eagain;
  socket_answers = record {
    socket = some 5;
    reuse_set = true;
    linger_set = true;
    ct_time = noon;
    crt_time = noon;
  };
  connect_answer = record { connected = false; err = einprogress };
  local_port = 40000;
}

abbrev reads_nothing : ReaderAnswers
reads_nothing = record {
  ready = λ fd. false;
  read_answer = eof;
  at_end = record { closed = true; now = noon };
}

abbrev first_take : (t : System) × Reach at_start t × (t.internal_to_write 0 ≡ true)
unfolding writer_take get_circ bind started
first_take = (_, next here (writer_takes true refl), refl)

reachable-Owned_example : (ws : List ℕ) × (rs : List ℕ) × Owned (first_take.0) ws rs
reachable-Owned_example = reachable-Owned one_client 7 0 nothing_yet set_up_one first_take.1

-- Without a free descriptor the first connect ends the process; no fault of the protocol.
abbrev no_descriptor : WriterAnswers
no_descriptor = record connects {
  socket_answers = record (connects.socket_answers) { socket = none };
}

threads_fault_example :
    (no_socket ≢ ring_full) × (no_socket ≢ bad_state) × (no_socket ≢ out_of_bounds)
unfolding first_take writer_serve initialize_connect_client_to_server started
threads_fault_example =
    threads_fault one_client 7 0 nothing_yet set_up_one first_take.1 0 (omega arith) no_descriptor
      reads_nothing (inr (inr (inl refl)))

set_up-Owned_example :
    (s : System) × (set_up one_client 7 0 nothing_yet ≡ some s)
    × (s.config ≡ one_client)
    × Owned s (up_to 1) []
set_up-Owned_example = set_up-Owned one_client 7 0 nothing_yet

reachable-Covers_example : Covers (first_take.0)
reachable-Covers_example = reachable-Covers one_client 7 0 nothing_yet set_up_one first_take.1

compute_stats-agrees_example :
    ((totals (first_take.0)).global_total_resp_recv % 2 ^ 64
      ≡ (totals (first_take.0)).nb_rt % 2 ^ 64)
    × ((totals (first_take.0)).nb_crt % 2 ^ 64 ≡ (totals (first_take.0)).nb_rt % 2 ^ 64)
compute_stats-agrees_example =
    compute_stats-agrees one_client 7 0 nothing_yet (omega arith) refl set_up_one first_take.1

compute_stats-forgets_example :
    ((compute_stats 1
        (at_start.all_clients)
        (record nothing_yet { global_max_ct = 9 })).global_max_ct
      ≡ 0)
    × ((compute_stats 1
          (at_start.all_clients)
          (record nothing_yet { global_max_ct = 9 })).global_min_ct
        ≡ 2 ^ 64 - 1)
compute_stats-forgets_example =
    compute_stats-forgets 1 (at_start.all_clients) (record nothing_yet { global_max_ct = 9 })
