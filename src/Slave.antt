-- ===== src/Slave.antt =====
-- slg.c: a slave during one order of the master. The two threads share the clients and two circular
-- buffers; this file has the state, its set-up by `init_clients` and `main`, and the children the rest.
pub mod Writer
pub mod Queues
pub mod Invariant
pub mod Reader
pub mod SetUp
pub mod Threads
pub mod ReadSet
pub mod Totals
pub mod Balance
pub mod Rounds
pub mod Daemon
mod Tests
use mathlib.Core.Option.{bind}
use slg.Base.{
  ℕ, zero, suc, ◌+◌, List, [], ◌∷◌, Option, none, some, Bool, true, false, ◌==◌, if◌then◌else◌, ltb,
  replicate,
}
use slg.Base.Int.{ℤ, pos, negsuc}
use slg.Base.Outcome.{Outcome, ok, stop, ◌>>=◌}
use slg.Time.{Timeval}
use slg.FdSet.{FdSet}
use slg.Circular.{CircularBuffer, open_circ, put_circ}
use slg.Client.{Client, Stats, State, connecting, M, Fault, out_of_bounds, max_hdr_length}

-- What the master ordered, and the url of the single file.
pub record Config : Type 0 where
  pub nb_clients : ℕ
  pub nb_msg_per_connection : ℕ
  pub host : List ℕ
  pub port : ℕ
  pub file : List ℕ

-- The globals of slg.c and the locals of its two threads. `all_clients`, `internal_to_write` (where
-- `true` is DO_WRITE) and `internal_to_read` are arrays of `nb_clients` entries; `master_read_set` and
-- `max_fd` belong to the reading thread, with `none` for its negative values -1 and -2.
pub record System : Type 0 where
  pub config : Config
  pub stats : Stats
  pub all_clients : ℕ → Client
  pub to_read_buffer : CircularBuffer
  pub to_write_buffer : CircularBuffer
  pub connect_fds : FdSet
  pub internal_to_write : ℕ → Bool
  pub internal_to_read : ℕ → Bool
  pub master_read_set : ℕ → Bool
  pub max_fd : Option ℕ

abbrev midnight : Timeval
midnight = record { tv_sec = 0; tv_usec = 0 }

-- `init_clients` for one client: calloc, then `init_server_target` with the address that the name
-- service gave for the host.
unfoldable pub init_client : ℕ → ℕ → ℕ → Client
init_client address port i = record {
  number = i;
  fd = none;
  state = connecting;
  nb_requests_on_iteration = 0;
  bytes_read = 0;
  bytes_write = 0;
  errors = 0;
  content_length = 0;
  header_length = 0;
  read_hdr_buf = replicate max_hdr_length 0;
  new_request = true;
  request_buf = [];
  request_total_len = 0;
  port = 0;
  connect_in_progress = false;
  nb_connect_attempts = 0;
  total_bytes_recv = 0;
  total_resp_recv = 0;
  ct_start = midnight;
  rt_start = midnight;
  crt_start = midnight;
  req_unique_id = 0;
  target = (address, port);
}

-- The statistics that `init_clients` clears; the others stay.
unfoldable pub init_client_stats : Stats → Stats
init_client_stats g = record g {
  global_avg_ct = 0;
  nb_ct = 0;
  global_avg_rt = 0;
  nb_rt = 0;
  global_avg_crt = 0;
  nb_crt = 0;
}

-- The loop of `main` that puts the clients from `i` on, `k` of them; its result is not tested.
unfoldable pub put_clients : ℕ → ℕ → CircularBuffer → Option CircularBuffer
put_clients i zero cb = some cb
put_clients i (suc k) cb = bind (put_circ cb (pos i)) (λ (v, cb'). put_clients (i + 1) k cb')

abbrev pub uninitialised : CircularBuffer
uninitialised = record { buffer = []; size = 0; write_pos = 0; read_pos = 0 }

-- The state once the buffers are there, with `max_connect` what `max_connect_socket` holds from the order
-- before, which FD_ZERO leaves.
unfoldable pub started : Config → ℕ → ℕ → Stats → CircularBuffer → CircularBuffer → System
unfolding init_client init_client_stats
started c address max_connect g to_read to_write = record {
  config = c;
  stats = init_client_stats g;
  all_clients = init_client address c.port;
  to_read_buffer = to_read;
  to_write_buffer = to_write;
  connect_fds = record { member = λ j. false; max = max_connect };
  internal_to_write = λ i. false;
  internal_to_read = λ i. false;
  master_read_set = λ j. false;
  max_fd = none;
}

-- `main` from `init_clients` to the creation of the threads, if malloc succeeds.
unfoldable pub set_up : Config → ℕ → ℕ → Stats → Option System
unfolding put_clients started
set_up c address max_connect g = bind (open_circ true (some uninitialised) c.nb_clients) (λ to_read.
    bind (open_circ true (some uninitialised) c.nb_clients) (λ to_write.
      bind (put_clients 0 c.nb_clients to_write)
        (λ filled. some (started c address max_connect g to_read filled))))

-- The index that a thread got from a buffer: CIRC_BUF_ERROR ends its loop, and any other number is
-- used as an index of the arrays.
pub data Taken : Type 0 where
  nothing : Taken
  client : ℕ → Taken
  outside : Taken

abbrev pub taken_index : ℕ → ℤ → Taken
taken_index nb_clients (pos i) = if ltb i nb_clients then client i else outside
taken_index nb_clients (negsuc zero) = nothing
taken_index nb_clients (negsuc (suc n)) = outside

-- A call of the ring that may access memory outside it.
abbrev pub in_memory {ℓ} : {A : Type ℓ} → Option A → M A
in_memory none = stop out_of_bounds
in_memory (some a) = ok a
