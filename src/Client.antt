-- ===== src/Client.antt =====
-- slg.h and slg.c: one simulated HTTP client of a slave, as a state machine. The build is the
-- Makefile's: HTTP_PROTOCOL, USE_RST, non-blocking sockets, one file, content ignored.
pub mod Memcached
pub mod Connect
pub mod Request
pub mod Receive
pub mod Lifecycle
pub mod Counts
use slg.Base.{
  ℕ, ◌+◌, ◌*◌, ◌-◌, List, [], ◌∷◌, Option, none, some, Bool, true, false, replicate, ◌==◌,
  if◌then◌else◌,
}
use slg.Base.Outcome.{Outcome, ok, stop}
use slg.Time.{Timeval}

-- `states_t`
pub data State : Type 0 where
  waiting reading writing connecting : State

-- `client_t`, without the fields that nothing reads (`state_mutex`, `current_target`, and
-- `read_content_buf`, which stays NULL). `fd` is `none` where the C field is -1, `target` stands for
-- `soc_address`. The flags `new_request` and `connect_in_progress` are Booleans.
pub record Client : Type 0 where
  pub number : ℕ
  pub fd : Option ℕ
  pub state : State
  pub nb_requests_on_iteration : ℕ
  pub bytes_read : ℕ
  pub bytes_write : ℕ
  pub errors : ℕ
  pub content_length : ℕ
  pub header_length : ℕ
  pub read_hdr_buf : List ℕ
  pub new_request : Bool
  pub request_buf : List ℕ
  pub request_total_len : ℕ
  pub port : ℕ
  pub connect_in_progress : Bool
  pub nb_connect_attempts : ℕ
  pub total_bytes_recv : ℕ
  pub total_resp_recv : ℕ
  pub ct_start : Timeval
  pub rt_start : Timeval
  pub crt_start : Timeval
  pub req_unique_id : ℕ
  pub target : ℕ × ℕ

-- The global measures. The three `long double` sums add up whole microseconds, which a long double
-- holds exactly below 2 ^ 64, so they are numbers here.
pub record Stats : Type 0 where
  pub global_avg_ct : ℕ
  pub nb_ct : ℕ
  pub global_avg_rt : ℕ
  pub nb_rt : ℕ
  pub global_avg_crt : ℕ
  pub nb_crt : ℕ
  pub global_errors : ℕ
  pub global_nb_requests_taken : ℕ
  pub global_max_ct : ℕ
  pub global_min_ct : ℕ
  pub global_total_bytes_recv : ℕ
  pub global_total_resp_recv : ℕ
  pub file_nb_req : ℕ
  pub file_nb_req_successful : ℕ
  pub file_nb_reads : ℕ

-- Why the process stops: a PANIC, an exit, a failed assert, or an access outside an array.
pub data Fault : Type 0 where
  bad_state : Fault  -- the default case of `change_state`
  no_socket sockopt_failed too_many_fds : Fault
  connect_error connected_at_once connection_refused : Fault
  request_too_long pending_error write_error not_reading_after_write : Fault
  close_failed read_error eof_in_content no_headers no_content_length select_failed : Fault
  ring_full : Fault  -- "put_circ error. should be impossible"
  header_overflow : Fault  -- the terminator behind a full header buffer
  out_of_bounds : Fault

abbrev pub M {ℓ} : Type ℓ → Type ℓ
M A = Outcome Fault A

-- `MAX_HDR_LENGTH`, `REQUEST_BUFFER_SIZE`, `FD_SETSIZE`, `NB_CONNECT_ATTEMPTS_MAX`
abbrev pub max_hdr_length : ℕ
max_hdr_length = 2048

abbrev pub request_buffer_size : ℕ
request_buffer_size = 512

abbrev pub fd_setsize : ℕ
fd_setsize = 1024

abbrev pub nb_connect_attempts_max : ℕ
nb_connect_attempts_max = 1

-- The second switch of `change_state`: what entering a state resets.
entering : Client → State → Client
entering c reading = record c { state = reading }
entering c writing = record c {
  state = writing;
  read_hdr_buf = replicate max_hdr_length 0;
  bytes_read = 0;
  bytes_write = 0;
  content_length = 0;
  header_length = 0;
}
entering c connecting = record c {
  state = connecting;
  nb_requests_on_iteration = 0;
  fd = none;
  bytes_read = 0;
  bytes_write = 0;
  content_length = 0;
  header_length = 0;
}
entering c waiting = record c { state = waiting }

-- The first switch refuses a client that waits.
leave : State → Client → M Client
leave waiting c = stop bad_state
leave _ c = ok c

unfoldable pub change_state : Client → State → M Client
unfolding entering leave
change_state c new_state = leave c.state (entering c new_state)
