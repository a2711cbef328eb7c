-- ===== src/Client/Connect.antt =====
-- slg.c: `init_client_socket`, `initialize_connect_client_to_server` and
-- `finalize_connect_client_to_server`.
use slg.Base.{ℕ, ◌+◌, Option, none, some, Bool, true, false, if◌then◌else◌, ltb, leb}
use slg.Base.Word.{u64}
use slg.Base.Outcome.{ok, stop, ◌>>=◌}
use slg.Time.{Timeval, compare_time}
use slg.FdSet.{FdSet, add_client_to_master_write_set}
use slg.Os.{
  Errno, einprogress, eaddrnotavail, econnaborted, etimedout, econnrefused, PendingAnswer,
  no_answer, clear, pending, ConnectAnswer,
}
use slg.Client.{
  Client, Stats, writing, M, no_socket, too_many_fds, sockopt_failed, connect_error,
  connected_at_once, connection_refused, fd_setsize, nb_connect_attempts_max, change_state,
}

-- The answers of socket, of the two setsockopt calls (SO_REUSEADDR, and SO_LINGER under USE_RST), and
-- of the clock.
pub record SocketAnswers : Type 0 where
  pub socket : Option ℕ
  pub reuse_set : Bool
  pub linger_set : Bool
  pub ct_time : Timeval
  pub crt_time : Timeval

with_socket : SocketAnswers → Option ℕ → Client → M Client
with_socket a none c = stop no_socket
with_socket a (some fd) c =
    if ltb fd fd_setsize
    then if a.reuse_set
      then if a.linger_set
        then ok (record c { fd = some fd; ct_start = a.ct_time; crt_start = a.crt_time })
        else stop sockopt_failed
      else stop sockopt_failed
    else stop too_many_fds

unfoldable pub init_client_socket : SocketAnswers → Client → M Client
unfolding with_socket
init_client_socket a c = with_socket a a.socket c

-- The first statement of `initialize_connect_client_to_server`, for the two cases of `fd`.
ensure_socket : SocketAnswers → Option ℕ → Client → M (ℕ × Client)
unfolding init_client_socket
ensure_socket a (some fd) c = ok (fd, c)
ensure_socket a none c =
    init_client_socket a c >>= (λ c'. elim c'.fd [ none ↦ stop no_socket | some fd ↦ ok (fd, c') ])

-- After `connect`: an error is let through if it is one of three.
after_connect : Bool → Errno → ℕ → Client → FdSet → M (Client × FdSet)
after_connect status eaddrnotavail fd c s = ok (c, s)
after_connect status econnaborted fd c s = ok (c, s)
after_connect true err fd c s = stop connected_at_once
after_connect false einprogress fd c s =
    ok (record c { connect_in_progress = true }, add_client_to_master_write_set s fd)
after_connect false err fd c s = stop connect_error

-- Every call that returns does so with ST_CONNECT.
unfoldable pub initialize_connect_client_to_server :
    SocketAnswers → ConnectAnswer → Client → FdSet → M (Client × FdSet)
unfolding ensure_socket after_connect
initialize_connect_client_to_server a answer c s = do
  (fd, c') ← ensure_socket a c.fd c
  after_connect answer.connected answer.err fd c' s

-- The measures at the end of a connect that took `ct_time`.
unfoldable pub connect_stats : ℕ → Stats → Stats
connect_stats ct_time g = record g {
  global_min_ct = if ltb ct_time g.global_min_ct then ct_time else g.global_min_ct;
  global_max_ct = if ltb g.global_max_ct ct_time then ct_time else g.global_max_ct;
  global_avg_ct = g.global_avg_ct + ct_time;
  nb_ct = u64 (g.nb_ct + 1);
}

after_refusal : Client → Stats → M (Client × Stats)
after_refusal c g =
    let c' = record c { nb_connect_attempts = c.nb_connect_attempts + 1 } in
    if leb nb_connect_attempts_max c'.nb_connect_attempts
    then stop connection_refused
    else ok (c', g)

-- The answers are those of getsockopt, of the clock, and the port of getsockname. The three setsockopt
-- calls at the end only print when they fail. The state that it returns is the client's.
finalize : PendingAnswer → Timeval → ℕ → Client → Stats → M (Client × Stats)
unfolding connect_stats after_refusal
finalize no_answer now port c g = stop sockopt_failed
finalize (pending etimedout) now port c g = ok (c, g)
finalize (pending econnrefused) now port c g = after_refusal c g
finalize (pending e) now port c g = stop connect_error
finalize clear now port c g = do
  c' ← change_state (record c { nb_connect_attempts = 0; port = port }) writing
  ok (c', connect_stats (compare_time c.ct_start now) g)

unfoldable pub finalize_connect_client_to_server :
    PendingAnswer → Timeval → ℕ → Client → Stats → M (Client × Stats)
unfolding finalize
finalize_connect_client_to_server answer now port c g =
    finalize answer now port (record c { connect_in_progress = false }) g
