-- ===== src/Slave/Writer.antt =====
-- slg.c, `writingFunc`: one round of its filling loop, and what its second loop does for one client.
use slg.Base.{ℕ, Option, none, some, Bool, true, false, if◌then◌else◌}
use slg.Base.Update.{update}
use slg.Base.Int.{pos, negsuc}
use slg.Base.Outcome.{ok, stop, ◌>>=◌}
use slg.Time.{Timeval}
use slg.FdSet.{FdSet, add_client_to_master_write_set, remove_client_from_master_write_set}
use slg.Os.{PendingAnswer, WriteAnswer, ConnectAnswer}
use slg.Circular.{CircularBuffer, get_circ, put_circ}
use slg.Client.{
  Client, Stats, State, waiting, reading, writing, connecting, M, out_of_bounds, ring_full,
  not_reading_after_write,
}
use slg.Client.Request.{build_http_request, send_request}
use slg.Client.Connect.{
  SocketAnswers, initialize_connect_client_to_server, finalize_connect_client_to_server,
}
use slg.Slave.{Config, System, Taken, nothing, client, outside, taken_index, in_memory}

-- The descriptor of a client joins the set that the thread waits on.
unfoldable pub watch : Option ℕ → FdSet → FdSet
watch none s = s
watch (some fd) s = add_client_to_master_write_set s fd

unfoldable pub after_take : System → CircularBuffer → Taken → M (System × Bool)
unfolding watch
after_take s ring nothing = ok (s, false)
after_take s ring outside = stop out_of_bounds
after_take s ring (client i) = ok (
  record s {
    to_write_buffer = ring;
    internal_to_write = update s.internal_to_write i true;
    connect_fds = watch (s.all_clients i).fd s.connect_fds;
  },
  true,
)

-- One round of `while (1)`; the flag tells whether the loop goes on.
unfoldable pub writer_take : System → M (System × Bool)
unfolding after_take
writer_take s = do
  (v, ring) ← in_memory (get_circ s.to_write_buffer)
  after_take s ring (taken_index s.config.nb_clients v)

-- The answers to what the thread asks for one client; `ready` is the set that select gave back.
pub record WriterAnswers : Type 0 where
  pub ready : ℕ → Bool
  pub pending_error : PendingAnswer
  pub now : Timeval
  pub write_answer : WriteAnswer
  pub socket_answers : SocketAnswers
  pub connect_answer : ConnectAnswer
  pub local_port : ℕ

-- `put_circ` with the test of its result.
unfoldable pub hand_over : CircularBuffer → ℕ → M CircularBuffer
hand_over ring i = do
  (v, ring') ← in_memory (put_circ ring (pos i))
  elim v [ pos _ ↦ ok ring' | negsuc _ ↦ stop ring_full ]

-- `if (client->new_request) BUILD_REQUEST(client)`
unfoldable pub build_if_new : Config → Client → M Client
build_if_new c cl = if cl.new_request then build_http_request c.file c.host cl else ok cl

-- After `send_request` has returned with the client in its new state, on descriptor `fd`.
unfoldable pub after_send : System → ℕ → ℕ → State → Client → Stats → M System
unfolding hand_over
after_send s i fd reading c g = do
  ring ← hand_over s.to_read_buffer i
  ok (record s {
    stats = g;
    all_clients = update s.all_clients i c;
    connect_fds = remove_client_from_master_write_set s.connect_fds fd;
    internal_to_write = update s.internal_to_write i false;
    to_read_buffer = ring;
  })
after_send s i fd _ c g = stop not_reading_after_write

unfoldable pub write_client : System → ℕ → WriterAnswers → Client → Option ℕ → M System
unfolding build_if_new after_send
write_client s i a c none = stop out_of_bounds
write_client s i a c (some fd) =
    if a.ready fd
    then build_if_new s.config c >>= (λ b.
      send_request a.pending_error a.now a.write_answer b s.stats
      >>= (λ (c', g). after_send s i fd c'.state c' g))
    else ok s

unfoldable pub finish_connect : System → ℕ → WriterAnswers → Client → Option ℕ → M System
finish_connect s i a c none = stop out_of_bounds
finish_connect s i a c (some fd) =
    if a.ready fd
    then finalize_connect_client_to_server a.pending_error a.now a.local_port c s.stats
      >>= (λ (c', g). ok (record s { stats = g; all_clients = update s.all_clients i c' }))
    else ok s

unfoldable pub start_connect : System → ℕ → WriterAnswers → Client → M System
start_connect s i a c =
    initialize_connect_client_to_server a.socket_answers a.connect_answer c s.connect_fds
    >>= (λ (c', fds). ok (record s { connect_fds = fds; all_clients = update s.all_clients i c' }))

unfoldable pub serve : System → ℕ → WriterAnswers → Client → State → M System
unfolding write_client finish_connect start_connect
serve s i a c writing = write_client s i a c c.fd
serve s i a c connecting =
    if c.connect_in_progress then finish_connect s i a c c.fd else start_connect s i a c
serve s i a c reading = ok s
serve s i a c waiting = ok s

-- The body of the `for` loop at client `i`.
unfoldable pub writer_serve : System → ℕ → WriterAnswers → M System
unfolding serve
writer_serve s i a =
    if s.internal_to_write i then serve s i a (s.all_clients i) (s.all_clients i).state else ok s
