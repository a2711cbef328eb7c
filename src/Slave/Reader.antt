-- ===== src/Slave/Reader.antt =====
-- slg.c, `readingFunc`: one round of its filling loop, and what its second loop does for one client.
use slg.Base.{ℕ, zero, suc, Option, none, some, Bool, true, false, ◌==◌, if◌then◌else◌, ltb}
use slg.Base.Update.{update}
use slg.Base.Outcome.{ok, stop, ◌>>=◌}
use slg.Os.{ReadAnswer}
use slg.Circular.{CircularBuffer, get_circ}
use slg.Client.{Client, Stats, State, waiting, reading, writing, connecting, M, out_of_bounds}
use slg.Client.Receive.{EndAnswers, read_response}
use slg.Slave.{System, Taken, nothing, client, outside, taken_index, in_memory}
use slg.Slave.Writer.{hand_over}

-- `if (fd > maxFd) maxFd = fd`
unfoldable pub raise : Option ℕ → ℕ → Option ℕ
raise none fd = some fd
raise (some m) fd = some (if ltb m fd then fd else m)

unfoldable pub take_client : System → CircularBuffer → ℕ → Option ℕ → M (System × Bool)
unfolding raise
take_client s ring i none = stop out_of_bounds
take_client s ring i (some fd) = ok (
  record s {
    to_read_buffer = ring;
    internal_to_read = update s.internal_to_read i true;
    max_fd = raise s.max_fd fd;
    master_read_set = update s.master_read_set fd true;
  },
  true,
)

unfoldable pub after_take : System → CircularBuffer → Taken → M (System × Bool)
unfolding take_client
after_take s ring nothing = ok (s, false)
after_take s ring outside = stop out_of_bounds
after_take s ring (client i) = take_client s ring i (s.all_clients i).fd

-- One round of `while (1)`; the flag tells whether the loop goes on. A client without a descriptor would
-- be an index -1 of the descriptor set.
unfoldable pub reader_take : System → M (System × Bool)
unfolding after_take
reader_take s = do
  (v, ring) ← in_memory (get_circ s.to_read_buffer)
  after_take s ring (taken_index s.config.nb_clients v)

-- The search for a new `maxFd` below `m`. Its loop ends in its first round, for the `break` is no part
-- of the `if`.
unfoldable pub search_max_fd : (ℕ → Bool) → ℕ → Option ℕ
search_max_fd member zero = none
search_max_fd member (suc j) = if member j then some j else some (suc j)

-- `if (fd == maxFd)`
unfoldable pub lower : (ℕ → Bool) → Option ℕ → ℕ → Option ℕ
unfolding search_max_fd
lower member none fd = none
lower member (some m) fd = if fd == m then search_max_fd member m else some m

-- The answers to what the thread asks for one client; `ready` is the set that select gave back.
pub record ReaderAnswers : Type 0 where
  pub ready : ℕ → Bool
  pub read_answer : ReadAnswer
  pub at_end : EndAnswers

-- The client has left ST_READING, on descriptor `fd`, and goes to the writing thread.
unfoldable pub release : System → ℕ → ℕ → Client → Stats → M System
unfolding lower
release s i fd c g = do
  ring ← hand_over s.to_write_buffer i
  ok (record s {
    stats = g;
    all_clients = update s.all_clients i c;
    internal_to_read = update s.internal_to_read i false;
    max_fd = lower s.master_read_set s.max_fd fd;
    master_read_set = update s.master_read_set fd false;
    to_write_buffer = ring;
  })

-- A client in ST_WAITING would leave the read set and go nowhere.
unfoldable pub after_read : System → ℕ → ℕ → State → Client → Stats → M System
unfolding release lower
after_read s i fd reading c g = ok (record s { stats = g; all_clients = update s.all_clients i c })
after_read s i fd waiting c g = ok (record s {
  stats = g;
  all_clients = update s.all_clients i c;
  internal_to_read = update s.internal_to_read i false;
  max_fd = lower s.master_read_set s.max_fd fd;
  master_read_set = update s.master_read_set fd false;
})
after_read s i fd writing c g = release s i fd c g
after_read s i fd connecting c g = release s i fd c g

unfoldable pub serve : System → ℕ → ReaderAnswers → Client → Option ℕ → M System
unfolding after_read
serve s i a c none = stop out_of_bounds
serve s i a c (some fd) =
    if a.ready fd
    then read_response a.read_answer s.config.nb_msg_per_connection a.at_end c s.stats
      >>= (λ (c', g). after_read s i fd c'.state c' g)
    else ok s

-- The body of the `for` loop at client `i`.
unfoldable pub reader_serve : System → ℕ → ReaderAnswers → M System
unfolding serve
reader_serve s i a =
    if s.internal_to_read i then serve s i a (s.all_clients i) (s.all_clients i).fd else ok s
