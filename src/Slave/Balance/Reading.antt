-- ===== src/Slave/Balance/Reading.antt =====
-- The rounds of `readingFunc` keep the counts in balance.
use slg.Base.{ℕ, ◌<◌, Option, none, some, Bool, Bool-cases, Option-cases, inl, inr}
use slg.Base.Outcome.{Ensures, Ensures-bind}
use slg.Circular.{CircularBuffer, get_circ}
use slg.Client.{Client, Stats, State, waiting, reading, writing, connecting}
use slg.Client.Receive.{read_response}
use slg.Client.Counts.{Unspecified, Counts, read_response-Counts}
use slg.Slave.{System, Taken, nothing, client, outside, taken_index, in_memory}
use slg.Slave.ReadSet.{Any, Ensures-Any}
use slg.Slave.Writer.{hand_over}
use slg.Slave.Reader
use slg.Slave.Reader.{ReaderAnswers, reader_take, reader_serve, release, after_read}
use slg.Slave.Balance.{IsBalanced, Balanced-update}

abbrev Taking : System × Bool → Type 0
Taking r = IsBalanced r.0

after_take-Balanced :
    (s : System) (ring : CircularBuffer) (t : Taken)
    → IsBalanced s
    → Ensures Unspecified Taking (Reader.after_take s ring t)
unfolding Reader.after_take Reader.take_client
after_take-Balanced s ring nothing b = b
after_take-Balanced s ring outside b = tt
after_take-Balanced s ring (client i) b = elim (Option-cases (s.all_clients i).fd) [
  | inl e ↦ rw e tt
  | inr (fd, e) ↦ rw e b
]

pub reader_take-Balanced : (s : System) → IsBalanced s → Ensures Unspecified Taking (reader_take s)
unfolding reader_take
reader_take-Balanced s b =
    let m = in_memory (get_circ s.to_read_buffer) in
    Ensures-bind Unspecified Any Taking m _ (Ensures-Any m)
      (λ r u. after_take-Balanced s r.1 (taken_index s.config.nb_clients r.0) b)

after_read-Balanced :
    (s : System) (i fd : ℕ) (st : State) (c : Client) (g : Stats)
    → i < s.config.nb_clients
    → IsBalanced s
    → Counts (s.all_clients i) s.stats c g
    → Ensures Unspecified IsBalanced (after_read s i fd st c g)
unfolding after_read release
after_read-Balanced s i fd reading c g lt (l, b) k =
    (l, Balanced-update s.config.nb_clients i s.all_clients s.stats c g lt b k)
after_read-Balanced s i fd waiting c g lt (l, b) k =
    (l, Balanced-update s.config.nb_clients i s.all_clients s.stats c g lt b k)
after_read-Balanced s i fd writing c g lt (l, b) k =
    let m = hand_over s.to_write_buffer i in
    Ensures-bind Unspecified Any IsBalanced m _ (Ensures-Any m)
      (λ r u. (l, Balanced-update s.config.nb_clients i s.all_clients s.stats c g lt b k))
after_read-Balanced s i fd connecting c g lt (l, b) k =
    let m = hand_over s.to_write_buffer i in
    Ensures-bind Unspecified Any IsBalanced m _ (Ensures-Any m)
      (λ r u. (l, Balanced-update s.config.nb_clients i s.all_clients s.stats c g lt b k))

serve-Balanced :
    (s : System) (i : ℕ) (a : ReaderAnswers) (fd : Option ℕ)
    → i < s.config.nb_clients
    → IsBalanced s
    → Ensures Unspecified IsBalanced (Reader.serve s i a (s.all_clients i) fd)
unfolding Reader.serve
serve-Balanced s i a none lt b = tt
serve-Balanced s i a (some fd) lt b = elim (Bool-cases (a.ready fd)) [
  | inl e ↦ rw e (
      let c = s.all_clients i in
      let m = read_response a.read_answer s.config.nb_msg_per_connection a.at_end c s.stats in
      Ensures-bind Unspecified (λ (r : Client × Stats). Counts c s.stats r.0 r.1) IsBalanced m _
        (read_response-Counts a.read_answer s.config.nb_msg_per_connection a.at_end c s.stats b.0
          (b.1.countable i))
        (λ r k. after_read-Balanced s i fd r.0.state r.0 r.1 lt b k))
  | inr e ↦ rw e b
]

pub reader_serve-Balanced :
    (s : System) (i : ℕ) (a : ReaderAnswers)
    → i < s.config.nb_clients
    → IsBalanced s
    → Ensures Unspecified IsBalanced (reader_serve s i a)
unfolding reader_serve
reader_serve-Balanced s i a lt b = elim (Bool-cases (s.internal_to_read i)) [
  | inl e ↦ rw e (serve-Balanced s i a (s.all_clients i).fd lt b)
  | inr e ↦ rw e b
]
