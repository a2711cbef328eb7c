-- ===== src/Slave/ReadSet/Reading.antt =====
-- The rounds of `readingFunc` keep `maxFd` above the descriptors watched.
use slg.Base.{ℕ, Option, none, some, Bool, Bool-cases, Option-cases, inl, inr}
use slg.Base.Outcome.{Ensures, Ensures-bind}
use slg.Circular.{CircularBuffer, get_circ}
use slg.Client.Receive.{read_response}
use slg.Client.{Client, Stats, State, waiting, reading, writing, connecting}
use slg.Slave.{System, Taken, nothing, client, outside, taken_index, in_memory}
use slg.Slave.Writer.{hand_over}
use slg.Slave.Reader
use slg.Slave.Reader.{ReaderAnswers, reader_take, reader_serve, release, after_read, raise, lower}
use slg.Client.Counts.{Unspecified}
use slg.Slave.ReadSet.{Covers, Any, Ensures-Any, raise-Bounds, lower-Bounds}

after_take-Covers :
    (s : System) (ring : CircularBuffer) (t : Taken)
    → Covers s
    → Ensures Unspecified (λ (r : System × Bool). Covers r.0) (Reader.after_take s ring t)
unfolding Reader.after_take Reader.take_client
after_take-Covers s ring nothing b = b
after_take-Covers s ring outside b = tt
after_take-Covers s ring (client i) b = elim (Option-cases (s.all_clients i).fd) [
  | inl e ↦ rw e tt
  | inr (fd, e) ↦ rw e (raise-Bounds s.master_read_set s.max_fd fd b)
]

pub reader_take-Covers :
    (s : System)
    → Covers s
    → Ensures Unspecified (λ (r : System × Bool). Covers r.0) (reader_take s)
unfolding reader_take
reader_take-Covers s b =
    Ensures-bind Unspecified Any (λ (r : System × Bool). Covers r.0)
      (in_memory (get_circ s.to_read_buffer)) _
      (Ensures-Any (in_memory (get_circ s.to_read_buffer)))
      (λ r u. after_take-Covers s r.1 (taken_index s.config.nb_clients r.0) b)

after_read-Covers :
    (s : System) (i fd : ℕ) (st : State) (c : Client) (g : Stats)
    → Covers s
    → Ensures Unspecified Covers (after_read s i fd st c g)
unfolding after_read release
after_read-Covers s i fd reading c g b = b
after_read-Covers s i fd waiting c g b = lower-Bounds s.master_read_set s.max_fd fd b
after_read-Covers s i fd writing c g b =
    Ensures-bind Unspecified Any Covers (hand_over s.to_write_buffer i) _
      (Ensures-Any (hand_over s.to_write_buffer i))
      (λ r u. lower-Bounds s.master_read_set s.max_fd fd b)
after_read-Covers s i fd connecting c g b =
    Ensures-bind Unspecified Any Covers (hand_over s.to_write_buffer i) _
      (Ensures-Any (hand_over s.to_write_buffer i))
      (λ r u. lower-Bounds s.master_read_set s.max_fd fd b)

serve-Covers :
    (s : System) (i : ℕ) (a : ReaderAnswers) (c : Client) (fd : Option ℕ)
    → Covers s
    → Ensures Unspecified Covers (Reader.serve s i a c fd)
unfolding Reader.serve
serve-Covers s i a c none b = tt
serve-Covers s i a c (some fd) b = elim (Bool-cases (a.ready fd)) [
  | inl e ↦ rw e (
      let m = read_response a.read_answer s.config.nb_msg_per_connection a.at_end c s.stats in
      Ensures-bind Unspecified Any Covers m _ (Ensures-Any m)
        (λ r u. after_read-Covers s i fd r.0.state r.0 r.1 b))
  | inr e ↦ rw e b
]

pub reader_serve-Covers :
    (s : System) (i : ℕ) (a : ReaderAnswers)
    → Covers s
    → Ensures Unspecified Covers (reader_serve s i a)
unfolding reader_serve
reader_serve-Covers s i a b = elim (Bool-cases (s.internal_to_read i)) [
  | inl e ↦ rw e (serve-Covers s i a (s.all_clients i) (s.all_clients i).fd b)
  | inr e ↦ rw e b
]
