-- ===== src/Slave/ReadSet/Writing.antt =====
-- The rounds of `writingFunc` leave `maxFd` above the descriptors watched.
use slg.Base.{ℕ, Option, none, some, Bool, Bool-cases, inl, inr}
use slg.Base.Outcome.{Ensures, Ensures-bind}
use slg.Circular.{CircularBuffer, get_circ}
use slg.Client.{Client, Stats, State, waiting, reading, writing, connecting}
use slg.Slave.{System, Taken, nothing, client, outside, taken_index, in_memory}
use slg.Slave.Writer.{WriterAnswers, writer_take, writer_serve, build_if_new, hand_over}
use slg.Slave.Writer
use slg.Client.Request.{send_request}
use slg.Client.Connect.{finalize_connect_client_to_server, initialize_connect_client_to_server}
use slg.Client.Counts.{Unspecified}
use slg.Slave.ReadSet.{Covers, Any, Ensures-Any}

writer_after_take-Covers :
    (s : System) (ring : CircularBuffer) (t : Taken)
    → Covers s
    → Ensures Unspecified (λ (r : System × Bool). Covers r.0) (Writer.after_take s ring t)
unfolding Writer.after_take
writer_after_take-Covers s ring nothing b = b
writer_after_take-Covers s ring outside b = tt
writer_after_take-Covers s ring (client i) b = b

pub writer_take-Covers :
    (s : System)
    → Covers s
    → Ensures Unspecified (λ (r : System × Bool). Covers r.0) (writer_take s)
unfolding writer_take
writer_take-Covers s b =
    let m = in_memory (get_circ s.to_write_buffer) in
    Ensures-bind Unspecified Any (λ (r : System × Bool). Covers r.0) m _ (Ensures-Any m)
      (λ r u. writer_after_take-Covers s r.1 (taken_index s.config.nb_clients r.0) b)

after_send-Covers :
    (s : System) (i fd : ℕ) (st : State) (c : Client) (g : Stats)
    → Covers s
    → Ensures Unspecified Covers (Writer.after_send s i fd st c g)
unfolding Writer.after_send
after_send-Covers s i fd reading c g b =
    let m = hand_over s.to_read_buffer i in
    Ensures-bind Unspecified Any Covers m _ (Ensures-Any m) (λ r u. b)
after_send-Covers s i fd waiting c g b = tt
after_send-Covers s i fd writing c g b = tt
after_send-Covers s i fd connecting c g b = tt

write_client-Covers :
    (s : System) (i : ℕ) (a : WriterAnswers) (c : Client) (fd : Option ℕ)
    → Covers s
    → Ensures Unspecified Covers (Writer.write_client s i a c fd)
unfolding Writer.write_client
write_client-Covers s i a c none b = tt
write_client-Covers s i a c (some fd) b = elim (Bool-cases (a.ready fd)) [
  | inl e ↦ rw e (
      let m = build_if_new s.config c in
      Ensures-bind Unspecified Any Covers m _ (Ensures-Any m) (λ d u.
        let n = send_request a.pending_error a.now a.write_answer d s.stats in
        Ensures-bind Unspecified Any Covers n _ (Ensures-Any n)
          (λ r v. after_send-Covers s i fd r.0.state r.0 r.1 b)))
  | inr e ↦ rw e b
]

finish_connect-Covers :
    (s : System) (i : ℕ) (a : WriterAnswers) (c : Client) (fd : Option ℕ)
    → Covers s
    → Ensures Unspecified Covers (Writer.finish_connect s i a c fd)
unfolding Writer.finish_connect
finish_connect-Covers s i a c none b = tt
finish_connect-Covers s i a c (some fd) b = elim (Bool-cases (a.ready fd)) [
  | inl e ↦ rw e (
      let m = finalize_connect_client_to_server a.pending_error a.now a.local_port c s.stats in
      Ensures-bind Unspecified Any Covers m _ (Ensures-Any m) (λ r u. b))
  | inr e ↦ rw e b
]

start_connect-Covers :
    (s : System) (i : ℕ) (a : WriterAnswers) (c : Client)
    → Covers s
    → Ensures Unspecified Covers (Writer.start_connect s i a c)
unfolding Writer.start_connect
start_connect-Covers s i a c b =
    let m = initialize_connect_client_to_server a.socket_answers a.connect_answer c s.connect_fds in
    Ensures-bind Unspecified Any Covers m _ (Ensures-Any m) (λ r u. b)

writer_client-Covers :
    (s : System) (i : ℕ) (a : WriterAnswers) (c : Client) (st : State)
    → Covers s
    → Ensures Unspecified Covers (Writer.serve s i a c st)
unfolding Writer.serve
writer_client-Covers s i a c writing b = write_client-Covers s i a c c.fd b
writer_client-Covers s i a c connecting b = elim (Bool-cases c.connect_in_progress) [
  | inl e ↦ simp e (finish_connect-Covers s i a c c.fd b)
  | inr e ↦ simp e (start_connect-Covers s i a c b)
]
writer_client-Covers s i a c reading b = b
writer_client-Covers s i a c waiting b = b

pub writer_serve-Covers :
    (s : System) (i : ℕ) (a : WriterAnswers)
    → Covers s
    → Ensures Unspecified Covers (writer_serve s i a)
unfolding writer_serve
writer_serve-Covers s i a b = elim (Bool-cases (s.internal_to_write i)) [
  | inl e ↦ rw e (writer_client-Covers s i a (s.all_clients i) (s.all_clients i).state b)
  | inr e ↦ rw e b
]
