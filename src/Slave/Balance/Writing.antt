-- ===== src/Slave/Balance/Writing.antt =====
-- The rounds of `writingFunc` keep the counts in balance.
use slg.Base.{ℕ, ◌<◌, Option, none, some, Bool, arith, refl, Bool-cases, inl, inr}
use slg.Base.Outcome.{Ensures, Ensures-bind}
use slg.FdSet.{FdSet}
use slg.Circular.{CircularBuffer, get_circ}
use slg.Client.{Client, Stats, State, waiting, reading, writing, connecting}
use slg.Client.Request.{send_request}
use slg.Client.Connect.{initialize_connect_client_to_server, finalize_connect_client_to_server}
use slg.Client.Counts.{
  Unspecified, Countable, Counts, Counts-trans, build_http_request-Counts, send_request-Counts,
  finalize-Counts, initialize-Counts,
}
use slg.Slave.{Config, System, Taken, nothing, client, outside, taken_index, in_memory}
use slg.Slave.ReadSet.{Any, Ensures-Any}
use slg.Slave.Writer
use slg.Slave.Writer.{WriterAnswers, writer_take, writer_serve, hand_over, build_if_new}
use slg.Slave.Balance.{IsBalanced, Balanced-update}

abbrev Taking : System × Bool → Type 0
Taking r = IsBalanced r.0

after_take-Balanced :
    (s : System) (ring : CircularBuffer) (t : Taken)
    → IsBalanced s
    → Ensures Unspecified Taking (Writer.after_take s ring t)
unfolding Writer.after_take
after_take-Balanced s ring nothing b = b
after_take-Balanced s ring outside b = tt
after_take-Balanced s ring (client i) b = b

pub writer_take-Balanced : (s : System) → IsBalanced s → Ensures Unspecified Taking (writer_take s)
unfolding writer_take
writer_take-Balanced s b =
    let m = in_memory (get_circ s.to_write_buffer) in
    Ensures-bind Unspecified Any Taking m _ (Ensures-Any m)
      (λ r u. after_take-Balanced s r.1 (taken_index s.config.nb_clients r.0) b)

build_if_new-Counts :
    (f : Config) (c : Client) (g : Stats)
    → Countable c
    → Ensures Unspecified (λ (c' : Client). Counts c g c' g) (build_if_new f c)
unfolding build_if_new
build_if_new-Counts f c g h = elim (Bool-cases c.new_request) [
  | inl e ↦ simp e (build_http_request-Counts f.file f.host c g h)
  | inr e ↦ simp e (record {
    countable = h;
    untouched = refl;
    responses = omega arith;
    connections = omega arith;
  })
]

module _ (s : System) (i : ℕ) (lt : i < s.config.nb_clients) (b : IsBalanced s) where
  after_send-Balanced :
      (fd : ℕ) (st : State) (c : Client) (g : Stats)
      → Counts (s.all_clients i) s.stats c g
      → Ensures Unspecified IsBalanced (Writer.after_send s i fd st c g)
  unfolding Writer.after_send
  after_send-Balanced fd reading c g k =
      let m = hand_over s.to_read_buffer i in
      Ensures-bind Unspecified Any IsBalanced m _ (Ensures-Any m)
        (λ r u. (b.0, Balanced-update s.config.nb_clients i s.all_clients s.stats c g lt b.1 k))
  after_send-Balanced fd waiting c g k = tt
  after_send-Balanced fd writing c g k = tt
  after_send-Balanced fd connecting c g k = tt

  write_client-Balanced :
      (a : WriterAnswers) (fd : Option ℕ)
      → Ensures Unspecified IsBalanced (Writer.write_client s i a (s.all_clients i) fd)
  unfolding Writer.write_client
  write_client-Balanced a none = tt
  write_client-Balanced a (some fd) = elim (Bool-cases (a.ready fd)) [
    | inl e ↦ rw e (
        let c = s.all_clients i in
        let m = build_if_new s.config c in
        Ensures-bind Unspecified (λ (d : Client). Counts c s.stats d s.stats) IsBalanced m _
          (build_if_new-Counts s.config c s.stats (b.1.countable i))
          (λ d k.
            let n = send_request a.pending_error a.now a.write_answer d s.stats in
            Ensures-bind Unspecified (λ (r : Client × Stats). Counts d s.stats r.0 r.1) IsBalanced n
              _ (send_request-Counts a.pending_error a.now a.write_answer d s.stats k.countable)
              (λ r l. after_send-Balanced fd r.0.state r.0 r.1 (Counts-trans k l))))
    | inr e ↦ rw e b
  ]

  finish_connect-Balanced :
      (a : WriterAnswers) (fd : Option ℕ)
      → Ensures Unspecified IsBalanced (Writer.finish_connect s i a (s.all_clients i) fd)
  unfolding Writer.finish_connect
  finish_connect-Balanced a none = tt
  finish_connect-Balanced a (some fd) = elim (Bool-cases (a.ready fd)) [
    | inl e ↦ rw e (
        let c = s.all_clients i in
        let m = finalize_connect_client_to_server a.pending_error a.now a.local_port c s.stats in
        Ensures-bind Unspecified (λ (r : Client × Stats). Counts c s.stats r.0 r.1) IsBalanced m _
          (finalize-Counts a.pending_error a.now a.local_port c s.stats (b.1.countable i))
          (λ r k.
            (b.0, Balanced-update s.config.nb_clients i s.all_clients s.stats r.0 r.1 lt b.1 k)))
    | inr e ↦ rw e b
  ]

  start_connect-Balanced :
      (a : WriterAnswers)
      → Ensures Unspecified IsBalanced (Writer.start_connect s i a (s.all_clients i))
  unfolding Writer.start_connect
  start_connect-Balanced a =
      let c = s.all_clients i in
      let m =
        initialize_connect_client_to_server a.socket_answers a.connect_answer c s.connect_fds in
      Ensures-bind Unspecified (λ (r : Client × FdSet). Counts c s.stats r.0 s.stats) IsBalanced m _
        (initialize-Counts a.socket_answers a.connect_answer c s.connect_fds s.stats
          (b.1.countable i))
        (λ r k.
          (b.0, Balanced-update s.config.nb_clients i s.all_clients s.stats r.0 s.stats lt b.1 k))

  serve-Balanced :
      (a : WriterAnswers) (st : State)
      → Ensures Unspecified IsBalanced (Writer.serve s i a (s.all_clients i) st)
  unfolding Writer.serve
  serve-Balanced a writing = write_client-Balanced a (s.all_clients i).fd
  serve-Balanced a connecting = elim (Bool-cases (s.all_clients i).connect_in_progress) [
    | inl e ↦ simp e (finish_connect-Balanced a (s.all_clients i).fd)
    | inr e ↦ simp e (start_connect-Balanced a)
  ]
  serve-Balanced a reading = b
  serve-Balanced a waiting = b

  pub writer_serve-Balanced :
      (a : WriterAnswers) → Ensures Unspecified IsBalanced (writer_serve s i a)
  unfolding writer_serve
  writer_serve-Balanced a = elim (Bool-cases (s.internal_to_write i)) [
    | inl e ↦ rw e (serve-Balanced a (s.all_clients i).state)
    | inr e ↦ rw e b
  ]
