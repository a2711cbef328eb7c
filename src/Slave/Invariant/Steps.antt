-- ===== src/Slave/Invariant/Steps.antt =====
-- Each round of a thread keeps the ownership, and ends in no fault of the protocol.
use slg.Base.{
  ℕ, ◌<◌, ◌≡◌, ◌≢◌, refl, ◌⊎◌, inl, inr, List, [], ◌∷◌, ◌++◌, Option, none, some, Bool, true, false,
  arith, Bool-cases, Option-cases, lt→ltb, ◌∙◌, count-cons,
}
use slg.Base.Update.{update}
use slg.Base.Outcome.{◌>>=◌, Ensures, Ensures-bind}
use slg.Client.{Client, Stats, State, waiting, reading, writing, connecting, M}
use slg.Client.Lifecycle.{
  IsLive, Tolerated, AfterReading, AfterWriting, AfterConnecting, read_response_live,
  build_http_request_live, send_request_live, finalize_live, initialize-IsLive,
}
use slg.FdSet.{FdSet}
use slg.Client.Request.{send_request}
use slg.Slave.{System}
use slg.Slave.Queues.{get_circ-Takes, hand_over-Queues}
use slg.Slave.Writer.{
  WriterAnswers, writer_take, writer_serve, build_if_new, after_send, serve, write_client,
  finish_connect, start_connect,
}
use slg.Slave.Reader
use slg.Slave.Reader.{ReaderAnswers, reader_take, reader_serve, release, after_read}
use slg.Slave.Invariant.{Owned, Inv, FitsWriter, FitsReader}
use slg.Slave.Invariant.Moves.{
  writer_has-Owned, reader_has-Owned, room_to_read, room_to_write, writer_keeps-Owned,
  writer_gives-Owned, reader_keeps-Owned, reader_gives-Owned,
}

abbrev pub Keeps : M System → Type 0
Keeps m = Ensures Tolerated Inv m

abbrev pub KeepsTake : M (System × Bool) → Type 0
KeepsTake m = Ensures Tolerated (λ (r : System × Bool). Inv r.0) m

pub writer_take-Inv : (s : System) (ws rs : List ℕ) → Owned s ws rs → KeepsTake (writer_take s)
unfolding writer_take
writer_take-Inv s [] rs o =
    let (r, e, t) = get_circ-Takes s.config.nb_clients [] s.to_write_buffer o.write_queue in
    rw (e, t.0) (record { ws = []; rs = rs; owned = o })
writer_take-Inv s (i ∷ ws) rs o =
    let (r, e, t) = get_circ-Takes s.config.nb_clients (i ∷ ws) s.to_write_buffer o.write_queue in
    rw (e, t.0, lt→ltb i s.config.nb_clients o.write_below.0)
      (record { ws = ws; rs = rs; owned = writer_has-Owned s i ws rs r.1 o t.1 })

connected_fits : (c c' : Client) (fd : ℕ) → c.fd ≡ some fd → AfterConnecting c c' → FitsWriter c'
connected_fits c c' fd h live = ground arith

-- A client in ST_READING has a descriptor.
pub fd_of_reader :
    (c : Client) → FitsReader c → (fd : ℕ) × (c.fd ≡ some fd) × (c.connect_in_progress ≡ false)
fd_of_reader c f = elim (Option-cases c.fd) [
  | inl e ↦ ground arith
  | inr (fd, e) ↦ (fd, e, ground arith)
]

pub reader_take-Inv : (s : System) (ws rs : List ℕ) → Owned s ws rs → KeepsTake (reader_take s)
unfolding reader_take
reader_take-Inv s ws [] o =
    let (r, e, t) = get_circ-Takes s.config.nb_clients [] s.to_read_buffer o.read_queue in
    rw (e, t.0) (record { ws = ws; rs = []; owned = o })
reader_take-Inv s ws (i ∷ rs) o =
    let (r, e, t) = get_circ-Takes s.config.nb_clients (i ∷ rs) s.to_read_buffer o.read_queue in
    let (fd, h, _) = fd_of_reader (s.all_clients i) (
      o.with_reader i o.read_below.0
        (ground (arith, o.once i o.read_below.0, count-cons i i rs))) in
    rw (e, t.0, lt→ltb i s.config.nb_clients o.read_below.0, h)
      (record { ws = ws; rs = rs; owned = reader_has-Owned s i fd ws rs r.1 o t.1 })

module _ (s : System) (i : ℕ) (ws rs : List ℕ) (lt : i < s.config.nb_clients) (o : Owned s ws rs)
    (e : s.internal_to_write i ≡ true) where
  sent-Inv :
      (fd : ℕ) (c : Client) (g : Stats) (st : State)
      → c.state ≡ st
      → c.fd ≡ some fd
      → c.connect_in_progress ≡ false
      → Keeps (after_send s i fd st c g)
  unfolding after_send
  sent-Inv fd c g reading r h p =
      let (ring, put, q) =
        hand_over-Queues s.config.nb_clients i rs s.to_read_buffer o.read_queue
          (room_to_read s i ws rs lt o e) in
      rw put (record {
        ws = ws;
        rs = rs ++ (i ∷ []);
        owned = writer_gives-Owned s i ws rs lt o c g _ ring e (ground arith) q;
      })
  sent-Inv fd c g waiting r h p = tt
  sent-Inv fd c g writing r h p = tt
  sent-Inv fd c g connecting r h p = tt

  build_live :
      (c : Client)
      → Ensures Tolerated
          (λ (c' : Client).
            (c'.connect_in_progress ≡ c.connect_in_progress)
            × (c'.fd ≡ c.fd)
            × (c'.state ≡ c.state))
          (build_if_new s.config c)
  unfolding build_if_new
  build_live c = ground (arith, build_http_request_live s.config.file s.config.host c)

  writing-Inv :
      (a : WriterAnswers) (fd : ℕ) (c : Client)
      → c.state ≡ writing
      → c.fd ≡ some fd
      → c.connect_in_progress ≡ false
      → Keeps (
          build_if_new s.config c >>= (λ b.
            send_request a.pending_error a.now a.write_answer b s.stats
            >>= (λ (c', g). after_send s i fd c'.state c' g)))
  writing-Inv a fd c w h p =
      Ensures-bind Tolerated _ Inv (build_if_new s.config c) _ (build_live c) (λ b live.
        Ensures-bind Tolerated (λ (x : Client × Stats). AfterWriting b x.0) Inv
          (send_request a.pending_error a.now a.write_answer b s.stats) _
          (send_request_live a.pending_error a.now a.write_answer b s.stats (live.2 ∙ w))
          (λ (c', g) live'.
            sent-Inv fd c' g c'.state refl (live'.1 ∙ live.1 ∙ h) (live'.0 ∙ live.0 ∙ p)))

  keeps :
      (c : Client) (g : Stats) (fds : FdSet)
      → FitsWriter c
      → Inv (record s { stats = g; all_clients = update s.all_clients i c; connect_fds = fds })
  keeps c g fds fits = record {
    ws = ws;
    rs = rs;
    owned = writer_keeps-Owned s i ws rs lt o c g fds e fits;
  }

  same : Inv s
  same = record { ws = ws; rs = rs; owned = o }

  write_client-Inv :
      (a : WriterAnswers) (c : Client) (fd : Option ℕ)
      → c.fd ≡ fd
      → FitsWriter c
      → c.state ≡ writing
      → Keeps (write_client s i a c fd)
  unfolding write_client
  write_client-Inv a c none h f w = ground arith
  write_client-Inv a c (some fd) h f w = elim (Bool-cases (a.ready fd)) [
    | inl r ↦ rw r (writing-Inv a fd c w h (ground arith))
    | inr r ↦ rw r same
  ]

  finish_connect-Inv :
      (a : WriterAnswers) (c : Client) (fd : Option ℕ)
      → c.fd ≡ fd
      → FitsWriter c
      → c.state ≡ connecting
      → c.connect_in_progress ≡ true
      → Keeps (finish_connect s i a c fd)
  unfolding finish_connect
  finish_connect-Inv a c none h f w p = ground arith
  finish_connect-Inv a c (some fd) h f w p = elim (Bool-cases (a.ready fd)) [
    | inl r ↦ rw r (
        Ensures-bind Tolerated (λ (x : Client × Stats). AfterConnecting c x.0) Inv _ _
          (finalize_live a.pending_error a.now a.local_port c s.stats w)
          (λ (c', g) live. keeps c' g s.connect_fds (connected_fits c c' fd h live)))
    | inr r ↦ rw r same
  ]

  start_connect-Inv :
      (a : WriterAnswers) (c : Client) → c.state ≡ connecting → Keeps (start_connect s i a c)
  unfolding start_connect
  start_connect-Inv a c w =
      Ensures-bind Tolerated (λ (x : Client × FdSet). (x.0.state ≡ connecting) × IsLive x.0) Inv _ _
        (initialize-IsLive a.socket_answers a.connect_answer c s.connect_fds w)
        (λ (c', fds) live. keeps c' s.stats fds (live.1, inl live.0))

  serve-Inv :
      (a : WriterAnswers) (c : Client) (st : State)
      → c.state ≡ st
      → FitsWriter c
      → Keeps (serve s i a c st)
  unfolding serve
  serve-Inv a c writing w f = write_client-Inv a c c.fd refl f w
  serve-Inv a c reading w f = same
  serve-Inv a c waiting w f = same
  serve-Inv a c connecting w f = elim (Bool-cases c.connect_in_progress) [
    | inl p ↦ unfold serve in ground (arith, finish_connect-Inv a c c.fd refl f w p)
    | inr p ↦ unfold serve in ground (arith, start_connect-Inv a c w)
  ]

-- What the writing thread does for a client keeps the ownership, and ends in no fault of the protocol.
pub writer_serve-Inv :
    (s : System) (i : ℕ) (a : WriterAnswers) (ws rs : List ℕ)
    → i < s.config.nb_clients
    → Owned s ws rs
    → Keeps (writer_serve s i a)
writer_serve-Inv s i a ws rs lt o = elim (Bool-cases (s.internal_to_write i)) [
  | inl e ↦
      unfold writer_serve in
      rw e (
        serve-Inv s i ws rs lt o e a (s.all_clients i) (s.all_clients i).state refl
          (o.with_writer i lt (ground (arith, o.once i lt))))
  | inr e ↦ unfold writer_serve in rw e (record { ws = ws; rs = rs; owned = o })
]

released_fits :
    (c c' : Client) (fd : ℕ) (st : State)
    → c.fd ≡ some fd
    → c'.state ≡ st
    → AfterReading c c'
    → ((st ≡ reading) × FitsReader c') ⊎ ((st ≢ reading) × (st ≢ waiting) × FitsWriter c')
released_fits c c' fd st h w live = ground arith

module _ (s : System) (i : ℕ) (ws rs : List ℕ) (lt : i < s.config.nb_clients) (o : Owned s ws rs)
    (e : s.internal_to_read i ≡ true) where
  released-Inv : (fd : ℕ) (c : Client) (g : Stats) → FitsWriter c → Keeps (release s i fd c g)
  unfolding release
  released-Inv fd c g f =
      let (ring, put, q) =
        hand_over-Queues s.config.nb_clients i ws s.to_write_buffer o.write_queue
          (room_to_write s i ws rs lt o e) in
      rw put (record {
        ws = ws ++ (i ∷ []);
        rs = rs;
        owned = reader_gives-Owned s i ws rs lt o c g _ _ ring e f q;
      })

  after_read-Inv :
      (fd : ℕ) (c : Client) (g : Stats) (st : State)
      → ((st ≡ reading) × FitsReader c) ⊎ ((st ≢ reading) × (st ≢ waiting) × FitsWriter c)
      → Keeps (after_read s i fd st c g)
  unfolding after_read
  after_read-Inv fd c g reading f = record {
    ws = ws;
    rs = rs;
    owned = reader_keeps-Owned s i ws rs lt o c g e (ground arith);
  }
  after_read-Inv fd c g waiting f = ground arith
  after_read-Inv fd c g writing f = released-Inv fd c g (ground arith)
  after_read-Inv fd c g connecting f = released-Inv fd c g (ground arith)

  read_serve-Inv :
      (a : ReaderAnswers) (c : Client) (fd : Option ℕ)
      → c.fd ≡ fd
      → FitsReader c
      → Keeps (Reader.serve s i a c fd)
  unfolding Reader.serve
  read_serve-Inv a c none h f = ground arith
  read_serve-Inv a c (some fd) h f = elim (Bool-cases (a.ready fd)) [
    | inl r ↦ rw r (
        Ensures-bind Tolerated (λ (x : Client × Stats). AfterReading c x.0) Inv _ _
          (read_response_live a.read_answer s.config.nb_msg_per_connection a.at_end c s.stats f.1
            (ground arith))
          (λ (c', g) live.
            after_read-Inv fd c' g c'.state (released_fits c c' fd c'.state h refl live)))
    | inr r ↦ rw r (record { ws = ws; rs = rs; owned = o })
  ]

-- What the reading thread does for a client keeps the ownership, and ends in no fault of the protocol.
pub reader_serve-Inv :
    (s : System) (i : ℕ) (a : ReaderAnswers) (ws rs : List ℕ)
    → i < s.config.nb_clients
    → Owned s ws rs
    → Keeps (reader_serve s i a)
reader_serve-Inv s i a ws rs lt o = elim (Bool-cases (s.internal_to_read i)) [
  | inl e ↦
      unfold reader_serve in
      rw e (
        read_serve-Inv s i ws rs lt o e a (s.all_clients i) (s.all_clients i).fd refl
          (o.with_reader i lt (ground (arith, o.once i lt))))
  | inr e ↦ unfold reader_serve in rw e (record { ws = ws; rs = rs; owned = o })
]
