-- ===== src/Slave/Rounds/Serving.antt =====
-- The second loops: what each call leaves, and what a whole `for` loop leaves.
use slg.Base.{
  ℕ, zero, suc, ◌+◌, ◌≤◌, ◌<◌, ◌≡◌, refl, ap, Option, none, some, arith, Bool-cases, inl, inr,
}
use slg.Base.Outcome.{ok, stop, Ensures, Ensures-bind, ◌>>=◌}
use slg.Client.{Client, Stats, State, waiting, reading, writing, connecting, M}
use slg.Client.Lifecycle.{Tolerated}
use slg.Client.Counts.{Unspecified}
use slg.Client.Request.{send_request}
use slg.Client.Receive.{read_response}
use slg.Client.Connect.{initialize_connect_client_to_server, finalize_connect_client_to_server}
use slg.Slave.Writer.{hand_over, build_if_new}
use slg.Slave.{System}
use slg.Slave.ReadSet.{Any, Ensures-Any}
use slg.Slave.Writer
use slg.Slave.Reader
use slg.Slave.Writer.{
  WriterAnswers, writer_serve, write_client, finish_connect, start_connect, after_send,
}
use slg.Slave.Reader.{ReaderAnswers, reader_serve, after_read, release}
use slg.Slave.Invariant.{Inv}
use slg.Slave.Invariant.Steps.{writer_serve-Inv, reader_serve-Inv}
use slg.Slave.Threads.{Kept, Kept-refl, Kept-trans, here, next, writer_serves, reader_serves}
use slg.Slave.Rounds.{serve_from}

-- Two things that hold of a result, with what it is the result of.
pub Ensures-with :
    {A : Type 0} (P Q : A → Type 0) (m : M A)
    → Ensures Tolerated P m
    → Ensures Unspecified Q m
    → Ensures Tolerated (λ a. P a × Q a × (m ≡ ok a)) m
Ensures-with P Q (ok a) p q = (p, q, refl)
Ensures-with P Q (stop f) p q = p

pub Ensures-map :
    {A : Type 0} (P Q : A → Type 0) (m : M A)
    → Ensures Tolerated P m
    → ((a : A) → P a → Q a)
    → Ensures Tolerated Q m
Ensures-map P Q (ok a) p f = f a p
Ensures-map P Q (stop e) p f = p

module _ (s : System) where
  abbrev pub Same : System → Type 0
  Same t = t.config ≡ s.config

  abbrev pub SameOrder : M System → Type 0
  SameOrder m = Ensures Unspecified Same m

  handed :
      {A : Type 0} (m : M A) (f : A → M System) → ((a : A) → SameOrder (f a)) → SameOrder (m >>= f)
  handed m f h = Ensures-bind Unspecified Any Same m f (Ensures-Any m) (λ a x. h a)

  after_send-Same :
      (i fd : ℕ) (st : State) (c : Client) (g : Stats) → SameOrder (after_send s i fd st c g)
  unfolding after_send
  after_send-Same i fd reading c g = handed (hand_over s.to_read_buffer i) _ (λ a. refl)
  after_send-Same i fd waiting c g = tt
  after_send-Same i fd writing c g = tt
  after_send-Same i fd connecting c g = tt

  write_client-Same :
      (i : ℕ) (a : WriterAnswers) (c : Client) (fd : Option ℕ) → SameOrder (write_client s i a c fd)
  unfolding write_client
  write_client-Same i a c none = tt
  write_client-Same i a c (some fd) = elim (Bool-cases (a.ready fd)) [
    | inl r ↦ rw r (
        handed (build_if_new s.config c) _ (λ b.
          handed (send_request a.pending_error a.now a.write_answer b s.stats) _
            (λ x. after_send-Same i fd (x.0.state) (x.0) (x.1))))
    | inr r ↦ rw r refl
  ]

  finish_connect-Same :
      (i : ℕ) (a : WriterAnswers) (c : Client) (fd : Option ℕ)
      → SameOrder (finish_connect s i a c fd)
  unfolding finish_connect
  finish_connect-Same i a c none = tt
  finish_connect-Same i a c (some fd) = elim (Bool-cases (a.ready fd)) [
    | inl r ↦ rw r (
        handed (finalize_connect_client_to_server a.pending_error a.now a.local_port c s.stats) _
          (λ b. refl))
    | inr r ↦ rw r refl
  ]

  start_connect-Same : (i : ℕ) (a : WriterAnswers) (c : Client) → SameOrder (start_connect s i a c)
  unfolding start_connect
  start_connect-Same i a c =
      handed (initialize_connect_client_to_server a.socket_answers a.connect_answer c s.connect_fds)
        _ (λ b. refl)

  write_serve-Same :
      (i : ℕ) (a : WriterAnswers) (c : Client) (st : State) → SameOrder (Writer.serve s i a c st)
  unfolding Writer.serve
  write_serve-Same i a c writing = write_client-Same i a c c.fd
  write_serve-Same i a c reading = refl
  write_serve-Same i a c waiting = refl
  write_serve-Same i a c connecting = elim (Bool-cases c.connect_in_progress) [
    | inl r ↦ unfold Writer.serve in ground (arith, finish_connect-Same i a c c.fd)
    | inr r ↦ unfold Writer.serve in ground (arith, start_connect-Same i a c)
  ]

  pub writer_serve-Same : (i : ℕ) (a : WriterAnswers) → SameOrder (writer_serve s i a)
  writer_serve-Same i a = elim (Bool-cases (s.internal_to_write i)) [
    | inl r ↦
        unfold writer_serve in rw r (write_serve-Same i a (s.all_clients i) (s.all_clients i).state)
    | inr r ↦ unfold writer_serve in rw r refl
  ]

  after_read-Same :
      (i fd : ℕ) (st : State) (c : Client) (g : Stats) → SameOrder (after_read s i fd st c g)
  unfolding after_read release
  after_read-Same i fd reading c g = refl
  after_read-Same i fd waiting c g = refl
  after_read-Same i fd writing c g = handed (hand_over s.to_write_buffer i) _ (λ a. refl)
  after_read-Same i fd connecting c g = handed (hand_over s.to_write_buffer i) _ (λ a. refl)

  read_serve-Same :
      (i : ℕ) (a : ReaderAnswers) (c : Client) (fd : Option ℕ) → SameOrder (Reader.serve s i a c fd)
  unfolding Reader.serve
  read_serve-Same i a c none = tt
  read_serve-Same i a c (some fd) = elim (Bool-cases (a.ready fd)) [
    | inl r ↦ rw r (
        handed (read_response a.read_answer s.config.nb_msg_per_connection a.at_end c s.stats) _
          (λ x. after_read-Same i fd (x.0.state) (x.0) (x.1)))
    | inr r ↦ rw r refl
  ]

  pub reader_serve-Same : (i : ℕ) (a : ReaderAnswers) → SameOrder (reader_serve s i a)
  reader_serve-Same i a = elim (Bool-cases (s.internal_to_read i)) [
    | inl r ↦
        unfold reader_serve in rw r (read_serve-Same i a (s.all_clients i) (s.all_clients i).fd)
    | inr r ↦ unfold reader_serve in rw r refl
  ]

-- A call for one client keeps what every state keeps, if it returns.
abbrev pub KeepsServing {ℓ} : {A : Type ℓ} → (System → ℕ → A → M System) → Type ℓ
KeepsServing {A = A} serve =
    (s : System) (i : ℕ) (a : A)
    → i < s.config.nb_clients
    → Inv s
    → Ensures Tolerated (Kept s) (serve s i a)

pub writer_serve-Kept : KeepsServing writer_serve
writer_serve-Kept s i a lt inv =
    Ensures-map (λ t. Inv t × Same s t × (writer_serve s i a ≡ ok t)) (Kept s) (writer_serve s i a)
      (Ensures-with Inv (Same s) (writer_serve s i a)
        (writer_serve-Inv s i a inv.ws inv.rs lt inv.owned) (writer_serve-Same s i a))
      (λ t h. record { inv = h.0; config = h.1; reached = next here (writer_serves i a lt h.2) })

pub reader_serve-Kept : KeepsServing reader_serve
reader_serve-Kept s i a lt inv =
    Ensures-map (λ t. Inv t × Same s t × (reader_serve s i a ≡ ok t)) (Kept s) (reader_serve s i a)
      (Ensures-with Inv (Same s) (reader_serve s i a)
        (reader_serve-Inv s i a inv.ws inv.rs lt inv.owned) (reader_serve-Same s i a))
      (λ t h. record { inv = h.0; config = h.1; reached = next here (reader_serves i a lt h.2) })

module _ {ℓ} {A : Type ℓ} (serve : System → ℕ → A → M System) (keeps : KeepsServing serve)
    (answers : ℕ → A) where
  pub serve_from-Kept :
      (k i : ℕ) (s : System)
      → i + k ≤ s.config.nb_clients
      → Inv s
      → Ensures Tolerated (Kept s) (serve_from serve answers i k s)
  unfolding serve_from
  serve_from-Kept zero i s le inv = Kept-refl inv
  serve_from-Kept (suc k) i s le inv =
      Ensures-bind Tolerated (Kept s) (Kept s) (serve s i (answers i)) _
        (keeps s i (answers i) (omega arith) inv)
        (λ t kept.
          Ensures-map (Kept t) (Kept s) _
            (serve_from-Kept k (i + 1) t (omega (arith, ap (λ c. c.nb_clients) kept.config))
              kept.inv)
            (λ u. Kept-trans kept))
