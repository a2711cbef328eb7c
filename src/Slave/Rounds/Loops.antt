-- ===== src/Slave/Rounds/Loops.antt =====
-- The two threads as whole loops: every round that ends keeps the invariant, and the loops end once the
-- clock says so.
use mathlib.Core.Path.{subst}
use slg.Base.{
  true, sym, ◌++◌, ◌<◌, ℕ, ◌+◌, ◌≤◌, ◌≡◌, refl, List, [], ◌∷◌, Option, none, some, false, arith,
  Bool-cases, inl, inr, ltb,
}
use slg.Base.Word.{sub64}
use slg.Base.Outcome.{ok, stop, ◌>>=◌, Ensures, Ensures-bind}
use slg.Client.{M}
use slg.Client.Lifecycle.{Tolerated}
use slg.Slave.{System}
use slg.Slave.Writer.{WriterAnswers, writer_serve}
use slg.Slave.Reader.{ReaderAnswers, reader_serve}
use slg.Slave.Invariant.{Inv}
use slg.Slave.Rounds.{
  Running, Round, serve_from, write_round, read_round, read_selected, thread_loop, writing_func,
  reading_func,
}
use slg.Slave.Rounds.Filling.{fill-ends}
use slg.Slave.Threads.{Kept, Kept-refl, Kept-trans}
use slg.Slave.Rounds.Serving.{serve_from-Kept, writer_serve-Kept, reader_serve-Kept, Ensures-map}

-- A round leaves what the threads reach, with its filling loop ended.
abbrev pub Done : System → Running → Type 0
Done s r = Kept s r.0 × (r.1 ≡ false)

write_round-Done :
    (a : Round WriterAnswers) (s : System)
    → Inv s
    → Ensures Tolerated (Done s) (write_round (s.config.nb_clients + 1) a s)
unfolding write_round
write_round-Done a s i =
    let (t, e, kept, o) = (fill-ends s i.ws i.rs i.owned).0 in
    rw e (
      Ensures-bind Tolerated (Kept t) (Done s)
        (serve_from writer_serve a.answers 0 t.config.nb_clients t) _
        (serve_from-Kept writer_serve writer_serve-Kept a.answers t.config.nb_clients 0 t
          (omega arith) kept.inv)
        (λ u k. (Kept-trans kept k, refl)))

read_selected-Done :
    (a : Round ReaderAnswers) (t : System) (max : Option ℕ)
    → Inv t
    → Ensures Tolerated (Done t) (read_selected a t max)
unfolding read_selected
read_selected-Done a t none i = (Kept-refl i, refl)
read_selected-Done a t (some m) i = elim (Bool-cases a.select_fails) [
  | inl r ↦ rw r tt
  | inr r ↦ rw r (
      Ensures-bind Tolerated (Kept t) (Done t)
        (serve_from reader_serve a.answers 0 t.config.nb_clients t) _
        (serve_from-Kept reader_serve reader_serve-Kept a.answers t.config.nb_clients 0 t
          (omega arith) i)
        (λ u k. (k, refl)))
]

read_round-Done :
    (a : Round ReaderAnswers) (s : System)
    → Inv s
    → Ensures Tolerated (Done s) (read_round (s.config.nb_clients + 1) a s)
unfolding read_round
read_round-Done a s i =
    let (t, e, kept, o) = (fill-ends s i.ws i.rs i.owned).1 in
    rw e (
      Ensures-map (Done t) (Done s) (read_selected a t t.max_fd)
        (read_selected-Done a t t.max_fd kept.inv) (λ r d. (Kept-trans kept d.0, d.1)))

-- These rounds end before the duration is over.
abbrev pub Early {ℓ} : {A : Type ℓ} → ℕ → ℕ → List (Round A) → Type 0
Early start duration [] = Unit {0}
Early start duration (a ∷ rest) =
    (sub64 a.current_time_cycles start < duration) × Early start duration rest

-- All rounds, one after another, whatever the clock says.
abbrev pub all_rounds {ℓ} :
    {A : Type ℓ} → (Round A → System → M Running) → List (Round A) → System → M Running
all_rounds round [] s = ok (s, false)
all_rounds round (a ∷ rest) s = round a s >>= (λ r. all_rounds round rest r.0)

module _ {ℓ} {A : Type ℓ} (round : Round A → System → M Running)
    (h : (a : Round A) (s : System) → Inv s → Ensures Tolerated (Done s) (round a s))
    (start duration : ℕ) where
  all_rounds-Done :
      (rounds : List (Round A)) (s : System)
      → Inv s
      → Ensures Tolerated (Done s) (all_rounds round rounds s)
  all_rounds-Done [] s i = (Kept-refl i, refl)
  all_rounds-Done (a ∷ rest) s i =
      Ensures-bind Tolerated (Done s) (Done s) (round a s) _ (h a s i) (λ (t, running) d.
        Ensures-map (Done t) (Done s) (all_rounds round rest t) (all_rounds-Done rest t (d.0.inv))
          (λ u k. (Kept-trans d.0 k.0, k.1)))

  -- A round that leaves its filling loop ended, before what the loop does next.
  after_round :
      (s : System) (m : M Running) (f g : Running → M Running)
      → Ensures Tolerated (Done s) m
      → ((t : System) → Inv t → f (t, false) ≡ g (t, false))
      → (m >>= f) ≡ (m >>= g)
  after_round s (stop e) f g d same = refl
  after_round s (ok (t, running)) f g d same = rw (d.1) (same t (d.0.inv))

  thread_loop-all_rounds :
      (early : List (Round A)) (last : Round A) (later : List (Round A)) (s : System)
      → Inv s
      → Early start duration early
      → duration ≤ sub64 last.current_time_cycles start
      → thread_loop round start duration (early ++ last ∷ later) s
        ≡ all_rounds round (early ++ last ∷ []) s
  unfolding thread_loop
  thread_loop-all_rounds [] last later s i e up =
      after_round s (round last s) _ _ (h last s i) (λ t j.
        let over : ltb (sub64 last.current_time_cycles start) duration ≡ false = ground arith in
        rw over refl)
  thread_loop-all_rounds (a ∷ early) last later s i (e, es) up =
      after_round s (round a s) _ _ (h a s i) (λ t j.
        let on : ltb (sub64 a.current_time_cycles start) duration ≡ true = ground arith in
        rw on (thread_loop-all_rounds early last later t j es up))

-- From any state in which each client has one owner, either thread that runs alone goes through the
-- rounds that end before the clock is `duration` past the start and through the first one that ends
-- then, does nothing after it, and ends: it does what these rounds do one after another, whatever the
-- system calls answer. It returns, each client still has one owner, and all states in between are ones
-- that the threads reach; or the process stops, for none of the reasons that the protocol rules out.
pub threads_end :
    (start duration : ℕ) (writes : List (Round WriterAnswers)) (last_write : Round WriterAnswers)
    (more_writes : List (Round WriterAnswers)) (reads : List (Round ReaderAnswers))
    (last_read : Round ReaderAnswers) (more_reads : List (Round ReaderAnswers)) (s : System)
    → Inv s
    → Early start duration writes
    → duration ≤ sub64 last_write.current_time_cycles start
    → Early start duration reads
    → duration ≤ sub64 last_read.current_time_cycles start
    → ((writing_func start duration (writes ++ last_write ∷ more_writes) s
          ≡ all_rounds
              (λ a t. write_round (t.config.nb_clients + 1) a t)
              (writes ++ last_write ∷ [])
              s)
        × Ensures Tolerated
            (Done s)
            (writing_func start duration (writes ++ last_write ∷ more_writes) s))
      × ((reading_func start duration (reads ++ last_read ∷ more_reads) s
            ≡ all_rounds
                (λ a t. read_round (t.config.nb_clients + 1) a t)
                (reads ++ last_read ∷ [])
                s)
          × Ensures Tolerated
              (Done s)
              (reading_func start duration (reads ++ last_read ∷ more_reads) s))
unfolding writing_func reading_func
threads_end start duration writes last_write more_writes reads last_read more_reads s i w wl r rl =
    let write : Round WriterAnswers → System → M Running =
      λ a t. write_round (t.config.nb_clients + 1) a t in
    let read : Round ReaderAnswers → System → M Running =
      λ a t. read_round (t.config.nb_clients + 1) a t in
    let writing =
      thread_loop-all_rounds write write_round-Done start duration writes last_write more_writes s i
        w wl in
    let reading =
      thread_loop-all_rounds read read_round-Done start duration reads last_read more_reads s i r
        rl in
    (
      (
        writing,
        subst (Ensures Tolerated (Done s)) (sym writing)
            (all_rounds-Done write write_round-Done start duration (writes ++ last_write ∷ []) s i),
      ),
      (
        reading,
        subst (Ensures Tolerated (Done s)) (sym reading)
            (all_rounds-Done read read_round-Done start duration (reads ++ last_read ∷ []) s i),
      ),
    )
