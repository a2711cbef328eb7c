-- ===== src/Slave/Rounds.antt =====
-- slg.c, `writingFunc` and `readingFunc` as whole loops, as one of them runs while the other one is not
-- scheduled; every other order of their steps is in `Slave.Threads`.
pub mod Filling
pub mod Serving
pub mod Loops
use slg.Base.{
  ℕ, zero, suc, ◌+◌, List, [], ◌∷◌, Option, none, some, Bool, true, false, if◌then◌else◌, ltb,
}
use slg.Base.Word.{sub64}
use slg.Base.Outcome.{ok, stop, ◌>>=◌}
use slg.Client.{M, select_failed}
use slg.Slave.{System}
use slg.Slave.Writer.{WriterAnswers, writer_take, writer_serve}
use slg.Slave.Reader.{ReaderAnswers, reader_take, reader_serve}

-- What a loop leaves, and whether its fuel ran out before it ended.
abbrev pub Running : Type 0
Running = System × Bool

-- `while (1)` around `get_circ`, for at most `fuel` rounds.
unfoldable pub fill : (System → M (System × Bool)) → (fuel : ℕ) → System → M Running
fill take zero s = ok (s, true)
fill take (suc fuel) s =
    take s >>= (λ (t, more). elim more [ true ↦ fill take fuel t | false ↦ ok (t, false) ])

-- The `for` loop over `k` clients from the `i`th on.
unfoldable pub serve_from {ℓ} :
    {A : Type ℓ} → (System → ℕ → A → M System) → (ℕ → A) → ℕ → ℕ → System → M System
serve_from serve answers i zero s = ok s
serve_from serve answers i (suc k) s =
    serve s i (answers i) >>= (λ t. serve_from serve answers (i + 1) k t)

-- The answers that one round of the main loop of a thread gets, up to the reading of the clock at its
-- end. `select_fails` is read by the reading thread only.
pub record Round {ℓ} (A : Type ℓ) : Type ℓ where
  pub select_fails : Bool
  pub answers : ℕ → A
  pub current_time_cycles : ℕ

-- The body of the `do` loop of `writingFunc`, with the fuel that its filling loop gets.
unfoldable pub write_round : ℕ → Round WriterAnswers → System → M Running
unfolding fill serve_from
write_round fuel a s = fill writer_take fuel s >>= (λ (t, running). elim running [
  | true ↦ ok (t, true)
  | false ↦ serve_from writer_serve a.answers 0 t.config.nb_clients t >>= (λ u. ok (u, false))
])

-- What follows `if (maxFd <= -1)` in `readingFunc`.
unfoldable pub read_selected : Round ReaderAnswers → System → Option ℕ → M Running
unfolding serve_from
read_selected a t none = ok (t, false)
read_selected a t (some m) =
    if a.select_fails
    then stop select_failed
    else serve_from reader_serve a.answers 0 t.config.nb_clients t >>= (λ u. ok (u, false))

-- The body of the `do` loop of `readingFunc`.
unfoldable pub read_round : ℕ → Round ReaderAnswers → System → M Running
unfolding fill read_selected
read_round fuel a s =
    fill reader_take fuel s
    >>= (λ (t, running). elim running [ true ↦ ok (t, true) | false ↦ read_selected a t t.max_fd ])

-- `do ... while ((current_time_cycles - start_time_cycles) < duration)`, for as many rounds as there are
-- answers.
unfoldable pub thread_loop {ℓ} :
    {A : Type ℓ} → (Round A → System → M Running) → ℕ → ℕ → List (Round A) → System → M Running
thread_loop round start_time_cycles duration [] s = ok (s, true)
thread_loop round start_time_cycles duration (a ∷ rest) s = round a s >>= (λ (t, running).
    elim running [
      | true ↦ ok (t, true)
      | false ↦ elim (ltb (sub64 a.current_time_cycles start_time_cycles) duration) [
        | true ↦ thread_loop round start_time_cycles duration rest t
        | false ↦ ok (t, false)
      ]
    ])

-- `writingFunc`
unfoldable pub writing_func : ℕ → ℕ → List (Round WriterAnswers) → System → M Running
unfolding thread_loop write_round
writing_func start_time_cycles duration rounds s =
    thread_loop (λ a t. write_round (t.config.nb_clients + 1) a t) start_time_cycles duration rounds
      s

-- `readingFunc`
unfoldable pub reading_func : ℕ → ℕ → List (Round ReaderAnswers) → System → M Running
unfolding thread_loop read_round
reading_func start_time_cycles duration rounds s =
    thread_loop (λ a t. read_round (t.config.nb_clients + 1) a t) start_time_cycles duration rounds
      s
