-- ===== src/Slave/ReadSet.antt =====
-- `maxFd` of `readingFunc`: what the reading thread asks select about.
pub mod Reading
pub mod Writing
pub mod Reached
use slg.Base.{
  ℕ, zero, suc, ◌≤◌, ◌≡◌, refl, sym, ◌∙◌, ap, Option, none, some, Bool, true, false, arith, ltb,
  ◌==◌, if◌then◌else◌, Bool-cases, Option-cases, ◌⊎◌, inl, inr,
}
use mathlib.Core.Option.{some-injective}
use slg.Base.Update.{update}
use slg.Base.Outcome.{ok, stop, Ensures, Ensures-bind, ◌>>=◌}
use slg.Circular.{CircularBuffer, get_circ}
use slg.Client.Receive.{read_response}
use slg.Client.Counts.{Unspecified}
use slg.Client.{Client, Stats, State, waiting, reading, writing, connecting, M, Fault}
use slg.Slave.{
  System, Config, set_up, started, Taken, nothing, client, outside, taken_index, in_memory,
}
use slg.Slave.Writer.{WriterAnswers, writer_take, writer_serve, build_if_new, hand_over}
use slg.Slave.Reader
use slg.Slave.Writer
use mathlib.Core.Path.{subst}
use slg.Client.Request.{send_request}
use slg.Client.Connect.{finalize_connect_client_to_server, initialize_connect_client_to_server}
use slg.Slave.Reader.{ReaderAnswers, reader_take, reader_serve, release, after_read, raise, lower}
use slg.Slave.Threads.{
  Step, Reach, here, next, writer_takes, writer_serves, reader_takes, reader_serves,
}

abbrev pub AtMost : Option ℕ → ℕ → Type 0
AtMost none j = ⊥
AtMost (some m) j = j ≤ m

-- No descriptor of the set is above the greatest one.
abbrev pub Bounds : (ℕ → Bool) → Option ℕ → Type 0
Bounds member max = (j : ℕ) → member j ≡ true → AtMost max j

abbrev pub Covers : System → Type 0
Covers s = Bounds s.master_read_set s.max_fd

abbrev pub Any {ℓ} : {A : Type ℓ} → A → Type 0
Any a = Unit {0}

pub Ensures-Any {ℓ} : {A : Type ℓ} (m : M A) → Ensures Unspecified Any m
Ensures-Any (ok a) = tt
Ensures-Any (stop f) = tt

pub raise-Bounds :
    (member : ℕ → Bool) (max : Option ℕ) (fd : ℕ)
    → Bounds member max
    → Bounds (update member fd true) (raise max fd)
unfolding raise
raise-Bounds member none fd b j m = ground (arith, b j)
raise-Bounds member (some x) fd b j m = ground (arith, b j)

pub lower-Bounds :
    (member : ℕ → Bool) (max : Option ℕ) (fd : ℕ)
    → Bounds member max
    → Bounds (update member fd false) (lower member max fd)
unfolding lower
lower-Bounds member none fd b j m = ground (arith, b j)
lower-Bounds member (some zero) fd b j m = ground (arith, b j)
lower-Bounds member (some (suc x)) fd b j m = ground (arith, b j)
