-- ===== src/Slave/ReadSet/Reached.antt =====
-- What the reading thread watches in the states that the threads reach.
use slg.Base.{ℕ, ◌≡◌, Option, none, some, Bool, true}
use slg.Base.Outcome.{ok, Ensures}
use slg.Client.{Stats, M}
use slg.Slave.{System, Config, set_up, started, uninitialised, put_clients}
use slg.Slave.Writer.{writer_take, writer_serve}
use mathlib.Core.Path.{subst}
use slg.Slave.Reader.{reader_take, reader_serve}
use slg.Slave.Threads.{
  Step, Reach, here, next, writer_takes, writer_serves, reader_takes, reader_serves,
}
use slg.Client.Counts.{Unspecified}
use slg.Slave.ReadSet.{Covers, Unspecified}
use mathlib.Core.Option.{bind}
use slg.Circular.{open_circ}
use slg.Slave.ReadSet.Reading.{reader_take-Covers, reader_serve-Covers}
use slg.Slave.ReadSet.Writing.{writer_take-Covers, writer_serve-Covers}

pub returned {ℓ} :
    {A : Type ℓ} (P : A → Type 0) (m : M A) {a : A} → Ensures Unspecified P m → m ≡ ok a → P a
returned P m k e = subst (λ r. Ensures Unspecified P r) e k

Step-Covers : {s t : System} → Step s t → Covers s → Covers t
Step-Covers {s} (writer_takes f e) b =
    returned (λ (r : System × Bool). Covers r.0) (writer_take s) (writer_take-Covers s b) e
Step-Covers {s} (writer_serves j a lt e) b =
    returned Covers (writer_serve s j a) (writer_serve-Covers s j a b) e
Step-Covers {s} (reader_takes f e) b =
    returned (λ (r : System × Bool). Covers r.0) (reader_take s) (reader_take-Covers s b) e
Step-Covers {s} (reader_serves j a lt e) b =
    returned Covers (reader_serve s j a) (reader_serve-Covers s j a b) e

Reach-Covers : {s t : System} → Covers s → Reach s t → Covers t
Reach-Covers b here = b
Reach-Covers b (next r st) = Step-Covers st (Reach-Covers b r)

abbrev pub Yields {ℓ} : {A : Type ℓ} → (A → Type 0) → Option A → Type 0
Yields P none = Unit {0}
Yields P (some a) = P a

pub Yields-bind {ℓ κ} :
    {A : Type ℓ} {B : Type κ} (P : B → Type 0) (o : Option A) (f : A → Option B)
    → ((a : A) → Yields P (f a))
    → Yields P (bind o f)
unfolding bind
Yields-bind P none f h = tt
Yields-bind P (some a) f h = h a

set_up-Covers :
    (c : Config) (address max_connect : ℕ) (g : Stats)
    → Yields Covers (set_up c address max_connect g)
unfolding set_up started
set_up-Covers c address max_connect g =
    Yields-bind Covers (open_circ true (some uninitialised) c.nb_clients) _ (λ r.
      Yields-bind Covers (open_circ true (some uninitialised) c.nb_clients) _
        (λ w. Yields-bind Covers (put_clients 0 c.nb_clients w) _ (λ f j m. absurd (cc))))

started-Covers :
    (c : Config) (address max_connect : ℕ) (g : Stats) {s : System}
    → set_up c address max_connect g ≡ some s
    → Covers s
started-Covers c address max_connect g {s} e =
    subst (λ o. Yields Covers o) e (set_up-Covers c address max_connect g)

-- In every state that the two threads reach from the set-up of `main`, no descriptor that the reading
-- thread watches is above its `maxFd`, up to which it asks select, though the search for a new
-- `maxFd` looks at one descriptor only.
pub reachable-Covers :
    (c : Config) (address max_connect : ℕ) (g : Stats) {s t : System}
    → set_up c address max_connect g ≡ some s
    → Reach s t
    → Covers t
reachable-Covers c address max_connect g e r =
    Reach-Covers (started-Covers c address max_connect g e) r
