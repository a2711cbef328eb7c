-- ===== src/Slave/Threads.antt =====
-- The two threads of a slave, interleaved a round at a time in any order, with any answers of the system
-- calls. That a call of the buffers is one step here rests on `Circular.Concurrent`.
use slg.Base.{refl, ℕ, ◌<◌, ◌≡◌, ◌≢◌, sym, ◌∙◌, ◌⊎◌, inl, inr, List, [], some, Bool, arith}
use mathlib.Core.Path.{subst}
use mathlib.Core.Option.{some-injective}
use slg.Base.Outcome.{ok, stop, Ensures}
use slg.Client.{Stats, M, Fault, ring_full, bad_state, out_of_bounds}
use slg.Client.Lifecycle.{Tolerated}
use slg.Slave.{Config, System, set_up}
use slg.Slave.SetUp.{up_to, set_up-Owned}
use slg.Slave.Writer.{WriterAnswers, writer_take, writer_serve}
use slg.Slave.Reader.{ReaderAnswers, reader_take, reader_serve}
use slg.Slave.Invariant.{Owned, Inv}
use slg.Slave.Invariant.Steps.{writer_take-Inv, writer_serve-Inv, reader_take-Inv, reader_serve-Inv}

-- One round of a loop of one thread: `for` loops run over the clients, so their index is below
-- `nb_clients`.
pub data Step (s : System) (t : System) : Type 0 where
  writer_takes : (b : Bool) → writer_take s ≡ ok (t, b) → Step s t
  writer_serves :
      (i : ℕ) (a : WriterAnswers) → i < s.config.nb_clients → writer_serve s i a ≡ ok t → Step s t
  reader_takes : (b : Bool) → reader_take s ≡ ok (t, b) → Step s t
  reader_serves :
      (i : ℕ) (a : ReaderAnswers) → i < s.config.nb_clients → reader_serve s i a ≡ ok t → Step s t

pub data Reach (s : System) : System → Type 0 where
  here : Reach s s
  next : {t u : System} → Reach s t → Step t u → Reach s u

returns {ℓ} :
    {A : Type ℓ} (P : A → Type 0) (m : M A) {a : A} → Ensures Tolerated P m → m ≡ ok a → P a
returns P m k e = subst (λ r. Ensures Tolerated P r) e k

stops {ℓ} :
    {A : Type ℓ} (P : A → Type 0) (m : M A) {f : Fault}
    → Ensures Tolerated P m
    → m ≡ stop f
    → Tolerated f
stops P m k e = subst (λ r. Ensures Tolerated P r) e k

abbrev TakenInv : System × Bool → Type 0
TakenInv r = Inv r.0

Step-Inv : {s t : System} → Step s t → Inv s → Inv t
Step-Inv {s} (writer_takes b e) i =
    returns TakenInv (writer_take s) (writer_take-Inv s i.ws i.rs i.owned) e
Step-Inv {s} (writer_serves j a lt e) i =
    returns Inv (writer_serve s j a) (writer_serve-Inv s j a i.ws i.rs lt i.owned) e
Step-Inv {s} (reader_takes b e) i =
    returns TakenInv (reader_take s) (reader_take-Inv s i.ws i.rs i.owned) e
Step-Inv {s} (reader_serves j a lt e) i =
    returns Inv (reader_serve s j a) (reader_serve-Inv s j a i.ws i.rs lt i.owned) e

pub started-Inv :
    (c : Config) (address max_connect : ℕ) (g : Stats) {s : System}
    → set_up c address max_connect g ≡ some s
    → Inv s
started-Inv c address max_connect g {s} e =
    let (s', e', _, o) = set_up-Owned c address max_connect g in
    subst Inv (some-injective s' s (sym e' ∙ e))
      (record { ws = up_to c.nb_clients; rs = []; owned = o })

Reach-Inv : {s t : System} → Inv s → Reach s t → Inv t
Reach-Inv i here = i
Reach-Inv i (next r st) = Step-Inv st (Reach-Inv i r)

pub Reach-trans : {s t u : System} → Reach s t → Reach t u → Reach s u
Reach-trans p here = p
Reach-trans p (next q st) = next (Reach-trans p q) st

-- From `s` the threads come to `t`, which keeps the invariant and the order.
pub record Kept (s t : System) : Type 0 where
  pub inv : Inv t
  pub config : t.config ≡ s.config
  pub reached : Reach s t

pub Kept-refl : {s : System} → Inv s → Kept s s
Kept-refl i = record { inv = i; config = refl; reached = here }

pub Kept-trans : {s t u : System} → Kept s t → Kept t u → Kept s u
Kept-trans p q = record {
  inv = q.inv;
  config = q.config ∙ p.config;
  reached = Reach-trans p.reached q.reached;
}

-- In every state that the two threads reach from the set-up of `main`, each client is in exactly one
-- place: one of the two buffers, or one of the two threads; it is in ST_CONNECT or ST_WRITING on the
-- writing side, in ST_READING on the reading side, and has a descriptor wherever the code uses one.
pub reachable-Owned :
    (c : Config) (address max_connect : ℕ) (g : Stats) {s t : System}
    → set_up c address max_connect g ≡ some s
    → Reach s t
    → (ws : List ℕ) × (rs : List ℕ) × Owned t ws rs
reachable-Owned c address max_connect g e r =
    let i = Reach-Inv (started-Inv c address max_connect g e) r in (i.ws, i.rs, i.owned)

-- In every state that the two threads reach from the set-up of `main`, no round of either thread ends
-- in the "put_circ error. should be impossible" PANIC, in the default case of `change_state`, or in an
-- access outside an array (the terminator behind a full header buffer is a fault of its own), whatever
-- the system calls answer.
pub threads_fault :
    (c : Config) (address max_connect : ℕ) (g : Stats) {s t : System} {f : Fault}
    → set_up c address max_connect g ≡ some s
    → Reach s t
    → (i : ℕ) → i < t.config.nb_clients
    → (w : WriterAnswers) (r : ReaderAnswers)
    → (writer_take t ≡ stop f)
      ⊎ (reader_take t ≡ stop f)
      ⊎ (writer_serve t i w ≡ stop f)
      ⊎ (reader_serve t i r ≡ stop f)
    → (f ≢ ring_full) × (f ≢ bad_state) × (f ≢ out_of_bounds)
threads_fault c address max_connect g {t = t} {f = f} e reach i lt w r failed =
    let h : Tolerated f = tolerated failed in ground arith
  where
    inv : Inv t
    inv = Reach-Inv (started-Inv c address max_connect g e) reach

    tolerated :
        (writer_take t ≡ stop f)
          ⊎ (reader_take t ≡ stop f)
          ⊎ (writer_serve t i w ≡ stop f)
          ⊎ (reader_serve t i r ≡ stop f)
        → Tolerated f
    tolerated (inl q) = stops TakenInv (writer_take t) (writer_take-Inv t inv.ws inv.rs inv.owned) q
    tolerated (inr (inl q)) =
        stops TakenInv (reader_take t) (reader_take-Inv t inv.ws inv.rs inv.owned) q
    tolerated (inr (inr (inl q))) =
        stops Inv (writer_serve t i w) (writer_serve-Inv t i w inv.ws inv.rs lt inv.owned) q
    tolerated (inr (inr (inr q))) =
        stops Inv (reader_serve t i r) (reader_serve-Inv t i r inv.ws inv.rs lt inv.owned) q
