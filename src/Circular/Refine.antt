-- ===== src/Circular/Refine.antt =====
-- A valid buffer behaves as the queue of the ints that it holds.
use slg.Base.{ℕ, ◌+◌, ◌-◌, ◌≡◌, refl, List, [], ◌∷◌, Option, some, true, arith, length}
use mathlib.Core.Option.{bind}
use mathlib.Core.Path.{subst}
use slg.Base.Int.{ℤ}
use slg.Circular.{CircularBuffer, open_circ, get_circ, put_circ}
use slg.Circular.Queue
use slg.Circular.Queue.{Queue, Op, get, put}
use slg.Circular.Window.{window, distance, length-window, window_of_ne_zero, window-set}
use slg.Circular.Inv.{
  IsValid, open_circ-IsValid, taken, added, get_circ-taken, put_circ-added, taken-IsValid,
  added-IsValid, size-taken, size-added,
}

-- the ints that a buffer holds, oldest first
abbrev pub contents : CircularBuffer → Queue
contents cb = window cb.buffer cb.size cb.read_pos (distance cb.size cb.read_pos cb.write_pos)

pub length-contents :
    (cb : CircularBuffer) → length (contents cb) ≡ distance cb.size cb.read_pos cb.write_pos
length-contents cb = length-window cb.buffer cb.size cb.read_pos _

-- Taking is `Queue.step` of a get.
pub taken_refines :
    (cb : CircularBuffer)
    → IsValid cb
    → ((taken cb).0, contents (taken cb).1) ≡ Queue.step (cb.size - 1) (contents cb) get
unfolding Queue.step
taken_refines cb v = ground (
  arith,
  window_of_ne_zero cb.buffer cb.size cb.read_pos (distance cb.size cb.read_pos cb.write_pos),
)

-- Adding is `Queue.step` of a put.
pub added_refines :
    (cb : CircularBuffer) (e : ℤ)
    → IsValid cb
    → ((added cb e).0, contents (added cb e).1) ≡ Queue.step (cb.size - 1) (contents cb) (put e)
unfolding Queue.step
added_refines cb e v = ground (
  arith,
  length-contents cb,
  window-set cb.buffer cb.size e (distance cb.size cb.read_pos cb.write_pos) cb.read_pos
      cb.write_pos,
)

-- One call on the buffer, and the values that a sequence of calls returns.
call : CircularBuffer → Op → Option (ℤ × CircularBuffer)
call cb get = get_circ cb
call cb (put e) = put_circ cb e

unfoldable pub run : CircularBuffer → List Op → Option (List ℤ)
unfolding call
run cb [] = some []
run cb (o ∷ ops) = bind (call cb o) (λ (v, cb'). bind (run cb' ops) (λ vs. some (v ∷ vs)))

-- From a valid buffer a call succeeds, and does what the queue of the contents does.
record Agrees (cb : CircularBuffer) (o : Op) (r : ℤ × CircularBuffer) : Type 0 where
  returns : call cb o ≡ some r
  valid : IsValid r.1
  sized : r.1.size ≡ cb.size
  queued : (r.0, contents r.1) ≡ Queue.step (cb.size - 1) (contents cb) o

call-Agrees : (cb : CircularBuffer) (o : Op) → IsValid cb → (r : ℤ × CircularBuffer) × Agrees cb o r
unfolding call
call-Agrees cb get v = (
  taken cb,
  record {
    returns = get_circ-taken cb v;
    valid = taken-IsValid cb v;
    sized = size-taken cb;
    queued = taken_refines cb v;
  },
)
call-Agrees cb (put e) v = (
  added cb e,
  record {
    returns = put_circ-added cb e v;
    valid = added-IsValid cb e v;
    sized = size-added cb e;
    queued = added_refines cb e v;
  },
)

-- On a valid buffer no sequence of calls accesses memory outside it, and the values returned are
-- those of the first-in first-out queue of its contents, of capacity one less than `size`.
pub run_refines :
    (ops : List Op) (cb : CircularBuffer)
    → IsValid cb
    → run cb ops ≡ some (Queue.run (cb.size - 1) (contents cb) ops)
unfolding run Queue.run bind
run_refines [] cb v = refl
run_refines (o ∷ ops) cb v =
    let (r, a) = call-Agrees cb o v in
    let ih =
      subst (λ n. run r.1 ops ≡ some (Queue.run (n - 1) (contents r.1) ops)) a.sized
        (run_refines ops r.1 a.valid) in
    rw (a.returns, ih, ← a.queued)

-- `open_circ` gives a valid buffer for `n` ints that holds none.
pub open_circ-contents :
    (old : CircularBuffer) (n : ℕ)
    → (cb : CircularBuffer) × (open_circ true (some old) n ≡ some cb)
      × IsValid cb
      × (cb.size ≡ n + 1)
      × (contents cb ≡ [])
unfolding open_circ
open_circ-contents old n = (_, refl, (open_circ-IsValid old n refl).0, refl, refl)
