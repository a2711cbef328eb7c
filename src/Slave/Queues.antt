-- ===== src/Slave/Queues.antt =====
-- The two circular buffers as queues of client numbers: what a thread's `get_circ` and `put_circ` do to
-- them, in the terms of the buffer's refinement.
use slg.Base.{
  ℕ, suc, ◌+◌, ◌-◌, ◌<◌, ◌≡◌, refl, ap, List, [], ◌∷◌, ◌++◌, map, some, arith, length, ◌∙◌,
}
use mathlib.Core.List.{map-append}
use mathlib.Core.Path.{subst}
use slg.Base.Int.{ℤ, pos}
use slg.Base.Outcome.{ok}
use slg.Circular.{CircularBuffer, circ_buf_error, get_circ, put_circ}
use slg.Circular.Queue
use slg.Circular.Queue.{Queue, get, put}
use slg.Circular.Inv.{
  IsValid, taken, added, get_circ-taken, put_circ-added, taken-IsValid, added-IsValid, size-taken,
  size-added,
}
use slg.Circular.Refine.{contents, length-contents, taken_refines, added_refines}
use slg.Slave.Writer.{hand_over}

-- A valid ring for `n` clients that holds the numbers `ids`, oldest first.
pub record Queues (n : ℕ) (ids : List ℕ) (cb : CircularBuffer) : Type 0 where
  pub valid : IsValid cb
  pub sized : cb.size ≡ n + 1
  pub holds : contents cb ≡ map pos ids

pub length-map-pos : (ids : List ℕ) → length (map pos ids) ≡ length ids
length-map-pos [] = refl
length-map-pos (x ∷ ids) = ap suc (length-map-pos ids)

-- What `get_circ` gives: the error, or the oldest number.
abbrev pub Takes : ℕ → List ℕ → CircularBuffer → ℤ × CircularBuffer → Type 0
Takes n [] cb r = (r.0 ≡ circ_buf_error) × (r.1 ≡ cb)
Takes n (x ∷ ids) cb r = (r.0 ≡ pos x) × Queues n ids r.1

taken-Takes :
    (n : ℕ) (ids : List ℕ) (cb : CircularBuffer) → Queues n ids cb → Takes n ids cb (taken cb)
unfolding Queue.step
taken-Takes n [] cb q = ground (arith, length-contents cb, ap length q.holds)
taken-Takes n (x ∷ ids) cb q = (
  ap (λ (r : ℤ × Queue). r.0) e,
  record {
    valid = taken-IsValid cb q.valid;
    sized = size-taken cb ∙ q.sized;
    holds = ap (λ (r : ℤ × Queue). r.1) e;
  },
)
  where
    e : ◌≡◌ {A = ℤ × Queue} ((taken cb).0, contents (taken cb).1) (pos x, map pos ids)
    e =
        subst (λ l. ((taken cb).0, contents (taken cb).1) ≡ Queue.step (cb.size - 1) l get) q.holds
          (taken_refines cb q.valid)

-- `get_circ` on a queue of numbers succeeds, and takes the oldest.
pub get_circ-Takes :
    (n : ℕ) (ids : List ℕ) (cb : CircularBuffer)
    → Queues n ids cb
    → (r : ℤ × CircularBuffer) × (get_circ cb ≡ some r) × Takes n ids cb r
get_circ-Takes n ids cb q = (taken cb, get_circ-taken cb q.valid, taken-Takes n ids cb q)

added-last :
    (n i : ℕ) (ids : List ℕ) (cb : CircularBuffer)
    → Queues n ids cb
    → length ids < n
    → ◌≡◌ {A = ℤ × Queue}
        ((added cb (pos i)).0, contents (added cb (pos i)).1)
        (pos i, map pos (ids ++ (i ∷ [])))
unfolding Queue.step
added-last n i ids cb q lt =
    subst
      (λ l.
        ((added cb (pos i)).0, contents (added cb (pos i)).1)
        ≡ Queue.step (cb.size - 1) l (put (pos i)))
      q.holds (added_refines cb (pos i) q.valid)
    ∙ ground (arith, length-map-pos ids, q.sized, map-append pos ids (i ∷ []))

-- `put_circ` on a queue of fewer than `n` numbers succeeds, and puts the number last.
pub put_circ-Queues :
    (n i : ℕ) (ids : List ℕ) (cb : CircularBuffer)
    → Queues n ids cb
    → length ids < n
    → (r : ℤ × CircularBuffer) × (put_circ cb (pos i) ≡ some r)
      × (r.0 ≡ pos i)
      × Queues n (ids ++ (i ∷ [])) r.1
put_circ-Queues n i ids cb q lt =
    let e = added-last n i ids cb q lt in
    (
      added cb (pos i),
      put_circ-added cb (pos i) q.valid,
      ap (λ (r : ℤ × Queue). r.0) e,
      record {
        valid = added-IsValid cb (pos i) q.valid;
        sized = size-added cb (pos i) ∙ q.sized;
        holds = ap (λ (r : ℤ × Queue). r.1) e;
      },
    )

pub hand_over-Queues :
    (n i : ℕ) (ids : List ℕ) (cb : CircularBuffer)
    → Queues n ids cb
    → length ids < n
    → (cb' : CircularBuffer) × (hand_over cb i ≡ ok cb') × Queues n (ids ++ (i ∷ [])) cb'
unfolding hand_over
hand_over-Queues n i ids cb q lt =
    let (r, e, h, q') = put_circ-Queues n i ids cb q lt in (r.1, ground (arith, e, h), q')
