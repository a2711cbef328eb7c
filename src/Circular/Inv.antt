-- ===== src/Circular/Inv.antt =====
-- The representation invariant of `circularBuffer`: both positions stay inside the allocation.
use mathlib.Core.Option.{bind}
use slg.Base.{
  ℕ, ◌+◌, ◌<◌, ◌≡◌, some, true, arith, length, get_or, set, length-set, length-replicate,
  get_elem?-eq-get_or, ◌==◌, if◌then◌else◌,
}
use slg.Base.Int.{ℤ, pos}
use slg.Circular.{CircularBuffer, circ_buf_error, advance, open_circ, get_circ, put_circ}

pub record IsValid (cb : CircularBuffer) : Type 0 where
  pub storage : length cb.buffer ≡ cb.size
  pub write_in : cb.write_pos < cb.size
  pub read_in : cb.read_pos < cb.size

-- `open_circ` gives a valid buffer that is empty, or NULL where it got NULL or no memory.
pub open_circ-IsValid :
    (cb : CircularBuffer) (size : ℕ) {r : CircularBuffer}
    → open_circ true (some cb) size ≡ some r
    → IsValid r × (r.read_pos ≡ r.write_pos) × (r.size ≡ size + 1)
unfolding open_circ
open_circ-IsValid cb size h = ground (arith, length-replicate (size + 1) (pos 0))

-- the value in slot `p`
abbrev pub slot : CircularBuffer → ℕ → ℤ
slot cb p = get_or cb.buffer p (pos 0)

-- what `get_circ` returns on a valid buffer
abbrev pub taken : CircularBuffer → ℤ × CircularBuffer
taken cb =
    if cb.read_pos == cb.write_pos
    then (circ_buf_error, cb)
    else (slot cb cb.read_pos, record cb { read_pos = advance cb.size cb.read_pos })

-- what `put_circ` returns on a valid buffer
abbrev pub added : CircularBuffer → ℤ → ℤ × CircularBuffer
added cb e = if advance cb.size cb.write_pos == cb.read_pos then (circ_buf_error, cb) else (
  e,
  record cb { buffer = set cb.buffer cb.write_pos e; write_pos = advance cb.size cb.write_pos },
)

pub get_circ-taken : (cb : CircularBuffer) → IsValid cb → get_circ cb ≡ some (taken cb)
unfolding get_circ bind
get_circ-taken cb v = ground (arith, get_elem?-eq-get_or cb.buffer cb.read_pos (pos 0))

pub put_circ-added : (cb : CircularBuffer) (e : ℤ) → IsValid cb → put_circ cb e ≡ some (added cb e)
unfolding put_circ bind
put_circ-added cb e v = ground arith

pub taken-IsValid : (cb : CircularBuffer) → IsValid cb → IsValid (taken cb).1
taken-IsValid cb v = ground arith

pub added-IsValid : (cb : CircularBuffer) (e : ℤ) → IsValid cb → IsValid (added cb e).1
added-IsValid cb e v = ground (arith, length-set cb.buffer cb.write_pos e)

pub size-taken : (cb : CircularBuffer) → (taken cb).1.size ≡ cb.size
size-taken cb = ground arith

pub size-added : (cb : CircularBuffer) (e : ℤ) → (added cb e).1.size ≡ cb.size
size-added cb e = ground arith
