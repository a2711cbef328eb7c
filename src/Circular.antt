-- ===== src/Circular.antt =====
-- circular_buffer.c and circular_buffer.h: the ring of ints through which the two threads hand
-- clients to one another. A function returns `none` where the C code would access memory outside
-- the allocation. A pointer that may be NULL is an option, and what malloc answers is an argument.
pub mod Queue
pub mod Window
pub mod Inv
pub mod Refine
pub mod Concurrent
mod Tests
use mathlib.Core.Option.{bind}
use slg.Base.{
  ℕ, zero, suc, ◌+◌, List, [], ◌∷◌, Option, none, some, Bool, true, false, ◌&&◌, ◌==◌,
  if◌then◌else◌, get_elem?, set, replicate, length, ltb,
}
use slg.Base.Int.{ℤ, pos, negsuc}

-- `CIRC_BUF_ERROR`
abbrev pub circ_buf_error : ℤ
circ_buf_error = negsuc 0

-- `circularBuffer`; `buffer` is the memory that its pointer leads to, none of it after a free.
pub record CircularBuffer : Type 0 where
  pub buffer : List ℤ
  pub size : ℕ
  pub write_pos : ℕ
  pub read_pos : ℕ

-- `malloced` tells whether malloc returned memory.
unfoldable pub open_circ : Bool → Option CircularBuffer → ℕ → Option CircularBuffer
open_circ malloced none size = none
open_circ false (some cb) size = none
open_circ true (some cb) size =
    some (record {
      buffer = replicate (size + 1) (pos 0);
      size = size + 1;
      write_pos = 0;
      read_pos = 0;
    })

unfoldable pub close_circ : Option CircularBuffer → Option CircularBuffer
close_circ none = none
close_circ (some cb) = some (record { buffer = []; size = 0; write_pos = 0; read_pos = 0 })

-- The position after `p` in a ring of `size` slots.
abbrev pub advance : ℕ → ℕ → ℕ
advance size p = if p + 1 == size then 0 else p + 1

-- `array[i] = v`
abbrev pub store : List ℤ → ℕ → ℤ → Option (List ℤ)
store xs i v = if ltb i (length xs) then some (set xs i v) else none

unfoldable pub get_circ : CircularBuffer → Option (ℤ × CircularBuffer)
get_circ cb =
    if cb.read_pos == cb.write_pos
    then some (circ_buf_error, cb)
    else bind (get_elem? cb.buffer cb.read_pos)
        (λ v. some (v, record cb { read_pos = advance cb.size cb.read_pos }))

unfoldable pub put_circ : CircularBuffer → ℤ → Option (ℤ × CircularBuffer)
put_circ cb e =
    let p = advance cb.size cb.write_pos in
    if p == cb.read_pos
    then some (circ_buf_error, cb)
    else bind (store cb.buffer cb.write_pos e)
        (λ xs. some (e, record cb { buffer = xs; write_pos = p }))

-- What `printfCircularBuffer` prints below a slot.
pub data Mark : Type 0 where
  rw_mark w_mark r_mark no_mark : Mark

mark : CircularBuffer → ℕ → Mark
mark cb i =
    if (i == cb.read_pos) && (i == cb.write_pos)
    then rw_mark
    else if i == cb.write_pos
    then w_mark
    else if i == cb.read_pos
    then r_mark
    else no_mark

-- The marks of `k` slots from slot `i` on.
pub marks : CircularBuffer → ℕ → ℕ → List Mark
unfolding mark
marks cb i zero = []
marks cb i (suc k) = mark cb i ∷ marks cb (i + 1) k

-- The values of `k` slots from slot `i` on.
pub slots : CircularBuffer → ℕ → ℕ → Option (List ℤ)
slots cb i zero = some []
slots cb i (suc k) =
    bind (get_elem? cb.buffer i) (λ v. bind (slots cb (i + 1) k) (λ r. some (v ∷ r)))

-- `printfCircularBuffer`: the three numbers of its first line, the row of values, the row of marks.
pub print_circ : CircularBuffer → Option (ℕ × ℕ × ℕ × List ℤ × List Mark)
unfolding slots marks
print_circ cb =
    bind (slots cb 0 cb.size)
      (λ row. some (cb.size, cb.read_pos, cb.write_pos, row, marks cb 0 cb.size))
