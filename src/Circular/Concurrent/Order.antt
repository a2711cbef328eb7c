-- ===== src/Circular/Concurrent/Order.antt =====
-- What every interleaving of one producer and one consumer gives, where the producer has room.
use slg.Base.{ℕ, ◌<◌, ◌≡◌, ◌≢◌, List, ◌++◌, some, true, arith, length}
use slg.Base.Int.{ℤ}
use slg.Circular.{CircularBuffer, open_circ}
use slg.Circular.Inv.{open_circ-IsValid}
use slg.Circular.Window.{window, length-window}
use slg.Circular.Concurrent.{System, Reach, here, next, computed, checked, nonempty, fresh, HasRoom}
use slg.Circular.Concurrent.Inv.{Inv, head, held, Step-Inv}

fresh-Inv :
    (old : CircularBuffer) (size : ℕ) {cb : CircularBuffer}
    → open_circ true (some old) size ≡ some cb
    → Inv (fresh cb)
fresh-Inv old size {cb} h = let (v, e, n) = open_circ-IsValid old size h in ground arith

Reach-Inv : {s t : System} → Inv s → Reach HasRoom s t → Inv t
Reach-Inv i here = i
Reach-Inv i (next r st) = Step-Inv st (Reach-Inv i r)

-- In every state that one producer and one consumer reach on a buffer from `open_circ`, interleaved
-- at each access, if `put_circ` is entered only with room: the ints sent are the ints received, in
-- order, and then those in the ring, of which there are fewer than `size`.
pub interleaved_order :
    (old : CircularBuffer) (size : ℕ) {cb : CircularBuffer} {s : System}
    → open_circ true (some old) size ≡ some cb
    → Reach HasRoom (fresh cb) s
    → (rest : List ℤ) × (s.sent ≡ s.received ++ rest) × (length rest < s.size)
interleaved_order old size {s} h r =
    let i = Reach-Inv (fresh-Inv old size h) r in
    (
      window s.buffer s.size (head s) (held s),
      i.history,
      ground (arith, i, length-window s.buffer s.size (head s) (held s)),
    )

-- In every state that one producer and one consumer reach on a buffer from `open_circ`, if `put_circ`
-- is entered only with room, it never finds the buffer full, its write is inside the array, and so is
-- the read of `get_circ`.
pub interleaved_accesses :
    (old : CircularBuffer) (size : ℕ) {cb : CircularBuffer} {s : System}
    → open_circ true (some old) size ≡ some cb
    → Reach HasRoom (fresh cb) s
    → ((p : ℕ) (e : ℤ) → s.producer ≡ computed p e → p ≢ s.read_pos)
      × ((p : ℕ) (e : ℤ) → s.producer ≡ checked p e → s.write_pos < length s.buffer)
      × (s.consumer ≡ nonempty → s.read_pos < length s.buffer)
interleaved_accesses old size h r =
    let i = Reach-Inv (fresh-Inv old size h) r in
    (λ p e q. ground (arith, i), λ p e q. ground (arith, i), λ q. ground (arith, i))
