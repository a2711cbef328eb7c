-- ===== src/Circular/Queue.antt =====
-- What circular_buffer.h promises: a first-in first-out queue of at most `cap` ints, whose
-- operations return CIRC_BUF_ERROR when it is empty or full.
use slg.Base.{ℕ, List, [], ◌∷◌, ◌++◌, length, ◌==◌, if◌then◌else◌}
use slg.Base.Int.{ℤ}
use slg.Circular.{circ_buf_error}

abbrev pub Queue : Type 0
Queue = List ℤ

-- a call of a client
pub data Op : Type 0 where
  get : Op
  put : ℤ → Op

unfoldable pub step : ℕ → Queue → Op → ℤ × Queue
step cap [] get = (circ_buf_error, [])
step cap (x ∷ q) get = (x, q)
step cap q (put e) = if length q == cap then (circ_buf_error, q) else (e, q ++ (e ∷ []))

-- The returned values of a sequence of calls.
unfoldable pub run : ℕ → Queue → List Op → List ℤ
run cap q [] = []
run cap q (o ∷ ops) = let (v, q') = step cap q o in v ∷ run cap q' ops
