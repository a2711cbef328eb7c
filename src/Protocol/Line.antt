-- ===== src/Protocol/Line.antt =====
-- The end of a line in the protocol: both programs read until one, in the same loop.
use slg.Base.{ℕ, ◌-◌, List, [], ◌∷◌, ◌++◌, length, take, ◌==◌, if◌then◌else◌}
use slg.Base.Outcome.{Outcome, ok, stop}
use slg.Os.{ReadAnswer, got, eof, read_failed}

-- Why a side gives up; `no_more` is a call that never returns.
pub data Failure : Type 0 where
  no_more closed failed too_long missing_field unterminated : Failure

abbrev pub last : List ℕ → ℕ
last [] = 0
last (c ∷ []) = c
last (c ∷ d ∷ s) = last (d ∷ s)

abbrev pub without_last : List ℕ → List ℕ
without_last [] = []
without_last (c ∷ []) = []
without_last (c ∷ d ∷ s) = c ∷ without_last (d ∷ s)

-- The end of a round of the loop that reads, with `rest` the rounds that follow.
received : List ℕ → List ℕ → Outcome Failure (List ℕ) → Outcome Failure (List ℕ)
received buffer [] rest = stop closed
received buffer (c ∷ s) rest =
    if last (buffer ++ c ∷ s) == b'\n' then ok (without_last (buffer ++ c ∷ s)) else rest

-- The loop that reads until the last byte is an end of line, which it takes off. `buffer` is what
-- has come; a read returns at most what the array has room for.
unfoldable pub read_line : ℕ → List ReadAnswer → List ℕ → Outcome Failure (List ℕ)
unfolding received
read_line size [] buffer = stop no_more
read_line size (eof ∷ answers) buffer = stop closed
read_line size (read_failed e ∷ answers) buffer = stop failed
read_line size (got s ∷ answers) buffer =
    let s' = take (size - length buffer) s in
    received buffer s' (read_line size answers (buffer ++ s'))
