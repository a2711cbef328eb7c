-- ===== src/Os.antt =====
-- What the system calls answer. The kernel and the network are outside the repository: each handler
-- takes the answers of its calls as arguments, in the order in which it makes them.
use slg.Base.{ℕ, List, Bool}

-- the values of errno that the code tells apart (EAGAIN is EWOULDBLOCK)
pub data Errno : Type 0 where
  eagain einprogress eaddrnotavail econnaborted etimedout econnrefused econnreset epipe other :
      Errno

-- `read`: bytes, the end of the stream, or -1
pub data ReadAnswer : Type 0 where
  got : List ℕ → ReadAnswer
  eof : ReadAnswer
  read_failed : Errno → ReadAnswer

-- `write`: the number of bytes taken, or -1
pub data WriteAnswer : Type 0 where
  wrote : ℕ → WriteAnswer
  write_failed : Errno → WriteAnswer

-- `getsockopt` of SO_ERROR: -1, no error, or the pending error
pub data PendingAnswer : Type 0 where
  no_answer clear : PendingAnswer
  pending : Errno → PendingAnswer

-- `connect`: whether it returned 0, and errno, which the code reads in either case
pub record ConnectAnswer : Type 0 where
  pub connected : Bool
  pub err : Errno
