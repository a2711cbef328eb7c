-- ===== src/Slave/Invariant.antt =====
-- Who has which client: each is in exactly one of the two buffers or with one of the two threads, in a
-- state that fits. Every round of a thread keeps this, and ends in no fault of the protocol.
pub mod Steps
pub mod Moves
use slg.Base.{ℕ, zero, suc, ◌+◌, ◌≤◌, ◌<◌, ◌≡◌, ◌⊎◌, List, Bool, true, false, AllBelow, count}
use slg.Client.{Client, State, reading, writing, connecting}
use slg.Client.Lifecycle.{IsLive}
use slg.Slave.{System}
use slg.Slave.Queues.{Queues}

abbrev pub flag : Bool → ℕ
flag true = 1
flag false = 0

abbrev pub FitsWriter : Client → Type 0
FitsWriter c = IsLive c × ((c.state ≡ connecting) ⊎ (c.state ≡ writing))

abbrev pub FitsReader : Client → Type 0
FitsReader c = IsLive c × (c.state ≡ reading)

-- `ws` and `rs` are the numbers in the write and the read buffer, oldest first.
pub record Owned (s : System) (ws rs : List ℕ) : Type 0 where
  pub write_queue : Queues s.config.nb_clients ws s.to_write_buffer
  pub read_queue : Queues s.config.nb_clients rs s.to_read_buffer
  pub write_below : AllBelow s.config.nb_clients ws
  pub read_below : AllBelow s.config.nb_clients rs
  pub once :
      (i : ℕ)
      → i < s.config.nb_clients
      → count i ws + flag (s.internal_to_write i) + count i rs + flag (s.internal_to_read i) ≡ 1
  pub with_writer :
      (i : ℕ)
      → i < s.config.nb_clients
      → count i ws + flag (s.internal_to_write i) ≡ 1
      → FitsWriter (s.all_clients i)
  pub with_reader :
      (i : ℕ)
      → i < s.config.nb_clients
      → count i rs + flag (s.internal_to_read i) ≡ 1
      → FitsReader (s.all_clients i)

-- The statement with the queues left open, as the steps keep it.
pub record Inv (s : System) : Type 0 where
  pub ws : List ℕ
  pub rs : List ℕ
  pub owned : Owned s ws rs
