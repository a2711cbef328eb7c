-- ===== src/Circular/Concurrent.antt =====
-- circular_buffer.c under its two threads: one producer in `put_circ` and one consumer in
-- `get_circ`, interleaved at each access to the shared fields, in the order of the C text. The
-- shared memory is sequentially consistent. `sent` and `received` are the history: a value is sent
-- when `writePos` passes it, and received when `readPos` does.
pub mod Inv
pub mod Order
pub mod Race
use slg.Base.{ℕ, ◌+◌, ◌<◌, ◌≡◌, ◌≢◌, List, [], ◌∷◌, ◌++◌, Option, none, some, get_or, set, length}
use slg.Base.Int.{ℤ, pos}
use slg.Circular.{CircularBuffer, advance}

-- Where the producer stands in `put_circ`.
pub data Putting : Type 0 where
  away : Putting
  computed : (p : ℕ) (e : ℤ) → Putting
  checked : (p : ℕ) (e : ℤ) → Putting
  written : (p : ℕ) (e : ℤ) → Putting

-- Where the consumer stands in `get_circ`. At `bumped` it has stored `readPos + 1`, and has not yet
-- compared it with `size`.
pub data Getting : Type 0 where
  away : Getting
  nonempty : Getting
  loaded : (v : ℤ) → Getting
  bumped : (v : ℤ) → Getting

pub record System : Type 0 where
  pub ring : CircularBuffer
  pub open ring use *
  pub producer : Putting
  pub consumer : Getting
  pub sent : List ℤ
  pub received : List ℤ

-- One access. `Allowed` is what the callers keep to: it must hold of a state where `put_circ` is
-- entered.
pub data Step (Allowed : System → Type 0) (s : System) : System → Type 0 where
  put_enter :
      (e : ℤ)
      → s.producer ≡ away
      → Allowed s
      → Step Allowed s (record s { producer = computed (advance s.size s.write_pos) e })
  put_full :
      (p : ℕ) (e : ℤ)
      → s.producer ≡ computed p e
      → p ≡ s.read_pos
      → Step Allowed s (record s { producer = away })
  put_check :
      (p : ℕ) (e : ℤ)
      → s.producer ≡ computed p e
      → p ≢ s.read_pos
      → Step Allowed s (record s { producer = checked p e })
  put_write :
      (p : ℕ) (e : ℤ)
      → s.producer ≡ checked p e
      → Step Allowed s (record s {
        ring = record (s.ring) { buffer = set s.buffer s.write_pos e };
        producer = written p e;
      })
  put_publish :
      (p : ℕ) (e : ℤ)
      → s.producer ≡ written p e
      → Step Allowed s (record s {
        ring = record (s.ring) { write_pos = p };
        producer = away;
        sent = s.sent ++ (e ∷ []);
      })
  get_empty : s.consumer ≡ away → s.read_pos ≡ s.write_pos → Step Allowed s s
  get_enter :
      s.consumer ≡ away
      → s.read_pos ≢ s.write_pos
      → Step Allowed s (record s { consumer = nonempty })
  get_load :
      s.consumer ≡ nonempty
      → Step Allowed s (record s { consumer = loaded (get_or s.buffer s.read_pos (pos 0)) })
  get_bump :
      (v : ℤ)
      → s.consumer ≡ loaded v
      → Step Allowed s (record s {
        ring = record (s.ring) { read_pos = s.read_pos + 1 };
        consumer = bumped v;
        received = s.received ++ (v ∷ []);
      })
  get_wrap :
      (v : ℤ)
      → s.consumer ≡ bumped v
      → s.read_pos ≡ s.size
      → Step Allowed s (record s { ring = record (s.ring) { read_pos = 0 }; consumer = away })
  get_stay :
      (v : ℤ)
      → s.consumer ≡ bumped v
      → s.read_pos ≢ s.size
      → Step Allowed s (record s { consumer = away })

pub data Reach (Allowed : System → Type 0) (s : System) : System → Type 0 where
  here : Reach Allowed s s
  next : {t u : System} → Reach Allowed s t → Step Allowed t u → Reach Allowed s u

-- The state in which `open_circ` leaves a buffer for `size` ints.
abbrev pub fresh : CircularBuffer → System
fresh cb = record { ring = cb; producer = away; consumer = away; sent = []; received = [] }

-- The ints that are in the buffer or in the hand of a thread inside a call: those sent, less those
-- whose `get_circ` has returned.
abbrev pub in_hand : Getting → ℕ
in_hand (bumped v) = 1
in_hand _ = 0

abbrev pub outstanding : System → ℕ
outstanding s = length s.sent + in_hand s.consumer

-- The discipline of the two threads: with the new int there are never more than `size - 1`.
abbrev pub HasRoom : System → Type 0
HasRoom s = outstanding s + 1 < s.size + length s.received
