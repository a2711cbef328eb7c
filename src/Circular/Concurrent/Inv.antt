-- ===== src/Circular/Concurrent/Inv.antt =====
-- What holds at each access, if the producer enters `put_circ` only where it has room.
use slg.Base.{
  ℕ, suc, ◌+◌, ◌-◌, ◌<◌, ◌≡◌, ◌≢◌, refl, [], ◌∷◌, ◌++◌, arith, length, get_or, set, length-set,
  length-append, get_or-set_self, get_or-set_ne, ◌==◌, if◌then◌else◌, append_assoc,
}
use slg.Base.Int.{ℤ, pos}
use slg.Circular.{advance}
use slg.Circular.Window.{
  window, distance, length-window, window_of_ne_zero, window-set_past, window-suc,
}
use slg.Circular.Concurrent.{
  System, Step, Putting, Getting, computed, checked, written, nonempty, loaded, bumped, put_enter,
  put_full, put_check, put_write, put_publish, get_empty, get_enter, get_load, get_bump, get_wrap,
  get_stay, in_hand, HasRoom,
}

-- The position that `readPos` stands for: at `bumped` it may be `size` for a moment.
abbrev pub front : Getting → ℕ → ℕ → ℕ
front (bumped v) size r = if r == size then 0 else r
front _ size r = r

abbrev pub head : System → ℕ
head s = front s.consumer s.size s.read_pos

-- how many ints the ring holds
abbrev pub held : System → ℕ
held s = distance s.size (head s) s.write_pos

-- What the locals of the producer say about shared memory.
abbrev pub Puts : System → Putting → Type 0
Puts s Putting.away = Unit {0}
Puts s (computed p e) =
    (p ≡ advance s.size s.write_pos) × (held s + in_hand s.consumer + 1 < s.size)
Puts s (checked p e) = (p ≡ advance s.size s.write_pos) × (held s + in_hand s.consumer + 1 < s.size)
Puts s (written p e) =
    (p ≡ advance s.size s.write_pos)
    × (held s + in_hand s.consumer + 1 < s.size)
    × (get_or s.buffer s.write_pos (pos 0) ≡ e)

-- What the locals of the consumer say.
abbrev pub Gets : System → Getting → Type 0
Gets s Getting.away = Unit {0}
Gets s nonempty = 0 < held s
Gets s (loaded v) = (0 < held s) × (v ≡ get_or s.buffer s.read_pos (pos 0))
Gets s (bumped v) = Unit {0}

pub record Inv (s : System) : Type 0 where
  pub storage : length s.buffer ≡ s.size
  pub write_in : s.write_pos < s.size
  pub read_in : head s < s.size
  pub history : s.sent ≡ s.received ++ window s.buffer s.size (head s) (held s)
  pub puts : Puts s s.producer
  pub gets : Gets s s.consumer

pub sizes : {s : System} → Inv s → length s.sent ≡ length s.received + held s
sizes {s} i =
    rw i.history
      (rw (length-append s.received _, length-window s.buffer s.size (head s) (held s)) refl)

put_enter-Inv :
    (s : System) (e : ℤ)
    → Inv s
    → HasRoom s
    → Inv (record s { producer = computed (advance s.size s.write_pos) e })
put_enter-Inv s e i r = ground (arith, sizes i)

put_check-Inv :
    (s : System) (p : ℕ) (e : ℤ)
    → Inv s
    → s.producer ≡ computed p e
    → Inv (record s { producer = checked p e })
put_check-Inv s p e i q = ground arith

put_write-Inv :
    (s : System) (p : ℕ) (e : ℤ)
    → Inv s
    → s.producer ≡ checked p e
    → Inv (record s {
      ring = record (s.ring) { buffer = set s.buffer s.write_pos e };
      producer = written p e;
    })
put_write-Inv s p e i q = ground (
  arith,
  length-set s.buffer s.write_pos e,
  window-set_past s.buffer s.size e (held s) (head s) s.write_pos,
  get_or-set_self s.buffer s.write_pos e (pos 0),
  get_or-set_ne s.buffer s.write_pos s.read_pos e (pos 0),
)

put_publish-Inv :
    (s : System) (p : ℕ) (e : ℤ)
    → Inv s
    → s.producer ≡ written p e
    → Inv (record s {
      ring = record (s.ring) { write_pos = p };
      producer = Putting.away;
      sent = s.sent ++ (e ∷ []);
    })
put_publish-Inv s p e i q = record {
  storage = i.storage;
  write_in = ground arith;
  read_in = i.read_in;
  history = published;
  puts = tt;
  gets = ground arith;
}
  where
    grown : distance s.size (head s) p ≡ suc (held s)
    grown = ground arith

    last : get_or s.buffer s.write_pos (pos 0) ≡ e
    last = ground arith

    published :
        s.sent ++ (e ∷ [])
        ≡ s.received ++ window s.buffer s.size (head s) (distance s.size (head s) p)
    published = rw (
      grown,
      window-suc s.buffer s.size (held s) (head s) s.write_pos i.read_in i.write_in refl,
      last,
      ← append_assoc s.received (window s.buffer s.size (head s) (held s)) (e ∷ []),
      ← i.history,
    )

get_enter-Inv :
    (s : System)
    → Inv s
    → s.consumer ≡ Getting.away
    → s.read_pos ≢ s.write_pos
    → Inv (record s { consumer = nonempty })
get_enter-Inv s i q ne = ground arith

get_load-Inv :
    (s : System)
    → Inv s
    → s.consumer ≡ nonempty
    → Inv (record s { consumer = loaded (get_or s.buffer s.read_pos (pos 0)) })
get_load-Inv s i q = ground arith

get_bump-Inv :
    (s : System) (v : ℤ)
    → Inv s
    → s.consumer ≡ loaded v
    → Inv (record s {
      ring = record (s.ring) { read_pos = s.read_pos + 1 };
      consumer = bumped v;
      received = s.received ++ (v ∷ []);
    })
get_bump-Inv s v i q = ground (
  arith,
  window_of_ne_zero s.buffer s.size s.read_pos (held s),
  append_assoc s.received (v ∷ [])
      (window s.buffer s.size (advance s.size s.read_pos) (held s - 1)),
)

get_wrap-Inv :
    (s : System) (v : ℤ)
    → Inv s
    → s.consumer ≡ bumped v
    → s.read_pos ≡ s.size
    → Inv (record s { ring = record (s.ring) { read_pos = 0 }; consumer = Getting.away })
get_wrap-Inv s v i q e = ground arith

get_stay-Inv :
    (s : System) (v : ℤ)
    → Inv s
    → s.consumer ≡ bumped v
    → s.read_pos ≢ s.size
    → Inv (record s { consumer = Getting.away })
get_stay-Inv s v i q ne = ground arith

-- Every step keeps the invariant.
pub Step-Inv : {s t : System} → Step HasRoom s t → Inv s → Inv t
Step-Inv {s} (put_enter e q room) i = put_enter-Inv s e i room
Step-Inv {s} (put_full p e q eq) i = ground arith
Step-Inv {s} (put_check p e q ne) i = put_check-Inv s p e i q
Step-Inv {s} (put_write p e q) i = put_write-Inv s p e i q
Step-Inv {s} (put_publish p e q) i = put_publish-Inv s p e i q
Step-Inv {s} (get_empty q eq) i = i
Step-Inv {s} (get_enter q ne) i = get_enter-Inv s i q ne
Step-Inv {s} (get_load q) i = get_load-Inv s i q
Step-Inv {s} (get_bump v q) i = get_bump-Inv s v i q
Step-Inv {s} (get_wrap v q e) i = get_wrap-Inv s v i q e
Step-Inv {s} (get_stay v q ne) i = get_stay-Inv s v i q ne
