-- ===== src/Circular/Concurrent/Race.antt =====
-- What goes wrong where the producer enters `put_circ` on a ring with no room: `get_circ` stores
-- `readPos + 1` before it wraps it to 0, and `put_circ` may compare in between.
use slg.Base.{◌+◌, ◌≡◌, ◌≢◌, refl, [], ◌∷◌, ◌++◌, arith, length, length-append, set, some}
use slg.Base.Int.{ℤ}
use slg.Circular.{advance, circ_buf_error, get_circ}
use slg.Circular.Concurrent.{
  System, Reach, here, next, Putting, Getting, bumped, put_enter, put_check, put_write, put_publish,
  get_wrap,
}
use slg.Circular.Concurrent.Inv.{Inv, sizes}

-- No discipline: `put_circ` may be entered at any time.
abbrev pub Anytime : System → Type 0
Anytime s = Unit {0}

-- The state after the put and the wrap.
abbrev pub lost : System → ℤ → System
lost s e = record s {
  ring = record {
    buffer = set s.buffer s.write_pos e;
    size = s.size;
    write_pos = advance s.size s.write_pos;
    read_pos = 0;
  };
  producer = Putting.away;
  consumer = Getting.away;
  sent = s.sent ++ (e ∷ []);
}

-- From every state that satisfies the invariant, where the consumer is between its two stores at the
-- end of the array and the ring behind it is full, an unrestrained producer can complete a put such
-- that the ring then looks empty to `get_circ`, though `size` ints were sent and not received.
pub wrap_race :
    (s : System) (v e : ℤ)
    → Inv s
    → s.producer ≡ Putting.away
    → s.consumer ≡ bumped v
    → s.read_pos ≡ s.size
    → s.write_pos + 1 ≡ s.size
    → (t : System) × Reach Anytime s t
      × (get_circ t.ring ≡ some (circ_buf_error, t.ring))
      × (length t.sent ≡ length t.received + t.size)
unfolding get_circ
wrap_race s v e i idle wraps at_end full =
    (lost s e, steps, ground arith, ground (arith, sizes i, length-append s.sent (e ∷ [])))
  where
    checks : advance s.size s.write_pos ≢ s.read_pos
    checks = ground arith

    put_done : Reach Anytime s (record (lost s e) {
      ring = record (lost s e).ring { read_pos = s.read_pos };
      consumer = s.consumer;
    })
    put_done =
        next
          (next (next (next here (put_enter e idle tt)) (put_check _ e refl checks))
            (put_write _ e refl))
          (put_publish _ e refl)

    steps : Reach Anytime s (lost s e)
    steps = next put_done (get_wrap v wraps at_end)
