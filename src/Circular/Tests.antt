-- ===== src/Circular/Tests.antt =====
-- The circular buffer on concrete inputs.
use slg.Base.{
  ℕ, ◌+◌, ◌<◌, ◌≡◌, ◌≢◌, refl, List, [], ◌∷◌, ◌++◌, none, some, true, false, arith, length,
}
use mathlib.Core.Option.{bind}
use slg.Base.Int.{ℤ, pos, negsuc}
use slg.Circular.{
  CircularBuffer, circ_buf_error, open_circ, close_circ, get_circ, put_circ, print_circ, no_mark,
  r_mark, w_mark,
}
use slg.Circular.Queue
use slg.Circular.Queue.{Op, get, put}
use slg.Circular.Refine.{run, run_refines}
use slg.Circular.Concurrent.{
  System, Reach, here, next, Putting, Getting, computed, checked, nonempty, bumped, put_enter,
  put_check, put_write, put_publish, fresh, HasRoom,
}
use slg.Circular.Concurrent.Order.{interleaved_order, interleaved_accesses}
use slg.Circular.Concurrent.Race.{Anytime, wrap_race}
use slg.Circular.Concurrent.Inv.{Inv}

abbrev garbage : CircularBuffer
garbage = record { buffer = []; size = 9; write_pos = 9; read_pos = 9 }

-- room for two
abbrev empty_two : CircularBuffer
empty_two = record { buffer = pos 0 ∷ pos 0 ∷ pos 0 ∷ []; size = 3; write_pos = 0; read_pos = 0 }

-- 8, then 9, round the end
abbrev wrapped : CircularBuffer
wrapped = record { buffer = pos 9 ∷ pos 7 ∷ pos 8 ∷ []; size = 3; write_pos = 1; read_pos = 2 }

abbrev script : List Op
script = put (pos 4) ∷ get ∷ put (pos 5) ∷ get ∷ get ∷ get ∷ []

open_two : open_circ true (some garbage) 2 ≡ some empty_two
unfolding open_circ
open_two = refl

open_fails : (open_circ false (some garbage) 2 ≡ none) × (open_circ true none 2 ≡ none)
unfolding open_circ
open_fails = (refl, refl)

run-wrapped : run wrapped script ≡ some (negsuc 0 ∷ pos 8 ∷ pos 5 ∷ pos 9 ∷ pos 5 ∷ negsuc 0 ∷ [])
unfolding run get_circ put_circ bind
run-wrapped = refl

-- After `close_circ` a put writes to freed memory.
put_after_close : bind (close_circ (some wrapped)) (λ cb. put_circ cb (pos 1)) ≡ none
unfolding bind close_circ put_circ
put_after_close = refl

print_wrapped :
    print_circ wrapped ≡ some (3, 2, 1, pos 9 ∷ pos 7 ∷ pos 8 ∷ [], no_mark ∷ w_mark ∷ r_mark ∷ [])
unfolding print_circ bind
print_wrapped = refl

run_refines_example : run wrapped script ≡ some (Queue.run 2 (pos 8 ∷ pos 9 ∷ []) script)
run_refines_example = run_refines script wrapped (omega arith)

-- a put of 7 under way, and completed
abbrev putting :
    Reach HasRoom (fresh empty_two) (record (fresh empty_two) { producer = checked 1 (pos 7) })
putting =
    next (next here (put_enter (pos 7) refl (omega arith))) (put_check 1 (pos 7) refl (omega arith))

abbrev one_sent : System
one_sent = record {
  ring = record empty_two { buffer = pos 7 ∷ pos 0 ∷ pos 0 ∷ []; write_pos = 1 };
  producer = Putting.away;
  consumer = Getting.away;
  sent = pos 7 ∷ [];
  received = [];
}

sending : Reach HasRoom (fresh empty_two) one_sent
sending = next (next putting (put_write 1 (pos 7) refl)) (put_publish 1 (pos 7) refl)

interleaved_order_example :
    (rest : List ℤ) × (◌≡◌ {A = List ℤ} (pos 7 ∷ []) ([] ++ rest)) × (length rest < 3)
unfolding open_circ
interleaved_order_example = interleaved_order garbage 2 {s = one_sent} refl sending

interleaved_accesses_example :
    ((p : ℕ) (e : ℤ) → checked 1 (pos 7) ≡ computed p e → p ≢ 0)
    × ((p : ℕ) (e : ℤ) → checked 1 (pos 7) ≡ checked p e → 0 < 3)
    × (Getting.away ≡ nonempty → 0 < 3)
unfolding open_circ
interleaved_accesses_example = interleaved_accesses garbage 2 refl putting

-- a ring for one int, full, with the consumer about to wrap
abbrev at_wrap : System
at_wrap = record {
  ring = record { buffer = pos 3 ∷ pos 2 ∷ []; size = 2; write_pos = 1; read_pos = 2 };
  producer = Putting.away;
  consumer = bumped (pos 2);
  sent = pos 2 ∷ pos 3 ∷ [];
  received = pos 2 ∷ [];
}

at_wrap-Inv : Inv at_wrap
at_wrap-Inv = record {
  storage = refl;
  write_in = omega arith;
  read_in = omega arith;
  history = refl;
  puts = tt;
  gets = tt;
}

wrap_race_example :
    (t : System) × Reach Anytime at_wrap t
    × (get_circ t.ring ≡ some (circ_buf_error, t.ring))
    × (length t.sent ≡ length t.received + t.size)
wrap_race_example = wrap_race at_wrap (pos 2) (pos 4) at_wrap-Inv refl refl refl refl
