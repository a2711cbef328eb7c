-- ===== src/Protocol/Orders.antt =====
-- The orders that `send_order_to_slaves` of slg_master.c sends to all slaves.
use slg.Base.{
  ℕ, ◌+◌, ◌≡◌, refl, sym, ap, ◌∙◌, List, [], ◌∷◌, ◌++◌, append_assoc, Bool, map, length, take-all,
  arith, if◌then◌else◌,
}
use slg.Base.Word.{to_u32}
use slg.Base.Decimal.{print_int}
use slg.Protocol.Fields.{commas}
use slg.Base.Int.{ℤ}
use slg.Base.Outcome.{ok}
use slg.Os.{WriteAnswer, wrote}
use slg.Protocol.Order.{
  order_duration, Order, Load, order_for, order_message, write_order, send_order_to_slaves,
}

-- The orders for the slaves from number `i` on.
abbrev pub orders : Load → Bool → List ℕ → ℕ → List (List ℕ × ℤ) → List Order
orders l warmup name i [] = []
orders l warmup name i (s ∷ slaves) =
    order_for l warmup name i s ∷ orders l warmup name (i + 1) slaves

-- A call of `write` that takes an order whole.
abbrev pub takes_whole : Order → List WriteAnswer
takes_whole o = wrote (length (order_message o)) ∷ []

write_order-whole : (msg : List ℕ) → write_order msg (wrote (length msg) ∷ []) 0 [] ≡ ok msg
unfolding write_order
write_order-whole msg = ground (arith, take-all (length msg) msg)

pub send_order_to_slaves-orders :
    (l : Load) (warmup : Bool) (name : List ℕ) (i : ℕ) (slaves : List (List ℕ × ℤ))
    → send_order_to_slaves l warmup name i slaves (map takes_whole (orders l warmup name i slaves))
      ≡ ok (map order_message (orders l warmup name i slaves))
unfolding send_order_to_slaves
send_order_to_slaves-orders l warmup name i [] = refl
send_order_to_slaves-orders l warmup name i (s ∷ slaves) =
    let o = order_for l warmup name i s in
    rw (
      write_order-whole (order_message o),
      send_order_to_slaves-orders l warmup name (i + 1) slaves,
    )

-- The line for slave number `i`: its number, the master's name, the target's name and port, the clients,
-- the seconds of the warmup or of the run, the messages of a connection and the delay.
abbrev pub order_line : Load → Bool → List ℕ → ℕ → List ℕ × ℤ → List ℕ
order_line l warmup name i (target, port) =
    commas (print_int i) (
      name
      ∷ target
      ∷ print_int (to_u32 port)
      ∷ print_int l.nb_clients
      ∷ print_int (if warmup then l.warmup_length else l.duration)
      ∷ print_int l.nb_msg_per_connection
      ∷ print_int l.delay
      ∷ [])
    ++ b'\n' ∷ []

-- The lines for the targets, numbered from `i` on.
abbrev pub order_lines : Load → Bool → List ℕ → ℕ → List (List ℕ × ℤ) → List (List ℕ)
order_lines l warmup name i [] = []
order_lines l warmup name i (s ∷ slaves) =
    order_line l warmup name i s ∷ order_lines l warmup name (i + 1) slaves

-- A call of `write` that takes a line whole.
abbrev pub takes_line : List ℕ → List WriteAnswer
takes_line line = wrote (length line) ∷ []

order_message-line :
    (l : Load) (warmup : Bool) (name : List ℕ) (i : ℕ) (s : List ℕ × ℤ)
    → order_message (order_for l warmup name i s) ≡ order_line l warmup name i s
unfolding order_message order_for order_duration
order_message-line l warmup name i (target, port) = simp append_assoc

orders-order_lines :
    (l : Load) (warmup : Bool) (name : List ℕ) (i : ℕ) (slaves : List (List ℕ × ℤ))
    → map order_message (orders l warmup name i slaves) ≡ order_lines l warmup name i slaves
orders-order_lines l warmup name i [] = refl
orders-order_lines l warmup name i (s ∷ slaves) =
    rw (order_message-line l warmup name i s, orders-order_lines l warmup name (i + 1) slaves) refl

takes_whole-order_lines :
    (l : Load) (warmup : Bool) (name : List ℕ) (i : ℕ) (slaves : List (List ℕ × ℤ))
    → map takes_whole (orders l warmup name i slaves)
      ≡ map takes_line (order_lines l warmup name i slaves)
takes_whole-order_lines l warmup name i [] = refl
takes_whole-order_lines l warmup name i (s ∷ slaves) =
    rw (order_message-line l warmup name i s, takes_whole-order_lines l warmup name (i + 1) slaves)
      refl

-- Where a first call of `write` on each connection takes its line whole, the connection of each slave
-- carries one line and nothing else: the slave's number, counted from the first one on, the name of the
-- master, the host and the port of the slave's target, the number of clients, the seconds of the warmup
-- or of the run, the messages of a connection and the delay, with commas between them.
pub send_order_to_slaves-whole :
    (l : Load) (warmup : Bool) (name : List ℕ) (i : ℕ) (slaves : List (List ℕ × ℤ))
    → send_order_to_slaves l warmup name i slaves
        (map takes_line (order_lines l warmup name i slaves))
      ≡ ok (order_lines l warmup name i slaves)
send_order_to_slaves-whole l warmup name i slaves =
    ap (send_order_to_slaves l warmup name i slaves)
      (sym (takes_whole-order_lines l warmup name i slaves))
    ∙ send_order_to_slaves-orders l warmup name i slaves
    ∙ ap ok (orders-order_lines l warmup name i slaves)
