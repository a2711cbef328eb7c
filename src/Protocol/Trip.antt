-- ===== src/Protocol/Trip.antt =====
-- An order that slg_master.c prints, read by slg.c.
use slg.Base.{
  ℕ, ◌^◌, ◌+◌, ◌*◌, ◌<◌, ◌≡◌, ap, ◌∙◌, List, [], ◌∷◌, ◌++◌, some, append_assoc, map, length,
  length-append, arith, lt→ltb,
}
use slg.Base.Int.{pos}
use slg.Base.Word.{u64}
use slg.Base.Outcome.{ok}
use slg.Base.Text.{atoi}
use slg.Base.Tokens.{IsField, strtok-field, strtok-last, IsNumeral-IsField}
use slg.Base.Decimal.{decimal, print_int, decimal-IsNumeral, atoi-decimal}
use slg.Os.{got}
use slg.Protocol.Fields.{commas, AreFields, c_string-commas, NoNewline-commas}
use slg.Protocol.Order.{
  Order, Parameters, order_message, wait_master_order, read_fields, parse_order,
}
use slg.Protocol.Reading.{concat, NonemptyParts, read_line-parts}

-- An order whose names can be fields and whose numbers an int holds.
abbrev pub IsOrder : Order → Type 0
IsOrder o =
    IsField o.name
    × IsField o.target
    × (o.slave < 2 ^ 31)
    × (o.target_port < 2 ^ 31)
    × (o.clients < 2 ^ 31)
    × (o.length_in_seconds < 2 ^ 31)
    × (o.msg_per_connection < 2 ^ 31)
    × (o.delay < 2 ^ 31)

print_int-IsField : (n : ℕ) → n < 2 ^ 31 → IsField (print_int n)
unfolding print_int
print_int-IsField n h =
    rw (lt→ltb n (2 ^ 31) h) (IsNumeral-IsField (decimal n) (decimal-IsNumeral n))

atoi-print_int : (n : ℕ) → n < 2 ^ 31 → atoi (print_int n) ≡ pos n
unfolding print_int
atoi-print_int n h = rw (lt→ltb n (2 ^ 31) h, atoi-decimal n)

-- The order without its end of line.
order_fields : Order → List (List ℕ)
order_fields o =
    o.name
    ∷ o.target
    ∷ print_int o.target_port
    ∷ print_int o.clients
    ∷ print_int o.length_in_seconds
    ∷ print_int o.msg_per_connection
    ∷ print_int o.delay
    ∷ []

order_line : Order → List ℕ
unfolding order_fields
order_line o = commas (print_int o.slave) (order_fields o)

order_message-line : (o : Order) → order_message o ≡ order_line o ++ b'\n' ∷ []
unfolding order_message order_line order_fields
order_message-line o = simp append_assoc

order_fields-AreFields : (o : Order) → IsOrder o → AreFields (print_int o.slave ∷ order_fields o)
unfolding order_fields
order_fields-AreFields o (n, t, a, b, c, d, e, f) =
    let field = print_int-IsField in
    (
      field o.slave a,
      (
        n,
        (
          t,
          (
            field o.target_port b,
            (
              field o.clients c,
              (field o.length_in_seconds d, (field o.msg_per_connection e, (field o.delay f, tt))),
            ),
          ),
        ),
      ),
    )

-- The parameters that the master meant.
unfoldable pub ordered : ℕ → Order → Parameters
ordered proc_freq o = record {
  slave_num = pos o.slave;
  reporting_address = some o.name;
  host = some o.target;
  port = o.target_port;
  nb_clients = o.clients;
  duration = u64 (o.length_in_seconds * proc_freq);
  nb_msg_per_connection = o.msg_per_connection;
  delay = o.delay;
}

read_fields-line :
    (proc_freq : ℕ) (o : Order)
    → IsOrder o
    → read_fields proc_freq (order_line o) ≡ ok (ordered proc_freq o)
unfolding read_fields ordered order_line order_fields
read_fields-line proc_freq o (n, t, a, b, c, d, e, f) =
    let slave = print_int-IsField o.slave a in
    let port = print_int-IsField o.target_port b in
    let clients = print_int-IsField o.clients c in
    let seconds = print_int-IsField o.length_in_seconds d in
    let msg = print_int-IsField o.msg_per_connection e in
    let last = print_int-IsField o.delay f in
    rw
      (
        strtok-field (print_int o.slave),
        slave,
        strtok-field o.name,
        n,
        strtok-field o.target,
        t,
        strtok-field (print_int o.target_port),
        port,
        strtok-field (print_int o.clients),
        clients,
        strtok-field (print_int o.length_in_seconds),
        seconds,
        strtok-field (print_int o.msg_per_connection),
        msg,
        strtok-last (print_int o.delay),
        last,
        atoi-print_int o.slave a,
        atoi-print_int o.target_port b,
        atoi-print_int o.clients c,
        atoi-print_int o.length_in_seconds d,
        atoi-print_int o.msg_per_connection e,
        atoi-print_int o.delay f,
      )
      ground arith

-- An order that the master prints for a slave is read by the slave as the parameters it was printed
-- from, with the duration in cycles, into whatever nonempty parts the connection cuts it, if its two
-- names are nonempty and without NUL, comma and end of line, its six numbers are below 2 ^ 31, and it
-- is shorter than the slave's buffer.
pub wait_master_order-order_message :
    (proc_freq : ℕ) (o : Order) (parts : List (List ℕ))
    → IsOrder o
    → length (order_message o) < 256
    → NonemptyParts parts
    → concat parts ≡ order_message o
    → wait_master_order proc_freq (map got parts) ≡ ok (ordered proc_freq o)
unfolding wait_master_order parse_order order_line order_fields
wait_master_order-order_message proc_freq o parts h l p e =
    let line = order_line o in
    let m : order_message o ≡ line ++ b'\n' ∷ [] = order_message-line o in
    let fields = order_fields-AreFields o h in
    let k : length line + 1 < 256 =
      omega (arith, l, ap length m, length-append line (b'\n' ∷ [])) in
    let n = NoNewline-commas (print_int o.slave) (order_fields o) fields in
    let r = read_line-parts 256 parts [] line p (e ∙ m) n (omega arith) in
    rw (
      r,
      lt→ltb (length line + 1) 256 k,
      c_string-commas (print_int o.slave) (order_fields o) fields,
      read_fields-line proc_freq o h,
    )
