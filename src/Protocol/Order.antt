-- ===== src/Protocol/Order.antt =====
-- An order: `send_order_to_slaves` of slg_master.c writes it, `waitMasterOrder` of slg.c reads it.
use slg.Base.{
  ℕ, ◌+◌, ◌-◌, ◌*◌, List, [], ◌∷◌, ◌++◌, Option, none, some, Bool, length, take, ◌==◌,
  if◌then◌else◌, ltb,
}
use slg.Base.Int.{ℤ}
use slg.Base.Word.{u64, to_u32, to_u64}
use slg.Base.Text.{c_string, atoi}
use slg.Base.Decimal.{print_int}
use slg.Base.Tokens.{strtok, comma}
use slg.Base.Outcome.{Outcome, ok, stop, ◌>>=◌}
use slg.Protocol.Line.{Failure, no_more, failed, too_long, missing_field, read_line}
use slg.Os.{ReadAnswer, WriteAnswer, wrote, write_failed}

-- What the master tells a slave; the numbers are the 32 bits of ints and unsigned ints.
pub record Order : Type 0 where
  pub slave : ℕ
  pub name : List ℕ
  pub target : List ℕ
  pub target_port : ℕ
  pub clients : ℕ
  pub length_in_seconds : ℕ
  pub msg_per_connection : ℕ
  pub delay : ℕ

-- `duration`, or the length of the warmup
unfoldable pub order_duration : Bool → ℕ → ℕ → ℕ
order_duration warmup duration warmup_length = if warmup then warmup_length else duration

-- "%d,%s,%s,%d,%d,%d,%d,%d\n"
unfoldable pub order_message : Order → List ℕ
order_message o =
    print_int o.slave
    ++ b','
      ∷ (o.name
          ++ b','
            ∷ (o.target
                ++ b','
                  ∷ (print_int o.target_port
                      ++ b','
                        ∷ (print_int o.clients
                            ++ b','
                              ∷ (print_int o.length_in_seconds
                                  ++ b','
                                    ∷ (print_int o.msg_per_connection
                                        ++ b',' ∷ (print_int o.delay ++ b'\n' ∷ [])))))))

-- The loop that writes: `cnt` adds up the answers, -1 included, and each call starts from the start
-- of the message. The result is what the connection has carried.
unfoldable pub write_order : List ℕ → List WriteAnswer → ℕ → List ℕ → Outcome Failure (List ℕ)
write_order msg [] cnt sent = stop no_more
write_order msg (wrote k ∷ answers) cnt sent =
    let sent' = sent ++ take k msg in
    let rest = write_order msg answers (cnt + k) sent' in
    if ltb (cnt + k) (length msg) then rest else ok sent'
write_order msg (write_failed e ∷ answers) cnt sent =
    let rest = write_order msg answers (cnt - 1) sent in
    if cnt == 0 then stop failed else if ltb (cnt - 1) (length msg) then rest else ok sent

-- The globals of the master that go into an order, as words of 32 bits.
pub record Load : Type 0 where
  pub nb_clients : ℕ
  pub duration : ℕ
  pub warmup_length : ℕ
  pub nb_msg_per_connection : ℕ
  pub delay : ℕ

-- The order for slave `i`, which plays against a host and a port; `name` is the master's.
unfoldable pub order_for : Load → Bool → List ℕ → ℕ → List ℕ × ℤ → Order
unfolding order_duration
order_for l warmup name i (target, port) = record {
  slave = i;
  name = name;
  target = target;
  target_port = to_u32 port;
  clients = l.nb_clients;
  length_in_seconds = order_duration warmup l.duration l.warmup_length;
  msg_per_connection = l.nb_msg_per_connection;
  delay = l.delay;
}

-- `send_order_to_slaves` from slave `i` on, with the answers of each socket: what each has carried.
unfoldable pub send_order_to_slaves :
    Load
    → Bool
    → List ℕ
    → ℕ
    → List (List ℕ × ℤ)
    → List (List WriteAnswer)
    → Outcome Failure (List (List ℕ))
send_order_to_slaves l warmup name i [] sockets = ok []
send_order_to_slaves l warmup name i (s ∷ slaves) [] = stop no_more
send_order_to_slaves l warmup name i (s ∷ slaves) (answers ∷ sockets) =
    write_order (order_message (order_for l warmup name i s)) answers 0 [] >>= (λ wire.
      send_order_to_slaves l warmup name (i + 1) slaves sockets >>= (λ wires. ok (wire ∷ wires)))

-- `MASTER_ORDER_BUFFER_SIZE`
abbrev order_buffer_size : ℕ
order_buffer_size = 256

-- The globals that an order sets.
pub record Parameters : Type 0 where
  pub slave_num : ℤ
  pub reporting_address : Option (List ℕ)
  pub host : Option (List ℕ)
  pub port : ℕ
  pub nb_clients : ℕ
  pub duration : ℕ
  pub nb_msg_per_connection : ℕ
  pub delay : ℕ

-- `atoi`, which must not be given NULL
number : Option (List ℕ) → Outcome Failure ℤ
number none = stop missing_field
number (some s) = ok (atoi s)

unfoldable pub read_fields : ℕ → List ℕ → Outcome Failure Parameters
unfolding number
read_fields proc_freq req =
    let t1 = strtok comma req in
    number t1.0 >>= (λ slave_num.
      let t2 = strtok comma t1.1 in
      let t3 = strtok comma t2.1 in
      let t4 = strtok comma t3.1 in
      number t4.0 >>= (λ port.
        let t5 = strtok comma t4.1 in
        number t5.0 >>= (λ nb_clients.
          let t6 = strtok comma t5.1 in
          number t6.0 >>= (λ duration.
            let t7 = strtok comma t6.1 in
            number t7.0 >>= (λ nb_msg.
              let t8 = strtok comma t7.1 in
              number t8.0 >>= (λ delay. ok (record {
                slave_num = slave_num;
                reporting_address = t2.0;
                host = t3.0;
                port = to_u32 port;
                nb_clients = to_u32 nb_clients;
                duration = u64 (to_u64 duration * proc_freq);
                nb_msg_per_connection = to_u32 nb_msg;
                delay = to_u32 delay;
              })))))))

-- `strndup` stops at a NUL
unfoldable pub parse_order : ℕ → List ℕ → Outcome Failure Parameters
unfolding read_fields
parse_order proc_freq line =
    if ltb (length line + 1) order_buffer_size
    then read_fields proc_freq (c_string line)
    else stop too_long

-- `waitMasterOrder`
unfoldable pub wait_master_order : ℕ → List ReadAnswer → Outcome Failure Parameters
unfolding parse_order
wait_master_order proc_freq answers =
    read_line order_buffer_size answers [] >>= parse_order proc_freq
