-- ===== src/Protocol/Tests.antt =====
-- An order and a response, and how they travel.
use slg.Base.{ℕ, ◌+◌, ◌≡◌, ◌≢◌, refl, List, [], ◌∷◌, map, false, arith}
use slg.Base.Int.{ℤ, pos}
use slg.Base.Text.{codes}
use slg.Base.Decimal.{decimal, print_int}
use slg.Base.Tokens.{IsField}
use slg.Base.Outcome.{ok}
use slg.Os.{got, wrote}
use slg.Protocol.Order.{
  Order, order_message, wait_master_order, write_order, Load, order_for, send_order_to_slaves,
}
use slg.Protocol.Response.{Report, SlaveStats, response_message, send_stat_response, read_response}
use slg.Protocol.Trip.{ordered, wait_master_order-order_message}
use slg.Protocol.Orders.{send_order_to_slaves-whole}
use slg.Protocol.Report.{reported, read_response-send_stat_response}
use slg.Protocol.ShortWrite.{write_order-short}

abbrev first_order : Order
first_order = record {
  slave = 0;
  name = codes "m";
  target = codes "web";
  target_port = 80;
  clients = 20;
  length_in_seconds = 3;
  msg_per_connection = 4;
  delay = 0;
}

abbrev m_is_field : IsField (codes "m")
m_is_field = (omega arith, omega arith, omega arith, tt)

first_order_line : order_message first_order ≡ codes "0,m,web,80,20,3,4,0\n"
unfolding order_message print_int
first_order_line = refl

wait_master_order-order_message_example :
    wait_master_order 1000 (map got (codes "0,m,we" ∷ codes "b,80,20,3,4,0\n" ∷ []))
    ≡ ok (ordered 1000 first_order)
unfolding order_message print_int
wait_master_order-order_message_example =
    wait_master_order-order_message 1000 first_order (codes "0,m,we" ∷ codes "b,80,20,3,4,0\n" ∷ [])
      (
        m_is_field,
        (
          omega arith,
          omega arith,
          omega arith,
          (omega arith, omega arith, omega arith, (omega arith, omega arith, omega arith, tt)),
        ),
        omega arith,
        omega arith,
        omega arith,
        omega arith,
        omega arith,
        omega arith,
      )
      (omega arith) tt refl

write_order-short_example :
    (wire : List ℕ) × (write_order (codes "ab\n") (wrote 1 ∷ wrote 2 ∷ []) 0 [] ≡ ok wire)
    × (wire ≢ codes "ab\n")
write_order-short_example =
    write_order-short (codes "ab") 1 2 (omega arith, (omega arith, tt)) (omega arith) (omega arith)
      (omega arith) (omega arith)

abbrev first_report : Report ℕ
first_report = record {
  elapsed = 3;
  global_total_bytes_recv = 2;
  global_total_resp_recv = 1;
  global_avg_ct = 5;
  global_avg_rt = 6;
  global_avg_crt = 7;
  global_min_ct = 18446744073709551615;
  global_max_ct = 0;
  global_errors = 0;
}

abbrev as_text : ℕ → List ℕ
as_text n = (n + b'0') ∷ []

abbrev of_text : List ℕ → ℕ
of_text [] = 0
of_text (c ∷ s) = c

abbrev no_results : SlaveStats ℕ
no_results = record {
  total_time = 0;
  bytes_recv = 0;
  resp_recv = 0;
  avg_ct = 0;
  avg_rt = 0;
  avg_crt = 0;
  min_ct = 0;
  max_ct = 0;
  errors = 0;
}

abbrev report_parts : List (List ℕ)
report_parts = codes "3,2,1,5,6,7,18446744" ∷ codes "073709551615,0,0\n" ∷ []

read_response-send_stat_response_example :
    (send_stat_response as_text first_report (wrote 10 ∷ wrote 27 ∷ [])
      ≡ ok (codes "3,2,1,5,6,7,18446744073709551615,0,0\n"))
    × (read_response of_text false (map got report_parts) no_results
        ≡ ok (reported as_text of_text first_report))
unfolding response_message decimal
read_response-send_stat_response_example =
    read_response-send_stat_response as_text of_text first_report (wrote 10 ∷ wrote 27 ∷ [])
      report_parts no_results
      (
        (omega arith, omega arith, omega arith, tt),
        (omega arith, omega arith, omega arith, tt),
        (omega arith, omega arith, omega arith, tt),
      )
      (omega arith) (omega arith, omega arith, (omega arith, omega arith, refl)) tt refl

abbrev light : Load
light = record {
  nb_clients = 20;
  duration = 3;
  warmup_length = 1;
  nb_msg_per_connection = 4;
  delay = 0;
}

abbrev one_slave : List (List ℕ × ℤ)
one_slave = (codes "web", pos 80) ∷ []

send_order_to_slaves-whole_example :
    send_order_to_slaves light false (codes "m") 0 one_slave ((wrote 20 ∷ []) ∷ [])
    ≡ ok (codes "0,m,web,80,20,3,4,0\n" ∷ [])
unfolding order_message order_for print_int
send_order_to_slaves-whole_example = send_order_to_slaves-whole light false (codes "m") 0 one_slave
