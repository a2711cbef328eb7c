-- ===== src/Slave/Daemon/Idle.antt =====
-- slg.c, `main`: what the daemon says of the clients when an order brought no response.
use slg.Base.{Bool, not, ◌&&◌, ℕ, zero, suc, ◌+◌, ◌<◌, ◌^◌, ◌≡◌, arith, ◌==◌, if◌then◌else◌}
use slg.Base.Word.{sub32}
use slg.Client.{Client}

-- The counters of the loop; `attempts` is a float, which holds these whole numbers exactly below 2 ^ 24.
pub record Idle : Type 0 where
  pub nb_have_written : ℕ
  pub nb_connecting : ℕ
  pub attempts : ℕ
  pub nb_have_done_nothing : ℕ

abbrev pub none_yet : Idle
none_yet = record { nb_have_written = 0; nb_connecting = 0; attempts = 0; nb_have_done_nothing = 0 }

unfoldable pub count_client : Client → Idle → Idle
count_client c n =
    if c.connect_in_progress
    then record n {
      nb_connecting = n.nb_connecting + 1;
      attempts = n.attempts + (if c.nb_connect_attempts == 0 then 1 else c.nb_connect_attempts);
    }
    else if c.bytes_write == 0
    then record n { nb_have_done_nothing = n.nb_have_done_nothing + 1 }
    else record n { nb_have_written = n.nb_have_written + 1 }

-- The loop over `k` clients from the `i`th on.
unfoldable pub count_idle : ℕ → ℕ → (ℕ → Client) → Idle → Idle
unfolding count_client
count_idle i zero clients n = n
count_idle i (suc k) clients n = count_idle (i + 1) k clients (count_client (clients i) n)

-- `nb_clients - nb_have_written - nb_connecting`, the number that is printed
unfoldable pub printed_idle : ℕ → Idle → ℕ
printed_idle nb_clients n = sub32 (sub32 nb_clients n.nb_have_written) n.nb_connecting

-- Not connecting, and nothing written of a request.
abbrev pub is_idle : Client → Bool
is_idle c = not c.connect_in_progress && (c.bytes_write == 0)

-- How many of the `k` clients from the `i`th on are idle.
abbrev pub idle_clients : ℕ → ℕ → (ℕ → Client) → ℕ
idle_clients i zero clients = 0
idle_clients i (suc k) clients =
    (if is_idle (clients i) then 1 else 0) + idle_clients (i + 1) k clients

abbrev all_counted : Idle → ℕ
all_counted n = n.nb_have_written + n.nb_connecting + n.nb_have_done_nothing

count_client-all : (c : Client) (n : Idle) → all_counted (count_client c n) ≡ all_counted n + 1
unfolding count_client
count_client-all c n = ground arith

count_idle-all :
    (i k : ℕ) (clients : ℕ → Client) (n : Idle)
    → all_counted (count_idle i k clients n) ≡ all_counted n + k
unfolding count_idle
count_idle-all i zero clients n = omega arith
count_idle-all i (suc k) clients n = omega (
  arith,
  count_idle-all (i + 1) k clients (count_client (clients i) n),
  count_client-all (clients i) n,
)

count_client-idle :
    (c : Client) (n : Idle)
    → (count_client c n).nb_have_done_nothing
      ≡ n.nb_have_done_nothing + (if is_idle c then 1 else 0)
unfolding count_client
count_client-idle c n = ground arith

count_idle-idle :
    (i k : ℕ) (clients : ℕ → Client) (n : Idle)
    → (count_idle i k clients n).nb_have_done_nothing
      ≡ n.nb_have_done_nothing + idle_clients i k clients
unfolding count_idle
count_idle-idle i zero clients n = omega arith
count_idle-idle i (suc k) clients n = omega (
  arith,
  count_idle-idle (i + 1) k clients (count_client (clients i) n),
  count_client-idle (clients i) n,
)

-- The number of idle clients that is printed, what is left of all clients without those that connect and
-- those that have written, is the number of clients that are not connecting and have no byte of a
-- request written, if `nb_clients` fits its C type.
pub printed_idle-count :
    (nb_clients : ℕ) (clients : ℕ → Client)
    → nb_clients < 2 ^ 32
    → printed_idle nb_clients (count_idle 0 nb_clients clients none_yet)
      ≡ idle_clients 0 nb_clients clients
unfolding printed_idle
printed_idle-count nb_clients clients fits = omega (
  arith,
  count_idle-all 0 nb_clients clients none_yet,
  count_idle-idle 0 nb_clients clients none_yet,
)
