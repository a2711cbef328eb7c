-- ===== src/Slave/Balance.antt =====
-- The responses that a slave counts: each client's, those in nb_RT, and those in nb_CRT.
pub mod Reading
pub mod Writing
pub mod Reached
use slg.Base.{ℕ, ◌+◌, ◌%◌, ◌^◌, ◌<◌, ◌≡◌, ◌∙◌, arith, ◌==◌}
use slg.Base.Update.{update}
use slg.Base.Sum.{sum, sum-update}
use slg.Client.{Client, Stats}
use slg.Client.Counts.{Countable, Counts}
use slg.Slave.{System}

abbrev responses_of : Client → ℕ
responses_of c = c.total_resp_recv

abbrev unfinished_of : Client → ℕ
unfinished_of c = c.nb_requests_on_iteration

pub record Balanced (n : ℕ) (clients : ℕ → Client) (g : Stats) : Type 0 where
  pub countable : (i : ℕ) → Countable (clients i)
  pub not_yet : g.global_total_resp_recv ≡ 0
  pub responses : sum n (λ i. (clients i).total_resp_recv) % 2 ^ 64 ≡ g.nb_rt % 2 ^ 64
  pub connections :
      (g.nb_crt + sum n (λ i. (clients i).nb_requests_on_iteration)) % 2 ^ 64 ≡ g.nb_rt % 2 ^ 64

-- The counts of a system are in balance, with the number of requests in a connection an unsigned int.
abbrev pub IsBalanced : System → Type 0
IsBalanced s =
    (s.config.nb_msg_per_connection < 2 ^ 32) × Balanced s.config.nb_clients s.all_clients s.stats

-- A handler that counts right keeps the balance.
pub Balanced-update :
    (n i : ℕ) (clients : ℕ → Client) (g : Stats) (c : Client) (g' : Stats)
    → i < n
    → Balanced n clients g
    → Counts (clients i) g c g'
    → Balanced n (update clients i c) g'
Balanced-update n i clients g c g' lt b k = record {
  countable = λ j. ground (arith, b.countable j, k.countable);
  not_yet = k.untouched ∙ b.not_yet;
  responses = omega (arith, sum-update responses_of n i clients c lt, b.responses, k.responses);
  connections =
      omega (arith, sum-update unfinished_of n i clients c lt, b.connections, k.connections);
}
