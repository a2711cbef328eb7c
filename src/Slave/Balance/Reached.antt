-- ===== src/Slave/Balance/Reached.antt =====
-- What a slave reports of the responses, in every state that its threads reach.
use slg.Base.{ℕ, zero, suc, ◌+◌, ◌-◌, ◌%◌, ◌^◌, ◌<◌, ◌≡◌, refl, ap, some, Bool, true, arith}
use mathlib.Core.Path.{subst}
use slg.Base.Sum.{sum, sum-snoc}
use slg.Circular.{open_circ}
use slg.Client.{Client, Stats}
use slg.Slave.{
  Config, System, set_up, init_client, init_client_stats, started, put_clients, uninitialised,
}
use slg.Slave.Totals.{compute_stats, add_clients, add_unfinished}
use slg.Slave.Writer.{writer_take, writer_serve}
use slg.Slave.Reader.{reader_take, reader_serve}
use slg.Slave.Threads.{
  Step, Reach, here, next, writer_takes, writer_serves, reader_takes, reader_serves,
}
use slg.Slave.ReadSet.Reached.{Yields, Yields-bind, returned}
use slg.Slave.Balance.{IsBalanced, Balanced}
use slg.Slave.Balance.Reading.{reader_take-Balanced, reader_serve-Balanced}
use slg.Slave.Balance.Writing.{writer_take-Balanced, writer_serve-Balanced}

Step-Balanced : {s t : System} → Step s t → IsBalanced s → IsBalanced t
Step-Balanced {s} (writer_takes f e) b =
    returned (λ (r : System × Bool). IsBalanced r.0) (writer_take s) (writer_take-Balanced s b) e
Step-Balanced {s} (writer_serves j a lt e) b =
    returned IsBalanced (writer_serve s j a) (writer_serve-Balanced s j lt b a) e
Step-Balanced {s} (reader_takes f e) b =
    returned (λ (r : System × Bool). IsBalanced r.0) (reader_take s) (reader_take-Balanced s b) e
Step-Balanced {s} (reader_serves j a lt e) b =
    returned IsBalanced (reader_serve s j a) (reader_serve-Balanced s j a lt b) e

Reach-Balanced : {s t : System} → IsBalanced s → Reach s t → IsBalanced t
Reach-Balanced b here = b
Reach-Balanced b (next r st) = Step-Balanced st (Reach-Balanced b r)

sum-zero : (n : ℕ) → sum n (λ i. 0) ≡ 0
sum-zero zero = refl
sum-zero (suc n) = omega (arith, sum-zero n)

started-Balanced :
    (c : Config) (address max_connect : ℕ) (g : Stats) {s : System}
    → c.nb_msg_per_connection < 2 ^ 32
    → g.global_total_resp_recv ≡ 0
    → set_up c address max_connect g ≡ some s
    → IsBalanced s
unfolding set_up started init_client init_client_stats
started-Balanced c address max_connect g {s} l z e = subst (λ o. Yields IsBalanced o) e yields
  where
    balanced : Balanced c.nb_clients (init_client address c.port) (init_client_stats g)
    balanced = record {
      countable = λ i. omega arith;
      not_yet = z;
      responses = omega (arith, sum-zero c.nb_clients);
      connections = omega (arith, sum-zero c.nb_clients);
    }

    yields : Yields IsBalanced (set_up c address max_connect g)
    yields = Yields-bind IsBalanced (open_circ true (some uninitialised) c.nb_clients) _ (λ r.
        Yields-bind IsBalanced (open_circ true (some uninitialised) c.nb_clients) _
          (λ w. Yields-bind IsBalanced (put_clients 0 c.nb_clients w) _ (λ f. (l, balanced))))

abbrev responses : (ℕ → Client) → ℕ → ℕ
responses clients i = sum i (λ j. (clients j).total_resp_recv)

abbrev unfinished : (ℕ → Client) → ℕ → ℕ
unfinished clients i = sum i (λ j. (clients j).nb_requests_on_iteration)

add_clients-totals :
    (k i : ℕ) (clients : ℕ → Client) (g : Stats)
    → (((add_clients i k clients g).global_total_resp_recv + responses clients i) % 2 ^ 64
        ≡ (g.global_total_resp_recv + responses clients (i + k)) % 2 ^ 64)
      × ((add_clients i k clients g).nb_rt ≡ g.nb_rt)
      × ((add_clients i k clients g).nb_crt ≡ g.nb_crt)
unfolding add_clients
add_clients-totals zero i clients g = let e : i + 0 ≡ i = omega arith in (rw e, refl, refl)
add_clients-totals (suc k) i clients g =
    let e : i + suc k ≡ i + 1 + k = omega arith in
    let h = add_clients-totals k (i + 1) clients _ in
    (rw e (omega (arith, h.0, sum-snoc i (λ j. (clients j).total_resp_recv))), h.1, h.2)

add_unfinished-totals :
    (k i : ℕ) (clients : ℕ → Client) (g : Stats)
    → (((add_unfinished i k clients g).nb_crt + unfinished clients i) % 2 ^ 64
        ≡ (g.nb_crt + unfinished clients (i + k)) % 2 ^ 64)
      × ((add_unfinished i k clients g).nb_rt ≡ g.nb_rt)
      × ((add_unfinished i k clients g).global_total_resp_recv ≡ g.global_total_resp_recv)
unfolding add_unfinished
add_unfinished-totals zero i clients g = let e : i + 0 ≡ i = omega arith in (rw e, refl, refl)
add_unfinished-totals (suc k) i clients g =
    let e : i + suc k ≡ i + 1 + k = omega arith in
    let h = add_unfinished-totals k (i + 1) clients _ in
    (rw e (omega (arith, h.0, sum-snoc i (λ j. (clients j).nb_requests_on_iteration))), h.1, h.2)

agreed :
    (n : ℕ) (clients : ℕ → Client) (g : Stats)
    → Balanced n clients g
    → ((compute_stats n clients g).global_total_resp_recv % 2 ^ 64
        ≡ (compute_stats n clients g).nb_rt % 2 ^ 64)
      × ((compute_stats n clients g).nb_crt % 2 ^ 64 ≡ (compute_stats n clients g).nb_rt % 2 ^ 64)
unfolding compute_stats
agreed n clients g b =
    let cleared = record g {
      global_nb_requests_taken = 0;
      global_errors = 0;
      global_max_ct = 0;
      global_min_ct = 2 ^ 64 - 1;
    } in
    let x = add_clients-totals n 0 clients cleared in
    let y = add_unfinished-totals n 0 clients (add_clients 0 n clients cleared) in
    let e : 0 + n ≡ n = omega arith in
    (
      omega (arith, x.0, x.1, y.1, y.2, b.not_yet, b.responses, ap (responses clients) e),
      omega (arith, x.1, x.2, y.0, y.1, b.connections, ap (unfinished clients) e),
    )

abbrev pub totals : System → Stats
totals s = compute_stats s.config.nb_clients s.all_clients s.stats

-- In every state that the two threads reach, what `compute_stats` makes of the measures agrees: the
-- number of responses that it adds up over the clients is nb_RT, and so is nb_CRT with the requests of
-- the connections that are still open, modulo 2 ^ 64, if an unsigned int holds the requests of a
-- connection and the total was 0 before, as `reset_stats` leaves it.
pub compute_stats-agrees :
    (c : Config) (address max_connect : ℕ) (g : Stats) {s t : System}
    → c.nb_msg_per_connection < 2 ^ 32
    → g.global_total_resp_recv ≡ 0
    → set_up c address max_connect g ≡ some s
    → Reach s t
    → ((totals t).global_total_resp_recv % 2 ^ 64 ≡ (totals t).nb_rt % 2 ^ 64)
      × ((totals t).nb_crt % 2 ^ 64 ≡ (totals t).nb_rt % 2 ^ 64)
compute_stats-agrees c address max_connect g {t = t} l z e r =
    let (_, b) = Reach-Balanced (started-Balanced c address max_connect g l z e) r in
    agreed t.config.nb_clients t.all_clients t.stats b
