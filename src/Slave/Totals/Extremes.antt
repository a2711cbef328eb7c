-- ===== src/Slave/Totals/Extremes.antt =====
-- What `compute_stats` leaves of the extreme connection times.
use slg.Base.{ℕ, zero, suc, ◌+◌, ◌-◌, ◌^◌, ◌≡◌, refl, ◌∙◌}
use slg.Client.{Client, Stats}
use slg.Slave.Totals.{add_clients, add_unfinished, compute_stats}

abbrev Extremes : Stats → Stats → Type 0
Extremes g h = (h.global_max_ct ≡ g.global_max_ct) × (h.global_min_ct ≡ g.global_min_ct)

add_clients-Extremes :
    (k i : ℕ) (clients : ℕ → Client) (g : Stats) → Extremes g (add_clients i k clients g)
unfolding add_clients
add_clients-Extremes zero i clients g = (refl, refl)
add_clients-Extremes (suc k) i clients g = add_clients-Extremes k (i + 1) clients _

add_unfinished-Extremes :
    (k i : ℕ) (clients : ℕ → Client) (g : Stats) → Extremes g (add_unfinished i k clients g)
unfolding add_unfinished
add_unfinished-Extremes zero i clients g = (refl, refl)
add_unfinished-Extremes (suc k) i clients g = add_unfinished-Extremes k (i + 1) clients _

-- Whatever connection times the threads have measured, `compute_stats`, which runs before the response
-- is sent, leaves 0 as the greatest and 2 ^ 64 - 1 as the least.
pub compute_stats-forgets :
    (n : ℕ) (clients : ℕ → Client) (g : Stats)
    → ((compute_stats n clients g).global_max_ct ≡ 0)
      × ((compute_stats n clients g).global_min_ct ≡ 2 ^ 64 - 1)
unfolding compute_stats
compute_stats-forgets n clients g =
    let x = add_clients-Extremes n 0 clients _ in
    let y = add_unfinished-Extremes n 0 clients _ in (y.0 ∙ x.0, y.1 ∙ x.1)
