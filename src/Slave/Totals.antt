-- ===== src/Slave/Totals.antt =====
-- slg.c: what `main` does around the two threads: `check_parameters`, `compute_stats`, `reset_stats`.
pub mod Extremes
use slg.Base.{ℕ, zero, suc, ◌+◌, ◌-◌, ◌^◌, ◌==◌, if◌then◌else◌, ltb, Bool, true, false}
use slg.Base.Word.{u64}
use slg.Base.Outcome.{Outcome, ok, stop}
use slg.Client.{Client, Stats}

pub data BadParameter : Type 0 where
  too_many_clients no_port no_duration no_msg : BadParameter

-- `MAX_CLIENTS`
abbrev max_clients : ℕ
max_clients = 1024

unfoldable pub check_parameters : ℕ → ℕ → ℕ → ℕ → Outcome BadParameter Bool
check_parameters nb_clients port duration nb_msg_per_connection =
    if ltb max_clients nb_clients
    then stop too_many_clients
    else if port == 0
    then stop no_port
    else if duration == 0
    then stop no_duration
    else if nb_msg_per_connection == 0
    then stop no_msg
    else ok true

-- The first loop of `compute_stats`, over `k` clients from the `i`th on.
unfoldable pub add_clients : ℕ → ℕ → (ℕ → Client) → Stats → Stats
add_clients i zero clients g = g
add_clients i (suc k) clients g = add_clients (i + 1) k clients (record g {
  global_total_bytes_recv = u64 (g.global_total_bytes_recv + (clients i).total_bytes_recv);
  global_total_resp_recv = u64 (g.global_total_resp_recv + (clients i).total_resp_recv);
  global_errors = u64 (g.global_errors + (clients i).errors);
})

-- The second loop, for the connections that are not finished.
unfoldable pub add_unfinished : ℕ → ℕ → (ℕ → Client) → Stats → Stats
add_unfinished i zero clients g = g
add_unfinished i (suc k) clients g =
    add_unfinished (i + 1) k clients
      (record g { nb_crt = u64 (g.nb_crt + (clients i).nb_requests_on_iteration) })

-- `compute_stats`, with the averages as quotients: the sum of the times over their number.
unfoldable pub compute_stats : ℕ → (ℕ → Client) → Stats → Stats
unfolding add_clients add_unfinished
compute_stats nb_clients clients g = add_unfinished 0 nb_clients clients (
    add_clients 0 nb_clients clients (record g {
      global_nb_requests_taken = 0;
      global_errors = 0;
      global_max_ct = 0;
      global_min_ct = 2 ^ 64 - 1;
    }))

-- `reset_stats`, after the order is served.
unfoldable pub reset_stats : Stats → Stats
reset_stats g = record g {
  global_avg_ct = 0;
  global_avg_rt = 0;
  global_avg_crt = 0;
  nb_crt = 0;
  nb_rt = 0;
  nb_ct = 0;
  global_total_bytes_recv = 0;
  global_total_resp_recv = 0;
  global_nb_requests_taken = 0;
  global_max_ct = 0;
  global_min_ct = 0;
  file_nb_req = 0;
  file_nb_req_successful = 0;
  file_nb_reads = 0;
}
