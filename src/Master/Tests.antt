-- ===== src/Master/Tests.antt =====
-- Three waves of one slave, in whole numbers.
mod Commands
mod Iterations
mod Campaigns
use slg.Base.{inl, ℕ, ◌+◌, ◌-◌, ◌*◌, ◌/◌, ◌≡◌, List, [], ◌∷◌, map, ◌≤◌, true, length, arith, refl}
use slg.Base.Outcome.{ok}
use slg.Base.Int.{pos}
use slg.Base.Text.{codes, atoi}
use slg.Base.Decimal.{decimal}
use slg.Master.Slaves.{init_slaves_info, add_servers, find_server}
use slg.Master.Slaves.Read.{AreHosts, as_read, init_slaves_info-host_list}
use slg.Master.Slaves.Distinct.{count_server, add_servers-once}
use slg.Master.Config.{initial_config, parse_config_file, set_parameter}
use slg.Master.Config.Lines.{Line, comment, assignment, OneLine, IsLine}
use slg.Master.Config.Names.{known, step_parameter, duration_parameter}
use slg.Master.Config.File.{parse_config_file-file_of}
use slg.Sample.{Sample, Arithmetic}
use slg.Protocol.Response.{SlaveStats}
use slg.Master.Measures.{Measures}
use slg.Master.Waves.{run_master}
use slg.Master.WaveCount.{client_counts, AllFilled, run_master-waves}

abbrev whole : Arithmetic ℕ
whole = record { nought = 0; add = λ a b. a + b; divide = λ a b. a / b; of_count = λ n. n }

abbrev times : ℕ → ℕ → ℕ
times a b = a * b

abbrev answer : ℕ → ℕ → List (SlaveStats ℕ) × ℕ
answer w i = (
  record {
    total_time = 10;
    bytes_recv = 50;
    resp_recv = 5;
    avg_ct = 1;
    avg_rt = 2;
    avg_crt = 3;
    min_ct = 0;
    max_ct = 0;
    errors = w;
  }
      ∷ [],
  10,
)

run_master-waves_example :
    (stats : List (Measures (Sample ℕ))) × (run_master whole times answer 2 7 2 1
      ≡ ok (client_counts 2 2 ((7 - 2) / 2 + 1), stats))
    × (length stats ≡ (7 - 2) / 2 + 1)
    × AllFilled whole times answer 1 0 stats
run_master-waves_example =
    run_master-waves whole times answer 2 7 2 1 (omega arith) (omega arith) (omega arith)

three_waves : client_counts 2 2 3 ≡ 2 ∷ 4 ∷ 6 ∷ []
unfolding client_counts
three_waves = refl

abbrev two_hosts : List ℕ
two_hosts = codes "a:80,b:81"

abbrev host_a : List ℕ × ℕ
host_a = (codes "a", 80)

abbrev host_b : List ℕ × ℕ
host_b = (codes "b", 81)

abbrev both_hosts : AreHosts (host_a ∷ host_b ∷ [])
both_hosts = (
  ((omega arith, omega arith, omega arith, tt), (omega arith, tt), omega arith, omega arith),
  (((omega arith, omega arith, omega arith, tt), (omega arith, tt), omega arith, omega arith), tt),
)

init_slaves_info-host_list_example :
    init_slaves_info true two_hosts two_hosts
    ≡ ok (
      map as_read (host_a ∷ host_b ∷ []),
      map as_read (host_a ∷ host_b ∷ []),
      add_servers (map as_read (host_a ∷ host_b ∷ [])) [],
      length (add_servers (map as_read (host_a ∷ host_b ∷ [])) []),
    )
unfolding decimal
init_slaves_info-host_list_example =
    init_slaves_info-host_list true host_a host_a (host_b ∷ []) (host_b ∷ []) both_hosts both_hosts
      refl

add_servers-once_example :
    (count_server
        (codes "a", pos 80)
        (add_servers ((codes "a", pos 80) ∷ (codes "a", pos 80) ∷ []) [])
      ≤ 1)
    × (find_server
          (codes "a", pos 80)
          (add_servers ((codes "a", pos 80) ∷ (codes "a", pos 80) ∷ []) [])
        ≡ true)
unfolding find_server count_server
add_servers-once_example =
    add_servers-once (codes "a", pos 80) ((codes "a", pos 80) ∷ (codes "a", pos 80) ∷ []) []
      (omega arith)

abbrev three_lines : List Line
three_lines =
    comment (codes " slaves")
    ∷ assignment [] (known step_parameter) (codes " = ") (codes "5") []
    ∷ assignment (codes "  ") (known duration_parameter) (codes "=") (codes "30") (codes " seconds")
    ∷ []

plain_comment : OneLine (codes " slaves")
plain_comment = ground arith

parse_config_file-file_of_example :
    parse_config_file (codes "# slaves\nstep = 5\n  duration=30 seconds\n") initial_config
    ≡ ok (record initial_config { step = pos 5; duration = 30 })
unfolding atoi
parse_config_file-file_of_example = parse_config_file-file_of three_lines initial_config (
  plain_comment,
  omega arith,
  ((tt, ground arith, tt, ground arith, ground arith, tt), omega arith, (second, omega arith, tt)),
)
  where
    second : IsLine (
        assignment
          (codes "  ")
          (known duration_parameter)
          (codes "=")
          (codes "30")
          (codes " seconds"))
    second =
        ((inl refl, (inl refl, tt)), ground arith, tt, ground arith, ground arith, ground arith)
