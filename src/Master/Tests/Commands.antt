-- ===== src/Master/Tests/Commands.antt =====
-- A command line over a configuration file, and the waves that are printed then.
use slg.Base.{ℕ, ◌<◌, ◌≡◌, refl, List, [], ◌∷◌, Option, some, true, false, arith, ltb, length}
use slg.Base.Int.{pos}
use slg.Base.Text.{codes, c_string, atoi}
use slg.Base.Tokens.{strtok}
use slg.Master.Tests.{answer, times}
use slg.Base.Outcome.{ok}
use slg.Sample.{Sample}
use slg.Sample.Tests.Insertion.{insertion, insertion-Sorts}
use slg.Sample.Tests.Percentiles.{whole, spread, exact, AtMost, exact-IsRounded}
use slg.Master.Measures.{Measures}
use slg.Master.Waves.{run_master}
use slg.Master.Config.{Config, initial_config, parse_config_file, check_all_parameters_filled}
use slg.Master.CommandLine.{
  CliOption, duration_option, clients_min_option, clients_max_option, file_option, msg_option,
  slaves_option, targets_option, iterations_option, more_output_option, read_config_argument,
  parse_command_line,
}
use slg.Master.CommandLine.Priority.{effective, more_output, parse_command_line-effective}
use slg.Master.Printed.{Format, Row, print_stats}
use slg.Master.Printed.Total.{print_stats-Returns}

abbrev disk : List ℕ → Option (List ℕ)
disk name = some (codes "duration = 5\nstep = 2\n")

abbrev argv : List (List ℕ)
argv = codes "slg_master" ∷ codes "-f" ∷ codes "conf" ∷ codes "-D" ∷ codes "9" ∷ []

abbrev options : List CliOption
options =
    file_option
    ∷ duration_option (codes "9")
    ∷ clients_min_option (codes "1")
    ∷ clients_max_option (codes "6")
    ∷ msg_option (codes "2")
    ∷ slaves_option (codes "a:1")
    ∷ targets_option (codes "b:80")
    ∷ iterations_option (codes "3")
    ∷ more_output_option
    ∷ []

abbrev from_file : Config
from_file = record initial_config { duration = 5; step = pos 2 }

file_read : read_config_argument disk argv initial_config ≡ ok from_file
unfolding read_config_argument parse_config_file c_string strtok atoi
file_read = refl

file_checked :
    check_all_parameters_filled (effective options from_file) ≡ ok (effective options from_file)
unfolding check_all_parameters_filled effective atoi
file_checked = refl

parse_command_line-effective_example :
    parse_command_line disk argv options false
    ≡ ok (record {
      config = effective options from_file;
      more_output_for_stderr = more_output options;
    })
parse_command_line-effective_example =
    parse_command_line-effective disk argv options from_file (effective options from_file)
      (tt, (tt, (tt, (tt, (tt, (tt, (tt, (tt, (tt, tt))))))))) file_read file_checked

-- The command line wins over the file.
nine_seconds :
    ((effective options from_file).duration ≡ 9) × ((effective options from_file).step ≡ pos 2)
unfolding effective atoi
nine_seconds = (refl, refl)

abbrev plain_format : Format ℕ
plain_format = record { share = λ a b. a; megabits = λ a. a }

abbrev chosen : Config
chosen = record initial_config {
  nb_iterations_in_a_wave = 3;
  targets = some [];
  slaves_infos = some [];
  duration = 9;
  nb_msg_per_connection = 2;
  nb_clients_min = 1;
  nb_clients_max = 6;
}

chosen_checked : check_all_parameters_filled chosen ≡ ok chosen
unfolding check_all_parameters_filled
chosen_checked = refl

print_stats-Returns_example :
    (run : List ℕ) × (all : List (Measures (Sample ℕ))) × (run_master whole times answer 1 6 2 3
      ≡ ok (run, all))
    × ((w : ℕ)
        → w < length run
        → (row : Row ℕ) × (print_stats whole spread plain_format ltb insertion exact
              (λ k. true)
              true
              (pos 100)
              1
              2
              4
              w
              all
            ≡ ok row))
print_stats-Returns_example =
    print_stats-Returns whole times spread plain_format ltb insertion exact answer insertion-Sorts
      AtMost exact-IsRounded (λ k. true) (λ k. refl) chosen chosen 2 chosen_checked (omega arith)
      (omega arith) (omega arith) (omega arith) true 4
