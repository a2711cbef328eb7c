-- ===== src/Master/CommandLine.antt =====
-- slg_master.c: `parse_command_line`. What getopt_long makes of the arguments is its input: the options
-- in their order, and whether an argument is left over.
pub mod Priority
use slg.Base.{ℕ, List, [], ◌∷◌, Option, none, some, Bool, true, false, ◌||◌, if◌then◌else◌}
use slg.Base.Word.{to_u32}
use slg.Base.Text.{codes, atoi}
use slg.Base.Outcome.{Outcome, ok, stop, within, ◌>>=◌}
use slg.Master.Slaves.{same_text}
use slg.Master.Config.{
  Config, BadConfig, initial_config, parse_config_file, check_all_parameters_filled,
}

-- The cases of the switch; `unknown_option` is its default.
pub data CliOption : Type 0 where
  iterations_option targets_option clients_min_option clients_max_option : List ℕ → CliOption
  step_option duration_option msg_option delay_option : List ℕ → CliOption
  percent_option slaves_option : List ℕ → CliOption
  file_option more_output_option help_option unknown_option : CliOption

-- Why the process exits before it starts the waves.
pub data Refused : Type 0 where
  missing_file_name no_such_file helped option_refused invalid_argument : Refused
  bad_config : BadConfig → Refused

-- The globals that the command line sets.
pub record Settings : Type 0 where
  pub config : Config
  pub more_output_for_stderr : Bool

-- The first loop over `argv`: the contents of the file named behind the first -f or --file, if there is
-- one. `open_file` is what fopen gives.
unfoldable pub read_config_argument :
    (List ℕ → Option (List ℕ)) → List (List ℕ) → Config → Outcome Refused Config
read_config_argument open_file [] c = ok c
read_config_argument open_file (arg ∷ []) c =
    if same_text arg (codes "-f") || same_text arg (codes "--file")
    then stop missing_file_name
    else ok c
read_config_argument open_file (arg ∷ name ∷ rest) c =
    let later = read_config_argument open_file (name ∷ rest) c in
    if same_text arg (codes "-f") || same_text arg (codes "--file")
    then elim (open_file name) [
      | none ↦ stop no_such_file
      | some contents ↦ within bad_config (parse_config_file contents c)
    ]
    else later

-- The switch.
unfoldable pub apply_option : CliOption → Settings → Outcome Refused Settings
apply_option (iterations_option v) s =
    ok (record s { config = record (s.config) { nb_iterations_in_a_wave = to_u32 (atoi v) } })
apply_option (targets_option v) s =
    ok (record s { config = record (s.config) { targets = some v } })
apply_option (clients_min_option v) s =
    ok (record s { config = record (s.config) { nb_clients_min = to_u32 (atoi v) } })
apply_option (clients_max_option v) s =
    ok (record s { config = record (s.config) { nb_clients_max = to_u32 (atoi v) } })
apply_option (step_option v) s = ok (record s { config = record (s.config) { step = atoi v } })
apply_option (duration_option v) s =
    ok (record s { config = record (s.config) { duration = to_u32 (atoi v) } })
apply_option (msg_option v) s =
    ok (record s { config = record (s.config) { nb_msg_per_connection = to_u32 (atoi v) } })
apply_option (delay_option v) s =
    ok (record s { config = record (s.config) { delay = to_u32 (atoi v) } })
apply_option (percent_option v) s =
    ok (record s { config = record (s.config) { percent_stats_kept_master = atoi v } })
apply_option (slaves_option v) s =
    ok (record s { config = record (s.config) { slaves_infos = some v } })
apply_option file_option s = ok s
apply_option more_output_option s = ok (record s { more_output_for_stderr = true })
apply_option help_option s = stop helped
apply_option unknown_option s = stop option_refused

-- The loop around getopt_long.
unfoldable pub apply_options : List CliOption → Settings → Outcome Refused Settings
unfolding apply_option
apply_options [] s = ok s
apply_options (o ∷ options) s = apply_option o s >>= apply_options options

-- `parse_command_line`; `left_over` is `optind < argc`.
unfoldable pub parse_command_line :
    (List ℕ → Option (List ℕ)) → List (List ℕ) → List CliOption → Bool → Outcome Refused Settings
unfolding read_config_argument apply_options
parse_command_line open_file argv options left_over = do
  c ← read_config_argument open_file argv initial_config
  s ← apply_options options (record { config = c; more_output_for_stderr = false })
  if left_over
      then stop invalid_argument
      else within bad_config (check_all_parameters_filled s.config) >>= (λ checked. ok s)
