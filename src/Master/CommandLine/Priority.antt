-- ===== src/Master/CommandLine/Priority.antt =====
-- The command line has priority on the file: each parameter is what its last option says, or else what the
-- file says.
use slg.Base.{ℕ, ◌≡◌, refl, List, [], ◌∷◌, Option, none, some, Bool, true, false, ◌||◌, arith}
use slg.Base.Word.{to_u32}
use slg.Base.Text.{atoi}
use slg.Base.Outcome.{ok}
use slg.Master.Config.{Config, initial_config, check_all_parameters_filled}
use slg.Master.CommandLine.{
  CliOption, iterations_option, targets_option, clients_min_option, clients_max_option, step_option,
  duration_option, msg_option, delay_option, percent_option, slaves_option, file_option,
  more_output_option, help_option, unknown_option, read_config_argument, apply_option,
  apply_options, parse_command_line,
}

-- The text behind the last option of a kind.
unfoldable pub last_given : (CliOption → Option (List ℕ)) → List CliOption → Option (List ℕ)
last_given pick [] = none
last_given pick (o ∷ options) =
    let later = last_given pick options in elim later [ none ↦ pick o | some v ↦ some v ]

abbrev or_else {ℓ} : {A : Type ℓ} → (List ℕ → A) → Option (List ℕ) → A → A
or_else read none a = a
or_else read (some v) a = read v

or_else-last_given {ℓ} :
    {A : Type ℓ} (pick : CliOption → Option (List ℕ)) (read : List ℕ → A) (o : CliOption)
    (options : List CliOption) (a : A)
    → or_else read (last_given pick (o ∷ options)) a
      ≡ or_else read (last_given pick options) (or_else read (last_given pick (o ∷ [])) a)
unfolding last_given
or_else-last_given pick read o options a =
    elim (last_given pick options)
      as (λ l.
        or_else read (elim l [ none ↦ pick o | some v ↦ some v ]) a
        ≡ or_else read l (or_else read (pick o) a)) [ none ↦ refl | some v ↦ refl ]

abbrev pub unsigned : List ℕ → ℕ
unsigned v = to_u32 (atoi v)

abbrev pub iterations : CliOption → Option (List ℕ)
iterations (iterations_option v) = some v
iterations _ = none

abbrev pub target_list : CliOption → Option (List ℕ)
target_list (targets_option v) = some v
target_list _ = none

abbrev pub least_clients : CliOption → Option (List ℕ)
least_clients (clients_min_option v) = some v
least_clients _ = none

abbrev pub most_clients : CliOption → Option (List ℕ)
most_clients (clients_max_option v) = some v
most_clients _ = none

abbrev pub step_width : CliOption → Option (List ℕ)
step_width (step_option v) = some v
step_width _ = none

abbrev pub seconds : CliOption → Option (List ℕ)
seconds (duration_option v) = some v
seconds _ = none

abbrev pub messages : CliOption → Option (List ℕ)
messages (msg_option v) = some v
messages _ = none

abbrev pub delays : CliOption → Option (List ℕ)
delays (delay_option v) = some v
delays _ = none

abbrev pub percent : CliOption → Option (List ℕ)
percent (percent_option v) = some v
percent _ = none

abbrev pub slave_list : CliOption → Option (List ℕ)
slave_list (slaves_option v) = some v
slave_list _ = none

-- What the options make of a configuration.
unfoldable pub effective : List CliOption → Config → Config
unfolding last_given
effective options c = record c {
  nb_iterations_in_a_wave =
      or_else unsigned (last_given iterations options) c.nb_iterations_in_a_wave;
  targets = or_else some (last_given target_list options) c.targets;
  nb_clients_min = or_else unsigned (last_given least_clients options) c.nb_clients_min;
  nb_clients_max = or_else unsigned (last_given most_clients options) c.nb_clients_max;
  step = or_else atoi (last_given step_width options) c.step;
  duration = or_else unsigned (last_given seconds options) c.duration;
  nb_msg_per_connection = or_else unsigned (last_given messages options) c.nb_msg_per_connection;
  delay = or_else unsigned (last_given delays options) c.delay;
  percent_stats_kept_master = or_else atoi (last_given percent options) c.percent_stats_kept_master;
  slaves_infos = or_else some (last_given slave_list options) c.slaves_infos;
}

effective-cons :
    (o : CliOption) (options : List CliOption) (c : Config)
    → effective (o ∷ options) c ≡ effective options (effective (o ∷ []) c)
effective-cons o options c =
    unfold effective in
    rw
      (
        or_else-last_given iterations unsigned o options c.nb_iterations_in_a_wave,
        or_else-last_given target_list some o options c.targets,
        or_else-last_given least_clients unsigned o options c.nb_clients_min,
        or_else-last_given most_clients unsigned o options c.nb_clients_max,
        or_else-last_given step_width atoi o options c.step,
        or_else-last_given seconds unsigned o options c.duration,
        or_else-last_given messages unsigned o options c.nb_msg_per_connection,
        or_else-last_given delays unsigned o options c.delay,
        or_else-last_given percent atoi o options c.percent_stats_kept_master,
        or_else-last_given slave_list some o options c.slaves_infos,
      )
      refl

abbrev pub asks_more : CliOption → Bool
asks_more more_output_option = true
asks_more _ = false

abbrev pub more_output : List CliOption → Bool
more_output [] = false
more_output (o ∷ options) = asks_more o || more_output options

-- The options that do not end the process.
abbrev pub IsPlain : CliOption → Type 0
IsPlain help_option = ⊥
IsPlain unknown_option = ⊥
IsPlain _ = Unit {0}

abbrev pub ArePlain : List CliOption → Type 0
ArePlain [] = Unit {0}
ArePlain (o ∷ options) = IsPlain o × ArePlain options

apply_option-effective :
    (o : CliOption) (c : Config) (more : Bool)
    → IsPlain o
    → apply_option o (record { config = c; more_output_for_stderr = more })
      ≡ ok (record { config = effective (o ∷ []) c; more_output_for_stderr = asks_more o || more })
unfolding apply_option effective
apply_option-effective (iterations_option v) c more h = refl
apply_option-effective (targets_option v) c more h = refl
apply_option-effective (clients_min_option v) c more h = refl
apply_option-effective (clients_max_option v) c more h = refl
apply_option-effective (step_option v) c more h = refl
apply_option-effective (duration_option v) c more h = refl
apply_option-effective (msg_option v) c more h = refl
apply_option-effective (delay_option v) c more h = refl
apply_option-effective (percent_option v) c more h = refl
apply_option-effective (slaves_option v) c more h = refl
apply_option-effective file_option c more h = refl
apply_option-effective more_output_option c more h = refl
apply_option-effective help_option c more h = absurd h
apply_option-effective unknown_option c more h = absurd h

either_order : (a b c : Bool) → b || (a || c) ≡ (a || b) || c
either_order a b c = ground arith

or_false : (a : Bool) → a || false ≡ a
or_false a = ground arith

apply_options-effective :
    (options : List CliOption) (c : Config) (more : Bool)
    → ArePlain options
    → apply_options options (record { config = c; more_output_for_stderr = more })
      ≡ ok (record {
        config = effective options c;
        more_output_for_stderr = more_output options || more;
      })
unfolding apply_options
apply_options-effective [] c more h = unfold effective in refl
apply_options-effective (o ∷ options) c more h =
    rw
      (
        apply_option-effective o c more h.0,
        effective-cons o options c,
        ← either_order (asks_more o) (more_output options) more,
      )
      (apply_options-effective options (effective (o ∷ []) c) (asks_more o || more) h.1)

-- `parse_command_line`, if the options are known, none asks for the help and no argument is left over,
-- makes of what the file says the configuration in which each parameter is what its last option says, or
-- else what the file says, and returns it if it passes the check of all parameters.
pub parse_command_line-effective :
    (open_file : List ℕ → Option (List ℕ)) (argv : List (List ℕ)) (options : List CliOption)
    (c checked : Config)
    → ArePlain options
    → read_config_argument open_file argv initial_config ≡ ok c
    → check_all_parameters_filled (effective options c) ≡ ok checked
    → parse_command_line open_file argv options false
      ≡ ok (record { config = effective options c; more_output_for_stderr = more_output options })
unfolding parse_command_line
parse_command_line-effective open_file argv options c checked plain read check =
    rw (read, apply_options-effective options c false plain, check, or_false (more_output options))
      refl
