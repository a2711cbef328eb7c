-- ===== src/Master/Config.antt =====
-- slg_master.c: `parse_config_file`, the options of `parse_command_line` and `check_all_parameters_filled`.
pub mod Names
pub mod Lines
pub mod File
use slg.Base.{
  ℕ, zero, suc, ◌+◌, List, [], ◌∷◌, ◌++◌, Option, none, some, Bool, true, false, ◌&&◌, ◌||◌, length,
  ◌==◌, if◌then◌else◌, ltb, leb,
}
use slg.Base.Int.{ℤ, pos, negsuc}
use slg.Base.Word.{to_u32}
use slg.Base.Text.{codes, c_string, atoi}
use slg.Base.Tokens.{strtok}
use slg.Base.Outcome.{Outcome, ok, stop, ◌>>=◌}
use slg.Master.Slaves.{same_text}

-- The globals that the configuration sets.
pub record Config : Type 0 where
  pub nb_iterations_in_a_wave : ℕ
  pub targets : Option (List ℕ)
  pub nb_clients_min : ℕ
  pub nb_clients_max : ℕ
  pub step : ℤ
  pub duration : ℕ
  pub nb_msg_per_connection : ℕ
  pub delay : ℕ
  pub percent_stats_kept_master : ℤ
  pub slaves_infos : Option (List ℕ)
  pub n_copy : ℤ
  pub warmup_length : ℤ

pub data BadConfig : Type 0 where
  no_value unknown_parameter not_initialized bad_percent bad_n_copy bad_warmup : BadConfig

-- the initial values of the globals
abbrev pub initial_config : Config
initial_config = record {
  nb_iterations_in_a_wave = 0;
  targets = none;
  nb_clients_min = 0;
  nb_clients_max = 0;
  step = pos 0;
  duration = 0;
  nb_msg_per_connection = 0;
  delay = 0;
  percent_stats_kept_master = pos 100;
  slaves_infos = none;
  n_copy = pos 0;
  warmup_length = pos 0;
}

-- The chain of tests on the name of a parameter.
unfoldable pub set_parameter : List ℕ → List ℕ → Config → Outcome BadConfig Config
set_parameter param value c =
    if same_text param (codes "nb_iterations_in_a_wave")
    then ok (record c { nb_iterations_in_a_wave = to_u32 (atoi value) })
    else if same_text param (codes "targets")
    then ok (record c { targets = some value })
    else if same_text param (codes "nb_clientsMin")
    then ok (record c { nb_clients_min = to_u32 (atoi value) })
    else if same_text param (codes "nb_clientsMax")
    then ok (record c { nb_clients_max = to_u32 (atoi value) })
    else if same_text param (codes "step")
    then ok (record c { step = atoi value })
    else if same_text param (codes "duration")
    then ok (record c { duration = to_u32 (atoi value) })
    else if same_text param (codes "nb_msg_per_connection")
    then ok (record c { nb_msg_per_connection = to_u32 (atoi value) })
    else if same_text param (codes "delay")
    then ok (record c { delay = to_u32 (atoi value) })
    else if same_text param (codes "percent_stats_kept_master")
    then ok (record c { percent_stats_kept_master = atoi value })
    else if same_text param (codes "slaves")
    then ok (record c { slaves_infos = some value })
    else if same_text param (codes "N-copy")
    then ok (record c { n_copy = atoi value })
    else if same_text param (codes "warmup")
    then ok (record c { warmup_length = atoi value })
    else stop unknown_parameter

-- the delimiters " =\n"
abbrev pub blank : ℕ → Bool
blank c = (c == b' ') || ((c == b'=') || (c == b'\n'))

-- A line with a parameter; without a value the process exits.
unfoldable pub read_assignment : List ℕ → Config → Outcome BadConfig Config
unfolding set_parameter
read_assignment buffer c =
    let param = strtok blank buffer in
    let value = strtok blank param.1 in
    elim (value.0) [
      | none ↦ stop no_value
      | some v ↦ elim (param.0) [ none ↦ stop no_value | some p ↦ set_parameter p v c ]
    ]

-- One round of the loop, on the string in `buffer`.
unfoldable pub read_config_line : List ℕ → Config → Outcome BadConfig Config
unfolding read_assignment
read_config_line [] c = read_assignment [] c
read_config_line (b ∷ buffer) c =
    if b == b'#'
    then ok c
    else if same_text (b ∷ buffer) (b'\n' ∷ [])
    then ok c
    else read_assignment (b ∷ buffer) c

-- `fgets` with room for `n` bytes and the NUL, and what is left of the file.
unfoldable pub fgets : ℕ → List ℕ → List ℕ × List ℕ
fgets zero s = ([], s)
fgets (suc n) [] = ([], [])
fgets (suc n) (c ∷ s) =
    let rest = fgets n s in if c == b'\n' then (c ∷ [], s) else (c ∷ rest.0, rest.1)

abbrev pub line_size : ℕ
line_size = 2047

-- The loop over the lines; each takes a byte at least, so the length of the file is fuel enough.
unfoldable pub read_lines : ℕ → List ℕ → Config → Outcome BadConfig Config
unfolding read_config_line fgets
read_lines fuel [] c = ok c
read_lines zero (b ∷ s) c = ok c
read_lines (suc fuel) (b ∷ s) c =
    let line = fgets line_size (b ∷ s) in
    read_config_line (c_string (line.0)) c >>= read_lines fuel (line.1)

-- `parse_config_file`, on the contents of the file
unfoldable pub parse_config_file : List ℕ → Config → Outcome BadConfig Config
unfolding read_lines
parse_config_file stream c = read_lines (length stream) stream c

at_most_zero : ℤ → Bool
at_most_zero (pos n) = n == 0
at_most_zero (negsuc n) = true

above_hundred : ℤ → Bool
above_hundred (pos n) = ltb 100 n
above_hundred (negsuc n) = false

zero_or_one : ℤ → Bool
zero_or_one (pos n) = leb n 1
zero_or_one (negsuc n) = false

below_zero : ℤ → Bool
below_zero (pos n) = false
below_zero (negsuc n) = true

is_null : Option (List ℕ) → Bool
is_null none = true
is_null (some s) = false

unfoldable pub check_all_parameters_filled : Config → Outcome BadConfig Config
unfolding at_most_zero above_hundred zero_or_one below_zero is_null
check_all_parameters_filled c =
    if is_null c.targets
    then stop not_initialized
    else if c.nb_iterations_in_a_wave == 0
    then stop not_initialized
    else if c.duration == 0
    then stop not_initialized
    else if c.nb_msg_per_connection == 0
    then stop not_initialized
    else if at_most_zero c.percent_stats_kept_master || above_hundred c.percent_stats_kept_master
    then stop bad_percent
    else if c.nb_clients_min == 0
    then stop not_initialized
    else if c.nb_clients_max == 0
    then stop not_initialized
    else if is_null c.slaves_infos
    then stop not_initialized
    else if zero_or_one c.n_copy
    then if below_zero c.warmup_length then stop bad_warmup else ok c
    else stop bad_n_copy
