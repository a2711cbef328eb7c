-- ===== src/Master/Config/Names.antt =====
-- The parameters of a configuration file: their names, and what each of them sets.
use slg.Base.{ℕ, ◌≡◌, ◌≢◌, refl, List, [], ◌∷◌, some, true, false, arith, Bool-cases, inl, inr}
use slg.Base.Word.{to_u32}
use slg.Base.Text.{codes, atoi}
use slg.Base.Outcome.{Outcome, ok, stop}
use slg.Master.Slaves.{same_text}
use slg.Master.Config.{Config, BadConfig, unknown_parameter, set_parameter}

pub data Parameter : Type 0 where
  iterations_parameter targets_parameter clients_min_parameter clients_max_parameter step_parameter
        duration_parameter msg_parameter delay_parameter percent_parameter slaves_parameter
        n_copy_parameter warmup_parameter :
      Parameter

abbrev pub name_of : Parameter → List ℕ
name_of iterations_parameter = codes "nb_iterations_in_a_wave"
name_of targets_parameter = codes "targets"
name_of clients_min_parameter = codes "nb_clientsMin"
name_of clients_max_parameter = codes "nb_clientsMax"
name_of step_parameter = codes "step"
name_of duration_parameter = codes "duration"
name_of msg_parameter = codes "nb_msg_per_connection"
name_of delay_parameter = codes "delay"
name_of percent_parameter = codes "percent_stats_kept_master"
name_of slaves_parameter = codes "slaves"
name_of n_copy_parameter = codes "N-copy"
name_of warmup_parameter = codes "warmup"

-- The field that a parameter sets: the two lists as they stand, the others as numbers.
abbrev pub assign : Parameter → List ℕ → Config → Config
assign iterations_parameter v c = record c { nb_iterations_in_a_wave = to_u32 (atoi v) }
assign targets_parameter v c = record c { targets = some v }
assign clients_min_parameter v c = record c { nb_clients_min = to_u32 (atoi v) }
assign clients_max_parameter v c = record c { nb_clients_max = to_u32 (atoi v) }
assign step_parameter v c = record c { step = atoi v }
assign duration_parameter v c = record c { duration = to_u32 (atoi v) }
assign msg_parameter v c = record c { nb_msg_per_connection = to_u32 (atoi v) }
assign delay_parameter v c = record c { delay = to_u32 (atoi v) }
assign percent_parameter v c = record c { percent_stats_kept_master = atoi v }
assign slaves_parameter v c = record c { slaves_infos = some v }
assign n_copy_parameter v c = record c { n_copy = atoi v }
assign warmup_parameter v c = record c { warmup_length = atoi v }

-- What stands before the separator: a parameter's name, or another word.
pub data Name : Type 0 where
  known : Parameter → Name
  other : List ℕ → Name

abbrev pub spelled : Name → List ℕ
spelled (known p) = name_of p
spelled (other w) = w

-- What an assignment does.
abbrev pub meaning : Name → List ℕ → Config → Outcome BadConfig Config
meaning (known p) v c = ok (assign p v c)
meaning (other w) v c = stop unknown_parameter

-- Another word is no parameter's name.
abbrev pub IsNone : Name → Type 0
IsNone (known p) = Unit {0}
IsNone (other w) = (p : Parameter) → w ≢ name_of p

same_text-eq : (s t : List ℕ) → same_text s t ≡ true → s ≡ t
same_text-eq [] [] h = refl
same_text-eq [] (d ∷ t) h = ground arith
same_text-eq (c ∷ s) [] h = ground arith
same_text-eq (c ∷ s) (d ∷ t) h = ground (arith, same_text-eq s t)

different : (s t : List ℕ) → s ≢ t → same_text s t ≡ false
different s t h = elim (Bool-cases (same_text s t)) [
  | inl e ↦ absurd (h (same_text-eq s t e))
  | inr e ↦ e
]

set_parameter-known :
    (p : Parameter) (v : List ℕ) (c : Config) → set_parameter (name_of p) v c ≡ ok (assign p v c)
unfolding set_parameter
set_parameter-known iterations_parameter v c = refl
set_parameter-known targets_parameter v c = refl
set_parameter-known clients_min_parameter v c = refl
set_parameter-known clients_max_parameter v c = refl
set_parameter-known step_parameter v c = refl
set_parameter-known duration_parameter v c = refl
set_parameter-known msg_parameter v c = refl
set_parameter-known delay_parameter v c = refl
set_parameter-known percent_parameter v c = refl
set_parameter-known slaves_parameter v c = refl
set_parameter-known n_copy_parameter v c = refl
set_parameter-known warmup_parameter v c = refl

set_parameter-other :
    (w v : List ℕ) (c : Config)
    → ((p : Parameter) → w ≢ name_of p)
    → set_parameter w v c ≡ stop unknown_parameter
unfolding set_parameter
set_parameter-other w v c h =
    rw
      (
        different w _ (h iterations_parameter),
        different w _ (h targets_parameter),
        different w _ (h clients_min_parameter),
        different w _ (h clients_max_parameter),
        different w _ (h step_parameter),
        different w _ (h duration_parameter),
        different w _ (h msg_parameter),
        different w _ (h delay_parameter),
        different w _ (h percent_parameter),
        different w _ (h slaves_parameter),
        different w _ (h n_copy_parameter),
        different w _ (h warmup_parameter),
      )
      refl

pub set_parameter-meaning :
    (n : Name) (v : List ℕ) (c : Config) → IsNone n → set_parameter (spelled n) v c ≡ meaning n v c
set_parameter-meaning (known p) v c h = set_parameter-known p v c
set_parameter-meaning (other w) v c h = set_parameter-other w v c h
