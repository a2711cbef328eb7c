-- ===== src/Base/Update.antt =====
-- An array that is indexed by number, as a function. What it holds past its end is never read.
use slg.Base.{ℕ, ◌==◌, if◌then◌else◌}

abbrev pub update {ℓ} : {A : Type ℓ} → (ℕ → A) → ℕ → A → ℕ → A
update f i a j = if i == j then a else f j
