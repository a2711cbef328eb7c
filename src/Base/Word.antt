-- ===== src/Base/Word.antt =====
-- Unsigned C arithmetic: `unsigned int` is 32 bits wide, `unsigned long` and `unsigned long long` 64.
use slg.Base.{ℕ, ◌+◌, ◌-◌, ◌%◌, ◌^◌}
use slg.Base.Int.{ℤ, pos, negsuc}

abbrev pub u32 : ℕ → ℕ
u32 n = n % 2 ^ 32

abbrev pub u64 : ℕ → ℕ
u64 n = n % 2 ^ 64

-- a - b
abbrev pub sub64 : ℕ → ℕ → ℕ
sub64 a b = (a % 2 ^ 64 + 2 ^ 64 - b % 2 ^ 64) % 2 ^ 64

abbrev pub sub32 : ℕ → ℕ → ℕ
sub32 a b = (a % 2 ^ 32 + 2 ^ 32 - b % 2 ^ 32) % 2 ^ 32

-- an int stored into an unsigned int
abbrev pub to_u32 : ℤ → ℕ
to_u32 (pos n) = n % 2 ^ 32
to_u32 (negsuc n) = 2 ^ 32 - 1 - n % 2 ^ 32

-- an int converted to an unsigned long long
abbrev pub to_u64 : ℤ → ℕ
to_u64 (pos n) = n % 2 ^ 64
to_u64 (negsuc n) = 2 ^ 64 - 1 - n % 2 ^ 64
