-- ===== src/Base/Outcome.antt =====
-- How a C function ends: it returns, or the process stops (PANIC, exit, a failed assert).

pub data Outcome {ℓ κ} (E : Type ℓ) (A : Type κ) : Type (ℓ ⊔ κ) where
  ok : A → Outcome E A
  stop : E → Outcome E A

infixl 5 ◌>>=◌
abbrev pub ◌>>=◌ {ℓ κ μ} :
    {E : Type ℓ} {A : Type κ} {B : Type μ} → Outcome E A → (A → Outcome E B) → Outcome E B
ok a >>= f = f a
stop e >>= f = stop e

-- What holds of a value that is returned, and of the reason of a stop.
abbrev pub Ensures {ℓ κ μ} :
    {E : Type ℓ} {A : Type κ} → (E → Type μ) → (A → Type μ) → Outcome E A → Type μ
Ensures R P (ok a) = P a
Ensures R P (stop e) = R e

pub Ensures-bind {ℓ κ ν μ} :
    {E : Type ℓ} {A : Type κ} {B : Type ν} (R : E → Type μ) (Q : A → Type μ) (P : B → Type μ)
    (m : Outcome E A) (f : A → Outcome E B)
    → Ensures R Q m
    → ((a : A) → Q a → Ensures R P (f a))
    → Ensures R P (m >>= f)
Ensures-bind R Q P (ok a) f h k = k a h
Ensures-bind R Q P (stop e) f h k = h

-- A reason to stop as a reason of the caller.
abbrev pub within {ℓ κ μ} :
    {E : Type ℓ} {F : Type κ} {A : Type μ} → (E → F) → Outcome E A → Outcome F A
within f (ok a) = ok a
within f (stop e) = stop (f e)

pub Ensures-within {ℓ κ μ ν} :
    {E : Type ℓ} {F : Type κ} {A : Type μ} (f : E → F) (R : F → Type ν) (P : A → Type ν)
    (m : Outcome E A)
    → Ensures (λ e. R (f e)) P m
    → Ensures R P (within f m)
Ensures-within f R P (ok a) h = h
Ensures-within f R P (stop e) h = h
