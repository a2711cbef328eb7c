-- ===== src/Master/Campaign/Carrying.antt =====
-- Runs with connections next to runs without: what one step more adds to both.
use slg.Base.{◌≡◌, refl, List, ◌∷◌}
use slg.Base.Outcome.{Outcome, ok, stop, within, ◌>>=◌}
use slg.Sample.{Failed}
use slg.Master.Iteration.{IterationFailed, not_filled}
use slg.Master.Waves.{MasterFailed, lift}
use slg.Master.Campaign.{MainFailed, iteration_failed, as_main}

abbrev pub carry {ℓ κ} : {A : Type ℓ} {W : Type κ} → W → A → Outcome IterationFailed (W × A)
carry wire a = ok (wire, a)

-- What the loops without connections give, and what the connections have carried.
abbrev pub carrying {ℓ κ} :
    {A : Type ℓ} {W : Type κ} → W → Outcome MasterFailed A → Outcome MainFailed (W × A)
carrying sent m = within as_main m >>= (λ a. ok (sent, a))

module _ {κ μ} {B : Type κ} {W : Type μ} (wire : W) (sent : List W) where
  one_more :
      (m : Outcome MasterFailed B)
      → (carrying sent m >>= (λ rest. ok (wire ∷ rest.0, rest.1))) ≡ carrying (wire ∷ sent) m
  one_more (ok b) = refl
  one_more (stop e) = refl

  -- One more round before rounds that are known.
  pub carrying-round {ℓ} :
      {A : Type ℓ} (filled : Outcome Failed A) (k : A → Outcome MasterFailed B)
      (played : A → Outcome MainFailed (List W × B))
      → ((a : A) → played a ≡ carrying sent (k a))
      → (within iteration_failed (within not_filled filled >>= (λ a. carry wire a))
          >>= (λ r. played r.1 >>= (λ rest. ok (r.0 ∷ rest.0, rest.1))))
        ≡ carrying (wire ∷ sent) (lift filled >>= k)
  carrying-round (stop e) k played h = refl
  carrying-round (ok a) k played h = rw (h a) (one_more (k a))

module _ {κ μ ν} {B : Type κ} {W : Type μ} {C : Type ν} (sent : W)
    (next : B → Outcome MasterFailed C) {R : Type ν} (result : C → R)
    (played : W → B → Outcome MainFailed R)
    (h : (b : B) → played sent b ≡ (within as_main (next b) >>= (λ c. ok (result c)))) where
  rounds :
      (m : Outcome MasterFailed B)
      → (carrying sent m >>= (λ r. played r.0 r.1))
        ≡ (within as_main (m >>= next) >>= (λ c. ok (result c)))
  rounds (ok b) = h b
  rounds (stop e) = refl

  -- A wave after its warmup, before waves that are known.
  pub carrying-wave {ℓ} :
      {A : Type ℓ} (loaded : Outcome Failed A) (k : A → Outcome MasterFailed B)
      (iterations : A → Outcome MainFailed (W × B))
      → ((a : A) → iterations a ≡ carrying sent (k a))
      → (within as_main (lift loaded) >>= (λ a. iterations a >>= (λ r. played r.0 r.1)))
        ≡ (within as_main (lift loaded >>= (λ a. k a >>= next)) >>= (λ c. ok (result c)))
  carrying-wave (stop e) k iterations g = refl
  carrying-wave (ok a) k iterations g = rw (g a) (rounds (k a))

-- One step more before a run without connections, and before the run that is the same with them.
pub carrying-bind {ℓ κ μ} :
    {A : Type ℓ} {C : Type κ} {R : Type μ} (result : C → R) (m : Outcome MasterFailed A)
    (next : A → Outcome MasterFailed C) (played : A → Outcome MainFailed R)
    → ((a : A) → played a ≡ (within as_main (next a) >>= (λ c. ok (result c))))
    → (within as_main m >>= played) ≡ (within as_main (m >>= next) >>= (λ c. ok (result c)))
carrying-bind result (ok a) next played h = h a
carrying-bind result (stop e) next played h = refl
