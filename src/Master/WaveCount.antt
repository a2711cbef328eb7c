-- ===== src/Master/WaveCount.antt =====
-- How many waves the master runs, with which numbers of clients, and what it keeps of them.
use slg.Base.{
  ℕ, zero, suc, ◌+◌, ◌-◌, ◌*◌, ◌/◌, ◌%◌, ◌^◌, ◌<◌, ◌≤◌, ◌≡◌, refl, ap, ◌∙◌, List, [], ◌∷◌, ◌++◌,
  length, length-append, append_assoc, append-nil, set, arith, le→leb, gt→leb, ne→==,
}
use native.Mathlib.Nat.{mod-lt, div-add-mod, div-le_self}
use mathlib.Core.Path.{subst}
use slg.Base.Word.{u32, sub32}
use slg.Base.Outcome.{ok}
use slg.Protocol.Response.{SlaveStats}
use slg.Sample.{Sample, Arithmetic, load}
use slg.Master.Measures.{Measures, wave_values, fill_master_stat_report, init_master_stat_report}
use slg.Master.Filled.{Filled, AllEmpty, insert_measures-Filled, init_master_stat_report-AllEmpty}
use slg.Master.Waves.{nb_waves_of, run_iterations, run_waves, run_master}

-- `k` numbers of clients from `nb_clients` on, `step` apart.
unfoldable pub client_counts : ℕ → ℕ → ℕ → List ℕ
client_counts nb_clients step zero = []
client_counts nb_clients step (suc k) = nb_clients ∷ client_counts (nb_clients + step) step k

pub length-client_counts : (nb_clients step k : ℕ) → length (client_counts nb_clients step k) ≡ k
unfolding client_counts
length-client_counts nb_clients step zero = refl
length-client_counts nb_clients step (suc k) =
    ap suc (length-client_counts (nb_clients + step) step k)

-- `k` waves are left: the last one does not exceed `max`, and one more would.
abbrev Left : ℕ → ℕ → ℕ → ℕ → Type 0
Left step max zero nb_clients = max < nb_clients
Left step max (suc k) nb_clients = (nb_clients ≤ max) × Left step max k (nb_clients + step)

Left-quotient :
    (k step max nb_clients : ℕ)
    → 0 < step
    → nb_clients + step * k ≤ max + step
    → max < nb_clients + step * k
    → Left step max k nb_clients
Left-quotient zero step max nb_clients s a b = omega arith
Left-quotient (suc k) step max nb_clients s a b =
    let e : step * suc k ≡ step + step * k = ground arith in
    (omega (arith, e), Left-quotient k step max (nb_clients + step) s (omega arith) (omega arith))

module _ {ℓ} {A : Type ℓ} where
  load-middle :
      (done : List A) (x : A) (rest : List A) → load (done ++ x ∷ rest) (length done) ≡ ok x
  unfolding load
  load-middle [] x rest = refl
  load-middle (d ∷ done) x rest = load-middle done x rest

  set-middle :
      (done : List A) (x y : A) (rest : List A)
      → set (done ++ x ∷ rest) (length done) y ≡ done ++ y ∷ rest
  set-middle [] x y rest = refl
  set-middle (d ∷ done) x y rest = ap (◌∷◌ d) (set-middle done x y rest)

module _ {ℓ} {F : Type ℓ} (f : Arithmetic F) (multiply : F → F → F)
    (slaves_answer : ℕ → ℕ → List (SlaveStats F) × ℕ) where
  -- What `k` iterations of wave `w` measure, from the `i`th on.
  unfoldable pub measured : ℕ → ℕ → ℕ → List (Measures F)
  measured w i zero = []
  measured w i (suc k) =
      wave_values f multiply (slaves_answer w i).0 (slaves_answer w i).1 ∷ measured w (i + 1) k

  -- The waves from `w` on hold what their `n` iterations measure.
  abbrev pub AllFilled : ℕ → ℕ → List (Measures (Sample F)) → Type ℓ
  AllFilled n w [] = Unit
  AllFilled n w (s ∷ ss) = Filled n s (measured w 0 n) × AllFilled n (w + 1) ss

  run_iterations-Filled :
      (n w i k : ℕ) (s : Measures (Sample F)) (vs : List (Measures F))
      → Filled n s vs
      → length vs + k ≤ n
      → (after : Measures (Sample F)) × (run_iterations f multiply slaves_answer w i k s ≡ ok after)
        × Filled n after (vs ++ measured w i k)
  unfolding run_iterations measured fill_master_stat_report
  run_iterations-Filled n w i zero s vs h le = (s, refl, rw (append-nil vs) h)
  run_iterations-Filled n w i (suc k) s vs h le =
      let v = wave_values f multiply (slaves_answer w i).0 (slaves_answer w i).1 in
      let (mid, e, h') = insert_measures-Filled n s vs v h (omega arith) in
      let (after, e', h'') =
        run_iterations-Filled n w (i + 1) k mid (vs ++ v ∷ []) h'
          (omega (arith, length-append vs (v ∷ []))) in
      (after, rw e e', rw (← append_assoc vs (v ∷ []) (measured w (i + 1) k)) h'')

  run_waves-AllFilled :
      (fuel step max n nb_clients : ℕ) (run : List ℕ) (done rest : List (Measures (Sample F)))
      → max + step < 2 ^ 32
      → length rest < fuel
      → Left step max (length rest) nb_clients
      → AllEmpty n rest
      → (filled : List (Measures (Sample F))) × (run_waves f multiply slaves_answer fuel step max n
            nb_clients
            (length done)
            run
            (done ++ rest)
          ≡ ok (run ++ client_counts nb_clients step (length rest), done ++ filled))
        × (length filled ≡ length rest)
        × AllFilled n (length done) filled
  unfolding run_waves client_counts
  run_waves-AllFilled zero step max n nb_clients run done rest b fu l em = absurd (omega arith)
  run_waves-AllFilled (suc fuel) step max n nb_clients run done [] b fu l em =
      ([], rw (gt→leb nb_clients max l, append-nil run) refl, refl, tt)
  run_waves-AllFilled (suc fuel) step max n nb_clients run done (s ∷ rest) b fu (le, l) (h, em) =
      let w = length done in
      let (after, e, h') = run_iterations-Filled n w 0 n s [] h (omega arith) in
      let done' = done ++ after ∷ [] in
      let (filled, run', size, fs) =
        run_waves-AllFilled fuel step max n (nb_clients + step) (run ++ nb_clients ∷ []) done' rest
          b (omega arith) l em in
      let len : length done' ≡ w + 1 = length-append done (after ∷ []) in
      let here : done' ++ rest ≡ done ++ after ∷ rest = append_assoc done (after ∷ []) rest in
      let there : done' ++ filled ≡ done ++ after ∷ filled =
        append_assoc done (after ∷ []) filled in
      let counts = client_counts (nb_clients + step) step (length rest) in
      let ran : (run ++ nb_clients ∷ []) ++ counts ≡ run ++ nb_clients ∷ counts =
        append_assoc run (nb_clients ∷ []) counts in
      let small : (nb_clients + step) % 2 ^ 32 ≡ nb_clients + step = omega arith in
      (
        after ∷ filled,
        rw
            (
              le→leb nb_clients max le,
              load-middle done s rest,
              e,
              set-middle done s after rest,
              small,
              ← len,
              ← here,
              ← there,
              ← ran,
            )
            run',
        ap suc size,
        (h', rw (← len) fs),
      )

  run_master-start :
      (min max step n k : ℕ) (ws : List (Measures (Sample F)))
      → 0 < step
      → u32 (sub32 max min / step + 1) ≡ k
      → init_master_stat_report f.nought k n ≡ ok ws
      → run_master f multiply slaves_answer min max step n
        ≡ run_waves f multiply slaves_answer (k + 1) step max n min 0 [] ws
  unfolding run_master nb_waves_of
  run_master-start min max step n k ws s waves e = rw (ne→== step 0 (λ z. omega arith), waves, e)

  -- With a positive step, the least number of clients not above the greatest, and room for one more
  -- step in 32 bits, the master ends without a fault after (max - min) / step + 1 waves, with the numbers
  -- of clients from the least on, a step apart, and its samples then hold, for each wave, the measures
  -- of its `n` iterations in order.
  pub run_master-waves :
      (nb_clients_min nb_clients_max step n : ℕ)
      → 0 < step
      → nb_clients_min ≤ nb_clients_max
      → nb_clients_max + step < 2 ^ 32
      → (stats : List (Measures (Sample F))) × (run_master f multiply slaves_answer nb_clients_min
            nb_clients_max step n
          ≡ ok (
            client_counts nb_clients_min step ((nb_clients_max - nb_clients_min) / step + 1),
            stats,
          ))
        × (length stats ≡ (nb_clients_max - nb_clients_min) / step + 1)
        × AllFilled n 0 stats
  run_master-waves min max step n s le b =
      let q = (max - min) / step in
      let d : step * q + (max - min) % step ≡ max - min = div-add-mod (max - min) step in
      let r : (max - min) % step < step = mod-lt (max - min) s in
      let small : q ≤ max - min = div-le_self (max - min) step in
      let difference : sub32 max min ≡ max - min = omega arith in
      let small_enough : u32 (q + 1) ≡ q + 1 = omega arith in
      let (ws, e, size, empty) = init_master_stat_report-AllEmpty f.nought (q + 1) n in
      let more : step * (q + 1) ≡ step * q + step = ground arith in
      let left =
        Left-quotient (q + 1) step max min s (omega (arith, d, more)) (omega (arith, d, r, more)) in
      let (filled, run, size', fs) =
        run_waves-AllFilled (q + 1 + 1) step max n min [] [] ws b (omega (arith, size))
          (rw size left) empty in
      let run' =
        subst
          (λ k.
            run_waves f multiply slaves_answer (q + 1 + 1) step max n min 0 [] ws
            ≡ ok (client_counts min step k, filled))
          size run in
      let waves : u32 (sub32 max min / step + 1) ≡ q + 1 = rw difference small_enough in
      (filled, run_master-start min max step n (q + 1) ws s waves e ∙ run', size' ∙ size, fs)
