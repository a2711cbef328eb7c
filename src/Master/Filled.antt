-- ===== src/Master/Filled.antt =====
-- What the samples of a wave hold: one value for each iteration, in order.
use slg.Base.{
  ℕ, zero, suc, ◌<◌, ◌≡◌, refl, ap, ◌∙◌, List, [], ◌∷◌, ◌++◌, map, length-map, length, arith,
}
use slg.Base.Outcome.{ok}
use slg.Sample.{Sample, insert_lf}
use slg.Sample.Fill.{Holds, insert-Holds, init-Holds}
use slg.Master.Measures.{Measures, init_wave, init_master_stat_report, insert_measures}

module _ {ℓ} {F : Type ℓ} where
  -- A sample for `n` values that holds one measure of each of `vs`.
  pub record Column (n : ℕ) (sample : Sample F) (measure : Measures F → F) (vs : List (Measures F))
      : Type ℓ where
    pub size : sample.size_max ≡ n
    pub holds : Holds sample (map measure vs)

  -- The same for the nine samples of a wave.
  pub record Filled (n : ℕ) (w : Measures (Sample F)) (vs : List (Measures F)) : Type ℓ where
    pub total_time : Column n w.total_time (λ v. v.total_time) vs
    pub avg_ct : Column n w.avg_ct (λ v. v.avg_ct) vs
    pub avg_rt : Column n w.avg_rt (λ v. v.avg_rt) vs
    pub avg_crt : Column n w.avg_crt (λ v. v.avg_crt) vs
    pub resp_rate : Column n w.resp_rate (λ v. v.resp_rate) vs
    pub bytes_rate : Column n w.bytes_rate (λ v. v.bytes_rate) vs
    pub max_ct : Column n w.max_ct (λ v. v.max_ct) vs
    pub min_ct : Column n w.min_ct (λ v. v.min_ct) vs
    pub errors : Column n w.errors (λ v. v.errors) vs

  map-snoc :
      (measure : Measures F → F) (vs : List (Measures F)) (v : Measures F)
      → map measure (vs ++ v ∷ []) ≡ map measure vs ++ measure v ∷ []
  map-snoc measure [] v = refl
  map-snoc measure (u ∷ vs) v = ap (◌∷◌ (measure u)) (map-snoc measure vs v)

  insert-Column :
      (n : ℕ) (sample : Sample F) (measure : Measures F → F) (vs : List (Measures F))
      (v : Measures F)
      → Column n sample measure vs
      → length vs < n
      → (after : Sample F) × (insert_lf sample (measure v) ≡ ok after)
        × Column n after measure (vs ++ v ∷ [])
  insert-Column n sample measure vs v c lt =
      let (after, e, z, h) =
        insert-Holds sample (map measure vs) (measure v) c.holds
          (omega (arith, length-map measure vs, c.size)) in
      (after, e, record { size = z ∙ c.size; holds = rw (map-snoc measure vs v) h })

  pub insert_measures-Filled :
      (n : ℕ) (w : Measures (Sample F)) (vs : List (Measures F)) (v : Measures F)
      → Filled n w vs
      → length vs < n
      → (after : Measures (Sample F)) × (insert_measures w v ≡ ok after)
        × Filled n after (vs ++ v ∷ [])
  unfolding insert_measures
  insert_measures-Filled n w vs v h lt =
      let (s1, e1, c1) = insert-Column n w.total_time _ vs v h.total_time lt in
      let (s2, e2, c2) = insert-Column n w.avg_ct _ vs v h.avg_ct lt in
      let (s3, e3, c3) = insert-Column n w.avg_rt _ vs v h.avg_rt lt in
      let (s4, e4, c4) = insert-Column n w.avg_crt _ vs v h.avg_crt lt in
      let (s5, e5, c5) = insert-Column n w.bytes_rate _ vs v h.bytes_rate lt in
      let (s6, e6, c6) = insert-Column n w.resp_rate _ vs v h.resp_rate lt in
      let (s7, e7, c7) = insert-Column n w.max_ct _ vs v h.max_ct lt in
      let (s8, e8, c8) = insert-Column n w.min_ct _ vs v h.min_ct lt in
      let (s9, e9, c9) = insert-Column n w.errors _ vs v h.errors lt in
      (
        _,
        rw (e1, e2, e3, e4, e5, e6, e7, e8, e9),
        record {
          total_time = c1;
          avg_ct = c2;
          avg_rt = c3;
          avg_crt = c4;
          bytes_rate = c5;
          resp_rate = c6;
          max_ct = c7;
          min_ct = c8;
          errors = c9;
        },
      )

  pub init_wave-Filled :
      (nought : F) (n : ℕ) → (w : Measures (Sample F)) × (init_wave nought n ≡ ok w) × Filled n w []
  unfolding init_wave
  init_wave-Filled nought n =
      let (s, e, z, h) = init-Holds nought n in
      let c : (measure : Measures F → F) → Column n s measure [] =
        λ measure. record { size = z; holds = h } in
      (
        _,
        rw e,
        record {
          total_time = c _;
          avg_ct = c _;
          avg_rt = c _;
          avg_crt = c _;
          bytes_rate = c _;
          resp_rate = c _;
          max_ct = c _;
          min_ct = c _;
          errors = c _;
        },
      )

  abbrev pub AllEmpty : ℕ → List (Measures (Sample F)) → Type ℓ
  AllEmpty n [] = Unit
  AllEmpty n (w ∷ ws) = Filled n w [] × AllEmpty n ws

  pub init_master_stat_report-AllEmpty :
      (nought : F) (nb_waves n : ℕ)
      → (ws : List (Measures (Sample F))) × (init_master_stat_report nought nb_waves n ≡ ok ws)
        × (length ws ≡ nb_waves)
        × AllEmpty n ws
  unfolding init_master_stat_report
  init_master_stat_report-AllEmpty nought zero n = ([], refl, refl, tt)
  init_master_stat_report-AllEmpty nought (suc k) n =
      let (w, e, h) = init_wave-Filled nought n in
      let (ws, e', l, hs) = init_master_stat_report-AllEmpty nought k n in
      (w ∷ ws, rw (e, e'), ap suc l, (h, hs))
