-- ===== src/Sample/Fill.antt =====
-- What a sample holds: the elements inserted, in order.
use slg.Base.{
  ℕ, zero, suc, ◌+◌, ◌≤◌, ◌<◌, ◌≡◌, refl, ap, ◌∙◌, List, [], ◌∷◌, ◌++◌, length, append-nil,
  append_assoc, length-append, length-set, length-replicate, set, take, arith, true, lt→ltb,
}
use slg.Base.Outcome.{Outcome, ok, stop, ◌>>=◌}
use slg.Sample.{Sample, Failed, assertion, insert_lf, init_stats_sample_lf}

module _ {ℓ} {F : Type ℓ} where
  -- `sample` holds `vs`.
  pub record Holds (sample : Sample F) (vs : List F) : Type ℓ where
    pub storage : length sample.s ≡ sample.size_max
    pub fits : sample.nb_elem ≤ sample.size_max
    pub count : length vs ≡ sample.nb_elem
    pub elements : take sample.nb_elem sample.s ≡ vs

  take-set :
      (i : ℕ) (xs : List F) (v : F)
      → i < length xs
      → take (i + 1) (set xs i v) ≡ take i xs ++ v ∷ []
  take-set i [] v h = absurd (omega arith)
  take-set zero (x ∷ xs) v h = refl
  take-set (suc i) (x ∷ xs) v h =
      let e : suc i + 1 ≡ suc (i + 1) = omega arith in rw (e, take-set i xs v (omega arith))

  pub init-Holds :
      (nought : F) (size_max : ℕ)
      → (sample : Sample F) × (init_stats_sample_lf nought true size_max ≡ ok sample)
        × (sample.size_max ≡ size_max)
        × Holds sample []
  unfolding init_stats_sample_lf
  init-Holds nought n = (
    _,
    refl,
    refl,
    record {
      storage = length-replicate n nought;
      fits = omega arith;
      count = refl;
      elements = refl;
    },
  )

  pub insert-Holds :
      (sample : Sample F) (vs : List F) (v : F)
      → Holds sample vs
      → length vs < sample.size_max
      → (after : Sample F) × (insert_lf sample v ≡ ok after)
        × (after.size_max ≡ sample.size_max)
        × Holds after (vs ++ v ∷ [])
  unfolding insert_lf
  insert-Holds sample vs v h lt = (
    record {
      s = set sample.s sample.nb_elem v;
      nb_elem = sample.nb_elem + 1;
      size_max = sample.size_max;
    },
    rw (
      lt→ltb sample.nb_elem sample.size_max (omega (arith, h.count)),
      lt→ltb sample.nb_elem (length sample.s) (omega (arith, h.count, h.storage)),
    ),
    refl,
    record {
      storage = length-set sample.s sample.nb_elem v ∙ h.storage;
      fits = omega (arith, h.count);
      count = omega (arith, h.count, length-append vs (v ∷ []));
      elements =
          take-set sample.nb_elem sample.s v (omega (arith, h.count, h.storage))
          ∙ ap (λ x. x ++ v ∷ []) h.elements;
    },
  )

  -- The inserts of a list, one after another.
  abbrev pub insert_all : Sample F → List F → Outcome Failed (Sample F)
  insert_all sample [] = ok sample
  insert_all sample (v ∷ vs) = insert_lf sample v >>= (λ after. insert_all after vs)

  insert_all-Holds :
      (sample : Sample F) (us vs : List F)
      → Holds sample us
      → length us + length vs ≤ sample.size_max
      → (after : Sample F) × (insert_all sample vs ≡ ok after)
        × (after.size_max ≡ sample.size_max)
        × Holds after (us ++ vs)
  insert_all-Holds sample us [] h le = (sample, refl, refl, rw (append-nil us) h)
  insert_all-Holds sample us (v ∷ vs) h le =
      let (mid, e, z, k) = insert-Holds sample us v h (omega arith) in
      let (after, e', z', k') =
        insert_all-Holds mid (us ++ v ∷ []) vs k (omega (arith, z, length-append us (v ∷ []))) in
      (after, rw (e, e'), z' ∙ z, rw (← append_assoc us (v ∷ []) vs) k')

  -- A new sample takes as many elements as it was made for, holds them in the order in which they came,
  -- and the next insert then fails its assert.
  pub insert_all-contents :
      (nought next : F) (vs : List F)
      → (start : Sample F) × (after : Sample F) × (init_stats_sample_lf nought true (length vs)
          ≡ ok start)
        × (insert_all start vs ≡ ok after)
        × (take after.nb_elem after.s ≡ vs)
        × (insert_lf after next ≡ stop assertion)
  unfolding insert_lf
  insert_all-contents nought next vs =
      let (start, e, z, h) = init-Holds nought (length vs) in
      let (after, e', z', k) = insert_all-Holds start [] vs h (omega (arith, z)) in
      (start, after, e, e', k.elements, ground (arith, k.count, z, z'))
