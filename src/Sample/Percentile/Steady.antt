-- ===== src/Sample/Percentile/Steady.antt =====
-- A percentile depends on what a sample holds, and not on when it came or on how `qsort` sorts.
use mathlib.Core.Path.{ap₂}
use native.Mathlib.Nat.{ℕ_set}
use mathlib.Core.List.{Perm, foldr}
use mathlib.Core.List.Perm
use slg.Base.{
  suc, ℕ, ◌≡◌, refl, sym, ap, ◌∙◌, List, [], ◌∷◌, Bool, false, arith, ltb, length, if◌then◌else◌,
}
use slg.Base.Int.{ℤ}
use slg.Base.Outcome.{ok, stop, ◌>>=◌}
use slg.Sample.{Sample, assertion, Arithmetic, helper_average_lf}
use slg.Sample.Fill.{Holds}
use slg.Sample.Percentile.{
  Floats, Deviation, compare_elem, on_interval, sorted_copy, percentil_average_lf,
  percentil_stddev_lf, helper_stddev_lf,
}
use slg.Sample.Percentile.Sorting.{IsOrder, Sorts, sorted-eq}

pub sorted_copy-Holds {ℓ} :
    {F : Type ℓ} (qsort : List F → List F) (allocated : Bool) (sample : Sample F) (vs : List F)
    → Holds sample vs
    → sorted_copy qsort allocated sample ≡ (if allocated then ok (qsort vs) else stop assertion)
unfolding sorted_copy
sorted_copy-Holds qsort allocated sample vs h =
    let e : ltb (length sample.s) sample.nb_elem ≡ false = ground (arith, h.storage, h.fits) in
    rw (e, h.elements) refl

-- the length as a fold, which keeps what a permutation keeps
length-foldr {ℓ} : {F : Type ℓ} (xs : List F) → length xs ≡ foldr (λ x n. suc n) 0 xs
length-foldr [] = refl
length-foldr (x ∷ xs) = ap suc (length-foldr xs)

pub length-perm {ℓ} : {F : Type ℓ} (xs ys : List F) → Perm xs ys → length xs ≡ length ys
length-perm xs ys p =
    length-foldr xs ∙ Perm.foldr-eq ℕ_set (λ x n. suc n) (λ a b n. refl) p 0 ∙ sym (length-foldr ys)

module _ {ℓ} {F : Type ℓ} (f : Arithmetic F) (d : Deviation F) (less : F → F → Bool)
    (o : IsOrder less) {G : Type ℓ} (fl : Floats G) where
  -- Two samples that hold the same elements, whatever order they came in, give the same percentile average
  -- and deviation, for any two routines that sort, if `<` is a strict total order of the elements (so
  -- none is a NaN).
  pub percentil-perm :
      (sort sort' : (F → F → ℤ) → List F → List F) (sample sample' : Sample F) (xs ys : List F)
      → Sorts sort (compare_elem less)
      → Sorts sort' (compare_elem less)
      → Holds sample xs
      → Holds sample' ys
      → Perm xs ys
      → (allocated : Bool) (percentil : ℕ)
      → (percentil_average_lf f d less sort fl allocated sample percentil
          ≡ percentil_average_lf f d less sort' fl allocated sample' percentil)
        × (percentil_stddev_lf f d less sort fl allocated sample percentil
            ≡ percentil_stddev_lf f d less sort' fl allocated sample' percentil)
  unfolding percentil_average_lf percentil_stddev_lf
  percentil-perm sort sort' sample sample' xs ys s s' h h' p allocated percentil =
      let copied : sorted_copy (sort (compare_elem less)) allocated sample
          ≡ sorted_copy (sort' (compare_elem less)) allocated sample' =
        sorted_copy-Holds (sort (compare_elem less)) allocated sample xs h
        ∙ ap (λ t. if allocated then ok t else stop assertion)
            (sorted-eq less o sort sort' xs ys s s' p)
        ∙ sym (sorted_copy-Holds (sort' (compare_elem less)) allocated sample' ys h') in
      let n : sample.nb_elem ≡ sample'.nb_elem = sym h.count ∙ length-perm xs ys p ∙ h'.count in
      (
        ap₂
            (λ m c.
              on_interval f.nought fl m percentil
                (λ i j. c >>= (λ temp. helper_average_lf f temp i j)))
            n copied,
        ap₂
            (λ m c.
              on_interval f.nought fl m percentil
                (λ i j. c >>= (λ temp. helper_stddev_lf f d temp i j)))
            n copied,
      )
