-- ===== src/Sample/Percentile/Sorting.antt =====
-- What the percentiles rely on in `qsort`, and that its result does not depend on how it sorts.
use mathlib.Core.Path.{subst, ap₂}
use mathlib.Core.Bool.{Bool-set}
use mathlib.Core.Logic.Or
use mathlib.Core.List.{Mem, Perm, Pairwise, mem-cons, mem-cons_self}
use mathlib.Core.List.Pairwise
use mathlib.Core.List.Perm
use slg.Base.{Bool-cases, zero, suc, ◌≡◌, sym, inl, inr, List, [], ◌∷◌, Bool, true, false, arith}
use slg.Base.Int.{ℤ, pos, negsuc}
use slg.Sample.Percentile.{compare_elem}

abbrev pub NotAfter : ℤ → Type 0
NotAfter (pos zero) = Unit {0}
NotAfter (pos (suc n)) = ⊥
NotAfter (negsuc n) = Unit {0}

module _ {ℓ} {F : Type ℓ} where
  -- `less` is a strict total order, as the one of numbers is.
  pub record IsOrder (less : F → F → Bool) : Type ℓ where
    pub asymmetric : (a b : F) → less a b ≡ true → less b a ≡ false
    pub connected : (a b : F) → less a b ≡ false → less b a ≡ false → a ≡ b

  -- `qsort` puts the elements of an array in an order in which none compares greater than a later one.
  pub record Sorts (qsort : (F → F → ℤ) → List F → List F) (compare : F → F → ℤ) : Type ℓ where
    pub same_elements : (xs : List F) → Perm (qsort compare xs) xs
    pub in_order : (xs : List F) → Pairwise (λ a b. NotAfter (compare a b)) (qsort compare xs)

module _ {ℓ} {F : Type ℓ} (less : F → F → Bool) (o : IsOrder less) where
  abbrev Before : F → F → Type 0
  Before a b = less b a ≡ false

  Before-refl : (a b : F) → b ≡ a → Before a b
  Before-refl a b e = elim (Bool-cases (less a a)) [
    | inl t ↦ subst (λ x. less x a ≡ false) (sym e) (o.asymmetric a a t)
    | inr t ↦ subst (λ x. less x a ≡ false) (sym e) t
  ]

  before_of_compare : (a b : F) → NotAfter (compare_elem less a b) → Before a b
  unfolding compare_elem
  before_of_compare a b h = ground (arith, o.asymmetric a b)

  ordered : (l : List F) → Pairwise (λ a b. NotAfter (compare_elem less a b)) l → Pairwise Before l
  ordered [] Pairwise.nil = Pairwise.nil
  ordered (a ∷ l) (Pairwise.cons h p) =
      Pairwise.cons (λ b m. before_of_compare a b (h b m)) (ordered l p)

  -- The first of an ordered list is before each of its elements.
  first_before : (a b : F) (l : List F) → Pairwise Before (a ∷ l) → Mem b (a ∷ l) → Before a b
  first_before a b l (Pairwise.cons h p) m =
      Or.elim (Bool-set _ _) (mem-cons.0 m) (Before-refl a b) (h b)

  unique : (l r : List F) → Pairwise Before l → Pairwise Before r → Perm l r → l ≡ r
  unique [] r p q s = Perm.nil-eq s
  unique (a ∷ l) [] p q s = Perm.eq-nil s
  unique (a ∷ l) (b ∷ r) p q s =
      let e : a ≡ b =
        o.connected a b (first_before b a r q ((Perm.mem_iff s).0 mem-cons_self))
          (first_before a b l p ((Perm.mem_iff s).1 mem-cons_self)) in
      let rest : Perm l r = Perm.cons_inv (Perm.trans s (Perm.cons' (sym e) Perm.rfl)) in
      ap₂ ◌∷◌ e (unique l r (Pairwise.of_cons p) (Pairwise.of_cons q) rest)

  -- Two arrays of the same elements come out of any two routines that sort as the same array.
  pub sorted-eq :
      (sort sort' : (F → F → ℤ) → List F → List F) (xs ys : List F)
      → Sorts sort (compare_elem less)
      → Sorts sort' (compare_elem less)
      → Perm xs ys
      → sort (compare_elem less) xs ≡ sort' (compare_elem less) ys
  sorted-eq sort sort' xs ys s s' p =
      unique _ _ (ordered _ (s.in_order xs)) (ordered _ (s'.in_order ys))
        (Perm.trans (s.same_elements xs) (Perm.trans p (Perm.symm (s'.same_elements ys))))
