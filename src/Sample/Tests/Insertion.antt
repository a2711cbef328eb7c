-- ===== src/Sample/Tests/Insertion.antt =====
-- A routine that may stand for `qsort`: insertion into a sorted list.
use native.Mathlib.Bridge.{le_prop}
use mathlib.Core.Logic.Or
use mathlib.Core.List.{Mem, Perm, Pairwise, mem-cons, not-mem-nil}
use mathlib.Core.List.Perm
use mathlib.Core.Path.{subst}
use slg.Base.{
  ℕ, zero, suc, ◌≤◌, ◌≡◌, sym, inl, inr, List, [], ◌∷◌, Bool, true, false, arith, ltb, Bool-cases,
  if◌then◌else◌,
}
use slg.Base.Int.{ℤ, pos, negsuc}
use slg.Sample.Percentile.{compare_elem}
use slg.Sample.Percentile.Sorting.{NotAfter, Sorts, IsOrder}

abbrev pub not_after : ℤ → Bool
not_after (pos zero) = true
not_after (pos (suc n)) = false
not_after (negsuc n) = true

module _ {ℓ} {F : Type ℓ} (compare : F → F → ℤ) where
  abbrev pub put_before : F → List F → List F
  put_before x [] = x ∷ []
  put_before x (y ∷ ys) =
      let later = y ∷ put_before x ys in if not_after (compare x y) then x ∷ y ∷ ys else later

abbrev pub insertion {ℓ} : {F : Type ℓ} → (F → F → ℤ) → List F → List F
insertion compare [] = []
insertion compare (x ∷ xs) = put_before compare x (insertion compare xs)

put_before-perm {ℓ} :
    {F : Type ℓ} (compare : F → F → ℤ) (x : F) (ys : List F)
    → Perm (put_before compare x ys) (x ∷ ys)
put_before-perm compare x [] = Perm.rfl
put_before-perm compare x (y ∷ ys) = elim (Bool-cases (not_after (compare x y))) [
  | inl e ↦ rw e Perm.rfl
  | inr e ↦ rw e (Perm.trans (Perm.cons y (put_before-perm compare x ys)) (Perm.swap x y ys))
]

insertion-perm {ℓ} :
    {F : Type ℓ} (compare : F → F → ℤ) (xs : List F) → Perm (insertion compare xs) xs
insertion-perm compare [] = Perm.rfl
insertion-perm compare (x ∷ xs) =
    Perm.trans (put_before-perm compare x (insertion compare xs))
      (Perm.cons x (insertion-perm compare xs))

abbrev Up : List ℕ → Type 0
Up = Pairwise ◌≤◌

le_of_test : (x y : ℕ) → not_after (compare_elem ltb x y) ≡ true → x ≤ y
unfolding compare_elem
le_of_test x y e = ground arith

ge_of_test : (x y : ℕ) → not_after (compare_elem ltb x y) ≡ false → y ≤ x
unfolding compare_elem
ge_of_test x y e = ground arith

below_all :
    (x y : ℕ) (ys : List ℕ)
    → x ≤ y
    → ((z : ℕ) → Mem z ys → y ≤ z)
    → (z : ℕ) → Mem z (y ∷ ys)
    → x ≤ z
below_all x y ys le h z m =
    Or.elim le_prop (mem-cons.0 m) (λ e. subst (λ v. x ≤ v) (sym e) le)
      (λ m'. let k = h z m' in omega arith)

put_before-Up : (x : ℕ) (ys : List ℕ) → Up ys → Up (put_before (compare_elem ltb) x ys)
put_before-Up x [] u = Pairwise.cons (λ z m. absurd (not-mem-nil m)) Pairwise.nil
put_before-Up x (y ∷ ys) (Pairwise.cons h u) =
    elim (Bool-cases (not_after (compare_elem ltb x y))) [
      | inl e ↦ rw e (Pairwise.cons (below_all x y ys (le_of_test x y e) h) (Pairwise.cons h u))
      | inr e ↦ rw e (
          Pairwise.cons
            (λ z m.
              Or.elim le_prop
                (mem-cons.0 ((Perm.mem_iff (put_before-perm (compare_elem ltb) x ys)).0 m))
                (λ q. subst (λ v. y ≤ v) (sym q) (ge_of_test x y e)) (h z))
            (put_before-Up x ys u))
    ]

insertion-Up : (xs : List ℕ) → Up (insertion (compare_elem ltb) xs)
insertion-Up [] = Pairwise.nil
insertion-Up (x ∷ xs) = put_before-Up x (insertion (compare_elem ltb) xs) (insertion-Up xs)

NotAfter-of_le : (a b : ℕ) → a ≤ b → NotAfter (compare_elem ltb a b)
unfolding compare_elem
NotAfter-of_le a b le = ground arith

weaken : (xs : List ℕ) → Up xs → Pairwise (λ a b. NotAfter (compare_elem ltb a b)) xs
weaken [] Pairwise.nil = Pairwise.nil
weaken (x ∷ xs) (Pairwise.cons h u) =
    Pairwise.cons (λ b m. NotAfter-of_le x b (h b m)) (weaken xs u)

pub insertion-Sorts : Sorts insertion (compare_elem ltb)
insertion-Sorts = record {
  same_elements = insertion-perm (compare_elem ltb);
  in_order = λ xs. weaken (insertion (compare_elem ltb) xs) (insertion-Up xs);
}

pub ltb-IsOrder : IsOrder ltb
ltb-IsOrder = record { asymmetric = λ a b h. ground arith; connected = λ a b h k. ground arith }
