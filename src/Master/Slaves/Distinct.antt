-- ===== src/Master/Slaves/Distinct.antt =====
-- The servers that `init_slaves_info` keeps: each target once.
use slg.Base.{
  ℕ, ◌+◌, ◌≤◌, ◌≡◌, refl, ap, ◌∙◌, List, [], ◌∷◌, ◌++◌, true, false, arith, ◌||◌, if◌then◌else◌,
  Bool-cases, inl, inr,
}
use slg.Base.Int.{ℤ, pos, negsuc}
use slg.Master.Slaves.{same_text, same_int, same_server, find_server, add_servers}

-- How often a server stands in a list.
unfoldable pub count_server : List ℕ × ℤ → List (List ℕ × ℤ) → ℕ
count_server x [] = 0
count_server x (s ∷ servers) = (if same_server x s then 1 else 0) + count_server x servers

same_text-eq : (s t : List ℕ) → same_text s t ≡ true → s ≡ t
same_text-eq [] [] h = refl
same_text-eq [] (d ∷ t) h = absurd (cc)
same_text-eq (c ∷ s) [] h = absurd (cc)
same_text-eq (c ∷ s) (d ∷ t) h = ground (arith, same_text-eq s t)

same_int-eq : (a b : ℤ) → same_int a b ≡ true → a ≡ b
same_int-eq (pos a) (pos b) h = ground arith
same_int-eq (pos a) (negsuc b) h = absurd (cc)
same_int-eq (negsuc a) (pos b) h = absurd (cc)
same_int-eq (negsuc a) (negsuc b) h = ground arith

same_server-eq : (a b : List ℕ × ℤ) → same_server a b ≡ true → a ≡ b
same_server-eq (s, a) (t, b) h = ground (arith, same_text-eq s t, same_int-eq a b)

count_server-append :
    (x : List ℕ × ℤ) (xs ys : List (List ℕ × ℤ))
    → count_server x (xs ++ ys) ≡ count_server x xs + count_server x ys
unfolding count_server
count_server-append x [] ys = omega arith
count_server-append x (s ∷ xs) ys = omega (arith, count_server-append x xs ys)

find_server-append :
    (x : List ℕ × ℤ) (xs ys : List (List ℕ × ℤ))
    → find_server x (xs ++ ys) ≡ (find_server x xs || find_server x ys)
unfolding find_server
find_server-append x [] ys = refl
find_server-append x (s ∷ xs) ys = ground (arith, find_server-append x xs ys)

count-of_missing :
    (x : List ℕ × ℤ) (xs : List (List ℕ × ℤ)) → find_server x xs ≡ false → count_server x xs ≡ 0
unfolding find_server count_server
count-of_missing x [] h = refl
count-of_missing x (s ∷ xs) h = ground (arith, count-of_missing x xs)

same_finds :
    (x t : List ℕ × ℤ) (servers : List (List ℕ × ℤ))
    → same_server x t ≡ true
    → find_server x servers ≡ find_server t servers
same_finds x t servers e = ap (λ y. find_server y servers) (same_server-eq x t e)

once-snoc :
    (x t : List ℕ × ℤ) (servers : List (List ℕ × ℤ))
    → find_server t servers ≡ false
    → count_server x servers ≤ 1
    → count_server x (servers ++ t ∷ []) ≤ 1
unfolding count_server
once-snoc x t servers f h = elim (Bool-cases (same_server x t)) [
  | inl e ↦ ground (
    arith,
    count_server-append x servers (t ∷ []),
    count-of_missing x servers (same_finds x t servers e ∙ f),
  )
  | inr e ↦ ground (arith, count_server-append x servers (t ∷ []))
]

-- The servers kept from a list of targets are the targets, and none of them stands twice, if none does
-- among those there before.
pub add_servers-once :
    (x : List ℕ × ℤ) (targets servers : List (List ℕ × ℤ))
    → count_server x servers ≤ 1
    → (count_server x (add_servers targets servers) ≤ 1)
      × (find_server x (add_servers targets servers)
          ≡ (find_server x servers || find_server x targets))
unfolding add_servers find_server
add_servers-once x [] servers h = (h, ground arith)
add_servers-once x (t ∷ targets) servers h = elim (Bool-cases (find_server t servers)) [
  | inl e ↦
      let (once, found) = add_servers-once x targets servers h in
      rw e (once, ground (arith, found, same_finds x t servers))
  | inr e ↦
      let (once, found) =
        add_servers-once x targets (servers ++ t ∷ []) (once-snoc x t servers e h) in
      rw e (once, ground (arith, found, find_server-append x servers (t ∷ [])))
]
