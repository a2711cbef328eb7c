-- ===== src/FdSet.antt =====
-- The descriptor sets of slg.c: the `fd_set` that a thread keeps with the highest descriptor in it.
mod Tests
use slg.Base.{
  ℕ, zero, suc, ◌≤◌, ◌<◌, ◌≡◌, ◌⊎◌, inl, inr, refl, Bool, true, false, Option, none, some, arith,
  ◌==◌, if◌then◌else◌, ltb, Bool-cases,
}
use slg.Base.Update.{update}

-- `master_connect_fds` with `max_connect_socket`
pub record FdSet : Type 0 where
  pub member : ℕ → Bool
  pub max : ℕ

unfoldable pub add_client_to_master_write_set : FdSet → ℕ → FdSet
add_client_to_master_write_set s fd = record {
  member = update s.member fd true;
  max = if ltb s.max fd then fd else s.max;
}

-- The loop from `i - 1` down to 0: the first descriptor that is set.
unfoldable pub highest_below : (ℕ → Bool) → ℕ → Option ℕ
highest_below member zero = none
highest_below member (suc i) = if member i then some i else highest_below member i

-- `max_connect_socket` after the loop
abbrev found : Option ℕ → ℕ
found none = 0
found (some i) = i

unfoldable pub remove_client_from_master_write_set : FdSet → ℕ → FdSet
unfolding highest_below
remove_client_from_master_write_set s fd =
    let member = update s.member fd false in
    if s.max == fd
    then record { member = member; max = found (highest_below member s.max) }
    else record { member = member; max = s.max }

-- `max` bounds the set, and is itself in it or 0: what select needs, and no more.
pub record IsExact (s : FdSet) : Type 0 where
  pub bounds : (j : ℕ) → s.member j ≡ true → j ≤ s.max
  pub tight : (s.member s.max ≡ true) ⊎ (s.max ≡ 0)

-- what the loop finds
abbrev IsHighest : (ℕ → Bool) → ℕ → Option ℕ → Type 0
IsHighest member n none = (j : ℕ) → j < n → member j ≡ false
IsHighest member n (some i) =
    (member i ≡ true) × (i < n) × ((j : ℕ) → j < n → member j ≡ true → j ≤ i)

miss-IsHighest :
    (member : ℕ → Bool) (n : ℕ) (o : Option ℕ)
    → member n ≡ false
    → IsHighest member n o
    → IsHighest member (suc n) o
miss-IsHighest member n none e h = λ j lt. ground (arith, h j)
miss-IsHighest member n (some i) e h = (h.0, omega arith, λ j lt m. ground (arith, h.2 j))

highest_below-IsHighest : (member : ℕ → Bool) (n : ℕ) → IsHighest member n (highest_below member n)
unfolding highest_below
highest_below-IsHighest member zero = λ j lt. absurd (omega arith)
highest_below-IsHighest member (suc n) = elim (Bool-cases (member n)) [
  | inl e ↦ rw e (e, omega arith, λ j lt _. omega arith)
  | inr e ↦
      rw e (miss-IsHighest member n (highest_below member n) e (highest_below-IsHighest member n))
]

found-IsExact :
    (member : ℕ → Bool) (n : ℕ) (o : Option ℕ)
    → IsHighest member n o
    → ((j : ℕ) → member j ≡ true → j < n)
    → IsExact (record { member = member; max = found o })
found-IsExact member n none h below = record {
  bounds = λ j m. ground (arith, h j, below j);
  tight = inr refl;
}
found-IsExact member n (some i) h below = record {
  bounds = λ j m. ground (arith, h.2 j, below j);
  tight = inl h.0;
}

remove-IsExact :
    (s : FdSet) (fd : ℕ) → IsExact s → IsExact (remove_client_from_master_write_set s fd)
unfolding remove_client_from_master_write_set
remove-IsExact s fd x = elim (Bool-cases (s.max == fd)) [
  | inl e ↦ rw e (
      found-IsExact _ s.max _ (highest_below-IsHighest (update s.member fd false) s.max)
        (λ j m. ground (arith, x.bounds j)))
  | inr e ↦ rw e (record { bounds = λ j m. ground (arith, x.bounds j); tight = ground arith })
]

pub add-IsExact : (s : FdSet) (fd : ℕ) → IsExact s → IsExact (add_client_to_master_write_set s fd)
unfolding add_client_to_master_write_set
add-IsExact s fd x = record { bounds = λ j m. ground (arith, x.bounds j); tight = ground arith }

-- Adding a descriptor to an exact set, or removing one from it, changes whether that descriptor is in
-- it and no other, and leaves it exact.
pub write_set-IsExact :
    (s : FdSet) (fd : ℕ)
    → IsExact s
    → IsExact (add_client_to_master_write_set s fd)
      × IsExact (remove_client_from_master_write_set s fd)
      × ((j : ℕ) → (add_client_to_master_write_set s fd).member j ≡ update s.member fd true j)
      × ((j : ℕ) → (remove_client_from_master_write_set s fd).member j ≡ update s.member fd false j)
unfolding add_client_to_master_write_set remove_client_from_master_write_set
write_set-IsExact s fd x = (add-IsExact s fd x, remove-IsExact s fd x, λ j. refl, λ j. ground arith)
