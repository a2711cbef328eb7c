-- ===== src/FdSet/Tests.antt =====
-- A set of two descriptors, of which the greatest leaves.
use slg.Base.{ℕ, ◌≡◌, ◌==◌, ◌||◌, true, false, inl, arith, refl}
use slg.Base.Update.{update}
use slg.FdSet.{
  FdSet, IsExact, write_set-IsExact, add_client_to_master_write_set,
  remove_client_from_master_write_set,
}

abbrev three_and_five : FdSet
three_and_five = record { member = λ j. (j == 3) || (j == 5); max = 5 }

three_and_five-IsExact : IsExact three_and_five
three_and_five-IsExact = record { bounds = λ j m. ground (arith, m); tight = inl refl }

removed_five : (remove_client_from_master_write_set three_and_five 5).max ≡ 3
unfolding remove_client_from_master_write_set
removed_five = refl

write_set-IsExact_example :
    IsExact (add_client_to_master_write_set three_and_five 5)
    × IsExact (remove_client_from_master_write_set three_and_five 5)
    × ((j : ℕ)
        → (add_client_to_master_write_set three_and_five 5).member j
          ≡ update three_and_five.member 5 true j)
    × ((j : ℕ)
        → (remove_client_from_master_write_set three_and_five 5).member j
          ≡ update three_and_five.member 5 false j)
write_set-IsExact_example = write_set-IsExact three_and_five 5 three_and_five-IsExact
