-- ===== src/MultiLocker/Tests.antt =====
-- Two handles of type 4, and one of type 5 that waits.
use bees.Base.{ℕ, ◌≡◌, refl, none, [], ◌∷◌}
use bees.MultiLocker.{get_lock_private, insert_counter, set_counter, is_lock_available}
use bees.MultiLocker.OneType.{handle, Reachable, starts, steps, gets, holders-OneType}

other_waits : get_lock_private 5 ((4, 2) ∷ []) ≡ ((4, 2) ∷ (5, 0) ∷ [], none)
unfolding get_lock_private insert_counter set_counter is_lock_available
other_waits = refl

two_handles : Reachable ((4, 2) ∷ [], 4 ∷ 4 ∷ [])
unfolding get_lock_private insert_counter set_counter is_lock_available
two_handles =
    steps ((4, 1) ∷ [], 4 ∷ []) _
      (steps ([], []) _ starts (gets 4 [] ((4, 1) ∷ []) (handle 4) [] refl))
      (gets 4 ((4, 1) ∷ []) ((4, 2) ∷ []) (handle 4) (4 ∷ []) refl)

holders-OneType_example : ◌≡◌ {A = ℕ} 4 4
holders-OneType_example = holders-OneType ((4, 2) ∷ []) 4 4 [] [] [] two_handles
