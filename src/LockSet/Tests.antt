-- ===== src/LockSet/Tests.antt =====
-- The theorems on a LockSet with two locks of one name.
use bees.Base.{ℕ, ◌≡◌, ◌≢◌, refl, true, false, none, [], ◌∷◌, ok, Returns}
use bees.LockSet.{LockSet, lock, lock_set, try_lock, try_lock_set, unlock, full, locked, new_lock}
use bees.LockSet.Exclusion.{IsSystem, lock_at}
use bees.LockSet.History.{
  Reachable, starts, steps, creates, locks, mutual_exclusion, unlock-Returns,
}

abbrev nothing_locked : LockSet
nothing_locked = record { m_set = []; m_max_size = 10 }

abbrev one_locked : LockSet
one_locked = record { m_set = (7, 1) ∷ []; m_max_size = 10 }

abbrev two_locked : LockSet
two_locked = record { m_set = (8, 2) ∷ (7, 1) ∷ []; m_max_size = 10 }

second_waits : lock 2 (one_locked, new_lock 7) ≡ ok none
unfolding lock lock_set full locked
second_waits = refl

second_fails : try_lock 2 (one_locked, new_lock 7) ≡ ok (one_locked, new_lock 7)
unfolding try_lock try_lock_set full locked
second_fails = refl

-- Two locks of different names, both locked.
both_locked : Reachable (two_locked, lock_at 8 true ∷ lock_at 7 true ∷ [])
unfolding lock lock_set full locked
both_locked =
    steps (one_locked, lock_at 8 false ∷ lock_at 7 true ∷ []) _
      (steps (one_locked, lock_at 7 true ∷ []) _
        (steps (nothing_locked, lock_at 7 false ∷ []) _
          (steps (nothing_locked, []) _ (starts 10) (creates nothing_locked 7 []))
          (locks 1 nothing_locked one_locked (lock_at 7 false) (lock_at 7 true) [] [] refl))
        (creates one_locked 8 (lock_at 7 true ∷ [])))
      (locks 2 one_locked two_locked (lock_at 8 false) (lock_at 8 true) [] (lock_at 7 true ∷ [])
        refl)

mutual_exclusion_example : ◌≢◌ {A = ℕ} 8 7
mutual_exclusion_example =
    mutual_exclusion two_locked (lock_at 8 true) (lock_at 7 true) [] [] [] both_locked refl refl

unlock-Returns_example :
    Returns
      (unlock (two_locked, lock_at 8 true))
      (λ (t, m). IsSystem (t, m ∷ lock_at 7 true ∷ []) × (m ≡ lock_at 8 false))
unlock-Returns_example =
    unlock-Returns two_locked (lock_at 8 true) [] (lock_at 7 true ∷ []) both_locked
