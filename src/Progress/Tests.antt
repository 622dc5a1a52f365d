-- ===== src/Progress/Tests.antt =====
-- The theorems on a ProgressTracker with two holders.
use bees.Base.{ℕ, ◌≡◌, inl, refl, max, [], ◌∷◌, arith, ok, Returns, ◌>>=◌}
use bees.Progress.{HolderKey, Tracker, new_tracker, hold, release, insert, erase}
use bees.Progress.Checkpoint.{IsTracker, Held, hold_lem, release_lem}

abbrev key : ℕ → ℕ → HolderKey
key v h = record { m_value = v; holder = h }

-- Work at 20 and at 30, from a tracker that began at 10.
abbrev busy : Tracker
busy = record { m_in_progress = key 20 1 ∷ key 30 2 ∷ []; m_begin = 20; m_end = 30 }

busy_run : (hold (key 30 2) (new_tracker 10) >>= hold (key 20 1)) ≡ ok busy
unfolding hold insert
busy_run = refl

idle_run : (release (key 20 1) busy >>= release (key 30 2)) ≡ ok (new_tracker 30)
unfolding release erase
idle_run = refl

busy-IsTracker : IsTracker busy
busy-IsTracker = record {
  sorted = ((refl, tt), (tt, tt));
  within = (omega arith, (omega arith, tt));
  begin_is = refl;
}

hold_lem_example :
    Returns
      (hold (key 15 3) busy)
      (λ u. IsTracker u × (u.m_end ≡ max 30 15) × Held (key 15 3) u.m_in_progress)
hold_lem_example = hold_lem (key 15 3) busy busy-IsTracker (λ h. ground arith)

release_lem_example :
    Returns
      (release (key 20 1) busy)
      (λ u. IsTracker u × (u.m_end ≡ 30) × (Held (key 20 1) u.m_in_progress → ⊥))
release_lem_example = release_lem (key 20 1) busy busy-IsTracker (inl refl)
