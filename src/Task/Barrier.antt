-- ===== src/Task/Barrier.antt =====
-- What Barrier and Exclusion (lib/task.cc) do to the tasks that they hold back.
use bees.Base.{
  ℕ, ◌≤◌, ◌≡◌, ◌≢◌, refl, Bool, true, false, some, List, [], ◌∷◌, ◌==◌, arith, ok, ◌>>=◌, Returns,
  Returns-bind, Returns-else,
}
use bees.Task.{System, task}
use bees.Task.State
use bees.Task.Steps.{Reachable, IsHandle}
use bees.Task.Promises.{Scheduled}
use bees.Task.Waiting.{insert_lem}
use bees.Task.Handle
use bees.Task.Handle.{Exclusion, insert, try_lock}

-- Handles stay handles, and what is to run stays so.
record Keeps (s r : System) : Type 0 where
  handles : (w : ℕ) → IsHandle w s → IsHandle w r
  asks : (w : ℕ) → (task s w).m_run_now ≡ true → (task r w).m_run_now ≡ true
  working : r.m_cancelled ≡ s.m_cancelled

-- Other threads make any calls, but do not cancel, and handles stay: the barrier has pointers to its
-- tasks.
pub record IsOthers (others : ℕ → System → System) : Type 0 where
  pub reachable : (t : ℕ) (s : System) → Reachable s → Reachable (others t s)
  pub handles : (t w : ℕ) (s : System) → IsHandle w s → IsHandle w (others t s)
  pub working : (t : ℕ) (s : System) → (others t s).m_cancelled ≡ s.m_cancelled

-- Each run returns, and when it does its task is to run and is in exactly one place.
abbrev pub Released : (ℕ → System → System) → List ℕ → System → Type 0
Released others [] s = Unit
Released others (t ∷ ts) s =
    Returns (Handle.run (some t) s) (λ r. Scheduled t r × Released others ts (others t r))

abbrev pub owned_by : ℕ → ℕ → Exclusion
owned_by t n = record { m_owner = some t; use_count = n }

-- While the scheduler is not cancelled and another task owns the Exclusion, try_lock returns
-- without the lock and leaves the Exclusion as it was, and the task is to run again and is in
-- exactly one place.
pub try_lock_lem :
    (t u n : ℕ) (s : System)
    → Reachable s
    → IsHandle t s
    → IsHandle u s
    → s.m_cancelled ≡ false
    → t ≢ u
    → 1 ≤ n
    → Returns
        (try_lock (some u) (owned_by t n, s))
        (λ ((f, r), locked). (locked ≡ false) × (f ≡ owned_by t n) × Scheduled u r)
unfolding try_lock insert
try_lock_lem t u n s h k l c ne used =
    let after : Exclusion × System × Bool → Type 0 =
      λ (f, r, locked). (locked ≡ false) × (f ≡ owned_by t n) × Scheduled u r in
    Returns-else (λ ((f, r), locked). after (f, r, locked)) (n == 0)
      (ok ((record { m_owner = some u; use_count = 1 }, s), true))
      (State.insert t u s >>= λ r. ok ((owned_by t n, r), false)) (ground arith)
      (Returns-bind (Scheduled u) (λ ((f, r), locked). after (f, r, locked)) (State.insert t u s)
        (λ r. ok ((owned_by t n, r), false)) (insert_lem t u s h k l c ne) (λ r a. (refl, refl, a)))
