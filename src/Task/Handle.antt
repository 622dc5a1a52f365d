-- ===== src/Task/Handle.antt =====
-- The handles that the program has of tasks (lib/task.cc): Task, which may be of no TaskState,
-- Barrier and Exclusion.
use bees.Base.{
  ℕ, ◌-◌, Bool, true, false, Option, none, some, List, [], ◌∷◌, ltb, ◌==◌, if◌then◌else◌, Outcome,
  ok, throw, ◌>>=◌, runtime_error,
}
use bees.Task.{System}
use bees.Task.State

abbrev pub Task : Type 0
Task = Option ℕ

-- The value of a Task, checked.
abbrev pub checked : Task → Outcome ℕ
checked none = throw runtime_error
checked (some t) = ok t

unfoldable pub run : Task → System → Outcome System
run a s = do t ← checked a; State.run t s

unfoldable pub idle : Task → System → Outcome System
idle a s = do t ← checked a; State.idle t s

unfoldable pub append : Task → Task → System → Outcome System
append a b s = do t ← checked a; u ← checked b; ok (State.append t u s)

unfoldable pub insert : Task → Task → System → Outcome System
insert a b s = do t ← checked a; u ← checked b; State.insert t u s

-- set<Task>::insert: in the order of the ids, each task once.
abbrev pub insert_task : ℕ → List ℕ → List ℕ
insert_task t [] = t ∷ []
insert_task t (u ∷ us) =
    let rest = insert_task t us in
    if t == u then u ∷ us else if ltb t u then t ∷ (u ∷ us) else u ∷ rest

-- The loop of release holds no lock: `others t` is what other threads do after the run of t.
abbrev pub run_all : (ℕ → System → System) → List ℕ → System → Outcome System
run_all others [] s = ok s
run_all others (t ∷ ts) s = do r ← run (some t) s; run_all others ts (others t r)

-- BarrierState::release, with the tasks of the barrier; the swap under the lock leaves none.
unfoldable pub release : (ℕ → System → System) → List ℕ × System → Outcome (List ℕ × System)
release others (m_tasks, s) = do r ← run_all others m_tasks s; ok ([], r)

-- m_owner is weak: it has its Task as long as an ExclusionLock has it.
pub record Exclusion : Type 0 where
  pub m_owner : Task
  pub use_count : ℕ

-- With whether the ExclusionLock that it returns has the owner.
unfoldable pub try_lock : Task → Exclusion × System → Outcome ((Exclusion × System) × Bool)
unfolding insert
try_lock a (e, s) =
    if e.use_count == 0 then ok ((record { m_owner = a; use_count = 1 }, s), true) else elim a [
      | none ↦ ok ((e, s), false)
      | some t ↦ do r ← insert e.m_owner (some t) s; ok ((e, r), false)
    ]

-- ExclusionLock::release, of one that has the owner.
abbrev pub release_lock : Exclusion → Exclusion
release_lock e = record e { use_count = e.use_count - 1 }
