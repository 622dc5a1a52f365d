-- ===== src/Task/Steps.antt =====
-- The scheduler (lib/task.cc) in the hands of its threads and of the program's: the calls, in any
-- order, and what they keep.
use bees.Base.{
  ℕ, ◌+◌, ◌≤◌, ◌<◌, ◌≡◌, refl, ap, ◌∙◌, inl, inr, Bool, false, Option, length, length-set,
  get_or_beyond, num, num_le, leb, ◌==◌, ==_iff, arith, Bool-cases, ok, Allows, get_or-set_ne,
}
use mathlib.Core.Path.{subst}
use bees.Task.{
  System, Phase, waiting, taken, running, new_task, new_consumer, task, consumer, new_system,
  create,
}
use bees.Task.State.{run, idle, append, insert, destroy, exec_begin, exec_end, set_phase}
use bees.Task.Master.{
  consumer_loop, cancel, pause, set_thread_count, set_thread_min_count, adjust_thread_count,
}
use bees.Task.Places.{Balance, places, runners, run_now}
use bees.Task.Rescue.{IsThread}
use bees.Task.Asked.{same_number}
use bees.Task.Requests.{run-Balance, idle-Balance}
use bees.Task.Attach.{append-Balance, insert-Balance}
use bees.Task.Threads.{set_phase-Turns, exec_begin-Balance}
use bees.Task.Finish.{exec_end-Balance}
use bees.Task.Loop.{consumer_loop-Balance}
use bees.Task.Control.{
  cancel-Balance, pause-Balance, set_thread_count-Balance, set_thread_min_count-Balance,
  adjust_thread_count-Balance, destroy-Balance, create-Balance,
}

-- A task that the program has a handle of.
abbrev pub IsHandle : ℕ → System → Type 0
IsHandle u s = (u < length s.tasks) × ((task s u).is_rescue ≡ false)

-- A thread in a phase.
abbrev pub InPhase : ℕ → Phase → System → Type 0
InPhase c p s = (c < length s.consumers) × ((consumer s c).phase ≡ p)

-- One call. A call that throws or does not return is no step; a task is destroyed when the
-- scheduler has no pointer to it.
pub data Step : System → System → Type 0 where
  creates : (s : System) → Step s (create s)
  runs : (u : ℕ) (s r : System) → IsHandle u s → run u s ≡ ok r → Step s r
  idles : (u : ℕ) (s r : System) → IsHandle u s → idle u s ≡ ok r → Step s r
  appends : (t u : ℕ) (s : System) → IsHandle t s → IsHandle u s → Step s (append t u s)
  inserts : (t u : ℕ) (s r : System) → IsHandle t s → IsHandle u s → insert t u s ≡ ok r → Step s r
  destroys :
      (c : Option ℕ) (u : ℕ) (s : System)
      → u < length s.tasks
      → IsThread c s
      → places u s + runners u s ≡ 0
      → Step s (destroy c u s)
  loops : (c : ℕ) (s : System) → InPhase c waiting s → Step s (consumer_loop c s)
  begins : (c u : ℕ) (s : System) → InPhase c (taken u) s → Step s (exec_begin c u s)
  ends : (c u : ℕ) (s r : System) → InPhase c (running u) s → exec_end c u s ≡ ok r → Step s r
  cancels : (s : System) → Step s (cancel s)
  pauses : (paused : Bool) (s : System) → Step s (pause paused s)
  adjusts : (target : ℕ) (s : System) → Step s (adjust_thread_count target s)
  resizes : (target n : ℕ) (s : System) → Step s (set_thread_count target n s)
  sets_min : (target n : ℕ) (s : System) → Step s (set_thread_min_count target n s)

-- What the calls can make of a scheduler without tasks and threads.
pub data Reachable : System → Type 0 where
  starts : (thread_max : ℕ) → Reachable (new_system thread_max)
  steps : (s r : System) → Reachable s → Step s r → Reachable r

-- A task in some place, or running, is in the store.
in_store : (u : ℕ) (s : System) → Balance s u → 1 ≤ places u s + runners u s → u < length s.tasks
in_store u s b h = elim (Bool-cases (leb (length s.tasks) u)) [
  | inr e ↦ ground arith
  | inl e ↦
      let d = get_or_beyond s.tasks u new_task (ground arith) in
      absurd (
        omega (
          arith,
          h,
          b.at_most,
          b.one_thread,
          ap (λ x. num x.m_run_now) d,
          ap (λ x. num x.is_rescue) d,
          ap (λ x. num x.m_is_running) d,
        ))
]

-- A thread that has a task in its hands, or runs it.
taken_place : (c u : ℕ) (s : System) → InPhase c (taken u) s → 1 ≤ places u s + runners u s
taken_place c u s (h, e) =
    let turn = set_phase-Turns c u (taken u) waiting s h e in
    omega (arith, turn.places_is, same_number u)

running_place : (c u : ℕ) (s : System) → InPhase c (running u) s → 1 ≤ places u s + runners u s
running_place c u s (h, e) =
    let turn = set_phase-Turns c u (running u) waiting s h e in
    omega (arith, turn.runners_is, same_number u)

Step-Balance : (s r : System) → Step s r → ((t : ℕ) → Balance s t) → (t : ℕ) → Balance r t
Step-Balance _ _ (creates s) b t = create-Balance t s (b t)
Step-Balance _ _ (runs u s r (h, k) e) b t =
    subst (λ o. Allows o (λ q. Balance q t)) e (run-Balance u t s h k (b u) (b t))
Step-Balance _ _ (idles u s r (h, k) e) b t =
    subst (λ o. Allows o (λ q. Balance q t)) e (idle-Balance u t s h k (b u) (b t))
Step-Balance _ _ (appends n u s (h, _) (k, _)) b t = append-Balance n u t s h k (b u) (b t)
Step-Balance _ _ (inserts n u s r (h, _) (k, _) e) b t =
    subst (λ o. Allows o (λ q. Balance q t)) e (insert-Balance n u t s h k (b u) (b t))
Step-Balance _ _ (destroys c u s h k _) b t = destroy-Balance c u t s h k (b t)
Step-Balance _ _ (loops c s (h, e)) b t = consumer_loop-Balance c t s h e (b t)
Step-Balance _ _ (begins c u s p) b t =
    exec_begin-Balance c u t s (in_store u s (b u) (taken_place c u s p)) p.0 p.1 (b t)
Step-Balance _ _ (ends c u s r p e) b t =
    subst (λ o. Allows o (λ q. Balance q t)) e
      (exec_end-Balance c u t s (in_store u s (b u) (running_place c u s p)) p.0 p.1 (b t))
Step-Balance _ _ (cancels s) b t = cancel-Balance t s (b t)
Step-Balance _ _ (pauses paused s) b t = pause-Balance paused t s (b t)
Step-Balance _ _ (adjusts target s) b t = adjust_thread_count-Balance target t s (b t)
Step-Balance _ _ (resizes target n s) b t = set_thread_count-Balance target n t s (b t)
Step-Balance _ _ (sets_min target n s) b t = set_thread_min_count-Balance target n t s (b t)

pub Reachable-Balance : (s : System) → Reachable s → (t : ℕ) → Balance s t
Reachable-Balance _ (starts n) t = record {
  at_most = omega arith;
  at_least = omega arith;
  one_thread = refl;
  again_running = omega arith;
}
Reachable-Balance _ (steps s r h e) t = Step-Balance s r e (Reachable-Balance s h) t

-- A task that is not to run is in no place, also after cancel.
pub at_most_once : (u : ℕ) (s : System) → Reachable s → IsHandle u s → places u s ≤ run_now u s
at_most_once u s h (k, n) = let b = Reachable-Balance s h u in omega (arith, b.at_most, ap num n)

-- Whatever calls the program and the threads make, while the scheduler is not cancelled a task
-- that is to run is in exactly one place (a queue, behind another task, in the hands of a thread,
-- or asked to run again), and a task that is not is in none.
pub run_once :
    (u : ℕ) (s : System)
    → Reachable s
    → IsHandle u s
    → s.m_cancelled ≡ false
    → places u s ≡ run_now u s
run_once u s h (k, n) c =
    let b = Reachable-Balance s h u in omega (arith, b.at_most, b.at_least, ap num n, ap num c)

-- Whatever calls the program and the threads make, two threads that are in the function of the
-- same task are the same thread.
pub one_thread :
    (c d u : ℕ) (s : System)
    → Reachable s
    → InPhase c (running u) s
    → InPhase d (running u) s
    → c ≡ d
one_thread c d u s h (k, e) (l, f) = elim (Bool-cases (c == d)) [
  | inl same ↦ (==_iff c d).0 same
  | inr ne ↦
      let r = set_phase c waiting s in
      let first = set_phase-Turns c u (running u) waiting s k e in
      let other =
        get_or-set_ne s.consumers c d (record (consumer s c) { phase = waiting }) new_consumer
          (λ p. ground arith) in
      let second =
        set_phase-Turns d u (running u) waiting r
          (omega (arith, l, length-set s.consumers c (record (consumer s c) { phase = waiting })))
          (ap (λ x. x.phase) other ∙ f) in
      let b = Reachable-Balance s h u in
      absurd (
        omega (
          arith,
          b.one_thread,
          first.runners_is,
          second.runners_is,
          same_number u,
          num_le (task s u).m_is_running,
        ))
]
