-- ===== src/Task/Requests.antt =====
-- The requests to execute a task (lib/task.cc) themselves: run and idle.
use bees.Base.{
  ℕ, ◌<◌, ◌≡◌, refl, Bool, true, false, [], ◌∷◌, length, num, ◌==◌, if◌then◌else◌, arith, Outcome,
  ok, Allows, Allows-if, Allows-mono,
}
use bees.Task.{System, task, put_task}
use bees.Task.Queue.{push_back, push_back_idle}
use bees.Task.State.{run, idle}
use bees.Task.Places.{Balance}
use bees.Task.Moves.{Moves, put_task-Moves}
use bees.Task.Rescue.{push_back-Moves, push_back_idle-Moves}
use bees.Task.Asked.{asked_Balance, again_Balance, moved_Balance}

-- What run and idle do: they differ in the flag m_idle, and in the queue.
requested_Balance :
    (idle : Bool) (u t : ℕ) (push : System → Outcome System) (s : System)
    → u < length s.tasks
    → (task s u).is_rescue ≡ false
    → Balance s u
    → Balance s t
    → ((r : System) → Allows (push r) (λ q. Moves (num (t == u)) r q t))
    → let x = record (task s u) { m_idle = idle } in
      Allows
        (if x.m_run_now
          then ok (put_task u x s)
          else if x.m_is_running
          then ok (put_task u (record x { m_run_now = true; m_run_again = true }) s)
          else push (put_task u (record x { m_run_now = true }) s))
        (λ r. Balance r t)
requested_Balance idle u t push s h no_rescue bu b pushed =
    let x = record (task s u) { m_idle = idle } in
    let again = put_task u (record x { m_run_now = true; m_run_again = true }) s in
    let asked = put_task u (record x { m_run_now = true }) s in
    Allows-if (λ r. Balance r t) x.m_run_now (ok (put_task u x s))
      (if x.m_is_running then ok again else push asked)
      (λ e.
        moved_Balance t s (put_task u x s)
          (put_task-Moves 0 t u x s h
            (record {
              run_now_kept = refl;
              is_running_kept = refl;
              run_again_kept = refl;
              is_rescue_kept = refl;
            })
            (omega arith))
          b)
      (λ e.
        Allows-if (λ r. Balance r t) x.m_is_running (ok again) (push asked)
          (λ f.
            again_Balance u t (record x { m_run_now = true; m_run_again = true }) s h refl refl refl
              refl refl e f no_rescue bu b)
          (λ f.
            Allows-mono (λ q. Moves (num (t == u)) asked q t) (λ r. Balance r t) (push asked)
              (λ r m.
                asked_Balance u t (record x { m_run_now = true }) s r h refl refl refl refl refl e
                  bu b m)
              (pushed asked)))

pub run-Balance :
    (u t : ℕ) (s : System)
    → u < length s.tasks
    → (task s u).is_rescue ≡ false
    → Balance s u
    → Balance s t
    → Allows (run u s) (λ r. Balance r t)
unfolding run
run-Balance u t s h n bu b =
    requested_Balance false u t (push_back (u ∷ []) u) s h n bu b
      (λ r. push_back-Moves (u ∷ []) u t r)

pub idle-Balance :
    (u t : ℕ) (s : System)
    → u < length s.tasks
    → (task s u).is_rescue ≡ false
    → Balance s u
    → Balance s t
    → Allows (idle u s) (λ r. Balance r t)
unfolding idle
idle-Balance u t s h n bu b =
    requested_Balance true u t (push_back_idle (u ∷ []) u) s h n bu b
      (λ r. push_back_idle-Moves (u ∷ []) u t r)
