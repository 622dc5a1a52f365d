-- ===== src/Task/Tests.antt =====
-- The theorems on the scheduler with two tasks and a thread.
use bees.Base.{
  ℕ, ◌≡◌, refl, true, false, some, List, [], ◌∷◌, arith, ok, throw, Returns,
  resource_deadlock_would_occur,
}
use mathlib.Core.Path.{subst}
use bees.Task.{
  TaskState, System, waiting, taken, running, new_task, new_consumer, new_system, create,
}
use bees.Task.Queue.{clear_queue, push_back, start_threads_nolock, rescue_local}
use bees.Task.State.{run, idle, insert, exec_begin, exec_end, requeue}
use bees.Task.Master.{consumer_loop, pick}
use bees.Task.Places.{places, run_now}
use bees.Task.Steps.{Reachable, starts, steps, creates, runs, loops, begins, run_once, one_thread}
use bees.Task.Promises.{Scheduled, run_lem, cancelled_run}
use bees.Task.Waiting.{insert_lem}
use bees.Task.Clearing.{post, waits, waits_behind, clear_queue_lem}
use bees.Task.Turns.{Ended, exec_end-Ended}
use bees.Task.Master.{pause}
use bees.Task.Handle.{try_lock}
use bees.Task.Barrier.{owned_by, try_lock_lem}

abbrev two_tasks : System
two_tasks = create (create (new_system 1))

two_tasks-Reachable : Reachable two_tasks
two_tasks-Reachable =
    steps (create (new_system 1)) two_tasks
      (steps (new_system 1) (create (new_system 1)) (starts 1) (creates (new_system 1)))
      (creates (create (new_system 1)))

abbrev queued : System
queued = record two_tasks {
  tasks = record new_task { m_run_now = true } ∷ new_task ∷ [];
  consumers = new_consumer ∷ [];
  m_queue = 0 ∷ [];
}

run_test : run 0 two_tasks ≡ ok queued
unfolding run push_back start_threads_nolock
run_test = refl

queued-Reachable : Reachable queued
queued-Reachable =
    steps two_tasks queued two_tasks-Reachable
      (runs 0 two_tasks queued (omega arith, refl) run_test)

-- The thread has taken the task; then it is in its m_exec_fn.
abbrev picked : System
picked = record queued {
  consumers = record { phase = taken 0; m_local_queue = [] } ∷ [];
  m_queue = [];
}

abbrev busy : System
busy = record picked {
  tasks = record new_task { m_is_running = true } ∷ new_task ∷ [];
  consumers = record { phase = running 0; m_local_queue = [] } ∷ [];
}

loop_test : consumer_loop 0 queued ≡ picked
unfolding consumer_loop pick
loop_test = refl

begin_test : exec_begin 0 0 picked ≡ busy
unfolding exec_begin
begin_test = refl

busy-Reachable : Reachable busy
busy-Reachable = subst Reachable begin_test (
    steps picked (exec_begin 0 0 picked)
      (subst Reachable loop_test (
        steps queued (consumer_loop 0 queued) queued-Reachable
          (loops 0 queued (omega arith, refl))))
      (begins 0 0 picked (omega arith, refl)))

-- A task waits for the running one, which is asked for again.
abbrev asked_again : System
asked_again = record busy {
  tasks =
      record new_task {
        m_is_running = true;
        m_run_again = true;
        m_run_now = true;
        m_post_exec_queue = 1 ∷ [];
      }
      ∷ record new_task { m_run_now = true }
      ∷ [];
}

again_test :
    exec_end 0 0 asked_again
    ≡ ok (record busy {
      tasks = record new_task { m_run_now = true } ∷ record new_task { m_run_now = true } ∷ [];
      consumers = record { phase = waiting; m_local_queue = 1 ∷ 0 ∷ [] } ∷ [];
    })
unfolding exec_end requeue rescue_local
again_test = refl

exec_end-Ended_example : Returns (exec_end 0 0 asked_again) (Ended 0 0 asked_again)
exec_end-Ended_example = exec_end-Ended 0 0 asked_again (omega arith, refl) (omega arith) refl

run_once_example : places 0 queued ≡ run_now 0 queued
run_once_example = run_once 0 queued queued-Reachable (omega arith, refl) refl

one_thread_example : ◌≡◌ {A = ℕ} 0 0
one_thread_example = one_thread 0 0 0 busy busy-Reachable (omega arith, refl) (omega arith, refl)

run_lem_example : Returns (run 0 busy) (Scheduled 0)
run_lem_example = run_lem 0 busy busy-Reachable (omega arith, refl) refl

insert_lem_example : Returns (insert 0 1 busy) (Scheduled 1)
insert_lem_example =
    insert_lem 0 1 busy busy-Reachable (omega arith, refl) (omega arith, refl) refl
      (λ e. omega arith)

abbrev stopped : System
stopped = record two_tasks { m_cancelled = true; m_paused = true }

cancelled_run_example :
    (run 1 stopped ≡ throw resource_deadlock_would_occur)
    × (idle 1 stopped ≡ throw resource_deadlock_would_occur)
cancelled_run_example = cancelled_run 1 stopped (omega arith) refl refl refl

abbrev chained : List TaskState
chained =
    record new_task { m_post_exec_queue = 1 ∷ [] }
    ∷ record new_task { m_post_exec_queue = 2 ∷ [] }
    ∷ record new_task { m_post_exec_queue = 0 ∷ [] }
    ∷ []

clear_queue_lem_example :
    (post (clear_queue 4 (0 ∷ []) chained) 0 ≡ []) × (post (clear_queue 4 (0 ∷ []) chained) 2 ≡ [])
clear_queue_lem_example =
    clear_queue_lem 4 0 2 (0 ∷ []) chained (omega arith) (omega arith)
      (waits_behind 0 1 2 (omega arith) (waits 1 2 (omega arith)))

-- Another thread pauses the scheduler.
abbrev pauses_it : ℕ → System → System
pauses_it t s = pause true s

try_lock_lem_example :
    Returns
      (try_lock (some 1) (owned_by 0 1, busy))
      (λ ((f, r), locked). (locked ≡ false) × (f ≡ owned_by 0 1) × Scheduled 1 r)
try_lock_lem_example =
    try_lock_lem 0 1 1 busy busy-Reachable (omega arith, refl) (omega arith, refl) refl
      (λ e. omega arith) (omega arith)
