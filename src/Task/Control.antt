-- ===== src/Task/Control.antt =====
-- The calls of the TaskMaster, and of a task that begins and ends (lib/task.cc).
use bees.Base.{
  ℕ, ◌-◌, ◌<◌, refl, Bool, true, [], ◌∷◌, ◌++◌, Option, none, some, sum_by-append, length, num_le,
  count, ◌==◌, arith, if_elim,
}
use bees.Task.{System, new_task, task, put_task, thread_count, create}
use bees.Task.Queue.{start_threads_nolock}
use bees.Task.State.{destroy, rescue_queue}
use bees.Task.Master.{
  cancel, pause, adjust_thread_count, start_stop_threads, set_thread_count, set_thread_min_count,
  calculate_thread_count_nolock,
}
use bees.Task.Places.{Balance, in_post}
use bees.Task.Moves.{start_threads_nolock-Moves, spawn-Moves, write-Moves}
use bees.Task.Clear.{clear_all-Moves}
use bees.Task.Rescue.{rescue_queue-Moves, IsThread, clear_flag}
use bees.Task.Asked.{moved_Balance}
use bees.Task.Loop.{even_Balance}

-- After cancel a task that was queued is in no place, and is never executed.
pub cancel-Balance : (t : ℕ) (s : System) → Balance s t → Balance (cancel s) t
unfolding cancel
cancel-Balance t s b =
    let r = record s { m_paused = true; m_cancelled = true; m_queue = []; m_idle_queue = [] } in
    let m = clear_all-Moves 0 t (s.m_queue ++ s.m_idle_queue) r refl in
    record {
      at_most = omega (arith, b.at_most, m.placed, m.run_now_is);
      at_least = omega (arith, m.run_now_is, num_le (task s t).m_run_now);
      one_thread = omega (arith, b.one_thread, m.runners_is, m.is_running_is);
      again_running = omega (arith, b.again_running, m.is_running_is, m.run_again_is);
    }

pub pause-Balance : (paused : Bool) (t : ℕ) (s : System) → Balance s t → Balance (pause paused s) t
unfolding pause
pause-Balance paused t s b =
    let r = record s { m_paused = paused } in
    let same : Balance r t = even_Balance t s r refl refl refl refl b in
    if_elim (λ q. Balance q t) paused r (start_threads_nolock r) (λ _. same)
      (λ _. moved_Balance t r (start_threads_nolock r) (start_threads_nolock-Moves t r) same)

pub adjust_thread_count-Balance :
    (target t : ℕ) (s : System) → Balance s t → Balance (adjust_thread_count target s) t
unfolding adjust_thread_count
adjust_thread_count-Balance target t s b =
    let n = calculate_thread_count_nolock target s in
    let r = record s { m_thread_max = n } in
    let same : Balance r t = even_Balance t s r refl refl refl refl b in
    if_elim (λ q. Balance q t) (n == s.m_thread_max) r (start_threads_nolock r) (λ _. same)
      (λ _. moved_Balance t r (start_threads_nolock r) (start_threads_nolock-Moves t r) same)

start_stop_threads-Balance : (t : ℕ) (s : System) → Balance s t → Balance (start_stop_threads s) t
unfolding start_stop_threads
start_stop_threads-Balance t s b =
    moved_Balance t s (start_stop_threads s) (spawn-Moves (s.m_thread_max - thread_count s) t s) b

pub set_thread_count-Balance :
    (target n t : ℕ) (s : System) → Balance s t → Balance (set_thread_count target n s) t
unfolding set_thread_count
set_thread_count-Balance target n t s b =
    let r = record s { m_configured_thread_max = n } in
    start_stop_threads-Balance t (adjust_thread_count target r)
      (adjust_thread_count-Balance target t r (even_Balance t s r refl refl refl refl b))

pub set_thread_min_count-Balance :
    (target n t : ℕ) (s : System) → Balance s t → Balance (set_thread_min_count target n s) t
unfolding set_thread_min_count
set_thread_min_count-Balance target n t s b =
    let r = record s { m_thread_min = n } in
    start_stop_threads-Balance t (adjust_thread_count target r)
      (adjust_thread_count-Balance target t r (even_Balance t s r refl refl refl refl b))

-- The destructor hands over what waited for the task.
pub destroy-Balance :
    (c : Option ℕ) (u t : ℕ) (s : System)
    → u < length s.tasks
    → IsThread c s
    → Balance s t
    → Balance (destroy c u s) t
unfolding destroy
destroy-Balance c u t s h k b =
    let x = task s u in
    let y = record x { m_post_exec_queue = [] } in
    let r = put_task u y s in
    let q = rescue_queue c x.m_post_exec_queue x.m_sort_queue r in
    moved_Balance t s q
      (write-Moves (count t x.m_post_exec_queue) 0 t u y s q h
        (record {
          run_now_kept = refl;
          is_running_kept = refl;
          run_again_kept = refl;
          is_rescue_kept = refl;
        })
        (omega arith) (rescue_queue-Moves c t x.m_post_exec_queue x.m_sort_queue r (there c k)))
      b
  where
    there :
        (c : Option ℕ)
        → IsThread c s
        → IsThread c (put_task u (record (task s u) { m_post_exec_queue = [] }) s)
    there none k = k
    there (some c) k = k

pub create-Balance : (t : ℕ) (s : System) → Balance s t → Balance (create s) t
create-Balance t s b =
    let now = clear_flag (λ y. y.m_run_now) new_task s.tasks t refl refl in
    let running = clear_flag (λ y. y.m_is_running) new_task s.tasks t refl refl in
    let again = clear_flag (λ y. y.m_run_again) new_task s.tasks t refl refl in
    let rescue = clear_flag (λ y. y.is_rescue) new_task s.tasks t refl refl in
    let post = sum_by-append (in_post t) s.tasks (new_task ∷ []) in
    record {
      at_most = omega (arith, b.at_most, now, rescue, again, post);
      at_least = omega (arith, b.at_least, now, again, post);
      one_thread = omega (arith, b.one_thread, running);
      again_running = omega (arith, b.again_running, running, again);
    }
