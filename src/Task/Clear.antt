-- ===== src/Task/Clear.antt =====
-- Clearing queues of the scheduler (lib/task.cc).
use bees.Base.{
  ℕ, zero, suc, ◌≤◌, ◌≡◌, refl, ap, ◌∙◌, Bool, true, List, [], ◌∷◌, ◌++◌, length, length-set,
  get_or, set, sum_by, sum_by-set_le, num, arith,
}
use bees.Task.{TaskState, System, new_task}
use bees.Task.Queue.{clear_queue, clear_all, clear_fuel}
use bees.Task.Places.{in_post}
use bees.Task.Moves.{Moves}

-- Clearing leaves the flags of a task, and no task gets a place among those that wait.
record Cleared (t : ℕ) (before after : List TaskState) : Type 0 where
  same_flags :
      (f : TaskState → Bool)
      → ((x : TaskState) (q : List ℕ) → f (record x { m_post_exec_queue = q }) ≡ f x)
      → num (f (get_or after t new_task)) ≡ num (f (get_or before t new_task))
  fewer : sum_by (in_post t) after ≤ sum_by (in_post t) before
  same_length : length after ≡ length before

set_flag :
    (f : TaskState → Bool) (ts : List TaskState) (t u : ℕ) (q : List ℕ)
    → ((x : TaskState) (q : List ℕ) → f (record x { m_post_exec_queue = q }) ≡ f x)
    → f (get_or (set ts u (record (get_or ts u new_task) { m_post_exec_queue = q })) t new_task)
      ≡ f (get_or ts t new_task)
set_flag f [] t u q h = refl
set_flag f (x ∷ xs) zero zero q h = h x q
set_flag f (x ∷ xs) zero (suc u) q h = refl
set_flag f (x ∷ xs) (suc t) zero q h = refl
set_flag f (x ∷ xs) (suc t) (suc u) q h = set_flag f xs t u q h

clear_queue-Cleared :
    (n t : ℕ) (tq : List ℕ) (ts : List TaskState) → Cleared t ts (clear_queue n tq ts)
unfolding clear_queue
clear_queue-Cleared zero t tq ts = record {
  same_flags = λ f h. refl;
  fewer = omega arith;
  same_length = refl;
}
clear_queue-Cleared (suc n) t [] ts = record {
  same_flags = λ f h. refl;
  fewer = omega arith;
  same_length = refl;
}
clear_queue-Cleared (suc n) t (u ∷ tq) ts =
    let x = get_or ts u new_task in
    let y = record x { m_post_exec_queue = [] } in
    let rest = clear_queue-Cleared n t (x.m_post_exec_queue ++ tq) (set ts u y) in
    record {
      same_flags = λ f h. rest.same_flags f h ∙ ap num (set_flag f ts t u [] h);
      fewer = omega (arith, rest.fewer, sum_by-set_le (in_post t) ts u y new_task (omega arith));
      same_length = rest.same_length ∙ length-set ts u y;
    }

pub clear_all-Moves :
    (extra t : ℕ) (tq : List ℕ) (s : System)
    → s.m_cancelled ≡ true
    → Moves extra s (clear_all tq s) t
clear_all-Moves extra t tq s h =
    let c = clear_queue-Cleared (clear_fuel tq s.tasks) t tq s.tasks in
    let cancelled = ap num h in
    let again = c.same_flags (λ x. x.m_run_again) (λ x q. refl) in
    let rescue = c.same_flags (λ x. x.is_rescue) (λ x q. refl) in
    record {
      placed = omega (arith, c.fewer, again, rescue);
      kept = omega (arith, cancelled);
      run_now_is = c.same_flags (λ x. x.m_run_now) (λ x q. refl);
      is_running_is = c.same_flags (λ x. x.m_is_running) (λ x q. refl);
      run_again_is = again;
      runners_is = refl;
      cancelled_is = refl;
      grows = record {
        tasks_grow = omega (arith, c.same_length);
        consumers_grow = omega arith;
        same_phase = λ d k. refl;
      };
    }
