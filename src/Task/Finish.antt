-- ===== src/Task/Finish.antt =====
-- A thread of the scheduler ends the execution of a task (lib/task.cc).
use bees.Base.{
  ℕ, ◌<◌, ◌≡◌, refl, ap, ◌∙◌, Bool, true, false, not, [], ◌∷◌, length, length-set, num, num_le,
  count, ◌==◌, if◌then◌else◌, arith, ok, Allows, Allows-if, Allows-bind,
}
use bees.Task.{System, waiting, running, task, put_task, consumer}
use bees.Task.Queue.{push_back_idle, rescue_local}
use bees.Task.State.{set_phase, requeue, exec_end, append_nolock}
use bees.Task.Places.{Balance, split_task, put_task-SelfWrite, put_task-OtherWrite}
use bees.Task.Moves.{Moves, Moves-trans, same-Moves, write-Moves, rescue_local-Moves}
use bees.Task.Rescue.{push_back_idle-Moves}
use bees.Task.Asked.{same_number}
use bees.Task.Attach.{append_nolock-Moves}
use bees.Task.Threads.{set_phase-Turns}

requeue-Moves :
    (u t : ℕ) (s : System)
    → u < length s.tasks
    → Allows (requeue u s) (λ r.
      Moves
        (if (task s u).m_run_again then num (t == u) else 0)
        (put_task u (record (task s u) { m_is_running = false; m_run_again = false }) s)
        r
        t)
unfolding requeue
requeue-Moves u t s h = go (task s u).m_run_again
  where
    go :
        (b : Bool)
        → let x = record (task s u) { m_is_running = false; m_run_again = false } in
          Allows
            (if not b
              then ok (put_task u x s)
              else if x.m_idle
              then push_back_idle (u ∷ []) u (put_task u x s)
              else ok (append_nolock u u (put_task u x s)))
            (λ r. Moves (if b then num (t == u) else 0) (put_task u x s) r t)
    go false =
        same-Moves t
          (put_task u (record (task s u) { m_is_running = false; m_run_again = false }) s)
    go true =
        let x = record (task s u) { m_is_running = false; m_run_again = false } in
        Allows-if (λ r. Moves (num (t == u)) (put_task u x s) r t) x.m_idle
          (push_back_idle (u ∷ []) u (put_task u x s)) (ok (append_nolock u u (put_task u x s)))
          (λ e. push_back_idle-Moves (u ∷ []) u t (put_task u x s))
          (λ e.
            append_nolock-Moves u u t (put_task u x s) (omega (arith, h, length-set s.tasks u x)))

self_extra : (u : ℕ) (b : Bool) → (if b then num (u == u) else 0) ≡ num b
self_extra u true = same_number u
self_extra u false = refl

other_extra : (t u : ℕ) (b : Bool) → (t == u) ≡ false → (if b then num (t == u) else 0) ≡ 0
other_extra t u true h = ap num h
other_extra t u false h = refl

-- The tasks that wait for one go to the local queue of its thread.
rescue_post-Moves :
    (c u t : ℕ) (s : System)
    → u < length s.tasks
    → c < length s.consumers
    → let x = task s u in
      Moves 0 s
        (rescue_local c x.m_post_exec_queue x.m_sort_queue
          (put_task u (record x { m_post_exec_queue = []; m_sort_queue = false }) s))
        t
rescue_post-Moves c u t s h k =
    let x = task s u in
    let y = record x { m_post_exec_queue = []; m_sort_queue = false } in
    let r = put_task u y s in
    write-Moves (count t x.m_post_exec_queue) 0 t u y s
      (rescue_local c x.m_post_exec_queue x.m_sort_queue r) h
      (record {
        run_now_kept = refl;
        is_running_kept = refl;
        run_again_kept = refl;
        is_rescue_kept = refl;
      })
      (omega arith) (rescue_local-Moves c t x.m_post_exec_queue x.m_sort_queue r k)

-- The thread is done with the task.
finish_Balance :
    (c u t : ℕ) (s q : System)
    → u < length s.tasks
    → c < length s.consumers
    → (consumer s c).phase ≡ running u
    → Balance s t
    → Moves
        (if (task s u).m_run_again then num (t == u) else 0)
        (put_task u (record (task s u) { m_is_running = false; m_run_again = false }) s)
        q
        t
    → Balance (set_phase c waiting q) t
finish_Balance c u t s q h k e b m =
    let v = record (task s u) { m_is_running = false; m_run_again = false } in
    split_task
      (λ n.
        Balance s n
        → Moves (if (task s u).m_run_again then num (n == u) else 0) (put_task u v s) q n
        → Balance (set_phase c waiting q) n)
      u
      (λ b m.
        let w = put_task-SelfWrite u v s h in
        let extra = self_extra u (task s u).m_run_again in
        let phase = m.grows.same_phase c k ∙ e in
        let turn =
          set_phase-Turns c u (running u) waiting q (omega (arith, m.grows.consumers_grow, k))
            phase in
        record {
          at_most = omega (
            arith, b.at_most, m.placed, w.places_is, w.run_now_is, w.rescued_is, m.run_now_is,
            turn.places_is, extra,
          );
          at_least = omega (
            arith,
            b.at_least,
            m.kept,
            w.places_is,
            w.run_now_is,
            m.run_now_is,
            m.cancelled_is,
            turn.places_is,
            extra,
            num_le (task s u).m_run_now,
          );
          one_thread = omega (
            arith,
            b.one_thread,
            m.runners_is,
            turn.runners_is,
            w.is_running_is,
            m.is_running_is,
            same_number u,
            num_le (task s u).m_is_running,
          );
          again_running = omega (arith, w.run_again_is, m.run_again_is);
        })
      (λ n ne b m.
        let w = put_task-OtherWrite n u v s h ne in
        let extra = other_extra n u (task s u).m_run_again ne in
        let phase = m.grows.same_phase c k ∙ e in
        let turn =
          set_phase-Turns c n (running u) waiting q (omega (arith, m.grows.consumers_grow, k))
            phase in
        record {
          at_most = omega (
            arith, b.at_most, m.placed, w.places_is, w.run_now_is, w.rescued_is, m.run_now_is,
            turn.places_is, extra,
          );
          at_least = omega (
            arith,
            b.at_least,
            m.kept,
            w.places_is,
            w.run_now_is,
            m.run_now_is,
            m.cancelled_is,
            turn.places_is,
            extra,
            num_le (task s n).m_run_now,
          );
          one_thread = omega (
            arith,
            b.one_thread,
            m.runners_is,
            turn.runners_is,
            w.is_running_is,
            m.is_running_is,
            ap num ne,
          );
          again_running = omega (
            arith, b.again_running, w.is_running_is, w.run_again_is, m.is_running_is,
            m.run_again_is,
          );
        })
      t b m

pub exec_end-Balance :
    (c u t : ℕ) (s : System)
    → u < length s.tasks
    → c < length s.consumers
    → (consumer s c).phase ≡ running u
    → Balance s t
    → Allows (exec_end c u s) (λ r. Balance r t)
unfolding exec_end
exec_end-Balance c u t s h k e b =
    let v = record (task s u) { m_is_running = false; m_run_again = false } in
    let extra = if (task s u).m_run_again then num (t == u) else 0 in
    Allows-bind (λ r. Moves extra (put_task u v s) r t) (λ r. Balance r t) (requeue u s)
      (λ r.
        let x = task r u in
        ok (
          set_phase c waiting (
            rescue_local c x.m_post_exec_queue x.m_sort_queue
              (put_task u (record x { m_post_exec_queue = []; m_sort_queue = false }) r))))
      (requeue-Moves u t s h)
      (λ r m.
        let x = task r u in
        let q =
          rescue_local c x.m_post_exec_queue x.m_sort_queue
            (put_task u (record x { m_post_exec_queue = []; m_sort_queue = false }) r) in
        finish_Balance c u t s q h k e b (
          Moves-trans extra extra 0 t (put_task u v s) r q (omega arith) m (
            rescue_post-Moves c u t r (omega (arith, m.grows.tasks_grow, h, length-set s.tasks u v))
              (omega (arith, m.grows.consumers_grow, k)))))
