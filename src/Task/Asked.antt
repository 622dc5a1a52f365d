-- ===== src/Task/Asked.antt =====
-- What a request to execute a task (lib/task.cc) does to the count of its places.
use bees.Base.{ℕ, ◌+◌, ◌≤◌, ◌<◌, ◌≡◌, ap, true, false, length, num, num_le, count, ◌==◌, arith}
use bees.Task.{TaskState, System, task, put_task}
use bees.Task.Places.{
  Balance, run_now, run_again, in_post, split_task, put_task-SelfWrite, put_task-OtherWrite,
}
use bees.Task.Moves.{Moves, same-Moves}

-- A write of a task, and a call that gives it the places that its new flags ask for.
self_Balance :
    (extra u : ℕ) (v : TaskState) (s r : System)
    → u < length s.tasks
    → in_post u v + num v.m_run_again + extra + run_now u s
      ≡ in_post u (task s u) + run_again u s + num v.m_run_now
    → v.m_is_running ≡ (task s u).m_is_running
    → v.is_rescue ≡ (task s u).is_rescue
    → num v.m_run_again ≤ num v.m_is_running
    → Moves extra (put_task u v s) r u
    → Balance s u
    → Balance r u
self_Balance extra u v s r h post running rescue again m b =
    let w = put_task-SelfWrite u v s h in
    record {
      at_most = omega (
        arith,
        b.at_most,
        m.placed,
        w.places_is,
        post,
        ap num rescue,
        m.run_now_is,
        w.run_now_is,
        w.rescued_is,
      );
      at_least = omega (
        arith,
        b.at_least,
        m.kept,
        w.places_is,
        post,
        m.run_now_is,
        w.run_now_is,
        m.cancelled_is,
        num_le v.m_run_now,
      );
      one_thread =
          omega
            (arith, b.one_thread, m.runners_is, m.is_running_is, w.is_running_is, ap num running);
      again_running =
          omega (arith, again, m.is_running_is, w.is_running_is, m.run_again_is, w.run_again_is);
    }

other_Balance :
    (extra t u : ℕ) (v : TaskState) (s r : System)
    → u < length s.tasks
    → (t == u) ≡ false
    → in_post t v + extra ≡ in_post t (task s u)
    → Moves extra (put_task u v s) r t
    → Balance s t
    → Balance r t
other_Balance extra t u v s r h ne post m b =
    let w = put_task-OtherWrite t u v s h ne in
    record {
      at_most =
          omega (
            arith, b.at_most, m.placed, w.places_is, post, m.run_now_is, w.run_now_is, w.rescued_is,
          );
      at_least = omega (
        arith,
        b.at_least,
        m.kept,
        w.places_is,
        post,
        m.run_now_is,
        w.run_now_is,
        m.cancelled_is,
        num_le (task s t).m_run_now,
      );
      one_thread = omega (arith, b.one_thread, m.runners_is, m.is_running_is, w.is_running_is);
      again_running = omega (
        arith, b.again_running, m.is_running_is, w.is_running_is, m.run_again_is, w.run_again_is,
      );
    }

-- A call that only moves tasks.
pub moved_Balance : (t : ℕ) (s r : System) → Moves 0 s r t → Balance s t → Balance r t
moved_Balance t s r m b = record {
  at_most = omega (arith, b.at_most, m.placed, m.run_now_is);
  at_least =
      omega (arith, b.at_least, m.kept, m.run_now_is, m.cancelled_is, num_le (task s t).m_run_now);
  one_thread = omega (arith, b.one_thread, m.runners_is, m.is_running_is);
  again_running = omega (arith, b.again_running, m.is_running_is, m.run_again_is);
}

pub same_number : (u : ℕ) → num (u == u) ≡ 1
same_number u = ground arith

-- A task that is asked to run, and waits only as its flags tell.
pub asked_Balance :
    (u t : ℕ) (v : TaskState) (s r : System)
    → u < length s.tasks
    → v.m_post_exec_queue ≡ (task s u).m_post_exec_queue
    → v.m_is_running ≡ (task s u).m_is_running
    → v.m_run_again ≡ (task s u).m_run_again
    → v.is_rescue ≡ (task s u).is_rescue
    → v.m_run_now ≡ true
    → (task s u).m_run_now ≡ false
    → Balance s u
    → Balance s t
    → Moves (num (t == u)) (put_task u v s) r t
    → Balance r t
asked_Balance u t v s r h post running again rescue now not_now bu b m =
    split_task (λ n. Balance s n → Moves (num (n == u)) (put_task u v s) r n → Balance r n) u
      (λ b m.
        self_Balance (num (u == u)) u v s r h
          (omega
            (arith, ap (count u) post, ap num again, ap num now, ap num not_now, same_number u))
          running rescue (omega (arith, bu.again_running, ap num again, ap num running)) m b)
      (λ n ne b m.
        other_Balance (num (n == u)) n u v s r h ne (omega (arith, ap num ne, ap (count n) post)) m
          b)
      t b m

-- A running task that is asked to run runs again.
pub again_Balance :
    (u t : ℕ) (v : TaskState) (s : System)
    → u < length s.tasks
    → v.m_post_exec_queue ≡ (task s u).m_post_exec_queue
    → v.m_is_running ≡ (task s u).m_is_running
    → v.m_run_again ≡ true
    → v.is_rescue ≡ (task s u).is_rescue
    → v.m_run_now ≡ true
    → (task s u).m_run_now ≡ false
    → (task s u).m_is_running ≡ true
    → (task s u).is_rescue ≡ false
    → Balance s u
    → Balance s t
    → Balance (put_task u v s) t
again_Balance u t v s h post running again rescue now not_now runs no_rescue bu b =
    split_task (λ n. Balance s n → Balance (put_task u v s) n) u
      (λ b.
        self_Balance 0 u v s (put_task u v s) h
          (omega (
            arith,
            bu.at_most,
            ap (count u) post,
            ap num again,
            ap num now,
            ap num not_now,
            ap num no_rescue,
          ))
          running rescue (omega (arith, ap num again, ap num running, ap num runs))
          (same-Moves u (put_task u v s)) b)
      (λ n ne b.
        other_Balance 0 n u v s (put_task u v s) h ne (omega (arith, ap (count n) post))
          (same-Moves n (put_task u v s)) b)
      t b
