-- ===== src/Task/Threads.antt =====
-- A thread of the scheduler begins to execute the task that it took (lib/task.cc).
use bees.Base.{ℕ, ◌+◌, ◌<◌, ◌≡◌, ap, true, false, length, num, num_le, sum_by-set, arith, if_elim}
use bees.Task.{Phase, System, waiting, taken, running, new_consumer, task, put_task, consumer}
use bees.Task.State.{set_phase, exec_begin}
use bees.Task.Places.{
  Balance, places, runners, in_consumer, runs, held_in, runs_in, split_task, put_task-SelfWrite,
  put_task-OtherWrite,
}
use bees.Task.Asked.{same_number}

-- What a thread changes by going from the phase `p` to `q`.
pub record Turns (p q : Phase) (s r : System) (t : ℕ) : Type 0 where
  pub places_is : places t r + held_in t p ≡ places t s + held_in t q
  pub runners_is : runners t r + runs_in t p ≡ runners t s + runs_in t q

pub set_phase-Turns :
    (c t : ℕ) (p q : Phase) (s : System)
    → c < length s.consumers
    → (consumer s c).phase ≡ p
    → Turns p q s (set_phase c q s) t
set_phase-Turns c t p q s h e =
    let x = record (consumer s c) { phase = q } in
    record {
      places_is =
          omega
            (arith, sum_by-set (in_consumer t) s.consumers c x new_consumer h, ap (held_in t) e);
      runners_is =
          omega (arith, sum_by-set (runs t) s.consumers c x new_consumer h, ap (runs_in t) e);
    }

-- The beginning of exec, of a task that runs nowhere.
start_Balance :
    (c u t : ℕ) (s : System)
    → u < length s.tasks
    → c < length s.consumers
    → (consumer s c).phase ≡ taken u
    → (task s u).m_is_running ≡ false
    → Balance s t
    → Balance
        (set_phase c
          (running u)
          (put_task u (record (task s u) { m_run_now = false; m_is_running = true }) s))
        t
start_Balance c u t s h k e f b =
    let v = record (task s u) { m_run_now = false; m_is_running = true } in
    let r = put_task u v s in
    split_task (λ n. Balance s n → Balance (set_phase c (running u) r) n) u
      (λ b.
        let w = put_task-SelfWrite u v s h in
        let turn = set_phase-Turns c u (taken u) (running u) r k e in
        record {
          at_most = omega (
            arith,
            b.at_most,
            w.places_is,
            w.run_now_is,
            w.rescued_is,
            turn.places_is,
            num_le (task s u).m_run_now,
            same_number u,
          );
          at_least = omega (arith, w.run_now_is);
          one_thread =
              omega
                (arith, b.one_thread, turn.runners_is, w.is_running_is, same_number u, ap num f);
          again_running =
              omega
                (arith, w.is_running_is, num_le (task (set_phase c (running u) r) u).m_run_again);
        })
      (λ n ne b.
        let w = put_task-OtherWrite n u v s h ne in
        let turn = set_phase-Turns c n (taken u) (running u) r k e in
        record {
          at_most = omega (
            arith,
            b.at_most,
            w.places_is,
            w.run_now_is,
            w.rescued_is,
            turn.places_is,
            ap num ne,
          );
          at_least =
              omega (arith, b.at_least, w.places_is, w.run_now_is, turn.places_is, ap num ne);
          one_thread = omega (arith, b.one_thread, turn.runners_is, w.is_running_is, ap num ne);
          again_running = omega (arith, b.again_running, w.is_running_is, w.run_again_is);
        })
      t b

-- The beginning of exec, of a task that runs in another thread.
again_Balance :
    (c u t : ℕ) (s : System)
    → u < length s.tasks
    → c < length s.consumers
    → (consumer s c).phase ≡ taken u
    → (task s u).m_is_running ≡ true
    → Balance s t
    → Balance (set_phase c waiting (put_task u (record (task s u) { m_run_again = true }) s)) t
again_Balance c u t s h k e f b =
    let v = record (task s u) { m_run_again = true } in
    let r = put_task u v s in
    split_task (λ n. Balance s n → Balance (set_phase c waiting r) n) u
      (λ b.
        let w = put_task-SelfWrite u v s h in
        let turn = set_phase-Turns c u (taken u) waiting r k e in
        record {
          at_most = omega (
            arith,
            b.at_most,
            w.places_is,
            w.run_now_is,
            w.rescued_is,
            turn.places_is,
            same_number u,
          );
          at_least = omega (arith, w.run_now_is, w.run_again_is, num_le (task s u).m_run_now);
          one_thread = omega (arith, b.one_thread, turn.runners_is, w.is_running_is, same_number u);
          again_running = omega (arith, w.is_running_is, w.run_again_is, ap num f);
        })
      (λ n ne b.
        let w = put_task-OtherWrite n u v s h ne in
        let turn = set_phase-Turns c n (taken u) waiting r k e in
        record {
          at_most = omega (
            arith,
            b.at_most,
            w.places_is,
            w.run_now_is,
            w.rescued_is,
            turn.places_is,
            ap num ne,
          );
          at_least =
              omega (arith, b.at_least, w.places_is, w.run_now_is, turn.places_is, ap num ne);
          one_thread = omega (arith, b.one_thread, turn.runners_is, w.is_running_is, ap num ne);
          again_running = omega (arith, b.again_running, w.is_running_is, w.run_again_is);
        })
      t b

pub exec_begin-Balance :
    (c u t : ℕ) (s : System)
    → u < length s.tasks
    → c < length s.consumers
    → (consumer s c).phase ≡ taken u
    → Balance s t
    → Balance (exec_begin c u s) t
unfolding exec_begin
exec_begin-Balance c u t s h k e b =
    if_elim (λ r. Balance r t) (task s u).m_is_running
      (set_phase c waiting (put_task u (record (task s u) { m_run_again = true }) s))
      (set_phase c (running u)
        (put_task u (record (task s u) { m_run_now = false; m_is_running = true }) s))
      (λ f. again_Balance c u t s h k e f b) (λ f. start_Balance c u t s h k e f b)
