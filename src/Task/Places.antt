-- ===== src/Task/Places.antt =====
-- Where the scheduler (lib/task.cc) has a task: in its queues, in those of the threads, among the
-- tasks that wait for another, in the hands of a thread, or as a request to run again.
use bees.Base.{
  ℕ, ◌+◌, ◌≤◌, ◌<◌, ◌≡◌, inl, inr, false, length, sum_by, sum_by-set, num, count, ◌==◌, arith, ap,
  sym, ==_iff, Bool-cases, get_or-set_self, get_or-set_ne,
}
use mathlib.Core.Path.{subst}
use bees.Task.{TaskState, TaskConsumer, Phase, System, taken, running, new_task, task, put_task}

-- What a thread in a phase has of a task in its hands.
abbrev pub held_in : ℕ → Phase → ℕ
held_in t p = elim p [ taken u ↦ num (t == u) | _ ↦ 0 ]

-- What a thread holds of a task: its entries in the local queue, and the one to execute.
abbrev pub in_consumer : ℕ → TaskConsumer → ℕ
in_consumer t x = count t x.m_local_queue + held_in t x.phase

abbrev pub runs_in : ℕ → Phase → ℕ
runs_in t p = elim p [ running u ↦ num (t == u) | _ ↦ 0 ]

abbrev pub runs : ℕ → TaskConsumer → ℕ
runs t x = runs_in t x.phase

abbrev pub in_post : ℕ → TaskState → ℕ
in_post t x = count t x.m_post_exec_queue

abbrev pub places : ℕ → System → ℕ
places t s =
    count t s.m_queue
    + count t s.m_idle_queue
    + sum_by (in_consumer t) s.consumers
    + sum_by (in_post t) s.tasks
    + num (task s t).m_run_again

-- The threads that are in the m_exec_fn of a task.
abbrev pub runners : ℕ → System → ℕ
runners t s = sum_by (runs t) s.consumers

abbrev pub run_now : ℕ → System → ℕ
run_now t s = num (task s t).m_run_now

abbrev pub is_running : ℕ → System → ℕ
is_running t s = num (task s t).m_is_running

abbrev pub run_again : ℕ → System → ℕ
run_again t s = num (task s t).m_run_again

abbrev pub rescued : ℕ → System → ℕ
rescued t s = num (task s t).is_rescue

-- A task that is to run is in one place, until the scheduler is cancelled; a task that is not is
-- in none. A running task is running in one thread, and only a running one can run again.
pub record Balance (s : System) (t : ℕ) : Type 0 where
  pub at_most : places t s ≤ run_now t s + rescued t s
  pub at_least : run_now t s ≤ places t s + num s.m_cancelled
  pub one_thread : runners t s ≡ is_running t s
  pub again_running : run_again t s ≤ is_running t s

-- What a write of the task `u` changes for `u` itself.
pub record SelfWrite (u : ℕ) (v : TaskState) (s r : System) : Type 0 where
  pub places_is :
      places u r + in_post u (task s u) + run_again u s
      ≡ places u s + in_post u v + num v.m_run_again
  pub run_now_is : run_now u r ≡ num v.m_run_now
  pub is_running_is : is_running u r ≡ num v.m_is_running
  pub run_again_is : run_again u r ≡ num v.m_run_again
  pub rescued_is : rescued u r ≡ num v.is_rescue

-- What it changes for another task `t`.
pub record OtherWrite (t u : ℕ) (v : TaskState) (s r : System) : Type 0 where
  pub places_is : places t r + in_post t (task s u) ≡ places t s + in_post t v
  pub run_now_is : run_now t r ≡ run_now t s
  pub is_running_is : is_running t r ≡ is_running t s
  pub run_again_is : run_again t r ≡ run_again t s
  pub rescued_is : rescued t r ≡ rescued t s

pub task-put_same :
    (u : ℕ) (v : TaskState) (s : System) → u < length s.tasks → task (put_task u v s) u ≡ v
task-put_same u v s h = get_or-set_self s.tasks u v new_task h

pub task-put_other :
    (t u : ℕ) (v : TaskState) (s : System) → (t == u) ≡ false → task (put_task u v s) t ≡ task s t
task-put_other t u v s h = get_or-set_ne s.tasks u t v new_task (λ e. ground arith)

pub put_task-SelfWrite :
    (u : ℕ) (v : TaskState) (s : System) → u < length s.tasks → SelfWrite u v s (put_task u v s)
put_task-SelfWrite u v s h =
    let e = task-put_same u v s h in
    record {
      places_is =
          let again = ap (λ x. num x.m_run_again) e in
          omega (arith, again, sum_by-set (in_post u) s.tasks u v new_task h);
      run_now_is = ap (λ x. num x.m_run_now) e;
      is_running_is = ap (λ x. num x.m_is_running) e;
      run_again_is = ap (λ x. num x.m_run_again) e;
      rescued_is = ap (λ x. num x.is_rescue) e;
    }

pub put_task-OtherWrite :
    (t u : ℕ) (v : TaskState) (s : System)
    → u < length s.tasks
    → (t == u) ≡ false
    → OtherWrite t u v s (put_task u v s)
put_task-OtherWrite t u v s h ne =
    let e = task-put_other t u v s ne in
    record {
      places_is =
          let again = ap (λ x. num x.m_run_again) e in
          omega (arith, again, sum_by-set (in_post t) s.tasks u v new_task h);
      run_now_is = ap (λ x. num x.m_run_now) e;
      is_running_is = ap (λ x. num x.m_is_running) e;
      run_again_is = ap (λ x. num x.m_run_again) e;
      rescued_is = ap (λ x. num x.is_rescue) e;
    }

-- A claim on every task, from one on a task and one on the others.
pub split_task : (P : ℕ → Type 0) (u : ℕ) → P u → ((t : ℕ) → (t == u) ≡ false → P t) → (t : ℕ) → P t
split_task P u self other t = elim (Bool-cases (t == u)) [
  | inl e ↦ subst P (sym ((==_iff t u).0 e)) self
  | inr e ↦ other t e
]

-- A write that keeps the flags of its task changes them for none.
pub record KeepsFlags (x v : TaskState) : Type 0 where
  pub run_now_kept : v.m_run_now ≡ x.m_run_now
  pub is_running_kept : v.m_is_running ≡ x.m_is_running
  pub run_again_kept : v.m_run_again ≡ x.m_run_again
  pub is_rescue_kept : v.is_rescue ≡ x.is_rescue

pub kept-OtherWrite :
    (t u : ℕ) (v : TaskState) (s : System)
    → u < length s.tasks
    → KeepsFlags (task s u) v
    → OtherWrite t u v s (put_task u v s)
kept-OtherWrite t u v s h k =
    split_task (λ n. OtherWrite n u v s (put_task u v s)) u
      (let w = put_task-SelfWrite u v s h in
        let again = ap num k.run_again_kept in
        record {
          places_is = omega (arith, w.places_is, again);
          run_now_is = omega (arith, w.run_now_is, ap num k.run_now_kept);
          is_running_is = omega (arith, w.is_running_is, ap num k.is_running_kept);
          run_again_is = omega (arith, w.run_again_is, again);
          rescued_is = omega (arith, w.rescued_is, ap num k.is_rescue_kept);
        })
      (λ n ne. put_task-OtherWrite n u v s h ne) t
