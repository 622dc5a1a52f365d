-- ===== src/Task/Rescue.antt =====
-- Pushing and rescuing the queues of the scheduler (lib/task.cc) moves their tasks and loses none.
use bees.Base.{
  ℕ, ◌+◌, ◌<◌, ◌≡◌, refl, ap, sym, ◌∙◌, inl, inr, Bool, true, false, List, [], ◌∷◌, ◌++◌, length,
  get_or, sum_by-append, num, count, count-append, ◌==◌, ==_iff, ltb, ltb→lt, length-append, arith,
  Bool-cases, if_elim, get_or_beyond, get_or-append_left, get_or-append, ok, Allows, Allows-if,
  Allows-check, Option, none, some, resource_deadlock_would_occur,
}
use bees.Task.{TaskState, System, new_task}
use bees.Task.Queue.{
  clear_all, clear, start_threads_nolock, push_back, push_back_idle, push_front, rescue_global,
  rescue_task,
}
use bees.Task.State.{rescue_queue}
use bees.Task.Places.{in_post}
use bees.Task.Moves.{
  Moves, same-Moves, queues-Moves, queue-Moves, idle_queue-Moves, rescue_local-Moves,
}
use bees.Task.Clear.{clear_all-Moves}

pub push_front-Moves :
    (t : ℕ) (queue : List ℕ) (s : System) → Moves (count t queue) s (push_front queue s) t
unfolding push_front
push_front-Moves t [] s = same-Moves t s
push_front-Moves t (u ∷ queue) s =
    if_elim (λ r. Moves (count t (u ∷ queue)) s r t) s.m_cancelled (clear_all (u ∷ queue) s)
      (start_threads_nolock (record s { m_queue = (u ∷ queue) ++ s.m_queue }))
      (λ e. clear_all-Moves (count t (u ∷ queue)) t (u ∷ queue) s e)
      (λ e.
        queues-Moves (count t (u ∷ queue)) t ((u ∷ queue) ++ s.m_queue) s.m_idle_queue s
          (omega (arith, count-append t queue s.m_queue)))

clear-Allows :
    (held : List ℕ) (u t extra : ℕ) (s : System)
    → s.m_cancelled ≡ true
    → Allows (clear held u s) (λ r. Moves extra s r t)
unfolding clear
clear-Allows held u t extra s e =
    Allows-check (λ r. Moves extra s r t) resource_deadlock_would_occur (count u held == 0)
      (ok (clear_all (u ∷ []) s)) (λ h. clear_all-Moves extra t (u ∷ []) s e)

-- A push of a task that returns gives it a place.
pub push_back-Moves :
    (held : List ℕ) (u t : ℕ) (s : System)
    → Allows (push_back held u s) (λ r. Moves (num (t == u)) s r t)
unfolding push_back
push_back-Moves held u t s =
    Allows-if (λ r. Moves (num (t == u)) s r t) s.m_cancelled (clear held u s)
      (ok (start_threads_nolock (record s { m_queue = s.m_queue ++ u ∷ [] })))
      (clear-Allows held u t (num (t == u)) s) (λ e. queue-Moves u t s)

pub push_back_idle-Moves :
    (held : List ℕ) (u t : ℕ) (s : System)
    → Allows (push_back_idle held u s) (λ r. Moves (num (t == u)) s r t)
unfolding push_back_idle
push_back_idle-Moves held u t s =
    Allows-if (λ r. Moves (num (t == u)) s r t) s.m_cancelled (clear held u s)
      (ok (start_threads_nolock (record s { m_idle_queue = s.m_idle_queue ++ u ∷ [] })))
      (clear-Allows held u t (num (t == u)) s) (λ e. idle_queue-Moves u t s)

-- The store with a task more.
new_index :
    (x : TaskState) (ts : List TaskState) (t : ℕ)
    → t ≡ length ts
    → (get_or (ts ++ x ∷ []) t new_task ≡ x) × (get_or ts t new_task ≡ new_task)
new_index x ts t e = (
  ap (λ i. get_or (ts ++ x ∷ []) i new_task) e ∙ get_or-append ts x [] new_task,
  get_or_beyond ts t new_task (omega arith),
)

old_index :
    (x : TaskState) (ts : List TaskState) (t : ℕ)
    → (t == length ts) ≡ false
    → get_or (ts ++ x ∷ []) t new_task ≡ get_or ts t new_task
old_index x ts t e = elim (Bool-cases (ltb t (length ts))) [
  | inl h ↦ get_or-append_left ts (x ∷ []) t new_task (ltb→lt t (length ts) h)
  | inr h ↦
      get_or_beyond (ts ++ x ∷ []) t new_task (let n = length-append ts (x ∷ []) in ground arith)
      ∙ sym (get_or_beyond ts t new_task (ground arith))
]

-- A flag that the new task has not, and one that it has.
pub clear_flag :
    (f : TaskState → Bool) (x : TaskState) (ts : List TaskState) (t : ℕ)
    → f new_task ≡ false
    → f x ≡ false
    → num (f (get_or (ts ++ x ∷ []) t new_task)) ≡ num (f (get_or ts t new_task))
clear_flag f x ts t h k = elim (Bool-cases (t == length ts)) [
  | inl e ↦
      let (n, o) = new_index x ts t ((==_iff t (length ts)).0 e) in
      ap num ((ap f n ∙ k) ∙ (sym h ∙ sym (ap f o)))
  | inr e ↦ ap (λ y. num (f y)) (old_index x ts t e)
]

set_flag :
    (f : TaskState → Bool) (x : TaskState) (ts : List TaskState) (t : ℕ)
    → f new_task ≡ false
    → f x ≡ true
    → num (f (get_or (ts ++ x ∷ []) t new_task))
      ≡ num (f (get_or ts t new_task)) + num (t == length ts)
set_flag f x ts t h k = elim (Bool-cases (t == length ts)) [
  | inl e ↦
      let (n, o) = new_index x ts t ((==_iff t (length ts)).0 e) in
      omega (arith, ap num e, ap num (ap f n ∙ k), ap num (ap f o ∙ h))
  | inr e ↦ omega (arith, ap num e, ap (λ y. num (f y)) (old_index x ts t e))
]

-- The task that rescue_queue makes, at the front of the queue.
rescue_task-Moves :
    (queue : List ℕ) (b : Bool) (t : ℕ) (s : System)
    → Moves
        (count t queue)
        s
        (push_front
          (length s.tasks ∷ [])
          (record s { tasks = s.tasks ++ rescue_task queue b ∷ [] }))
        t
rescue_task-Moves queue b t s =
    let x = rescue_task queue b in
    let r = record s { tasks = s.tasks ++ x ∷ [] } in
    let m = push_front-Moves t (length s.tasks ∷ []) r in
    let post = sum_by-append (in_post t) s.tasks (x ∷ []) in
    let again = clear_flag (λ y. y.m_run_again) x s.tasks t refl refl in
    let rescue = set_flag (λ y. y.is_rescue) x s.tasks t refl refl in
    let now = clear_flag (λ y. y.m_run_now) x s.tasks t refl refl in
    let runs = clear_flag (λ y. y.m_is_running) x s.tasks t refl refl in
    record {
      placed = omega (arith, m.placed, post, again, rescue);
      kept = omega (arith, m.kept, post, again);
      run_now_is = omega (arith, m.run_now_is, now);
      is_running_is = omega (arith, m.is_running_is, runs);
      run_again_is = omega (arith, m.run_again_is, again);
      runners_is = m.runners_is;
      cancelled_is = m.cancelled_is;
      grows = record {
        tasks_grow = omega (arith, m.grows.tasks_grow, length-append s.tasks (x ∷ []));
        consumers_grow = m.grows.consumers_grow;
        same_phase = m.grows.same_phase;
      };
    }

pub rescue_global-Moves :
    (t : ℕ) (queue : List ℕ) (b : Bool) (s : System)
    → Moves (count t queue) s (rescue_global queue b s) t
unfolding rescue_global
rescue_global-Moves t [] b s = same-Moves t s
rescue_global-Moves t (u ∷ []) b s = push_front-Moves t (u ∷ []) s
rescue_global-Moves t (u ∷ v ∷ queue) b s = rescue_task-Moves (u ∷ v ∷ queue) b t s

-- rescue_queue in the thread of a TaskConsumer that is there, or in another thread.
abbrev pub IsThread : Option ℕ → System → Type 0
IsThread none s = Unit {0}
IsThread (some c) s = c < length s.consumers

pub rescue_queue-Moves :
    (c : Option ℕ) (t : ℕ) (queue : List ℕ) (b : Bool) (s : System)
    → IsThread c s
    → Moves (count t queue) s (rescue_queue c queue b s) t
unfolding rescue_queue
rescue_queue-Moves none t queue b s h = rescue_global-Moves t queue b s
rescue_queue-Moves (some c) t queue b s h = rescue_local-Moves c t queue b s h
