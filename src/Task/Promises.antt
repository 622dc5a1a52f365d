-- ===== src/Task/Promises.antt =====
-- What a caller of the scheduler (lib/task.cc) can rely on when a call returns, and the calls that
-- do not return.
use bees.Base.{
  ℕ, ◌-◌, ◌<◌, ◌≡◌, refl, ap, ◌∙◌, Bool, true, false, List, [], ◌∷◌, ◌++◌, length, length-set, num,
  count, ◌==◌, if◌then◌else◌, arith, if_elim, then_branch, else_branch, Outcome, ok, throw, Returns,
  Returns-else, resource_deadlock_would_occur,
}
use bees.Task.{TaskState, System, task, put_task, spawn, thread_count}
use bees.Task.Queue.{start_threads_nolock, push_back, push_back_idle, clear}
use bees.Task.State.{run, idle}
use bees.Task.Places.{places, task-put_same}
use bees.Task.Steps.{Step, Reachable, IsHandle, steps, runs, idles, run_once}

-- A task that is to run, in a scheduler that is not cancelled.
pub record Asked (u : ℕ) (s : System) : Type 0 where
  pub handle : IsHandle u s
  pub asked : (task s u).m_run_now ≡ true
  pub working : s.m_cancelled ≡ false

-- It is in one place.
abbrev pub Scheduled : ℕ → System → Type 0
Scheduled u s = ((task s u).m_run_now ≡ true) × (places u s ≡ 1)

pub Asked-Scheduled : (u : ℕ) (s : System) → Reachable s → Asked u s → Scheduled u s
Asked-Scheduled u s h a = (a.asked, run_once u s h a.handle a.working ∙ ap num a.asked)

start_threads-Asked : (u : ℕ) (s : System) → Asked u s → Asked u (start_threads_nolock s)
unfolding start_threads_nolock
start_threads-Asked u s a =
    if_elim (λ r. Asked u r) s.m_paused s (spawn (s.m_thread_max - thread_count s) s) (λ _. a)
      (λ _. record { handle = a.handle; asked = a.asked; working = a.working })

pub put-Asked :
    (u : ℕ) (x : TaskState) (s : System)
    → IsHandle u s
    → s.m_cancelled ≡ false
    → x.is_rescue ≡ (task s u).is_rescue
    → x.m_run_now ≡ true
    → Asked u (put_task u x s)
put-Asked u x s (h, n) c rescue now =
    let e = task-put_same u x s h in
    record {
      handle = (omega (arith, h, length-set s.tasks u x), ap (λ y. y.is_rescue) e ∙ (rescue ∙ n));
      asked = ap (λ y. y.m_run_now) e ∙ now;
      working = c;
    }

push_back-Asked :
    (held : List ℕ) (u : ℕ) (s : System) → Asked u s → Returns (push_back held u s) (Asked u)
unfolding push_back
push_back-Asked held u s a =
    Returns-else (Asked u) s.m_cancelled (clear held u s)
      (ok (start_threads_nolock (record s { m_queue = s.m_queue ++ u ∷ [] }))) a.working
      (start_threads-Asked u (record s { m_queue = s.m_queue ++ u ∷ [] })
        (record { handle = a.handle; asked = a.asked; working = a.working }))

push_back_idle-Asked :
    (held : List ℕ) (u : ℕ) (s : System) → Asked u s → Returns (push_back_idle held u s) (Asked u)
unfolding push_back_idle
push_back_idle-Asked held u s a =
    Returns-else (Asked u) s.m_cancelled (clear held u s)
      (ok (start_threads_nolock (record s { m_idle_queue = s.m_idle_queue ++ u ∷ [] }))) a.working
      (start_threads-Asked u (record s { m_idle_queue = s.m_idle_queue ++ u ∷ [] })
        (record { handle = a.handle; asked = a.asked; working = a.working }))

requested-Asked :
    (idle : Bool) (u : ℕ) (push : System → Outcome System) (s : System)
    → IsHandle u s
    → s.m_cancelled ≡ false
    → ((r : System) → Asked u r → Returns (push r) (Asked u))
    → let x = record (task s u) { m_idle = idle } in
      Returns
        (if x.m_run_now
          then ok (put_task u x s)
          else if x.m_is_running
          then ok (put_task u (record x { m_run_now = true; m_run_again = true }) s)
          else push (put_task u (record x { m_run_now = true }) s))
        (Asked u)
requested-Asked idle u push s h c pushed =
    let x = record (task s u) { m_idle = idle } in
    let again = put_task u (record x { m_run_now = true; m_run_again = true }) s in
    let asked = put_task u (record x { m_run_now = true }) s in
    if_elim (λ o. Returns o (Asked u)) x.m_run_now (ok (put_task u x s))
      (if x.m_is_running then ok again else push asked) (λ e. put-Asked u x s h c refl e)
      (λ _.
        if_elim (λ o. Returns o (Asked u)) x.m_is_running (ok again) (push asked)
          (λ _. put-Asked u (record x { m_run_now = true; m_run_again = true }) s h c refl refl)
          (λ _. pushed asked (put-Asked u (record x { m_run_now = true }) s h c refl refl)))

pub run-Asked :
    (u : ℕ) (s : System) → IsHandle u s → s.m_cancelled ≡ false → Returns (run u s) (Asked u)
unfolding run
run-Asked u s h c =
    requested-Asked false u (push_back (u ∷ []) u) s h c (push_back-Asked (u ∷ []) u)

idle-Asked :
    (u : ℕ) (s : System) → IsHandle u s → s.m_cancelled ≡ false → Returns (idle u s) (Asked u)
unfolding idle
idle-Asked u s h c =
    requested-Asked true u (push_back_idle (u ∷ []) u) s h c (push_back_idle-Asked (u ∷ []) u)

-- A call that is a step if it returns.
pub stepped :
    (u : ℕ) (s : System) (o : Outcome System)
    → Reachable s
    → ((r : System) → o ≡ ok r → Step s r)
    → Returns o (Asked u)
    → Returns o (Scheduled u)
stepped u s (ok r) h step a = Asked-Scheduled u r (steps s r h (step r refl)) a
stepped u s (throw e) h step a = a

-- While the scheduler is not cancelled, run returns, and the task is to run and is in exactly one
-- place.
pub run_lem :
    (u : ℕ) (s : System)
    → Reachable s
    → IsHandle u s
    → s.m_cancelled ≡ false
    → Returns (run u s) (Scheduled u)
run_lem u s r h c = stepped u s (run u s) r (λ q e. runs u s q h e) (run-Asked u s h c)

-- As run, but to the idle queue.
pub idle_lem :
    (u : ℕ) (s : System)
    → Reachable s
    → IsHandle u s
    → s.m_cancelled ≡ false
    → Returns (idle u s) (Scheduled u)
idle_lem u s r h c = stepped u s (idle u s) r (λ q e. idles u s q h e) (idle-Asked u s h c)

clear_relocks : (u : ℕ) (s : System) → clear (u ∷ []) u s ≡ throw resource_deadlock_would_occur
unfolding clear
clear_relocks u s = let e : (count u (u ∷ []) == 0) ≡ false = ground arith in rw e refl

-- After cancel, run and idle of a task that is not to run and does not run lock its mutex a second
-- time in the same thread, and do not return.
pub cancelled_run :
    (u : ℕ) (s : System)
    → u < length s.tasks
    → s.m_cancelled ≡ true
    → (task s u).m_run_now ≡ false
    → (task s u).m_is_running ≡ false
    → (run u s ≡ throw resource_deadlock_would_occur)
      × (idle u s ≡ throw resource_deadlock_would_occur)
unfolding run idle push_back push_back_idle
cancelled_run u s h c now running = (
  else_branch (task s u).m_run_now _ _ now
      ∙ (else_branch (task s u).m_is_running _ _ running
          ∙ (then_branch s.m_cancelled _ _ c ∙ clear_relocks u _)),
  else_branch (task s u).m_run_now _ _ now
      ∙ (else_branch (task s u).m_is_running _ _ running
          ∙ (then_branch s.m_cancelled _ _ c ∙ clear_relocks u _)),
)
