-- ===== src/Task/Turns.antt =====
-- A thread of the scheduler (lib/task.cc): the task that it takes, and what it leaves after one.
use bees.Base.{
  ℕ, ◌+◌, ◌≤◌, ◌<◌, ◌≡◌, refl, ap, sym, ◌∙◌, Bool, true, false, not, ◌-◌, ◌&&◌, length-append,
  get_or, get_or-append_left, replicate, sort, List, [], ◌∷◌, ◌++◌, length, length-set,
  get_or-set_self, ltb, if◌then◌else◌, arith, if_elim, else_branch, ok, Returns, Returns-bind,
  Returns-else,
}
use mathlib.Core.Path.{subst}
use bees.Task.{
  TaskState, TaskConsumer, System, new_task, spawn, waiting, taken, running, new_consumer, task,
  put_task, consumer, put_consumer, thread_count,
}
use bees.Task.Queue.{push_back_idle, clear, start_threads_nolock, rescue_local}
use bees.Task.State.{set_phase, requeue, exec_end, append_nolock}
use bees.Task.Master.{pick, consumer_loop}
use bees.Task.Places.{task-put_same}
use bees.Task.Steps.{InPhase}

put_consumer-InPhase :
    (c : ℕ) (x : TaskConsumer) (s : System)
    → c < length s.consumers
    → InPhase c x.phase (put_consumer c x s)
put_consumer-InPhase c x s h = (
  omega (arith, h, length-set s.consumers c x),
  ap (λ y. y.phase) (get_or-set_self s.consumers c x new_consumer h),
)

-- The first task of the queues that a thread looks at.
abbrev pub First : List ℕ → List ℕ → List ℕ → ℕ → Type 0
First (t ∷ _) q idle u = u ≡ t
First [] (t ∷ _) idle u = u ≡ t
First [] [] (t ∷ _) u = u ≡ t
First [] [] [] u = ⊥

pick-taken :
    (c : ℕ) (l q idle : List ℕ) (s : System)
    → c < length s.consumers
    → 1 ≤ length l + length q + length idle
    → (u : ℕ) × First l q idle u × InPhase c (taken u) (pick c l q idle s)
unfolding pick
pick-taken c (t ∷ l) q idle s h n =
    (t, refl, put_consumer-InPhase c (record { phase = taken t; m_local_queue = l }) s h)
pick-taken c [] (t ∷ q) idle s h n = (
  t,
  refl,
  put_consumer-InPhase c (record { phase = taken t; m_local_queue = [] }) (record s { m_queue = q })
      h,
)
pick-taken c [] [] (t ∷ idle) s h n = (
  t,
  refl,
  put_consumer-InPhase c (record { phase = taken t; m_local_queue = [] })
      (record s { m_idle_queue = idle }) h,
)
pick-taken c [] [] [] s h n = absurd (omega arith)

-- Where the scheduler is not paused and has no thread too many, a thread at the head of its loop
-- takes the first task of its local queue, or else of the queue, or else of the idle queue, if one
-- of them has any.
pub consumer_loop-taken :
    (c : ℕ) (s : System)
    → InPhase c waiting s
    → s.m_paused ≡ false
    → thread_count s ≤ s.m_thread_max
    → 1 ≤ length (consumer s c).m_local_queue + length s.m_queue + length s.m_idle_queue
    → (u : ℕ) × First (consumer s c).m_local_queue s.m_queue s.m_idle_queue u
      × InPhase c (taken u) (consumer_loop c s)
unfolding consumer_loop
consumer_loop-taken c s (h, _) p m n =
    let next = pick c (consumer s c).m_local_queue s.m_queue s.m_idle_queue s in
    let few : ltb s.m_thread_max (thread_count s) ≡ false = ground arith in
    let runs : consumer_loop c s ≡ next =
      else_branch s.m_paused _ _ p ∙ else_branch (ltb s.m_thread_max (thread_count s)) _ next few in
    let (u, first, t) = pick-taken c (consumer s c).m_local_queue s.m_queue s.m_idle_queue s h n in
    (u, first, subst (InPhase c (taken u)) (sym runs) t)

-- Behind the tasks that wait for it comes a task that is to run again, unless it is idle.
abbrev pub behind : Bool → Bool → ℕ → List ℕ → List ℕ
behind again idle u queue = if again && not idle then queue ++ u ∷ [] else queue

-- An idle task that is to run again comes last.
abbrev pub idlers : Bool → Bool → ℕ → List ℕ → List ℕ
idlers again idle u queue = if again && idle then queue ++ u ∷ [] else queue

-- What a local queue becomes.
abbrev pub spliced : List ℕ → Bool → List ℕ → List ℕ
spliced [] sort_queue queue = queue
spliced (t ∷ tasks) sort_queue queue =
    if sort_queue then sort ((t ∷ tasks) ++ queue) else (t ∷ tasks) ++ queue

record Requeued (again idle : Bool) (c u : ℕ) (s r : System) : Type 0 where
  in_tasks : u < length r.tasks
  in_threads : c < length r.consumers
  task_is : task r u ≡ record (task s u) {
    m_is_running = false;
    m_run_again = false;
    m_post_exec_queue = behind again idle u (task s u).m_post_exec_queue;
  }
  consumer_is : consumer r c ≡ consumer s c
  queue_is : r.m_queue ≡ s.m_queue
  idle_is : r.m_idle_queue ≡ idlers again idle u s.m_idle_queue

start_threads-Requeued :
    (again idle : Bool) (c u : ℕ) (s r : System)
    → Requeued again idle c u s r
    → Requeued again idle c u s (start_threads_nolock r)
unfolding start_threads_nolock
start_threads-Requeued again idle c u s r q =
    let n = r.m_thread_max - thread_count r in
    if_elim (Requeued again idle c u s) r.m_paused r (spawn n r) (λ _. q)
      (λ _. record {
        in_tasks = q.in_tasks;
        in_threads =
            omega (arith, q.in_threads, length-append r.consumers (replicate n new_consumer));
        task_is = q.task_is;
        consumer_is =
            get_or-append_left r.consumers (replicate n new_consumer) c new_consumer q.in_threads
            ∙ q.consumer_is;
        queue_is = q.queue_is;
        idle_is = q.idle_is;
      })

requeue-Requeued :
    (c u : ℕ) (s : System)
    → c < length s.consumers
    → u < length s.tasks
    → s.m_cancelled ≡ false
    → Returns (requeue u s) (Requeued (task s u).m_run_again (task s u).m_idle c u s)
unfolding requeue push_back_idle
requeue-Requeued c u s h k e = go (task s u).m_run_again (task s u).m_idle
  where
    go :
        (again idle : Bool)
        → let x = record (task s u) { m_is_running = false; m_run_again = false } in
          Returns
            (if not again
              then ok (put_task u x s)
              else if idle
              then push_back_idle (u ∷ []) u (put_task u x s)
              else ok (append_nolock u u (put_task u x s)))
            (Requeued again idle c u s)
    go false idle =
        let x = record (task s u) { m_is_running = false; m_run_again = false } in
        record {
          in_tasks = omega (arith, k, length-set s.tasks u x);
          in_threads = h;
          task_is = task-put_same u x s k;
          consumer_is = refl;
          queue_is = refl;
          idle_is = refl;
        }
    go true true =
        let x = record (task s u) { m_is_running = false; m_run_again = false } in
        let r = put_task u x s in
        let q = record r { m_idle_queue = r.m_idle_queue ++ u ∷ [] } in
        Returns-else (Requeued true true c u s) s.m_cancelled (clear (u ∷ []) u r)
          (ok (start_threads_nolock q)) e
          (start_threads-Requeued true true c u s q (record {
            in_tasks = omega (arith, k, length-set s.tasks u x);
            in_threads = h;
            task_is = task-put_same u x s k;
            consumer_is = refl;
            queue_is = refl;
            idle_is = refl;
          }))
    go true false =
        let x = record (task s u) { m_is_running = false; m_run_again = false } in
        let r = put_task u x s in
        let l : u < length r.tasks = omega (arith, k, length-set s.tasks u x) in
        let y = record (task r u) { m_post_exec_queue = (task r u).m_post_exec_queue ++ u ∷ [] } in
        record {
          in_tasks = omega (arith, l, length-set r.tasks u y);
          in_threads = h;
          task_is =
              task-put_same u y r l
              ∙ ap
                  (λ (z : TaskState). record z {
                    m_post_exec_queue = z.m_post_exec_queue ++ u ∷ [];
                  })
                  (task-put_same u x s k);
          consumer_is = refl;
          queue_is = refl;
          idle_is = refl;
        }

-- The thread is at the head of its loop, the task runs nowhere and nothing waits for it, and the
-- tasks that waited for it come first in the local queue of the thread.
pub record Ended (c u : ℕ) (s r : System) : Type 0 where
  pub waits : InPhase c waiting r
  pub task_is : task r u ≡ record (task s u) {
    m_is_running = false;
    m_run_again = false;
    m_post_exec_queue = [];
    m_sort_queue = false;
  }
  pub local_is :
      (consumer r c).m_local_queue
      ≡ spliced
          (behind (task s u).m_run_again (task s u).m_idle u (task s u).m_post_exec_queue)
          (task s u).m_sort_queue
          (consumer s c).m_local_queue
  pub queue_is : r.m_queue ≡ s.m_queue
  pub idle_is : r.m_idle_queue ≡ idlers (task s u).m_run_again (task s u).m_idle u s.m_idle_queue

rescue_local-spliced :
    (c : ℕ) (tasks : List ℕ) (b : Bool) (s : System)
    → c < length s.consumers
    → (consumer (rescue_local c tasks b s) c
        ≡ record (consumer s c) { m_local_queue = spliced tasks b (consumer s c).m_local_queue })
      × ((rescue_local c tasks b s).tasks ≡ s.tasks)
      × ((rescue_local c tasks b s).m_queue ≡ s.m_queue)
      × ((rescue_local c tasks b s).m_idle_queue ≡ s.m_idle_queue)
      × (c < length (rescue_local c tasks b s).consumers)
unfolding rescue_local
rescue_local-spliced c [] b s h = (refl, refl, refl, refl, h)
rescue_local-spliced c (t ∷ tasks) b s h =
    let x = record (consumer s c) {
      m_local_queue = spliced (t ∷ tasks) b (consumer s c).m_local_queue;
    } in
    (
      get_or-set_self s.consumers c x new_consumer h,
      refl,
      refl,
      refl,
      omega (arith, h, length-set s.consumers c x),
    )

-- While the scheduler is not cancelled, the end of exec after the function of a task returns: the
-- thread is at the head of its loop, the task is no more running, its flag m_run_again is cleared,
-- and no task waits behind it; the tasks that waited for it stand in front of the local queue of
-- the thread (sorted with it, if insert asked for that), behind them the task itself if it was
-- asked for again while it ran, or it is last in the idle queue if it is idle, and m_queue stays.
pub exec_end-Ended :
    (c u : ℕ) (s : System)
    → InPhase c (running u) s
    → u < length s.tasks
    → s.m_cancelled ≡ false
    → Returns (exec_end c u s) (Ended c u s)
unfolding exec_end
exec_end-Ended c u s (h, _) k e =
    Returns-bind (Requeued (task s u).m_run_again (task s u).m_idle c u s) (Ended c u s)
      (requeue u s)
      (λ r.
        let x = task r u in
        ok (
          set_phase c waiting (
            rescue_local c x.m_post_exec_queue x.m_sort_queue
              (put_task u (record x { m_post_exec_queue = []; m_sort_queue = false }) r))))
      (requeue-Requeued c u s h k e)
      (λ r m.
        let x = task r u in
        let y = record x { m_post_exec_queue = []; m_sort_queue = false } in
        let q = rescue_local c x.m_post_exec_queue x.m_sort_queue (put_task u y r) in
        let (local, tasks, queue, idle, l) =
          rescue_local-spliced c x.m_post_exec_queue x.m_sort_queue (put_task u y r) m.in_threads in
        let p = record (consumer q c) { phase = waiting } in
        record {
          waits = put_consumer-InPhase c p q l;
          task_is =
              ap (λ ts. get_or ts u new_task) tasks
              ∙ (task-put_same u y r m.in_tasks
                  ∙ ap
                      (λ (z : TaskState). record z { m_post_exec_queue = []; m_sort_queue = false })
                      m.task_is);
          local_is =
              ap (λ (z : TaskConsumer). z.m_local_queue)
                (get_or-set_self q.consumers c p new_consumer l)
              ∙ (ap (λ (z : TaskConsumer). z.m_local_queue) local
                  ∙ (ap
                        (λ (z : TaskState).
                          spliced z.m_post_exec_queue z.m_sort_queue (consumer r c).m_local_queue)
                        m.task_is
                      ∙ ap
                          (λ (z : TaskConsumer).
                            spliced
                              (behind (task s u).m_run_again (task s u).m_idle u
                                (task s u).m_post_exec_queue)
                              (task s u).m_sort_queue z.m_local_queue)
                          m.consumer_is));
          queue_is = queue ∙ m.queue_is;
          idle_is = idle ∙ m.idle_is;
        })
