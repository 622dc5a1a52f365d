-- ===== src/Task/Queue.antt =====
-- The queues of the task scheduler (lib/task.cc): clearing, pushing and rescuing them.
use bees.Base.{
  ℕ, suc, zero, ◌+◌, ◌-◌, Bool, true, List, [], ◌∷◌, ◌++◌, length, get_or, set, sort, count, sum_by,
  ◌==◌, if◌then◌else◌, Outcome, ok, ◌>>◌, throw_check, resource_deadlock_would_occur,
}
use bees.Task.{TaskState, System, new_task, consumer, put_consumer, thread_count, spawn}

-- clear_queue and clear: the list is what the loops, the outer ones included, have still to clear.
unfoldable pub clear_queue : ℕ → List ℕ → List TaskState → List TaskState
clear_queue zero tq ts = ts
clear_queue (suc n) [] ts = ts
clear_queue (suc n) (t ∷ tq) ts =
    let x = get_or ts t new_task in
    clear_queue n (x.m_post_exec_queue ++ tq) (set ts t (record x { m_post_exec_queue = [] }))

abbrev pub post_count : TaskState → ℕ
post_count x = length x.m_post_exec_queue

abbrev pub clear_fuel : List ℕ → List TaskState → ℕ
clear_fuel tq ts = length tq + sum_by post_count ts

abbrev pub clear_all : List ℕ → System → System
clear_all tq s = record s { tasks = clear_queue (clear_fuel tq s.tasks) tq s.tasks }

-- clear locks the mutex of the task: `held` are the tasks whose mutex the caller has.
unfoldable pub clear : List ℕ → ℕ → System → Outcome System
clear held t s = do
  throw_check resource_deadlock_would_occur (count t held == 0)
  ok (clear_all (t ∷ []) s)

unfoldable pub start_threads_nolock : System → System
start_threads_nolock s = if s.m_paused then s else spawn (s.m_thread_max - thread_count s) s

unfoldable pub push_back : List ℕ → ℕ → System → Outcome System
push_back held t s =
    if s.m_cancelled
    then clear held t s
    else ok (start_threads_nolock (record s { m_queue = s.m_queue ++ t ∷ [] }))

unfoldable pub push_back_idle : List ℕ → ℕ → System → Outcome System
push_back_idle held t s =
    if s.m_cancelled
    then clear held t s
    else ok (start_threads_nolock (record s { m_idle_queue = s.m_idle_queue ++ t ∷ [] }))

-- Its callers have no mutex of a task in the queue.
unfoldable pub push_front : List ℕ → System → System
push_front [] s = s
push_front (t ∷ queue) s =
    if s.m_cancelled
    then clear_all (t ∷ queue) s
    else start_threads_nolock (record s { m_queue = (t ∷ queue) ++ s.m_queue })

-- rescue_queue in the thread of a TaskConsumer, with the queue to splice.
unfoldable pub rescue_local : ℕ → List ℕ → Bool → System → System
rescue_local c [] sort_queue s = s
rescue_local c (t ∷ queue) sort_queue s =
    let x = consumer s c in
    let spliced = (t ∷ queue) ++ x.m_local_queue in
    put_consumer c (record x { m_local_queue = if sort_queue then sort spliced else spliced }) s

abbrev pub rescue_task : List ℕ → Bool → TaskState
rescue_task queue sort_queue = record new_task {
  m_post_exec_queue = queue;
  m_sort_queue = sort_queue;
  is_rescue = true;
}

-- rescue_queue in a thread that is no TaskConsumer's.
unfoldable pub rescue_global : List ℕ → Bool → System → System
rescue_global [] sort_queue s = s
rescue_global (t ∷ []) sort_queue s = push_front (t ∷ []) s
rescue_global (t ∷ u ∷ queue) sort_queue s =
    push_front (length s.tasks ∷ [])
      (record s { tasks = s.tasks ++ rescue_task (t ∷ u ∷ queue) sort_queue ∷ [] })
