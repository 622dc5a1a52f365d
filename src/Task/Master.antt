-- ===== src/Task/Master.antt =====
-- The TaskMaster and the loop of its threads (lib/task.cc). A thread target from the load average
-- is an argument.
use bees.Base.{ℕ, ◌-◌, max, min, Bool, true, false, List, [], ◌∷◌, ◌++◌, ◌==◌, ltb, if◌then◌else◌}
use bees.Task.{System, taken, exited, consumer, put_consumer, thread_count, spawn}
use bees.Task.State.{set_phase}
use bees.Task.Queue.{start_threads_nolock, rescue_global, clear_all}

-- `target` is m_thread_target, rounded up.
unfoldable pub calculate_thread_count_nolock : ℕ → System → ℕ
calculate_thread_count_nolock target s =
    if s.m_load_target == 0
    then s.m_configured_thread_max
    else if s.m_configured_thread_max == 0
    then 0
    else max s.m_thread_min (min target s.m_configured_thread_max)

unfoldable pub adjust_thread_count : ℕ → System → System
adjust_thread_count target s =
    let new_thread_max = calculate_thread_count_nolock target s in
    let r = record s { m_thread_max = new_thread_max } in
    if new_thread_max == s.m_thread_max then r else start_threads_nolock r

-- The threads that the loop starts, before it waits for others to exit.
unfoldable pub start_stop_threads : System → System
start_stop_threads s = spawn (s.m_thread_max - thread_count s) s

unfoldable pub set_thread_count : ℕ → ℕ → System → System
set_thread_count target thread_max s =
    start_stop_threads
      (adjust_thread_count target (record s { m_configured_thread_max = thread_max }))

unfoldable pub set_thread_min_count : ℕ → ℕ → System → System
set_thread_min_count target thread_min s =
    start_stop_threads (adjust_thread_count target (record s { m_thread_min = thread_min }))

unfoldable pub cancel : System → System
cancel s =
    clear_all (s.m_queue ++ s.m_idle_queue)
      (record s { m_paused = true; m_cancelled = true; m_queue = []; m_idle_queue = [] })

unfoldable pub pause : Bool → System → System
pause paused s =
    let r = record s { m_paused = paused } in if paused then r else start_threads_nolock r

-- The end of consumer_thread.
unfoldable pub leave : ℕ → System → System
leave c s =
    let x = consumer s c in
    set_phase c exited
      (rescue_global x.m_local_queue false (put_consumer c (record x { m_local_queue = [] }) s))

-- The choice of the next task: from the local queue, the global one, the idle one.
unfoldable pub pick : ℕ → List ℕ → List ℕ → List ℕ → System → System
pick c (t ∷ rest) q idle s = put_consumer c (record { phase = taken t; m_local_queue = rest }) s
pick c [] (t ∷ rest) idle s =
    put_consumer c (record { phase = taken t; m_local_queue = [] }) (record s { m_queue = rest })
pick c [] [] (t ∷ rest) s =
    put_consumer c (record { phase = taken t; m_local_queue = [] })
      (record s { m_idle_queue = rest })
pick c [] [] [] s = s

-- One pass of the loop of consumer_thread, from its head; without a task it waits.
unfoldable pub consumer_loop : ℕ → System → System
consumer_loop c s =
    if s.m_paused
    then leave c s
    else if ltb s.m_thread_max (thread_count s)
    then leave c s
    else pick c (consumer s c).m_local_queue s.m_queue s.m_idle_queue s
