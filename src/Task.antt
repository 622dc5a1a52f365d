-- ===== src/Task.antt =====
-- The task scheduler (lib/task.cc): tasks, the threads that execute them, and the TaskMaster's
-- queues. A task's number is its place in the store of tasks, and stands for its m_id and its
-- pointer; a thread's number is its place in the store of threads.
pub mod Queue
pub mod State
pub mod Master
pub mod Places
pub mod Moves
pub mod Clear
pub mod Clearing
pub mod Rescue
pub mod Asked
pub mod Requests
pub mod Attach
pub mod Threads
pub mod Finish
pub mod Loop
pub mod Control
pub mod Steps
pub mod Promises
pub mod Waiting
pub mod Handle
pub mod Barrier
pub mod Turns
mod Tests
use bees.Base.{
  ℕ, ◌+◌, ◌-◌, Bool, true, false, List, [], ◌∷◌, ◌++◌, get_or, set, replicate, sum_by, num, count,
}

-- is_rescue tells the tasks that rescue_queue makes: the program has no handle of one.
pub record TaskState : Type 0 where
  pub m_post_exec_queue : List ℕ
  pub m_run_now : Bool
  pub m_sort_queue : Bool
  pub m_is_running : Bool
  pub m_run_again : Bool
  pub m_idle : Bool
  pub is_rescue : Bool

abbrev pub new_task : TaskState
new_task = record {
  m_post_exec_queue = [];
  m_run_now = false;
  m_sort_queue = false;
  m_is_running = false;
  m_run_again = false;
  m_idle = false;
  is_rescue = false;
}

-- Where a thread is: at the head of its loop, about to execute m_current_task, in its m_exec_fn,
-- or erased from m_threads.
pub data Phase : Type 0 where
  waiting : Phase
  taken : ℕ → Phase
  running : ℕ → Phase
  exited : Phase

pub record TaskConsumer : Type 0 where
  pub phase : Phase
  pub m_local_queue : List ℕ

abbrev pub new_consumer : TaskConsumer
new_consumer = record { phase = waiting; m_local_queue = [] }

-- The TaskMasterState, with the store of tasks and every thread so far.
pub record System : Type 0 where
  pub tasks : List TaskState
  pub consumers : List TaskConsumer
  pub m_queue : List ℕ
  pub m_idle_queue : List ℕ
  pub m_thread_max : ℕ
  pub m_thread_min : ℕ
  pub m_configured_thread_max : ℕ
  pub m_load_target : ℕ
  pub m_cancelled : Bool
  pub m_paused : Bool

abbrev pub new_system : ℕ → System
new_system thread_max = record {
  tasks = [];
  consumers = [];
  m_queue = [];
  m_idle_queue = [];
  m_thread_max = thread_max;
  m_thread_min = 0;
  m_configured_thread_max = thread_max;
  m_load_target = 0;
  m_cancelled = false;
  m_paused = false;
}

abbrev pub task : System → ℕ → TaskState
task s t = get_or s.tasks t new_task

abbrev pub put_task : ℕ → TaskState → System → System
put_task t x s = record s { tasks = set s.tasks t x }

abbrev pub consumer : System → ℕ → TaskConsumer
consumer s c = get_or s.consumers c new_consumer

abbrev pub put_consumer : ℕ → TaskConsumer → System → System
put_consumer c x s = record s { consumers = set s.consumers c x }

-- The constructor of a TaskState: the next number.
abbrev pub create : System → System
create s = record s { tasks = s.tasks ++ new_task ∷ [] }

-- m_threads.size()
abbrev pub is_live : TaskConsumer → ℕ
is_live x = elim x.phase [ exited ↦ 0 | _ ↦ 1 ]

abbrev pub thread_count : System → ℕ
thread_count s = sum_by is_live s.consumers

-- Threads of the constructor of a TaskConsumer.
abbrev pub spawn : ℕ → System → System
spawn n s = record s { consumers = s.consumers ++ replicate n new_consumer }
