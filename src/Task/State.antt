-- ===== src/Task/State.antt =====
-- The operations of a TaskState (lib/task.cc). Each holds the mutexes of its tasks from its first
-- read to its last write; exec lets go of them for m_exec_fn, and is two definitions.
use bees.Base.{
  ℕ, Bool, true, false, not, Option, none, some, List, [], ◌∷◌, ◌++◌, ◌==◌, if◌then◌else◌, Outcome,
  ok, ◌>>=◌, ◌>>◌, throw_check, invalid_argument,
}
use bees.Task.{Phase, System, waiting, running, task, put_task, consumer, put_consumer}
use bees.Task.Queue.{push_back, push_back_idle, rescue_local, rescue_global}

unfoldable pub run : ℕ → System → Outcome System
run t s =
    let x = record (task s t) { m_idle = false } in
    if x.m_run_now
    then ok (put_task t x s)
    else if x.m_is_running
    then ok (put_task t (record x { m_run_now = true; m_run_again = true }) s)
    else push_back (t ∷ []) t (put_task t (record x { m_run_now = true }) s)

unfoldable pub idle : ℕ → System → Outcome System
idle t s =
    let x = record (task s t) { m_idle = true } in
    if x.m_run_now
    then ok (put_task t x s)
    else if x.m_is_running
    then ok (put_task t (record x { m_run_now = true; m_run_again = true }) s)
    else push_back_idle (t ∷ []) t (put_task t (record x { m_run_now = true }) s)

-- t->append_nolock(u)
abbrev pub append_nolock : ℕ → ℕ → System → System
append_nolock t u s =
    let x = task s t in
    put_task t (record x { m_post_exec_queue = x.m_post_exec_queue ++ u ∷ [] }) s

abbrev pub set_run_now : ℕ → System → System
set_run_now u s = put_task u (record (task s u) { m_run_now = true }) s

abbrev pub clear_idle : ℕ → System → System
clear_idle u s = put_task u (record (task s u) { m_idle = false }) s

-- t->append(u)
unfoldable pub append : ℕ → ℕ → System → System
append t u s =
    clear_idle u (if (task s u).m_run_now then s else append_nolock t u (set_run_now u s))

-- The end of insert: the post-exec queue of u moves to the end of t's.
abbrev pub splice_post : ℕ → ℕ → System → System
splice_post t u s =
    let x = task s t in
    let y = task s u in
    put_task t
      (record x {
        m_sort_queue = true;
        m_post_exec_queue = (x.m_post_exec_queue ++ u ∷ []) ++ y.m_post_exec_queue;
      })
      (put_task u (record y { m_post_exec_queue = [] }) s)

-- t->insert(u)
unfoldable pub insert : ℕ → ℕ → System → Outcome System
insert t u s = do
  throw_check invalid_argument (not (t == u))
  ok (clear_idle u (if (task s u).m_run_now then s else splice_post t u (set_run_now u s)))

unfoldable pub rescue_queue : Option ℕ → List ℕ → Bool → System → System
rescue_queue none queue sort_queue s = rescue_global queue sort_queue s
rescue_queue (some c) queue sort_queue s = rescue_local c queue sort_queue s

-- The destructor, in the thread of a TaskConsumer or another.
unfoldable pub destroy : Option ℕ → ℕ → System → System
unfolding rescue_queue
destroy c t s =
    let x = task s t in
    rescue_queue c x.m_post_exec_queue x.m_sort_queue
      (put_task t (record x { m_post_exec_queue = [] }) s)

abbrev pub set_phase : ℕ → Phase → System → System
set_phase c p s = put_consumer c (record (consumer s c) { phase = p }) s

-- exec in the thread of a TaskConsumer, as far as m_exec_fn. Every Task of the program is made with a
-- function and a title, so that the checks of exec hold.
unfoldable pub exec_begin : ℕ → ℕ → System → System
exec_begin c t s =
    let x = task s t in
    if x.m_is_running
    then set_phase c waiting (put_task t (record x { m_run_again = true }) s)
    else set_phase c (running t)
        (put_task t (record x { m_run_now = false; m_is_running = true }) s)

-- A task that is to run again goes to the idle queue, or behind the tasks that wait for it.
unfoldable pub requeue : ℕ → System → Outcome System
requeue t s =
    let x = record (task s t) { m_is_running = false; m_run_again = false } in
    if not (task s t).m_run_again
    then ok (put_task t x s)
    else if x.m_idle
    then push_back_idle (t ∷ []) t (put_task t x s)
    else ok (append_nolock t t (put_task t x s))

-- The rest of exec after m_exec_fn, which has returned or thrown.
unfoldable pub exec_end : ℕ → ℕ → System → Outcome System
exec_end c t s = do
  r ← requeue t s
  let x = task r t
  ok (
      set_phase c waiting (
        rescue_local c x.m_post_exec_queue x.m_sort_queue
          (put_task t (record x { m_post_exec_queue = []; m_sort_queue = false }) r)))
