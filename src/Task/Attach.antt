-- ===== src/Task/Attach.antt =====
-- The requests to execute a task after another one (lib/task.cc): append and insert.
use bees.Base.{
  ℕ, ◌+◌, ◌<◌, ◌≡◌, refl, ap, sym, true, false, not, [], ◌∷◌, ◌++◌, length, length-set, num, count,
  count-append, ◌==◌, if◌then◌else◌, arith, if_elim, ok, Allows, Allows-check, invalid_argument,
}
use bees.Task.{System, task, put_task}
use bees.Task.State.{append, insert, append_nolock, set_run_now, clear_idle, splice_post}
use bees.Task.Places.{Balance, in_post, task-put_other}
use bees.Task.Moves.{Moves, Moves-trans, put_task-Moves, write-Moves}
use bees.Task.Asked.{asked_Balance, moved_Balance}

clear_idle-Moves : (u n : ℕ) (s : System) → u < length s.tasks → Moves 0 s (clear_idle u s) n
clear_idle-Moves u n s h =
    put_task-Moves 0 n u (record (task s u) { m_idle = false }) s h
      (record {
        run_now_kept = refl;
        is_running_kept = refl;
        run_again_kept = refl;
        is_rescue_kept = refl;
      })
      (omega arith)

pub append_nolock-Moves :
    (t u n : ℕ) (s : System) → t < length s.tasks → Moves (num (n == u)) s (append_nolock t u s) n
append_nolock-Moves t u n s h =
    let x = task s t in
    put_task-Moves (num (n == u)) n t
      (record x { m_post_exec_queue = x.m_post_exec_queue ++ u ∷ [] }) s h
      (record {
        run_now_kept = refl;
        is_running_kept = refl;
        run_again_kept = refl;
        is_rescue_kept = refl;
      })
      (omega (arith, count-append n x.m_post_exec_queue (u ∷ [])))

splice_post-Moves :
    (t u n : ℕ) (s : System)
    → t < length s.tasks
    → u < length s.tasks
    → (t == u) ≡ false
    → Moves (num (n == u)) s (splice_post t u s) n
splice_post-Moves t u n s h k ne =
    let x = task s t in
    let y = task s u in
    let z = record y { m_post_exec_queue = [] } in
    let same = sym (task-put_other t u z s ne) in
    let extra = count n y.m_post_exec_queue + num (n == u) in
    write-Moves extra (num (n == u)) n u z s (splice_post t u s) k
      (record {
        run_now_kept = refl;
        is_running_kept = refl;
        run_again_kept = refl;
        is_rescue_kept = refl;
      })
      (omega arith)
      (put_task-Moves extra n t
        (record x {
          m_sort_queue = true;
          m_post_exec_queue = (x.m_post_exec_queue ++ u ∷ []) ++ y.m_post_exec_queue;
        })
        (put_task u z s) (omega (arith, length-set s.tasks u z))
        (record {
          run_now_kept = ap (λ w. w.m_run_now) same;
          is_running_kept = ap (λ w. w.m_is_running) same;
          run_again_kept = ap (λ w. w.m_run_again) same;
          is_rescue_kept = ap (λ w. w.is_rescue) same;
        })
        (omega (
          arith,
          ap (in_post n) same,
          count-append n (x.m_post_exec_queue ++ u ∷ []) y.m_post_exec_queue,
          count-append n x.m_post_exec_queue (u ∷ []),
        )))

-- What append and insert do, but for how the task comes to wait.
attached_Balance :
    (u n : ℕ) (attach : System → System) (s : System)
    → u < length s.tasks
    → Balance s u
    → Balance s n
    → Moves (num (n == u)) (set_run_now u s) (attach (set_run_now u s)) n
    → Balance (clear_idle u (if (task s u).m_run_now then s else attach (set_run_now u s))) n
attached_Balance u n attach s h bu b m =
    if_elim (λ r. Balance (clear_idle u r) n) (task s u).m_run_now s (attach (set_run_now u s))
      (λ e. moved_Balance n s (clear_idle u s) (clear_idle-Moves u n s h) b)
      (λ e.
        let q = set_run_now u s in
        let g = m.grows in
        let l : u < length (attach q).tasks =
          omega (
            arith,
            g.tasks_grow,
            h,
            length-set s.tasks u (record (task s u) { m_run_now = true }),
          ) in
        asked_Balance u n (record (task s u) { m_run_now = true }) s (clear_idle u (attach q)) h
          refl refl refl refl refl e bu b
          (Moves-trans (num (n == u)) (num (n == u)) 0 n q (attach q) (clear_idle u (attach q))
            (omega arith) m (clear_idle-Moves u n (attach q) l)))

pub append-Balance :
    (t u n : ℕ) (s : System)
    → t < length s.tasks
    → u < length s.tasks
    → Balance s u
    → Balance s n
    → Balance (append t u s) n
unfolding append
append-Balance t u n s h k bu b = attached_Balance u n (append_nolock t u) s k bu b (
    append_nolock-Moves t u n (set_run_now u s)
      (omega (arith, h, length-set s.tasks u (record (task s u) { m_run_now = true }))))

pub insert-Balance :
    (t u n : ℕ) (s : System)
    → t < length s.tasks
    → u < length s.tasks
    → Balance s u
    → Balance s n
    → Allows (insert t u s) (λ r. Balance r n)
unfolding insert
insert-Balance t u n s h k bu b =
    let q = set_run_now u s in
    let l = length-set s.tasks u (record (task s u) { m_run_now = true }) in
    Allows-check (λ r. Balance r n) invalid_argument (not (t == u))
      (ok (clear_idle u (if (task s u).m_run_now then s else splice_post t u q)))
      (λ ne.
        attached_Balance u n (splice_post t u) s k bu b
          (splice_post-Moves t u n q (omega (arith, h, l)) (omega (arith, k, l)) (ground arith)))
