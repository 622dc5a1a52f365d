-- ===== src/Task/Waiting.antt =====
-- What a caller of append and insert (lib/task.cc), a Barrier and an Exclusion can rely on.
use bees.Base.{
  ℕ, ◌<◌, ◌≡◌, ◌≢◌, refl, ap, sym, ◌∙◌, inl, inr, Bool, true, false, not, [], ◌∷◌, ◌++◌, length,
  length-set, ◌==◌, ==_iff, if◌then◌else◌, arith, Bool-cases, if_elim, Outcome, ok, Returns,
  throw_check, ◌>>◌, invalid_argument,
}
use bees.Task.{TaskState, System, task, put_task}
use bees.Task.State.{append, insert, append_nolock, set_run_now, clear_idle, splice_post}
use bees.Task.Places.{task-put_same, task-put_other}
use bees.Task.Steps.{Reachable, IsHandle, steps, appends, inserts}
use bees.Task.Promises.{Asked, Scheduled, Asked-Scheduled, put-Asked, stepped}

pub put_flag :
    (f : TaskState → Bool) (t u : ℕ) (v : TaskState) (s : System)
    → t < length s.tasks
    → f v ≡ f (task s t)
    → f (task (put_task t v s) u) ≡ f (task s u)
put_flag f t u v s h e = elim (Bool-cases (u == t)) [
  | inl same ↦
      let i = (==_iff u t).0 same in
      ap (λ n. f (task (put_task t v s) n)) i
      ∙ (ap f (task-put_same t v s h) ∙ (e ∙ ap (λ n. f (task s n)) (sym i)))
  | inr ne ↦ ap f (task-put_other u t v s ne)
]

-- A write that keeps what a task is to do.
keep-Asked :
    (t u : ℕ) (v : TaskState) (s : System)
    → t < length s.tasks
    → v.m_run_now ≡ (task s t).m_run_now
    → v.is_rescue ≡ (task s t).is_rescue
    → Asked u s
    → Asked u (put_task t v s)
keep-Asked t u v s h now rescue a = record {
  handle = (
    let l = a.handle.0 in omega (arith, length-set s.tasks t v),
    put_flag (λ x. x.is_rescue) t u v s h rescue ∙ a.handle.1,
  );
  asked = put_flag (λ x. x.m_run_now) t u v s h now ∙ a.asked;
  working = a.working;
}

clear_idle-Asked : (u : ℕ) (s : System) → Asked u s → Asked u (clear_idle u s)
clear_idle-Asked u s a =
    keep-Asked u u (record (task s u) { m_idle = false }) s a.handle.0 refl refl a

attached-Asked :
    (u : ℕ) (attach : System → System) (s : System)
    → IsHandle u s
    → s.m_cancelled ≡ false
    → (Asked u (set_run_now u s) → Asked u (attach (set_run_now u s)))
    → Asked u (clear_idle u (if (task s u).m_run_now then s else attach (set_run_now u s)))
attached-Asked u attach s h c attached =
    if_elim (λ r. Asked u (clear_idle u r)) (task s u).m_run_now s (attach (set_run_now u s))
      (λ e. clear_idle-Asked u s (record { handle = h; asked = e; working = c }))
      (λ _.
        clear_idle-Asked u (attach (set_run_now u s))
          (attached (put-Asked u (record (task s u) { m_run_now = true }) s h c refl refl)))

splice_post-Asked :
    (t u : ℕ) (s : System)
    → t < length s.tasks
    → (t == u) ≡ false
    → Asked u s
    → Asked u (splice_post t u s)
splice_post-Asked t u s h ne a =
    let x = task s t in
    let y = task s u in
    let z = record y { m_post_exec_queue = [] } in
    let same = sym (task-put_other t u z s ne) in
    keep-Asked t u
      (record x {
        m_sort_queue = true;
        m_post_exec_queue = (x.m_post_exec_queue ++ u ∷ []) ++ y.m_post_exec_queue;
      })
      (put_task u z s) (omega (arith, h, length-set s.tasks u z)) (ap (λ w. w.m_run_now) same)
      (ap (λ w. w.is_rescue) same) (keep-Asked u u z s a.handle.0 refl refl a)

-- A task that waits behind another is to run.
pub append_lem :
    (t u : ℕ) (s : System)
    → Reachable s
    → IsHandle t s
    → IsHandle u s
    → s.m_cancelled ≡ false
    → Scheduled u (append t u s)
unfolding append
append_lem t u s r (h, n) k c =
    let q = set_run_now u s in
    let l = length-set s.tasks u (record (task s u) { m_run_now = true }) in
    Asked-Scheduled u (append t u s) (steps s (append t u s) r (appends t u s (h, n) k)) (
      attached-Asked u (append_nolock t u) s k c (λ a.
        keep-Asked t u
          (record (task q t) { m_post_exec_queue = (task q t).m_post_exec_queue ++ u ∷ [] }) q
          (omega (arith, h, l)) refl refl a))

insert-Asked :
    (t u : ℕ) (s : System)
    → IsHandle t s
    → IsHandle u s
    → s.m_cancelled ≡ false
    → (t == u) ≡ false
    → Returns (insert t u s) (Asked u)
unfolding insert
insert-Asked t u s (h, _) k c ne =
    let q = set_run_now u s in
    let l = length-set s.tasks u (record (task s u) { m_run_now = true }) in
    checked (not (t == u)) (ground arith)
      (ok (clear_idle u (if (task s u).m_run_now then s else splice_post t u q)))
      (attached-Asked u (splice_post t u) s k c (splice_post-Asked t u q (omega (arith, h, l)) ne))
  where
    checked :
        (b : Bool)
        → b ≡ true
        → (o : Outcome System) → Returns o (Asked u)
        → Returns (throw_check invalid_argument b >> o) (Asked u)
    checked true e o a = a
    checked false e o a = absurd (ground arith)

-- While the scheduler is not cancelled, insert of a task behind another one returns, and the
-- inserted task is to run and is in exactly one place.
pub insert_lem :
    (t u : ℕ) (s : System)
    → Reachable s
    → IsHandle t s
    → IsHandle u s
    → s.m_cancelled ≡ false
    → t ≢ u
    → Returns (insert t u s) (Scheduled u)
insert_lem t u s r h k c ne =
    stepped u s (insert t u s) r (λ q e. inserts t u s q h k e)
      (insert-Asked t u s h k c (ground arith))
