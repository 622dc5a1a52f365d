-- ===== src/Task/Loop.antt =====
-- The loop of a thread of the scheduler (lib/task.cc).
use bees.Base.{
  ℕ, ◌+◌, ◌<◌, ◌≡◌, refl, ap, sym, ◌∙◌, Bool, false, List, [], ◌∷◌, length, get_or, sum_by, num,
  count, sum_by-set, ltb, if◌then◌else◌, arith, if_elim,
}
use mathlib.Core.Path.{subst}
use bees.Task.{
  TaskState, TaskConsumer, System, waiting, taken, exited, new_task, new_consumer, task, consumer,
  put_consumer, thread_count,
}
use bees.Task.Queue.{rescue_global}
use bees.Task.State.{set_phase}
use bees.Task.Master.{leave, pick, consumer_loop}
use bees.Task.Places.{Balance, runners, in_post, in_consumer, runs, held_in, runs_in}
use bees.Task.Moves.{Moves, put_consumer-Grows}
use bees.Task.Rescue.{rescue_global-Moves}
use bees.Task.Asked.{moved_Balance}

-- A change of the queues and the threads that moves as many as it takes away.
pub even_Balance :
    (t : ℕ) (s r : System)
    → r.tasks ≡ s.tasks
    → r.m_cancelled ≡ s.m_cancelled
    → count t r.m_queue + count t r.m_idle_queue + sum_by (in_consumer t) r.consumers
      ≡ count t s.m_queue + count t s.m_idle_queue + sum_by (in_consumer t) s.consumers
    → runners t r ≡ runners t s
    → Balance s t
    → Balance r t
even_Balance t s r e c h runs b =
    let flag : (f : TaskState → Bool) → num (f (task r t)) ≡ num (f (task s t)) =
      λ f. ap (λ ts. num (f (get_or ts t new_task))) e in
    let now = flag (λ x. x.m_run_now) in
    let again = flag (λ x. x.m_run_again) in
    let running = flag (λ x. x.m_is_running) in
    let post = ap (sum_by (in_post t)) e in
    record {
      at_most = omega (arith, b.at_most, h, post, again, now, flag (λ x. x.is_rescue));
      at_least = omega (arith, b.at_least, h, post, again, now, ap num c);
      one_thread = omega (arith, b.one_thread, runs, running);
      again_running = omega (arith, b.again_running, running, again);
    }

-- A thread that goes on to another phase, with another local queue.
turn_Balance :
    (c t : ℕ) (x : TaskConsumer) (s r : System)
    → c < length s.consumers
    → r ≡ put_consumer c x (record s { m_queue = r.m_queue; m_idle_queue = r.m_idle_queue })
    → runs t x ≡ runs t (consumer s c)
    → count t r.m_queue + count t r.m_idle_queue + in_consumer t x
      ≡ count t s.m_queue + count t s.m_idle_queue + in_consumer t (consumer s c)
    → Balance s t
    → Balance r t
turn_Balance c t x s r h e same moved b =
    subst (λ q. Balance q t) (sym e)
      (even_Balance t s
        (put_consumer c x (record s { m_queue = r.m_queue; m_idle_queue = r.m_idle_queue })) refl
        refl (omega (arith, moved, sum_by-set (in_consumer t) s.consumers c x new_consumer h))
        (omega (arith, same, sum_by-set (runs t) s.consumers c x new_consumer h)) b)

pick-Balance :
    (c t : ℕ) (l q idle : List ℕ) (s : System)
    → c < length s.consumers
    → (consumer s c).phase ≡ waiting
    → (consumer s c).m_local_queue ≡ l
    → s.m_queue ≡ q
    → s.m_idle_queue ≡ idle
    → Balance s t
    → Balance (pick c l q idle s) t
unfolding pick
pick-Balance c t (u ∷ rest) q idle s h e l f g b =
    turn_Balance c t (record { phase = taken u; m_local_queue = rest }) s
      (put_consumer c (record { phase = taken u; m_local_queue = rest }) s) h refl
      (sym (ap (runs_in t) e)) (omega (arith, ap (count t) l, ap (held_in t) e)) b
pick-Balance c t [] (u ∷ rest) idle s h e l f g b =
    turn_Balance c t (record { phase = taken u; m_local_queue = [] }) s
      (put_consumer c (record { phase = taken u; m_local_queue = [] })
        (record s { m_queue = rest }))
      h refl (sym (ap (runs_in t) e))
      (omega (arith, ap (count t) l, ap (held_in t) e, ap (count t) f)) b
pick-Balance c t [] [] (u ∷ rest) s h e l f g b =
    turn_Balance c t (record { phase = taken u; m_local_queue = [] }) s
      (put_consumer c (record { phase = taken u; m_local_queue = [] })
        (record s { m_idle_queue = rest }))
      h refl (sym (ap (runs_in t) e))
      (omega (arith, ap (count t) l, ap (held_in t) e, ap (count t) g)) b
pick-Balance c t [] [] [] s h e l f g b = b

-- The local queue of a thread, handed over.
local_queue-Moves :
    (c t : ℕ) (s : System)
    → c < length s.consumers
    → let x = consumer s c in
      let r = put_consumer c (record x { m_local_queue = [] }) s in
      Moves 0 s (rescue_global x.m_local_queue false r) t
local_queue-Moves c t s h =
    let x = consumer s c in
    let y = record x { m_local_queue = [] } in
    let r = put_consumer c y s in
    let g = put_consumer-Grows c y s h refl in
    let m = rescue_global-Moves t x.m_local_queue false r in
    let sum = sum_by-set (in_consumer t) s.consumers c y new_consumer h in
    let n = m.grows in
    record {
      placed = omega (arith, m.placed, sum);
      kept = omega (arith, m.kept, sum);
      run_now_is = m.run_now_is;
      is_running_is = m.is_running_is;
      run_again_is = m.run_again_is;
      runners_is = omega (arith, m.runners_is, sum_by-set (runs t) s.consumers c y new_consumer h);
      cancelled_is = m.cancelled_is;
      grows = record {
        tasks_grow = n.tasks_grow;
        consumers_grow = omega (arith, n.consumers_grow, g.consumers_grow);
        same_phase = λ d k. n.same_phase d (omega (arith, k, g.consumers_grow)) ∙ g.same_phase d k;
      };
    }

leave-Balance :
    (c t : ℕ) (s : System)
    → c < length s.consumers
    → (consumer s c).phase ≡ waiting
    → Balance s t
    → Balance (leave c s) t
unfolding leave
leave-Balance c t s h e b =
    let x = consumer s c in
    let r = put_consumer c (record x { m_local_queue = [] }) s in
    let q = rescue_global x.m_local_queue false r in
    let m = local_queue-Moves c t s h in
    let phase = m.grows.same_phase c h ∙ e in
    turn_Balance c t (record (consumer q c) { phase = exited }) q (set_phase c exited q)
      (omega (arith, h, m.grows.consumers_grow)) refl (sym (ap (runs_in t) phase))
      (omega (arith, ap (held_in t) phase)) (moved_Balance t s q m b)

pub consumer_loop-Balance :
    (c t : ℕ) (s : System)
    → c < length s.consumers
    → (consumer s c).phase ≡ waiting
    → Balance s t
    → Balance (consumer_loop c s) t
unfolding consumer_loop
consumer_loop-Balance c t s h e b =
    let next = pick c (consumer s c).m_local_queue s.m_queue s.m_idle_queue s in
    let full = ltb s.m_thread_max (thread_count s) in
    if_elim (λ r. Balance r t) s.m_paused (leave c s) (if full then leave c s else next)
      (λ _. leave-Balance c t s h e b)
      (λ _.
        if_elim (λ r. Balance r t) full (leave c s) next (λ _. leave-Balance c t s h e b)
          (λ _. pick-Balance c t _ _ _ s h e refl refl refl b))
