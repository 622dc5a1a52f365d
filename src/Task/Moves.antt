-- ===== src/Task/Moves.antt =====
-- Calls of the scheduler (lib/task.cc) that only move tasks from one place to another.
use bees.Base.{
  ℕ, ◌+◌, ◌-◌, ◌≤◌, ◌<◌, ◌≡◌, refl, ap, sym, ◌∙◌, ==_iff, length-append, length-set,
  get_or-set_self, get_or-set_ne, inl, inr, min, Bool, true, false, List, [], ◌∷◌, ◌++◌, length,
  get_or, replicate, sum_by, sum_by-set, sum_by-append, sum_by-replicate, num, count, count-append,
  count-sort, sort, ◌==◌, if◌then◌else◌, arith, Bool-cases, if_elim, get_or-append_left,
}
use bees.Task.{
  TaskState, TaskConsumer, System, new_task, new_consumer, task, put_task, consumer, put_consumer,
  spawn, thread_count,
}
use bees.Task.Queue.{start_threads_nolock, rescue_local}
use bees.Task.Places.{
  places, runners, run_now, is_running, run_again, rescued, in_post, in_consumer, runs, runs_in,
  KeepsFlags, kept-OtherWrite,
}

-- From `s` to `r` no task and no thread goes, and each thread stays where it is.
pub record Grows (s r : System) : Type 0 where
  pub tasks_grow : length s.tasks ≤ length r.tasks
  pub consumers_grow : length s.consumers ≤ length r.consumers
  pub same_phase : (c : ℕ) → c < length s.consumers → (consumer r c).phase ≡ (consumer s c).phase

pub same-Grows : (s r : System) → r.tasks ≡ s.tasks → r.consumers ≡ s.consumers → Grows s r
same-Grows s r a b = record {
  tasks_grow = omega (arith, ap length a);
  consumers_grow = omega (arith, ap length b);
  same_phase = λ c h. ap (λ xs. (get_or xs c new_consumer).phase) b;
}

-- From `s` to `r` the task `t` gets `extra` more places, unless the scheduler is cancelled; a
-- task that rescue_queue makes gets one that is not counted.
pub record Moves (extra : ℕ) (s r : System) (t : ℕ) : Type 0 where
  pub placed : places t r + rescued t s ≤ places t s + extra + rescued t r
  pub kept : min 1 (places t s + extra) ≤ places t r + num s.m_cancelled
  pub run_now_is : run_now t r ≡ run_now t s
  pub is_running_is : is_running t r ≡ is_running t s
  pub run_again_is : run_again t r ≡ run_again t s
  pub runners_is : runners t r ≡ runners t s
  pub cancelled_is : num r.m_cancelled ≡ num s.m_cancelled
  pub grows : Grows s r

-- A call that leaves the tasks and what is cancelled.
same_tasks-Moves :
    (extra : ℕ) (s r : System) (t : ℕ)
    → r.tasks ≡ s.tasks
    → r.m_cancelled ≡ s.m_cancelled
    → runners t r ≡ runners t s
    → count t r.m_queue + count t r.m_idle_queue + sum_by (in_consumer t) r.consumers
      ≡ count t s.m_queue + count t s.m_idle_queue + sum_by (in_consumer t) s.consumers + extra
    → Grows s r
    → Moves extra s r t
same_tasks-Moves extra s r t e c same h g =
    let flag : (f : TaskState → Bool) → num (f (task r t)) ≡ num (f (task s t)) =
      λ f. ap (λ ts. num (f (get_or ts t new_task))) e in
    let post = ap (sum_by (in_post t)) e in
    let again = flag (λ x. x.m_run_again) in
    let rescue = flag (λ x. x.is_rescue) in
    record {
      placed = omega (arith, h, post, again, rescue);
      kept = omega (arith, h, post, again);
      run_now_is = flag (λ x. x.m_run_now);
      is_running_is = flag (λ x. x.m_is_running);
      run_again_is = again;
      runners_is = same;
      cancelled_is = ap num c;
      grows = g;
    }

pub spawn-Moves : (n t : ℕ) (s : System) → Moves 0 s (spawn n s) t
spawn-Moves n t s =
    let fresh = replicate n new_consumer in
    same_tasks-Moves 0 s (spawn n s) t refl refl
      (omega (
        arith,
        sum_by-append (runs t) s.consumers fresh,
        sum_by-replicate (runs t) n new_consumer refl,
      ))
      (omega (
        arith,
        sum_by-append (in_consumer t) s.consumers fresh,
        sum_by-replicate (in_consumer t) n new_consumer refl,
      ))
      (record {
        tasks_grow = omega arith;
        consumers_grow = omega (arith, length-append s.consumers fresh);
        same_phase =
            λ c h. ap (λ x. x.phase) (get_or-append_left s.consumers fresh c new_consumer h);
      })

pub Moves-trans :
    (k m n t : ℕ) (s r q : System) → k ≡ m + n → Moves m s r t → Moves n r q t → Moves k s q t
Moves-trans k m n t s r q e a b = record {
  placed = omega (arith, a.placed, b.placed);
  kept = omega (arith, a.kept, b.kept, a.cancelled_is);
  run_now_is = omega (arith, a.run_now_is, b.run_now_is);
  is_running_is = omega (arith, a.is_running_is, b.is_running_is);
  run_again_is = omega (arith, a.run_again_is, b.run_again_is);
  runners_is = omega (arith, a.runners_is, b.runners_is);
  cancelled_is = omega (arith, a.cancelled_is, b.cancelled_is);
  grows = record {
    tasks_grow = omega (arith, a.grows.tasks_grow, b.grows.tasks_grow);
    consumers_grow = omega (arith, a.grows.consumers_grow, b.grows.consumers_grow);
    same_phase = λ c h.
        b.grows.same_phase c (omega (arith, h, a.grows.consumers_grow)) ∙ a.grows.same_phase c h;
  };
}

pub same-Moves : (t : ℕ) (s : System) → Moves 0 s s t
same-Moves t s = same_tasks-Moves 0 s s t refl refl refl (omega arith) (same-Grows s s refl refl)

pub start_threads_nolock-Moves : (t : ℕ) (s : System) → Moves 0 s (start_threads_nolock s) t
unfolding start_threads_nolock
start_threads_nolock-Moves t s =
    if_elim (λ r. Moves 0 s r t) s.m_paused s (spawn (s.m_thread_max - thread_count s) s)
      (λ e. same-Moves t s) (λ e. spawn-Moves (s.m_thread_max - thread_count s) t s)

-- Other queues, and the threads for them.
pub queues-Moves :
    (extra t : ℕ) (q idle : List ℕ) (s : System)
    → count t q + count t idle ≡ count t s.m_queue + count t s.m_idle_queue + extra
    → Moves extra s (start_threads_nolock (record s { m_queue = q; m_idle_queue = idle })) t
queues-Moves extra t q idle s h =
    let r = record s { m_queue = q; m_idle_queue = idle } in
    Moves-trans extra extra 0 t s r (start_threads_nolock r) (omega arith)
      (same_tasks-Moves extra s r t refl refl refl (omega (arith, h)) (same-Grows s r refl refl))
      (start_threads_nolock-Moves t r)

pub queue-Moves :
    (u t : ℕ) (s : System)
    → Moves (num (t == u)) s (start_threads_nolock (record s { m_queue = s.m_queue ++ u ∷ [] })) t
queue-Moves u t s =
    queues-Moves (num (t == u)) t (s.m_queue ++ u ∷ []) s.m_idle_queue s
      (omega (arith, count-append t s.m_queue (u ∷ [])))

pub idle_queue-Moves :
    (u t : ℕ) (s : System)
    → Moves
        (num (t == u))
        s
        (start_threads_nolock (record s { m_idle_queue = s.m_idle_queue ++ u ∷ [] }))
        t
idle_queue-Moves u t s =
    queues-Moves (num (t == u)) t s.m_queue (s.m_idle_queue ++ u ∷ []) s
      (omega (arith, count-append t s.m_idle_queue (u ∷ [])))

-- A write of a thread that stays where it is.
pub put_consumer-Grows :
    (c : ℕ) (x : TaskConsumer) (s : System)
    → c < length s.consumers
    → x.phase ≡ (consumer s c).phase
    → Grows s (put_consumer c x s)
put_consumer-Grows c x s h same = record {
  tasks_grow = omega arith;
  consumers_grow = omega (arith, length-set s.consumers c x);
  same_phase = λ d k. elim (Bool-cases (d == c)) [
    | inl e ↦
        let at = (==_iff d c).0 e in
        ap (λ i. (consumer (put_consumer c x s) i).phase) at
        ∙ (ap (λ y. y.phase) (get_or-set_self s.consumers c x new_consumer h)
            ∙ (same ∙ ap (λ i. (consumer s i).phase) (sym at)))
    | inr e ↦ ap (λ y. y.phase) (get_or-set_ne s.consumers c d x new_consumer (λ f. ground arith))
  ];
}

pub local-Moves :
    (c extra t : ℕ) (x : TaskConsumer) (s : System)
    → c < length s.consumers
    → x.phase ≡ (consumer s c).phase
    → in_consumer t x ≡ in_consumer t (consumer s c) + extra
    → Moves extra s (put_consumer c x s) t
local-Moves c extra t x s h same more =
    same_tasks-Moves extra s (put_consumer c x s) t refl refl
      (let same_runs : runs t x ≡ runs t (consumer s c) = ap (λ p. runs_in t p) same in
        omega (arith, same_runs, sum_by-set (runs t) s.consumers c x new_consumer h))
      (omega (arith, more, sum_by-set (in_consumer t) s.consumers c x new_consumer h))
      (put_consumer-Grows c x s h same)

sorted_count : (b : Bool) (t : ℕ) (xs : List ℕ) → count t (if b then sort xs else xs) ≡ count t xs
sorted_count true t xs = count-sort t xs
sorted_count false t xs = refl

pub rescue_local-Moves :
    (c t : ℕ) (queue : List ℕ) (b : Bool) (s : System)
    → c < length s.consumers
    → Moves (count t queue) s (rescue_local c queue b s) t
unfolding rescue_local
rescue_local-Moves c t [] b s h = same-Moves t s
rescue_local-Moves c t (u ∷ queue) b s h =
    let x = consumer s c in
    let spliced = (u ∷ queue) ++ x.m_local_queue in
    local-Moves c (count t (u ∷ queue)) t
      (record x { m_local_queue = if b then sort spliced else spliced }) s h refl
      (omega (arith, sorted_count b t spliced, count-append t queue x.m_local_queue))

-- A write of a task that keeps its flags, with the call after it that moves what waited.
pub write-Moves :
    (extra k t u : ℕ) (v : TaskState) (s r : System)
    → u < length s.tasks
    → KeepsFlags (task s u) v
    → in_post t v + extra ≡ in_post t (task s u) + k
    → Moves extra (put_task u v s) r t
    → Moves k s r t
write-Moves extra k t u v s r h keeps post m =
    let w = kept-OtherWrite t u v s h keeps in
    record {
      placed = omega (arith, m.placed, w.places_is, w.rescued_is, post);
      kept = omega (arith, m.kept, w.places_is, post);
      run_now_is = omega (arith, m.run_now_is, w.run_now_is);
      is_running_is = omega (arith, m.is_running_is, w.is_running_is);
      run_again_is = omega (arith, m.run_again_is, w.run_again_is);
      runners_is = m.runners_is;
      cancelled_is = m.cancelled_is;
      grows = record {
        tasks_grow = omega (arith, m.grows.tasks_grow, length-set s.tasks u v);
        consumers_grow = m.grows.consumers_grow;
        same_phase = m.grows.same_phase;
      };
    }

pub put_task-Moves :
    (extra t u : ℕ) (v : TaskState) (s : System)
    → u < length s.tasks
    → KeepsFlags (task s u) v
    → in_post t v ≡ in_post t (task s u) + extra
    → Moves extra s (put_task u v s) t
put_task-Moves extra t u v s h keeps post =
    write-Moves 0 extra t u v s (put_task u v s) h keeps (omega (arith, post))
      (same-Moves t (put_task u v s))
