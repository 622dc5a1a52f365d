-- ===== src/Task/Clearing.antt =====
-- Clearing a queue of the scheduler (lib/task.cc) reaches every task that waits behind it.
use bees.Base.{
  ℕ, zero, suc, ◌+◌, ◌≤◌, ◌≡◌, ◌⊎◌, refl, ap, sym, ◌∙◌, inl, inr, List, [], ◌∷◌, ◌++◌, All, length,
  length-append, get_or, set, get_or-set_ne, sum_by, count, num, arith, ◌==◌, ==_iff, Bool-cases,
}
use mathlib.Core.Path.{subst}
use bees.Task.{TaskState, new_task}
use bees.Task.Queue.{clear_queue, clear_fuel, post_count}

abbrev pub post : List TaskState → ℕ → List ℕ
post ts t = (get_or ts t new_task).m_post_exec_queue

abbrev emptied : List TaskState → ℕ → List TaskState
emptied ts t = set ts t (record (get_or ts t new_task) { m_post_exec_queue = [] })

emptied_self : (ts : List TaskState) (t : ℕ) → post (emptied ts t) t ≡ []
emptied_self [] t = refl
emptied_self (x ∷ ts) zero = refl
emptied_self (x ∷ ts) (suc t) = emptied_self ts t

emptied_keeps : (ts : List TaskState) (t u : ℕ) → post ts u ≡ [] → post (emptied ts t) u ≡ []
emptied_keeps [] t u h = refl
emptied_keeps (x ∷ ts) zero zero h = refl
emptied_keeps (x ∷ ts) zero (suc u) h = h
emptied_keeps (x ∷ ts) (suc t) zero h = h
emptied_keeps (x ∷ ts) (suc t) (suc u) h = emptied_keeps ts t u h

emptied_count :
    (ts : List TaskState) (t : ℕ)
    → sum_by post_count (emptied ts t) + length (post ts t) ≤ sum_by post_count ts
emptied_count [] t = omega arith
emptied_count (x ∷ ts) zero = omega arith
emptied_count (x ∷ ts) (suc t) = omega (arith, emptied_count ts t)

-- What is empty stays empty.
clear_queue-empty :
    (n u : ℕ) (tq : List ℕ) (ts : List TaskState)
    → post ts u ≡ []
    → post (clear_queue n tq ts) u ≡ []
unfolding clear_queue
clear_queue-empty zero u tq ts h = h
clear_queue-empty (suc n) u [] ts h = h
clear_queue-empty (suc n) u (t ∷ tq) ts h =
    clear_queue-empty n u (post ts t ++ tq) (emptied ts t) (emptied_keeps ts t u h)

-- The tasks whose queue is empty after clearing.
abbrev Emptied : List TaskState → List ℕ → Type 0
Emptied ts = All (λ t. post ts t ≡ [])

All-split :
    (ts : List TaskState) (xs ys : List ℕ) → Emptied ts (xs ++ ys) → Emptied ts xs × Emptied ts ys
All-split ts [] ys h = (tt, h)
All-split ts (x ∷ xs) ys h = let (a, b) = All-split ts xs ys h.1 in ((h.0, a), b)

record Emptying (before after : List TaskState) (tq : List ℕ) : Type 0 where
  listed : Emptied after tq
  behind : (t : ℕ) → (post after t ≡ post before t) ⊎ Emptied after (post before t)

clear_queue-Emptying :
    (n : ℕ) (tq : List ℕ) (ts : List TaskState)
    → clear_fuel tq ts ≤ n
    → Emptying ts (clear_queue n tq ts) tq
unfolding clear_queue
clear_queue-Emptying zero [] ts h = record { listed = tt; behind = λ t. inl refl }
clear_queue-Emptying zero (t ∷ tq) ts h = absurd (omega arith)
clear_queue-Emptying (suc n) [] ts h = record { listed = tt; behind = λ t. inl refl }
clear_queue-Emptying (suc n) (t ∷ tq) ts h =
    let rest =
      clear_queue-Emptying n (post ts t ++ tq) (emptied ts t)
        (omega (arith, h, emptied_count ts t, length-append (post ts t) tq)) in
    let after = clear_queue n (post ts t ++ tq) (emptied ts t) in
    let (waiting, others) = All-split after (post ts t) tq rest.listed in
    record {
      listed = (clear_queue-empty n t (post ts t ++ tq) (emptied ts t) (emptied_self ts t), others);
      behind = λ u. elim (Bool-cases (u == t)) [
        | inl e ↦ inr (subst (λ v. Emptied after (post ts v)) (sym ((==_iff u t).0 e)) waiting)
        | inr e ↦
            let same : post (emptied ts t) u ≡ post ts u =
              ap (λ x. x.m_post_exec_queue)
                (get_or-set_ne ts t u (record (get_or ts t new_task) { m_post_exec_queue = [] })
                  new_task (λ f. ground arith)) in
            subst (λ q. (post after u ≡ q) ⊎ Emptied after q) same (rest.behind u)
      ];
    }

-- The tasks that wait for a task, or for one that waits for it.
pub data Waits (ts : List TaskState) : ℕ → ℕ → Type 0 where
  waits : (t u : ℕ) → 1 ≤ count u (post ts t) → Waits ts t u
  waits_behind : (t v u : ℕ) → 1 ≤ count v (post ts t) → Waits ts v u → Waits ts t u

All-count : (P : ℕ → Type 0) (u : ℕ) (xs : List ℕ) → All P xs → 1 ≤ count u xs → P u
All-count P u [] h m = absurd (omega arith)
All-count P u (x ∷ xs) h m = elim (Bool-cases (u == x)) [
  | inl e ↦ subst P (sym ((==_iff u x).0 e)) h.0
  | inr e ↦ All-count P u xs h.1 (omega (arith, m, ap num e))
]

next_empty :
    (ts after : List TaskState) (tq : List ℕ) (t u : ℕ)
    → Emptying ts after tq
    → post after t ≡ []
    → 1 ≤ count u (post ts t)
    → post after u ≡ []
next_empty ts after tq t u e h m = elim (e.behind t) [
  | inl same ↦ absurd (omega (arith, m, ap (count u) (sym same ∙ h)))
  | inr all ↦ All-count (λ x. post after x ≡ []) u (post ts t) all m
]

-- A task whose queue was cleared has cleared what waits for it.
behind_empty :
    (ts after : List TaskState) (tq : List ℕ) (t u : ℕ)
    → Emptying ts after tq
    → post after t ≡ []
    → Waits ts t u
    → post after u ≡ []
behind_empty ts after tq t u e h (waits _ _ m) = next_empty ts after tq t u e h m
behind_empty ts after tq t u e h (waits_behind _ v _ m w) =
    behind_empty ts after tq v u e (next_empty ts after tq t v e h m) w

-- With fuel for every task of the queue and every task that waits, clear_queue ends with the queue
-- done: no task waits behind a task of the queue any more, nor behind one that waited for it,
-- directly or not.
pub clear_queue_lem :
    (n t u : ℕ) (tq : List ℕ) (ts : List TaskState)
    → clear_fuel tq ts ≤ n
    → 1 ≤ count t tq
    → Waits ts t u
    → (post (clear_queue n tq ts) t ≡ []) × (post (clear_queue n tq ts) u ≡ [])
clear_queue_lem n t u tq ts h m w =
    let e = clear_queue-Emptying n tq ts h in
    let at = All-count (λ x. post (clear_queue n tq ts) x ≡ []) t tq e.listed m in
    (at, behind_empty ts (clear_queue n tq ts) tq t u e at w)
