-- ===== src/LockSet/History.antt =====
-- The locks of a LockSet (include/crucible/lockset.h) in the hands of several threads.
use bees.Base.{
  ℕ, ◌≡◌, ◌≢◌, refl, Bool, true, false, some, List, [], ◌∷◌, ◌++◌, arith, Outcome, ok, throw,
  Returns, Returns-mono, ◌>>=◌,
}
use mathlib.Core.Path.{subst}
use bees.LockSet.{LockSet, Lock, lock, try_lock, unlock, destroy, new_lock, max_size}
use bees.LockSet.Exclusion.{
  System, IsSystem, held_by, holders-append, Effect, Ready, same-Effect, lock_at, Taken,
  try_lock-Effect, lock-Effect, unlock-Effect,
}

-- One call of one thread; a call of lock that waits is no step.
pub data Step : System → System → Type 0 where
  creates : (s : LockSet) (name : ℕ) (ls : List Lock) → Step (s, ls) (s, new_lock name ∷ ls)
  resizes : (s : LockSet) (n : ℕ) (ls : List Lock) → Step (s, ls) (max_size n s, ls)
  locks :
      (tid : ℕ) (s t : LockSet) (l m : Lock) (before after : List Lock)
      → lock tid (s, l) ≡ ok (some (t, m))
      → Step (s, before ++ l ∷ after) (t, before ++ m ∷ after)
  tries :
      (tid : ℕ) (s t : LockSet) (l m : Lock) (before after : List Lock)
      → try_lock tid (s, l) ≡ ok (t, m)
      → Step (s, before ++ l ∷ after) (t, before ++ m ∷ after)
  unlocks :
      (s t : LockSet) (l m : Lock) (before after : List Lock)
      → unlock (s, l) ≡ ok (t, m)
      → Step (s, before ++ l ∷ after) (t, before ++ m ∷ after)
  destroys :
      (s t : LockSet) (l : Lock) (before after : List Lock)
      → destroy (s, l) ≡ ok t
      → Step (s, before ++ l ∷ after) (t, before ++ after)

-- What the threads can make of an empty set without locks.
pub data Reachable : System → Type 0 where
  starts : (n : ℕ) → Reachable (record { m_set = []; m_max_size = n }, [])
  steps : (s t : System) → Reachable s → Step s t → Reachable t

Ready-middle :
    (s : LockSet) (l : Lock) (before after : List Lock)
    → IsSystem (s, before ++ l ∷ after)
    → Ready s l
Ready-middle s l before after i = record {
  tracked = λ name. omega (arith, i.tracked name, holders-append name before (l ∷ after));
  exclusive = i.exclusive;
}

-- An effect on one lock, in the midst of the others.
Effect-IsSystem :
    (s t : LockSet) (l m : Lock) (before after : List Lock)
    → IsSystem (s, before ++ l ∷ after)
    → Effect s l t m
    → IsSystem (t, before ++ m ∷ after)
Effect-IsSystem s t l m before after i e = record {
  tracked = λ name. omega (
    arith,
    i.tracked name,
    e.balance name,
    holders-append name before (l ∷ after),
    holders-append name before (m ∷ after),
  );
  exclusive = e.exclusive;
}

-- The locks that a destructor leaves.
drop-IsSystem :
    (t : LockSet) (name : ℕ) (before after : List Lock)
    → IsSystem (t, before ++ lock_at name false ∷ after)
    → IsSystem (t, before ++ after)
drop-IsSystem t name before after i = record {
  tracked = λ n. omega (
    arith,
    i.tracked n,
    holders-append n before (lock_at name false ∷ after),
    holders-append n before after,
  );
  exclusive = i.exclusive;
}

destroy-Effect :
    (name : ℕ) (held : Bool) (s : LockSet)
    → Ready s (lock_at name held)
    → Returns
        (destroy (s, lock_at name held))
        (λ t. Effect s (lock_at name held) t (lock_at name false))
unfolding destroy
destroy-Effect name false s r = same-Effect s (lock_at name false) r
destroy-Effect name true s r = go (unlock (s, lock_at name true)) (unlock-Effect name true s r)
  where
    go :
        (o : Outcome (LockSet × Lock))
        → Returns o (λ (t, m). Effect s (lock_at name true) t m × (m ≡ lock_at name false))
        → Returns (o >>= λ x. ok x.0) (λ t. Effect s (lock_at name true) t (lock_at name false))
    go (ok (t, m)) (e, f) = subst (Effect s (lock_at name true) t) f e
    go (throw x) h = absurd h

pub Step-IsSystem : (s t : System) → Step s t → IsSystem s → IsSystem t
Step-IsSystem _ _ (creates s name ls) i = record {
  tracked = λ n. omega (arith, i.tracked n);
  exclusive = i.exclusive;
}
Step-IsSystem _ _ (resizes s n ls) i = record { tracked = i.tracked; exclusive = i.exclusive }
Step-IsSystem _ _ (locks tid s t l m before after e) i =
    let r = Ready-middle s l before after i in
    let h =
      subst (λ o. Returns o (Taken l.m_name s l)) e (lock-Effect tid l.m_name l.m_locked s r) in
    Effect-IsSystem s t l m before after i h.0
Step-IsSystem _ _ (tries tid s t l m before after e) i =
    let r = Ready-middle s l before after i in
    let h =
      subst (λ o. Returns o (λ (t, m). Effect s l t m × (m.m_name ≡ l.m_name))) e
        (try_lock-Effect tid l.m_name l.m_locked s r) in
    Effect-IsSystem s t l m before after i h.0
Step-IsSystem _ _ (unlocks s t l m before after e) i =
    let r = Ready-middle s l before after i in
    let h =
      subst (λ o. Returns o (λ (t, m). Effect s l t m × (m ≡ lock_at l.m_name false))) e
        (unlock-Effect l.m_name l.m_locked s r) in
    Effect-IsSystem s t l m before after i h.0
Step-IsSystem _ _ (destroys s t l before after e) i =
    let r = Ready-middle s l before after i in
    let h =
      subst (λ o. Returns o (λ t. Effect s l t (lock_at l.m_name false))) e
        (destroy-Effect l.m_name l.m_locked s r) in
    drop-IsSystem t l.m_name before after
      (Effect-IsSystem s t l (lock_at l.m_name false) before after i h)

pub Reachable-IsSystem : (s : System) → Reachable s → IsSystem s
Reachable-IsSystem _ (starts n) = record { tracked = λ name. refl; exclusive = λ name. omega arith }
Reachable-IsSystem _ (steps s t r h) = Step-IsSystem s t h (Reachable-IsSystem s r)

held_by_self : (n : ℕ) (l : Lock) → l.m_locked ≡ true → n ≡ l.m_name → held_by n l ≡ 1
held_by_self n l a e = ground arith

-- Whatever the threads do, no two locks of one name are locked at once.
pub mutual_exclusion :
    (s : LockSet) (l m : Lock) (before between after : List Lock)
    → Reachable (s, before ++ l ∷ (between ++ m ∷ after))
    → l.m_locked ≡ true
    → m.m_locked ≡ true
    → l.m_name ≢ m.m_name
mutual_exclusion s l m before between after r a b same =
    let i = Reachable-IsSystem _ r in
    let n = l.m_name in
    let x : held_by n l ≡ 1 = held_by_self n l a refl in
    let y : held_by n m ≡ 1 = held_by_self n m b same in
    omega (
      arith,
      i.tracked n,
      i.exclusive n,
      holders-append n before (l ∷ (between ++ m ∷ after)),
      holders-append n between (m ∷ after),
    )

-- Whatever the threads have done, unlock of a lock returns with the lock unlocked, and the set
-- still has each name once for the lock that holds it.
pub unlock-Returns :
    (s : LockSet) (l : Lock) (before after : List Lock)
    → Reachable (s, before ++ l ∷ after)
    → Returns
        (unlock (s, l))
        (λ (t, m). IsSystem (t, before ++ m ∷ after) × (m ≡ lock_at l.m_name false))
unlock-Returns s l before after r =
    let i = Reachable-IsSystem _ r in
    Returns-mono (λ (t, m). Effect s l t m × (m ≡ lock_at l.m_name false))
      (λ (t, m). IsSystem (t, before ++ m ∷ after) × (m ≡ lock_at l.m_name false)) (unlock (s, l))
      (λ (t, m) (e, f). (Effect-IsSystem s t l m before after i e, f))
      (unlock-Effect l.m_name l.m_locked s (Ready-middle s l before after i))
