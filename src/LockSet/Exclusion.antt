-- ===== src/LockSet/Exclusion.antt =====
-- Two locks of one name are never held at once (include/crucible/lockset.h).
use bees.Base.{
  ℕ, ◌+◌, ◌≤◌, ◌≡◌, ◌⊎◌, inl, inr, refl, Bool, true, false, Option, none, some, List, [], ◌∷◌, ◌++◌,
  length, arith, leb, leb→le, ◌==◌, ==_iff, if◌then◌else◌, Returns, Bool-cases,
}
use bees.LockSet.{
  LockSet, has_name, map_erase, full, locked, lock_set, try_lock_set, unlock_set, Lock, lock,
  try_lock, unlock,
}

-- How often the set has a name, and how many locks of a name are locked.
abbrev pub entries : ℕ → List (ℕ × ℕ) → ℕ
entries name [] = 0
entries name (x ∷ xs) = (if name == x.0 then 1 else 0) + entries name xs

abbrev pub held_by : ℕ → Lock → ℕ
held_by name l = if l.m_locked then (if name == l.m_name then 1 else 0) else 0

abbrev pub holders : ℕ → List Lock → ℕ
holders name [] = 0
holders name (l ∷ ls) = held_by name l + holders name ls

-- The set and the locks that use it.
abbrev pub System : Type 0
System = LockSet × List Lock

-- Each name is in the set once for each lock that holds it, which is at most once.
pub record IsSystem (s : System) : Type 0 where
  pub tracked : (name : ℕ) → entries name s.0.m_set ≡ holders name s.1
  pub exclusive : (name : ℕ) → entries name s.0.m_set ≤ 1

pub holders-append :
    (name : ℕ) (ls ms : List Lock) → holders name (ls ++ ms) ≡ holders name ls + holders name ms
holders-append name [] ms = omega arith
holders-append name (l ∷ ls) ms = rw (holders-append name ls ms) (omega arith)

has_name-entries : (name : ℕ) (xs : List (ℕ × ℕ)) → has_name name xs ≡ false → entries name xs ≡ 0
has_name-entries name [] h = refl
has_name-entries name (x ∷ xs) h = ground (arith, has_name-entries name xs)

erase_entries :
    (name : ℕ) (xs : List (ℕ × ℕ))
    → 1 ≤ entries name xs
    → ((map_erase name xs).1 ≡ 1)
      × ((n : ℕ) → entries n (map_erase name xs).0 + (if n == name then 1 else 0) ≡ entries n xs)
erase_entries name [] h = absurd (omega arith)
erase_entries name (x ∷ xs) h = elim (Bool-cases (name == x.0)) [
  | inl e ↦ let same = (==_iff name x.0).0 e in rw e (refl, λ n. ground arith)
  | inr e ↦
      let (one, others) = erase_entries name xs (ground arith) in
      rw e (one, λ n. let o = others n in omega arith)
]

-- What a call on one lock does to the set and the lock.
pub record Effect (s : LockSet) (l : Lock) (t : LockSet) (m : Lock) : Type 0 where
  pub balance :
      (name : ℕ) → entries name t.m_set + held_by name l ≡ entries name s.m_set + held_by name m
  pub exclusive : (name : ℕ) → entries name t.m_set ≤ 1

-- What a call relies on.
pub record Ready (s : LockSet) (l : Lock) : Type 0 where
  pub tracked : (name : ℕ) → held_by name l ≤ entries name s.m_set
  pub exclusive : (name : ℕ) → entries name s.m_set ≤ 1

pub same-Effect : (s : LockSet) (l : Lock) → Ready s l → Effect s l s l
same-Effect s l r = record { balance = λ name. refl; exclusive = r.exclusive }

abbrev pub lock_at : ℕ → Bool → Lock
lock_at name held = record { m_name = name; m_locked = held }

-- Taking a name that the set does not have.
take-Effect :
    (tid name : ℕ) (s : LockSet)
    → Ready s (lock_at name false)
    → has_name name s.m_set ≡ false
    → Effect s (lock_at name false) (record s { m_set = (name, tid) ∷ s.m_set }) (lock_at name true)
take-Effect tid name s r h = record {
  balance = λ n. omega arith;
  exclusive = λ n. let e = has_name-entries name s.m_set h in let x = r.exclusive n in ground arith;
}

pub try_lock-Effect :
    (tid name : ℕ) (held : Bool) (s : LockSet)
    → Ready s (lock_at name held)
    → Returns
        (try_lock tid (s, lock_at name held))
        (λ (t, m). Effect s (lock_at name held) t m × (m.m_name ≡ name))
unfolding try_lock try_lock_set full locked
try_lock-Effect tid name true s r = (same-Effect s (lock_at name true) r, refl)
try_lock-Effect tid name false s r = elim (Bool-cases (has_name name s.m_set)) [
  | inl e ↦ elim (Bool-cases (leb s.m_max_size (length s.m_set))) [
    | inl f ↦ rw (e, f) (same-Effect s (lock_at name false) r, refl)
    | inr f ↦ rw (e, f) (same-Effect s (lock_at name false) r, refl)
  ]
  | inr e ↦ elim (Bool-cases (leb s.m_max_size (length s.m_set))) [
    | inl f ↦ rw (e, f) (same-Effect s (lock_at name false) r, refl)
    | inr f ↦ rw (e, f) (take-Effect tid name s r e, refl)
  ]
]

-- What lock leaves, where it does not wait.
abbrev pub Taken : ℕ → LockSet → Lock → Option (LockSet × Lock) → Type 0
Taken name s l none = (has_name name s.m_set ≡ true) ⊎ (s.m_max_size ≤ length s.m_set)
Taken name s l (some (t, m)) = Effect s l t m × (m ≡ lock_at name true)

pub lock-Effect :
    (tid name : ℕ) (held : Bool) (s : LockSet)
    → Ready s (lock_at name held)
    → Returns (lock tid (s, lock_at name held)) (Taken name s (lock_at name held))
unfolding lock lock_set full locked
lock-Effect tid name true s r = (same-Effect s (lock_at name true) r, refl)
lock-Effect tid name false s r = elim (Bool-cases (has_name name s.m_set)) [
  | inl e ↦ elim (Bool-cases (leb s.m_max_size (length s.m_set))) [
    | inl f ↦ rw (e, f) (inl e)
    | inr f ↦ rw (e, f) (inl e)
  ]
  | inr e ↦ elim (Bool-cases (leb s.m_max_size (length s.m_set))) [
    | inl f ↦ rw (e, f) (inr (leb→le s.m_max_size (length s.m_set) f))
    | inr f ↦ rw (e, f) (take-Effect tid name s r e, refl)
  ]
]

pub unlock-Effect :
    (name : ℕ) (held : Bool) (s : LockSet)
    → Ready s (lock_at name held)
    → Returns
        (unlock (s, lock_at name held))
        (λ (t, m). Effect s (lock_at name held) t m × (m ≡ lock_at name false))
unfolding unlock unlock_set
unlock-Effect name false s r = (same-Effect s (lock_at name false) r, refl)
unlock-Effect name true s r =
    let h = r.tracked name in
    let (one, others) = erase_entries name s.m_set (ground arith) in
    rw one (
      record {
        balance = λ n. let o = others n in omega arith;
        exclusive = λ n. let o = others n in let x = r.exclusive n in omega arith;
      },
      refl,
    )
