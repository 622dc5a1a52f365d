-- ===== src/LockSet.antt =====
-- LockSet (include/crucible/lockset.h): named locks for threads, with numbers for names and threads.
-- A call that waits on the condition variable gives none, and is tried again after a change.
pub mod Exclusion
pub mod History
mod Tests
use bees.Base.{
  ℕ, ◌+◌, Bool, true, false, not, ◌||◌, Option, none, some, List, [], ◌∷◌, length, leb, ◌==◌,
  if◌then◌else◌, Outcome, ok, invalid_argument, runtime_error, ◌>>=◌, ◌>>◌, throw_check,
}

-- m_set maps a name to the thread that locked it.
pub record LockSet : Type 0 where
  pub m_set : List (ℕ × ℕ)
  pub m_max_size : ℕ

abbrev pub has_name : ℕ → List (ℕ × ℕ) → Bool
has_name name [] = false
has_name name (x ∷ xs) = (name == x.0) || has_name name xs

-- map::insert: what is there stays.
abbrev pub map_insert : ℕ → ℕ → List (ℕ × ℕ) → List (ℕ × ℕ) × Bool
map_insert name tid xs = if has_name name xs then (xs, false) else ((name, tid) ∷ xs, true)

-- map::erase, with the number of entries erased.
abbrev pub map_erase : ℕ → List (ℕ × ℕ) → List (ℕ × ℕ) × ℕ
map_erase name [] = ([], 0)
map_erase name (x ∷ xs) =
    let rest = map_erase name xs in if name == x.0 then (xs, 1) else (x ∷ rest.0, rest.1)

unfoldable pub full : LockSet → Bool
full s = leb s.m_max_size (length s.m_set)

unfoldable pub locked : ℕ → LockSet → Bool
locked name s = has_name name s.m_set

abbrev pub max_size : ℕ → LockSet → LockSet
max_size n s = record s { m_max_size = n }

-- One pass of the loop of lock().
unfoldable pub lock_set : ℕ → ℕ → LockSet → Outcome (Option LockSet)
unfolding full locked
lock_set tid name s = if full s || locked name s then ok none else (do
  let rv = map_insert name tid s.m_set
  throw_check runtime_error rv.1
  ok (some (record s { m_set = rv.0 })))

unfoldable pub try_lock_set : ℕ → ℕ → LockSet → Outcome (LockSet × Bool)
unfolding full locked
try_lock_set tid name s = if full s || locked name s then ok (s, false) else (do
  let rv = map_insert name tid s.m_set
  throw_check runtime_error rv.1
  ok (record s { m_set = rv.0 }, true))

unfoldable pub unlock_set : ℕ → LockSet → Outcome LockSet
unlock_set name s = do
  let rv = map_erase name s.m_set
  throw_check invalid_argument (rv.1 == 1)
  ok (record s { m_set = rv.0 })

-- LockSet::Lock
pub record Lock : Type 0 where
  pub m_name : ℕ
  pub m_locked : Bool

unfoldable pub lock : ℕ → LockSet × Lock → Outcome (Option (LockSet × Lock))
unfolding lock_set
lock tid (s, l) = if l.m_locked then ok (some (s, l)) else (do
  r ← lock_set tid l.m_name s
  ok (elim r [ none ↦ none | some t ↦ some (t, record l { m_locked = true }) ]))

unfoldable pub try_lock : ℕ → LockSet × Lock → Outcome (LockSet × Lock)
unfolding try_lock_set
try_lock tid (s, l) =
    if l.m_locked
    then ok (s, l)
    else (do r ← try_lock_set tid l.m_name s; ok (r.0, record l { m_locked = r.1 }))

unfoldable pub unlock : LockSet × Lock → Outcome (LockSet × Lock)
unfolding unlock_set
unlock (s, l) =
    if not l.m_locked
    then ok (s, l)
    else (do t ← unlock_set l.m_name s; ok (t, record l { m_locked = false }))

-- The destructor of a Lock.
unfoldable pub destroy : LockSet × Lock → Outcome LockSet
unfolding unlock
destroy (s, l) = if l.m_locked then (do r ← unlock (s, l); ok r.0) else ok s

abbrev pub new_lock : ℕ → Lock
new_lock name = record { m_name = name; m_locked = false }
