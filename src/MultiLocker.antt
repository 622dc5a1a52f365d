-- ===== src/MultiLocker.antt =====
-- MultiLocker (include/crucible/multilock.h, lib/multilock.cc): holders of one type exclude those of
-- every other type. Types are numbers for the source's strings.
pub mod OneType
mod Tests
use bees.Base.{
  ℕ, ◌+◌, ◌-◌, Bool, true, false, not, ◌&&◌, Option, none, some, List, [], ◌∷◌, ltb, ◌==◌,
  if◌then◌else◌, Outcome, ok, runtime_error, ◌>>=◌, ◌>>◌, throw_check,
}

-- m_counters, from a type to its counter.
abbrev pub Counters : Type 0
Counters = List (ℕ × ℕ)

-- LockHandle
pub record LockHandle : Type 0 where
  pub m_type : ℕ
  pub m_locked : Bool

unfoldable pub is_lock_available : ℕ → Counters → Bool
is_lock_available type [] = true
is_lock_available type (i ∷ is) =
    if not (i.1 == 0) && not (i.0 == type) then false else is_lock_available type is

-- map::insert of a counter of 0: what is there stays.
unfoldable pub insert_counter : ℕ → Counters → Counters
insert_counter type [] = (type, 0) ∷ []
insert_counter type (i ∷ is) =
    let rest = insert_counter type is in if type == i.0 then i ∷ is else i ∷ rest

abbrev pub counter_of : ℕ → Counters → ℕ
counter_of type [] = 0
counter_of type (i ∷ is) = if type == i.0 then i.1 else counter_of type is

-- An assignment to a counter that is there.
unfoldable pub set_counter : ℕ → ℕ → Counters → Counters
set_counter type n [] = []
set_counter type n (i ∷ is) =
    let rest = set_counter type n is in if type == i.0 then (i.0, n) ∷ is else i ∷ rest

unfoldable pub put_lock : ℕ → Counters → Outcome Counters
put_lock type c = do
  let d = insert_counter type c
  throw_check runtime_error (ltb 0 (counter_of type d))
  ok (set_counter type (counter_of type d - 1) d)

-- One pass of the loop: none where it waits, with the counters that it leaves.
unfoldable pub get_lock_private : ℕ → Counters → Counters × Option LockHandle
get_lock_private type c =
    let d = insert_counter type c in
    if is_lock_available type d
    then (
      set_counter type (counter_of type d + 1) d,
      some (record { m_type = type; m_locked = true }),
    )
    else (d, none)

-- The destructor of a handle.
unfoldable pub destroy : Counters × LockHandle → Outcome Counters
destroy (c, h) = if h.m_locked then put_lock h.m_type c else ok c
