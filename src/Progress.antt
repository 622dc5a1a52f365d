-- ===== src/Progress.antt =====
-- ProgressTracker (include/crucible/progress.h), with numbers for its states and for the addresses of
-- its holders. m_in_progress is the std::set's content in order.
pub mod Checkpoint
mod Tests
use bees.Base.{
  ℕ, Bool, true, false, ◌&&◌, ◌||◌, List, [], ◌∷◌, max, ltb, ◌==◌, if◌then◌else◌, Outcome, ok,
  throw, runtime_error, assertion_failure, ◌>>=◌, ◌>>◌, throw_check,
}

-- key_type: the value, and the holder that stands at it.
pub record HolderKey : Type 0 where
  pub m_value : ℕ
  pub holder : ℕ

pub record Tracker : Type 0 where
  pub m_in_progress : List HolderKey
  pub m_begin : ℕ
  pub m_end : ℕ

-- The order of std::pair.
abbrev pub key_lt : HolderKey → HolderKey → Bool
key_lt a b = ltb a.m_value b.m_value || ((a.m_value == b.m_value) && ltb a.holder b.holder)

abbrev pub key_eq : HolderKey → HolderKey → Bool
key_eq a b = (a.m_value == b.m_value) && (a.holder == b.holder)

-- set::insert: the new set, and whether the key was new.
unfoldable pub insert : HolderKey → List HolderKey → List HolderKey × Bool
insert k [] = (k ∷ [], true)
insert k (x ∷ xs) =
    let rest = insert k xs in
    if key_lt k x
    then (k ∷ x ∷ xs, true)
    else if key_eq k x
    then (x ∷ xs, false)
    else (x ∷ rest.0, rest.1)

-- set::erase: the new set, and the number of keys erased.
unfoldable pub erase : HolderKey → List HolderKey → List HolderKey × ℕ
erase k [] = ([], 0)
erase k (x ∷ xs) = let rest = erase k xs in if key_eq k x then (xs, 1) else (x ∷ rest.0, rest.1)

abbrev pub first_value : ℕ → List HolderKey → ℕ
first_value d [] = d
first_value d (x ∷ xs) = x.m_value

abbrev pub new_tracker : ℕ → Tracker
new_tracker t = record { m_in_progress = []; m_begin = t; m_end = t }

-- The constructor of a holder.
unfoldable pub hold : HolderKey → Tracker → Outcome Tracker
hold k t = do
  let rv = insert k t.m_in_progress
  throw_check runtime_error rv.1
  ok (record {
    m_in_progress = rv.0;
    m_begin = first_value t.m_begin rv.0;
    m_end = if ltb t.m_end k.m_value then k.m_value else t.m_end;
  })

-- Its destructor.
unfoldable pub release : HolderKey → Tracker → Outcome Tracker
release k t = do
  let rv = erase k t.m_in_progress
  throw_check assertion_failure (rv.1 == 1)
  ok (record t { m_in_progress = rv.0; m_begin = first_value t.m_end rv.0 })
