-- ===== src/Cache.antt =====
-- LRUCache (include/crucible/cache.h), with numbers for keys and results. The iterators that m_map
-- keeps are the numbers of the list's nodes.
pub mod Coherent
pub mod Used
pub mod Use
pub mod Expire
mod Tests
use bees.Base.{
  ℕ, ◌+◌, ◌-◌, Bool, true, false, not, Option, none, some, List, [], ◌∷◌, ◌++◌, leb, ◌==◌,
  if◌then◌else◌, Outcome, ok, throw, runtime_error, ◌>>=◌, ◌>>◌, throw_check,
}

-- A node of m_list: its place in memory, and the Value.
pub record Node : Type 0 where
  pub node : ℕ
  pub key : ℕ
  pub ret : ℕ

-- m_list has the cold end first; node_count numbers the next node.
pub record Cache : Type 0 where
  pub m_list : List Node
  pub m_map : ℕ → Option ℕ
  pub map_size : ℕ
  pub m_max_size : ℕ
  pub node_count : ℕ

abbrev pub is_some : Option ℕ → Bool
is_some none = false
is_some (some x) = true

-- map::erase
unfoldable pub map_erase : ℕ → Cache → Cache
map_erase k c = record c {
  m_map = λ x. if x == k then none else c.m_map x;
  map_size = if is_some (c.m_map k) then c.map_size - 1 else c.map_size;
}

-- map::insert: what is there stays.
unfoldable pub map_insert : ℕ → ℕ → Cache → Cache × Bool
map_insert k n c = if is_some (c.m_map k) then (c, false) else (
  record c { m_map = λ x. if x == k then some n else c.m_map x; map_size = c.map_size + 1 },
  true,
)

-- list::erase of a node.
abbrev pub without : ℕ → List Node → List Node
without n [] = []
without n (x ∷ xs) = let rest = without n xs in if n == x.node then xs else x ∷ rest

abbrev pub node_at : ℕ → List Node → Option Node
node_at n [] = none
node_at n (x ∷ xs) = if n == x.node then some x else node_at n xs

unfoldable pub erase_key : ℕ → Cache → Cache
unfolding map_erase
erase_key k c = elim (c.m_map k) [
  | none ↦ c
  | some n ↦ record (map_erase k c) { m_list = without n c.m_list }
]

-- The loop erases the first node until there is room or the list is empty.
unfoldable pub overflow : List Node → Cache → Cache
unfolding map_erase
overflow [] c = record c { m_list = [] }
overflow (x ∷ xs) c =
    let rest = overflow xs (map_erase x.key c) in
    if leb c.m_max_size c.map_size then rest else record c { m_list = x ∷ xs }

unfoldable pub check_overflow : Cache → Cache
check_overflow c = overflow c.m_list c

-- list::splice to the hot end.
unfoldable pub recent_use : ℕ → Cache → Cache
recent_use n c = elim (node_at n c.m_list) [
  | none ↦ c
  | some x ↦ record c { m_list = without n c.m_list ++ x ∷ [] }
]

-- The first look for the key.
unfoldable pub find_item : ℕ → Cache → Option (Cache × Outcome ℕ)
unfolding recent_use
find_item k c = elim (c.m_map k) [
  | none ↦ none
  | some n ↦
      some (
        recent_use n c,
        elim (node_at n c.m_list) [ none ↦ throw runtime_error | some x ↦ ok x.ret ],
      )
]

-- After the function has returned, with the cache lock taken again.
unfoldable pub finish_insert : ℕ → ℕ → Cache → Outcome (Cache × ℕ)
finish_insert k ret c = do
  let d = check_overflow c
  let new : Node = record { node = d.node_count; key = k; ret = ret }
  let rv =
      map_insert k d.node_count
        (record d { m_list = d.m_list ++ new ∷ []; node_count = d.node_count + 1 })
  throw_check runtime_error rv.1
  ok (rv.0, ret)

-- A call of a thread that no other call interrupts: the lookup under the key lock finds what the
-- first one did.
unfoldable pub insert_item : (ℕ → Outcome ℕ) → ℕ → Cache → Outcome (Cache × ℕ)
insert_item fn k c = elim (find_item k c) [
  | some (d, found) ↦ do ret ← found; ok (d, ret)
  | none ↦ do ret ← fn k; finish_insert k ret c
]

unfoldable pub set_max_size : ℕ → Cache → Cache
set_max_size n c = check_overflow (record c { m_max_size = n })

abbrev pub clear : Cache → Cache
clear c = record c { m_list = []; m_map = λ k. none; map_size = 0 }

unfoldable pub expire : ℕ → Cache → Cache
expire k c = erase_key k c

unfoldable pub refresh : (ℕ → Outcome ℕ) → ℕ → Cache → Outcome (Cache × ℕ)
refresh fn k c = insert_item fn k (expire k c)

unfoldable pub insert : ℕ → ℕ → Cache → Outcome (Cache × ℕ)
insert ret k c = insert_item (λ _. ok ret) k c

abbrev pub new_cache : ℕ → Cache
new_cache n = record {
  m_list = [];
  m_map = λ k. none;
  map_size = 0;
  m_max_size = n;
  node_count = 0;
}
