-- ===== src/HashTable/Bucket.antt =====
-- The part of the BeesHashTable operations that works on the cells of one bucket
-- (src/bees-hash.cc). A pointer `p` into [er.first, er.second) is the index `p - er.first`.
pub mod Search
pub mod Move
pub mod Front
pub mod Random
pub mod Count
pub mod Erase
pub mod Verify
use bees.Base.{
  ℕ, zero, suc, ◌+◌, ◌-◌, Bool, true, false, not, ◌&&◌, ◌||◌, List, [], ◌∷◌, Option, none, some,
  ltb, leb, ◌==◌, if◌then◌else◌, length, get_or, set,
}
use bees.HashTable.{Cell, empty_cell, cell_eq}

-- std::find; the result is the length of the list where nothing is found.
unfoldable pub find : Cell → List Cell → ℕ
find c [] = 0
find c (x ∷ xs) = if cell_eq x c then 0 else suc (find c xs)

-- `while (dp > stop) *dp-- = *sp--` with dp = stop + n and sp = dp - 1.
unfoldable pub move_backward : ℕ → ℕ → List Cell → List Cell
move_backward stop zero xs = xs
move_backward stop (suc n) xs =
    move_backward stop n (set xs (stop + suc n) (get_or xs (stop + n) empty_cell))

-- The cells after an operation, what it returns, and whether it calls set_extent_dirty_locked.
pub record Pushed : Type 0 where
  pub cells : List Cell
  pub found : Bool
  pub dirty : Bool

-- erase_hash_addr
unfoldable pub erase : Cell → List Cell → Pushed
unfolding find
erase mv xs =
    let ip = find mv xs in
    if ltb ip (length xs)
    then record { cells = set xs ip empty_cell; found = true; dirty = true }
    else record { cells = xs; found = false; dirty = false }

-- "There is now a space at the front, insert there if different".
unfoldable pub put_front : Cell → Bool → List Cell → Pushed
put_front mv found xs =
    if cell_eq (get_or xs 0 empty_cell) mv
    then record { cells = xs; found = found; dirty = false }
    else record { cells = set xs 0 mv; found = found; dirty = true }

-- The `if (ip > er.first)` block: the last cell is overwritten if `ip` is the end.
unfoldable pub make_space : ℕ → List Cell → List Cell
unfolding move_backward
make_space ip xs =
    if ltb 0 ip
    then if ip == length xs then move_backward 0 (ip - 1) xs else move_backward 0 ip xs
    else xs

-- push_front_hash_addr
unfoldable pub push_front : Cell → List Cell → Pushed
unfolding find make_space put_front
push_front mv xs =
    let ip = find mv xs in
    let found = ltb ip (length xs) in
    let victim = if found then ip else find empty_cell xs in
    put_front mv found (make_space victim xs)

-- `for (ip = er.first + pos; ip < er.second; ++ip)`, over the `n` cells from `ip` on.
unfoldable pub empty_after : ℕ → ℕ → List Cell → Option ℕ
empty_after zero ip xs = none
empty_after (suc n) ip xs =
    if cell_eq (get_or xs ip empty_cell) empty_cell then some ip else empty_after n (suc ip) xs

-- `for (ip = er.first + pos - 1; ip >= er.first; --ip)`, over the `n` cells before index `n`.
unfoldable pub empty_before : ℕ → List Cell → Option ℕ
empty_before zero xs = none
empty_before (suc n) xs =
    if cell_eq (get_or xs n empty_cell) empty_cell then some n else empty_before n xs

-- Cases 3 to 5 of push_random_hash_addr: an empty cell behind `pos`, one before it, or eviction.
-- In the last case the loop is the same move_backward, with `ip = er.second - 1`.
unfoldable pub insert_random : Cell → ℕ → List Cell → List Cell
unfolding empty_after empty_before move_backward
insert_random mv pos xs = elim (empty_after (length xs - pos) pos xs) [
  | some ip ↦ set xs ip mv
  | none ↦ elim (empty_before pos xs) [
    | some ip ↦ set xs ip mv
    | none ↦ set (move_backward pos (length xs - 1 - pos) xs) pos mv
  ]
]

-- push_random_hash_addr, with the drawn position as an argument.
unfoldable pub push_random : Cell → ℕ → List Cell → Pushed
unfolding find move_backward insert_random
push_random mv pos xs =
    let ip = find mv xs in
    if ltb ip (length xs)
    then if ltb pos ip
      then record {
        cells = set (move_backward pos (ip - pos) xs) pos mv;
        found = true;
        dirty = true;
      }
      else record { cells = xs; found = true; dirty = false }
    else record { cells = insert_random mv pos xs; found = false; dirty = true }

-- copy_if of find_cell
unfoldable pub matching : ℕ → List Cell → List Cell
matching hash [] = []
matching hash (x ∷ xs) =
    if x.e_hash == hash && leb 0x1000 x.e_addr then x ∷ matching hash xs else matching hash xs

-- seen_it.count, over a std::set as the list of its elements
unfoldable pub seen : Cell → List Cell → Bool
seen c [] = false
seen c (x ∷ xs) = cell_eq x c || seen c xs

-- The body of verify_cell_range for one cell: the cell left behind, the set, and bugs_found.
unfoldable pub verify_cell : Bool → List Cell → Cell → Cell × List Cell × Bool
unfolding seen
verify_cell clear_bugs seen_it c =
    let magic = not (c.e_addr == 0) && ltb c.e_addr 0x1000 in
    let c' : Cell = if magic && clear_bugs then empty_cell else c in
    let used = not (c'.e_addr == 0) in
    let duplicate = used && seen c' seen_it in
    (
      if duplicate && clear_bugs then empty_cell else c',
      if used && not (seen c' seen_it) then c' ∷ seen_it else seen_it,
      magic || duplicate,
    )

-- verify_cell_range: the cells left behind, and whether a bug was found
unfoldable pub verify_cell_range : Bool → List Cell → List Cell → List Cell × Bool
verify_cell_range clear_bugs seen_it [] = ([], false)
verify_cell_range clear_bugs seen_it (c ∷ cs) =
    let (c', seen_it', bug) = verify_cell clear_bugs seen_it c in
    let (cs', bugs) = verify_cell_range clear_bugs seen_it' cs in (c' ∷ cs', bug || bugs)
