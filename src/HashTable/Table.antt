-- ===== src/HashTable/Table.antt =====
-- The table of src/bees-hash.cc: extents of buckets in memory, their metadata, and the hash table
-- file. The mutex of an extent is held from lock_extent_by_index to the end of the operation, so
-- each operation is one step; flush_dirty_extent, which lets go of it, is three (Table/Flush).
pub mod Invariant
pub mod Store
pub mod Lookup
pub mod RoundTrip
pub mod Flush
pub mod Synced
pub mod Race
pub mod History
use mathlib.Core.List.{map, flatten}
use bees.Base.{
  ℕ, zero, suc, ◌+◌, ◌-◌, ◌*◌, ◌/◌, ◌%◌, ◌≤◌, ◌<◌, Bool, true, false, ◌||◌, List, [], ◌∷◌, Option,
  none, some, ltb, leb, ◌==◌, if◌then◌else◌, length, get_or, set, Outcome, ok, throw, Exception,
  invalid_argument, out_of_range, runtime_error, system_error, ◌>>=◌, ◌>>◌, throw_check, has_bit,
  clear_bit,
}
use bees.HashTable.{Cell, empty_cell, cell_eq, buckets_per_extent}
use bees.HashTable.Bucket.{Pushed, erase, push_front, push_random, matching, seen}

abbrev pub Bucket : Type 0
Bucket = List Cell

abbrev pub Extent : Type 0
Extent = List Bucket

-- struct ExtentMetaData, less the mutex
pub record ExtentMeta : Type 0 where
  pub dirty : Bool
  pub missing : Bool

-- `memory` is the mapping seen as m_extent_ptr[0 .. m_extents), `signalled` is m_dirty.
pub record Table : Type 0 where
  pub buckets : ℕ
  pub extents : ℕ
  pub memory : List Extent
  pub metadata : List ExtentMeta
  pub signalled : Bool

-- What pread_or_die leaves in the extent's memory: `none` is the file's contents, `some` what a
-- failed call left there (the exception is caught).
abbrev pub Pread : Type 0
Pread = ℕ → Option Extent

abbrev pub File : Type 0
File = ℕ → Extent

abbrev pub no_meta : ExtentMeta
no_meta = record { dirty = false; missing = true }

abbrev pub extent_of : Table → ℕ → Extent
extent_of t i = get_or t.memory i []

abbrev pub meta_of : Table → ℕ → ExtentMeta
meta_of t i = get_or t.metadata i no_meta

abbrev pub bucket_of : Table → ℕ → Bucket
bucket_of t b = get_or (extent_of t (b / buckets_per_extent)) (b % buckets_per_extent) []

abbrev pub set_meta : Table → ℕ → ExtentMeta → Table
set_meta t i m = record t { metadata = set t.metadata i m }

abbrev pub set_extent : Table → ℕ → Extent → Table
set_extent t i e = record t { memory = set t.memory i e }

-- The write of the cells of bucket `b` through the pointers of its cell range.
abbrev pub set_bucket : Table → ℕ → Bucket → Table
set_bucket t b cells =
    let i = b / buckets_per_extent in
    set_extent t i (set (extent_of t i) (b % buckets_per_extent) cells)

-- get_cell_range: the number of the bucket
unfoldable pub get_cell_range : Table → ℕ → Outcome ℕ
get_cell_range t hash = do
  throw_check runtime_error (ltb 0 t.buckets)
  let b = hash % t.buckets
  throw_check out_of_range (leb (b + 1) (length t.memory * buckets_per_extent))
  ok b

-- get_extent_range: the number of the extent
unfoldable pub get_extent_range : Table → ℕ → Outcome ℕ
get_extent_range t hash = do
  throw_check runtime_error (ltb 0 t.buckets)
  let i = hash % t.buckets / buckets_per_extent
  throw_check out_of_range (leb (i + 1) (length t.memory))
  ok i

unfoldable pub hash_to_extent_index : Table → ℕ → Outcome ℕ
unfolding get_extent_range
hash_to_extent_index t hash = do
  i ← get_extent_range t hash
  throw_check runtime_error (ltb i t.extents)
  ok i

-- m_extent_metadata.at
unfoldable pub metadata_at : Table → ℕ → Outcome ExtentMeta
metadata_at t i = if ltb i (length t.metadata) then ok (meta_of t i) else throw out_of_range

unfoldable pub lock_extent_by_index : Table → ℕ → Outcome (Unit {0})
unfolding metadata_at
lock_extent_by_index t i = do throw_check out_of_range (ltb i t.extents); m ← metadata_at t i; ok tt

unfoldable pub lock_extent_by_hash : Table → ℕ → Outcome (Unit {0})
unfolding hash_to_extent_index lock_extent_by_index
lock_extent_by_hash t hash = do i ← hash_to_extent_index t hash; lock_extent_by_index t i

unfoldable pub set_extent_dirty_locked : Table → ℕ → Outcome Table
unfolding metadata_at
set_extent_dirty_locked t i = do
  m ← metadata_at t i
  ok (record t { metadata = set t.metadata i (record m { dirty = true }); signalled = true })

-- The body of the loop over the cells that were read.
unfoldable pub clear_cell : List Cell → Cell → Cell
unfolding seen
clear_cell seen_it c =
    if has_bit c.e_addr 9
    then (let cleared : Cell = record c { e_addr = clear_bit c.e_addr 9 } in
        if seen cleared seen_it then empty_cell else cleared)
    else c

unfoldable pub clear_extent : Extent → Extent
unfolding clear_cell
clear_extent e = let seen_it = flatten e in map (map (clear_cell seen_it)) e

unfoldable pub fetch_missing_extent_by_index : Pread → File → Table → ℕ → Outcome Table
unfolding lock_extent_by_index metadata_at clear_extent
fetch_missing_extent_by_index pread file t i = do
  lock_extent_by_index t i
  m ← metadata_at t i
  if m.missing
      then (let read : Extent = elim (pread i) [ none ↦ file i | some torn ↦ torn ] in
          ok (set_extent (set_meta t i (record m { missing = false })) i (clear_extent read)))
      else ok t

unfoldable pub fetch_missing_extent_by_hash : Pread → File → Table → ℕ → Outcome Table
unfolding hash_to_extent_index fetch_missing_extent_by_index
fetch_missing_extent_by_hash pread file t hash = do
  i ← hash_to_extent_index t hash
  fetch_missing_extent_by_index pread file t i

-- The beginning that the operations share: the table with the extent in memory, and the bucket.
unfoldable pub open_bucket : Pread → File → Table → ℕ → Outcome (Table × ℕ)
open_bucket pread file t hash = do
  t' ← fetch_missing_extent_by_hash pread file t hash
  lock_extent_by_hash t' hash
  b ← get_cell_range t' hash
  ok (t', b)

-- Their end: the cells are in place, and set_extent_dirty_locked is called or not.
unfoldable pub close_bucket : Table → ℕ → ℕ → Pushed → Outcome (Table × Bool)
unfolding hash_to_extent_index set_extent_dirty_locked
close_bucket t hash b p =
    let t' = set_bucket t b p.cells in
    if p.dirty
    then (do
      i ← hash_to_extent_index t' hash
      t'' ← set_extent_dirty_locked t' i
      ok (t'', p.found))
    else ok (t', p.found)

module _ (pread : Pread) (file : File) where
  pub find_cell : Table → ℕ → Outcome (Table × List Cell)
  unfolding open_bucket matching
  find_cell t hash = do
    (t', b) ← open_bucket pread file t hash
    ok (t', matching hash (bucket_of t' b))

  pub erase_hash_addr : Table → ℕ → ℕ → Outcome (Table × Bool)
  unfolding open_bucket erase close_bucket
  erase_hash_addr t hash addr = do
    (t', b) ← open_bucket pread file t hash
    close_bucket t' hash b (erase (record { e_hash = hash; e_addr = addr }) (bucket_of t' b))

  pub push_front_hash_addr : Table → ℕ → ℕ → Outcome (Table × Bool)
  unfolding open_bucket push_front close_bucket
  push_front_hash_addr t hash addr = do
    (t', b) ← open_bucket pread file t hash
    close_bucket t' hash b (push_front (record { e_hash = hash; e_addr = addr }) (bucket_of t' b))

  -- `pos` is the draw from tl_distribution.
  pub push_random_hash_addr : ℕ → Table → ℕ → ℕ → Outcome (Table × Bool)
  unfolding open_bucket push_random close_bucket
  push_random_hash_addr pos t hash addr = do
    (t', b) ← open_bucket pread file t hash
    close_bucket t' hash b
        (push_random (record { e_hash = hash; e_addr = addr }) pos (bucket_of t' b))
