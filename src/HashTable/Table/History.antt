-- ===== src/HashTable/Table/History.antt =====
-- Histories of the operations of src/bees-hash.cc, with writebacks among them.
use bees.Base.{
  ℕ, ◌<◌, ◌≡◌, ap, ◌∙◌, Bool, true, false, List, [], ◌∷◌, Option, none, arith, length, Outcome, ok,
  ◌>>=◌, Returns, Returns-bind, inl, inr, lt→ltb, ltb, All,
}
use bees.HashTable.{Cell, cells_per_bucket}
use bees.HashTable.Bucket.{Pushed, erase, push_front, push_random}
use bees.HashTable.Bucket.Front.{push_front-clean, push_front-FrontEffect}
use bees.HashTable.Bucket.Random.{RandomEffect, push_random-RandomEffect}
use bees.HashTable.Bucket.Erase.{erase_lem, length-erase}
use bees.HashTable.Bucket.Count.{FrontEffect-length, RandomEffect-length}
use bees.HashTable.Table.{
  Extent, Table, File, close_bucket, find_cell, push_front_hash_addr, push_random_hash_addr,
  erase_hash_addr,
}
use bees.HashTable.Table.Flush.{Pwrite, flush_from, flush_dirty_extents}
use bees.HashTable.Table.Invariant.{IsDisk, home, opened-IsTable, open_bucket_lem, extent-lt}
use bees.HashTable.Table.Lookup.{loaded, bucket, length-bucket, store_lem, seat-lt}
use bees.HashTable.Table.Synced.{
  fetched-Synced, closed-Synced, IsSound, IsPwrite, flush_from-IsSound,
}

-- A call of the table, with the draw of push_random_hash_addr and the writes that fail.
pub data Call : Type 0 where
  finds : ℕ → Call
  erases pushes_front : ℕ → ℕ → Call
  pushes_random : ℕ → ℕ → ℕ → Call
  flushes : Pwrite → Call

abbrev IsCall : Call → Type 0
IsCall (finds hash) = Unit {0}
IsCall (erases hash addr) = Unit {0}
IsCall (pushes_front hash addr) = Unit {0}
IsCall (pushes_random pos hash addr) = pos < cells_per_bucket
IsCall (flushes pwrite) = IsPwrite pwrite

-- Reads succeed here: what a failed read leaves is in no relation to the file.
abbrev read_all : ℕ → Option Extent
read_all i = none

pub step : Table × File → Call → Outcome (Table × File)
step (t, file) (finds hash) = do (t', cells) ← find_cell read_all file t hash; ok (t', file)
step (t, file) (erases hash addr) = do
  (t', found) ← erase_hash_addr read_all file t hash addr
  ok (t', file)
step (t, file) (pushes_front hash addr) = do
  (t', found) ← push_front_hash_addr read_all file t hash addr
  ok (t', file)
step (t, file) (pushes_random pos hash addr) = do
  (t', found) ← push_random_hash_addr read_all file pos t hash addr
  ok (t', file)
step (t, file) (flushes pwrite) = do
  (t', file', count) ← flush_dirty_extents pwrite t file
  ok (t', file')

pub run : Table × File → List Call → Outcome (Table × File)
run s [] = ok s
run s (c ∷ cs) = do s' ← step s c; run s' cs

module _ (t : Table) (file : File) (s : IsSound t file) where
  disk : IsDisk read_all file
  disk = record { file_shaped = s.file_shaped; torn_shaped = λ i e h. cc }

  abbrev seat : ℕ → ℕ
  seat hash = home t hash

  loaded-IsSound : (hash : ℕ) → IsSound (loaded read_all file disk t s.table hash) file
  loaded-IsSound hash = record {
    table = opened-IsTable read_all file disk t s.table hash;
    synced = fetched-Synced file t _ s.table (extent-lt t s.table hash) s.synced;
    file_shaped = s.file_shaped;
  }

  -- An operation that leaves the extent clean only where it changes nothing.
  operation_lem :
      (hash : ℕ) (p : Pushed) (call : Outcome (Table × Bool))
      → call ≡ close_bucket (loaded read_all file disk t s.table hash) hash (home t hash) p
      → length p.cells ≡ cells_per_bucket
      → (p.dirty ≡ false → p.cells ≡ bucket read_all file disk t s.table hash)
      → Returns {A = Table × File} (call >>= λ r. ok (r.0, file)) (λ r. IsSound r.0 r.1)
  operation_lem hash p call e n clean =
      let u = loaded-IsSound hash in
      let (run, stored) = store_lem read_all file disk t s.table hash p n in
      let h = seat-lt read_all file disk t s.table hash in
      rw (e, run)
        (record {
          table = stored.valid;
          synced = closed-Synced file _ (home t hash) p u.table h clean u.synced;
          file_shaped = s.file_shaped;
        })

random_clean :
    {mv : Cell} {pos : ℕ} {xs : List Cell} {p : Pushed}
    → RandomEffect mv pos xs p
    → p.dirty ≡ false
    → p.cells ≡ xs
random_clean (RandomEffect.bumped ys ms zs p n a c f e) h = cc
random_clean (RandomEffect.kept ys zs p n c f e) h = c
random_clean (RandomEffect.filled ys zs a p c f e) h = cc
random_clean (RandomEffect.evicted ys ms z a b p n c f e) h = cc

erase_clean : (mv : Cell) (xs : List Cell) → (erase mv xs).dirty ≡ false → (erase mv xs).cells ≡ xs
erase_clean mv xs h = elim (erase_lem mv xs) [
  | inl (ys, zs, p, e) ↦ cc
  | inr (a, e) ↦ ap (λ (p : Pushed). p.cells) e
]

abbrev SoundPair : Table × File → Type 0
SoundPair r = IsSound r.0 r.1

abbrev FlushedSound : Table × File × ℕ → Type 0
FlushedSound r = IsSound r.0 r.1

-- Every call returns on a sound table, and leaves it sound.
pub step-IsSound :
    (t : Table) (file : File) (c : Call)
    → IsCall c
    → IsSound t file
    → Returns (step (t, file) c) (λ r. IsSound r.0 r.1)
unfolding step find_cell erase_hash_addr push_front_hash_addr push_random_hash_addr
    flush_dirty_extents
step-IsSound t file (finds hash) i s =
    rw (open_bucket_lem read_all file (disk t file s) t s.table hash) (loaded-IsSound t file s hash)
step-IsSound t file (erases hash addr) i s =
    let xs = bucket read_all file (disk t file s) t s.table hash in
    let c : Cell = record { e_hash = hash; e_addr = addr } in
    operation_lem t file s hash (erase c xs) _
      (rw (open_bucket_lem read_all file (disk t file s) t s.table hash))
      (length-erase c xs ∙ length-bucket read_all file (disk t file s) t s.table hash)
      (erase_clean c xs)
step-IsSound t file (pushes_front hash addr) i s =
    let xs = bucket read_all file (disk t file s) t s.table hash in
    let n = length-bucket read_all file (disk t file s) t s.table hash in
    let c : Cell = record { e_hash = hash; e_addr = addr } in
    operation_lem t file s hash (push_front c xs) _
      (rw (open_bucket_lem read_all file (disk t file s) t s.table hash))
      (FrontEffect-length (push_front-FrontEffect c xs (omega arith)) ∙ n)
      (push_front-clean c xs (omega arith))
step-IsSound t file (pushes_random pos hash addr) i s =
    let xs = bucket read_all file (disk t file s) t s.table hash in
    let n = length-bucket read_all file (disk t file s) t s.table hash in
    let c : Cell = record { e_hash = hash; e_addr = addr } in
    let effect = push_random-RandomEffect c pos xs (omega arith) in
    operation_lem t file s hash (push_random c pos xs) _
      (rw (open_bucket_lem read_all file (disk t file s) t s.table hash))
      (RandomEffect-length effect ∙ n) (random_clean effect)
step-IsSound t file (flushes pwrite) i s =
    let positive : ltb 0 t.buckets ≡ true =
      lt→ltb _ _ (rw s.table.sized (omega (arith, s.table.nonempty))) in
    rw positive (
      Returns-bind FlushedSound SoundPair (flush_from pwrite t.extents 0 t file 0)
        (λ r. ok (r.0, r.1)) (flush_from-IsSound pwrite t.extents 0 t file 0 i s (omega arith))
        (λ r h. h))

abbrev AreCalls : List Call → Type 0
AreCalls cs = All IsCall cs

-- From a sound table no history of lookups, insertions, erasures and writebacks (reads of the file
-- succeed, writes may fail, each draw lies in its bucket) throws, and the result is sound: the
-- table keeps its shape, and an extent that is loaded and clean holds what the file holds, or what
-- loading made of it.
pub run-IsSound :
    (t : Table) (file : File) (cs : List Call)
    → AreCalls cs
    → IsSound t file
    → Returns (run (t, file) cs) (λ r. IsSound r.0 r.1)
unfolding run
run-IsSound t file [] i s = s
run-IsSound t file (c ∷ cs) i s =
    Returns-bind SoundPair SoundPair (step (t, file) c) (λ q. run q cs)
      (step-IsSound t file c i.0 s) (λ q h. run-IsSound q.0 q.1 cs i.1 h)
