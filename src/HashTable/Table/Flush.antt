-- ===== src/HashTable/Table/Flush.antt =====
-- The writeback of src/bees-hash.cc: flush_dirty_extent, in the three steps between which it does
-- not hold the extent's mutex, and the loop over the extents.
use bees.Base.{
  ℕ, zero, suc, ◌+◌, Bool, true, false, Option, none, some, ltb, leb, ◌==◌, if◌then◌else◌, length,
  Outcome, ok, ◌>>=◌, ◌>>◌, throw_check, runtime_error,
}
use bees.HashTable.Table.{
  Extent, Table, File, extent_of, set_meta, lock_extent_by_index, metadata_at,
}

-- What pwrite_or_die leaves in the file: `none` is the copy, `some` the contents after a failure.
abbrev pub Pwrite : Type 0
Pwrite = ℕ → Option Extent

abbrev pub set_file : File → ℕ → Extent → File
set_file file i e j = if j == i then e else file j

-- Under the lock: the checks, and the copy. `none` is a failed check, which catch_all reports.
unfoldable pub flush_copy : Table → ℕ → Outcome (Option Extent)
unfolding lock_extent_by_index
flush_copy t i = do
  lock_extent_by_index t i
  ok (if leb (i + 1) (length t.memory) then some (extent_of t i) else none)

-- Without the lock: pwrite_or_die. The result says whether it returned.
unfoldable pub flush_write : Pwrite → File → ℕ → Extent → File × Bool
flush_write pwrite file i copy = elim (pwrite i) [
  | none ↦ (set_file file i copy, true)
  | some torn ↦ (set_file file i torn, false)
]

-- Under the lock again: "Mark extent clean if write was successful".
unfoldable pub flush_clean : Table → ℕ → Outcome Table
unfolding metadata_at
flush_clean t i = do m ← metadata_at t i; ok (set_meta t i (record m { dirty = false }))

-- flush_dirty_extent with nothing in between: the table, the file, and wrote_extent.
unfoldable pub flush_dirty_extent : Pwrite → Table → File → ℕ → Outcome (Table × File × Bool)
unfolding flush_copy flush_write flush_clean
flush_dirty_extent pwrite t file i = do
  copy ← flush_copy t i
  elim copy [
    | none ↦ ok (t, file, false)
    | some e ↦
        let (file', wrote) = flush_write pwrite file i e in
        if wrote then (do t' ← flush_clean t i; ok (t', file', true)) else ok (t, file', false)
  ]

-- flush_dirty_extents from extent `i` on, with `n` left. `slowly` only inserts waits.
unfoldable pub flush_from : Pwrite → ℕ → ℕ → Table → File → ℕ → Outcome (Table × File × ℕ)
flush_from pwrite zero i t file wrote_extents = ok (t, file, wrote_extents)
flush_from pwrite (suc n) i t file wrote_extents = do
  lock_extent_by_index t i
  m ← metadata_at t i
  (t', file', wrote) ← (if m.dirty then flush_dirty_extent pwrite t file i else ok (t, file, false))
  flush_from pwrite n (suc i) t' file' (if wrote then wrote_extents + 1 else wrote_extents)

unfoldable pub flush_dirty_extents : Pwrite → Table → File → Outcome (Table × File × ℕ)
flush_dirty_extents pwrite t file = do
  throw_check runtime_error (ltb 0 t.buckets)
  flush_from pwrite t.extents 0 t file 0
