-- ===== src/HashTable/Table/Race.antt =====
-- An insertion between the copy and the last step of flush_dirty_extent (src/bees-hash.cc), where
-- the extent's mutex is not held.
use bees.Base.{
  ℕ, ◌/◌, ◌%◌, ◌<◌, ◌≡◌, ◌≢◌, refl, sym, ap, ◌∙◌, true, false, [], none, some, arith, ◌==◌, get_or,
  Outcome, ok, ◌>>=◌, Returns, get_or-set_self, ==_iff,
}
use bees.HashTable.{empty_cell, buckets_per_extent}
use bees.HashTable.Table.{
  Bucket, ExtentMeta, no_meta, Table, File, extent_of, meta_of, bucket_of, set_meta,
  push_front_hash_addr,
}
use bees.HashTable.Table.Flush.{flush_copy, flush_write, flush_clean}
use bees.HashTable.Table.Invariant.{IsTable, IsDisk, home, extent-lt}
use bees.HashTable.Table.Lookup.{loaded, bucket, length-bucket}
use bees.HashTable.Table.RoundTrip.{push_front-Performs, front_head, entry}
use bees.HashTable.Bucket.Front.{push_front-FrontEffect}
use bees.HashTable.Table.Store.{fetched_again}

-- flush_dirty_extent of the extent of `hash`, with push_front_hash_addr of (hash, addr) by another
-- thread after the copy; the write succeeds.
pub flush_during_push : Table → File → ℕ → ℕ → Outcome (Table × File)
flush_during_push t file hash addr = do
  let i = home t hash / buckets_per_extent
  copy ← flush_copy t i
  (t', found) ← push_front_hash_addr (λ _. none) file t hash addr
  elim copy [
    | none ↦ ok (t', file)
    | some e ↦
        let (file', wrote) = flush_write (λ _. none) file i e in
        (do t'' ← flush_clean t' i; ok (t'', file'))
  ]

flush_copy_lem :
    (t : Table) (i : ℕ) → IsTable t → i < t.extents → flush_copy t i ≡ ok (some (extent_of t i))
unfolding flush_copy
flush_copy_lem t i v h = ground (arith, v.mapped, v.described)

flush_clean_lem :
    (t : Table) (i : ℕ)
    → IsTable t
    → i < t.extents
    → flush_clean t i ≡ ok (set_meta t i (record (meta_of t i) { dirty = false }))
unfolding flush_clean
flush_clean_lem t i v h = ground (arith, v.described)

-- An insertion that changes the front of its bucket between the copy and the last step of
-- flush_dirty_extent leaves the extent loaded and marked clean although the file does not hold the
-- bucket.
pub flush_race :
    (t : Table) (file : File) (hash addr : ℕ)
    → IsTable t
    → IsDisk (λ _. none) file
    → (meta_of t (home t hash / buckets_per_extent)).missing ≡ false
    → get_or (bucket_of t (home t hash)) 0 empty_cell ≢ entry hash addr
    → let b = home t hash in
      let i = b / buckets_per_extent in
      Returns (flush_during_push t file hash addr) (λ r.
        ((meta_of r.0 i).dirty ≡ false)
        × ((meta_of r.0 i).missing ≡ false)
        × (bucket_of r.0 b ≢ get_or (r.1 i) (b % buckets_per_extent) []))
unfolding flush_during_push flush_write
flush_race t file hash addr v d here new =
    let b = home t hash in
    let i = b / buckets_per_extent in
    let h = extent-lt t v hash in
    let same : loaded (λ _. none) file d t v hash ≡ t = fetched_again (λ _. none) file t i here in
    let xs = bucket (λ _. none) file d t v hash in
    let n = length-bucket (λ _. none) file d t v hash in
    let (rest, e) = front_head (push_front-FrontEffect (entry hash addr) xs (omega arith)) in
    let (t', run, s, _) = push_front-Performs (λ _. none) file d t v hash addr in
    let extents : i < t'.extents =
      omega (arith, s.valid.sized, s.same_size, v.sized, ap (λ (x : Table). x.buckets) same) in
    let m : ExtentMeta = record (meta_of t' i) { dirty = false } in
    let read = get_or-set_self t'.metadata i m no_meta (rw s.valid.described extents) in
    let self : (i == i) ≡ true = (==_iff i i).1 refl in
    rw (flush_copy_lem t i v h, run, flush_clean_lem t' i s.valid extents, self)
      (
        ap (λ (x : ExtentMeta). x.dirty) read,
        ap (λ (x : ExtentMeta). x.missing) read ∙ s.resident,
        λ q. new (ap (λ (l : Bucket). get_or l 0 empty_cell) (sym q ∙ s.here ∙ e)),
      )
