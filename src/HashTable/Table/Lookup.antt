-- ===== src/HashTable/Table/Lookup.antt =====
-- What find_cell of src/bees-hash.cc returns after each of the operations that change a bucket.
use bees.Base.{
  ℕ, ◌*◌, ◌/◌, ◌%◌, ◌≤◌, ◌<◌, ◌≡◌, refl, ap, ◌∙◌, inl, inr, ◌&&◌, List, [], ◌∷◌, ◌++◌, arith, leb,
  ◌==◌, length, ok, Bool-cases,
}
use bees.HashTable.{Cell, buckets_per_extent, cells_per_bucket}
use bees.HashTable.Bucket.{Pushed, matching}
use bees.HashTable.Bucket.Count.{count}
use bees.HashTable.Table.{Bucket, Table, Pread, File, bucket_of, close_bucket, find_cell}
use bees.HashTable.Table.Invariant.{
  IsTable, IsDisk, home, home-lt, fetched, fetched-buckets, closed, close_bucket_lem,
  opened-IsTable, open_bucket_lem,
}
use bees.HashTable.Table.Store.{Stored, closed-Stored, fetched_resident, fetched_again}

-- find_cell looks at hash and address; an address below 0x1000 is never returned.
pub matching-append :
    (hash : ℕ) (xs ys : List Cell) → matching hash (xs ++ ys) ≡ matching hash xs ++ matching hash ys
unfolding matching
matching-append hash [] ys = refl
matching-append hash (x ∷ xs) ys = elim (Bool-cases (x.e_hash == hash && leb 0x1000 x.e_addr)) [
  | inl e ↦ rw e (ap (◌∷◌ x) (matching-append hash xs ys))
  | inr e ↦ rw e (matching-append hash xs ys)
]

pub matching-cons :
    (c : Cell) (xs : List Cell)
    → 0x1000 ≤ c.e_addr
    → matching c.e_hash (c ∷ xs) ≡ c ∷ matching c.e_hash xs
unfolding matching
matching-cons c xs h = ground arith

pub count-matching :
    (c : Cell) (hash : ℕ) (xs : List Cell) → count c xs ≡ 0 → count c (matching hash xs) ≡ 0
unfolding matching count
count-matching c hash [] h = refl
count-matching c hash (x ∷ xs) h = elim (Bool-cases (x.e_hash == hash && leb 0x1000 x.e_addr)) [
  | inl e ↦ rw e (omega (arith, count-matching c hash xs (omega arith)))
  | inr e ↦ rw e (count-matching c hash xs (omega arith))
]

module _ (pread : Pread) (file : File) (d : IsDisk pread file) (t : Table) (v : IsTable t) where
  abbrev pub loaded : ℕ → Table
  loaded hash = fetched pread file t (home t hash / buckets_per_extent)

  abbrev pub bucket : ℕ → Bucket
  bucket hash = bucket_of (loaded hash) (home t hash)

  loaded-home : (hash n : ℕ) → n % (loaded hash).buckets ≡ home t n
  loaded-home hash n =
      ap (λ m. n % m) (fetched-buckets pread file t (home t hash / buckets_per_extent))

  pub seat-lt : (hash : ℕ) → home t hash < (loaded hash).extents * buckets_per_extent
  seat-lt hash =
      let h = home-lt (loaded hash) hash (opened-IsTable pread file d t v hash) in
      rw (loaded-home hash hash) at h

  pub length-bucket : (hash : ℕ) → length (bucket hash) ≡ cells_per_bucket
  length-bucket hash =
      let u = opened-IsTable pread file d t v hash in
      let h = seat-lt hash in
      (u.shaped (home t hash / buckets_per_extent) (omega arith)).1 _ (omega arith)

  -- Whatever the operation made of the bucket is what the table then holds.
  pub store_lem :
      (hash : ℕ) (p : Pushed)
      → length p.cells ≡ cells_per_bucket
      → (close_bucket (loaded hash) hash (home t hash) p
          ≡ ok (closed (loaded hash) (home t hash) p, p.found))
        × Stored (loaded hash) (home t hash) p.cells (closed (loaded hash) (home t hash) p)
  store_lem hash p n =
      let u = opened-IsTable pread file d t v hash in
      let h = seat-lt hash in
      let old = home-lt t hash v in
      (
        rw (loaded-home hash hash) at (close_bucket_lem (loaded hash) u hash p),
        closed-Stored (loaded hash) u (home t hash) h p n
            (fetched_resident pread file t _ (rw v.described (omega arith))),
      )

  pub find_cell-Stored :
      (hash : ℕ) (cells : Bucket) (t' : Table)
      → Stored (loaded hash) (home t hash) cells t'
      → find_cell pread file t' hash ≡ ok (t', matching hash cells)
  unfolding find_cell
  find_cell-Stored hash cells t' s =
      let e : home t' hash ≡ home t hash = ap (λ n. hash % n) s.same_size ∙ loaded-home hash hash in
      let again : fetched pread file t' (home t' hash / buckets_per_extent) ≡ t' =
        fetched_again pread file t' _ (rw e s.resident) in
      rw (open_bucket_lem pread file d t' s.valid hash, again)
        (ap (λ (l : Bucket). ok (t', matching hash l)) (ap (bucket_of t') e ∙ s.here))
