-- ===== src/HashTable/Table/Store.antt =====
-- What a write to one bucket does to the table of src/bees-hash.cc.
use mathlib.Core.Path.{subst}
use native.Mathlib.Decide.{ℕ_discrete}
use bees.Base.{
  ℕ, ◌*◌, ◌/◌, ◌%◌, ◌<◌, ◌≡◌, ◌≢◌, refl, ap, ◌∙◌, true, false, [], arith, length, get_or, set,
  get_or-set_self, get_or-set_ne, Bool-cases, inl, inr,
}
use bees.HashTable.{buckets_per_extent, cells_per_bucket}
use bees.HashTable.Bucket.{Pushed}
use bees.HashTable.Table.{
  Bucket, ExtentMeta, Table, Pread, File, extent_of, meta_of, bucket_of, set_bucket,
}
use bees.HashTable.Table.Invariant.{IsTable, fetched, closed, closed-IsTable}

-- Bucket `b` holds `cells` and is in memory; no other bucket differs between the two tables.
pub record Stored (t : Table) (b : ℕ) (cells : Bucket) (t' : Table) : Type 0 where
  pub valid : IsTable t'
  pub same_size : t'.buckets ≡ t.buckets
  pub here : bucket_of t' b ≡ cells
  pub elsewhere : (b' : ℕ) → b' ≢ b → bucket_of t' b' ≡ bucket_of t b'
  pub resident : (meta_of t' (b / buckets_per_extent)).missing ≡ false

module _ (t : Table) (v : IsTable t) (b : ℕ) (b_lt : b < t.extents * buckets_per_extent) where
  here_lem : (cells : Bucket) → bucket_of (set_bucket t b cells) b ≡ cells
  here_lem cells =
      let i = b / buckets_per_extent in
      let e = extent_of t i in
      let s = b % buckets_per_extent in
      ap (λ x. get_or x s [])
        (get_or-set_self t.memory i (set e s cells) [] (rw v.mapped (omega arith)))
      ∙ get_or-set_self e s cells [] (rw (v.shaped i (omega arith)).0 (omega arith))

  elsewhere_lem :
      (cells : Bucket) (b' : ℕ) → b' ≢ b → bucket_of (set_bucket t b cells) b' ≡ bucket_of t b'
  elsewhere_lem cells b' ne =
      let i = b / buckets_per_extent in
      let e = extent_of t i in
      let s = b % buckets_per_extent in
      let s' = b' % buckets_per_extent in
      elim (ℕ_discrete i (b' / buckets_per_extent)) [
        | yes q ↦
            subst
              (λ j.
                get_or (get_or (set t.memory i (set e s cells)) j []) s' []
                ≡ get_or (get_or t.memory j []) s' [])
              q
              (ap (λ x. get_or x s' [])
                  (get_or-set_self t.memory i (set e s cells) [] (rw v.mapped (omega arith)))
                ∙ get_or-set_ne e s s' cells [] (omega arith))
        | no q ↦
            ap (λ x. get_or x s' [])
              (get_or-set_ne t.memory i (b' / buckets_per_extent) (set e s cells) [] q)
      ]

  pub closed-Stored :
      (p : Pushed)
      → length p.cells ≡ cells_per_bucket
      → (meta_of t (b / buckets_per_extent)).missing ≡ false
      → Stored t b p.cells (closed t b p)
  unfolding closed
  closed-Stored p n m =
      let valid = closed-IsTable t b p v b_lt n in
      let i = b / buckets_per_extent in
      elim (Bool-cases p.dirty) [
        | inl e ↦ rw e (record {
          valid = rw (e, closed) at valid;
          same_size = refl;
          here = here_lem p.cells;
          elsewhere = elsewhere_lem p.cells;
          resident =
              ap (λ (x : ExtentMeta). x.missing)
                (get_or-set_self t.metadata i (record (meta_of t i) { dirty = true }) _
                  (rw v.described (omega arith)))
              ∙ m;
        })
        | inr e ↦ rw e (record {
          valid = rw (e, closed) at valid;
          same_size = refl;
          here = here_lem p.cells;
          elsewhere = elsewhere_lem p.cells;
          resident = m;
        })
      ]

-- The fetch leaves the extent in memory, and does nothing where it is there already.
pub fetched_resident :
    (pread : Pread) (file : File) (t : Table) (i : ℕ)
    → i < length t.metadata
    → (meta_of (fetched pread file t i) i).missing ≡ false
unfolding fetched
fetched_resident pread file t i h = elim (Bool-cases (meta_of t i).missing) [
  | inl e ↦ rw e (
      ap (λ (x : ExtentMeta). x.missing)
        (get_or-set_self t.metadata i (record (meta_of t i) { missing = false }) _ h))
  | inr e ↦ rw e e
]

pub fetched_again :
    (pread : Pread) (file : File) (t : Table) (i : ℕ)
    → (meta_of t i).missing ≡ false
    → fetched pread file t i ≡ t
unfolding fetched
fetched_again pread file t i h = rw h
