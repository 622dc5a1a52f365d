-- ===== src/HashTable/Table/Invariant.antt =====
-- The shape of the table of src/bees-hash.cc, and that no operation throws or loses it.
use mathlib.Core.List.{map, flatten}
use native.Mathlib.Nat.{mod-lt}
use native.Mathlib.Decide.{ℕ_discrete}
use mathlib.Core.Path.{subst}
use bees.Base.{
  ℕ, ◌*◌, ◌/◌, ◌%◌, ◌<◌, ◌≡◌, sym, ap, ◌∙◌, true, false, [], none, some, arith, if◌then◌else◌,
  length, get_or, set, length-set, get_or-set_self, get_or-set_ne, length-map, get_or-map, ok,
  Bool-cases, Option-cases, inl, inr,
}
use bees.HashTable.{buckets_per_extent, cells_per_bucket}
use bees.HashTable.Bucket.{Pushed}
use bees.HashTable.Table.{
  Bucket, Extent, ExtentMeta, Table, Pread, File, extent_of, meta_of, set_meta, set_extent,
  set_bucket, clear_extent, clear_cell, open_bucket, close_bucket, hash_to_extent_index,
  lock_extent_by_hash, get_cell_range, fetch_missing_extent_by_hash, fetch_missing_extent_by_index,
}

abbrev pub IsExtent : Extent → Type 0
IsExtent e =
    (length e ≡ buckets_per_extent)
    × ((s : ℕ) → s < buckets_per_extent → length (get_or e s []) ≡ cells_per_bucket)

pub record IsTable (t : Table) : Type 0 where
  pub sized : t.buckets ≡ t.extents * buckets_per_extent
  pub mapped : length t.memory ≡ t.extents
  pub described : length t.metadata ≡ t.extents
  pub nonempty : 0 < t.extents
  pub shaped : (i : ℕ) → i < t.extents → IsExtent (extent_of t i)

-- The file has the size of the mapping, and a failed read leaves the mapping its size.
pub record IsDisk (pread : Pread) (file : File) : Type 0 where
  pub file_shaped : (i : ℕ) → IsExtent (file i)
  pub torn_shaped : (i : ℕ) (e : Extent) → pread i ≡ some e → IsExtent e

-- The bucket of a hash.
abbrev pub home : Table → ℕ → ℕ
home t hash = hash % t.buckets

pub home-lt : (t : Table) (hash : ℕ) → IsTable t → home t hash < t.extents * buckets_per_extent
home-lt t hash v = rw (← v.sized) (mod-lt hash (rw v.sized (omega arith)))

-- The contents of an extent after the first access.
unfoldable pub read_extent : Pread → File → ℕ → Extent
read_extent pread file i = clear_extent (elim (pread i) [ none ↦ file i | some torn ↦ torn ])

unfoldable pub fetched : Pread → File → Table → ℕ → Table
fetched pread file t i =
    let m = meta_of t i in
    if m.missing
    then set_extent (set_meta t i (record m { missing = false })) i (read_extent pread file i)
    else t

unfoldable pub closed : Table → ℕ → Pushed → Table
closed t b p =
    let i = b / buckets_per_extent in
    let t' = set_bucket t b p.cells in
    if p.dirty
    then record t' {
      metadata = set t.metadata i (record (meta_of t i) { dirty = true });
      signalled = true;
    }
    else t'

module _ (t : Table) (v : IsTable t) where
  hash_to_extent_index_lem :
      (hash : ℕ) → hash_to_extent_index t hash ≡ ok (home t hash / buckets_per_extent)
  unfolding hash_to_extent_index
  hash_to_extent_index_lem hash =
      let h = home-lt t hash v in ground (arith, v.sized, v.mapped, v.nonempty, h)

  pub extent-lt : (hash : ℕ) → home t hash / buckets_per_extent < t.extents
  extent-lt hash = let h = home-lt t hash v in omega arith

  lock_hash_lem : (hash : ℕ) → lock_extent_by_hash t hash ≡ ok tt
  unfolding lock_extent_by_hash hash_to_extent_index
  lock_hash_lem hash =
      let h = home-lt t hash v in ground (arith, v.sized, v.mapped, v.described, v.nonempty, h)

  get_cell_range_lem : (hash : ℕ) → get_cell_range t hash ≡ ok (home t hash)
  unfolding get_cell_range
  get_cell_range_lem hash =
      let h = home-lt t hash v in ground (arith, v.sized, v.mapped, v.nonempty, h)

  fetch_index_lem :
      (pread : Pread) (file : File) (i : ℕ)
      → i < t.extents
      → fetch_missing_extent_by_index pread file t i ≡ ok (fetched pread file t i)
  unfolding fetch_missing_extent_by_index fetched read_extent
  fetch_index_lem pread file i h = ground (arith, v.described)

  pub close_bucket_lem :
      (hash : ℕ) (p : Pushed)
      → close_bucket t hash (home t hash) p ≡ ok (closed t (home t hash) p, p.found)
  unfolding close_bucket closed
  close_bucket_lem hash p =
      let h = home-lt t hash v in
      let i = home t hash / buckets_per_extent in
      ground (
        arith,
        v.described,
        v.sized,
        v.mapped,
        h,
        length-set t.memory i (set (extent_of t i) (home t hash % buckets_per_extent) p.cells),
      )

pub set-IsExtent :
    (e : Extent) (s : ℕ) (cells : Bucket)
    → IsExtent e
    → length cells ≡ cells_per_bucket
    → IsExtent (set e s cells)
set-IsExtent e s cells (n, f) h = (
  length-set e s cells ∙ n,
  λ j k. elim (ℕ_discrete s j) [
    | yes q ↦
        subst (λ j. length (get_or (set e s cells) j []) ≡ cells_per_bucket) q
          (ap length (get_or-set_self e s cells [] (omega arith)) ∙ h)
    | no q ↦ ap length (get_or-set_ne e s j cells [] q) ∙ f j k
  ],
)

pub clear_extent-IsExtent : (e : Extent) → IsExtent e → IsExtent (clear_extent e)
unfolding clear_extent
clear_extent-IsExtent e (n, f) = (
  length-map _ e ∙ n,
  λ s h.
      ap length (get_or-map (map (clear_cell (flatten e))) e s [])
      ∙ length-map (clear_cell (flatten e)) (get_or e s [])
      ∙ f s h,
)

-- Replacing one extent by one of the right shape.
set_extent-IsTable :
    (t : Table) (i : ℕ) (e : Extent) → IsTable t → IsExtent e → IsTable (set_extent t i e)
set_extent-IsTable t i e v h = record {
  sized = v.sized;
  mapped = length-set t.memory i e ∙ v.mapped;
  described = v.described;
  nonempty = v.nonempty;
  shaped = λ j k. elim (ℕ_discrete i j) [
    | yes q ↦
        subst (λ j. IsExtent (get_or (set t.memory i e) j [])) q
          (subst IsExtent (sym (get_or-set_self t.memory i e [] (rw (v.mapped, q) k))) h)
    | no q ↦ subst IsExtent (sym (get_or-set_ne t.memory i j e [] q)) (v.shaped j k)
  ];
}

pub set_meta-IsTable : (t : Table) (i : ℕ) (m : ExtentMeta) → IsTable t → IsTable (set_meta t i m)
set_meta-IsTable t i m v = record {
  sized = v.sized;
  mapped = v.mapped;
  described = length-set t.metadata i m ∙ v.described;
  nonempty = v.nonempty;
  shaped = v.shaped;
}

read-IsExtent :
    (pread : Pread) (file : File) (i : ℕ)
    → IsDisk pread file
    → IsExtent (elim (pread i) [ none ↦ file i | some torn ↦ torn ])
read-IsExtent pread file i d = elim (Option-cases (pread i)) [
  | inl e ↦ rw e (d.file_shaped i)
  | inr (x, e) ↦ rw e (d.torn_shaped i x e)
]

pub fetched-IsTable :
    (pread : Pread) (file : File) (t : Table) (i : ℕ)
    → IsDisk pread file
    → IsTable t
    → IsTable (fetched pread file t i)
unfolding fetched read_extent
fetched-IsTable pread file t i d v = elim (Bool-cases (meta_of t i).missing) [
  | inr e ↦ rw e v
  | inl e ↦ rw e (
      set_extent-IsTable _ i (read_extent pread file i) (set_meta-IsTable t i _ v)
        (clear_extent-IsExtent _ (read-IsExtent pread file i d)))
]

pub fetched-buckets :
    (pread : Pread) (file : File) (t : Table) (i : ℕ) → (fetched pread file t i).buckets ≡ t.buckets
unfolding fetched
fetched-buckets pread file t i = ground arith

pub closed-IsTable :
    (t : Table) (b : ℕ) (p : Pushed)
    → IsTable t
    → b < t.extents * buckets_per_extent
    → length p.cells ≡ cells_per_bucket
    → IsTable (closed t b p)
unfolding closed
closed-IsTable t b p v h n =
    let i = b / buckets_per_extent in
    let w : IsTable (set_bucket t b p.cells) = set_extent-IsTable t i _ v (
      set-IsExtent (extent_of t i) (b % buckets_per_extent) p.cells (v.shaped i (omega arith)) n) in
    elim (Bool-cases p.dirty) [
      | inl e ↦
          let u = set_meta-IsTable _ i (record (meta_of t i) { dirty = true }) w in
          rw e (record {
            sized = u.sized;
            mapped = u.mapped;
            described = u.described;
            nonempty = u.nonempty;
            shaped = u.shaped;
          })
      | inr e ↦ rw e w
    ]

module _ (pread : Pread) (file : File) (d : IsDisk pread file) (t : Table) (v : IsTable t) where
  -- The extent and the table of a hash, after the fetch.
  abbrev pub opened : ℕ → Table
  opened hash = fetched pread file t (home t hash / buckets_per_extent)

  pub opened-IsTable : (hash : ℕ) → IsTable (opened hash)
  opened-IsTable hash = fetched-IsTable pread file t _ d v

  fetch_hash_lem : (hash : ℕ) → fetch_missing_extent_by_hash pread file t hash ≡ ok (opened hash)
  unfolding fetch_missing_extent_by_hash
  fetch_hash_lem hash =
      rw (hash_to_extent_index_lem t v hash) (fetch_index_lem t v pread file _ (extent-lt t v hash))

  pub open_bucket_lem : (hash : ℕ) → open_bucket pread file t hash ≡ ok (opened hash, home t hash)
  unfolding open_bucket
  open_bucket_lem hash =
      let u = opened-IsTable hash in
      let e = fetched-buckets pread file t (home t hash / buckets_per_extent) in
      rw
        (
          fetch_hash_lem hash,
          lock_hash_lem (opened hash) u hash,
          get_cell_range_lem (opened hash) u hash,
        )
        (ap (λ n. ok (opened hash, hash % n)) e)
