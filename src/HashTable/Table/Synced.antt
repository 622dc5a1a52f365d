-- ===== src/HashTable/Table/Synced.antt =====
-- What the flags of an extent say of the file, through every operation of src/bees-hash.cc.
use mathlib.Core.Path.{subst}
use native.Mathlib.Decide.{ℕ_discrete}
use bees.Base.{
  ℕ, zero, suc, ◌+◌, ◌*◌, ◌/◌, ◌%◌, ◌≤◌, ◌<◌, ◌≡◌, ◌≢◌, refl, sym, ap, ◌∙◌, inl, inr, Bool, true,
  false, List, [], none, some, arith, ltb, ◌==◌, if◌then◌else◌, length, get_or, set,
  get_or-set_self, get_or-set_ne, set-get_or, ok, Returns, lt→ltb, ==_iff, Bool-cases, Option-cases,
}
use bees.HashTable.{buckets_per_extent}
use bees.HashTable.Bucket.{Pushed}
use bees.HashTable.Table.{
  Bucket, Extent, ExtentMeta, no_meta, Table, File, extent_of, meta_of, bucket_of, set_meta,
  clear_extent, lock_extent_by_index, metadata_at,
}
use bees.HashTable.Table.Flush.{Pwrite, set_file, flush_dirty_extent, flush_from}
use bees.HashTable.Table.Invariant.{
  set_meta-IsTable, IsExtent, IsTable, fetched, closed, read_extent,
}

-- An extent that is loaded and clean is the file's, as written or as read.
pub data Agrees (m : ExtentMeta) (e f : Extent) : Type 0 where
  missing : m.missing ≡ true → Agrees m e f
  dirty : m.dirty ≡ true → Agrees m e f
  written : e ≡ f → Agrees m e f
  loaded : e ≡ clear_extent f → Agrees m e f

abbrev pub Synced : Table → File → Type 0
Synced t file = (i : ℕ) → Agrees (meta_of t i) (extent_of t i) (file i)

pub fetched-Synced :
    (file : File) (t : Table) (i : ℕ)
    → IsTable t
    → i < t.extents
    → Synced t file
    → Synced (fetched (λ _. none) file t i) file
unfolding fetched read_extent
fetched-Synced file t i v h s j = elim (Bool-cases (meta_of t i).missing) [
  | inr e ↦ rw e (s j)
  | inl e ↦
      let m : ExtentMeta = record (meta_of t i) { missing = false } in
      rw e (elim (ℕ_discrete i j) [
        | yes q ↦
            subst
              (λ j.
                Agrees (get_or (set t.metadata i m) j no_meta)
                  (get_or (set t.memory i (clear_extent (file i))) j []) (file j))
              q (Agrees.loaded (get_or-set_self t.memory i _ [] (rw v.mapped h)))
        | no q ↦
            rw
              (
                get_or-set_ne t.metadata i j m no_meta q,
                get_or-set_ne t.memory i j (clear_extent (file i)) [] q,
              )
              (s j)
      ])
]

pub closed-Synced :
    (file : File) (t : Table) (b : ℕ) (p : Pushed)
    → IsTable t
    → b < t.extents * buckets_per_extent
    → (p.dirty ≡ false → p.cells ≡ bucket_of t b)
    → Synced t file
    → Synced (closed t b p) file
unfolding closed
closed-Synced file t b p v h clean s j =
    let i = b / buckets_per_extent in
    let e = set (extent_of t i) (b % buckets_per_extent) p.cells in
    let m : ExtentMeta = record (meta_of t i) { dirty = true } in
    elim (Bool-cases p.dirty) [
      | inr c ↦
          let same : set t.memory i e ≡ t.memory =
            ap (λ (l : Bucket). set t.memory i (set (extent_of t i) (b % buckets_per_extent) l))
              (clean c)
            ∙ ap (λ (x : Extent). set t.memory i x)
                (set-get_or (extent_of t i) (b % buckets_per_extent) [])
            ∙ set-get_or t.memory i [] in
          rw c (
            subst (λ (l : List Extent). Agrees (meta_of t j) (get_or l j []) (file j)) (sym same)
              (s j))
      | inl c ↦ rw c (elim (ℕ_discrete i j) [
        | yes q ↦
            subst
              (λ j.
                Agrees (get_or (set t.metadata i m) j no_meta) (get_or (set t.memory i e) j [])
                  (file j))
              q
              (Agrees.dirty (
                ap (λ (x : ExtentMeta). x.dirty)
                  (get_or-set_self t.metadata i m no_meta (rw v.described (omega arith)))))
        | no q ↦
            rw (get_or-set_ne t.metadata i j m no_meta q, get_or-set_ne t.memory i j e [] q) (s j)
      ])
    ]

pub flushed : Pwrite → Table → File → ℕ → Table × File × Bool
flushed pwrite t file i = elim (pwrite i) [
  | none ↦
      (set_meta t i (record (meta_of t i) { dirty = false }), set_file file i (extent_of t i), true)
  | some torn ↦ (t, set_file file i torn, false)
]

flush_dirty_extent_lem :
    (pwrite : Pwrite) (t : Table) (file : File) (i : ℕ)
    → IsTable t
    → i < t.extents
    → flush_dirty_extent pwrite t file i ≡ ok (flushed pwrite t file i)
unfolding flush_dirty_extent flushed lock_extent_by_index metadata_at
flush_dirty_extent_lem pwrite t file i v h = ground (arith, v.mapped, v.described)

flushed-IsTable :
    (pwrite : Pwrite) (t : Table) (file : File) (i : ℕ)
    → IsTable t
    → IsTable (flushed pwrite t file i).0 × ((flushed pwrite t file i).0.extents ≡ t.extents)
unfolding flushed
flushed-IsTable pwrite t file i v = elim (Option-cases (pwrite i)) [
  | inl e ↦ rw (e, flushed) (set_meta-IsTable t i _ v, refl)
  | inr (torn, e) ↦ rw (e, flushed) (v, refl)
]

flushed-Synced :
    (pwrite : Pwrite) (t : Table) (file : File) (i : ℕ)
    → IsTable t
    → i < t.extents
    → (meta_of t i).dirty ≡ true
    → Synced t file
    → Synced (flushed pwrite t file i).0 (flushed pwrite t file i).1
unfolding flushed
flushed-Synced pwrite t file i v h c s j = elim (Option-cases (pwrite i)) [
  | inr (torn, e) ↦
      rw (e, flushed)
        (elim (Bool-cases (j == i)) [
          | inl q ↦ Agrees.dirty (ap (λ k. (meta_of t k).dirty) ((==_iff j i).0 q) ∙ c)
          | inr q ↦ rw q (s j)
        ])
  | inl e ↦
      let m : ExtentMeta = record (meta_of t i) { dirty = false } in
      rw (e, flushed)
        (elim (Bool-cases (j == i)) [
          | inl q ↦ rw q (Agrees.written (ap (extent_of t) ((==_iff j i).0 q)))
          | inr q ↦
              let ne : i ≢ j = ground arith in
              rw (q, get_or-set_ne t.metadata i j m no_meta ne) (s j)
        ])
]

-- A well-formed table and a file of its shape, with flags that tell the truth.
pub record IsSound (t : Table) (file : File) : Type 0 where
  pub table : IsTable t
  pub synced : Synced t file
  pub file_shaped : (i : ℕ) → IsExtent (file i)

-- A failed write leaves the file its size.
abbrev pub IsPwrite : Pwrite → Type 0
IsPwrite pwrite = (i : ℕ) (e : Extent) → pwrite i ≡ some e → IsExtent e

set_file-IsExtent :
    (file : File) (i : ℕ) (e : Extent) (j : ℕ)
    → ((k : ℕ) → IsExtent (file k))
    → IsExtent e
    → IsExtent (set_file file i e j)
set_file-IsExtent file i e j f h = elim (Bool-cases (j == i)) [
  | inl q ↦ rw q h
  | inr q ↦ rw q (f j)
]

flushed-IsSound :
    (pwrite : Pwrite) (t : Table) (file : File) (i : ℕ)
    → IsPwrite pwrite
    → IsSound t file
    → i < t.extents
    → (meta_of t i).dirty ≡ true
    → IsSound (flushed pwrite t file i).0 (flushed pwrite t file i).1
unfolding flushed
flushed-IsSound pwrite t file i torn_shaped s h c = record {
  table = (flushed-IsTable pwrite t file i s.table).0;
  synced = flushed-Synced pwrite t file i s.table h c s.synced;
  file_shaped = λ j. elim (Option-cases (pwrite i)) [
    | inl e ↦
        rw (e, flushed)
          (set_file-IsExtent file i (extent_of t i) j s.file_shaped (s.table.shaped i h))
    | inr (torn, e) ↦
        rw (e, flushed) (set_file-IsExtent file i torn j s.file_shaped (torn_shaped i torn e))
  ];
}

-- The loop over the extents throws nothing and keeps the flags true, whatever writes fail.
pub flush_from-IsSound :
    (pwrite : Pwrite) (n i : ℕ) (t : Table) (file : File) (count : ℕ)
    → IsPwrite pwrite
    → IsSound t file
    → i + n ≤ t.extents
    → Returns (flush_from pwrite n i t file count) (λ r. IsSound r.0 r.1)
unfolding flush_from lock_extent_by_index metadata_at
flush_from-IsSound pwrite zero i t file count torn s h = s
flush_from-IsSound pwrite (suc n) i t file count torn s h =
    let locked : ltb i t.extents ≡ true = lt→ltb _ _ (omega arith) in
    let described : ltb i (length t.metadata) ≡ true = rw s.table.described locked in
    elim (Bool-cases (meta_of t i).dirty) [
      | inr e ↦
          rw (locked, described, e)
            (flush_from-IsSound pwrite n (suc i) t file count torn s (omega arith))
      | inl e ↦
          let (_, same) = flushed-IsTable pwrite t file i s.table in
          let f = flushed pwrite t file i in
          rw (locked, described, e, flush_dirty_extent_lem pwrite t file i s.table (omega arith))
            (flush_from-IsSound pwrite n (suc i) f.0 f.1 (if f.2 then count + 1 else count) torn
              (flushed-IsSound pwrite t file i torn s (omega arith) e) (omega arith))
    ]
