-- ===== src/HashTable/Tests.antt =====
-- The theorems on the hash table at concrete inputs, and runs of its operations.
use bees.Base.{
  ℕ, zero, suc, ◌≤◌, ◌<◌, ◌≡◌, ◌≢◌, refl, ap, ◌∙◌, ◌⊎◌, Bool, true, false, List, [], ◌∷◌, ◌++◌,
  Option, none, arith, length, get_or, ok, Returns, replicate, length-replicate, get_or-replicate,
}
use bees.HashTable.{Cell, empty_cell, buckets_per_extent, cells_per_bucket}
use bees.HashTable.Bucket.{push_front, push_random, verify_cell, verify_cell_range}
use bees.HashTable.Bucket.Front.{FrontEffect, push_front-FrontEffect}
use bees.HashTable.Bucket.Random.{RandomEffect, push_random-RandomEffect}
use bees.HashTable.Bucket.Count.{count, NoDuplicates, push-NoDuplicates}
use bees.HashTable.Bucket.Verify.{verify_sound}
use bees.HashTable.Table.{
  Extent, Table, File, meta_of, bucket_of, push_front_hash_addr, push_random_hash_addr,
  erase_hash_addr, find_cell,
}
use bees.HashTable.Table.Invariant.{IsTable, IsExtent, IsDisk, home, fetched}
use bees.HashTable.Table.Lookup.{loaded, bucket}
use bees.HashTable.Table.RoundTrip.{
  find_cell-push_front, find_cell-push_random, find_cell-erase, entry,
}
use bees.HashTable.Table.Synced.{IsSound, Agrees}
use bees.HashTable.Table.History.{
  Call, finds, erases, pushes_front, pushes_random, flushes, run, run-IsSound,
}
use bees.HashTable.Table.Race.{flush_race, flush_during_push}

abbrev cell : ℕ → ℕ → Cell
cell hash addr = record { e_hash = hash; e_addr = addr }

-- Three entries, and an empty place in the middle.
abbrev three : List Cell
three = cell 7 0x1000 ∷ cell 8 0x2000 ∷ empty_cell ∷ cell 9 0x3000 ∷ []

push_front_found :
    (push_front (cell 8 0x2000) three).cells
    ≡ cell 8 0x2000 ∷ cell 7 0x1000 ∷ empty_cell ∷ cell 9 0x3000 ∷ []
unfolding push_front
push_front_found = refl

push_random_bump :
    (push_random (cell 9 0x3000) 1 three).cells
    ≡ cell 7 0x1000 ∷ cell 9 0x3000 ∷ cell 8 0x2000 ∷ empty_cell ∷ []
unfolding push_random
push_random_bump = refl

push_random_fill :
    (push_random (cell 5 0x5000) 3 three).cells
    ≡ cell 7 0x1000 ∷ cell 8 0x2000 ∷ cell 5 0x5000 ∷ cell 9 0x3000 ∷ []
unfolding push_random
push_random_fill = refl

push_front-FrontEffect_example :
    FrontEffect (cell 5 0x5000) three (push_front (cell 5 0x5000) three)
push_front-FrontEffect_example = push_front-FrontEffect (cell 5 0x5000) three (omega arith)

push_random-RandomEffect_example :
    RandomEffect (cell 9 0x3000) 1 three (push_random (cell 9 0x3000) 1 three)
push_random-RandomEffect_example = push_random-RandomEffect (cell 9 0x3000) 1 three (omega arith)

abbrev two : List Cell
two = cell 7 0x1000 ∷ empty_cell ∷ []

two-NoDuplicates : NoDuplicates two
unfolding count
two-NoDuplicates c h = ground arith

push-NoDuplicates_example :
    NoDuplicates (push_front (cell 5 0x5000) two).cells
    × NoDuplicates (push_random (cell 5 0x5000) 1 two).cells
push-NoDuplicates_example = push-NoDuplicates (cell 5 0x5000) 1 two (omega arith) two-NoDuplicates

verify_sound_example :
    (count (cell 7 0x1000) three ≤ 1) × ((count (cell 7 0x1000) three ≡ 0) ⊎ (0x1000 ≤ 0x1000))
unfolding verify_cell_range verify_cell
verify_sound_example = verify_sound three (cell 7 0x1000) refl (omega arith)

-- A table of one extent that is not in memory yet, over a file of empty cells.
abbrev blank : Extent
blank = replicate buckets_per_extent (replicate cells_per_bucket empty_cell)

blank-IsExtent : IsExtent blank
blank-IsExtent = (
  length-replicate buckets_per_extent (replicate cells_per_bucket empty_cell),
  λ s h.
      ap length (get_or-replicate buckets_per_extent s (replicate cells_per_bucket empty_cell) [] h)
      ∙ length-replicate cells_per_bucket empty_cell,
)

abbrev table : Bool → Table
table missing = record {
  buckets = buckets_per_extent;
  extents = 1;
  memory = blank ∷ [];
  metadata = record { dirty = false; missing = missing } ∷ [];
  signalled = false;
}

abbrev blanks : File
blanks i = blank

first-IsExtent : (i : ℕ) (m : Bool) → i < 1 → IsExtent (get_or (table m).memory i [])
first-IsExtent zero m h = blank-IsExtent
first-IsExtent (suc i) m h = absurd (omega arith)

table-IsTable : (m : Bool) → IsTable (table m)
table-IsTable m = record {
  sized = refl;
  mapped = refl;
  described = refl;
  nonempty = omega arith;
  shaped = λ i h. first-IsExtent i m h;
}

blanks-IsDisk : IsDisk (λ _. none) blanks
blanks-IsDisk = record { file_shaped = λ i. blank-IsExtent; torn_shaped = λ i e h. cc }

table-agrees : (i : ℕ) → Agrees (meta_of (table true) i) (get_or (table true).memory i []) blank
table-agrees zero = Agrees.missing refl
table-agrees (suc i) = Agrees.missing refl

table-IsSound : IsSound (table true) blanks
table-IsSound = record {
  table = table-IsTable true;
  synced = table-agrees;
  file_shaped = λ i. blank-IsExtent;
}

abbrev calls : List Call
calls =
    pushes_random 3 7 0x1000
    ∷ pushes_front 8 0x2000
    ∷ flushes (λ _. none)
    ∷ erases 7 0x1000
    ∷ finds 8
    ∷ []

run-IsSound_example : Returns (run (table true, blanks) calls) (λ r. IsSound r.0 r.1)
run-IsSound_example =
    run-IsSound (table true) blanks calls (omega arith, (tt, ((λ i e h. cc), (tt, (tt, tt)))))
      table-IsSound

abbrev none_read : ℕ → Option Extent
none_read i = none

find_cell-push_front_example :
    (t' : Table) × (found : Bool) × (rest : List Cell) × (push_front_hash_addr none_read blanks
        (table true)
        40
        0x1000
      ≡ ok (t', found))
    × IsTable t'
    × (find_cell none_read blanks t' 40 ≡ ok (t', entry 40 0x1000 ∷ rest))
    × ((b : ℕ)
        → (b ≡ home (table true) 40)
          ⊎ (bucket_of t' b
              ≡ bucket_of
                  (loaded none_read blanks blanks-IsDisk (table true) (table-IsTable true) 40)
                  b))
find_cell-push_front_example =
    find_cell-push_front none_read blanks blanks-IsDisk (table true) (table-IsTable true) 40 0x1000
      (omega arith)

find_cell-push_random_example :
    (t' : Table) × (found : Bool) × (ys : List Cell) × (zs : List Cell) × (push_random_hash_addr
        none_read blanks 3
        (table true)
        40
        0x1000
      ≡ ok (t', found))
    × IsTable t'
    × (find_cell none_read blanks t' 40 ≡ ok (t', ys ++ entry 40 0x1000 ∷ zs))
    × ((b : ℕ)
        → (b ≡ home (table true) 40)
          ⊎ (bucket_of t' b
              ≡ bucket_of
                  (loaded none_read blanks blanks-IsDisk (table true) (table-IsTable true) 40)
                  b))
find_cell-push_random_example =
    find_cell-push_random none_read blanks blanks-IsDisk (table true) (table-IsTable true) 3 40
      0x1000 (omega arith) (omega arith)

flush_race_example : Returns (flush_during_push (table false) blanks 40 0x1000) (λ r.
    ((meta_of r.0 0).dirty ≡ false)
    × ((meta_of r.0 0).missing ≡ false)
    × (bucket_of r.0 8 ≢ get_or (r.1 0) 8 []))
flush_race_example =
    flush_race (table false) blanks 40 0x1000 (table-IsTable false) blanks-IsDisk refl
      (λ e. omega (arith, ap (λ (x : Cell). x.e_addr) e))

blank_count :
    count
      (entry 40 0x1000)
      (bucket none_read blanks blanks-IsDisk (table false) (table-IsTable false) 40)
    ≤ 1
unfolding count fetched
blank_count = omega arith

find_cell-erase_example :
    (t' : Table) × (found : Bool) × (cells : List Cell) × (erase_hash_addr none_read blanks
        (table false)
        40
        0x1000
      ≡ ok (t', found))
    × IsTable t'
    × (find_cell none_read blanks t' 40 ≡ ok (t', cells))
    × (count (entry 40 0x1000) cells ≡ 0)
    × ((b : ℕ)
        → (b ≡ home (table false) 40)
          ⊎ (bucket_of t' b
              ≡ bucket_of
                  (loaded none_read blanks blanks-IsDisk (table false) (table-IsTable false) 40)
                  b))
find_cell-erase_example =
    find_cell-erase none_read blanks blanks-IsDisk (table false) (table-IsTable false) 40 0x1000
      (omega arith) blank_count
