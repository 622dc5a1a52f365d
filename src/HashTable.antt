-- ===== src/HashTable.antt =====
-- src/bees-hash.cc and the class BeesHashTable of src/bees.h: the cells, and what the children share.
pub mod Bucket
pub mod Table
mod Tests
use bees.Base.{ℕ, ◌*◌, ◌/◌, Bool, ◌&&◌, ◌==◌}

-- struct Cell
pub record Cell : Type 0 where
  pub e_hash : ℕ
  pub e_addr : ℕ

abbrev pub empty_cell : Cell
empty_cell = record { e_hash = 0; e_addr = 0 }

-- operator==
abbrev pub cell_eq : Cell → Cell → Bool
cell_eq a b = a.e_hash == b.e_hash && a.e_addr == b.e_addr

abbrev pub block_size_hashtab_bucket : ℕ
block_size_hashtab_bucket = 4096

abbrev pub block_size_hashtab_extent : ℕ
block_size_hashtab_extent = 128 * 1024

-- sizeof(Cell)
abbrev pub size_of_cell : ℕ
size_of_cell = 16

abbrev pub cells_per_bucket : ℕ
cells_per_bucket = block_size_hashtab_bucket / size_of_cell

abbrev pub buckets_per_extent : ℕ
buckets_per_extent = block_size_hashtab_extent / block_size_hashtab_bucket
