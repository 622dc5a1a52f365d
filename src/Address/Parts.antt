-- ===== src/Address/Parts.antt =====
-- The parts of the address that an aligned block of an extent has (src/bees-types.cc).
use bees.Base.{
  ℕ, ◌+◌, ◌-◌, ◌*◌, ◌/◌, ◌%◌, ◌^◌, ◌≤◌, ◌<◌, ◌≡◌, ◌⊎◌, refl, ap, true, false, arith, ltb, leb, ◌==◌,
  ok,
}
use bees.Address.{
  FileExtent, is_magic, is_compressed, has_compressed_offset, is_toxic, get_physical_or_zero,
  get_compressed_offset, compressed_address,
}
use bees.Address.Order.{cleared_value}

-- A position inside of an extent that has a physical address, all of it aligned.
pub record InExtent (e : FileExtent) (file_offset : ℕ) : Type 0 where
  pub physical_aligned : e.physical % 4096 ≡ 0
  pub begin_aligned : e.begin % 4096 ≡ 0
  pub offset_aligned : file_offset % 4096 ≡ 0
  pub from_begin : e.begin ≤ file_offset
  pub before_end : file_offset < e.end
  pub end_max : e.end < 2 ^ 63
  pub allocated : 0 < e.physical
  pub physical_max : e.physical + (e.end - e.begin) < 2 ^ 63

-- A compressed extent does not reach beyond 128K of data.
pub record InCompressed (e : FileExtent) : Type 0 where
  pub aligned : e.offset % 4096 ≡ 0
  pub fits : e.offset + (e.end - e.begin) ≤ 131072

-- What the address of the block says of it.
pub record Located (e : FileExtent) (file_offset m : ℕ) : Type 0 where
  pub physical_block : is_magic m ≡ false
  pub not_toxic : is_toxic m ≡ false
  pub kind : is_compressed m ≡ e.flags.flag_encoded
  pub place :
      ((e.flags.flag_encoded ≡ true)
        × (get_physical_or_zero m ≡ e.physical)
        × (get_compressed_offset m ≡ ok (file_offset - e.begin + e.offset)))
      ⊎ ((e.flags.flag_encoded ≡ false)
          × (get_physical_or_zero m ≡ e.physical + (file_offset - e.begin)))

-- The parts of an aligned address with `k` in its low bits.
record Parts (p k m : ℕ) : Type 0 where
  offset_part : m % 64 ≡ k % 64
  toxic_part : m / 512 % 2 ≡ k / 512 % 2
  eof_part : m / 1024 % 2 ≡ k / 1024 % 2
  compressed_part : m / 2048 % 2 ≡ k / 2048 % 2

parts : (p k : ℕ) → p % 4096 ≡ 0 → k < 4096 → Parts p k (p + k)
parts p k h l =
    let q = p / 4096 in
    let e : p ≡ 4096 * q = omega arith in
    record {
      offset_part = omega arith;
      toxic_part = omega arith;
      eof_part = omega arith;
      compressed_part = omega arith;
    }

-- A compressed block: `q` blocks into the extent at `p`, with the end-of-file bit or without.
pub compressed_parts :
    (p q k : ℕ)
    → p % 4096 ≡ 0
    → 0 < p
    → q < 32
    → (k ≡ 2048 + q + 1) ⊎ (k ≡ 3072 + q + 1)
    → (is_magic (p + k) ≡ false)
      × (is_toxic (p + k) ≡ false)
      × (is_compressed (p + k) ≡ true)
      × (get_physical_or_zero (p + k) ≡ p)
      × (get_compressed_offset (p + k) ≡ ok (4096 * q))
unfolding is_magic is_toxic is_compressed get_physical_or_zero get_compressed_offset
    has_compressed_offset
compressed_parts p q k h pos lt cases =
    let small : k < 4096 = omega arith in
    let r = parts p k h small in
    let a = r.offset_part in
    let b = r.toxic_part in
    let c = r.eof_part in
    let d = r.compressed_part in
    let t : ltb (p + k) 4 ≡ false = ground arith in
    let u : leb 4 (p + k) ≡ true = ground arith in
    let b' : (p + k) / 512 % 2 ≡ 0 = omega arith in
    let d' : (p + k) / 2048 % 2 ≡ 1 = omega arith in
    let a' : (p + k) % 64 ≡ q + 1 = omega arith in
    let nz : (q + 1 == 0) ≡ false = ground arith in
    (
      t,
      rw (u, b') refl,
      rw (u, d') refl,
      rw (t, cleared_value (p + k)) (omega arith),
      rw (u, d', a', nz) (ap ok (omega arith)),
    )

pub plain_parts :
    (p k : ℕ)
    → p % 4096 ≡ 0
    → 0 < p
    → (k ≡ 0) ⊎ (k ≡ 1024)
    → (is_magic (p + k) ≡ false)
      × (is_toxic (p + k) ≡ false)
      × (is_compressed (p + k) ≡ false)
      × (get_physical_or_zero (p + k) ≡ p)
unfolding is_magic is_toxic is_compressed get_physical_or_zero
plain_parts p k h pos cases =
    let small : k < 4096 = omega arith in
    let r = parts p k h small in
    let a = r.offset_part in
    let b = r.toxic_part in
    let c = r.eof_part in
    let d = r.compressed_part in
    let t : ltb (p + k) 4 ≡ false = ground arith in
    let u : leb 4 (p + k) ≡ true = ground arith in
    let b' : (p + k) / 512 % 2 ≡ 0 = omega arith in
    let d' : (p + k) / 2048 % 2 ≡ 0 = omega arith in
    (t, rw (u, b') refl, rw (u, d') refl, rw (t, cleared_value (p + k)) (omega arith))

-- The checks of a compressed block hold, and its bits are apart.
pub compressed_address_lem :
    (e : FileExtent) (file_offset : ℕ)
    → InExtent e file_offset
    → InCompressed e
    → compressed_address e file_offset
      ≡ ok (e.physical + (2048 + (file_offset - e.begin + e.offset) / 4096 + 1))
unfolding compressed_address
compressed_address_lem e file_offset i c =
    let a1 = i.physical_aligned in
    let a2 = i.begin_aligned in
    let a3 = i.offset_aligned in
    let a4 = c.aligned in
    let b1 = i.from_begin in
    let b2 = i.before_end in
    let b3 = i.end_max in
    let b4 = c.fits in
    let x = file_offset - e.begin + e.offset in
    let wrapped : (file_offset + (2 ^ 64 - e.begin) + e.offset) % 2 ^ 32 ≡ x = omega arith in
    let small : x < 131072 = omega arith in
    let aligned : x % 4096 ≡ 0 = omega arith in
    let q = x / 4096 in
    let t1 : (e.offset % 4096 == 0) ≡ true = ground arith in
    let t2 : ltb e.offset 131072 ≡ true = ground arith in
    let t3 : ltb x (2 ^ 31) ≡ true = ground arith in
    let t4 : ltb x 131072 ≡ true = ground arith in
    let t5 : (x % 4096 == 0) ≡ true = ground arith in
    let t6 : leb 1 (q + 1) ≡ true = ground arith in
    let t7 : leb (q + 1) 32 ≡ true = ground arith in
    let t8 : (q + 1 - (q + 1) % 64 == 0) ≡ true = ground arith in
    let t9 : (e.physical / 2048 % 2 == 1) ≡ false = ground arith in
    rw (t1, t2, wrapped, t3, t4, t5, t6, t7, t8, t9) (ap ok (omega arith))
