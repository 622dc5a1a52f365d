-- ===== src/Address.antt =====
-- BeesAddress (src/bees.h, src/bees-types.cc): the physical address of a block with flag bits.
pub mod Parts
pub mod Located
pub mod Magic
pub mod Order
mod Tests
use bees.Base.{
  ℕ, ◌+◌, ◌-◌, ◌*◌, ◌/◌, ◌%◌, ◌^◌, Bool, true, false, not, ◌&&◌, ◌||◌, ltb, leb, ◌==◌,
  if◌then◌else◌, Outcome, ok, throw, invalid_argument, ◌>>=◌, ◌>>◌, throw_check, has_bit, clear_bit,
  set_bit,
}

pub data MagicValue : Type 0 where
  magic_zero delalloc hole unusable last : MagicValue

abbrev pub magic_value : MagicValue → ℕ
magic_value magic_zero = 0
magic_value delalloc = 1
magic_value hole = 2
magic_value unusable = 3
magic_value last = 4

-- The bits of Extent::flags that the code tests; the kernel's header numbers them. flag_unrecognized
-- is any other of the low 32 bits: recognized_flags is unsigned, so its complement has no higher bit.
pub record ExtentFlags : Type 0 where
  pub flag_hole : Bool
  pub flag_encoded : Bool
  pub flag_unknown : Bool
  pub flag_delalloc : Bool
  pub flag_last : Bool
  pub flag_shared : Bool
  pub flag_not_aligned : Bool
  pub flag_data_inline : Bool
  pub flag_unrecognized : Bool

-- The fields of an Extent that the code reads.
pub record FileExtent : Type 0 where
  pub begin : ℕ
  pub end : ℕ
  pub physical : ℕ
  pub offset : ℕ
  pub flags : ExtentFlags

abbrev pub block_size_clone : ℕ
block_size_clone = 4096

abbrev pub block_size_max_compressed_extent : ℕ
block_size_max_compressed_extent = 128 * 1024

abbrev pub c_offset_min : ℕ
c_offset_min = 1

abbrev pub c_offset_max : ℕ
c_offset_max = 32

unfoldable pub is_magic : ℕ → Bool
is_magic m = ltb m 4

unfoldable pub is_compressed : ℕ → Bool
is_compressed m = leb 4 m && has_bit m 11

unfoldable pub has_compressed_offset : ℕ → Bool
has_compressed_offset m = leb 4 m && has_bit m 11 && not (m % 64 == 0)

unfoldable pub is_toxic : ℕ → Bool
is_toxic m = leb 4 m && has_bit m 9

unfoldable pub is_unaligned_eof : ℕ → Bool
is_unaligned_eof m = leb 4 m && has_bit m 10

-- The magic value that stands in for the block, if the flags ask for one.
unfoldable pub magic_check : ExtentFlags → ℕ → Bool × ℕ
magic_check f m =
    if f.flag_hole
    then (true, magic_value hole)
    else if f.flag_unrecognized
    then (true, magic_value unusable)
    else if f.flag_not_aligned || f.flag_data_inline
    then (true, magic_value unusable)
    else if f.flag_unknown || f.flag_delalloc
    then (true, magic_value delalloc)
    else (false, m)

-- physical | compressed | offset bits: the checks before it keep the bits apart.
unfoldable pub compressed_address : FileExtent → ℕ → Outcome ℕ
compressed_address e file_offset = do
  throw_check invalid_argument (e.offset % 4096 == 0)
  throw_check invalid_argument (ltb e.offset block_size_max_compressed_extent)
  let extent_offset = (file_offset + (2 ^ 64 - e.begin) + e.offset) % 2 ^ 32
  throw_check invalid_argument
      (ltb extent_offset (2 ^ 31) && ltb extent_offset block_size_max_compressed_extent)
  throw_check invalid_argument (extent_offset % 4096 == 0)
  let offset_bits = extent_offset / block_size_clone + 1
  throw_check invalid_argument (leb c_offset_min offset_bits && leb offset_bits c_offset_max)
  throw_check invalid_argument (offset_bits - offset_bits % 64 == 0)
  ok (set_bit e.physical 11 + offset_bits)

-- The block at a file offset of an extent.
unfoldable pub address_of_extent : FileExtent → ℕ → Outcome ℕ
address_of_extent e file_offset = do
  throw_check invalid_argument (e.physical % 4096 == 0)
  throw_check invalid_argument (e.begin % 4096 == 0)
  throw_check invalid_argument (file_offset % 4096 == 0)
  throw_check invalid_argument (ltb e.begin e.end)
  if (magic_check e.flags 0).0 then ok (magic_check e.flags 0).1 else (do
    throw_check invalid_argument (ltb 0 e.physical)
    new_addr ←
        (if e.flags.flag_encoded
          then compressed_address e file_offset
          else ok ((e.physical + (file_offset + (2 ^ 64 - e.begin))) % 2 ^ 64))
    ok (
        if e.flags.flag_last
          && not (e.end % 4096 == 0)
          && (file_offset - file_offset % 4096 == e.end - e.end % 4096)
        then set_bit new_addr 10
        else new_addr))

unfoldable pub get_physical_or_zero : ℕ → ℕ
unfolding is_magic
get_physical_or_zero m =
    if is_magic m then 0 else clear_bit (clear_bit (clear_bit (m - m % 64) 11) 10) 9

unfoldable pub get_compressed_offset : ℕ → Outcome ℕ
unfolding has_compressed_offset
get_compressed_offset m = do
  throw_check invalid_argument (has_compressed_offset m)
  ok ((m % 64 - 1) * block_size_clone)

unfoldable pub set_toxic : ℕ → Outcome ℕ
unfolding is_magic
set_toxic m = do throw_check invalid_argument (not (is_magic m)); ok (set_bit m 9)

-- != on bool
abbrev pub differs : Bool → Bool → Bool
differs true b = not b
differs false b = b

unfoldable pub address_eq : ℕ → ℕ → Bool
address_eq a b =
    if differs (has_compressed_offset a) (has_compressed_offset b)
    then a - a % 64 == b - b % 64
    else a == b

unfoldable pub address_lt : ℕ → ℕ → Bool
address_lt a b =
    if differs (has_compressed_offset a) (has_compressed_offset b)
    then ltb (a - a % 64) (b - b % 64)
    else ltb a b
