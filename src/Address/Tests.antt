-- ===== src/Address/Tests.antt =====
-- The theorems on addresses at concrete extents.
use bees.Base.{
  ◌+◌, ◌^◌, ◌≡◌, inr, refl, Bool, true, false, arith, ok, throw, invalid_argument, Returns,
}
use bees.Address.{
  FileExtent, ExtentFlags, address_of_extent, compressed_address, magic_check, address_eq,
  has_compressed_offset,
}
use bees.Address.Located.{address_of_extent-Located}
use bees.Address.Parts.{InExtent, InCompressed, Located}

abbrev flags_of : Bool → Bool → ExtentFlags
flags_of encoded delayed = record {
  flag_hole = false;
  flag_encoded = encoded;
  flag_unknown = false;
  flag_delalloc = delayed;
  flag_last = true;
  flag_shared = false;
  flag_not_aligned = false;
  flag_data_inline = false;
  flag_unrecognized = false;
}

-- 5000 bytes in compressed form, the second block of the data on.
abbrev packed : FileExtent
packed = record {
  begin = 0x10000;
  end = 0x10000 + 5000;
  physical = 0x7000;
  offset = 0x1000;
  flags = flags_of true false;
}

packed_first : address_of_extent packed 0x10000 ≡ ok (0x7000 + 2 ^ 11 + 2)
unfolding address_of_extent magic_check compressed_address
packed_first = refl

packed_last : address_of_extent packed 0x11000 ≡ ok (0x7000 + 2 ^ 11 + 2 ^ 10 + 3)
unfolding address_of_extent magic_check compressed_address
packed_last = refl

delayed_block : address_of_extent (record packed { flags = flags_of true true }) 0x11000 ≡ ok 1
unfolding address_of_extent magic_check compressed_address
delayed_block = refl

packed_before : address_of_extent packed 0x1000 ≡ throw invalid_argument
unfolding address_of_extent magic_check compressed_address
packed_before = refl

packed-InExtent : InExtent packed 0x11000
packed-InExtent = record {
  physical_aligned = omega arith;
  begin_aligned = omega arith;
  offset_aligned = omega arith;
  from_begin = omega arith;
  before_end = omega arith;
  end_max = omega arith;
  allocated = omega arith;
  physical_max = omega arith;
}

packed-InCompressed : InCompressed packed
packed-InCompressed = record { aligned = omega arith; fits = omega arith }

address_of_extent-Located_example :
    Returns (address_of_extent packed 0x11000) (Located packed 0x11000)
unfolding magic_check
address_of_extent-Located_example =
    address_of_extent-Located packed 0x11000 packed-InExtent (inr packed-InCompressed) refl

-- Equality passes over the offset where one side has none, so it is not transitive.
eq_without_offset : (address_eq 0x7802 0x7800 ≡ true) × (address_eq 0x7800 0x7803 ≡ true)
unfolding address_eq has_compressed_offset
eq_without_offset = (refl, refl)
