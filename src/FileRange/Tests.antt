-- ===== src/FileRange/Tests.antt =====
-- The theorems on ranges and pairs at concrete files.
use bees.Base.{
  ℕ, ◌+◌, ◌*◌, ◌%◌, ◌≡◌, ◌↔◌, refl, true, false, some, [], arith, ok, throw, invalid_argument,
  Allows,
}
use bees.FileRange.{
  FileId, FileRange, no_file, overlaps, bytes_meet, is_same_file, fid, id_eq, id_defined, same_fd,
  pair_shrink_end, range_shrink_end, size, grow_end, file_size, grow_begin,
}
use bees.Address.{get_physical_or_zero}
use bees.FileRange.Overlap.{Common, overlaps_iff}
use bees.FileRange.Pair.{
  World, grow, grow_backward, grow_forward, backward, forward_in, next_extent, may_join,
  is_data_equal, bytes, new_block,
}
use bees.FileRange.Pair.Identical.{IsPair}
use bees.FileRange.{pair_shrink_begin}
use bees.Base.{Returns}
use bees.FileRange.Pair.Shrink.{Shrunk, shrink-Shrunk}
use bees.FileRange.Pair.Grow.{Grown, grow-Grown}

abbrev range : ℕ → ℕ → ℕ → FileRange
range fd from to = record {
  m_fd = some fd;
  m_fid = no_file;
  m_begin = from;
  m_end = to;
  m_file_size = 0;
}

abbrev id_of : ℕ → FileId
id_of fd = record { root = 5; ino = fd + 256 }

overlaps_iff_example : (overlaps id_of (λ fd. 8192) (range 1 0 4096) (range 1 4095 8192) ≡ true) ↔ (
    Common (range 1 0 4096) (range 1 4095 8192)
    × (is_same_file id_of (λ fd. 8192) (range 1 0 4096) (range 1 4095 8192) ≡ true))
overlaps_iff_example =
    overlaps_iff id_of (λ fd. 8192) (range 1 0 4096) (range 1 4095 8192) (omega arith) (omega arith)

-- Two files of 8194 bytes, the one a copy of the other.
abbrev copies : World
copies = record {
  stat_id = id_of;
  stat_size = λ fd. 8194;
  extent_at = λ fd pos. record { begin = 8192; end = 8194; is_hole = false };
  byte_at = λ fd i. i % 4096 + 1;
  address_at = λ fd i. ok (0x100000 * fd + i);
  hash_of = λ b. 7;
  addresses_of = λ h. [];
}

abbrev pair : FileRange × FileRange
pair = (range 1 4096 8192, range 2 4096 8192)

pair-IsPair : IsPair copies 1 2 pair
unfolding overlaps bytes_meet is_same_file fid id_eq id_defined same_fd
pair-IsPair = record {
  fd_first = refl;
  fd_second = refl;
  order_first = omega arith;
  order_second = omega arith;
  same_size = refl;
  same_bytes = λ i h. refl;
  apart = refl;
}

grow-Grown_example : Allows (grow copies false pair) (Grown copies 1 2 pair)
grow-Grown_example = grow-Grown copies 1 2 false pair pair-IsPair

-- The last two bytes of the files join the pair.
abbrev grown : FileRange → FileRange
grown r = record r { m_end = 8194; m_file_size = 8194 }

grow_to_end :
    grow copies false pair
    ≡ ok (some ((grown (range 1 4096 8192), grown (range 2 4096 8192)), true))
unfolding grow grow_backward grow_forward backward forward_in next_extent may_join is_data_equal
    bytes new_block overlaps bytes_meet is_same_file fid id_eq id_defined same_fd size grow_end
    file_size grow_begin get_physical_or_zero
grow_to_end = refl

shrink_too_far : pair_shrink_end 5000 pair ≡ throw invalid_argument
unfolding pair_shrink_end range_shrink_end size
shrink_too_far = refl

shrink-Shrunk_example :
    Returns (pair_shrink_begin 96 pair) (Shrunk copies 1 2 pair 96)
    × Returns (pair_shrink_end 96 pair) (Shrunk copies 1 2 pair 96)
shrink-Shrunk_example = shrink-Shrunk copies 1 2 pair 96 pair-IsPair (omega arith) (omega arith)
