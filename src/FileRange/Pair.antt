-- ===== src/FileRange/Pair.antt =====
-- Growing a pair of equal ranges (BeesRangePair::grow, src/bees-types.cc). The extents, the bytes of
-- the files, the addresses of blocks and the hash table are parameters.
pub mod Identical
pub mod Grow
pub mod Shrink
use bees.Base.{
  ℕ, zero, suc, ◌+◌, ◌-◌, ◌*◌, ◌%◌, ◌^◌, min, max, Bool, true, false, not, ◌&&◌, ◌||◌, Option, none,
  some, List, [], ◌∷◌, ltb, leb, ◌==◌, if◌then◌else◌, Outcome, ok, throw, invalid_argument,
  runtime_error, ◌>>=◌, ◌>>◌, throw_check,
}
use bees.Address.{is_magic, is_compressed, is_toxic, get_physical_or_zero}
use bees.FileRange.{FileId, FileRange, size, grow_begin, grow_end, overlaps}

abbrev pub block_size_max_extent : ℕ
block_size_max_extent = 256 * 1024 * 1024

-- Where an extent begins and ends, and whether it is a hole.
pub record Place : Type 0 where
  pub begin : ℕ
  pub end : ℕ
  pub is_hole : Bool

-- What the functions ask of the system: stat, the extent at a position, a byte of a file, the
-- address of a block, the hash of a block, the addresses that the hash table has for a hash.
pub record World : Type 0 where
  pub stat_id : ℕ → FileId
  pub stat_size : ℕ → ℕ
  pub extent_at : ℕ → ℕ → Place
  pub byte_at : ℕ → ℕ → ℕ
  pub address_at : ℕ → ℕ → Outcome ℕ
  pub hash_of : List ℕ → ℕ
  pub addresses_of : ℕ → List ℕ

-- BeesBlockData: a block, or a part of one at the end of the file.
pub record BlockData : Type 0 where
  pub block_fd : ℕ
  pub block_offset : ℕ
  pub block_length : ℕ

-- The length is the end minus the begin, which throws where it is not positive.
unfoldable pub new_block : ℕ → ℕ → ℕ → Outcome BlockData
new_block fd from to = do
  throw_check invalid_argument (ltb from to)
  throw_check invalid_argument (leb (to - from) 4096)
  throw_check invalid_argument (from % 4096 == 0)
  ok (record { block_fd = fd; block_offset = from; block_length = to - from })

abbrev pub bytes_from : (ℕ → ℕ) → ℕ → ℕ → List ℕ
bytes_from byte offset zero = []
bytes_from byte offset (suc n) = byte offset ∷ bytes_from byte (offset + 1) n

abbrev pub list_eq : List ℕ → List ℕ → Bool
list_eq [] [] = true
list_eq [] (y ∷ ys) = false
list_eq (x ∷ xs) [] = false
list_eq (x ∷ xs) (y ∷ ys) = (x == y) && list_eq xs ys

abbrev pub all_zero : List ℕ → Bool
all_zero [] = true
all_zero (x ∷ xs) = (x == 0) && all_zero xs

abbrev pub any_toxic : List ℕ → Bool
any_toxic [] = false
any_toxic (x ∷ xs) = is_toxic x || any_toxic xs

-- fd() of a range: a closed descriptor fails in the first call on it.
abbrev pub open_fd : FileRange → Outcome ℕ
open_fd r = elim r.m_fd [ none ↦ throw runtime_error | some fd ↦ ok fd ]

module _ (w : World) where
  unfoldable pub bytes : BlockData → List ℕ
  bytes b = bytes_from (w.byte_at b.block_fd) b.block_offset b.block_length

  unfoldable pub is_data_equal : BlockData → BlockData → Outcome Bool
  is_data_equal a b = do
    throw_check invalid_argument (ltb 0 a.block_length)
    throw_check invalid_argument (a.block_length == b.block_length)
    ok (list_eq (bytes a) (bytes b))

  -- The tests on the two new blocks; `probe` is the position whose address the third test reads.
  unfoldable pub may_join : BlockData → BlockData → ℕ → Outcome Bool
  may_join a b probe = do
    same ← is_data_equal a b
    if not same then ok false else (do
      a_addr ← w.address_at a.block_fd a.block_offset
      b_addr ← w.address_at b.block_fd b.block_offset
      if get_physical_or_zero a_addr == get_physical_or_zero b_addr then ok false else (do
        first_addr ← w.address_at a.block_fd probe
        ok (
            if all_zero (bytes a) && not (is_magic first_addr) && not (is_compressed first_addr)
            then false
            else not (any_toxic (w.addresses_of (w.hash_of (bytes a)))))))

  -- A round that looks backward: the larger pair, or none where the loop breaks.
  unfoldable pub backward : FileRange × FileRange → Place → Outcome (Option (FileRange × FileRange))
  backward p e = do
    if leb p.1.m_begin e.begin then ok none else (do
      new_first ← grow_begin 4096 p.0
      if new_first.m_begin == p.0.m_begin then ok none else (do
        new_second ← grow_begin 4096 p.1
        if new_second.m_begin == p.1.m_begin
            then ok none
            else if overlaps w.stat_id w.stat_size new_first new_second
            then ok none
            else (do
              first_fd ← open_fd p.0
              second_fd ← open_fd p.1
              a ← new_block first_fd new_first.m_begin p.0.m_begin
              b ← new_block second_fd new_second.m_begin p.1.m_begin
              joins ← may_join a b new_first.m_begin
              if not joins then ok none else (do
                m ← size new_first
                n ← size new_second
                throw_check invalid_argument (m == n)
                ok (some (new_first, new_second))))))

  -- A round that looks forward; the extent may be the next one.
  unfoldable pub forward_in : FileRange × FileRange → Outcome (Option (FileRange × FileRange))
  forward_in p = do
    new_first ← grow_end w.stat_id w.stat_size 4096 p.0
    if new_first.m_end == p.0.m_end then ok none else (do
      new_second ← grow_end w.stat_id w.stat_size 4096 p.1
      if new_second.m_end == p.1.m_end
          then ok none
          else if not (new_second.m_end % 4096 == new_first.m_end % 4096)
          then ok none
          else if overlaps w.stat_id w.stat_size new_first new_second
          then ok none
          else (do
            first_fd ← open_fd p.0
            second_fd ← open_fd p.1
            a ← new_block first_fd p.0.m_end new_first.m_end
            b ← new_block second_fd p.1.m_end new_second.m_end
            joins ← may_join a b new_first.m_begin
            if not joins then ok none else (do
              m ← size new_first
              n ← size new_second
              throw_check invalid_argument (m == n)
              ok (some (new_first, new_second)))))

  -- The extent that the forward round works in, or none where the loop breaks.
  unfoldable pub next_extent : Bool → FileRange × FileRange → Place → Outcome (Option Place)
  next_extent constrained p e = do
    if ltb p.1.m_end e.end then ok (some e) else if constrained then ok none else (do
      second_fd ← open_fd p.1
      let next = w.extent_at second_fd p.1.m_end
      ok (if next.is_hole then none else some next))

  -- The loops, with the rounds that are left; `rv` says whether a round hit. None where they run out.
  unfoldable pub grow_backward :
      ℕ → FileRange × FileRange → Place → Bool → Outcome (Option ((FileRange × FileRange) × Bool))
  grow_backward zero p e rv = ok none
  grow_backward (suc n) p e rv = do
    first_size ← size p.0
    if leb block_size_max_extent first_size then ok (some (p, rv)) else (do
      r ← backward p e
      elim r [ none ↦ ok (some (p, rv)) | some larger ↦ grow_backward n larger e true ])

  unfoldable pub grow_forward :
      ℕ
      → Bool
      → FileRange × FileRange
      → Place
      → Bool
      → Outcome (Option ((FileRange × FileRange) × Bool))
  grow_forward zero constrained p e rv = ok none
  grow_forward (suc n) constrained p e rv = do
    first_size ← size p.0
    if leb block_size_max_extent first_size then ok (some (p, rv)) else (do
      next ← next_extent constrained p e
      elim next [
        | none ↦ ok (some (p, rv))
        | some e' ↦ do
          r ← forward_in p
          elim r [
            | none ↦ ok (some (p, rv))
            | some larger ↦ grow_forward n constrained larger e' true
          ]
      ])

  -- Each loop is given as many rounds as a range of the largest size has bytes.
  unfoldable pub grow :
      Bool → FileRange × FileRange → Outcome (Option ((FileRange × FileRange) × Bool))
  grow constrained p = do
    throw_check invalid_argument (p.0.m_begin % 4096 == 0)
    throw_check invalid_argument (p.1.m_begin % 4096 == 0)
    throw_check invalid_argument (not (overlaps w.stat_id w.stat_size p.0 p.1))
    second_fd ← open_fd p.1
    let e = w.extent_at second_fd p.1.m_begin
    back ← grow_backward (block_size_max_extent + 1) p e false
    elim back [
      | none ↦ ok none
      | some (q, rv) ↦ grow_forward (block_size_max_extent + 1) constrained q e rv
    ]
