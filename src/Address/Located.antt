-- ===== src/Address/Located.antt =====
-- The address of a block of an extent (BeesAddress::BeesAddress, src/bees-types.cc): what its parts say.
use bees.Base.{
  ℕ, ◌+◌, ◌-◌, ◌/◌, ◌%◌, ◌^◌, ◌≡◌, ◌⊎◌, inl, inr, refl, sym, ap, ◌∙◌, Bool, true, false, arith, ltb,
  ◌==◌, if◌then◌else◌, ok, Returns, set_bit, Bool-cases, then_branch, else_branch,
}
use mathlib.Core.Path.{subst}
use bees.Address.{FileExtent, magic_check, compressed_address, address_of_extent}
use bees.Address.Parts.{
  InCompressed, InExtent, Located, compressed_address_lem, compressed_parts, plain_parts,
}

-- With the end-of-file bit set or not.
abbrev with_eof : Bool → ℕ → ℕ
with_eof b m = if b then set_bit m 10 else m

-- The distance of the block from the begin of the data, in blocks.
abbrev blocks_in : FileExtent → ℕ → ℕ
blocks_in e file_offset = (file_offset - e.begin + e.offset) / 4096

compressed_bits-Located :
    (e : FileExtent) (file_offset k : ℕ)
    → InExtent e file_offset
    → InCompressed e
    → e.flags.flag_encoded ≡ true
    → (k ≡ 2048 + blocks_in e file_offset + 1) ⊎ (k ≡ 3072 + blocks_in e file_offset + 1)
    → Located e file_offset (e.physical + k)
compressed_bits-Located e file_offset k i c f cases =
    let a2 = i.begin_aligned in
    let a3 = i.offset_aligned in
    let a4 = c.aligned in
    let b1 = i.from_begin in
    let b2 = i.before_end in
    let b4 = c.fits in
    let (m, t, d, p, o) =
      compressed_parts e.physical (blocks_in e file_offset) k i.physical_aligned i.allocated
        (omega arith) cases in
    record {
      physical_block = m;
      not_toxic = t;
      kind = d ∙ sym f;
      place = inl (f, p, o ∙ ap ok (omega arith));
    }

compressed-Located :
    (e : FileExtent) (file_offset : ℕ) (eof : Bool)
    → InExtent e file_offset
    → InCompressed e
    → e.flags.flag_encoded ≡ true
    → Located e file_offset (with_eof eof (e.physical + (2048 + blocks_in e file_offset + 1)))
compressed-Located e file_offset false i c f =
    compressed_bits-Located e file_offset (2048 + blocks_in e file_offset + 1) i c f (inl refl)
compressed-Located e file_offset true i c f =
    let q = blocks_in e file_offset in
    let a1 = i.physical_aligned in
    let a2 = i.begin_aligned in
    let a3 = i.offset_aligned in
    let a4 = c.aligned in
    let b1 = i.from_begin in
    let b2 = i.before_end in
    let b4 = c.fits in
    let clear : (e.physical + (2048 + q + 1)) / 1024 % 2 ≡ 0 = omega arith in
    let same : e.physical + (2048 + q + 1) + 1024 ≡ e.physical + (3072 + q + 1) = omega arith in
    rw (clear, same) (compressed_bits-Located e file_offset (3072 + q + 1) i c f (inr refl))

plain_bits-Located :
    (e : FileExtent) (file_offset k : ℕ)
    → InExtent e file_offset
    → e.flags.flag_encoded ≡ false
    → (k ≡ 0) ⊎ (k ≡ 1024)
    → Located e file_offset (e.physical + (file_offset - e.begin) + k)
plain_bits-Located e file_offset k i f cases =
    let a1 = i.physical_aligned in
    let a2 = i.begin_aligned in
    let a3 = i.offset_aligned in
    let b1 = i.from_begin in
    let b2 = i.allocated in
    let (m, t, d, o) =
      plain_parts (e.physical + (file_offset - e.begin)) k (omega arith) (omega arith) cases in
    record { physical_block = m; not_toxic = t; kind = d ∙ sym f; place = inr (f, o) }

plain-Located :
    (e : FileExtent) (file_offset : ℕ) (eof : Bool)
    → InExtent e file_offset
    → e.flags.flag_encoded ≡ false
    → Located e file_offset (with_eof eof (e.physical + (file_offset - e.begin)))
plain-Located e file_offset false i f =
    let p = e.physical + (file_offset - e.begin) in
    let same : p + 0 ≡ p = omega arith in
    subst (Located e file_offset) same (plain_bits-Located e file_offset 0 i f (inl refl))
plain-Located e file_offset true i f =
    let a1 = i.physical_aligned in
    let a2 = i.begin_aligned in
    let a3 = i.offset_aligned in
    let b1 = i.from_begin in
    let clear : (e.physical + (file_offset - e.begin)) / 1024 % 2 ≡ 0 = omega arith in
    rw clear (plain_bits-Located e file_offset 1024 i f (inr refl))

-- For a block of an aligned extent with a physical address, whose flags are not magic and which,
-- if it is encoded, lies in 128K of data, the constructor returns an address that is neither magic
-- nor toxic, says whether the extent is compressed, and gives back the physical position: of the
-- extent, with the offset of the block in its data, or of the block itself.
pub address_of_extent-Located :
    (e : FileExtent) (file_offset : ℕ)
    → InExtent e file_offset
    → (e.flags.flag_encoded ≡ false) ⊎ InCompressed e
    → (magic_check e.flags 0).0 ≡ false
    → Returns (address_of_extent e file_offset) (Located e file_offset)
unfolding address_of_extent
address_of_extent-Located e file_offset i c plain =
    let a1 = i.physical_aligned in
    let a2 = i.begin_aligned in
    let a3 = i.offset_aligned in
    let b1 = i.from_begin in
    let b2 = i.before_end in
    let b3 = i.allocated in
    let t1 : (e.physical % 4096 == 0) ≡ true = ground arith in
    let t2 : (e.begin % 4096 == 0) ≡ true = ground arith in
    let t3 : (file_offset % 4096 == 0) ≡ true = ground arith in
    let t4 : ltb e.begin e.end ≡ true = ground arith in
    let t5 : ltb 0 e.physical ≡ true = ground arith in
    let wrapped = (e.physical + (file_offset + (2 ^ 64 - e.begin))) % 2 ^ 64 in
    elim (Bool-cases e.flags.flag_encoded) [
      | inl f ↦ elim c [
        | inl g ↦ absurd (ground arith)
        | inr comp ↦
            let taken =
              then_branch e.flags.flag_encoded (compressed_address e file_offset) (ok wrapped) f in
            rw (t1, t2, t3, t4, plain, t5, taken, compressed_address_lem e file_offset i comp)
              (compressed-Located e file_offset _ i comp f)
      ]
      | inr f ↦
          let m = i.physical_max in
          let n = i.end_max in
          let unwrapped : wrapped ≡ e.physical + (file_offset - e.begin) = omega arith in
          let taken =
            else_branch e.flags.flag_encoded (compressed_address e file_offset) (ok wrapped) f in
          rw (t1, t2, t3, t4, plain, t5, taken, unwrapped) (plain-Located e file_offset _ i f)
    ]
