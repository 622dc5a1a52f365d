-- ===== src/Address/Magic.antt =====
-- The magic values that BeesAddress::magic_check gives (src/bees-types.cc).
use bees.Base.{
  ℕ, ◌≡◌, ◌⊎◌, inl, inr, sym, ◌∙◌, true, false, arith, ltb, ◌%◌, ◌==◌, Returns, Returns-mono,
  Bool-cases,
}
use bees.Address.{FileExtent, ExtentFlags, is_magic, magic_check, address_of_extent}
use bees.Address.Located.{address_of_extent-Located}
use bees.Address.Parts.{InExtent, InCompressed, Located}

magic_check-magic :
    (f : ExtentFlags) → (magic_check f 0).0 ≡ true → is_magic (magic_check f 0).1 ≡ true
unfolding magic_check is_magic
magic_check-magic f h = ground arith

-- For a block of an aligned extent with a physical address which, if it is encoded, lies in 128K
-- of data, the constructor returns an address that is magic exactly where the flags of the extent
-- ask for a magic value.
pub address_of_extent-magic_check :
    (e : FileExtent) (file_offset : ℕ)
    → InExtent e file_offset
    → (e.flags.flag_encoded ≡ false) ⊎ InCompressed e
    → Returns (address_of_extent e file_offset) (λ m. is_magic m ≡ (magic_check e.flags 0).0)
unfolding address_of_extent
address_of_extent-magic_check e file_offset i c = elim (Bool-cases (magic_check e.flags 0).0) [
  | inr h ↦
      Returns-mono (Located e file_offset) (λ m. is_magic m ≡ (magic_check e.flags 0).0)
        (address_of_extent e file_offset) (λ m l. l.physical_block ∙ sym h)
        (address_of_extent-Located e file_offset i c h)
  | inl h ↦
      let a1 = i.physical_aligned in
      let a2 = i.begin_aligned in
      let a3 = i.offset_aligned in
      let b1 = i.from_begin in
      let b2 = i.before_end in
      let t1 : (e.physical % 4096 == 0) ≡ true = ground arith in
      let t2 : (e.begin % 4096 == 0) ≡ true = ground arith in
      let t3 : (file_offset % 4096 == 0) ≡ true = ground arith in
      let t4 : ltb e.begin e.end ≡ true = ground arith in
      let m = magic_check-magic e.flags h in rw (t1, t2, t3, t4, h) m
]
