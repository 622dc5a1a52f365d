-- ===== src/Address/Order.antt =====
-- The comparisons of BeesAddress and set_toxic (src/bees-types.cc).
use bees.Base.{
  ℕ, ◌+◌, ◌-◌, ◌*◌, ◌/◌, ◌%◌, ◌^◌, ◌≤◌, ◌≡◌, ◌⊎◌, inl, inr, refl, Bool, true, false, arith, ltb,
  leb, ◌==◌, if◌then◌else◌, Returns, clear_bit,
}
use bees.Address.{
  is_compressed, has_compressed_offset, is_toxic, is_unaligned_eof, get_physical_or_zero,
  get_compressed_offset, set_toxic, differs, address_eq, address_lt,
}

-- Exactly one of the three holds.
abbrev pub OneOf : Bool → Bool → Bool → Type 0
OneOf a b c =
    ((a ≡ true) × (b ≡ false) × (c ≡ false))
    ⊎ (((a ≡ false) × (b ≡ true) × (c ≡ false)) ⊎ ((a ≡ false) × (b ≡ false) × (c ≡ true)))

compare_cases : (x y : ℕ) → OneOf (ltb x y) (x == y) (ltb y x)
compare_cases x y = ground arith

-- Of two addresses exactly one holds: the first is less, they are equal, or the second is less.
pub compare-OneOf : (a b : ℕ) → OneOf (address_lt a b) (address_eq a b) (address_lt b a)
unfolding address_lt address_eq
compare-OneOf a b = by_kind (has_compressed_offset a) (has_compressed_offset b)
  where
    by_kind :
        (p q : Bool)
        → OneOf
            (if differs p q then ltb (a - a % 64) (b - b % 64) else ltb a b)
            (if differs p q then a - a % 64 == b - b % 64 else a == b)
            (if differs q p then ltb (b - b % 64) (a - a % 64) else ltb b a)
    by_kind true true = compare_cases a b
    by_kind true false = compare_cases (a - a % 64) (b - b % 64)
    by_kind false true = compare_cases (a - a % 64) (b - b % 64)
    by_kind false false = compare_cases a b

-- set_toxic marks the block and leaves what the address says otherwise.
pub record ToxicEffect (m n : ℕ) : Type 0 where
  pub toxic : is_toxic n ≡ true
  pub physical : get_physical_or_zero n ≡ get_physical_or_zero m
  pub compressed : is_compressed n ≡ is_compressed m
  pub offset : get_compressed_offset n ≡ get_compressed_offset m
  pub eof : is_unaligned_eof n ≡ is_unaligned_eof m

set_bit-cases : (m : ℕ) → (m / 2 ^ 9 % 2 ≡ 1) ⊎ (m / 2 ^ 9 % 2 ≡ 0)
set_bit-cases m = omega arith

-- What setting the clear bit 9 does to the other parts.
set_bit-parts :
    (m : ℕ)
    → m / 2 ^ 9 % 2 ≡ 0
    → ((m + 512) / 512 % 2 ≡ 1)
      × ((m + 512) / 1024 % 2 ≡ m / 1024 % 2)
      × ((m + 512) / 2048 % 2 ≡ m / 2048 % 2)
      × ((m + 512) % 64 ≡ m % 64)
set_bit-parts m h = (omega arith, omega arith, omega arith, omega arith)

pub cleared_value :
    (m : ℕ)
    → clear_bit (clear_bit (clear_bit (m - m % 64) 11) 10) 9
      ≡ m - m % 64 - m / 2048 % 2 * 2048 - m / 1024 % 2 * 1024 - m / 512 % 2 * 512
cleared_value m = omega arith

-- Set_toxic of an address that is not magic returns a toxic address with the physical position,
-- the compression, the offset and the end-of-file mark of the old one.
pub set_toxic-ToxicEffect : (m : ℕ) → 4 ≤ m → Returns (set_toxic m) (ToxicEffect m)
unfolding set_toxic is_toxic get_physical_or_zero is_compressed get_compressed_offset
    is_unaligned_eof has_compressed_offset
set_toxic-ToxicEffect m h = elim (set_bit-cases m) [
  | inl e ↦
      let t : ltb m 4 ≡ false = ground arith in
      let u : leb 4 m ≡ true = ground arith in
      let b : (m / 512 % 2 == 1) ≡ true = ground arith in
      rw (t, b)
        (record {
          toxic = rw (u, b) refl;
          physical = refl;
          compressed = refl;
          offset = refl;
          eof = refl;
        })
  | inr e ↦
      let (p, q, r, s) = set_bit-parts m e in
      let t : ltb m 4 ≡ false = ground arith in
      let v : ltb (m + 512) 4 ≡ false = ground arith in
      let u : leb 4 m ≡ true = ground arith in
      let w : leb 4 (m + 512) ≡ true = ground arith in
      let b : (m / 512 % 2 == 1) ≡ false = ground arith in
      rw (t, b)
        (record {
          toxic = rw (w, p) refl;
          physical = rw (t, v, cleared_value m, cleared_value (m + 512)) (omega arith);
          compressed = rw (u, w, r) refl;
          offset = rw (u, w, r, s) refl;
          eof = rw (u, w, q) refl;
        })
]
