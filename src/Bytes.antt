-- ===== src/Bytes.antt =====
-- ByteVector (include/crucible/bytevector.h, lib/bytevector.cc): views into buffers that several
-- vectors share. A pointer is the number of a buffer and an offset in it, an iterator is the offset.
pub mod Views
mod Tests
use bees.Base.{
  ℕ, zero, suc, ◌+◌, ◌-◌, ◌*◌, ◌%◌, ◌^◌, max, Bool, true, false, not, ◌&&◌, ◌||◌, Option, none,
  some, List, [], ◌∷◌, ◌++◌, length, get_or, set, take, drop, replicate, ltb, leb, ◌==◌,
  if◌then◌else◌, Outcome, ok, throw, out_of_range, runtime_error, ◌>>=◌, ◌>>◌, throw_check,
}

-- The buffers that malloc gave out.
abbrev pub Heap : Type 0
Heap = List (List ℕ)

pub record Pointer : Type 0 where
  pub buffer : ℕ
  pub offset : ℕ

pub record ByteVector : Type 0 where
  pub m_ptr : Option Pointer
  pub m_size : ℕ

abbrev pub is_set : Option Pointer → Bool
is_set none = false
is_set (some p) = true

abbrev pub moved : ℕ → Option Pointer → Option Pointer
moved n none = none
moved n (some p) = some (record p { offset = p.offset + n })

-- memcmp, on as many bytes.
abbrev pub same_bytes : List ℕ → List ℕ → Bool
same_bytes [] [] = true
same_bytes [] (y ∷ ys) = false
same_bytes (x ∷ xs) [] = false
same_bytes (x ∷ xs) (y ∷ ys) = (x == y) && same_bytes xs ys

abbrev pub same_pointer : Pointer → Pointer → Bool
same_pointer p q = (p.buffer == q.buffer) && (p.offset == q.offset)

-- The bytes that a pointer and a size tell.
abbrev pub bytes_at : Heap → Pointer → ℕ → List ℕ
bytes_at h p n = take n (drop p.offset (get_or h p.buffer []))

unfoldable pub is_empty : ByteVector → Bool
is_empty v = not (is_set v.m_ptr) || (v.m_size == 0)

abbrev pub cleared : ByteVector
cleared = record { m_ptr = none; m_size = 0 }

-- The constructor of a part of another vector; size_t wraps.
unfoldable pub part : ByteVector → ℕ → ℕ → Outcome ByteVector
part that start n = do
  throw_check out_of_range (is_set that.m_ptr)
  throw_check out_of_range (leb start that.m_size)
  throw_check out_of_range (leb ((start + n) % 2 ^ 64) ((that.m_size + n) % 2 ^ 64))
  ok (record { m_ptr = moved start that.m_ptr; m_size = n })

-- at(size): the byte, from the bytes of the buffer.
unfoldable pub byte_at : Heap → ByteVector → ℕ → Outcome ℕ
byte_at h v i = elim v.m_ptr [
  | none ↦ throw out_of_range
  | some p ↦ do
    throw_check out_of_range (ltb i v.m_size)
    ok (get_or (get_or h p.buffer []) (p.offset + i) 0)
]

-- A write through the reference that at(size) returns.
unfoldable pub write_at : Heap → ByteVector → ℕ → ℕ → Outcome Heap
write_at h v i x = elim v.m_ptr [
  | none ↦ throw out_of_range
  | some p ↦ do
    throw_check out_of_range (ltb i v.m_size)
    ok (set h p.buffer (set (get_or h p.buffer []) (p.offset + i) x))
]

-- malloc, with what the memory holds as an argument.
unfoldable pub allocate : Heap → List ℕ → Heap × ByteVector
allocate h bytes = (
  h ++ bytes ∷ [],
  record { m_ptr = some (record { buffer = length h; offset = 0 }); m_size = length bytes },
)

-- A copy of the bytes of an object, and at least `min_size` bytes.
unfoldable pub from_bytes : Heap → List ℕ → ℕ → (ℕ → List ℕ) → Heap × ByteVector
unfolding allocate
from_bytes h xs min_size garbage = allocate h (xs ++ garbage (max (length xs) min_size - length xs))

unfoldable pub vector_eq : Heap → ByteVector → ByteVector → Bool
vector_eq h a b = elim a.m_ptr [
  | none ↦ not (is_set b.m_ptr)
  | some p ↦ elim b.m_ptr [
    | none ↦ false
    | some q ↦
        if not (a.m_size == b.m_size)
        then false
        else if same_pointer p q
        then true
        else same_bytes (bytes_at h p a.m_size) (bytes_at h q a.m_size)
  ]
]

-- erase, from an offset in the buffer up to another; the difference of sizes wraps.
unfoldable pub erase : ByteVector → ℕ → ℕ → Outcome ByteVector
erase v from to = if (to + (2 ^ 64 - from)) % 2 ^ 64 == 0 then ok v else elim v.m_ptr [
  | none ↦ throw out_of_range
  | some p ↦ do
    throw_check out_of_range ((p.offset == from) || (p.offset + v.m_size == to))
    ok (
        if from == p.offset
        then if to == p.offset + v.m_size then cleared else record {
          m_ptr = some (record p { offset = to });
          m_size = (v.m_size + (2 ^ 64 - (to + (2 ^ 64 - from)) % 2 ^ 64)) % 2 ^ 64;
        }
        else record v { m_size = (v.m_size + (2 ^ 64 - (to + (2 ^ 64 - from)) % 2 ^ 64)) % 2 ^ 64 })
]

-- get<T>, of an object of `n` bytes.
unfoldable pub get_object : ByteVector → ℕ → Outcome (Option Pointer)
get_object v n = do throw_check out_of_range (leb n v.m_size); ok v.m_ptr
