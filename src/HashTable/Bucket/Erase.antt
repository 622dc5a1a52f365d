-- ===== src/HashTable/Bucket/Erase.antt =====
-- erase_hash_addr of src/bees-hash.cc on the cells of a bucket.
use bees.Base.{
  ◌≤◌, ◌≡◌, ◌≢◌, refl, sym, ap, ◌∙◌, ◌⊎◌, inl, inr, true, false, List, [], ◌∷◌, ◌++◌, arith, length,
  length-append, set, set-append, ltb,
}
use bees.HashTable.{Cell, empty_cell}
use bees.HashTable.Bucket.{erase, find}
use bees.HashTable.Bucket.Search.{Absent, find_cases, cell_eq_iff, ltb_inside}
use bees.HashTable.Bucket.Count.{count, count-append, count-cons, count-Absent}

-- Erasing takes the first such cell out and leaves an empty one; it reports whether there was one.
pub erase_lem :
    (mv : Cell) (xs : List Cell)
    → ((ys : List Cell) × (zs : List Cell) × (xs ≡ ys ++ mv ∷ zs)
        × (erase mv xs ≡ record { cells = ys ++ empty_cell ∷ zs; found = true; dirty = true }))
      ⊎ (Absent mv xs × (erase mv xs ≡ record { cells = xs; found = false; dirty = false }))
unfolding erase
erase_lem mv xs = elim (find_cases mv xs) [
  | inl (ys, zs, p, q, a) ↦ inl (
    ys,
    zs,
    p,
    rw (ltb_inside ys mv zs p q, q)
        (ap (λ (l : List Cell). record { cells = l; found = true; dirty = true })
          (ap (λ l. set l (length ys) empty_cell) p ∙ set-append ys mv zs empty_cell)),
  )
  | inr (a, q) ↦ let e : ltb (find mv xs) (length xs) ≡ false = rw q (ground arith) in inr (a, rw e)
]

count_self : (c : Cell) → count c (c ∷ []) ≡ 1
unfolding count
count_self c = rw ((cell_eq_iff c c).1 refl) (omega arith)

count_other : (c : Cell) → c ≢ empty_cell → count c (empty_cell ∷ []) ≡ 0
count_other c h = count-Absent c (empty_cell ∷ []) (λ e. h (sym e), tt)

-- After the erasure of a block that was recorded once, the bucket does not have it.
pub count-erase :
    (mv : Cell) (xs : List Cell)
    → mv ≢ empty_cell
    → count mv xs ≤ 1
    → count mv (erase mv xs).cells ≡ 0
count-erase mv xs ne n = elim (erase_lem mv xs) [
  | inl (ys, zs, p, e) ↦ rw e (
      omega (
        arith,
        ap (count mv) p,
        count-append mv ys (mv ∷ zs),
        count-append mv ys (empty_cell ∷ zs),
        count-cons mv mv zs,
        count-cons mv empty_cell zs,
        count_self mv,
        count_other mv ne,
      ))
  | inr (a, e) ↦ rw e (count-Absent mv xs a)
]

pub length-erase : (mv : Cell) (xs : List Cell) → length (erase mv xs).cells ≡ length xs
length-erase mv xs = elim (erase_lem mv xs) [
  | inl (ys, zs, p, e) ↦
      rw e
        (omega (arith, ap length p, length-append ys (mv ∷ zs), length-append ys (empty_cell ∷ zs)))
  | inr (a, e) ↦ rw e
]
