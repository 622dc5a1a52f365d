-- ===== src/Bytes/Tests.antt =====
-- Parts of a buffer of eight bytes.
use bees.Base.{ℕ, ◌<◌, ◌≡◌, refl, [], ◌∷◌, Returns, arith, ◌+◌, false}
use bees.Bytes.{Heap, Pointer, allocate, part, byte_at, vector_eq}
use bees.Bytes.Views.{IsView, view, part-IsView, part_beyond}

abbrev heap : Heap
heap = (10 ∷ 11 ∷ 12 ∷ 13 ∷ 14 ∷ 15 ∷ 16 ∷ 17 ∷ []) ∷ []

abbrev whole : Pointer
whole = record { buffer = 0; offset = 0 }

whole_allocated : allocate [] (10 ∷ 11 ∷ 12 ∷ 13 ∷ 14 ∷ 15 ∷ 16 ∷ 17 ∷ []) ≡ (heap, view whole 8)
unfolding allocate
whole_allocated = refl

part_equal : vector_eq heap (view whole 8) (view (record { buffer = 0; offset = 1 }) 8) ≡ false
unfolding vector_eq
part_equal = refl

part-IsView_example : Returns (part (view whole 8) 2 3) (λ u.
    IsView heap u × ((i : ℕ) → i < 3 → byte_at heap u i ≡ byte_at heap (view whole 8) (2 + i)))
part-IsView_example = part-IsView heap whole 8 2 3 (omega arith, omega arith) (omega arith)

-- A part that begins at the end of the vector may have any length.
part_beyond_example : Returns (part (view whole 8) 8 100) (λ u. IsView heap u → ⊥)
part_beyond_example = part_beyond heap whole 8 8 100 (omega arith) (omega arith) (omega arith)
