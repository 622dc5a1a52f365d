-- ===== src/HashTable/Bucket/Move.antt =====
-- The copy loop that opens a gap, on a list cut in three parts.
use bees.Base.{
  ℕ, zero, suc, ◌+◌, ◌<◌, ◌≡◌, refl, ap, ◌∙◌, List, [], ◌∷◌, ◌++◌, arith, length, length-append,
  length-set, get_or, set,
}
use Prim.Native.Nat.add
use bees.HashTable.{Cell, empty_cell}
use bees.HashTable.Bucket.{move_backward}

remove_at : ℕ → List Cell → List Cell
remove_at i [] = []
remove_at zero (x ∷ xs) = xs
remove_at (suc i) (x ∷ xs) = x ∷ remove_at i xs

remove_at-append :
    (ys : List Cell) (c : Cell) (zs : List Cell) → remove_at (length ys) (ys ++ c ∷ zs) ≡ ys ++ zs
unfolding remove_at
remove_at-append [] c zs = refl
remove_at-append (y ∷ ys) c zs = ap (◌∷◌ y) (remove_at-append ys c zs)

remove_at-set :
    (n : ℕ) (xs : List Cell)
    → suc n < length xs
    → remove_at n (set xs (suc n) (get_or xs n empty_cell)) ≡ remove_at (suc n) xs
unfolding remove_at
remove_at-set n [] h = refl
remove_at-set n (x ∷ []) h = absurd (omega arith)
remove_at-set zero (x ∷ y ∷ xs) h = refl
remove_at-set (suc n) (x ∷ y ∷ xs) h = ap (◌∷◌ x) (remove_at-set n (y ∷ xs) (omega arith))

-- From the front, the gap costs the cell at index `n` only.
set-move_front :
    (n : ℕ) (xs : List Cell) (c : Cell)
    → n < length xs
    → set (move_backward 0 n xs) 0 c ≡ c ∷ remove_at n xs
unfolding move_backward remove_at
set-move_front zero [] c h = absurd (omega arith)
set-move_front zero (x ∷ xs) c h = refl
set-move_front (suc n) xs c h =
    let ys : List Cell = set xs (suc n) (get_or xs n empty_cell) in
    rw (add.zero (suc n), add.zero n)
      (set-move_front n ys c (omega (arith, length-set xs (suc n) (get_or xs n empty_cell)))
        ∙ ap (◌∷◌ c) (remove_at-set n xs h))

-- The loop leaves the cells before its end alone.
move_backward-cons :
    (stop n : ℕ) (x : Cell) (xs : List Cell)
    → move_backward (suc stop) n (x ∷ xs) ≡ x ∷ move_backward stop n xs
unfolding move_backward
move_backward-cons stop zero x xs = refl
move_backward-cons stop (suc n) x xs =
    rw (add.suc stop (suc n), add.suc stop n)
      (move_backward-cons stop n x (set xs (stop + suc n) (get_or xs (stop + n) empty_cell)))

-- The loop and the write that follows it move one cell over those between.
pub set-move_backward :
    (ys ms : List Cell) (c d : Cell) (zs : List Cell)
    → set (move_backward (length ys) (length ms) (ys ++ ms ++ d ∷ zs)) (length ys) c
      ≡ ys ++ c ∷ ms ++ zs
set-move_backward [] ms c d zs =
    set-move_front (length ms) (ms ++ d ∷ zs) c (omega (arith, length-append ms (d ∷ zs)))
    ∙ ap (◌∷◌ c) (remove_at-append ms d zs)
set-move_backward (y ∷ ys) ms c d zs =
    rw (move_backward-cons (length ys) (length ms) y (ys ++ ms ++ d ∷ zs))
      (ap (◌∷◌ y) (set-move_backward ys ms c d zs))
