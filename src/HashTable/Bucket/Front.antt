-- ===== src/HashTable/Bucket/Front.antt =====
-- push_front_hash_addr of src/bees-hash.cc on the cells of a bucket.
use mathlib.Core.List.{append-nil}
use bees.Base.{
  ℕ, zero, suc, ◌+◌, ◌-◌, ◌<◌, ◌≡◌, refl, sym, ap, ◌∙◌, inl, inr, Bool, true, false, not, List, [],
  ◌∷◌, ◌++◌, arith, length, ltb, ◌==◌, lt→ltb, length-append, length-set, get_or, set, Bool-cases,
  get_or-set_ne, if◌then◌else◌, snoc,
}
use bees.HashTable.{Cell, empty_cell, cell_eq}
use bees.HashTable.Bucket.{find, move_backward, put_front, make_space, push_front, Pushed}
use bees.HashTable.Bucket.Search.{ltb_inside, Absent, find_cases, cell_eq_iff}
use bees.HashTable.Bucket.Move.{set-move_backward}

-- What the operation promises of the cells, in terms of the list before it.
pub data FrontEffect (mv : Cell) (xs : List Cell) (p : Pushed) : Type 0 where
  moved :
      (ys zs : List Cell)
      → xs ≡ ys ++ mv ∷ zs
      → Absent mv ys
      → p.cells ≡ mv ∷ ys ++ zs
      → p.found ≡ true
      → FrontEffect mv xs p
  filled :
      (ys zs : List Cell)
      → Absent mv xs
      → xs ≡ ys ++ empty_cell ∷ zs
      → Absent empty_cell ys
      → p.cells ≡ mv ∷ ys ++ zs
      → p.found ≡ false
      → FrontEffect mv xs p
  evicted :
      (ys : List Cell) (z : Cell)
      → Absent mv xs
      → Absent empty_cell xs
      → xs ≡ ys ++ z ∷ []
      → p.cells ≡ mv ∷ ys
      → p.found ≡ false
      → FrontEffect mv xs p

put_front-cells :
    (mv : Cell) (found : Bool) (xs : List Cell)
    → 0 < length xs
    → ((put_front mv found xs).cells ≡ set xs 0 mv)
      × ((put_front mv found xs).found ≡ found)
      × ((put_front mv found xs).dirty ≡ not (cell_eq (get_or xs 0 empty_cell) mv))
unfolding put_front
put_front-cells mv found [] h = absurd (omega arith)
put_front-cells mv found (x ∷ xs) h = elim (Bool-cases (cell_eq x mv)) [
  | inl e ↦ (rw e (ap (λ y. y ∷ xs) ((cell_eq_iff x mv).0 e)), rw e, rw e)
  | inr e ↦ (rw e, rw e, rw e)
]

-- A cell is taken out and the ones before it close up.
set-make_space :
    (ys : List Cell) (d : Cell) (zs : List Cell) (mv : Cell)
    → set (make_space (length ys) (ys ++ d ∷ zs)) 0 mv ≡ mv ∷ ys ++ zs
unfolding make_space
set-make_space [] d zs mv = refl
set-make_space (y ∷ ys) d zs mv =
    let e : (suc (length ys) == length ((y ∷ ys) ++ d ∷ zs)) ≡ false =
      ground (arith, length-append ys (d ∷ zs)) in
    rw (lt→ltb 0 (suc (length ys)) (omega arith), e) (set-move_backward [] (y ∷ ys) mv d zs)

-- Without a cell to take out the last one goes.
set-make_space_end :
    (ys : List Cell) (z : Cell) (mv : Cell)
    → set (make_space (length (ys ++ z ∷ [])) (ys ++ z ∷ [])) 0 mv ≡ mv ∷ ys
unfolding make_space
set-make_space_end ys z mv =
    let n : length (ys ++ z ∷ []) ≡ suc (length ys) = omega (arith, length-append ys (z ∷ [])) in
    let e : (suc (length ys) == suc (length ys)) ≡ true = ground arith in
    let f : suc (length ys) - 1 ≡ length ys = omega arith in
    let g = lt→ltb 0 (suc (length ys)) (omega arith) in
    rw n (rw (g, e, f) (set-move_backward [] ys mv z [] ∙ ap (◌∷◌ mv) (append-nil ys)))

move_backward_stop :
    (stop n : ℕ) (xs : List Cell)
    → (length (move_backward stop n xs) ≡ length xs)
      × (get_or (move_backward stop n xs) stop empty_cell ≡ get_or xs stop empty_cell)
unfolding move_backward
move_backward_stop stop zero xs = (refl, refl)
move_backward_stop stop (suc n) xs =
    let v = get_or xs (stop + n) empty_cell in
    let (l, g) = move_backward_stop stop n (set xs (stop + suc n) v) in
    (
      l ∙ length-set xs (stop + suc n) v,
      g ∙ get_or-set_ne xs (stop + suc n) stop v empty_cell (omega arith),
    )

-- Opening the gap leaves the first cell in its place too.
make_space_front :
    (ip : ℕ) (xs : List Cell)
    → (length (make_space ip xs) ≡ length xs)
      × (get_or (make_space ip xs) 0 empty_cell ≡ get_or xs 0 empty_cell)
unfolding make_space
make_space_front ip xs =
    ground (arith, move_backward_stop 0 ip xs, move_backward_stop 0 (ip - 1) xs)

FrontEffect-head :
    {mv : Cell} {xs : List Cell} {p : Pushed}
    → FrontEffect mv xs p
    → 0 < length xs
    → get_or xs 0 empty_cell ≡ mv
    → p.cells ≡ xs
FrontEffect-head (moved [] zs p a c f) n h = c ∙ sym p
FrontEffect-head (moved (y ∷ ys) zs p a c f) n h =
    absurd (a.0 (sym (ap (λ l. get_or l 0 empty_cell) p) ∙ h))
FrontEffect-head {xs = []} (filled ys zs a p b c f) n h = absurd (omega arith)
FrontEffect-head {xs = x ∷ xs} (filled ys zs a p b c f) n h = absurd (a.0 h)
FrontEffect-head {xs = []} (evicted ys z a b p c f) n h = absurd (omega arith)
FrontEffect-head {xs = x ∷ xs} (evicted ys z a b p c f) n h = absurd (a.0 h)

of_not-false : {b : Bool} → not b ≡ false → b ≡ true
of_not-false {b = true} h = refl
of_not-false {b = false} h = cc

module _ (mv : Cell) (xs : List Cell) (filled_up : 0 < length xs) where
  push_front_at :
      (ip : ℕ)
      → (if ltb (find mv xs) (length xs) then find mv xs else find empty_cell xs) ≡ ip
      → ((push_front mv xs).cells ≡ set (make_space ip xs) 0 mv)
        × ((push_front mv xs).found ≡ ltb (find mv xs) (length xs))
        × ((push_front mv xs).dirty ≡ not (cell_eq (get_or xs 0 empty_cell) mv))
  unfolding push_front
  push_front_at ip e =
      let (n, g) = make_space_front ip xs in
      let (c, f, d) =
        put_front-cells mv (ltb (find mv xs) (length xs)) (make_space ip xs) (rw n filled_up) in
      rw e (c, f, d ∙ ap (λ y. not (cell_eq y mv)) g)

  -- On a bucket that is not empty, push_front_hash_addr moves a present cell to the front, or puts
  -- a new cell there in place of the first empty cell, or of the last cell of a full bucket; the
  -- other cells keep their order, and the result says whether the cell was there.
  pub push_front-FrontEffect : FrontEffect mv xs (push_front mv xs)
  push_front-FrontEffect = elim (find_cases mv xs) [
    | inl (ys, zs, p, q, a) ↦
        let h = ltb_inside ys mv zs p q in
        let (c, f, _) = push_front_at (length ys) (rw h q) in
        moved ys zs p a (c ∙ rw p (set-make_space ys mv zs mv)) (f ∙ h)
    | inr (a, q) ↦
        let h : ltb (find mv xs) (length xs) ≡ false = rw q (ground arith) in
        elim (find_cases empty_cell xs) [
          | inl (ys, zs, p, r, b) ↦
              let (c, f, _) = push_front_at (length ys) (rw h r) in
              filled ys zs a p b (c ∙ rw p (set-make_space ys empty_cell zs mv)) (f ∙ h)
          | inr (b, r) ↦
              let (ys, z, p) = snoc xs filled_up in
              let (c, f, _) = push_front_at (length xs) (rw h r) in
              evicted ys z a b p (c ∙ rw p (set-make_space_end ys z mv)) (f ∙ h)
        ]
  ]

  -- Where push_front_hash_addr on a bucket that is not empty does not mark the extent dirty, it
  -- has changed no cell.
  pub push_front-clean : (push_front mv xs).dirty ≡ false → (push_front mv xs).cells ≡ xs
  push_front-clean h =
      FrontEffect-head push_front-FrontEffect filled_up
        ((cell_eq_iff _ mv).0 (of_not-false (sym (push_front_at _ refl).2 ∙ h)))
