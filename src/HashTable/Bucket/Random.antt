-- ===== src/HashTable/Bucket/Random.antt =====
-- push_random_hash_addr of src/bees-hash.cc on the cells of a bucket.
use mathlib.Core.List.{append_assoc, append-nil}
use mathlib.Core.Path.{subst}
use native.Mathlib.Decide.{dec_lt}
use bees.Base.{
  ℕ, suc, ◌-◌, ◌≤◌, ◌<◌, ◌≡◌, refl, sym, ap, ◌∙◌, inl, inr, true, false, List, [], ◌∷◌, ◌++◌, arith,
  length, ltb, lt→ltb, length-append, get_or, set, get_or-append, set-append, split_at, snoc,
}
use bees.HashTable.{Cell, empty_cell}
use bees.HashTable.Bucket.{find, move_backward, insert_random, push_random, Pushed}
use bees.HashTable.Bucket.Search.{
  Absent, Absent-of_get, ltb_inside, find_cases, empty_after_cases, empty_before_cases,
}
use bees.HashTable.Bucket.Move.{set-move_backward}

-- What the operation promises of the cells, in terms of the list before it.
pub data RandomEffect (mv : Cell) (pos : ℕ) (xs : List Cell) (p : Pushed) : Type 0 where
  bumped :
      (ys ms zs : List Cell)
      → xs ≡ ys ++ ms ++ mv ∷ zs
      → length ys ≡ pos
      → Absent mv (ys ++ ms)
      → p.cells ≡ ys ++ mv ∷ ms ++ zs
      → p.found ≡ true
      → p.dirty ≡ true
      → RandomEffect mv pos xs p
  kept :
      (ys zs : List Cell)
      → xs ≡ ys ++ mv ∷ zs
      → length ys ≤ pos
      → p.cells ≡ xs
      → p.found ≡ true
      → p.dirty ≡ false
      → RandomEffect mv pos xs p
  filled :
      (ys zs : List Cell)
      → Absent mv xs
      → xs ≡ ys ++ empty_cell ∷ zs
      → p.cells ≡ ys ++ mv ∷ zs
      → p.found ≡ false
      → p.dirty ≡ true
      → RandomEffect mv pos xs p
  evicted :
      (ys ms : List Cell) (z : Cell)
      → Absent mv xs
      → Absent empty_cell xs
      → xs ≡ ys ++ ms ++ z ∷ []
      → length ys ≡ pos
      → p.cells ≡ ys ++ mv ∷ ms
      → p.found ≡ false
      → p.dirty ≡ true
      → RandomEffect mv pos xs p

-- Cases 3 to 5: the new cell takes an empty place, or the last cell of a full bucket goes.
data InsertEffect (mv : Cell) (pos : ℕ) (xs ws : List Cell) : Type 0 where
  filled :
      (ys zs : List Cell)
      → xs ≡ ys ++ empty_cell ∷ zs
      → ws ≡ ys ++ mv ∷ zs
      → InsertEffect mv pos xs ws
  evicted :
      (ys ms : List Cell) (z : Cell)
      → Absent empty_cell xs
      → xs ≡ ys ++ ms ++ z ∷ []
      → length ys ≡ pos
      → ws ≡ ys ++ mv ∷ ms
      → InsertEffect mv pos xs ws

fill_at :
    (mv : Cell) (pos : ℕ) (xs : List Cell) (j : ℕ)
    → j < length xs
    → get_or xs j empty_cell ≡ empty_cell
    → InsertEffect mv pos xs (set xs j mv)
fill_at mv pos xs j h e =
    let (ys, y, zs, p, n) = split_at j xs h in
    let y_empty : y ≡ empty_cell =
      sym (get_or-append ys y zs empty_cell) ∙ rw n (ap (λ l. get_or l j empty_cell) (sym p)) ∙ e in
    filled ys zs (p ∙ ap (λ c. ys ++ c ∷ zs) y_empty)
      (ap (λ l. set l j mv) p ∙ rw (← n) (set-append ys y zs mv))

evict_at :
    (mv : Cell) (pos : ℕ) (xs : List Cell)
    → pos < length xs
    → Absent empty_cell xs
    → InsertEffect mv pos xs (set (move_backward pos (length xs - 1 - pos) xs) pos mv)
evict_at mv pos xs h a =
    let (ys, y, rest, p, n) = split_at pos xs h in
    let (ms, z, q) = snoc (y ∷ rest) (omega arith) in
    let e : xs ≡ ys ++ ms ++ z ∷ [] = p ∙ ap (◌++◌ ys) q ∙ sym (append_assoc ys ms (z ∷ [])) in
    let m : length xs - 1 - pos ≡ length ms =
      omega (arith, ap length e, length-append (ys ++ ms) (z ∷ []), length-append ys ms) in
    evicted ys ms z a e n (
      ap (λ k. set (move_backward pos k xs) pos mv) m
      ∙ ap (λ l. set (move_backward pos (length ms) l) pos mv) e
      ∙ ap (λ k. set (move_backward k (length ms) (ys ++ ms ++ z ∷ [])) k mv) (sym n)
      ∙ set-move_backward ys ms mv z []
      ∙ append-nil (ys ++ mv ∷ ms))

insert_random-InsertEffect :
    (mv : Cell) (pos : ℕ) (xs : List Cell)
    → pos < length xs
    → InsertEffect mv pos xs (insert_random mv pos xs)
unfolding insert_random
insert_random-InsertEffect mv pos xs h = elim (empty_after_cases (length xs - pos) pos xs) [
  | inl (j, e, a, b, q) ↦ rw (e, insert_random) (fill_at mv pos xs j (omega arith) q)
  | inr (e, f) ↦ elim (empty_before_cases pos xs) [
    | inl (j, e', b, q) ↦ rw (e, e', insert_random) (fill_at mv pos xs j (omega arith) q)
    | inr (e', g) ↦
        rw (e, e', insert_random)
          (evict_at mv pos xs h (
            Absent-of_get empty_cell xs (λ i k. elim (dec_lt i pos) [
              | yes r ↦ g i r
              | no r ↦ f i (omega arith) (omega arith)
            ])))
  ]
]

bump_at :
    (mv : Cell) (pos : ℕ) (xs us zs : List Cell)
    → xs ≡ us ++ mv ∷ zs
    → find mv xs ≡ length us
    → Absent mv us
    → pos < length us
    → RandomEffect mv pos xs (push_random mv pos xs)
unfolding push_random
bump_at mv pos xs us zs p q a h =
    let (ys, m, ms, e, n) = split_at pos us h in
    let k : length us - pos ≡ length (m ∷ ms) =
      omega (arith, ap length e, length-append ys (m ∷ ms)) in
    let p' : xs ≡ ys ++ m ∷ ms ++ mv ∷ zs = p ∙ ap (λ l. l ++ mv ∷ zs) e in
    let c : set (move_backward pos (length us - pos) xs) pos mv ≡ ys ++ mv ∷ m ∷ ms ++ zs =
      ap (λ k. set (move_backward pos k xs) pos mv) k
      ∙ ap (λ l. set (move_backward pos (suc (length ms)) l) pos mv) p'
      ∙ ap (λ k. set (move_backward k (suc (length ms)) (ys ++ m ∷ ms ++ mv ∷ zs)) k mv) (sym n)
      ∙ set-move_backward ys (m ∷ ms) mv mv zs in
    let inside = ltb_inside us mv zs p q in
    let behind : ltb pos (find mv xs) ≡ true = rw q (lt→ltb pos (length us) h) in
    rw (inside, behind, q)
      (RandomEffect.bumped ys (m ∷ ms) zs p' n (subst (Absent mv) e a) c refl refl)

keep_at :
    (mv : Cell) (pos : ℕ) (xs us zs : List Cell)
    → xs ≡ us ++ mv ∷ zs
    → find mv xs ≡ length us
    → length us ≤ pos
    → RandomEffect mv pos xs (push_random mv pos xs)
unfolding push_random
keep_at mv pos xs us zs p q h =
    let inside = ltb_inside us mv zs p q in
    let before : ltb pos (find mv xs) ≡ false = rw q (ground arith) in
    rw (inside, before) (RandomEffect.kept us zs p h refl refl refl)

-- For a position inside the bucket, push_random_hash_addr moves a cell that stands behind the
-- position forward to it, leaves one that stands before it, puts a new cell into an empty place,
-- and evicts the last cell only from a full bucket, with the new cell at the position.
pub push_random-RandomEffect :
    (mv : Cell) (pos : ℕ) (xs : List Cell)
    → pos < length xs
    → RandomEffect mv pos xs (push_random mv pos xs)
unfolding push_random
push_random-RandomEffect mv pos xs h = elim (find_cases mv xs) [
  | inl (us, zs, p, q, a) ↦ elim (dec_lt pos (length us)) [
    | yes r ↦ bump_at mv pos xs us zs p q a r
    | no r ↦ keep_at mv pos xs us zs p q (omega arith)
  ]
  | inr (a, q) ↦
      let e : ltb (find mv xs) (length xs) ≡ false = rw q (ground arith) in
      rw e (elim (insert_random-InsertEffect mv pos xs h) [
        | InsertEffect.filled ys zs p c ↦ RandomEffect.filled ys zs a p c refl refl
        | InsertEffect.evicted ys ms z b p n c ↦ RandomEffect.evicted ys ms z a b p n c refl refl
      ])
]
