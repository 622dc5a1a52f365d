-- ===== src/HashTable/Bucket/Count.antt =====
-- How often a cell stands in a bucket, and verify_cell_range of src/bees-hash.cc, which looks for
-- what must never be there.
use bees.Base.{
  ℕ, ◌+◌, ◌≤◌, ◌<◌, ◌≡◌, ◌≢◌, refl, sym, ap, ◌⊎◌, inl, inr, List, [], ◌∷◌, ◌++◌, arith, length,
  length-append, if◌then◌else◌, Bool-cases,
}
use bees.HashTable.{Cell, empty_cell, cell_eq}
use bees.HashTable.Bucket.{Pushed, push_front, push_random}
use bees.HashTable.Bucket.Search.{Absent, cell_eq_iff}
use bees.HashTable.Bucket.Front.{FrontEffect, push_front-FrontEffect}
use bees.HashTable.Bucket.Random.{RandomEffect, push_random-RandomEffect}

-- The number of times that `c` stands in the list.
unfoldable pub count : Cell → List Cell → ℕ
count c [] = 0
count c (x ∷ xs) = (if cell_eq x c then 1 else 0) + count c xs

pub count-append : (c : Cell) (xs ys : List Cell) → count c (xs ++ ys) ≡ count c xs + count c ys
unfolding count
count-append c [] ys = omega arith
count-append c (x ∷ xs) ys = omega (arith, count-append c xs ys)

pub count-Absent : (c : Cell) (xs : List Cell) → Absent c xs → count c xs ≡ 0
unfolding count
count-Absent c [] a = refl
count-Absent c (x ∷ xs) a = elim (Bool-cases (cell_eq x c)) [
  | inl e ↦ absurd (a.0 ((cell_eq_iff x c).0 e))
  | inr e ↦ rw e (omega (arith, count-Absent c xs a.1))
]

pub count-cons : (c x : Cell) (xs : List Cell) → count c (x ∷ xs) ≡ count c (x ∷ []) + count c xs
unfolding count
count-cons c x xs = omega arith

count_one : (c x : Cell) → (x ≡ c) ⊎ (count c (x ∷ []) ≡ 0)
unfolding count
count_one c x = elim (Bool-cases (cell_eq x c)) [
  | inl e ↦ inl ((cell_eq_iff x c).0 e)
  | inr e ↦ inr (rw e (omega arith))
]

count_one_le : (c x : Cell) → count c (x ∷ []) ≤ 1
unfolding count
count_one_le c x = ground arith

-- No block is recorded twice.
abbrev pub NoDuplicates : List Cell → Type 0
NoDuplicates xs = (c : Cell) → c ≢ empty_cell → count c xs ≤ 1

-- A new cell that stood nowhere, in a list that kept only old cells besides.
count_fresh :
    (mv c : Cell) (xs : List Cell) (rest : ℕ)
    → Absent mv xs
    → rest ≤ count c xs
    → count c xs ≤ 1
    → count c (mv ∷ []) + rest ≤ 1
count_fresh mv c xs rest a h n = elim (count_one c mv) [
  | inl e ↦ omega (arith, count_one_le c mv, ap (λ d. count d xs) (sym e), count-Absent mv xs a)
  | inr z ↦ omega (arith, z)
]

pub FrontEffect-length :
    {mv : Cell} {xs : List Cell} {p : Pushed} → FrontEffect mv xs p → length p.cells ≡ length xs
FrontEffect-length {mv} (FrontEffect.moved ys zs p a c f) =
    omega (arith, ap length p, ap length c, length-append ys zs, length-append ys (mv ∷ zs))
FrontEffect-length (FrontEffect.filled ys zs a p b c f) =
    omega (arith, ap length p, ap length c, length-append ys zs, length-append ys (empty_cell ∷ zs))
FrontEffect-length (FrontEffect.evicted ys z a b p c f) =
    omega (arith, ap length p, ap length c, length-append ys (z ∷ []))

FrontEffect-NoDuplicates :
    {mv : Cell} {xs : List Cell} {p : Pushed}
    → FrontEffect mv xs p
    → NoDuplicates xs
    → NoDuplicates p.cells
FrontEffect-NoDuplicates {mv} (FrontEffect.moved ys zs p a c f) n d ne = omega (
  arith,
  n d ne,
  ap (count d) p,
  ap (count d) c,
  count-cons d mv (ys ++ zs),
  count-cons d mv zs,
  count-append d ys zs,
  count-append d ys (mv ∷ zs),
)
FrontEffect-NoDuplicates {mv} {xs} (FrontEffect.filled ys zs a p b c f) n d ne =
    let k : count d (ys ++ zs) ≤ count d xs = omega (
      arith,
      ap (count d) p,
      count-cons d empty_cell zs,
      count-append d ys zs,
      count-append d ys (empty_cell ∷ zs),
    ) in
    omega (
      arith,
      ap (count d) c,
      count-cons d mv (ys ++ zs),
      count_fresh mv d xs (count d (ys ++ zs)) a k (n d ne),
    )
FrontEffect-NoDuplicates {mv} {xs} (FrontEffect.evicted ys z a b p c f) n d ne =
    let k : count d ys ≤ count d xs = omega (arith, ap (count d) p, count-append d ys (z ∷ [])) in
    omega (arith, ap (count d) c, count-cons d mv ys, count_fresh mv d xs (count d ys) a k (n d ne))

pub RandomEffect-length :
    {mv : Cell} {pos : ℕ} {xs : List Cell} {p : Pushed}
    → RandomEffect mv pos xs p
    → length p.cells ≡ length xs
RandomEffect-length {mv} (RandomEffect.bumped ys ms zs p n a c f d) = omega (
  arith,
  ap length p,
  ap length c,
  length-append (ys ++ ms) (mv ∷ zs),
  length-append ys ms,
  length-append (ys ++ mv ∷ ms) zs,
  length-append ys (mv ∷ ms),
)
RandomEffect-length (RandomEffect.kept ys zs p n c f d) = ap length c
RandomEffect-length {mv} (RandomEffect.filled ys zs a p c f d) = omega (
  arith,
  ap length p,
  ap length c,
  length-append ys (mv ∷ zs),
  length-append ys (empty_cell ∷ zs),
)
RandomEffect-length {mv} (RandomEffect.evicted ys ms z a b p n c f d) = omega (
  arith,
  ap length p,
  ap length c,
  length-append (ys ++ ms) (z ∷ []),
  length-append ys ms,
  length-append ys (mv ∷ ms),
)

RandomEffect-NoDuplicates :
    {mv : Cell} {pos : ℕ} {xs : List Cell} {p : Pushed}
    → RandomEffect mv pos xs p
    → NoDuplicates xs
    → NoDuplicates p.cells
RandomEffect-NoDuplicates {mv} (RandomEffect.bumped ys ms zs p k a c f e) n d ne = omega (
  arith,
  n d ne,
  ap (count d) p,
  ap (count d) c,
  count-append d (ys ++ ms) (mv ∷ zs),
  count-append d ys ms,
  count-append d (ys ++ mv ∷ ms) zs,
  count-append d ys (mv ∷ ms),
  count-cons d mv ms,
  count-cons d mv zs,
)
RandomEffect-NoDuplicates (RandomEffect.kept ys zs p k c f e) n d ne =
    omega (arith, n d ne, ap (count d) c)
RandomEffect-NoDuplicates {mv} {xs = xs} (RandomEffect.filled ys zs a p c f e) n d ne =
    let k : count d ys + count d zs ≤ count d xs =
      omega
        (arith, ap (count d) p, count-cons d empty_cell zs, count-append d ys (empty_cell ∷ zs)) in
    omega (
      arith,
      ap (count d) c,
      count-append d ys (mv ∷ zs),
      count-cons d mv zs,
      count_fresh mv d xs (count d ys + count d zs) a k (n d ne),
    )
RandomEffect-NoDuplicates {mv} {xs = xs} (RandomEffect.evicted ys ms z a b p m c f e) n d ne =
    let k : count d ys + count d ms ≤ count d xs =
      omega (arith, ap (count d) p, count-append d (ys ++ ms) (z ∷ []), count-append d ys ms) in
    omega (
      arith,
      ap (count d) c,
      count-append d ys (mv ∷ ms),
      count-cons d mv ms,
      count_fresh mv d xs (count d ys + count d ms) a k (n d ne),
    )

-- Neither insertion makes a bucket, in which no cell but the empty one stands twice, hold a cell
-- twice.
pub push-NoDuplicates :
    (mv : Cell) (pos : ℕ) (xs : List Cell)
    → pos < length xs
    → NoDuplicates xs
    → NoDuplicates (push_front mv xs).cells × NoDuplicates (push_random mv pos xs).cells
push-NoDuplicates mv pos xs h n = (
  FrontEffect-NoDuplicates (push_front-FrontEffect mv xs (omega arith)) n,
  RandomEffect-NoDuplicates (push_random-RandomEffect mv pos xs h) n,
)
