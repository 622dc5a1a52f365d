-- ===== src/Base/Counts.antt =====
-- How often a number is in a list, sums over a list, and lists sorted by number.
use Prim.Native.Nat.{ℕ, zero, suc, ◌+◌, ◌≤◌, ◌<◌}
use mathlib.Core.Path.{◌≡◌, refl}
use mathlib.Core.Logic.{inl, inr}
use mathlib.Core.Bool.{Bool, true, false}
use mathlib.Core.List.{List, [], ◌∷◌, ◌++◌}
use native.Mathlib.Omega.{arith}
use bees.Base.Tests.{leb, Bool-cases, ◌==◌, if◌then◌else◌}
use bees.Base.Lists.{length, get_or, set, replicate}

abbrev pub num : Bool → ℕ
num true = 1
num false = 0

pub num_le : (b : Bool) → num b ≤ 1
num_le true = omega arith
num_le false = omega arith

abbrev pub count : ℕ → List ℕ → ℕ
count n [] = 0
count n (x ∷ xs) = num (n == x) + count n xs

pub count-append : (n : ℕ) (xs ys : List ℕ) → count n (xs ++ ys) ≡ count n xs + count n ys
count-append n [] ys = omega arith
count-append n (x ∷ xs) ys = omega (arith, count-append n xs ys)

abbrev pub insert_sorted : ℕ → List ℕ → List ℕ
insert_sorted n [] = n ∷ []
insert_sorted n (x ∷ xs) =
    let rest = insert_sorted n xs in if leb n x then n ∷ (x ∷ xs) else x ∷ rest

abbrev pub sort : List ℕ → List ℕ
sort [] = []
sort (x ∷ xs) = insert_sorted x (sort xs)

count-insert_sorted :
    (n x : ℕ) (xs : List ℕ) → count n (insert_sorted x xs) ≡ num (n == x) + count n xs
count-insert_sorted n x [] = refl
count-insert_sorted n x (y ∷ ys) = elim (Bool-cases (leb x y)) [
  | inl e ↦ rw e refl
  | inr e ↦ rw e (omega (arith, count-insert_sorted n x ys))
]

pub count-sort : (n : ℕ) (xs : List ℕ) → count n (sort xs) ≡ count n xs
count-sort n [] = refl
count-sort n (x ∷ xs) = omega (arith, count-insert_sorted n x (sort xs), count-sort n xs)

module _ {ℓ} {A : Type ℓ} (f : A → ℕ) where
  abbrev pub sum_by : List A → ℕ
  sum_by [] = 0
  sum_by (x ∷ xs) = f x + sum_by xs

  pub sum_by-append : (xs ys : List A) → sum_by (xs ++ ys) ≡ sum_by xs + sum_by ys
  sum_by-append [] ys = omega arith
  sum_by-append (x ∷ xs) ys = omega (arith, sum_by-append xs ys)

  -- A write takes the old element's share out and puts the new one's in.
  pub sum_by-set :
      (xs : List A) (i : ℕ) (v d : A)
      → i < length xs
      → sum_by (set xs i v) + f (get_or xs i d) ≡ sum_by xs + f v
  sum_by-set [] i v d h = elim h [ ]
  sum_by-set (x ∷ xs) zero v d h = omega arith
  sum_by-set (x ∷ xs) (suc i) v d h = omega (arith, sum_by-set xs i v d (omega arith))

  pub sum_by-replicate : (n : ℕ) (a : A) → f a ≡ 0 → sum_by (replicate n a) ≡ 0
  sum_by-replicate zero a h = refl
  sum_by-replicate (suc n) a h = omega (arith, h, sum_by-replicate n a h)

  -- A write of a smaller share, in or out of bounds.
  pub sum_by-set_le :
      (xs : List A) (i : ℕ) (v d : A) → f v ≤ f (get_or xs i d) → sum_by (set xs i v) ≤ sum_by xs
  sum_by-set_le [] i v d h = omega arith
  sum_by-set_le (x ∷ xs) zero v d h = omega arith
  sum_by-set_le (x ∷ xs) (suc i) v d h = omega (arith, sum_by-set_le xs i v d h)
