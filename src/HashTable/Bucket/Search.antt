-- ===== src/HashTable/Bucket/Search.antt =====
-- The searches over a bucket find the first cell that fits, and fail only where none does.
use bees.Base.{
  ℕ, zero, suc, ◌+◌, ◌≤◌, ◌<◌, ◌≡◌, ◌≢◌, ◌↔◌, refl, ap, ◌⊎◌, inl, inr, true, false, List, [], ◌∷◌,
  ◌++◌, none, some, arith, length, length-append, ltb, lt→ltb, get_or, All, Bool-cases,
}
use native.Mathlib.Decide.{ℕ_discrete}
use mathlib.Core.Path.{subst}
use bees.HashTable.{Cell, empty_cell, cell_eq}
use bees.HashTable.Bucket.{find, empty_after, empty_before}

pub cell_eq_iff : (a b : Cell) → (cell_eq a b ≡ true) ↔ (a ≡ b)
cell_eq_iff a b = (λ h. ground arith, λ h. ground arith)

pub cell_ne : (a b : Cell) → cell_eq a b ≡ false → a ≢ b
cell_ne a b h e = ground arith

abbrev pub Absent : Cell → List Cell → Type 0
Absent c xs = All (λ x. x ≢ c) xs

-- Where `find` stops inside the list, the list is cut at the first cell that is `c`.
pub find_cases :
    (c : Cell) (xs : List Cell)
    → ((ys : List Cell) × (zs : List Cell) × (xs ≡ ys ++ c ∷ zs)
        × (find c xs ≡ length ys)
        × Absent c ys)
      ⊎ (Absent c xs × (find c xs ≡ length xs))
unfolding find
find_cases c [] = inr (tt, refl)
find_cases c (x ∷ xs) = elim (Bool-cases (cell_eq x c)) [
  | inl e ↦ inl ([], xs, ap (λ y. y ∷ xs) ((cell_eq_iff x c).0 e), rw e, tt)
  | inr e ↦ elim (find_cases c xs) [
    | inl (ys, zs, p, q, a) ↦ inl (x ∷ ys, zs, ap (◌∷◌ x) p, rw e (ap suc q), (cell_ne x c e, a))
    | inr (a, q) ↦ inr ((cell_ne x c e, a), rw e (ap suc q))
  ]
]

pub empty_after_cases :
    (n ip : ℕ) (xs : List Cell)
    → ((j : ℕ) × (empty_after n ip xs ≡ some j)
        × (ip ≤ j)
        × (j < ip + n)
        × (get_or xs j empty_cell ≡ empty_cell))
      ⊎ ((empty_after n ip xs ≡ none)
          × ((i : ℕ) → ip ≤ i → i < ip + n → get_or xs i empty_cell ≢ empty_cell))
unfolding empty_after
empty_after_cases zero ip xs = inr (refl, λ i a b. absurd (omega arith))
empty_after_cases (suc n) ip xs = elim (Bool-cases (cell_eq (get_or xs ip empty_cell) empty_cell)) [
  | inl e ↦ inl (ip, rw e, omega arith, omega arith, (cell_eq_iff _ _).0 e)
  | inr e ↦ elim (empty_after_cases n (suc ip) xs) [
    | inl (j, p, a, b, q) ↦ inl (j, rw e p, omega arith, omega arith, q)
    | inr (p, f) ↦ inr (
      rw e p,
      λ i a b. elim (ℕ_discrete ip i) [
        | yes q ↦ subst (λ k. get_or xs k empty_cell ≢ empty_cell) q (cell_ne _ _ e)
        | no q ↦ f i (omega arith) (omega arith)
      ],
    )
  ]
]

pub empty_before_cases :
    (n : ℕ) (xs : List Cell)
    → ((j : ℕ) × (empty_before n xs ≡ some j) × (j < n) × (get_or xs j empty_cell ≡ empty_cell))
      ⊎ ((empty_before n xs ≡ none) × ((i : ℕ) → i < n → get_or xs i empty_cell ≢ empty_cell))
unfolding empty_before
empty_before_cases zero xs = inr (refl, λ i a. absurd (omega arith))
empty_before_cases (suc n) xs = elim (Bool-cases (cell_eq (get_or xs n empty_cell) empty_cell)) [
  | inl e ↦ inl (n, rw e, omega arith, (cell_eq_iff _ _).0 e)
  | inr e ↦ elim (empty_before_cases n xs) [
    | inl (j, p, a, q) ↦ inl (j, rw e p, omega arith, q)
    | inr (p, f) ↦ inr (
      rw e p,
      λ i a. elim (ℕ_discrete n i) [
        | yes q ↦ subst (λ k. get_or xs k empty_cell ≢ empty_cell) q (cell_ne _ _ e)
        | no q ↦ f i (omega arith)
      ],
    )
  ]
]

pub Absent-of_get :
    (c : Cell) (xs : List Cell)
    → ((i : ℕ) → i < length xs → get_or xs i empty_cell ≢ c)
    → Absent c xs
Absent-of_get c [] f = tt
Absent-of_get c (x ∷ xs) f =
    (f 0 (omega arith), Absent-of_get c xs (λ i h. f (suc i) (omega arith)))

pub ltb_inside :
    {xs : List Cell} (ys : List Cell) (c : Cell) (zs : List Cell) {i : ℕ}
    → xs ≡ ys ++ c ∷ zs
    → i ≡ length ys
    → ltb i (length xs) ≡ true
ltb_inside ys c zs p q = rw (p, q) (lt→ltb _ _ (omega (arith, length-append ys (c ∷ zs))))
