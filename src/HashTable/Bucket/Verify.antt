-- ===== src/HashTable/Bucket/Verify.antt =====
-- verify_cell_range of src/bees-hash.cc, which looks for what must never be in a bucket.
use native.Mathlib.Decide.{ℕ_discrete}
use bees.Base.{
  ◌≤◌, ◌<◌, ◌≡◌, ◌≢◌, refl, sym, ap, ◌∙◌, ◌⊎◌, inl, inr, Bool, true, false, ◌||◌, List, [], ◌∷◌,
  arith, Bool-cases,
}
use bees.HashTable.{Cell, cell_eq}
use bees.HashTable.Bucket.{seen, verify_cell, verify_cell_range}
use bees.HashTable.Bucket.Search.{cell_eq_iff}
use bees.HashTable.Bucket.Count.{count}

verify_cell_twice :
    (seen_it : List Cell) (c : Cell)
    → let r = verify_cell true seen_it c in verify_cell false seen_it r.0 ≡ (r.0, r.1, false)
unfolding verify_cell
verify_cell_twice seen_it c = ground arith

-- With clear_bugs set, verify_cell_range leaves a bucket in which it finds no bug.
pub verify_clears :
    (seen_it xs : List Cell)
    → (verify_cell_range false seen_it (verify_cell_range true seen_it xs).0).1 ≡ false
unfolding verify_cell_range
verify_clears seen_it [] = refl
verify_clears seen_it (x ∷ xs) =
    rw (verify_cell_twice seen_it x) (verify_clears (verify_cell true seen_it x).1 xs)

-- What a cell that passes tells: it is no magic number and was not there, and now it is.
verify_cell_same :
    (seen_it : List Cell) (c : Cell)
    → (verify_cell false seen_it c).2 ≡ false
    → c.e_addr ≢ 0
    → (0x1000 ≤ c.e_addr)
      × (seen c seen_it ≡ false)
      × ((verify_cell false seen_it c).1 ≡ c ∷ seen_it)
unfolding verify_cell
verify_cell_same seen_it c h n = ground arith

seen_after :
    (seen_it : List Cell) (x c : Cell)
    → seen c seen_it ≡ true
    → seen c (verify_cell false seen_it x).1 ≡ true
unfolding verify_cell seen
seen_after seen_it x c h = ground arith

cell_eq_refl : (c : Cell) → cell_eq c c ≡ true
cell_eq_refl c = (cell_eq_iff c c).1 refl

seen_head : (c : Cell) (seen_it : List Cell) → seen c (c ∷ seen_it) ≡ true
unfolding seen
seen_head c seen_it = rw (cell_eq_refl c)

or_false : (a b : Bool) → (a || b) ≡ false → (a ≡ false) × (b ≡ false)
or_false a b h = ground arith

true_ne_false : true ≡ false → ⊥
true_ne_false h = cc

verify_from :
    (seen_it xs : List Cell) (c : Cell)
    → (verify_cell_range false seen_it xs).1 ≡ false
    → c.e_addr ≢ 0
    → (count c xs ≤ 1)
      × (seen c seen_it ≡ true → count c xs ≡ 0)
      × (0 < count c xs → 0x1000 ≤ c.e_addr)
unfolding verify_cell_range count
verify_from seen_it [] c h n = (omega arith, λ _. refl, λ p. absurd (omega arith))
verify_from seen_it (x ∷ xs) c h n =
    let (bug, bugs) = or_false _ _ h in
    let (few, none_left, high) = verify_from (verify_cell false seen_it x).1 xs c bugs n in
    elim (Bool-cases (cell_eq x c)) [
      | inr e ↦ rw e (
        omega arith,
        λ s. omega (arith, none_left (seen_after seen_it x c s)),
        λ p. high (omega arith),
      )
      | inl e ↦
          let same : x ≡ c = (cell_eq_iff x c).0 e in
          let bug' : (verify_cell false seen_it c).2 ≡ false =
            ap (λ d. (verify_cell false seen_it d).2) (sym same) ∙ bug in
          let (above, unseen, now) = verify_cell_same seen_it c bug' n in
          let there : seen c (verify_cell false seen_it x).1 ≡ true =
            ap (λ d. seen c (verify_cell false seen_it d).1) same
            ∙ ap (seen c) now
            ∙ seen_head c seen_it in
          rw e (
            omega (arith, none_left there),
            λ s. absurd (true_ne_false (sym s ∙ unseen)),
            λ p. above,
          )
    ]

-- Where verify_cell_range reports no bug, a cell with an address stands at most once in the
-- bucket, and if it is there its address is at least 0x1000.
pub verify_sound :
    (xs : List Cell) (c : Cell)
    → (verify_cell_range false [] xs).1 ≡ false
    → c.e_addr ≢ 0
    → (count c xs ≤ 1) × ((count c xs ≡ 0) ⊎ (0x1000 ≤ c.e_addr))
verify_sound xs c h n =
    let (few, _, high) = verify_from [] xs c h n in
    (few, elim (ℕ_discrete (count c xs) 0) [ yes z ↦ inl z | no z ↦ inr (high (omega arith)) ])
