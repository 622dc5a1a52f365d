-- ===== src/Progress/Checkpoint.antt =====
-- What the two points of a ProgressTracker (include/crucible/progress.h) say of the work in progress.
use bees.Base.{
  ℕ, ◌≤◌, ◌≡◌, ◌⊎◌, inl, inr, refl, true, false, List, [], ◌∷◌, max, arith, All, ltb, if◌then◌else◌,
  Returns, Bool-cases,
}
use bees.Progress.{HolderKey, Tracker, key_lt, key_eq, insert, erase, first_value, hold, release}

-- In order, each key once.
abbrev pub IsSorted : List HolderKey → Type 0
IsSorted [] = Unit {0}
IsSorted (x ∷ xs) = All (λ y. key_lt x y ≡ true) xs × IsSorted xs

abbrev pub Held : HolderKey → List HolderKey → Type 0
Held k [] = ⊥
Held k (x ∷ xs) = (key_eq k x ≡ true) ⊎ Held k xs

-- m_begin is the first value in progress, or m_end where there is none; none is beyond m_end.
pub record IsTracker (t : Tracker) : Type 0 where
  pub sorted : IsSorted t.m_in_progress
  pub within : All (λ x. x.m_value ≤ t.m_end) t.m_in_progress
  pub begin_is : t.m_begin ≡ first_value t.m_end t.m_in_progress

key_lt_trans : (a b c : HolderKey) → key_lt a b ≡ true → key_lt b c ≡ true → key_lt a c ≡ true
key_lt_trans a b c h l = ground arith

-- The three ways in which two keys compare.
key_cases :
    (a b : HolderKey)
    → (key_lt a b ≡ true)
      ⊎ (((key_lt a b ≡ false) × (key_eq a b ≡ true))
          ⊎ ((key_lt a b ≡ false) × (key_eq a b ≡ false) × (key_lt b a ≡ true)))
key_cases a b = ground arith

insert-All :
    (P : HolderKey → Type 0) (k : HolderKey) (xs : List HolderKey)
    → P k
    → All P xs
    → All P (insert k xs).0
unfolding insert
insert-All P k [] h a = (h, tt)
insert-All P k (x ∷ xs) h a = elim (key_cases k x) [
  | inl e ↦ rw e (h, a)
  | inr (inl (e, f)) ↦ rw (e, f) a
  | inr (inr (e, f, g)) ↦ rw (e, f) (a.0, insert-All P k xs h a.1)
]

erase-All :
    (P : HolderKey → Type 0) (k : HolderKey) (xs : List HolderKey) → All P xs → All P (erase k xs).0
unfolding erase
erase-All P k [] a = tt
erase-All P k (x ∷ xs) a = elim (Bool-cases (key_eq k x)) [
  | inl e ↦ rw e a.1
  | inr e ↦ rw e (a.0, erase-All P k xs a.1)
]

All-later :
    (k x : HolderKey) (xs : List HolderKey)
    → key_lt k x ≡ true
    → All (λ y. key_lt x y ≡ true) xs
    → All (λ y. key_lt k y ≡ true) xs
All-later k x [] h a = tt
All-later k x (y ∷ ys) h a = (key_lt_trans k x y h a.0, All-later k x ys h a.1)

insert-IsSorted : (k : HolderKey) (xs : List HolderKey) → IsSorted xs → IsSorted (insert k xs).0
unfolding insert
insert-IsSorted k [] s = (tt, tt)
insert-IsSorted k (x ∷ xs) s = elim (key_cases k x) [
  | inl e ↦ rw e ((e, All-later k x xs e s.0), s)
  | inr (inl (e, f)) ↦ rw (e, f) s
  | inr (inr (e, f, g)) ↦
      rw (e, f) (insert-All (λ y. key_lt x y ≡ true) k xs g s.0, insert-IsSorted k xs s.1)
]

erase-IsSorted : (k : HolderKey) (xs : List HolderKey) → IsSorted xs → IsSorted (erase k xs).0
unfolding erase
erase-IsSorted k [] s = tt
erase-IsSorted k (x ∷ xs) s = elim (Bool-cases (key_eq k x)) [
  | inl e ↦ rw e s.1
  | inr e ↦ rw e (erase-All (λ y. key_lt x y ≡ true) k xs s.0, erase-IsSorted k xs s.1)
]

insert_new :
    (k : HolderKey) (xs : List HolderKey)
    → (Held k xs → ⊥)
    → ((insert k xs).1 ≡ true) × Held k (insert k xs).0
unfolding insert
insert_new k [] h = (refl, inl (ground arith))
insert_new k (x ∷ xs) h = elim (key_cases k x) [
  | inl e ↦ rw e (refl, inl (ground arith))
  | inr (inl (e, f)) ↦ absurd (h (inl f))
  | inr (inr (e, f, g)) ↦
      let (new, here) = insert_new k xs (λ l. h (inr l)) in rw (e, f) (new, inr here)
]

-- A key that is before all of a list is not in it.
later-Held : (k : HolderKey) (xs : List HolderKey) → All (λ y. key_lt k y ≡ true) xs → Held k xs → ⊥
later-Held k [] a h = elim h [ ]
later-Held k (x ∷ xs) a (inl e) = let l = a.0 in absurd (ground arith)
later-Held k (x ∷ xs) a (inr h) = later-Held k xs a.1 h

key_eq-lt : (k x y : HolderKey) → key_eq k x ≡ true → key_lt x y ≡ true → key_lt k y ≡ true
key_eq-lt k x y e h = ground arith

All-key_eq :
    (k x : HolderKey) (xs : List HolderKey)
    → key_eq k x ≡ true
    → All (λ y. key_lt x y ≡ true) xs
    → All (λ y. key_lt k y ≡ true) xs
All-key_eq k x [] e a = tt
All-key_eq k x (y ∷ ys) e a = (key_eq-lt k x y e a.0, All-key_eq k x ys e a.1)

erase-Held :
    (k : HolderKey) (xs : List HolderKey)
    → IsSorted xs
    → Held k xs
    → ((erase k xs).1 ≡ 1) × (Held k (erase k xs).0 → ⊥)
unfolding erase
erase-Held k [] s h = elim h [ ]
erase-Held k (x ∷ xs) s h = elim (Bool-cases (key_eq k x)) [
  | inl e ↦ rw e (refl, later-Held k xs (All-key_eq k x xs e s.0))
  | inr e ↦
      let (one, gone) =
        erase-Held k xs s.1 (elim h [ inl f ↦ absurd (ground arith) | inr l ↦ l ]) in
      rw e (one, elim [ inl f ↦ absurd (ground arith) | inr l ↦ gone l ])
]

All-le :
    (m n : ℕ) (xs : List HolderKey)
    → m ≤ n
    → All (λ x. x.m_value ≤ m) xs
    → All (λ x. x.m_value ≤ n) xs
All-le m n [] h a = tt
All-le m n (x ∷ xs) h a = (let l = a.0 in omega arith, All-le m n xs h a.1)

first_value-Held :
    (d e : ℕ) (k : HolderKey) (xs : List HolderKey)
    → Held k xs
    → first_value d xs ≡ first_value e xs
first_value-Held d e k [] h = elim h [ ]
first_value-Held d e k (x ∷ xs) h = refl

-- On a well-formed tracker a new holder is accepted where its key is not held; the tracker stays
-- well formed, and its end is the later one of the end and the value.
pub hold_lem :
    (k : HolderKey) (t : Tracker)
    → IsTracker t
    → (Held k t.m_in_progress → ⊥)
    → Returns
        (hold k t)
        (λ u. IsTracker u × (u.m_end ≡ max t.m_end k.m_value) × Held k u.m_in_progress)
unfolding hold
hold_lem k t i h =
    let (new, here) = insert_new k t.m_in_progress h in
    let top = max t.m_end k.m_value in
    let is : (if ltb t.m_end k.m_value then k.m_value else t.m_end) ≡ top = ground arith in
    rw (new, is)
      (
        record {
          sorted = insert-IsSorted k t.m_in_progress i.sorted;
          within =
              insert-All (λ x. x.m_value ≤ top) k t.m_in_progress (omega arith)
                (All-le t.m_end top t.m_in_progress (omega arith) i.within);
          begin_is = first_value-Held t.m_begin top k (insert k t.m_in_progress).0 here;
        },
        refl,
        here,
      )

-- On a well-formed tracker a holder that is held is released; the tracker stays well formed, its
-- end stays, and the holder is gone.
pub release_lem :
    (k : HolderKey) (t : Tracker)
    → IsTracker t
    → Held k t.m_in_progress
    → Returns (release k t) (λ u. IsTracker u × (u.m_end ≡ t.m_end) × (Held k u.m_in_progress → ⊥))
unfolding release
release_lem k t i h =
    let (one, gone) = erase-Held k t.m_in_progress i.sorted h in
    rw one (
      record {
        sorted = erase-IsSorted k t.m_in_progress i.sorted;
        within = erase-All (λ x. x.m_value ≤ t.m_end) k t.m_in_progress i.within;
        begin_is = refl;
      },
      refl,
      gone,
    )

-- The begin of a well-formed tracker is at or before every value in progress, and at or before the
-- end.
pub begin-Checkpoint :
    (t : Tracker)
    → IsTracker t
    → All (λ x. t.m_begin ≤ x.m_value) t.m_in_progress × (t.m_begin ≤ t.m_end)
begin-Checkpoint t i = rw i.begin_is (first (t.m_in_progress) i.sorted i.within)
  where
    later :
        (x : HolderKey) (xs : List HolderKey)
        → All (λ y. key_lt x y ≡ true) xs
        → All (λ y. x.m_value ≤ y.m_value) xs
    later x [] a = tt
    later x (y ∷ ys) a = (let l = a.0 in ground arith, later x ys a.1)

    first :
        (xs : List HolderKey)
        → IsSorted xs
        → All (λ x. x.m_value ≤ t.m_end) xs
        → All (λ x. first_value t.m_end xs ≤ x.m_value) xs × (first_value t.m_end xs ≤ t.m_end)
    first [] s a = (tt, omega arith)
    first (x ∷ xs) s a = ((omega arith, later x xs s.0), a.0)
