-- ===== src/Scan/Lockstep.antt =====
-- The scan mode LOCKSTEP (src/bees-roots.cc) keeps its crawls in the order of their next inodes.
use bees.Base.{
  ℕ, ◌≡◌, Bool, true, false, Option, none, some, List, [], ◌∷◌, All, arith, if_elim, Outcome, ok,
  throw, runtime_error, ◌>>=◌, Allows, Allows-bind, Allows-check,
}
use bees.Crawl.{World}
use bees.Scan.{
  SortKey, Work, key_lt, insert_key, crawl_root, peek_root, lockstep_insert, lockstep_next,
  scan_lockstep,
}

abbrev pub IsSorted : List SortKey → Type 0
IsSorted [] = Unit {0}
IsSorted (x ∷ xs) = All (λ y. key_lt x y ≡ true) xs × IsSorted xs

key_lt_trans : (a b c : SortKey) → key_lt a b ≡ true → key_lt b c ≡ true → key_lt a c ≡ true
key_lt_trans a b c h k = ground arith

All-later :
    (k x : SortKey) (xs : List SortKey)
    → key_lt k x ≡ true
    → All (λ y. key_lt x y ≡ true) xs
    → All (λ y. key_lt k y ≡ true) xs
All-later k x [] h a = tt
All-later k x (y ∷ ys) h a = (key_lt_trans k x y h a.0, All-later k x ys h a.1)

All-insert_key :
    (low k : SortKey) (xs : List SortKey)
    → key_lt low k ≡ true
    → All (λ y. key_lt low y ≡ true) xs
    → All (λ y. key_lt low y ≡ true) (insert_key k xs).0
All-insert_key low k [] h a = (h, tt)
All-insert_key low k (x ∷ xs) h a =
    if_elim (λ (r : List SortKey × Bool). All (λ y. key_lt low y ≡ true) r.0) (key_lt k x)
      (k ∷ (x ∷ xs), true) _ (λ _. (h, a))
      (λ _.
        if_elim (λ (r : List SortKey × Bool). All (λ y. key_lt low y ≡ true) r.0) (key_lt x k)
          (x ∷ (insert_key k xs).0, (insert_key k xs).1) (x ∷ xs, false)
          (λ _. (a.0, All-insert_key low k xs h a.1)) (λ _. a))

insert_key-IsSorted : (k : SortKey) (xs : List SortKey) → IsSorted xs → IsSorted (insert_key k xs).0
insert_key-IsSorted k [] a = (tt, tt)
insert_key-IsSorted k (x ∷ xs) a =
    if_elim (λ (r : List SortKey × Bool). IsSorted r.0) (key_lt k x) (k ∷ (x ∷ xs), true) _
      (λ e. ((e, All-later k x xs e a.0), a))
      (λ _.
        if_elim (λ (r : List SortKey × Bool). IsSorted r.0) (key_lt x k)
          (x ∷ (insert_key k xs).0, (insert_key k xs).1) (x ∷ xs, false)
          (λ e. (All-insert_key x k xs e a.0, insert_key-IsSorted k xs a.1)) (λ _. a))

-- The map that a scan leaves.
abbrev pub LeavesSorted : Option (Work × List SortKey × Bool) → Type 0
LeavesSorted none = Unit {0}
LeavesSorted (some (k, sorted, again)) = IsSorted sorted

lockstep_insert-IsSorted :
    (root : ℕ) (sorted : List SortKey) (p : Option (Work × Option (ℕ × ℕ)))
    → IsSorted sorted
    → Allows (lockstep_insert root sorted p) LeavesSorted
lockstep_insert-IsSorted root sorted none a = tt
lockstep_insert-IsSorted root sorted (some (k, none)) a = a
lockstep_insert-IsSorted root sorted (some (k, some (ino, begin))) a =
    let key : SortKey = record { ino = ino; begin = begin; root = root } in
    let rv = insert_key key sorted in
    Allows-check LeavesSorted runtime_error rv.1 (ok (some (k, rv.0, true)))
      (λ _. insert_key-IsSorted key sorted a)

anything : {A : Type 0} (o : Outcome A) → Allows o (λ _. Unit {0})
anything (ok y) = tt
anything (throw e) = tt

lockstep_next-IsSorted :
    (w : World) (root : ℕ) (sorted : List SortKey)
    (rest : Work → Outcome (Option (Work × List SortKey × Bool))) (p : Option (Work × Bool))
    → IsSorted sorted
    → ((l : Work) → Allows (rest l) LeavesSorted)
    → Allows (lockstep_next w root sorted rest p) LeavesSorted
lockstep_next-IsSorted w root sorted rest none a h = tt
lockstep_next-IsSorted w root sorted rest (some (l, rv)) a h =
    if_elim (λ o. Allows o LeavesSorted) rv (peek_root w root l >>= lockstep_insert root sorted)
      (rest l)
      (λ _.
        Allows-bind (λ _. Unit {0}) LeavesSorted (peek_root w root l) (lockstep_insert root sorted)
          (anything (peek_root w root l)) (λ q _. lockstep_insert-IsSorted root sorted q a))
      (λ _. h l)

-- A scan that returns leaves the map sorted, so that the next one begins with the lowest key.
pub scan_lockstep-IsSorted :
    (w : World) (inode : ℕ → ℕ → Outcome (Option Bool)) (sorted : List SortKey) (k : Work)
    → IsSorted sorted
    → Allows (scan_lockstep w inode sorted k) LeavesSorted
scan_lockstep-IsSorted w inode [] k a = tt
scan_lockstep-IsSorted w inode (x ∷ sorted) k a =
    Allows-bind (λ _. Unit {0}) LeavesSorted (crawl_root w inode x.root k)
      (lockstep_next w x.root sorted (scan_lockstep w inode sorted))
      (anything (crawl_root w inode x.root k))
      (λ p _.
        lockstep_next-IsSorted w x.root sorted (scan_lockstep w inode sorted) p a.1
          (λ l. scan_lockstep-IsSorted w inode sorted l a.1))
