-- ===== src/Roots/Maps.antt =====
-- The map of crawls (src/bees-roots.cc), sorted by root, as the answers that find gives.
use bees.Base.{
  ℕ, ◌≤◌, ◌<◌, ◌≡◌, refl, ap, sym, ◌∙◌, inl, inr, true, false, Option, none, some, [], ◌∷◌, length,
  All, ltb, ◌==◌, ==_iff, ltb→lt, if◌then◌else◌, arith, Bool-cases, if_elim, then_branch,
  else_branch,
}
use mathlib.Core.Path.{subst}
use bees.Crawl.{Crawl}
use bees.Roots.{CrawlMap, find_crawl, has_crawl, insert_crawl, erase_crawl, put_crawl}

abbrev pub Ascending : CrawlMap → Type 0
Ascending [] = Unit {0}
Ascending (x ∷ xs) = All (λ y. x.0 < y.0) xs × Ascending xs

pub some-none : (d : Crawl) → ◌≡◌ {A = Option Crawl} (some d) none → ⊥
some-none d e = subst (λ (o : Option Crawl). elim o [ none ↦ ⊥ | some _ ↦ Unit {0} ]) e tt

-- A root below all of a map.
pub find_below : (root : ℕ) (xs : CrawlMap) → All (λ y. root < y.0) xs → find_crawl root xs ≡ none
find_below root [] h = refl
find_below root (x ∷ xs) h =
    let e : (root == x.0) ≡ false = let k = h.0 in ground arith in
    else_branch (root == x.0) (some x.1) (find_crawl root xs) e ∙ find_below root xs h.1

pub has_find :
    (root : ℕ) (xs : CrawlMap)
    → has_crawl root xs ≡ elim (find_crawl root xs) [ none ↦ false | some c ↦ true ]
has_find root [] = refl
has_find root (x ∷ xs) = elim (Bool-cases (root == x.0)) [
  | inl e ↦ rw e refl
  | inr e ↦ rw e (has_find root xs)
]

-- The map with an entry put in or replaced.
abbrev pub with_crawl : ℕ → Crawl → ℕ → CrawlMap → Option Crawl
with_crawl root c n xs = if n == root then some c else find_crawl n xs

pub find-insert_crawl :
    (root n : ℕ) (c : Crawl) (xs : CrawlMap)
    → find_crawl root xs ≡ none
    → find_crawl n (insert_crawl root c xs) ≡ with_crawl root c n xs
find-insert_crawl root n c [] h = refl
find-insert_crawl root n c (x ∷ xs) h = elim (Bool-cases (root == x.0)) [
  | inl e ↦
      absurd (some-none x.1 (sym (then_branch (root == x.0) (some x.1) (find_crawl root xs) e) ∙ h))
  | inr e ↦ elim (Bool-cases (ltb root x.0)) [
    | inl f ↦ rw (e, f) refl
    | inr f ↦
        let k = sym (else_branch (root == x.0) (some x.1) (find_crawl root xs) e) ∙ h in
        let rest = find-insert_crawl root n c xs k in
        elim (Bool-cases (n == x.0)) [
          | inl g ↦ let m : (n == root) ≡ false = ground arith in rw (e, f, g, m) refl
          | inr g ↦ rw (e, f, g) rest
        ]
  ]
]

pub find-put_crawl :
    (root n : ℕ) (c d : Crawl) (xs : CrawlMap)
    → find_crawl root xs ≡ some d
    → find_crawl n (put_crawl root c xs) ≡ with_crawl root c n xs
find-put_crawl root n c d [] h = absurd (some-none d (sym h))
find-put_crawl root n c d (x ∷ xs) h = elim (Bool-cases (root == x.0)) [
  | inl e ↦ elim (Bool-cases (n == x.0)) [
    | inl f ↦ let g : (n == root) ≡ true = ground arith in rw (e, f, g) refl
    | inr f ↦ let g : (n == root) ≡ false = ground arith in rw (e, f, g) refl
  ]
  | inr e ↦
      let k = sym (else_branch (root == x.0) (some x.1) (find_crawl root xs) e) ∙ h in
      elim (Bool-cases (n == x.0)) [
        | inl f ↦ let g : (n == root) ≡ false = ground arith in rw (e, f, g) refl
        | inr f ↦ rw (e, f) (find-put_crawl root n c d xs k)
      ]
]

pub find-erase_crawl :
    (root n : ℕ) (xs : CrawlMap)
    → Ascending xs
    → find_crawl n (erase_crawl root xs) ≡ (if n == root then none else find_crawl n xs)
find-erase_crawl root n [] a = if_elim (λ o. none ≡ o) (n == root) none none (λ _. refl) (λ _. refl)
find-erase_crawl root n (x ∷ xs) a = elim (Bool-cases (root == x.0)) [
  | inl e ↦ elim (Bool-cases (n == x.0)) [
    | inl f ↦
        let g : (n == root) ≡ true = ground arith in
        let same = (==_iff n x.0).0 f in
        rw (e, g) (ap (λ m. find_crawl m xs) same ∙ find_below x.0 xs a.0)
    | inr f ↦ let g : (n == root) ≡ false = ground arith in rw (e, f, g) refl
  ]
  | inr e ↦ elim (Bool-cases (n == x.0)) [
    | inl f ↦ let g : (n == root) ≡ false = ground arith in rw (e, f, g) refl
    | inr f ↦ rw (e, f) (find-erase_crawl root n xs a.1)
  ]
]

All-insert_crawl :
    (low root : ℕ) (c : Crawl) (xs : CrawlMap)
    → low < root
    → All (λ y. low < y.0) xs
    → All (λ y. low < y.0) (insert_crawl root c xs)
All-insert_crawl low root c [] h a = (h, tt)
All-insert_crawl low root c (x ∷ xs) h a =
    if_elim (All (λ y. low < y.0)) (root == x.0) (x ∷ xs) _ (λ _. a)
      (λ _.
        if_elim (All (λ y. low < y.0)) (ltb root x.0) ((root, c) ∷ (x ∷ xs))
          (x ∷ insert_crawl root c xs) (λ _. (h, a))
          (λ _. (a.0, All-insert_crawl low root c xs h a.1)))

pub insert_crawl-Ascending :
    (root : ℕ) (c : Crawl) (xs : CrawlMap) → Ascending xs → Ascending (insert_crawl root c xs)
insert_crawl-Ascending root c [] a = (tt, tt)
insert_crawl-Ascending root c (x ∷ xs) a =
    if_elim Ascending (root == x.0) (x ∷ xs) _ (λ _. a)
      (λ e.
        if_elim Ascending (ltb root x.0) ((root, c) ∷ (x ∷ xs)) (x ∷ insert_crawl root c xs)
          (λ f. let h = ltb→lt root x.0 f in ((h, below root x.0 xs h a.0), a))
          (λ f. (
            All-insert_crawl x.0 root c xs (ground arith) a.0,
            insert_crawl-Ascending root c xs a.1,
          )))
  where
    below : (a b : ℕ) (xs : CrawlMap) → a < b → All (λ y. b < y.0) xs → All (λ y. a < y.0) xs
    below a b [] h k = tt
    below a b (y ∷ ys) h k = (let l = k.0 in omega arith, below a b ys h k.1)

All-put_crawl :
    (low root : ℕ) (c : Crawl) (xs : CrawlMap)
    → All (λ y. low < y.0) xs
    → All (λ y. low < y.0) (put_crawl root c xs)
All-put_crawl low root c [] a = tt
All-put_crawl low root c (x ∷ xs) a =
    if_elim (All (λ y. low < y.0)) (root == x.0) ((x.0, c) ∷ xs) (x ∷ put_crawl root c xs) (λ _. a)
      (λ _. (a.0, All-put_crawl low root c xs a.1))

pub put_crawl-Ascending :
    (root : ℕ) (c : Crawl) (xs : CrawlMap) → Ascending xs → Ascending (put_crawl root c xs)
put_crawl-Ascending root c [] a = tt
put_crawl-Ascending root c (x ∷ xs) a =
    if_elim Ascending (root == x.0) ((x.0, c) ∷ xs) (x ∷ put_crawl root c xs) (λ _. a)
      (λ _. (All-put_crawl x.0 root c xs a.0, put_crawl-Ascending root c xs a.1))

All-erase_crawl :
    (low root : ℕ) (xs : CrawlMap)
    → All (λ y. low < y.0) xs
    → All (λ y. low < y.0) (erase_crawl root xs)
All-erase_crawl low root [] a = tt
All-erase_crawl low root (x ∷ xs) a =
    if_elim (All (λ y. low < y.0)) (root == x.0) xs (x ∷ erase_crawl root xs) (λ _. a.1)
      (λ _. (a.0, All-erase_crawl low root xs a.1))

pub erase_crawl-Ascending :
    (root : ℕ) (xs : CrawlMap) → Ascending xs → Ascending (erase_crawl root xs)
erase_crawl-Ascending root [] a = tt
erase_crawl-Ascending root (x ∷ xs) a =
    if_elim Ascending (root == x.0) xs (x ∷ erase_crawl root xs) (λ _. a.1)
      (λ _. (All-erase_crawl x.0 root xs a.0, erase_crawl-Ascending root xs a.1))

-- A map with two roots has two entries.
pub two_entries :
    (a b : ℕ) (c d : Crawl) (xs : CrawlMap)
    → (a == b) ≡ false
    → find_crawl a xs ≡ some c
    → find_crawl b xs ≡ some d
    → 2 ≤ length xs
two_entries a b c d [] ne h k = absurd (some-none c (sym h))
two_entries a b c d (x ∷ []) ne h k = elim (Bool-cases (a == x.0)) [
  | inr e ↦ absurd (some-none c (sym h ∙ else_branch (a == x.0) (some x.1) none e))
  | inl e ↦
      let f : (b == x.0) ≡ false = ground arith in
      absurd (some-none d (sym k ∙ else_branch (b == x.0) (some x.1) none f))
]
two_entries a b c d (x ∷ (y ∷ xs)) ne h k = omega arith
