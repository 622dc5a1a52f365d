-- ===== src/Roots/Found.antt =====
-- The roots that insert_new_crawl adds to the map (src/bees-roots.cc).
use bees.Base.{
  ℕ, ◌≡◌, refl, ap, sym, ◌∙◌, inl, inr, Bool, true, false, not, ◌&&◌, ◌||◌, Option, none, some,
  List, [], ◌∷◌, ◌==◌, ==_iff, if◌then◌else◌, arith, Bool-cases, Option-cases, if_elim, then_branch,
  else_branch, Outcome, ok, throw, runtime_error, Returns, Returns-bind, Returns-mono,
}
use mathlib.Core.Path.{subst}
use bees.Crawl.{CrawlState, Crawl, new_crawl}
use bees.Roots.{
  CrawlMap, Roots, find_crawl, has_crawl, insert_crawl, put_crawl, undefer, add_root, insert_root,
  without, insert_all,
}
use bees.Roots.Maps.{
  Ascending, has_find, with_crawl, find-insert_crawl, find-put_crawl, insert_crawl-Ascending,
  put_crawl-Ascending,
}

abbrev pub has : ℕ → List ℕ → Bool
has n [] = false
has n (x ∷ xs) = (n == x) || has n xs

-- The crawl of a root: the one that is there, or a new one.
abbrev pub kept : CrawlState → ℕ → CrawlMap → Crawl
kept bcs root xs = elim (find_crawl root xs) [
  | none ↦ new_crawl (record bcs { m_root = root })
  | some c ↦ c
]

-- What insert_root leaves: the root has its crawl, which is not put off, and the others are the
-- same.
abbrev pub Inserted : CrawlState → Roots → Roots → Type 0
Inserted bcs r s =
    Ascending s.m_root_crawl_map
    × ((n : ℕ)
        → find_crawl n s.m_root_crawl_map
          ≡ with_crawl bcs.m_root (undefer (kept bcs bcs.m_root r.m_root_crawl_map)) n
              r.m_root_crawl_map)

same_root : (n : ℕ) (c : Crawl) (xs : CrawlMap) → with_crawl n c n xs ≡ some c
same_root n c xs = then_branch (n == n) (some c) (find_crawl n xs) (ground arith)

pub insert_root_put :
    (bcs : CrawlState) (r : Roots) (c : Crawl)
    → find_crawl bcs.m_root (add_root bcs r).m_root_crawl_map ≡ some c
    → insert_root bcs r
      ≡ ok (record (add_root bcs r) {
        m_root_crawl_map = put_crawl bcs.m_root (undefer c) (add_root bcs r).m_root_crawl_map;
      })
unfolding insert_root
insert_root_put bcs r c e =
    let s = add_root bcs r in
    ap
      (λ (o : Option Crawl). elim o as (λ _. Outcome Roots) [
        | none ↦ throw runtime_error
        | some c ↦
            ok (record s { m_root_crawl_map = put_crawl bcs.m_root (undefer c) s.m_root_crawl_map })
      ])
      e

put-Inserted :
    (bcs : CrawlState) (r : Roots) (c : Crawl)
    → find_crawl bcs.m_root (add_root bcs r).m_root_crawl_map ≡ some c
    → Ascending (add_root bcs r).m_root_crawl_map
    → kept bcs bcs.m_root r.m_root_crawl_map ≡ c
    → ((n : ℕ)
        → (n == bcs.m_root) ≡ false
        → find_crawl n (add_root bcs r).m_root_crawl_map ≡ find_crawl n r.m_root_crawl_map)
    → Returns (insert_root bcs r) (Inserted bcs r)
put-Inserted bcs r c found a same others =
    let xs = (add_root bcs r).m_root_crawl_map in
    let root = bcs.m_root in
    let d = undefer (kept bcs root r.m_root_crawl_map) in
    let put : (n : ℕ) → find_crawl n (put_crawl root (undefer c) xs) ≡ with_crawl root d n xs = λ n.
      find-put_crawl root n (undefer c) c xs found
      ∙ ap (λ k. with_crawl root (undefer k) n xs) (sym same) in
    subst (λ o. Returns o (Inserted bcs r)) (sym (insert_root_put bcs r c found))
      (
        put_crawl-Ascending root (undefer c) xs a,
        λ n. put n ∙ elim (Bool-cases (n == root)) [
          | inl e ↦
              then_branch (n == root) (some d) (find_crawl n xs) e
              ∙ sym (then_branch (n == root) (some d) (find_crawl n r.m_root_crawl_map) e)
          | inr e ↦
              else_branch (n == root) (some d) (find_crawl n xs) e
              ∙ (others n e
                  ∙ sym (else_branch (n == root) (some d) (find_crawl n r.m_root_crawl_map) e))
        ],
      )

insert_root-Inserted :
    (bcs : CrawlState) (r : Roots)
    → Ascending r.m_root_crawl_map
    → Returns (insert_root bcs r) (Inserted bcs r)
insert_root-Inserted bcs r a =
    let xs = r.m_root_crawl_map in
    let root = bcs.m_root in
    let new = new_crawl bcs in
    let is_there : Option Crawl → Bool =
      λ o. elim o as (λ _. Bool) [ none ↦ false | some c ↦ true ] in
    let or_new : Option Crawl → Crawl = λ o. elim o as (λ _. Crawl) [ none ↦ new | some c ↦ c ] in
    elim (Option-cases (find_crawl root xs)) [
      | inl e ↦
          let absent : has_crawl root xs ≡ false = has_find root xs ∙ ap is_there e in
          let added : (add_root bcs r).m_root_crawl_map ≡ insert_crawl root new xs =
            ap (λ (s : Roots). s.m_root_crawl_map) (else_branch (has_crawl root xs) r _ absent) in
          put-Inserted bcs r new
            (ap (find_crawl root) added
              ∙ (find-insert_crawl root root new xs e ∙ same_root root new xs))
            (subst Ascending (sym added) (insert_crawl-Ascending root new xs a)) (ap or_new e)
            (λ n ne.
              ap (find_crawl n) added
              ∙ (find-insert_crawl root n new xs e
                  ∙ else_branch (n == root) (some new) (find_crawl n xs) ne))
      | inr (c, e) ↦
          let present : has_crawl root xs ≡ true = has_find root xs ∙ ap is_there e in
          let added : (add_root bcs r).m_root_crawl_map ≡ xs =
            ap (λ (s : Roots). s.m_root_crawl_map) (then_branch (has_crawl root xs) r _ present) in
          put-Inserted bcs r c (ap (find_crawl root) added ∙ e) (subst Ascending (sym added) a)
            (ap or_new e) (λ n ne. ap (find_crawl n) added)
    ]

-- What the loop leaves.
abbrev pub InsertedAll : CrawlState → List ℕ → List ℕ → Roots → List ℕ × Roots → Type 0
InsertedAll bcs roots excess r (left, s) =
    Ascending s.m_root_crawl_map
    × ((n : ℕ)
        → find_crawl n s.m_root_crawl_map ≡ (
            if has n roots
            then some (undefer (kept bcs n r.m_root_crawl_map))
            else find_crawl n r.m_root_crawl_map))
    × ((n : ℕ) → has n left ≡ has n excess && not (has n roots))

has-without : (n root : ℕ) (xs : List ℕ) → has n (without root xs) ≡ has n xs && not (n == root)
has-without n root [] = refl
has-without n root (x ∷ xs) = elim (Bool-cases (root == x)) [
  | inl e ↦
      rw e (has-without n root xs ∙ passed (n == root) (n == x) (has n xs) (λ f. ground arith))
  | inr e ↦ elim (Bool-cases (n == x)) [
    | inl f ↦ let g : (n == root) ≡ false = ground arith in rw (e, f, g) refl
    | inr f ↦ rw (e, f) (has-without n root xs)
  ]
]
  where
    passed : (a b c : Bool) → (b ≡ true → a ≡ true) → c && not a ≡ (b || c) && not a
    passed true b true h = ground arith
    passed true b false h = ground arith
    passed false true c h = absurd (let k = h refl in ground arith)
    passed false false c h = refl

or_new : CrawlState → ℕ → Option Crawl → Crawl
or_new bcs root o = elim o as (λ _. Crawl) [
  | none ↦ new_crawl (record bcs { m_root = root })
  | some c ↦ c
]

-- The find of one more root.
one_more :
    (bcs : CrawlState) (root n : ℕ) (roots : List ℕ) (r s t : CrawlMap)
    → find_crawl n s ≡ with_crawl root (undefer (kept bcs root r)) n r
    → find_crawl n t ≡ (if has n roots then some (undefer (kept bcs n s)) else find_crawl n s)
    → find_crawl n t
      ≡ (if (n == root) || has n roots then some (undefer (kept bcs n r)) else find_crawl n r)
unfolding or_new
one_more bcs root n roots r s t first rest = elim (Bool-cases (n == root)) [
  | inl e ↦
      let same = (==_iff n root).0 e in
      let there : find_crawl n s ≡ some (undefer (kept bcs n r)) =
        first
        ∙ (then_branch (n == root) (some (undefer (kept bcs root r))) (find_crawl n r) e
            ∙ ap (λ m. some (undefer (kept bcs m r))) (sym same)) in
      let again : some (undefer (kept bcs n s)) ≡ some (undefer (kept bcs n r)) =
        ap (λ o. some (undefer (or_new bcs n o))) there in
      rest
      ∙ (if_elim (λ o. o ≡ some (undefer (kept bcs n r))) (has n roots)
            (some (undefer (kept bcs n s))) (find_crawl n s) (λ _. again) (λ _. there)
          ∙ sym (
              then_branch ((n == root) || has n roots) (some (undefer (kept bcs n r)))
                (find_crawl n r) (ap (λ b. b || has n roots) e)))
  | inr e ↦
      let there : find_crawl n s ≡ find_crawl n r =
        first ∙ else_branch (n == root) (some (undefer (kept bcs root r))) (find_crawl n r) e in
      rest
      ∙ (ap (λ o. if has n roots then some (undefer (or_new bcs n o)) else o) there
          ∙ ap (λ b. if b then some (undefer (kept bcs n r)) else find_crawl n r)
              (ap (λ b. b || has n roots) (sym e)))
]

pub insert_all-InsertedAll :
    (bcs : CrawlState) (roots excess : List ℕ) (r : Roots)
    → Ascending r.m_root_crawl_map
    → Returns (insert_all bcs roots excess r) (InsertedAll bcs roots excess r)
insert_all-InsertedAll bcs [] excess r a = (a, λ n. refl, λ n. and_true (has n excess))
  where
    and_true : (b : Bool) → b ≡ b && true
    and_true true = refl
    and_true false = refl
insert_all-InsertedAll bcs (root ∷ roots) excess r a =
    let new = record bcs { m_root = root } in
    Returns-bind (Inserted new r) (InsertedAll bcs (root ∷ roots) excess r) (insert_root new r)
      (λ s. insert_all bcs roots (without root excess) s) (insert_root-Inserted new r a)
      (λ s (b, first).
        Returns-mono (InsertedAll bcs roots (without root excess) s)
          (InsertedAll bcs (root ∷ roots) excess r) (insert_all bcs roots (without root excess) s)
          (λ (left, t) (c, rest, gone). (
            c,
            λ n.
                one_more bcs root n roots r.m_root_crawl_map s.m_root_crawl_map t.m_root_crawl_map
                  (first n) (rest n),
            λ n.
                gone n
                ∙ (ap (λ b. b && not (has n roots)) (has-without n root excess)
                    ∙ both (has n excess) (n == root) (has n roots)),
          ))
          (insert_all-InsertedAll bcs roots (without root excess) s b))
  where
    both : (a b c : Bool) → (a && not b) && not c ≡ a && not (b || c)
    both true true c = refl
    both true false c = refl
    both false b c = refl
