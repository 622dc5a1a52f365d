-- ===== src/Roots/Gone.antt =====
-- The roots that insert_new_crawl takes out of the map (src/bees-roots.cc).
use bees.Base.{
  ℕ, ◌+◌, ◌≡◌, refl, ap, sym, ◌∙◌, inl, inr, Bool, true, false, ◌||◌, Option, none, some, List, [],
  ◌∷◌, length, ltb, ◌==◌, ==_iff, if◌then◌else◌, arith, Bool-cases, Option-cases, if_elim,
  then_branch, else_branch,
}
use bees.Crawl.{Crawl}
use bees.Roots.{CrawlMap, Roots, find_crawl, has_crawl, erase_crawl, crawl_state_erase, erase_all}
use bees.Roots.Maps.{Ascending, has_find, find-erase_crawl, erase_crawl-Ascending, two_entries}
use bees.Roots.Found.{has}

abbrev pub Erased : ℕ → Roots → Roots → Type 0
Erased root r s =
    Ascending s.m_root_crawl_map
    × ((n : ℕ)
        → find_crawl n s.m_root_crawl_map
          ≡ (if n == root then none else find_crawl n r.m_root_crawl_map))

unchanged :
    (root : ℕ) (r : Roots)
    → Ascending r.m_root_crawl_map
    → find_crawl root r.m_root_crawl_map ≡ none
    → Erased root r r
unchanged root r a e = (
  a,
  λ n.
      let found = find_crawl n r.m_root_crawl_map in
      elim (Bool-cases (n == root)) [
        | inl f ↦
            (ap (λ m. find_crawl m r.m_root_crawl_map) ((==_iff n root).0 f) ∙ e)
            ∙ sym (then_branch (n == root) none found f)
        | inr f ↦ sym (else_branch (n == root) none found f)
      ],
)

pub not_there : (root : ℕ) (xs : CrawlMap) → has_crawl root xs ≡ false → find_crawl root xs ≡ none
not_there root xs h = elim (Option-cases (find_crawl root xs)) [
  | inl e ↦ e
  | inr (c, e) ↦
      let present : has_crawl root xs ≡ true =
        has_find root xs
        ∙ ap (λ (o : Option Crawl). elim o as (λ _. Bool) [ none ↦ false | some c ↦ true ]) e in
      absurd (ground arith)
]

-- Erasing a root that is gone, with another one that stays.
crawl_state_erase-Erased :
    (base root : ℕ) (c : Crawl) (r : Roots)
    → Ascending r.m_root_crawl_map
    → find_crawl base r.m_root_crawl_map ≡ some c
    → (base == root) ≡ false
    → Erased root r (crawl_state_erase root r)
unfolding crawl_state_erase
crawl_state_erase-Erased base root c r a h ne =
    let xs = r.m_root_crawl_map in
    let less = record r {
      m_root_crawl_map = erase_crawl root xs;
      m_crawl_dirty = r.m_crawl_dirty + 1;
    } in
    if_elim (Erased root r) (ltb (length xs) 2) r (if has_crawl root xs then less else r)
      (λ short. elim (Option-cases (find_crawl root xs)) [
        | inl e ↦ unchanged root r a e
        | inr (d, e) ↦ absurd (let two = two_entries base root c d xs ne h e in ground arith)
      ])
      (λ _.
        if_elim (Erased root r) (has_crawl root xs) less r
          (λ _. (erase_crawl-Ascending root xs a, λ n. find-erase_crawl root n xs a))
          (λ e. unchanged root r a (not_there root xs e)))

pub erase_all_lem :
    (base : ℕ) (c : Crawl) (roots : List ℕ) (r : Roots)
    → Ascending r.m_root_crawl_map
    → find_crawl base r.m_root_crawl_map ≡ some c
    → has base roots ≡ false
    → Ascending (erase_all roots r).m_root_crawl_map
      × ((n : ℕ)
          → find_crawl n (erase_all roots r).m_root_crawl_map
            ≡ (if has n roots then none else find_crawl n r.m_root_crawl_map))
erase_all_lem base c [] r a h out = (a, λ n. refl)
erase_all_lem base c (root ∷ roots) r a h out =
    let ne : (base == root) ≡ false = first_of (base == root) (has base roots) out in
    let rest : has base roots ≡ false = second_of (base == root) (has base roots) out in
    let (b, erased) = crawl_state_erase-Erased base root c r a h ne in
    let s = crawl_state_erase root r in
    let stays =
      erased base ∙ (else_branch (base == root) none (find_crawl base r.m_root_crawl_map) ne ∙ h) in
    let (last, others) = erase_all_lem base c roots s b stays rest in
    (
      last,
      λ n.
          others n
          ∙ (ap (λ o. if has n roots then none else o) (erased n)
              ∙ nested (has n roots) (n == root) (find_crawl n r.m_root_crawl_map)),
    )
  where
    first_of : (a b : Bool) → (a || b) ≡ false → a ≡ false
    first_of true b h = h
    first_of false b h = refl

    second_of : (a b : Bool) → (a || b) ≡ false → b ≡ false
    second_of true b h = absurd (ground arith)
    second_of false b h = h

    nested :
        (a b : Bool) (o : Option Crawl)
        → (if a then none else if b then none else o) ≡ (if b || a then none else o)
    nested true true o = refl
    nested true false o = refl
    nested false true o = refl
    nested false false o = refl
