-- ===== src/Crawl/Pass.antt =====
-- A crawl (src/bees-roots.cc) passes over the inodes of its subvolume, each once and in order.
use bees.Base.{
  ℕ, zero, suc, ◌+◌, ◌-◌, ◌^◌, ◌%◌, ◌≤◌, ◌<◌, ◌≡◌, refl, ap, sym, ◌∙◌, max, Bool, true, false, not,
  ◌||◌, Option, none, some, List, [], ◌∷◌, length, ltb, leb, ◌==◌, lt→ltb, if◌then◌else◌, arith,
  then_branch, else_branch, Outcome, ok, ◌>>=◌, Returns, Returns-bind,
}
use mathlib.Core.Path.{subst}
use bees.Crawl.{
  CrawlState, World, Crawl, Item, state_lt, is_subvol_tree, set_state, after_item, take_item,
  fetch_extents, fetch_extents_harder, pop_front,
}
use bees.Crawl.Rounds.{without_item, with_item, go_on, goes_on}
use bees.Crawl.Advanced.{set_state_later}

-- The first item of an inode from `x` on.
abbrev pub first_from : ℕ → List Item → Option Item
first_from x [] = none
first_from x (i ∷ is) = let rest = first_from x is in if leb x i.objectid then some i else rest

-- In order of their inodes, from `x` on, and not the last possible inode.
abbrev pub Sorted : ℕ → List Item → Type 0
Sorted x [] = Unit {0}
Sorted x (i ∷ is) = (x ≤ i.objectid) × (i.objectid < 2 ^ 64 - 1) × Sorted (i.objectid + 1) is

-- A crawl with a part of the subvolume still to scan: what lower_bound finds from here on is in
-- the list.
pub record IsScan (w : World) (is : List Item) (c : Crawl) : Type 0 where
  pub active : c.m_deferred ≡ false
  pub unfinished : c.m_finished ≡ false
  pub not_empty : c.m_end.m_min_transid < c.m_end.m_max_transid
  pub writable : w.is_root_ro c.m_end.m_root ≡ false
  pub subvol : is_subvol_tree c.m_end.m_root ≡ true
  pub no_item : c.m_next_extent_data ≡ none
  pub sorted : Sorted c.m_end.m_objectid is
  pub found :
      (x : ℕ)
      → c.m_end.m_objectid ≤ x
      → w.lower_bound c.m_end.m_root c.m_end.m_min_transid x ≡ ok (first_from x is)

scans : World → Crawl → Outcome (Crawl × Bool)
scans w c = take_item w c (w.lower_bound c.m_end.m_root c.m_end.m_min_transid c.m_end.m_objectid)

fetches : (w : World) (is : List Item) (c : Crawl) → IsScan w is c → fetch_extents w c ≡ scans w c
unfolding fetch_extents scans
fetches w is c s =
    let busy : (c.m_finished || leb c.m_end.m_max_transid c.m_end.m_min_transid) ≡ false =
      let a = s.unfinished in let b = s.not_empty in ground arith in
    else_branch c.m_deferred _ _ s.active
    ∙ (else_branch (c.m_finished || leb c.m_end.m_max_transid c.m_end.m_min_transid) _ _ busy
        ∙ (else_branch (w.is_root_ro c.m_end.m_root) _ _ s.writable
            ∙ else_branch (not (is_subvol_tree c.m_end.m_root)) _ _ (ap not s.subvol)))

pub item_later :
    (i : Item) (s : CrawlState)
    → s.m_objectid ≤ i.objectid
    → i.objectid < 2 ^ 64 - 1
    → state_lt s (after_item i s) ≡ true
unfolding state_lt
item_later i s h k =
    let a : ltb s.m_min_transid s.m_min_transid ≡ false = ground arith in
    let b : (s.m_min_transid == s.m_min_transid) ≡ true = ground arith in
    let c : ltb s.m_max_transid s.m_max_transid ≡ false = ground arith in
    let d : (s.m_max_transid == s.m_max_transid) ≡ true = ground arith in
    let e : ltb s.m_objectid (max ((i.objectid + 1) % 2 ^ 64) i.objectid) ≡ true =
      lt→ltb _ _ (omega arith) in
    rw (a, b, c, d, e) refl

-- The crawl after it has popped an item.
unfoldable pub popped : Item → Crawl → Crawl
popped i c = record (set_state (after_item i c.m_end) c) { m_next_extent_data = none }

-- The crawl with the item at hand.
unfoldable pub taking : Item → Crawl → Crawl
taking i c = set_state (after_item i c.m_end) (record c { m_next_extent_data = some i })

fetches_first :
    (w : World) (i : Item) (is : List Item) (c : Crawl)
    → IsScan w (i ∷ is) c
    → fetch_extents w c ≡ ok (taking i c, true)
unfolding taking scans take_item
fetches_first w i is c s =
    let first : first_from c.m_end.m_objectid (i ∷ is) ≡ some i =
      then_branch (leb c.m_end.m_objectid i.objectid) _ _ (let h = s.sorted.0 in ground arith) in
    fetches w (i ∷ is) c s
    ∙ ap (take_item w c) (s.found c.m_end.m_objectid (omega arith) ∙ ap (λ o. ok o) first)

pub harder_is :
    (n : ℕ) (w : World) (i : Item) (is : List Item) (c : Crawl)
    → IsScan w (i ∷ is) c
    → fetch_extents_harder (suc (suc n)) w c ≡ ok (some (taking i c))
unfolding taking set_state
harder_is n w i is c s =
    without_item (suc n) w c s.no_item
    ∙ (ap (λ o. o >>= go_on (suc n) w) (fetches_first w i is c s)
        ∙ (goes_on (suc n) w (taking i c) ∙ with_item n w (taking i c) i refl))

pub pop_front_is :
    (n : ℕ) (w : World) (i : Item) (is : List Item) (c : Crawl)
    → IsScan w (i ∷ is) c
    → pop_front (suc (suc n)) w c ≡ ok (some (popped i c, some i))
unfolding pop_front popped taking set_state
pop_front_is n w i is c s =
    ap
      (λ (o : Outcome (Option Crawl)). o >>= λ r.
        ok (elim r as (λ _. Option (Crawl × Option Item)) [
          | none ↦ none
          | some d ↦ some (record d { m_next_extent_data = none }, d.m_next_extent_data)
        ]))
      (harder_is n w i is c s)

-- What is left is the rest of the list.
pub popped-IsScan :
    (w : World) (i : Item) (is : List Item) (c : Crawl)
    → IsScan w (i ∷ is) c
    → IsScan w is (popped i c)
unfolding popped set_state
popped-IsScan w i is c s =
    let e = set_state_later (after_item i c.m_end) c (item_later i c.m_end s.sorted.0 s.sorted.1) in
    let at : (popped i c).m_end.m_objectid ≡ i.objectid + 1 =
      ap (λ t. t.m_objectid) e ∙ (let h = s.sorted.1 in omega arith) in
    record {
      active = s.active;
      unfinished = s.unfinished;
      not_empty = subst (λ t. t.m_min_transid < t.m_max_transid) (sym e) s.not_empty;
      writable = ap (λ t. w.is_root_ro t.m_root) e ∙ s.writable;
      subvol = ap (λ t. is_subvol_tree t.m_root) e ∙ s.subvol;
      no_item = refl;
      sorted = subst (λ x. Sorted x is) (sym at) s.sorted.2;
      found = λ x h.
          let past : leb x i.objectid ≡ false = let k = at in ground arith in
          ap (λ t. w.lower_bound t.m_root t.m_min_transid x) e
          ∙ (s.found x (let k = s.sorted.0 in omega (arith, at, h))
              ∙ ap (λ o. ok o) (else_branch (leb x i.objectid) (some i) (first_from x is) past));
    }

-- A crawl that has the item `i` at hand and is past it, with a part of the subvolume still to scan.
pub record IsPeeked (w : World) (i : Item) (is : List Item) (c : Crawl) : Type 0 where
  pub item : c.m_next_extent_data ≡ some i
  pub rest : IsScan w is (record c { m_next_extent_data = none })

-- peek_front finds the first item and leaves it at hand.
pub peek_front_lem :
    (n : ℕ) (w : World) (i : Item) (is : List Item) (c : Crawl)
    → IsScan w (i ∷ is) c
    → Returns
        (fetch_extents_harder (suc (suc n)) w c)
        (λ r. (d : Crawl) × (r ≡ some d) × IsPeeked w i is d)
unfolding popped taking set_state
peek_front_lem n w i is c s =
    let after : Option Crawl → Type 0 = λ r. (d : Crawl) × (r ≡ some d) × IsPeeked w i is d in
    subst (λ o. Returns o after) (sym (harder_is n w i is c s))
      (taking i c, refl, record { item = refl; rest = popped-IsScan w i is c s })

abbrev pub with_first : Item → Option (Crawl × List Item) → Option (Crawl × List Item)
with_first i none = none
with_first i (some (d, is)) = some (d, i ∷ is)

abbrev pub and_rest :
    (Crawl → Outcome (Option (Crawl × List Item)))
    → Option (Crawl × Option Item)
    → Outcome (Option (Crawl × List Item))
and_rest rest none = ok none
and_rest rest (some (d, none)) = ok (some (d, []))
and_rest rest (some (d, some i)) = rest d >>= λ q. ok (with_first i q)

-- The items that the next calls of pop_front give.
abbrev pub pop_all : ℕ → World → Crawl → Outcome (Option (Crawl × List Item))
pop_all zero w c = ok (some (c, []))
pop_all (suc n) w c = pop_front 3 w c >>= and_rest (pop_all n w)

-- A crawl that is not put off, of a writable subvolume and an interval that is not empty, for
-- which the search finds the next inode of a sorted list, pops the inodes of the list, each once
-- and in order.
pub pop_all_lem :
    (w : World) (is : List Item) (c : Crawl)
    → IsScan w is c
    → Returns (pop_all (length is) w c) (λ r. (d : Crawl) × (r ≡ some (d, is)) × IsScan w [] d)
pop_all_lem w [] c s = (c, refl, s)
pop_all_lem w (i ∷ is) c s =
    let whole : Option (Crawl × List Item) → Type 0 =
      λ r. (d : Crawl) × (r ≡ some (d, i ∷ is)) × IsScan w [] d in
    subst (λ o. Returns o whole)
      (sym (ap (λ o. o >>= and_rest (pop_all (length is) w)) (pop_front_is 1 w i is c s)))
      (Returns-bind (λ r. (d : Crawl) × (r ≡ some (d, is)) × IsScan w [] d) whole
        (pop_all (length is) w (popped i c)) (λ q. ok (with_first i q))
        (pop_all_lem w is (popped i c) (popped-IsScan w i is c s))
        (λ r (d, e, t). (d, ap (with_first i) e, t)))
