-- ===== src/Roots/Fresh.antt =====
-- The crawls that BeesRoots (src/bees-roots.cc) has after it has looked for new subvolumes.
use bees.Base.{
  ℕ, ◌≡◌, refl, ap, sym, ◌∙◌, inl, inr, Bool, true, false, not, ◌&&◌, Option, none, some, List, [],
  ◌∷◌, ◌==◌, ==_iff, if◌then◌else◌, Bool-cases, ok, ◌>>=◌, Returns, Returns-bind,
}
use mathlib.Core.Path.{subst}
use bees.Crawl.{CrawlState, Crawl, World, is_subvol_tree, btrfs_fs_tree_objectid}
use bees.Crawl.Advanced.{IsWorld, transid_max_is}
use bees.Roots.{
  CrawlMap, Roots, find_crawl, has_crawl, undefer, transid_min, subvols, insert_all, erase_all,
  insert_new_crawl,
}
use bees.Roots.Maps.{Ascending}
use bees.Roots.Found.{has, kept, InsertedAll, insert_all-InsertedAll}
use bees.Roots.Gone.{not_there, erase_all_lem}

-- A new crawl begins where the lowest one does, up to the last transaction.
abbrev pub new_state : World → ℕ → CrawlState
new_state w low = record {
  m_root = btrfs_fs_tree_objectid;
  m_objectid = 0;
  m_offset = 0;
  m_min_transid = low;
  m_max_transid = w.transid_count;
  m_started = w.time;
}

-- The crawl that a root has then.
abbrev pub expected : CrawlState → List ℕ → CrawlMap → ℕ → Option Crawl
expected bcs roots xs n =
    if has n roots
    then some (undefer (kept bcs n xs))
    else if is_subvol_tree n
    then none
    else find_crawl n xs

has-subvols : (n : ℕ) (xs : CrawlMap) → has n (subvols xs) ≡ is_subvol_tree n && has_crawl n xs
has-subvols n [] = and_false (is_subvol_tree n)
  where
    and_false : (b : Bool) → false ≡ b && false
    and_false true = refl
    and_false false = refl
has-subvols n (x ∷ xs) = elim (Bool-cases (is_subvol_tree x.0)) [
  | inl e ↦ elim (Bool-cases (n == x.0)) [
    | inl f ↦
        let g : is_subvol_tree n ≡ true = ap is_subvol_tree ((==_iff n x.0).0 f) ∙ e in
        rw (e, f, g) refl
    | inr f ↦ rw (e, f) (has-subvols n xs)
  ]
  | inr e ↦ elim (Bool-cases (n == x.0)) [
    | inl f ↦
        let g : is_subvol_tree n ≡ false = ap is_subvol_tree ((==_iff n x.0).0 f) ∙ e in
        rw (e, f, g) (has-subvols n xs ∙ ap (λ b. b && has_crawl n xs) g)
    | inr f ↦ rw (e, f) (has-subvols n xs)
  ]
]

new_is :
    (w : World) (low : ℕ) (others : List ℕ) (r : Roots)
    → IsWorld w
    → transid_min w r ≡ ok low
    → insert_new_crawl w others r ≡ (
        insert_all
          (new_state w low)
          (btrfs_fs_tree_objectid ∷ others)
          (subvols r.m_root_crawl_map)
          r
        >>= λ s. ok (erase_all s.0 s.1))
unfolding insert_new_crawl
new_is w low others r i e = rw (e, transid_max_is w i) refl

-- What is left after erasing is what is expected.
erased_rest :
    (bcs : CrawlState) (roots left : List ℕ) (n : ℕ) (xs ys zs : CrawlMap)
    → find_crawl n ys ≡ (if has n roots then some (undefer (kept bcs n xs)) else find_crawl n xs)
    → has n left ≡ has n (subvols xs) && not (has n roots)
    → find_crawl n zs ≡ (if has n left then none else find_crawl n ys)
    → find_crawl n zs ≡ expected bcs roots xs n
erased_rest bcs roots left n xs ys zs inserted gone erased =
    let excess = gone ∙ ap (λ b. b && not (has n roots)) (has-subvols n xs) in
    erased
    ∙ (ap (λ b. if b then none else find_crawl n ys) excess
        ∙ (ap (λ o. if (is_subvol_tree n && has_crawl n xs) && not (has n roots) then none else o)
              inserted
            ∙ decide (has n roots) (is_subvol_tree n) (has_crawl n xs)
                (some (undefer (kept bcs n xs))) (find_crawl n xs) (not_there n xs)))
  where
    decide :
        (a b c : Bool) (new old : Option Crawl)
        → (c ≡ false → old ≡ none)
        → (if (b && c) && not a then none else if a then new else old)
          ≡ (if a then new else if b then none else old)
    decide true true true new old h = refl
    decide true true false new old h = refl
    decide true false c new old h = refl
    decide false true true new old h = refl
    decide false true false new old h = h refl
    decide false false c new old h = refl

-- Where the transaction numbers are in range and the map is sorted, insert_new_crawl returns with
-- a sorted map, in which the roots that are found have their old crawl, or a new one from the
-- lowest transaction on, not put off, the other subvolumes have none, and all else stays.
pub insert_new_crawl_lem :
    (w : World) (low n : ℕ) (others : List ℕ) (r : Roots)
    → IsWorld w
    → Ascending r.m_root_crawl_map
    → transid_min w r ≡ ok low
    → Returns (insert_new_crawl w others r) (λ s.
      Ascending s.m_root_crawl_map
      × (find_crawl n s.m_root_crawl_map
          ≡ expected (new_state w low) (btrfs_fs_tree_objectid ∷ others) r.m_root_crawl_map n))
insert_new_crawl_lem w low n others r i a e =
    let bcs = new_state w low in
    let roots = btrfs_fs_tree_objectid ∷ others in
    let xs = r.m_root_crawl_map in
    let after : Roots → Type 0 = λ s.
      Ascending s.m_root_crawl_map × (find_crawl n s.m_root_crawl_map ≡ expected bcs roots xs n) in
    subst (λ o. Returns o after) (sym (new_is w low others r i e))
      (Returns-bind (InsertedAll bcs roots (subvols xs) r) after
        (insert_all bcs roots (subvols xs) r) (λ s. ok (erase_all s.0 s.1))
        (insert_all-InsertedAll bcs roots (subvols xs) r a)
        (λ (left, s) (b, inserted, gone).
          let base = btrfs_fs_tree_objectid in
          let out : has base left ≡ false = gone base ∙ none_left (has base (subvols xs)) in
          let (c, erased) =
            erase_all_lem base (undefer (kept bcs base xs)) left s b (inserted base) out in
          (
            c,
            erased_rest bcs roots left n xs s.m_root_crawl_map (erase_all left s).m_root_crawl_map
                (inserted n) (gone n) (erased n),
          )))
  where
    none_left : (b : Bool) → b && false ≡ false
    none_left true = refl
    none_left false = refl
