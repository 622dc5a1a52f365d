-- ===== src/Roots.antt =====
-- BeesRoots (src/bees-roots.cc): the crawls of all subvolumes and the file that keeps their states.
-- The map is sorted by root; what next_root finds in the kernel's tree is a list.
pub mod Maps
pub mod Found
pub mod Gone
pub mod Fresh
pub mod Text
pub mod Decimal
pub mod Words
pub mod StateFile
pub mod Reload
pub mod Saving
mod Tests
use bees.Base.{
  ℕ, ◌+◌, ◌-◌, ◌^◌, min, Bool, true, false, not, ◌&&◌, ◌||◌, Option, none, some, List, [], ◌∷◌,
  length, ltb, leb, ◌==◌, if◌then◌else◌, Outcome, ok, throw, runtime_error, ◌>>=◌, ◌>>◌,
  throw_check,
}
use bees.Crawl.{
  CrawlState, Crawl, World, new_crawl, is_subvol_tree, transid_max, btrfs_fs_tree_objectid,
  get_state_begin,
}

abbrev pub CrawlMap : Type 0
CrawlMap = List (ℕ × Crawl)

pub record Roots : Type 0 where
  pub m_root_crawl_map : CrawlMap
  pub m_crawl_dirty : ℕ
  pub m_crawl_clean : ℕ

abbrev pub find_crawl : ℕ → CrawlMap → Option Crawl
find_crawl root [] = none
find_crawl root (x ∷ xs) = let rest = find_crawl root xs in if root == x.0 then some x.1 else rest

abbrev pub has_crawl : ℕ → CrawlMap → Bool
has_crawl root [] = false
has_crawl root (x ∷ xs) = (root == x.0) || has_crawl root xs

-- map::insert: what is there stays.
abbrev pub insert_crawl : ℕ → Crawl → CrawlMap → CrawlMap
insert_crawl root c [] = (root, c) ∷ []
insert_crawl root c (x ∷ xs) =
    let rest = insert_crawl root c xs in
    if root == x.0 then x ∷ xs else if ltb root x.0 then (root, c) ∷ (x ∷ xs) else x ∷ rest

abbrev pub erase_crawl : ℕ → CrawlMap → CrawlMap
erase_crawl root [] = []
erase_crawl root (x ∷ xs) = let rest = erase_crawl root xs in if root == x.0 then xs else x ∷ rest

-- A write through the pointer that the map has.
abbrev pub put_crawl : ℕ → Crawl → CrawlMap → CrawlMap
put_crawl root c [] = []
put_crawl root c (x ∷ xs) =
    let rest = put_crawl root c xs in if root == x.0 then (x.0, c) ∷ xs else x ∷ rest

unfoldable pub crawl_state_set_dirty : Roots → Roots
crawl_state_set_dirty r = record r { m_crawl_dirty = r.m_crawl_dirty + 1 }

-- The last entry stays.
unfoldable pub crawl_state_erase : ℕ → Roots → Roots
crawl_state_erase root r =
    if ltb (length r.m_root_crawl_map) 2
    then r
    else if has_crawl root r.m_root_crawl_map
    then record r {
      m_root_crawl_map = erase_crawl root r.m_root_crawl_map;
      m_crawl_dirty = r.m_crawl_dirty + 1;
    }
    else r

-- deferred(false)
abbrev pub undefer : Crawl → Crawl
undefer c = record c { m_deferred = false }

abbrev pub add_root : CrawlState → Roots → Roots
add_root new_bcs r = if has_crawl new_bcs.m_root r.m_root_crawl_map then r else record r {
  m_root_crawl_map = insert_crawl new_bcs.m_root (new_crawl new_bcs) r.m_root_crawl_map;
  m_crawl_dirty = r.m_crawl_dirty + 1;
}

unfoldable pub insert_root : CrawlState → Roots → Outcome Roots
insert_root new_bcs r =
    let s = add_root new_bcs r in
    elim (find_crawl new_bcs.m_root s.m_root_crawl_map) [
      | none ↦ throw runtime_error
      | some c ↦
          ok (record s {
            m_root_crawl_map = put_crawl new_bcs.m_root (undefer c) s.m_root_crawl_map;
          })
    ]

-- With the workaround for btrfs send; root_flags gives whether a subvolume is read-only, if its
-- item is found.
unfoldable pub is_root_ro : Bool → (ℕ → Option Bool) → ℕ → Bool
is_root_ro m_workaround_btrfs_send root_flags root =
    if not m_workaround_btrfs_send
    then false
    else if not (is_subvol_tree root)
    then false
    else elim (root_flags root) [ none ↦ true | some read_only ↦ read_only ]

-- The lowest m_min_transid of the crawls that are not put off as read-only.
abbrev pub lowest : World → ℕ → CrawlMap → ℕ
lowest w rv [] = rv
lowest w rv (x ∷ xs) = lowest w (if w.is_root_ro x.0 then rv else min rv x.1.m_end.m_min_transid) xs

unfoldable pub transid_min : World → Roots → Outcome ℕ
transid_min w r = elim r.m_root_crawl_map [
  | [] ↦ ok 0
  | x ∷ xs ↦ do
    let rv = lowest w (2 ^ 64 - 1) (x ∷ xs)
    throw_check runtime_error (ltb rv (2 ^ 64 - 1))
    ok rv
]

-- The subvolumes of the map.
abbrev pub subvols : CrawlMap → List ℕ
subvols [] = []
subvols (x ∷ xs) = let rest = subvols xs in if is_subvol_tree x.0 then x.0 ∷ rest else rest

abbrev pub without : ℕ → List ℕ → List ℕ
without root [] = []
without root (x ∷ xs) = let rest = without root xs in if root == x then rest else x ∷ rest

-- The loop over the roots that next_root gives, with those that stay excess.
abbrev pub insert_all : CrawlState → List ℕ → List ℕ → Roots → Outcome (List ℕ × Roots)
insert_all new_bcs [] excess_roots r = ok (excess_roots, r)
insert_all new_bcs (root ∷ roots) excess_roots r = do
  s ← insert_root (record new_bcs { m_root = root }) r
  insert_all new_bcs roots (without root excess_roots) s

abbrev pub erase_all : List ℕ → Roots → Roots
erase_all [] r = r
erase_all (root ∷ roots) r = erase_all roots (crawl_state_erase root r)

-- `others` are the roots that next_root gives after the filesystem's own.
unfoldable pub insert_new_crawl : World → List ℕ → Roots → Outcome Roots
insert_new_crawl w others r = do
  low ← transid_min w r
  high ← transid_max w
  let new_bcs : CrawlState = record {
    m_root = btrfs_fs_tree_objectid;
    m_objectid = 0;
    m_offset = 0;
    m_min_transid = low;
    m_max_transid = high;
    m_started = w.time;
  }
  s ← insert_all new_bcs (btrfs_fs_tree_objectid ∷ others) (subvols r.m_root_crawl_map) r
  ok (erase_all s.0 s.1)
