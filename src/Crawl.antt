-- ===== src/Crawl.antt =====
-- BeesCrawl and BeesCrawlState (src/bees-roots.cc, src/bees.h): the crawl of one subvolume for new
-- extents. The kernel's tree, the transaction number and the clock are a World.
pub mod Advanced
pub mod Rounds
pub mod Pass
pub mod Stuck
pub mod File
pub mod FilePass
mod Tests
use bees.Base.{
  ℕ, zero, suc, ◌+◌, ◌-◌, ◌%◌, ◌^◌, max, Bool, true, false, not, ◌&&◌, ◌||◌, Option, none, some,
  List, [], ◌∷◌, ltb, leb, ◌==◌, if◌then◌else◌, Outcome, ok, throw, runtime_error,
  assertion_failure, ◌>>=◌, ◌>>◌, throw_check,
}

pub record CrawlState : Type 0 where
  pub m_root : ℕ
  pub m_objectid : ℕ
  pub m_offset : ℕ
  pub m_min_transid : ℕ
  pub m_max_transid : ℕ
  pub m_started : ℕ

-- std::tie compares the first numbers that differ.
abbrev pub tie_lt : List (ℕ × ℕ) → Bool
tie_lt [] = false
tie_lt ((a, b) ∷ xs) = ltb a b || ((a == b) && tie_lt xs)

unfoldable pub state_lt : CrawlState → CrawlState → Bool
state_lt a b = tie_lt (
    (a.m_min_transid, b.m_min_transid)
    ∷ (a.m_max_transid, b.m_max_transid)
    ∷ (a.m_objectid, b.m_objectid)
    ∷ (a.m_offset, b.m_offset)
    ∷ (a.m_root, b.m_root)
    ∷ [])

abbrev pub btrfs_fs_tree_objectid : ℕ
btrfs_fs_tree_objectid = 5

abbrev pub btrfs_first_free_objectid : ℕ
btrfs_first_free_objectid = 256

unfoldable pub is_subvol_tree : ℕ → Bool
is_subvol_tree objectid =
    (objectid == btrfs_fs_tree_objectid) || leb btrfs_first_free_objectid objectid

-- What a BtrfsTreeItem of a file's extent has.
pub record Item : Type 0 where
  pub objectid : ℕ
  pub offset : ℕ
  pub file_extent_logical_bytes : ℕ

-- lower_bound tree min_transid objectid: the item of the first inode from objectid on.
pub record World : Type 0 where
  pub transid_count : ℕ
  pub is_root_ro : ℕ → Bool
  pub lower_bound : ℕ → ℕ → ℕ → Outcome (Option Item)
  pub time : ℕ

unfoldable pub transid_max : World → Outcome ℕ
transid_max w = do
  throw_check runtime_error (ltb 0 w.transid_count)
  throw_check runtime_error (ltb w.transid_count (2 ^ 64 - 1))
  ok w.transid_count

unfoldable pub up_to_date : World → CrawlState → Outcome Bool
up_to_date w bcs = do transid ← transid_max w; ok (leb transid bcs.m_max_transid)

-- m_end is the end of the ProgressTracker m_state, and m_holds are the states of its holders in
-- order; set_dirty counts the calls of crawl_state_set_dirty.
pub record Crawl : Type 0 where
  pub m_next_extent_data : Option Item
  pub m_deferred : Bool
  pub m_finished : Bool
  pub m_end : CrawlState
  pub m_holds : List CrawlState
  pub set_dirty : ℕ

abbrev pub new_crawl : CrawlState → Crawl
new_crawl initial_state = record {
  m_next_extent_data = none;
  m_deferred = false;
  m_finished = false;
  m_end = initial_state;
  m_holds = [];
  set_dirty = 0;
}

-- The begin of the tracker.
abbrev pub get_state_begin : Crawl → CrawlState
get_state_begin c = elim c.m_holds [ [] ↦ c.m_end | s ∷ _ ↦ s ]

abbrev pub insert_state : CrawlState → List CrawlState → List CrawlState
insert_state s [] = s ∷ []
insert_state s (x ∷ xs) =
    let rest = insert_state s xs in if state_lt s x then s ∷ (x ∷ xs) else x ∷ rest

-- The holder that is returned stands at the state until it is destroyed.
unfoldable pub hold_state : CrawlState → Crawl → Crawl
hold_state bcs c = record c {
  m_holds = insert_state bcs c.m_holds;
  m_end = if state_lt c.m_end bcs then bcs else c.m_end;
}

-- The state is held for a moment: the tracker's end becomes the later one.
unfoldable pub set_state : CrawlState → Crawl → Crawl
set_state bcs c = record c {
  m_end = if state_lt c.m_end bcs then bcs else c.m_end;
  set_dirty = c.set_dirty + 1;
}

abbrev pub next_interval : World → CrawlState → ℕ → CrawlState
next_interval w s transid = record s {
  m_min_transid = s.m_max_transid;
  m_max_transid = transid;
  m_objectid = 0;
  m_offset = 0;
  m_started = w.time;
}

unfoldable pub restart_crawl : World → Crawl → Outcome (Crawl × Bool)
restart_crawl w c = do
  finished ← up_to_date w c.m_end
  if finished then ok (record c { m_finished = true; m_deferred = true }, false) else (do
    transid ← transid_max w
    ok (
      record (set_state (next_interval w c.m_end transid) c) {
        m_finished = false;
        m_deferred = false;
      },
      true,
    ))

-- The workaround for btrfs send: a subvolume that is read-only is put off.
unfoldable pub skip_read_only : World → Crawl → Outcome (Crawl × Bool)
skip_read_only w c =
    if not (c.m_end.m_objectid == 0) then ok (record c { m_deferred = true }, false) else (do
      next_transid ← transid_max w
      let state = record c.m_end {
        m_max_transid = max next_transid c.m_end.m_max_transid;
        m_started = w.time;
      }
      ok (record (set_state state c) { m_deferred = true }, false))

abbrev pub after_item : Item → CrawlState → CrawlState
after_item i s = record s { m_objectid = max ((i.objectid + 1) % 2 ^ 64) i.objectid; m_offset = 0 }

-- What lower_bound has found; if it threw, the subvolume is put off.
unfoldable pub take_item : World → Crawl → Outcome (Option Item) → Outcome (Crawl × Bool)
take_item w c (throw e) = ok (record c { m_deferred = true }, false)
take_item w c (ok none) = restart_crawl w (record c { m_next_extent_data = none })
take_item w c (ok (some i)) =
    ok (set_state (after_item i c.m_end) (record c { m_next_extent_data = some i }), true)

unfoldable pub fetch_extents : World → Crawl → Outcome (Crawl × Bool)
fetch_extents w c =
    let s = c.m_end in
    if c.m_deferred
    then ok (c, false)
    else if c.m_finished || leb s.m_max_transid s.m_min_transid
    then restart_crawl w c
    else if w.is_root_ro s.m_root
    then skip_read_only w c
    else if not (is_subvol_tree s.m_root)
    then throw assertion_failure
    else take_item w c (w.lower_bound s.m_root s.m_min_transid s.m_objectid)

-- The loop of fetch_extents_harder; without fuel it gives none.
unfoldable pub fetch_extents_harder : ℕ → World → Crawl → Outcome (Option Crawl)
fetch_extents_harder zero w c = ok none
fetch_extents_harder (suc n) w c = elim c.m_next_extent_data [
  | some i ↦ ok (some c)
  | none ↦ fetch_extents w c >>= λ (d, progress_made).
      if not progress_made then ok (some d) else fetch_extents_harder n w d
]

-- pop_front, with the item that bti_to_bfr makes a range of.
unfoldable pub pop_front : ℕ → World → Crawl → Outcome (Option (Crawl × Option Item))
pop_front n w c = do
  r ← fetch_extents_harder n w c
  ok (elim r [
    | none ↦ none
    | some d ↦ some (record d { m_next_extent_data = none }, d.m_next_extent_data)
  ])
