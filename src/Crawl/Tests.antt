-- ===== src/Crawl/Tests.antt =====
-- The theorems on a crawl of a subvolume with two inodes.
use bees.Base.{ℕ, ◌≡◌, refl, true, false, none, some, List, [], ◌∷◌, arith, ok, Returns}
use bees.Crawl.{CrawlState, World, Crawl, Item, new_crawl, is_subvol_tree, fetch_extents_harder}
use bees.Crawl.Rounds.{Ended, fetch_extents_harder-Ended}
use bees.Crawl.Advanced.{IsWorld}
use bees.Crawl.Pass.{first_from, IsScan, pop_all, pop_all_lem}
use bees.Crawl.File.{ExtentItem, reg_extent, FileCrawl, FileWorld, wanted_ranges}
use bees.Crawl.FilePass.{first_at, scan_file, scan_file_lem}
use bees.Crawl.Stuck.{backward_forever}

abbrev item : ℕ → Item
item n = record { objectid = n; offset = 0; file_extent_logical_bytes = 4096 }

abbrev inodes : List Item
inodes = item 257 ∷ item 300 ∷ []

abbrev world : World
world = record {
  transid_count = 10;
  is_root_ro = λ root. false;
  lower_bound = λ tree min_transid x. ok (first_from x inodes);
  time = 1000;
}

abbrev state : ℕ → ℕ → CrawlState
state a b = record {
  m_root = 5;
  m_objectid = 0;
  m_offset = 0;
  m_min_transid = a;
  m_max_transid = b;
  m_started = 0;
}

five-is_subvol_tree : is_subvol_tree 5 ≡ true
unfolding is_subvol_tree
five-is_subvol_tree = refl

world-IsWorld : IsWorld world
world-IsWorld = record { positive = omega arith; small = omega arith }

fetch_extents_harder-Ended_example :
    Returns (fetch_extents_harder 3 world (new_crawl (state 0 0))) Ended
fetch_extents_harder-Ended_example =
    fetch_extents_harder-Ended world (new_crawl (state 0 0)) world-IsWorld
      (record { ordered = omega arith; no_item = refl; subvol = five-is_subvol_tree })

pop_all_lem_example :
    Returns
      (pop_all 2 world (new_crawl (state 0 10)))
      (λ r. (d : Crawl) × (r ≡ some (d, inodes)) × IsScan world [] d)
pop_all_lem_example = pop_all_lem world inodes (new_crawl (state 0 10)) (record {
  active = refl;
  unfinished = refl;
  not_empty = omega arith;
  writable = refl;
  subvol = five-is_subvol_tree;
  no_item = refl;
  sorted = (omega arith, omega arith, (omega arith, omega arith, tt));
  found = λ x h. refl;
})

backward_forever_example : fetch_extents_harder 100 world (new_crawl (state 7 3)) ≡ ok none
backward_forever_example =
    backward_forever 100 world (new_crawl (state 7 3)) world-IsWorld
      (record { active = refl; no_item = refl; backward = omega arith; behind = omega arith })

abbrev extent : ℕ → ℕ → ℕ → ExtentItem
extent offset generation bytenr = record {
  offset = offset;
  generation = generation;
  extent_type = reg_extent;
  bytenr = bytenr;
  logical_bytes = 8192;
}

-- An extent of the interval, a hole, and an extent from before it.
abbrev extents : List ExtentItem
extents = extent 0 5 65536 ∷ extent 8192 5 0 ∷ extent 16384 3 131072 ∷ []

abbrev file_world : FileWorld
file_world = record {
  block_size = 4096;
  inode_free = true;
  lower_bound = λ x. ok (first_at x extents);
  is_blacklisted = false;
  scan_forward = λ range. ok true;
}

abbrev file : FileCrawl
file = record { m_hold = state 4 8; m_state = state 4 8; m_offset = 0 }

scan_file_lem_example :
    Returns
      (scan_file 4 file_world file)
      (λ r. r ≡ some (wanted_ranges file_world (state 4 8) extents))
scan_file_lem_example = scan_file_lem file_world extents file (record {
  free = refl;
  positive = omega arith;
  in_order = (
    omega arith,
    omega arith,
    omega arith,
    (omega arith, omega arith, omega arith, (omega arith, omega arith, omega arith, tt)),
  );
  found = λ x h. refl;
})

wanted_test : ◌≡◌ {A = List (ℕ × ℕ)} (wanted_ranges file_world (state 4 8) extents) ((0, 8192) ∷ [])
wanted_test = refl
