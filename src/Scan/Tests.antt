-- ===== src/Scan/Tests.antt =====
-- Scans of two crawls, of which the first one's next inode is the higher one.
use bees.Base.{
  ℕ, ◌≡◌, refl, Bool, false, Option, none, some, [], ◌∷◌, leb, if◌then◌else◌, Outcome, ok, throw,
}
use bees.Crawl.{
  World, Crawl, Item, new_crawl, is_subvol_tree, set_state, hold_state, state_lt, restart_crawl,
  take_item, fetch_extents, fetch_extents_harder, pop_front,
}
use bees.Crawl.Pass.{first_from}
use bees.Scan.{
  Work, SortKey, crawl_one_inode, crawl_root, peek_root, scan_independent, scan_sequential,
  scan_lockstep,
}

abbrev item : ℕ → Item
item n = record { objectid = n; offset = 0; file_extent_logical_bytes = 4096 }

abbrev world : World
world = record {
  transid_count = 10;
  is_root_ro = λ root. false;
  lower_bound = λ tree min_transid x.
      ok (first_from x (if leb 256 tree then item 257 ∷ item 258 ∷ [] else item 300 ∷ []));
  time = 1000;
}

abbrev crawl : ℕ → Crawl
crawl root = new_crawl (record {
  m_root = root;
  m_objectid = 0;
  m_offset = 0;
  m_min_transid = 4;
  m_max_transid = 10;
  m_started = 0;
})

abbrev work : Work
work = record { crawls = (5, crawl 5) ∷ (256, crawl 256) ∷ []; files = [] }

abbrev left_of {ℓ} : {A : Type ℓ} → A → Outcome (Option (Work × A × Bool)) → A
left_of d (ok (some (k, a, again))) = a
left_of d (ok none) = d
left_of d (throw e) = d

-- INDEPENDENT goes round; SEQUENTIAL stays with the first; LOCKSTEP puts a crawl at its next inode.
independent_test :
    left_of [] (scan_independent world (λ root ino. ok (some false)) (5 ∷ 256 ∷ []) work)
    ≡ 256 ∷ 5 ∷ []
unfolding crawl_root crawl_one_inode pop_front fetch_extents_harder fetch_extents take_item
    set_state hold_state state_lt is_subvol_tree restart_crawl
independent_test = refl

sequential_test :
    left_of [] (scan_sequential world (λ root ino. ok (some false)) (5 ∷ 256 ∷ []) work)
    ≡ 5 ∷ 256 ∷ []
unfolding crawl_root crawl_one_inode pop_front fetch_extents_harder fetch_extents take_item
    set_state hold_state state_lt is_subvol_tree restart_crawl
sequential_test = refl

abbrev key : ℕ → ℕ → SortKey
key ino root = record { ino = ino; begin = 0; root = root }

lockstep_test :
    left_of []
      (scan_lockstep world (λ root ino. ok (some false)) (key 257 256 ∷ key 300 5 ∷ []) work)
    ≡ key 258 256 ∷ key 300 5 ∷ []
unfolding crawl_root peek_root crawl_one_inode pop_front fetch_extents_harder fetch_extents
    take_item set_state hold_state state_lt is_subvol_tree restart_crawl
lockstep_test = refl

-- The crawl after peek_front.
abbrev peeked : Crawl
peeked = record (crawl 5) {
  m_next_extent_data = some (item 300);
  m_end = record (crawl 5).m_end { m_objectid = 301 };
}
