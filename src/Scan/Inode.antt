-- ===== src/Scan/Inode.antt =====
-- crawl_one_inode (src/bees-roots.cc) starts the Task of the next inode of a crawl.
use bees.Base.{◌≡◌, Bool, true, ◌⊎◌, Option, some, List, ◌∷◌}
use bees.Crawl.{CrawlState, World, Crawl, Item, set_state, hold_state}
use bees.Crawl.Pass.{IsScan, IsPeeked, popped}
use bees.Crawl.File.{FileCrawl}
use bees.Scan.{skip_to_eof}

-- The crawl after its inode was popped, held and passed to the end of the file.
held : Item → Crawl → Crawl
held i c = set_state (skip_to_eof c.m_end) (hold_state c.m_end (popped i c))

-- A crawl whose next inode is that of `i`: it is not put off, of a writable subvolume and an interval
-- that is not empty, the search finds `i` and then the rest of a sorted list, and peek_front has
-- not been called since the last inode, or has been, and `i` is at hand.
abbrev pub IsNext : World → Item → List Item → Crawl → Type 0
IsNext w i is c = IsScan w (i ∷ is) c ⊎ IsPeeked w i is c

-- The task of the inode has begun, and the crawl has the rest of the list before it.
abbrev pub Begun :
    World → Item → List Item → CrawlState → Option (Crawl × Option FileCrawl × Bool) → Type 0
Begun w i is s r =
    (d : Crawl) × (f : FileCrawl) × (r ≡ some (d, some f, true))
    × (f.m_hold ≡ s)
    × (f.m_state ≡ record s { m_objectid = i.objectid })
    × (f.m_offset ≡ i.offset)
    × IsScan w is d

-- The same interval of the same subvolume, at the same inode.
abbrev Alike : CrawlState → CrawlState → Type 0
Alike s t =
    (s.m_root ≡ t.m_root)
    × (s.m_min_transid ≡ t.m_min_transid)
    × (s.m_max_transid ≡ t.m_max_transid)
    × (s.m_objectid ≡ t.m_objectid)
