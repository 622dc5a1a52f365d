-- ===== src/Scan.antt =====
-- The scan modes LOCKSTEP, INDEPENDENT and SEQUENTIAL (src/bees-roots.cc): which crawl gives the next
-- inode. A crawl's root stands for its pointer; whether an inode has checksums is the kernel's answer.
pub mod Lockstep
pub mod Inode
mod Tests
use bees.Base.{
  ℕ, zero, suc, ◌+◌, ◌-◌, ◌^◌, max, Bool, true, false, not, ◌&&◌, ◌||◌, Option, none, some, List,
  [], ◌∷◌, ◌++◌, ltb, ◌==◌, if◌then◌else◌, Outcome, ok, throw, runtime_error, ◌>>=◌, ◌>>◌,
  throw_check,
}
use bees.Crawl.{
  CrawlState, Crawl, World, Item, is_subvol_tree, fetch_extents_harder, pop_front, set_state,
  hold_state,
}
use bees.Crawl.File.{FileCrawl}
use bees.Roots.{CrawlMap, find_crawl, put_crawl}

-- Whether the inode is there and its flags have no nodatasum: the search may throw.
abbrev pub run_the_task : Outcome (Option Bool) → Bool
run_the_task (ok (some nodatasum)) = not nodatasum
run_the_task (ok none) = false
run_the_task (throw e) = false

abbrev pub skip_to_eof : CrawlState → CrawlState
skip_to_eof s = record s { m_offset = max s.m_offset (2 ^ 64 - 65536) }

abbrev pub file_crawl : CrawlState → Item → FileCrawl
file_crawl s i = record {
  m_hold = s;
  m_state = record s { m_objectid = i.objectid };
  m_offset = i.offset;
}

-- The rest of crawl_one_inode after pop_front, with the state from before it, the Task's file, and
-- whether there was an inode.
abbrev pub crawl_popped :
    (ℕ → ℕ → Outcome (Option Bool))
    → CrawlState
    → Option (Crawl × Option Item)
    → Option (Crawl × Option FileCrawl × Bool)
crawl_popped inode s none = none
crawl_popped inode s (some (c, none)) = some (c, none, false)
crawl_popped inode s (some (c, some i)) =
    let next = skip_to_eof s in
    if run_the_task (inode s.m_root i.objectid)
    then some (set_state next (hold_state s c), some (file_crawl s i), true)
    else some (set_state next c, none, true)

unfoldable pub crawl_one_inode :
    World
    → (ℕ → ℕ → Outcome (Option Bool))
    → Crawl
    → Outcome (Option (Crawl × Option FileCrawl × Bool))
crawl_one_inode w inode c = do r ← pop_front 3 w c; ok (crawl_popped inode c.m_end r)

-- What a scan works on: the crawls, and the files of the Tasks that it has run.
pub record Work : Type 0 where
  pub crawls : CrawlMap
  pub files : List FileCrawl

abbrev pub add_file : Option FileCrawl → List FileCrawl → List FileCrawl
add_file none fs = fs
add_file (some f) fs = fs ++ f ∷ []

abbrev pub put_back : ℕ → Work → Option (Crawl × Option FileCrawl × Bool) → Option (Work × Bool)
put_back root k none = none
put_back root k (some (c, f, rv)) =
    some (record { crawls = put_crawl root c k.crawls; files = add_file f k.files }, rv)

-- crawl_one_inode through the pointer.
unfoldable pub crawl_root :
    World → (ℕ → ℕ → Outcome (Option Bool)) → ℕ → Work → Outcome (Option (Work × Bool))
crawl_root w inode root k = elim (find_crawl root k.crawls) [
  | none ↦ throw runtime_error
  | some c ↦ do r ← crawl_one_inode w inode c; ok (put_back root k r)
]

-- peek_front, with the inode and the offset of the range.
abbrev pub peeked : ℕ → Work → Option Crawl → Option (Work × Option (ℕ × ℕ))
peeked root k none = none
peeked root k (some c) = some (
  record k { crawls = put_crawl root c k.crawls },
  elim c.m_next_extent_data [ none ↦ none | some i ↦ some (i.objectid, i.offset) ],
)

unfoldable pub peek_root : World → ℕ → Work → Outcome (Option (Work × Option (ℕ × ℕ)))
peek_root w root k = elim (find_crawl root k.crawls) [
  | none ↦ throw runtime_error
  | some c ↦ do r ← fetch_extents_harder 3 w c; ok (peeked root k r)
]

-- INDEPENDENT: the first crawl of the list with an inode goes to its end. With what is left, and
-- whether the scan is to run again.
abbrev pub independent_next :
    ℕ
    → List ℕ
    → (Work → Outcome (Option (Work × List ℕ × Bool)))
    → Option (Work × Bool)
    → Outcome (Option (Work × List ℕ × Bool))
independent_next root roots rest none = ok none
independent_next root roots rest (some (k, rv)) =
    let others = rest k in if rv then ok (some (k, roots ++ root ∷ [], true)) else others

abbrev pub scan_independent :
    World
    → (ℕ → ℕ → Outcome (Option Bool))
    → List ℕ
    → Work
    → Outcome (Option (Work × List ℕ × Bool))
scan_independent w inode [] k = ok (some (k, [], false))
scan_independent w inode (root ∷ roots) k =
    crawl_root w inode root k >>= independent_next root roots (scan_independent w inode roots)

-- SEQUENTIAL: the first crawl stays until it has no inode.
abbrev pub sequential_next :
    ℕ
    → List ℕ
    → (Work → Outcome (Option (Work × List ℕ × Bool)))
    → Option (Work × Bool)
    → Outcome (Option (Work × List ℕ × Bool))
sequential_next root roots rest none = ok none
sequential_next root roots rest (some (k, rv)) =
    let others = rest k in if rv then ok (some (k, root ∷ roots, true)) else others

abbrev pub scan_sequential :
    World
    → (ℕ → ℕ → Outcome (Option Bool))
    → List ℕ
    → Work
    → Outcome (Option (Work × List ℕ × Bool))
scan_sequential w inode [] k = ok (some (k, [], false))
scan_sequential w inode (root ∷ roots) k =
    crawl_root w inode root k >>= sequential_next root roots (scan_sequential w inode roots)

-- LOCKSTEP: the map's keys are inode, offset and root.
pub record SortKey : Type 0 where
  pub ino : ℕ
  pub begin : ℕ
  pub root : ℕ

abbrev pub key_lt : SortKey → SortKey → Bool
key_lt a b =
    ltb a.ino b.ino
    || ((a.ino == b.ino) && (ltb a.begin b.begin || ((a.begin == b.begin) && ltb a.root b.root)))

-- map::insert: the new map, and whether the key was new.
abbrev pub insert_key : SortKey → List SortKey → List SortKey × Bool
insert_key k [] = (k ∷ [], true)
insert_key k (x ∷ xs) =
    let rest = insert_key k xs in
    if key_lt k x
    then (k ∷ (x ∷ xs), true)
    else if key_lt x k
    then (x ∷ rest.0, rest.1)
    else (x ∷ xs, false)

-- The crawl goes where its next inode is.
abbrev pub lockstep_insert :
    ℕ
    → List SortKey
    → Option (Work × Option (ℕ × ℕ))
    → Outcome (Option (Work × List SortKey × Bool))
lockstep_insert root sorted none = ok none
lockstep_insert root sorted (some (k, none)) = ok (some (k, sorted, true))
lockstep_insert root sorted (some (k, some (ino, begin))) =
    let rv = insert_key (record { ino = ino; begin = begin; root = root }) sorted in
    throw_check runtime_error rv.1 >> ok (some (k, rv.0, true))

abbrev pub lockstep_next :
    World
    → ℕ
    → List SortKey
    → (Work → Outcome (Option (Work × List SortKey × Bool)))
    → Option (Work × Bool)
    → Outcome (Option (Work × List SortKey × Bool))
lockstep_next w root sorted rest none = ok none
lockstep_next w root sorted rest (some (k, rv)) =
    let others = rest k in
    if rv then (peek_root w root k >>= lockstep_insert root sorted) else others

abbrev pub scan_lockstep :
    World
    → (ℕ → ℕ → Outcome (Option Bool))
    → List SortKey
    → Work
    → Outcome (Option (Work × List SortKey × Bool))
scan_lockstep w inode [] k = ok (some (k, [], false))
scan_lockstep w inode (x ∷ sorted) k =
    crawl_root w inode x.root k >>= lockstep_next w x.root sorted (scan_lockstep w inode sorted)
