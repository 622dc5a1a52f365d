-- ===== src/Crawl/File.antt =====
-- BeesFileCrawl (src/bees-roots.cc): the scan of one file of a crawl, an extent for each call of
-- scan_one_ref. What is passed to scan_forward is listed; its answers are those of a FileWorld.
use bees.Base.{
  ℕ, ◌+◌, ◌%◌, ◌^◌, ◌≤◌, ◌≡◌, refl, ap, sym, max, Bool, true, false, not, ◌&&◌, Option, none, some,
  List, [], ◌∷◌, ltb, ◌==◌, if◌then◌else◌, arith, if_elim, then_branch, else_branch, Outcome, ok,
  throw, runtime_error, ◌>>=◌, ◌>>◌, throw_check, Returns,
}
use bees.Crawl.{CrawlState}

pub data ExtentType : Type 0 where
  inline_extent prealloc_extent reg_extent unknown_extent : ExtentType

pub record ExtentItem : Type 0 where
  pub offset : ℕ
  pub generation : ℕ
  pub extent_type : ExtentType
  pub bytenr : ℕ
  pub logical_bytes : ℕ

-- m_hold is the state at which the crawl is held.
pub record FileCrawl : Type 0 where
  pub m_hold : CrawlState
  pub m_state : CrawlState
  pub m_offset : ℕ

-- The filesystem's block size, whether the inode's Exclusion is free, what the search finds in the
-- file from an offset on, and whether scan_forward asks to scan again.
pub record FileWorld : Type 0 where
  pub block_size : ℕ
  pub inode_free : Bool
  pub lower_bound : ℕ → Outcome (Option ExtentItem)
  pub is_blacklisted : Bool
  pub scan_forward : ℕ × ℕ → Outcome Bool

-- The range of an extent in its file.
abbrev pub file_range : ExtentItem → ℕ × ℕ
file_range i = (i.offset, i.offset + i.logical_bytes)

-- The hold moves to the extent, unless it is to be scanned again.
unfoldable pub move_hold : FileWorld → ExtentItem → FileCrawl → FileCrawl
move_hold w i f =
    let scan_again : Bool = elim (w.scan_forward (file_range i)) [ ok b ↦ b | throw e ↦ false ] in
    if scan_again then f else record f { m_hold = record f.m_state { m_offset = i.offset } }

unfoldable pub scan_extent : FileWorld → ExtentItem → FileCrawl → Outcome (FileCrawl × List (ℕ × ℕ))
unfolding move_hold
scan_extent w i f = if i.bytenr == 0 then ok (f, []) else (do
  throw_check runtime_error (ltb 0 i.logical_bytes)
  if w.is_blacklisted then ok (f, []) else ok (move_hold w i f, file_range i ∷ []))

abbrev pub has_data : ExtentType → Bool
has_data inline_extent = false
has_data prealloc_extent = true
has_data reg_extent = true
has_data unknown_extent = false

abbrev pub advance : FileWorld → ExtentItem → FileCrawl → FileCrawl
advance w i f = record f { m_offset = max ((i.offset + w.block_size) % 2 ^ 64) i.offset }

-- The extent found, from the filter of its generation on.
unfoldable pub scan_item :
    FileWorld → ExtentItem → FileCrawl → Outcome (FileCrawl × List (ℕ × ℕ) × Bool)
unfolding scan_extent
scan_item w i f =
    if ltb i.generation f.m_state.m_min_transid
    then ok (f, [], true)
    else if ltb f.m_state.m_max_transid i.generation
    then ok (f, [], true)
    else if has_data i.extent_type
    then (do r ← scan_extent w i f; ok (r.0, r.1, true))
    else ok (f, [], true)

-- With whether the Task is to run again.
unfoldable pub scan_one_ref : FileWorld → FileCrawl → Outcome (FileCrawl × List (ℕ × ℕ) × Bool)
scan_one_ref w f = if not w.inode_free then ok (f, [], false) else (do
  bti ← w.lower_bound f.m_offset
  elim bti [ none ↦ ok (f, [], false) | some i ↦ scan_item w i (advance w i f) ])

-- The extents that a crawl wants.
abbrev pub wanted : FileWorld → CrawlState → ExtentItem → Bool
wanted w s i =
    not (ltb i.generation s.m_min_transid)
    && not (ltb s.m_max_transid i.generation)
    && has_data i.extent_type
    && not (i.bytenr == 0)
    && not w.is_blacklisted

abbrev pub wanted_ranges : FileWorld → CrawlState → List ExtentItem → List (ℕ × ℕ)
wanted_ranges w s [] = []
wanted_ranges w s (i ∷ is) =
    let rest = wanted_ranges w s is in if wanted w s i then file_range i ∷ rest else rest

-- What a call for an extent does: it lists its range if it is wanted, and stays at the offset.
abbrev pub Scanned : FileWorld → ExtentItem → FileCrawl → FileCrawl × List (ℕ × ℕ) × Bool → Type 0
Scanned w i f (g, ranges, again) =
    (again ≡ true)
    × (ranges ≡ (if wanted w f.m_state i then file_range i ∷ [] else []))
    × (g.m_offset ≡ f.m_offset)
    × (g.m_state ≡ f.m_state)

move_hold_same :
    (w : FileWorld) (i : ExtentItem) (f : FileCrawl)
    → ((move_hold w i f).m_offset ≡ f.m_offset) × ((move_hold w i f).m_state ≡ f.m_state)
unfolding move_hold
move_hold_same w i f =
    let scan_again : Bool = elim (w.scan_forward (file_range i)) [ ok b ↦ b | throw e ↦ false ] in
    if_elim (λ g. (g.m_offset ≡ f.m_offset) × (g.m_state ≡ f.m_state)) scan_again f
      (record f { m_hold = record f.m_state { m_offset = i.offset } }) (λ _. (refl, refl))
      (λ _. (refl, refl))

-- A test that makes an extent unwanted.
unwanted :
    (w : FileWorld) (i : ExtentItem) (f : FileCrawl)
    → wanted w f.m_state i ≡ false
    → Scanned w i f (f, [], true)
unwanted w i f e =
    (refl, sym (else_branch (wanted w f.m_state i) (file_range i ∷ []) [] e), refl, refl)

scan_extent_ranges :
    (w : FileWorld) (i : ExtentItem) (f : FileCrawl)
    → 1 ≤ i.logical_bytes
    → ltb i.generation f.m_state.m_min_transid ≡ false
    → ltb f.m_state.m_max_transid i.generation ≡ false
    → has_data i.extent_type ≡ true
    → Returns (scan_extent w i f >>= λ r. ok (r.0, r.1, true)) (Scanned w i f)
unfolding scan_extent
scan_extent_ranges w i f len a b c =
    if_elim (λ o. Returns (o >>= λ r. ok (r.0, r.1, true)) (Scanned w i f)) (i.bytenr == 0)
      (ok (f, [])) _ (λ e. unwanted w i f (rw (a, b, c, e) refl))
      (λ e.
        let long : ltb 0 i.logical_bytes ≡ true = ground arith in
        rw long (
          if_elim (λ o. Returns (o >>= λ r. ok (r.0, r.1, true)) (Scanned w i f)) w.is_blacklisted
            (ok (f, [])) (ok (move_hold w i f, file_range i ∷ []))
            (λ g. unwanted w i f (let k = ap not g in rw (a, b, c, e, k) refl))
            (λ g.
              let wants : wanted w f.m_state i ≡ true =
                let k = ap not g in rw (a, b, c, e, k) refl in
              let (o, s) = move_hold_same w i f in
              (refl, sym (then_branch (wanted w f.m_state i) (file_range i ∷ []) [] wants), o, s))))

pub scan_item-Scanned :
    (w : FileWorld) (i : ExtentItem) (f : FileCrawl)
    → 1 ≤ i.logical_bytes
    → Returns (scan_item w i f) (Scanned w i f)
unfolding scan_item
scan_item-Scanned w i f len =
    if_elim (λ o. Returns o (Scanned w i f)) (ltb i.generation f.m_state.m_min_transid) _ _
      (λ e. unwanted w i f (rw e refl))
      (λ e.
        if_elim (λ o. Returns o (Scanned w i f)) (ltb f.m_state.m_max_transid i.generation) _ _
          (λ g. unwanted w i f (rw (e, g) refl))
          (λ g.
            if_elim (λ o. Returns o (Scanned w i f)) (has_data i.extent_type) _ _
              (λ h. scan_extent_ranges w i f len e g h) (λ h. unwanted w i f (rw (e, g, h) refl))))
