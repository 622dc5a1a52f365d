-- ===== src/Roots/Saving.antt =====
-- state_save (src/bees-roots.cc) writes without the lock, while other threads change the crawls.
use bees.Base.{
  ℕ, ◌+◌, ◌≤◌, ◌<◌, ◌≡◌, refl, ap, sym, ◌∙◌, inl, inr, ◌||◌, Option, none, some, List, [], ◌∷◌, ltb,
  length, ◌==◌, ==_iff, if◌then◌else◌, arith, Option-cases, if_elim, runtime_error, Outcome, ok,
  throw, Allows,
}
use mathlib.Core.Path.{subst}
use bees.Crawl.{CrawlState, Crawl, state_lt, hold_state, new_crawl}
use bees.Roots.Text.{Text}
use bees.Roots.Found.{insert_root_put}
use bees.Roots.{
  CrawlMap, Roots, find_crawl, has_crawl, insert_crawl, erase_crawl, put_crawl, crawl_state_erase,
  crawl_state_set_dirty, insert_root, add_root, undefer,
}
use bees.Roots.StateFile.{state_to_stream}

-- The first part of state_save, with the lock: there is nothing to save, or nothing to write, or a
-- text to write, with the version that it has.
pub data Copy : Type 0 where
  nothing_to_save : Copy
  nothing_to_write : Roots → Copy
  copied : Text → ℕ → Copy

abbrev pub text_copy : Roots → Text → Copy
text_copy r [] = nothing_to_write (record r { m_crawl_clean = r.m_crawl_dirty })
text_copy r (c ∷ s) = copied (c ∷ s) r.m_crawl_dirty

unfoldable pub save_copy : (ℕ → Text) → Roots → Copy
save_copy format_time r =
    if r.m_crawl_clean == r.m_crawl_dirty
    then nothing_to_save
    else text_copy r (state_to_stream format_time r.m_root_crawl_map)

-- The last part, after a write that did not throw.
unfoldable pub save_done : ℕ → Roots → Roots
save_done crawl_saved r = record r { m_crawl_clean = crawl_saved }

-- A holder of the state that is destroyed.
abbrev pub erase_state : CrawlState → List CrawlState → List CrawlState
erase_state s [] = []
erase_state s (x ∷ xs) =
    let rest = erase_state s xs in if state_lt s x || state_lt x s then x ∷ rest else xs

abbrev pub release_state : CrawlState → Crawl → Crawl
release_state bcs c = record c { m_holds = erase_state bcs c.m_holds }

-- A change through the pointer to the crawl of a root.
abbrev pub write_crawl : ℕ → Crawl → Roots → Roots
write_crawl root c r = record r { m_root_crawl_map = put_crawl root c r.m_root_crawl_map }

-- A step of another thread, and how often it marks the map. set_state is three: it holds the state,
-- the holder is destroyed, and it marks the map. The holders of the tasks of files mark nothing.
pub data Change : ℕ → Roots → Roots → Type 0 where
  inserts : (bcs : CrawlState) (r s : Roots) → insert_root bcs r ≡ ok s → Change 0 r s
  erases : (root : ℕ) (r : Roots) → Change 0 r (crawl_state_erase root r)
  holds :
      (root : ℕ) (bcs : CrawlState) (c : Crawl) (r : Roots)
      → find_crawl root r.m_root_crawl_map ≡ some c
      → Change 0 r (write_crawl root (hold_state bcs c) r)
  releases :
      (root : ℕ) (bcs : CrawlState) (c : Crawl) (r : Roots)
      → find_crawl root r.m_root_crawl_map ≡ some c
      → Change 0 r (write_crawl root (release_state bcs c) r)
  marks : (r : Roots) → Change 1 r (crawl_state_set_dirty r)

pub data Changes : ℕ → Roots → Roots → Type 0 where
  none_yet : (r : Roots) → Changes 0 r r
  one_more : (m n : ℕ) (r s t : Roots) → Changes m r s → Change n s t → Changes (m + n) r t

-- The roots that have a crawl.
abbrev pub roots_of : CrawlMap → List ℕ
roots_of [] = []
roots_of (x ∷ xs) = x.0 ∷ roots_of xs

-- What is marked is seen: the version goes up by the marks at least, and where it stays the roots do.
record Seen (n : ℕ) (r s : Roots) : Type 0 where
  grows : r.m_crawl_dirty + n ≤ s.m_crawl_dirty
  same :
      s.m_crawl_dirty ≡ r.m_crawl_dirty → roots_of s.m_root_crawl_map ≡ roots_of r.m_root_crawl_map

marked : (n : ℕ) (r s : Roots) → n ≤ 1 → r.m_crawl_dirty < s.m_crawl_dirty → Seen n r s
marked n r s k h = record { grows = omega (arith, h, k); same = λ e. absurd (omega (arith, h, e)) }

still : (r : Roots) → Seen 0 r r
still r = record { grows = omega arith; same = λ e. refl }

roots_of-put_crawl :
    (root : ℕ) (c : Crawl) (xs : CrawlMap) → roots_of (put_crawl root c xs) ≡ roots_of xs
roots_of-put_crawl root c [] = refl
roots_of-put_crawl root c (x ∷ xs) =
    if_elim (λ ys. roots_of ys ≡ x.0 ∷ roots_of xs) (root == x.0) ((x.0, c) ∷ xs)
      (x ∷ put_crawl root c xs) (λ _. refl)
      (λ _. ap (λ rest. x.0 ∷ rest) (roots_of-put_crawl root c xs))

crawl_state_erase-Seen : (root : ℕ) (r : Roots) → Seen 0 r (crawl_state_erase root r)
unfolding crawl_state_erase
crawl_state_erase-Seen root r =
    let less = record r {
      m_root_crawl_map = erase_crawl root r.m_root_crawl_map;
      m_crawl_dirty = r.m_crawl_dirty + 1;
    } in
    if_elim (Seen 0 r) (ltb (length r.m_root_crawl_map) 2) r _ (λ _. still r)
      (λ _.
        if_elim (Seen 0 r) (has_crawl root r.m_root_crawl_map) less r
          (λ _. marked 0 r less (omega arith) (omega arith)) (λ _. still r))

write_crawl-Seen : (root : ℕ) (c : Crawl) (r : Roots) → Seen 0 r (write_crawl root c r)
write_crawl-Seen root c r = record {
  grows = omega arith;
  same = λ _. roots_of-put_crawl root c r.m_root_crawl_map;
}

insert_root_throws :
    (bcs : CrawlState) (r : Roots)
    → find_crawl bcs.m_root (add_root bcs r).m_root_crawl_map ≡ none
    → insert_root bcs r ≡ throw runtime_error
unfolding insert_root
insert_root_throws bcs r e =
    let s = add_root bcs r in
    ap
      (λ (o : Option Crawl). elim o as (λ _. Outcome Roots) [
        | none ↦ throw runtime_error
        | some c ↦
            ok (record s { m_root_crawl_map = put_crawl bcs.m_root (undefer c) s.m_root_crawl_map })
      ])
      e

insert_root-Seen : (bcs : CrawlState) (r : Roots) → Allows (insert_root bcs r) (Seen 0 r)
insert_root-Seen bcs r =
    let root = bcs.m_root in
    elim (Option-cases (find_crawl root (add_root bcs r).m_root_crawl_map)) [
      | inl e ↦ subst (λ o. Allows o (Seen 0 r)) (sym (insert_root_throws bcs r e)) tt
      | inr (c, e) ↦
          subst (λ o. Allows o (Seen 0 r)) (sym (insert_root_put bcs r c e))
            (if_elim (λ s. Seen 0 r (write_crawl root (undefer c) s))
              (has_crawl root r.m_root_crawl_map) r
              (record r {
                m_root_crawl_map = insert_crawl root (new_crawl bcs) r.m_root_crawl_map;
                m_crawl_dirty = r.m_crawl_dirty + 1;
              })
              (λ _. write_crawl-Seen root (undefer c) r)
              (λ _. record { grows = omega arith; same = λ e. absurd (omega (arith, e)) }))
    ]

Change-Seen : (n : ℕ) (r s : Roots) → Change n r s → Seen n r s
unfolding crawl_state_set_dirty
Change-Seen _ _ _ (inserts bcs r s e) = subst (λ o. Allows o (Seen 0 r)) e (insert_root-Seen bcs r)
Change-Seen _ _ _ (erases root r) = crawl_state_erase-Seen root r
Change-Seen _ _ _ (holds root bcs c r e) = write_crawl-Seen root (hold_state bcs c) r
Change-Seen _ _ _ (releases root bcs c r e) = write_crawl-Seen root (release_state bcs c) r
Change-Seen _ _ _ (marks r) = marked 1 r (crawl_state_set_dirty r) (omega arith) (omega arith)

Changes-Seen : (n : ℕ) (r s : Roots) → Changes n r s → Seen n r s
Changes-Seen _ _ _ (none_yet r) = still r
Changes-Seen _ _ _ (one_more m n r s t h k) =
    let a = Changes-Seen m r s h in
    let b = Change-Seen n s t k in
    record {
      grows = omega (arith, a.grows, b.grows);
      same = λ e.
          b.same (omega (arith, a.grows, b.grows, e)) ∙ a.same (omega (arith, a.grows, b.grows, e));
    }

-- The version that goes with a text is the one at the copy.
abbrev IsCopy : Roots → Copy → Type 0
IsCopy r nothing_to_save = Unit
IsCopy r (nothing_to_write s) = Unit
IsCopy r (copied text version) = version ≡ r.m_crawl_dirty

save_copy-IsCopy : (format_time : ℕ → Text) (r : Roots) → IsCopy r (save_copy format_time r)
unfolding save_copy
save_copy-IsCopy format_time r =
    if_elim (IsCopy r) (r.m_crawl_clean == r.m_crawl_dirty) nothing_to_save
      (text_copy r (state_to_stream format_time r.m_root_crawl_map)) (λ _. tt)
      (λ _. go (state_to_stream format_time r.m_root_crawl_map))
  where
    go : (text : Text) → IsCopy r (text_copy r text)
    go [] = tt
    go (c ∷ s) = refl

-- There is nothing to save only where the map counts as clean.
abbrev Clean : Roots → Copy → Type 0
Clean r nothing_to_save = r.m_crawl_clean ≡ r.m_crawl_dirty
Clean r (nothing_to_write s) = Unit
Clean r (copied text version) = Unit

save_copy-Clean : (format_time : ℕ → Text) (r : Roots) → Clean r (save_copy format_time r)
unfolding save_copy
save_copy-Clean format_time r =
    if_elim (Clean r) (r.m_crawl_clean == r.m_crawl_dirty) nothing_to_save
      (text_copy r (state_to_stream format_time r.m_root_crawl_map))
      (λ e. (==_iff r.m_crawl_clean r.m_crawl_dirty).0 e)
      (λ _. go (state_to_stream format_time r.m_root_crawl_map))
  where
    go : (text : Text) → Clean r (text_copy r text)
    go [] = tt
    go (c ∷ s) = tt

-- Where other threads insert roots, erase them, hold states and release them, and call
-- crawl_state_set_dirty while state_save writes a text, and the next state_save finds nothing to
-- save, no thread has called crawl_state_set_dirty since the text was copied, and the roots in the
-- map are the same as then.
pub state_save-unmarked :
    (format_time later_time : ℕ → Text) (n : ℕ) (r s : Roots) (text : Text) (crawl_saved : ℕ)
    → save_copy format_time r ≡ copied text crawl_saved
    → Changes n r s
    → save_copy later_time (save_done crawl_saved s) ≡ nothing_to_save
    → (n ≡ 0) × (roots_of s.m_root_crawl_map ≡ roots_of r.m_root_crawl_map)
unfolding save_done
state_save-unmarked format_time later_time n r s text crawl_saved e h done =
    let version = subst (IsCopy r) e (save_copy-IsCopy format_time r) in
    let clean =
      subst (Clean (save_done crawl_saved s)) done
        (save_copy-Clean later_time (save_done crawl_saved s)) in
    let seen = Changes-Seen n r s h in
    (omega (arith, seen.grows, clean, version), seen.same (sym clean ∙ version))
