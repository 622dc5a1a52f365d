-- ===== src/Crawl/Rounds.antt =====
-- The rounds of fetch_extents_harder (src/bees-roots.cc), in a World that does not change.
use bees.Base.{
  ℕ, suc, ◌≡◌, ◌⊎◌, refl, ap, sym, inl, inr, Bool, true, false, not, ◌||◌, Option, none, some, leb,
  if◌then◌else◌, arith, if_elim, Outcome, ok, throw, ◌>>=◌, Returns, Returns-bind, Returns-mono,
  Returns-then, Returns-else, assertion_failure,
}
use mathlib.Core.Path.{subst}
use bees.Crawl.{
  World, Crawl, Item, is_subvol_tree, restart_crawl, skip_read_only, take_item, fetch_extents,
  fetch_extents_harder,
}
use bees.Crawl.Advanced.{
  Advanced, IsFresh, IsReady, IsWorld, Settled, restart_crawl-Advanced, skip_read_only-Settled,
  take_item-Advanced, take_item-Settled,
}

-- A round, on a crawl that is not put off and has an interval to scan.
scan_round :
    (P : Crawl × Bool → Type 0) (w : World) (c : Crawl)
    → IsWorld w
    → IsReady c
    → ((p : Crawl × Bool) → Settled p → P p)
    → Returns
        (take_item w c (w.lower_bound c.m_end.m_root c.m_end.m_min_transid c.m_end.m_objectid))
        P
    → Returns
        (if w.is_root_ro c.m_end.m_root
          then skip_read_only w c
          else if not (is_subvol_tree c.m_end.m_root)
          then throw assertion_failure
          else take_item w c
              (w.lower_bound c.m_end.m_root c.m_end.m_min_transid c.m_end.m_objectid))
        P
scan_round P w c i r settled taken =
    let look =
      take_item w c (w.lower_bound c.m_end.m_root c.m_end.m_min_transid c.m_end.m_objectid) in
    let sub : not (is_subvol_tree c.m_end.m_root) ≡ false = ap not r.subvol in
    if_elim (λ o. Returns o P) (w.is_root_ro c.m_end.m_root) (skip_read_only w c)
      (if not (is_subvol_tree c.m_end.m_root) then throw assertion_failure else look)
      (λ _. Returns-mono Settled P (skip_read_only w c) settled (skip_read_only-Settled w c i))
      (λ _.
        Returns-else P (not (is_subvol_tree c.m_end.m_root)) (throw assertion_failure) look sub
          taken)

fetch_extents-Advanced :
    (w : World) (c : Crawl) → IsWorld w → IsReady c → Returns (fetch_extents w c) (Advanced w)
unfolding fetch_extents
fetch_extents-Advanced w c i r =
    let s = c.m_end in
    if_elim (λ o. Returns o (Advanced w)) c.m_deferred (ok (c, false)) _ (λ e. inl (inl (refl, e)))
      (λ _.
        if_elim (λ o. Returns o (Advanced w)) (c.m_finished || leb s.m_max_transid s.m_min_transid)
          (restart_crawl w c) _ (λ _. restart_crawl-Advanced w c i r)
          (λ _.
            scan_round (Advanced w) w c i r (λ p h. inl h)
              (take_item-Advanced w c (w.lower_bound s.m_root s.m_min_transid s.m_objectid) i r)))

fetch_extents-Settled :
    (w : World) (c : Crawl) → IsWorld w → IsFresh w c → Returns (fetch_extents w c) Settled
unfolding fetch_extents
fetch_extents-Settled w c i f =
    let s = c.m_end in
    let busy : (c.m_finished || leb s.m_max_transid s.m_min_transid) ≡ false =
      let a = f.unfinished in let b = f.not_empty in ground arith in
    Returns-else Settled c.m_deferred (ok (c, false)) _ f.active (
      Returns-else Settled (c.m_finished || leb s.m_max_transid s.m_min_transid) (restart_crawl w c)
        _ busy
        (scan_round Settled w c i f.ready (λ p h. h)
          (take_item-Settled w c (w.lower_bound s.m_root s.m_min_transid s.m_objectid) i f.up_to)))

pub go_on : ℕ → World → Crawl × Bool → Outcome (Option Crawl)
go_on n w (d, progress_made) = if not progress_made then ok (some d) else fetch_extents_harder n w d

pub goes_on : (n : ℕ) (w : World) (d : Crawl) → go_on n w (d, true) ≡ fetch_extents_harder n w d
unfolding go_on
goes_on n w d = refl

pub without_item :
    (n : ℕ) (w : World) (c : Crawl)
    → c.m_next_extent_data ≡ none
    → fetch_extents_harder (suc n) w c ≡ (fetch_extents w c >>= go_on n w)
unfolding fetch_extents_harder go_on
without_item n w c h =
    ap
      (λ (o : Option Item). elim o [
        | some i ↦ ok (some c)
        | none ↦ fetch_extents w c >>= λ (d, progress_made).
            if not progress_made then ok (some d) else fetch_extents_harder n w d
      ])
      h

pub with_item :
    (n : ℕ) (w : World) (c : Crawl) (i : Item)
    → c.m_next_extent_data ≡ some i
    → fetch_extents_harder (suc n) w c ≡ ok (some c)
unfolding fetch_extents_harder
with_item n w c i h =
    ap
      (λ (o : Option Item). elim o [
        | some i ↦ ok (some c)
        | none ↦ fetch_extents w c >>= λ (d, progress_made).
            if not progress_made then ok (some d) else fetch_extents_harder n w d
      ])
      h

-- The loop has ended, with an item or with the crawl put off.
abbrev pub Ended : Option Crawl → Type 0
Ended none = ⊥
Ended (some d) = (d.m_deferred ≡ true) ⊎ ((i : Item) × (d.m_next_extent_data ≡ some i))

go_on-Settled :
    (n : ℕ) (w : World) (p : Crawl × Bool) → Settled p → Returns (go_on (suc n) w p) Ended
unfolding go_on
go_on-Settled n w (d, b) (inl (e, off)) =
    Returns-then Ended (not b) (ok (some d)) (fetch_extents_harder (suc n) w d) (ap not e) (inl off)
go_on-Settled n w (d, b) (inr (e, i, item)) =
    Returns-else Ended (not b) (ok (some d)) (fetch_extents_harder (suc n) w d) (ap not e)
      (subst (λ o. Returns o Ended) (sym (with_item n w d i item)) (inr (i, item)))

fetch_extents_harder-IsFresh :
    (n : ℕ) (w : World) (c : Crawl)
    → IsWorld w
    → IsFresh w c
    → Returns (fetch_extents_harder (suc (suc n)) w c) Ended
fetch_extents_harder-IsFresh n w c i f =
    subst (λ o. Returns o Ended) (sym (without_item (suc n) w c f.ready.no_item))
      (Returns-bind Settled Ended (fetch_extents w c) (go_on (suc n) w)
        (fetch_extents-Settled w c i f) (go_on-Settled n w))

go_on-Advanced :
    (n : ℕ) (w : World) (p : Crawl × Bool)
    → IsWorld w
    → Advanced w p
    → Returns (go_on (suc (suc n)) w p) Ended
unfolding go_on
go_on-Advanced n w p i (inl s) = go_on-Settled (suc n) w p s
go_on-Advanced n w (d, b) i (inr (e, f)) =
    Returns-else Ended (not b) (ok (some d)) (fetch_extents_harder (suc (suc n)) w d) (ap not e)
      (fetch_extents_harder-IsFresh n w d i f)

-- Where the transaction number is in range, three rounds of fetch_extents_harder are enough for a
-- crawl of a subvolume without an item whose interval does not run backwards: it returns, and then
-- the crawl has an item or is put off.
pub fetch_extents_harder-Ended :
    (w : World) (c : Crawl) → IsWorld w → IsReady c → Returns (fetch_extents_harder 3 w c) Ended
fetch_extents_harder-Ended w c i r =
    subst (λ o. Returns o Ended) (sym (without_item 2 w c r.no_item))
      (Returns-bind (Advanced w) Ended (fetch_extents w c) (go_on 2 w)
        (fetch_extents-Advanced w c i r) (λ p a. go_on-Advanced 0 w p i a))
