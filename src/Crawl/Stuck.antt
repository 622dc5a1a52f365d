-- ===== src/Crawl/Stuck.antt =====
-- A crawl (src/bees-roots.cc) whose interval of transactions runs backwards.
use bees.Base.{
  ℕ, zero, suc, ◌<◌, ◌≡◌, refl, ap, sym, ◌∙◌, true, false, ◌||◌, none, ltb, leb, ◌==◌,
  if◌then◌else◌, arith, then_branch, else_branch, ok, ◌>>=◌,
}
use mathlib.Core.Path.{subst}
use bees.Crawl.{
  CrawlState, World, Crawl, state_lt, set_state, next_interval, fetch_extents, fetch_extents_harder,
}
use bees.Crawl.Rounds.{without_item, go_on, goes_on}
use bees.Crawl.Advanced.{IsWorld, restarted, restart_crawl_is}

-- Its interval ends before it begins, and there are later transactions.
pub record IsBackward (w : World) (c : Crawl) : Type 0 where
  pub active : c.m_deferred ≡ false
  pub no_item : c.m_next_extent_data ≡ none
  pub backward : c.m_end.m_max_transid < c.m_end.m_min_transid
  pub behind : c.m_end.m_max_transid < w.transid_count

-- The next interval comes before this one, and the tracker does not take it.
earlier :
    (w : World) (s : CrawlState) (transid : ℕ)
    → s.m_max_transid < s.m_min_transid
    → state_lt s (next_interval w s transid) ≡ false
unfolding state_lt
earlier w s transid h =
    let a : ltb s.m_min_transid s.m_max_transid ≡ false = ground arith in
    let b : (s.m_min_transid == s.m_max_transid) ≡ false = ground arith in rw (a, b) refl

restarted-IsBackward : (w : World) (c : Crawl) → IsBackward w c → IsBackward w (restarted w c)
unfolding restarted set_state
restarted-IsBackward w c b =
    let next = next_interval w c.m_end w.transid_count in
    let same : (if state_lt c.m_end next then next else c.m_end) ≡ c.m_end =
      else_branch (state_lt c.m_end next) next c.m_end
        (earlier w c.m_end w.transid_count b.backward) in
    record {
      active = refl;
      no_item = b.no_item;
      backward = subst (λ s. s.m_max_transid < s.m_min_transid) (sym same) b.backward;
      behind = subst (λ s. s.m_max_transid < w.transid_count) (sym same) b.behind;
    }

fetches_backward :
    (w : World) (c : Crawl)
    → IsWorld w
    → IsBackward w c
    → fetch_extents w c ≡ ok (restarted w c, true)
unfolding fetch_extents
fetches_backward w c i b =
    let s = c.m_end in
    let empty : (c.m_finished || leb s.m_max_transid s.m_min_transid) ≡ true =
      let h = b.backward in ground arith in
    let more : leb w.transid_count s.m_max_transid ≡ false = let h = b.behind in ground arith in
    else_branch c.m_deferred _ _ b.active
    ∙ (then_branch (c.m_finished || leb s.m_max_transid s.m_min_transid) _ _ empty
        ∙ (restart_crawl_is w c i ∙ else_branch (leb w.transid_count s.m_max_transid) _ _ more))

-- A crawl without an item whose interval ends before it begins and before the last transaction
-- never leaves the loop of fetch_extents_harder: no number of rounds is enough.
pub backward_forever :
    (n : ℕ) (w : World) (c : Crawl)
    → IsWorld w
    → IsBackward w c
    → fetch_extents_harder n w c ≡ ok none
unfolding fetch_extents_harder
backward_forever zero w c i b = refl
backward_forever (suc n) w c i b =
    without_item n w c b.no_item
    ∙ (ap (λ o. o >>= go_on n w) (fetches_backward w c i b)
        ∙ (goes_on n w (restarted w c)
            ∙ backward_forever n w (restarted w c) i (restarted-IsBackward w c b)))
