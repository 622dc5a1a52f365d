-- ===== src/Crawl/Advanced.antt =====
-- How fetch_extents (src/bees-roots.cc) takes a crawl on, in a World that does not change.
use bees.Base.{
  ℕ, ◌-◌, ◌^◌, ◌≤◌, ◌<◌, ◌≡◌, ◌⊎◌, refl, ap, sym, ◌∙◌, inl, inr, Bool, true, false, not, Option,
  none, some, ltb, leb, ◌==◌, lt→ltb, if◌then◌else◌, arith, Bool-cases, if_elim, then_branch,
  Outcome, ok, throw, Returns, Exception, Returns-then,
}
use mathlib.Core.Path.{subst}
use bees.Crawl.{
  CrawlState, World, Crawl, Item, state_lt, is_subvol_tree, transid_max, up_to_date, set_state,
  next_interval, restart_crawl, skip_read_only, take_item,
}

-- The transaction number is neither 0 nor the last one.
pub record IsWorld (w : World) : Type 0 where
  pub positive : 1 ≤ w.transid_count
  pub small : w.transid_count < 2 ^ 64 - 1

pub transid_max_is : (w : World) → IsWorld w → transid_max w ≡ ok w.transid_count
unfolding transid_max
transid_max_is w i =
    let a : ltb 0 w.transid_count ≡ true = let h = i.positive in ground arith in
    let b : ltb w.transid_count (2 ^ 64 - 1) ≡ true = lt→ltb _ _ i.small in rw (a, b) refl

-- A crawl whose interval of transactions is empty at most, with no item at hand.
pub record IsReady (c : Crawl) : Type 0 where
  pub ordered : c.m_end.m_min_transid ≤ c.m_end.m_max_transid
  pub no_item : c.m_next_extent_data ≡ none
  pub subvol : is_subvol_tree c.m_end.m_root ≡ true

-- A crawl of an interval up to the last transaction.
pub record IsFresh (w : World) (c : Crawl) : Type 0 where
  pub active : c.m_deferred ≡ false
  pub unfinished : c.m_finished ≡ false
  pub not_empty : c.m_end.m_min_transid < c.m_end.m_max_transid
  pub up_to : c.m_end.m_max_transid ≡ w.transid_count
  pub ready : IsReady c

-- The loop stops: the crawl is put off, or it has an item.
abbrev pub Settled : Crawl × Bool → Type 0
Settled (d, progress_made) =
    ((progress_made ≡ false) × (d.m_deferred ≡ true))
    ⊎ ((progress_made ≡ true) × (i : Item) × (d.m_next_extent_data ≡ some i))

abbrev pub Advanced : World → Crawl × Bool → Type 0
Advanced w (d, progress_made) = Settled (d, progress_made) ⊎ ((progress_made ≡ true) × IsFresh w d)

-- The next interval comes later.
later :
    (w : World) (s : CrawlState) (transid : ℕ)
    → s.m_min_transid ≤ s.m_max_transid
    → s.m_max_transid < transid
    → state_lt s (next_interval w s transid) ≡ true
unfolding state_lt
later w s transid h k = elim (Bool-cases (ltb s.m_min_transid s.m_max_transid)) [
  | inl e ↦ rw e refl
  | inr e ↦
      let f : ltb s.m_max_transid transid ≡ true = lt→ltb _ _ k in
      let g : (s.m_min_transid == s.m_max_transid) ≡ true = ground arith in rw (e, f, g) refl
]

pub set_state_later :
    (s : CrawlState) (c : Crawl) → state_lt c.m_end s ≡ true → (set_state s c).m_end ≡ s
unfolding set_state
set_state_later s c h = then_branch (state_lt c.m_end s) s c.m_end h

unfoldable pub restarted : World → Crawl → Crawl
restarted w c = record (set_state (next_interval w c.m_end w.transid_count) c) {
  m_finished = false;
  m_deferred = false;
}

abbrev put_off : Crawl → Crawl
put_off c = record c { m_finished = true; m_deferred = true }

pub restart_crawl_is :
    (w : World) (c : Crawl)
    → IsWorld w
    → restart_crawl w c ≡ (
        if leb w.transid_count c.m_end.m_max_transid
        then ok (put_off c, false)
        else ok (restarted w c, true))
unfolding restart_crawl up_to_date restarted
restart_crawl_is w c i = rw (transid_max_is w i) refl

restarted-IsFresh :
    (w : World) (c : Crawl)
    → IsReady c
    → c.m_end.m_max_transid < w.transid_count
    → IsFresh w (restarted w c)
unfolding restarted set_state
restarted-IsFresh w c r h =
    let e =
      set_state_later (next_interval w c.m_end w.transid_count) c
        (later w c.m_end w.transid_count r.ordered h) in
    record {
      active = refl;
      unfinished = refl;
      not_empty = subst (λ s. s.m_min_transid < s.m_max_transid) (sym e) h;
      up_to = ap (λ s. s.m_max_transid) e;
      ready = record {
        ordered = subst (λ s. s.m_min_transid ≤ s.m_max_transid) (sym e) (omega (arith, h));
        no_item = r.no_item;
        subvol = ap (λ s. is_subvol_tree s.m_root) e ∙ r.subvol;
      };
    }

pub restart_crawl-Advanced :
    (w : World) (c : Crawl) → IsWorld w → IsReady c → Returns (restart_crawl w c) (Advanced w)
restart_crawl-Advanced w c i r =
    subst (λ o. Returns o (Advanced w)) (sym (restart_crawl_is w c i))
      (if_elim (λ o. Returns o (Advanced w)) (leb w.transid_count c.m_end.m_max_transid)
        (ok (put_off c, false)) (ok (restarted w c, true)) (λ _. inl (inl (refl, refl)))
        (λ e. inr (refl, restarted-IsFresh w c r (ground arith))))

-- The interval reaches to the last transaction: there is no next one.
restart_crawl-Settled :
    (w : World) (c : Crawl)
    → IsWorld w
    → c.m_end.m_max_transid ≡ w.transid_count
    → Returns (restart_crawl w c) Settled
restart_crawl-Settled w c i h =
    subst (λ o. Returns o Settled) (sym (restart_crawl_is w c i))
      (Returns-then Settled (leb w.transid_count c.m_end.m_max_transid) (ok (put_off c, false))
        (ok (restarted w c, true)) (ground arith) (inl (refl, refl)))

pub skip_read_only-Settled :
    (w : World) (c : Crawl) → IsWorld w → Returns (skip_read_only w c) Settled
unfolding skip_read_only
skip_read_only-Settled w c i = rw (transid_max_is w i) (
    if_elim (λ o. Returns o Settled) (not (c.m_end.m_objectid == 0)) _ _ (λ _. inl (refl, refl))
      (λ _. inl (refl, refl)))

taken_item : (w : World) (c : Crawl) (i : Item) → Returns (take_item w c (ok (some i))) Settled
unfolding take_item set_state
taken_item w c i = inr (refl, i, refl)

thrown_item : (w : World) (c : Crawl) (e : Exception) → Returns (take_item w c (throw e)) Settled
unfolding take_item
thrown_item w c e = inl (refl, refl)

pub take_item-Advanced :
    (w : World) (c : Crawl) (found : Outcome (Option Item))
    → IsWorld w
    → IsReady c
    → Returns (take_item w c found) (Advanced w)
unfolding take_item
take_item-Advanced w c (throw e) i r = inl (thrown_item w c e)
take_item-Advanced w c (ok none) i r =
    restart_crawl-Advanced w (record c { m_next_extent_data = none }) i
      (record { ordered = r.ordered; no_item = refl; subvol = r.subvol })
take_item-Advanced w c (ok (some x)) i r = inl (taken_item w c x)

pub take_item-Settled :
    (w : World) (c : Crawl) (found : Outcome (Option Item))
    → IsWorld w
    → c.m_end.m_max_transid ≡ w.transid_count
    → Returns (take_item w c found) Settled
unfolding take_item
take_item-Settled w c (throw e) i h = thrown_item w c e
take_item-Settled w c (ok none) i h =
    restart_crawl-Settled w (record c { m_next_extent_data = none }) i h
take_item-Settled w c (ok (some x)) i h = taken_item w c x
