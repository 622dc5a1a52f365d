-- ===== src/Crawl/FilePass.antt =====
-- The Task of a file of a crawl (src/bees-roots.cc) scans the extents that the crawl wants.
use bees.Base.{
  ℕ, zero, suc, ◌+◌, ◌^◌, ◌≤◌, ◌<◌, ◌≡◌, refl, ap, sym, ◌∙◌, Bool, true, false, not, Option, none,
  some, List, [], ◌∷◌, ◌++◌, length, leb, if◌then◌else◌, arith, if_elim, then_branch, else_branch,
  Outcome, ok, ◌>>=◌, Returns, Returns-bind, Returns-then,
}
use mathlib.Core.Path.{subst}
use bees.Crawl.{CrawlState}
use bees.Crawl.File.{
  ExtentItem, FileCrawl, FileWorld, file_range, advance, scan_item, scan_one_ref, wanted,
  wanted_ranges, Scanned, scan_item-Scanned,
}

abbrev pub and_ranges : List (ℕ × ℕ) → Option (List (ℕ × ℕ)) → Option (List (ℕ × ℕ))
and_ranges ranges none = none
and_ranges ranges (some rest) = some (ranges ++ rest)

abbrev pub run_again :
    (FileCrawl → Outcome (Option (List (ℕ × ℕ))))
    → FileCrawl × List (ℕ × ℕ) × Bool
    → Outcome (Option (List (ℕ × ℕ)))
run_again rest (g, ranges, again) =
    let others = rest g in
    if again then (others >>= λ r. ok (and_ranges ranges r)) else ok (some ranges)

-- The function of the Task, run as long as it appends itself; without fuel it gives none.
abbrev pub scan_file : ℕ → FileWorld → FileCrawl → Outcome (Option (List (ℕ × ℕ)))
scan_file zero w f = ok none
scan_file (suc n) w f = scan_one_ref w f >>= run_again (scan_file n w)

abbrev pub first_at : ℕ → List ExtentItem → Option ExtentItem
first_at x [] = none
first_at x (i ∷ is) = let rest = first_at x is in if leb x i.offset then some i else rest

-- In order of their offsets, a block at least apart.
abbrev pub InOrder : ℕ → ℕ → List ExtentItem → Type 0
InOrder block_size x [] = Unit {0}
InOrder block_size x (i ∷ is) =
    (x ≤ i.offset)
    × (i.offset + block_size < 2 ^ 64)
    × (1 ≤ i.logical_bytes)
    × InOrder block_size (i.offset + block_size) is

-- A file whose extents from here on are in the list, and whose inode no other Task has.
pub record IsFile (w : FileWorld) (is : List ExtentItem) (f : FileCrawl) : Type 0 where
  pub free : w.inode_free ≡ true
  pub positive : 1 ≤ w.block_size
  pub in_order : InOrder w.block_size f.m_offset is
  pub found : (x : ℕ) → f.m_offset ≤ x → w.lower_bound x ≡ ok (first_at x is)

finds :
    (w : FileWorld) (f : FileCrawl) (o : Option ExtentItem)
    → w.inode_free ≡ true
    → w.lower_bound f.m_offset ≡ ok o
    → scan_one_ref w f ≡ elim o as (λ _. Outcome (FileCrawl × List (ℕ × ℕ) × Bool)) [
      | none ↦ ok (f, [], false)
      | some i ↦ scan_item w i (advance w i f)
    ]
unfolding scan_one_ref
finds w f o free e =
    else_branch (not w.inode_free) _ _ (ap not free)
    ∙ ap
        (λ (q : Outcome (Option ExtentItem)). q >>= λ bti.
          elim bti as (λ _. Outcome (FileCrawl × List (ℕ × ℕ) × Bool)) [
            | none ↦ ok (f, [], false)
            | some i ↦ scan_item w i (advance w i f)
          ])
        e

-- What is left after the first extent.
rest-IsFile :
    (w : FileWorld) (i : ExtentItem) (is : List ExtentItem) (f g : FileCrawl)
    → IsFile w (i ∷ is) f
    → g.m_offset ≡ (advance w i f).m_offset
    → IsFile w is g
rest-IsFile w i is f g s e =
    let (low, small, _, rest) = s.in_order in
    let at : g.m_offset ≡ i.offset + w.block_size = e ∙ (omega arith) in
    record {
      free = s.free;
      positive = s.positive;
      in_order = subst (λ x. InOrder w.block_size x is) (sym at) rest;
      found = λ x h.
          let past : leb x i.offset ≡ false = let k = s.positive in ground arith in
          s.found x (omega (arith, at, h, low))
          ∙ ap (λ o. ok o) (else_branch (leb x i.offset) (some i) (first_at x is) past);
    }

-- The first range, if it is wanted, and the others.
joined :
    (w : FileWorld) (s t : CrawlState) (i : ExtentItem) (is : List ExtentItem)
    → t ≡ s
    → (if wanted w s i then file_range i ∷ [] else []) ++ wanted_ranges w t is
      ≡ wanted_ranges w s (i ∷ is)
joined w s t i is e =
    ap (λ u. (if wanted w s i then file_range i ∷ [] else []) ++ wanted_ranges w u is) e
    ∙ if_elim (λ xs. xs ++ wanted_ranges w s is ≡ wanted_ranges w s (i ∷ is)) (wanted w s i)
        (file_range i ∷ []) []
        (λ h. sym (
          then_branch (wanted w s i) (file_range i ∷ wanted_ranges w s is) (wanted_ranges w s is)
            h))
        (λ h. sym (
          else_branch (wanted w s i) (file_range i ∷ wanted_ranges w s is) (wanted_ranges w s is)
            h))

-- Where no other task has the inode and the search finds the extents of a list, in order and a
-- block at least apart, the task of a file ends after one call for each extent and one more, and
-- has given scan_forward the ranges of the extents that the crawl wants (a generation in the
-- interval, data, a physical address, no blacklisted file), each once and in order, whether
-- scan_forward asks to scan again or not.
pub scan_file_lem :
    (w : FileWorld) (is : List ExtentItem) (f : FileCrawl)
    → IsFile w is f
    → Returns (scan_file (suc (length is)) w f) (λ r. r ≡ some (wanted_ranges w f.m_state is))
scan_file_lem w [] f s =
    subst (λ o. Returns (o >>= run_again (scan_file 0 w)) (λ r. r ≡ some []))
      (sym (finds w f none s.free (s.found f.m_offset (omega arith)))) refl
scan_file_lem w (i ∷ is) f s =
    let (low, _, len, _) = s.in_order in
    let here : first_at f.m_offset (i ∷ is) ≡ some i =
      then_branch (leb f.m_offset i.offset) (some i) (first_at f.m_offset is) (ground arith) in
    let whole : Option (List (ℕ × ℕ)) → Type 0 =
      λ r. r ≡ some (wanted_ranges w f.m_state (i ∷ is)) in
    subst (λ o. Returns (o >>= run_again (scan_file (suc (length is)) w)) whole)
      (sym (finds w f (some i) s.free (s.found f.m_offset (omega arith) ∙ ap (λ o. ok o) here)))
      (Returns-bind (Scanned w i (advance w i f)) whole (scan_item w i (advance w i f))
        (run_again (scan_file (suc (length is)) w)) (scan_item-Scanned w i (advance w i f) len)
        (λ (g, ranges, again) (e, listed, at, same).
          let rest = scan_file_lem w is g (rest-IsFile w i is f g s at) in
          Returns-then whole again
            (scan_file (suc (length is)) w g >>= λ r. ok (and_ranges ranges r)) (ok (some ranges)) e
            (Returns-bind (λ r. r ≡ some (wanted_ranges w g.m_state is)) whole
              (scan_file (suc (length is)) w g) (λ r. ok (and_ranges ranges r)) rest
              (λ r k.
                ap (and_ranges ranges) k
                ∙ ap some (
                    ap (λ xs. xs ++ wanted_ranges w g.m_state is) listed
                    ∙ joined w f.m_state g.m_state i is same)))))
