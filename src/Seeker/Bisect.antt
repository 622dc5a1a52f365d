-- ===== src/Seeker/Bisect.antt =====
-- The rounds of seek_backward (include/crucible/seeker.h) before and after a lower bound is found.
use native.Mathlib.Decide.{dec_lt, dec_le}
use bees.Base.{ℕ, ◌+◌, ◌-◌, ◌/◌, ◌≤◌, ◌<◌, ◌≡◌, true, List, [], ◌∷◌, All, arith, Returns}
use bees.Seeker.{end_pos, first_or, last_or, Cursor, narrow, bisect}
use bees.Seeker.Fetch.{first-le, first-le-last}
use bees.Seeker.Result.{Probing, gap, Halved, Fetched, bisect_span, bisect_no_span}

narrow_above :
    (target low high : ℕ) (c : Cursor)
    → target < low
    → target ≤ high
    → narrow target low high c ≡ record c { upper_bound = c.probe_pos }
unfolding narrow
narrow_above target low high c h k = ground arith

narrow_below :
    (target low high : ℕ) (c : Cursor)
    → low ≤ high
    → high < target
    → high < c.upper_bound
    → narrow target low high c ≡ record c { lower_bound = high }
unfolding narrow
narrow_below target low high c h k l = ground arith

module _ (IsKey : ℕ → Type 0) (target : ℕ) where
  -- Nothing at or below the target was found from the probe on.
  bisect_above :
      (c : Cursor) (low high : ℕ) (xs : List ℕ)
      → Probing IsKey target c
      → target < low
      → target ≤ high
      → ((k : ℕ) → IsKey k → k ≤ target → k < c.probe_pos)
      → Returns (bisect target xs low high c) (Halved IsKey target ((gap IsKey target c + 1) / 2))
  bisect_above c low high xs p h k none_here =
      let m = p.middle in
      let w = p.wide in
      let t = p.bounded.high in
      let lower = c.lower_bound in
      let upper = c.upper_bound in
      let probe = c.probe_pos in
      bisect_no_span IsKey target c low high xs ((upper - lower + 1) / 2) (ground arith)
        (rw (narrow_above target low high c h k) (record {
          found = p.bounded.found;
          key = p.bounded.key;
          low = omega arith;
          high = omega arith;
          above = none_here;
        }))
        (rw (narrow_above target low high c h k) (omega arith))

  -- The result ends below the target.
  pub bisect_below :
      (c : Cursor) (low high : ℕ) (xs : List ℕ) (n : ℕ)
      → c.found_low ≡ true
      → IsKey high
      → low ≤ high
      → high < target
      → high < c.upper_bound
      → c.upper_bound ≤ target
      → ((k : ℕ) → IsKey k → k ≤ target → k < c.upper_bound)
      → c.upper_bound - high ≤ n
      → Returns (bisect target xs low high c) (Halved IsKey target n)
  bisect_below c low high xs n found key h k l t above le =
      bisect_no_span IsKey target c low high xs n (ground arith)
        (rw (narrow_below target low high c h k l)
          (record { found = found; key = key; low = l; high = t; above = above }))
        (rw (narrow_below target low high c h k l) le)

  pub last-IsKey :
      (p d x : ℕ) (xs : List ℕ)
      → All (λ y. IsKey y × (p ≤ y) × (y ≤ end_pos)) (x ∷ xs)
      → IsKey (last_or d (x ∷ xs)) × (p ≤ last_or d (x ∷ xs))
  last-IsKey p d x [] a = (a.0.0, a.0.1)
  last-IsKey p d x (y ∷ ys) a = last-IsKey p d y ys a.1

  -- With a lower bound, a round ends the search or halves the range.
  pub bisect-Probing :
      (c : Cursor) (xs : List ℕ)
      → target < end_pos
      → Probing IsKey target c
      → Fetched IsKey target c.probe_pos xs
      → Returns
          (bisect target xs (first_or end_pos xs) (last_or end_pos xs) c)
          (Halved IsKey target ((gap IsKey target c + 1) / 2))
  bisect-Probing c [] top p f = bisect_above c end_pos end_pos [] p top (omega arith) (λ k i h.
      elim (dec_lt k c.probe_pos) [
        | yes below ↦ below
        | no above ↦ absurd (f.complete k i (omega arith) h)
      ])
  bisect-Probing c (x ∷ xs) top p f =
      let order = first-le-last end_pos x xs f.ordered in
      let (key, beyond) = last-IsKey c.probe_pos end_pos x xs f.sound in
      let last = last_or end_pos (x ∷ xs) in
      elim (dec_le x target) [
        | no high ↦ bisect_above c x last (x ∷ xs) p (omega arith) (omega arith) (λ k i h.
            elim (dec_lt k c.probe_pos) [
              | yes below ↦ below
              | no above ↦
                  absurd (omega (arith, first-le k x xs f.ordered (f.complete k i (omega arith) h)))
            ])
        | yes low ↦ elim (dec_le target last) [
          | yes spans ↦ bisect_span IsKey target c x xs _ f low spans
          | no short ↦
              let m = p.middle in
              let w = p.wide in
              bisect_below c x last (x ∷ xs) _ p.bounded.found key order (omega arith)
                (p.bounded.above last key (omega arith)) p.bounded.high p.bounded.above
                (omega arith)
        ]
      ]
