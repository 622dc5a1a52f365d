-- ===== src/Seeker.antt =====
-- include/crucible/seeker.h: seek_backward, the search for the highest key at or below a position.
-- Pos is uint64_t; the loop counter is the fuel, as in the source.
pub mod Fetch
pub mod Result
pub mod Bisect
pub mod Search
mod Tests
use bees.Base.{
  ℕ, zero, suc, ◌+◌, ◌-◌, ◌*◌, ◌/◌, ◌^◌, min, max, Bool, true, false, ◌&&◌, List, [], ◌∷◌, Option,
  none, some, ltb, leb, ◌==◌, if◌then◌else◌, Outcome, ok, throw, out_of_range, runtime_error, ◌>>=◌,
  ◌>>◌, throw_check,
}

-- numeric_limits<Pos>::max()
abbrev pub end_pos : ℕ
end_pos = 2 ^ 64 - 1

-- *result.begin(), or end_pos
abbrev pub first_or : ℕ → List ℕ → ℕ
first_or d [] = d
first_or d (x ∷ xs) = x

-- *result.rbegin(), or end_pos
abbrev pub last_or : ℕ → List ℕ → ℕ
last_or d [] = d
last_or d (x ∷ xs) = last_or x xs

-- "search from the high end until we find the highest key below target": the last elements first.
unfoldable pub scan_back : ℕ → ℕ → List ℕ → Outcome (Option ℕ)
scan_back probe_pos target_pos [] = ok none
scan_back probe_pos target_pos (i ∷ rest) = do
  found ← scan_back probe_pos target_pos rest
  elim found [
    | some r ↦ ok (some r)
    | none ↦ do
      throw_check out_of_range (leb probe_pos i)
      ok (if leb i target_pos then some i else none)
  ]

-- The variables that the loop changes.
pub record Cursor : Type 0 where
  pub lower_bound : ℕ
  pub upper_bound : ℕ
  pub found_low : Bool
  pub probe_pos : ℕ

-- What a round of the loop does: `return`, or another round.
pub data Round : Type 0 where
  returns : ℕ → Round
  continues : Cursor → Round

-- "still looking for lower bound"
unfoldable pub widen : ℕ → Cursor → Outcome Round
widen min_step c = if c.probe_pos == 0 then ok (returns 0) else (do
  throw_check out_of_range (leb c.probe_pos c.upper_bound)
  let want_delta = max (c.upper_bound - c.probe_pos) min_step
  let have_delta = min want_delta c.probe_pos
  throw_check out_of_range (leb have_delta want_delta)
  ok (continues (record c { probe_pos = c.probe_pos - have_delta })))

-- "compute a new probe pos at the middle of the range and try again"
unfoldable pub halve : Cursor → Outcome Round
halve c = do
  throw_check out_of_range (leb c.lower_bound c.upper_bound)
  let delta = (c.upper_bound - c.lower_bound) / 2
  let probe_pos = c.lower_bound + delta
  if ltb delta 1 then ok (returns c.lower_bound) else (do
    throw_check out_of_range (leb c.lower_bound probe_pos)
    throw_check out_of_range (leb probe_pos c.upper_bound)
    ok (continues (record c { probe_pos = probe_pos })))

-- The two tests that move the bounds.
unfoldable pub narrow : ℕ → ℕ → ℕ → Cursor → Cursor
narrow target_pos low_pos high_pos c =
    let upper = if leb target_pos low_pos then c.probe_pos else c.upper_bound in
    let lower = if ltb high_pos target_pos then min high_pos upper else c.lower_bound in
    record c { lower_bound = lower; upper_bound = upper }

-- The part of a round after a lower bound is known.
unfoldable pub bisect : ℕ → List ℕ → ℕ → ℕ → Cursor → Outcome Round
unfolding scan_back narrow halve
bisect target_pos result low_pos high_pos c =
    if leb low_pos target_pos && leb target_pos high_pos
    then (do
      found ← scan_back c.probe_pos target_pos result
      elim found [
        | some i ↦ ok (returns i)
        | none ↦ do
          throw_check runtime_error (elim result [ [] ↦ true | x ∷ xs ↦ false ])
          halve (narrow target_pos low_pos high_pos c)
      ])
    else halve (narrow target_pos low_pos high_pos c)

-- The body of the loop.
unfoldable pub round : ℕ → (ℕ → ℕ → List ℕ) → ℕ → Cursor → Outcome Round
round target_pos fetch min_step c = do
  let result = fetch c.probe_pos target_pos
  let low_pos = first_or end_pos result
  let high_pos = last_or end_pos result
  throw_check out_of_range (leb c.probe_pos high_pos)
  throw_check out_of_range (leb c.probe_pos low_pos)
  throw_check out_of_range (leb low_pos high_pos)
  if c.found_low
      then bisect target_pos result low_pos high_pos c
      else if (if target_pos == end_pos then ltb low_pos target_pos else leb low_pos target_pos)
      then bisect target_pos result low_pos high_pos
          (record c { found_low = true; lower_bound = low_pos })
      else widen min_step c

-- The loop, with `loop_count` rounds left.
unfoldable pub seek_loop : ℕ → ℕ → (ℕ → ℕ → List ℕ) → ℕ → Cursor → Outcome ℕ
seek_loop zero target_pos fetch min_step c = throw runtime_error
seek_loop (suc loop_count) target_pos fetch min_step c = do
  r ← round target_pos fetch min_step c
  elim r [ returns pos ↦ ok pos | continues c' ↦ seek_loop loop_count target_pos fetch min_step c' ]

unfoldable pub seek_backward : ℕ → (ℕ → ℕ → List ℕ) → ℕ → ℕ → Outcome ℕ
seek_backward target_pos fetch min_step max_loops =
    seek_loop (min ((1 + 64) * 2) max_loops) target_pos fetch min_step (record {
      lower_bound = 0;
      upper_bound = target_pos;
      found_low = false;
      probe_pos = target_pos;
    })
