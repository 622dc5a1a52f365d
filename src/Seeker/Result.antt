-- ===== src/Seeker/Result.antt =====
-- One round of seek_backward (include/crucible/seeker.h), for a target below the last position.
use native.Mathlib.Decide.{dec_lt}
use bees.Base.{
  ℕ, ◌+◌, ◌-◌, ◌/◌, ◌≤◌, ◌<◌, ◌≡◌, ◌⊎◌, refl, true, false, ◌&&◌, List, ◌∷◌, All, arith, ltb, leb,
  lt→ltb, Returns, Returns-mono,
}
use bees.Seeker.{end_pos, last_or, Cursor, Round, returns, continues, halve, narrow, bisect}
use bees.Seeker.Fetch.{IsOrdered, Reaches, scan_back_lem}

module _ (IsKey : ℕ → Type 0) (target : ℕ) where
  -- What seek_backward promises to return.
  pub data Highest (r : ℕ) : Type 0 where
    nothing : r ≡ 0 → ((k : ℕ) → IsKey k → k ≤ target → ⊥) → Highest r
    highest : IsKey r → r ≤ target → ((k : ℕ) → IsKey k → k ≤ target → k ≤ r) → Highest r

  -- A key stands at the lower bound and every key at or below the target is below the upper one.
  pub record Bounded (c : Cursor) : Type 0 where
    pub found : c.found_low ≡ true
    pub key : IsKey c.lower_bound
    pub low : c.lower_bound < c.upper_bound
    pub high : c.upper_bound ≤ target
    pub above : (k : ℕ) → IsKey k → k ≤ target → k < c.upper_bound

  pub record Probing (c : Cursor) : Type 0 where
    pub bounded : Bounded c
    pub middle : c.probe_pos ≡ c.lower_bound + (c.upper_bound - c.lower_bound) / 2
    pub wide : c.lower_bound + 2 ≤ c.upper_bound

  pub record Searching (c : Cursor) : Type 0 where
    pub unfound : c.found_low ≡ false
    pub top : c.upper_bound ≡ target
    pub within : c.probe_pos ≤ target
    pub tried : (c.probe_pos ≡ target) ⊎ (IsKey target → ⊥)

  abbrev pub gap : Cursor → ℕ
  gap c = c.upper_bound - c.lower_bound

  -- After a round that has a lower bound: the answer, or a range of at most `n`.
  abbrev pub Halved : ℕ → Round → Type 0
  Halved n (returns r) = Highest r
  Halved n (continues c) = Probing c × (gap c ≤ n)

  pub halve-Halved : (c : Cursor) → Bounded c → Returns (halve c) (Halved (gap c))
  unfolding halve
  halve-Halved c b = elim (dec_lt ((c.upper_bound - c.lower_bound) / 2) 1) [
    | yes h ↦
        let e : leb c.lower_bound c.upper_bound ≡ true = let l = b.low in ground arith in
        rw (e, lt→ltb _ _ h)
          (Highest.highest b.key (let l = b.low in let r = b.high in omega arith)
            (λ k i p. let l = b.low in let q = b.above k i p in omega arith))
    | no h ↦
        let l = b.low in
        let delta = (c.upper_bound - c.lower_bound) / 2 in
        let e : leb c.lower_bound c.upper_bound ≡ true = ground arith in
        let f : ltb delta 1 ≡ false = ground arith in
        let g : leb c.lower_bound (c.lower_bound + delta) ≡ true = ground arith in
        let i : leb (c.lower_bound + delta) c.upper_bound ≡ true = ground arith in
        rw (e, f, g, i)
          (
            record {
              bounded = record {
                found = b.found;
                key = b.key;
                low = b.low;
                high = b.high;
                above = b.above;
              };
              middle = refl;
              wide = omega arith;
            },
            omega arith,
          )
  ]

  -- What is known of a result of the fetch at `p`.
  pub record Fetched (p : ℕ) (xs : List ℕ) : Type 0 where
    pub ordered : IsOrdered xs
    pub sound : All (λ x. IsKey x × (p ≤ x) × (x ≤ end_pos)) xs
    pub complete : (k : ℕ) → IsKey k → p ≤ k → k ≤ target → Reaches k xs

  -- A result that spans the target holds the answer.
  pub bisect_span :
      (c : Cursor) (x : ℕ) (xs : List ℕ) (n : ℕ)
      → Fetched c.probe_pos (x ∷ xs)
      → x ≤ target
      → target ≤ last_or end_pos (x ∷ xs)
      → Returns (bisect target (x ∷ xs) x (last_or end_pos (x ∷ xs)) c) (Halved n)
  unfolding bisect
  bisect_span c x xs n f h k =
      let (v, e, key, le, ge, best) =
        scan_back_lem IsKey c.probe_pos target x xs f.sound f.ordered h in
      let test : (leb x target && leb target (last_or end_pos (x ∷ xs))) ≡ true = ground arith in
      let first = f.sound.0.1 in
      rw (test, e)
        (Highest.highest key le (λ j i p. elim (dec_lt j c.probe_pos) [
          | yes below ↦ omega arith
          | no above ↦ best j (f.complete j i (omega arith) p) p k
        ]))

  -- The other results move one of the bounds.
  pub bisect_no_span :
      (c : Cursor) (low high : ℕ) (xs : List ℕ) (n : ℕ)
      → (leb low target && leb target high) ≡ false
      → Bounded (narrow target low high c)
      → gap (narrow target low high c) ≤ n
      → Returns (bisect target xs low high c) (Halved n)
  unfolding bisect
  bisect_no_span c low high xs n test b le = rw test (
      Returns-mono (Halved (gap (narrow target low high c))) (Halved n)
        (halve (narrow target low high c)) (Halved-mono le)
        (halve-Halved (narrow target low high c) b))
    where
      Halved-mono :
          gap (narrow target low high c) ≤ n
          → (r : Round) → Halved (gap (narrow target low high c)) r
          → Halved n r
      Halved-mono le (returns r) h = h
      Halved-mono le (continues c') h = (h.0, omega arith)
