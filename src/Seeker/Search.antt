-- ===== src/Seeker/Search.antt =====
-- seek_backward (include/crucible/seeker.h) as a whole: it returns the highest key at or below the
-- target within the rounds that the source allows.
use native.Mathlib.Decide.{dec_lt, dec_le}
use mathlib.Core.Path.{subst}
use bees.Base.{
  ℕ, zero, suc, ◌+◌, ◌-◌, ◌*◌, ◌/◌, ◌^◌, ◌≤◌, ◌<◌, ◌≡◌, ◌⊎◌, inl, inr, refl, min, max, true, false,
  List, [], ◌∷◌, arith, leb, ◌==◌, Returns, Returns-mono, Returns-bind, Returns-then, Returns-else,
  Bool-cases,
}
use bees.Seeker.{
  end_pos, first_or, last_or, Cursor, Round, returns, continues, widen, bisect, round,
}
use bees.Seeker.Fetch.{Fetches, first-le, first-le-last}
use bees.Seeker.Result.{Highest, Probing, Searching, gap, Halved, Fetched, bisect_span}
use bees.Seeker.{seek_loop, seek_backward}
use bees.Seeker.Bisect.{bisect-Probing, bisect_below, last-IsKey}
use native.Mathlib.Nat.{pow-suc}

module _ (IsKey : ℕ → Type 0) (target : ℕ) (below_end : target < end_pos) where
  first-le-last_or :
      (p : ℕ) (xs : List ℕ) → Fetched IsKey target p xs → first_or end_pos xs ≤ last_or end_pos xs
  first-le-last_or p [] f = omega arith
  first-le-last_or p (x ∷ xs) f = first-le-last end_pos x xs f.ordered

  le-first_or :
      (p : ℕ) (xs : List ℕ) → p ≤ target → Fetched IsKey target p xs → p ≤ first_or end_pos xs
  le-first_or p [] h f = omega (arith, below_end)
  le-first_or p (x ∷ xs) h f = f.sound.0.1

  -- Where the first key of the result lies above the target, no key is in between.
  none_between :
      (p : ℕ) (xs : List ℕ)
      → Fetched IsKey target p xs
      → target < first_or end_pos xs
      → (k : ℕ) → IsKey k
      → k ≤ target
      → k < p
  none_between p [] f h k i le = elim (dec_lt k p) [
    | yes below ↦ below
    | no above ↦ absurd (f.complete k i (omega arith) le)
  ]
  none_between p (x ∷ xs) f h k i le = elim (dec_lt k p) [
    | yes below ↦ below
    | no above ↦ absurd (omega (arith, first-le k x xs f.ordered (f.complete k i (omega arith) le)))
  ]

  -- After a round that still looks for a lower bound.
  abbrev Next : Cursor → Round → Type 0
  Next c (returns r) = Highest IsKey target r
  Next c (continues c') =
      (Probing IsKey target c' × (gap IsKey target c' ≤ target))
      ⊎ (Searching IsKey target c'
          × (0 < c.probe_pos)
          × ((c'.probe_pos ≡ 0)
              ⊎ ((2 * (target - c.probe_pos) ≤ target - c'.probe_pos)
                  × (1 ≤ target - c'.probe_pos))))

  Next-Halved : (c : Cursor) (r : Round) → Halved IsKey target target r → Next c r
  Next-Halved c (returns r) h = h
  Next-Halved c (continues c') h = inl h

  -- The first key found is a lower bound, and the same round goes on with it.
  found_low_lem :
      (c : Cursor) (xs : List ℕ)
      → Searching IsKey target c
      → Fetched IsKey target c.probe_pos xs
      → first_or end_pos xs ≤ target
      → let low = first_or end_pos xs in
        Returns
          (bisect target xs low
            (last_or end_pos xs)
            (record c { found_low = true; lower_bound = low }))
          (Halved IsKey target target)
  found_low_lem c [] s f h = absurd (omega (arith, below_end))
  found_low_lem c (x ∷ xs) s f h =
      let c' : Cursor = record c { found_low = true; lower_bound = x } in
      let last = last_or end_pos (x ∷ xs) in
      let (key, beyond) = last-IsKey IsKey target c.probe_pos end_pos x xs f.sound in
      let order = first-le-last end_pos x xs f.ordered in
      let top = s.top in
      elim (dec_le target last) [
        | yes spans ↦ bisect_span IsKey target c' x xs target f h spans
        | no short ↦
            bisect_below IsKey target c' x last (x ∷ xs) target refl key order (omega arith)
              (omega arith) (omega arith)
              (λ k i le. elim s.tried [
                | inl e ↦ absurd (omega arith)
                | inr not_key ↦ elim (dec_lt k target) [
                  | yes lt ↦ omega arith
                  | no ge ↦ let e : k ≡ target = omega arith in absurd (not_key (subst IsKey e i))
                ]
              ])
              (omega arith)
      ]

  widen_lem :
      (min_step : ℕ) (c : Cursor)
      → 1 ≤ min_step
      → Searching IsKey target c
      → ((k : ℕ) → IsKey k → k ≤ target → k < c.probe_pos)
      → Returns (widen min_step c) (Next c)
  unfolding widen
  widen_lem min_step c pos s none_here = elim (Bool-cases (c.probe_pos == 0)) [
    | inl e ↦
        rw e (Highest.nothing refl (λ k i le. let q = none_here k i le in absurd (ground arith)))
    | inr e ↦
        let top = s.top in
        let w = s.within in
        let upper = c.upper_bound in
        let probe = c.probe_pos in
        let want = max (upper - probe) min_step in
        let have = min want probe in
        let t1 : leb probe upper ≡ true = ground arith in
        let t2 : leb have want ≡ true = let z : have ≤ want = omega arith in ground arith in
        let positive : 0 < probe = ground arith in
        rw (e, t1, t2)
          (inr (
            record {
              unfound = s.unfound;
              top = s.top;
              within = omega arith;
              tried = inr (λ i. omega (arith, none_here target i (omega arith)));
            },
            positive,
            elim (dec_lt want probe) [
              | yes lt ↦ inr (omega arith, omega arith)
              | no ge ↦ inl (omega arith)
            ],
          ))
  ]

  module _ (fetch : ℕ → ℕ → List ℕ) (min_step : ℕ) (fetches : Fetches IsKey fetch)
      (pos : 1 ≤ min_step) where
    fetch-Fetched : (p : ℕ) → Fetched IsKey target p (fetch p target)
    fetch-Fetched p = record {
      ordered = fetches.ordered p target;
      sound = fetches.sound p target;
      complete = λ k i h l. fetches.complete p target k i h l;
    }

    -- The three checks of a round hold.
    checks :
        (p : ℕ)
        → p ≤ target
        → (leb p (last_or end_pos (fetch p target)) ≡ true)
          × (leb p (first_or end_pos (fetch p target)) ≡ true)
          × (leb (first_or end_pos (fetch p target)) (last_or end_pos (fetch p target)) ≡ true)
    checks p h =
        let f = fetch-Fetched p in
        let a = le-first_or p (fetch p target) h f in
        let b = first-le-last_or p (fetch p target) f in
        let first = first_or end_pos (fetch p target) in
        let last = last_or end_pos (fetch p target) in (ground arith, ground arith, ground arith)

    round-Probing :
        (c : Cursor)
        → Probing IsKey target c
        → Returns
            (round target fetch min_step c)
            (Halved IsKey target ((gap IsKey target c + 1) / 2))
    unfolding round
    round-Probing c p =
        let m = p.middle in
        let w = p.wide in
        let t = p.bounded.high in
        let (a, b, d) = checks c.probe_pos (omega arith) in
        rw (a, b, d)
          (Returns-then (Halved IsKey target ((gap IsKey target c + 1) / 2)) c.found_low _ _
            p.bounded.found
            (bisect-Probing IsKey target c (fetch c.probe_pos target) below_end p
              (fetch-Fetched c.probe_pos)))

    round-Searching :
        (c : Cursor) → Searching IsKey target c → Returns (round target fetch min_step c) (Next c)
    unfolding round
    round-Searching c s =
        let xs = fetch c.probe_pos target in
        let f = fetch-Fetched c.probe_pos in
        let (a, b, d) = checks c.probe_pos s.within in
        let e : (target == end_pos) ≡ false = ground arith in
        elim (dec_le (first_or end_pos xs) target) [
          | yes h ↦
              let g : leb (first_or end_pos xs) target ≡ true = ground arith in
              rw (a, b, d, e, g)
                (Returns-else (Next c) c.found_low _ _ s.unfound (
                  Returns-mono (Halved IsKey target target) (Next c) _ (Next-Halved c)
                    (found_low_lem c xs s f h)))
          | no h ↦
              let g : leb (first_or end_pos xs) target ≡ false = ground arith in
              rw (a, b, d, e, g)
                (Returns-else (Next c) c.found_low _ _ s.unfound
                  (widen_lem min_step c pos s (none_between c.probe_pos xs f (omega arith))))
        ]

    -- With a lower bound, each round halves the range.
    loop-Probing :
        (k fuel : ℕ) (c : Cursor)
        → Probing IsKey target c
        → gap IsKey target c ≤ 2 ^ k
        → k ≤ fuel
        → Returns (seek_loop fuel target fetch min_step c) (Highest IsKey target)
    unfolding seek_loop
    loop-Probing zero fuel c p h l = let w = p.wide in absurd (omega arith)
    loop-Probing (suc k) zero c p h l = absurd (omega arith)
    loop-Probing (suc k) (suc fuel) c p h l =
        Returns-bind (Halved IsKey target ((gap IsKey target c + 1) / 2)) (Highest IsKey target)
          (round target fetch min_step c) _ (round-Probing c p)
          (elim [
            | returns v ↦ λ i. i
            | continues c' ↦
                λ i. loop-Probing k fuel c' i.0 (omega (arith, i.1, h, pow-suc 2 k)) (omega arith)
          ])

    bounded_gap : (c : Cursor) → gap IsKey target c ≤ target → gap IsKey target c ≤ 2 ^ 64
    bounded_gap c h = omega (arith, below_end)

    -- The probe is at 0, or 2 ^ j away from the target, with n levels to go.
    abbrev Far : ℕ → ℕ → Cursor → Type 0
    Far n j c = (c.probe_pos ≡ 0) ⊎ ((n + j ≡ 64) × (2 ^ j ≤ target - c.probe_pos))

    next_level :
        (n j : ℕ) (c c' : Cursor)
        → Far n j c
        → 0 < c.probe_pos
        → (c'.probe_pos ≡ 0)
          ⊎ ((2 * (target - c.probe_pos) ≤ target - c'.probe_pos) × (1 ≤ target - c'.probe_pos))
        → (m : ℕ) × (n ≡ suc m) × Far m (suc j) c'
    next_level n j c c' (inl z) positive farther = absurd (omega arith)
    next_level zero j c c' (inr (level, d)) positive farther =
        let e : j ≡ 64 = omega arith in
        let far : 2 ^ 64 ≤ target - c.probe_pos = subst (λ i. 2 ^ i ≤ target - c.probe_pos) e d in
        absurd (omega (arith, below_end))
    next_level (suc n) j c c' (inr (level, d)) positive (inl z) = (n, refl, inl z)
    next_level (suc n) j c c' (inr (level, d)) positive (inr (far, _)) =
        (n, refl, inr (omega arith, omega (arith, pow-suc 2 j)))

    -- Without a lower bound, each round doubles the distance from the target, until the probe is at 0.
    loop-Searching :
        (n j fuel : ℕ) (c : Cursor)
        → Searching IsKey target c
        → Far n j c
        → n + 65 ≤ fuel
        → Returns (seek_loop fuel target fetch min_step c) (Highest IsKey target)
    unfolding seek_loop
    loop-Searching n j zero c s far l = absurd (omega arith)
    loop-Searching n j (suc fuel) c s far l =
        Returns-bind (Next c) (Highest IsKey target) (round target fetch min_step c) _
          (round-Searching c s)
          (elim [
            | returns v ↦ λ i. i
            | continues c' ↦ elim [
              | inl (p, g) ↦ loop-Probing 64 fuel c' p (bounded_gap c' g) (omega arith)
              | inr (s', positive, farther) ↦
                  let (m, e, far') = next_level n j c c' far positive farther in
                  loop-Searching m (suc j) fuel c' s' far' (omega arith)
            ]
          ])

    -- For a target below the last position, a step of at least 1, at least 130 rounds and a fetch
    -- that lists the keys from a position on in order and without gaps, seek_backward returns the
    -- highest key at or below the target, or 0 where there is none.
    pub seek_backward-Highest :
        (max_loops : ℕ)
        → 130 ≤ max_loops
        → Returns (seek_backward target fetch min_step max_loops) (Highest IsKey target)
    unfolding seek_backward seek_loop
    seek_backward-Highest max_loops h =
        let e : min ((1 + 64) * 2) max_loops ≡ 130 = omega arith in
        let c : Cursor = record {
          lower_bound = 0;
          upper_bound = target;
          found_low = false;
          probe_pos = target;
        } in
        let s : Searching IsKey target c = record {
          unfound = refl;
          top = refl;
          within = omega arith;
          tried = inl refl;
        } in
        rw e (
          Returns-bind (Next c) (Highest IsKey target) (round target fetch min_step c) _
            (round-Searching c s)
            (elim [
              | returns v ↦ λ i. i
              | continues c' ↦ elim [
                | inl (p, g) ↦ loop-Probing 64 129 c' p (bounded_gap c' g) (omega arith)
                | inr (s', positive, inl z) ↦ loop-Searching 64 0 129 c' s' (inl z) (omega arith)
                | inr (s', positive, inr (_, far)) ↦
                    loop-Searching 64 0 129 c' s' (inr (refl, far)) (omega arith)
              ]
            ]))
