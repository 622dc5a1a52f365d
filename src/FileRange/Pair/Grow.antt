-- ===== src/FileRange/Pair/Grow.antt =====
-- The rounds and the loops of BeesRangePair::grow (src/bees-types.cc).
use bees.Base.{
  ℕ, zero, suc, ◌+◌, ◌-◌, ◌%◌, ◌≤◌, ◌<◌, min, Bool, true, false, not, Option, none, some, arith,
  leb, ◌==◌, Outcome, ok, throw, ◌>>=◌, ◌>>◌, throw_check, invalid_argument, runtime_error, Allows,
  Allows-bind, Allows-if, Allows-check,
}
use bees.FileRange.{FileRange, size, grow_begin, grow_end, overlaps, file_size}
use bees.FileRange.Pair.{
  block_size_max_extent, Place, World, open_fd, backward, forward_in, next_extent, grow_backward,
  grow_forward, grow,
}
use bees.FileRange.Pair.Identical.{
  IsPair, Inside, length_of, Larger, extend_begin, extend_end, join_lem, size-Allows,
}

module _ (w : World) (first_fd second_fd : ℕ) where
  -- The end of a round: the sizes are compared, and the new pair replaces the old one.
  accept :
      (p : FileRange × FileRange) (first second : FileRange)
      → Larger w first_fd second_fd p (some (first, second))
      → Allows
          (do
            m ← size first
            n ← size second
            throw_check invalid_argument (m == n)
            ok (some (first, second)))
          (Larger w first_fd second_fd p)
  accept p first second h =
      let P = Larger w first_fd second_fd p in
      Allows-bind _ P (size first) _ (size-Allows first) (λ m _.
        Allows-bind _ P (size second) _ (size-Allows second)
          (λ n _. Allows-check P invalid_argument (m == n) _ (λ _. h)))

  backward-Larger :
      (p : FileRange × FileRange) (e : Place)
      → IsPair w first_fd second_fd p
      → Allows (backward w p e) (Larger w first_fd second_fd p)
  unfolding backward grow_begin Larger
  backward-Larger p e s =
      let P = Larger w first_fd second_fd p in
      let b = p.0.m_begin - min 4096 p.0.m_begin in
      let c = p.1.m_begin - min 4096 p.1.m_begin in
      let first : FileRange = record p.0 { m_begin = b } in
      let second : FileRange = record p.1 { m_begin = c } in
      Allows-if P (leb p.1.m_begin e.begin) _ _ (λ _. tt)
        (λ _.
          Allows-if P (b == p.0.m_begin) _ _ (λ _. tt)
            (λ _.
              Allows-if P (c == p.1.m_begin) _ _ (λ _. tt)
                (λ _.
                  Allows-if P (overlaps w.stat_id w.stat_size first second) _ _ (λ _. tt)
                    (λ apart.
                      join_lem w first_fd second_fd p b p.0.m_begin c p.1.m_begin b _ s
                        (λ h l d bytes.
                          accept p first second
                            (extend_begin w first_fd second_fd p b c s h l d bytes apart))))))

  grow_end-bind :
      (p : FileRange × FileRange) (r : FileRange)
      (f : FileRange → Outcome (Option (FileRange × FileRange)))
      → ((end known : ℕ)
          → Allows
              (f (record r { m_end = end; m_file_size = known }))
              (Larger w first_fd second_fd p))
      → Allows (grow_end w.stat_id w.stat_size 4096 r >>= f) (Larger w first_fd second_fd p)
  unfolding grow_end
  grow_end-bind p r f h = go (file_size w.stat_id w.stat_size r)
    where
      new : ℕ → FileRange
      new k = record r { m_end = min (r.m_end + 4096) k; m_file_size = k }

      checked :
          (k : ℕ) (b : Bool)
          → Allows (throw_check runtime_error b >> ok (new k) >>= f) (Larger w first_fd second_fd p)
      checked k true = h (min (r.m_end + 4096) k) k
      checked k false = tt

      go :
          (m : Outcome ℕ)
          → Allows
              (m
                >>= (λ known.
                    throw_check runtime_error (leb (min (r.m_end + 4096) known) known)
                    >> ok (new known))
                >>= f)
              (Larger w first_fd second_fd p)
      go (ok k) = checked k (leb (min (r.m_end + 4096) k) k)
      go (throw e) = tt

  forward-Larger :
      (p : FileRange × FileRange)
      → IsPair w first_fd second_fd p
      → Allows (forward_in w p) (Larger w first_fd second_fd p)
  unfolding forward_in Larger
  forward-Larger p s =
      let P = Larger w first_fd second_fd p in
      grow_end-bind p p.0 _ (λ b k.
        let first : FileRange = record p.0 { m_end = b; m_file_size = k } in
        Allows-if P (b == p.0.m_end) _ _ (λ _. tt)
          (λ _. grow_end-bind p p.1 _ (λ c m.
            let second : FileRange = record p.1 { m_end = c; m_file_size = m } in
            Allows-if P (c == p.1.m_end) _ _ (λ _. tt)
              (λ _.
                Allows-if P (not (c % 4096 == b % 4096)) _ _ (λ _. tt)
                  (λ _.
                    Allows-if P (overlaps w.stat_id w.stat_size first second) _ _ (λ _. tt)
                      (λ apart.
                        join_lem w first_fd second_fd p p.0.m_end b p.1.m_end c p.0.m_begin _ s
                          (λ h l d bytes.
                            accept p first second
                              (extend_end w first_fd second_fd p b c k m s h l d bytes apart))))))))

  Inside-refl : (p : FileRange × FileRange) → Inside w first_fd second_fd p p
  Inside-refl p = record {
    first_begin = omega arith;
    first_end = omega arith;
    second_begin = omega arith;
    second_end = omega arith;
    distance = omega arith;
  }

  Inside-trans :
      (p q r : FileRange × FileRange)
      → Inside w first_fd second_fd p q
      → Inside w first_fd second_fd q r
      → Inside w first_fd second_fd p r
  Inside-trans p q r a b =
      let a1 = a.first_begin in
      let a2 = a.first_end in
      let a3 = a.second_begin in
      let a4 = a.second_end in
      let b1 = b.first_begin in
      let b2 = b.first_end in
      let b3 = b.second_begin in
      let b4 = b.second_end in
      let a5 = a.distance in
      let b5 = b.distance in
      record {
        first_begin = omega arith;
        first_end = omega arith;
        second_begin = omega arith;
        second_end = omega arith;
        distance = omega arith;
      }

  -- What a loop gives: it does not run out of rounds, and the pair has grown.
  abbrev pub Grown : FileRange × FileRange → Option ((FileRange × FileRange) × Bool) → Type 0
  Grown p none = ⊥
  Grown p (some (q, hit)) = IsPair w first_fd second_fd q × Inside w first_fd second_fd p q

  Grown-trans :
      (p q : FileRange × FileRange) (r : Option ((FileRange × FileRange) × Bool))
      → Inside w first_fd second_fd p q
      → Grown q r
      → Grown p r
  Grown-trans p q none i g = g
  Grown-trans p q (some (r, hit)) i g = (g.0, Inside-trans p q r i g.1)

  Grown-Allows :
      (p q : FileRange × FileRange) (m : Outcome (Option ((FileRange × FileRange) × Bool)))
      → Inside w first_fd second_fd p q
      → Allows m (Grown q)
      → Allows m (Grown p)
  Grown-Allows p q (ok r) i h = Grown-trans p q r i h
  Grown-Allows p q (throw e) i h = tt

  -- Enough rounds are left for the largest size.
  abbrev Enough : ℕ → FileRange × FileRange → Type 0
  Enough n p = (1 ≤ n) × (block_size_max_extent < length_of w first_fd second_fd p + n)

  grow_backward-Grown :
      (n : ℕ) (p : FileRange × FileRange) (e : Place) (rv : Bool)
      → IsPair w first_fd second_fd p
      → Enough n p
      → Allows (grow_backward w n p e rv) (Grown p)
  unfolding grow_backward Larger
  grow_backward-Grown zero p e rv s h = absurd (omega (arith, h.0))
  grow_backward-Grown (suc n) p e rv s h =
      let P = Grown p in
      Allows-bind _ P (size p.0) _ (size-Allows p.0) (λ m (is, _).
        Allows-if P (leb block_size_max_extent m) _ _ (λ _. (s, Inside-refl p))
          (λ below.
            let less : m < block_size_max_extent = ground arith in
            Allows-bind (Larger w first_fd second_fd p) P (backward w p e) _ (backward-Larger p e s)
              (elim [
                | none ↦ λ _. (s, Inside-refl p)
                | some q ↦ λ (t, i, longer).
                    Grown-Allows p q (grow_backward w n q e true) i
                      (grow_backward-Grown n q e true t (omega (arith, h.1), omega (arith, h.1)))
              ])))

  grow_forward-Grown :
      (n : ℕ) (constrained : Bool) (p : FileRange × FileRange) (e : Place) (rv : Bool)
      → IsPair w first_fd second_fd p
      → Enough n p
      → Allows (grow_forward w n constrained p e rv) (Grown p)
  unfolding grow_forward Larger
  grow_forward-Grown zero constrained p e rv s h = absurd (omega (arith, h.0))
  grow_forward-Grown (suc n) constrained p e rv s h =
      let P = Grown p in
      Allows-bind _ P (size p.0) _ (size-Allows p.0) (λ m (is, _).
        Allows-if P (leb block_size_max_extent m) _ _ (λ _. (s, Inside-refl p))
          (λ below.
            let less : m < block_size_max_extent = ground arith in
            Allows-bind (λ _. Unit {0}) P (next_extent w constrained p e) _
              (any (next_extent w constrained p e))
              (elim [
                | none ↦ λ _. (s, Inside-refl p)
                | some e' ↦ λ _.
                    Allows-bind (Larger w first_fd second_fd p) P (forward_in w p) _
                      (forward-Larger p s)
                      (elim [
                        | none ↦ λ _. (s, Inside-refl p)
                        | some q ↦ λ (t, i, longer).
                            Grown-Allows p q (grow_forward w n constrained q e' true) i (
                              grow_forward-Grown n constrained q e' true t
                                (omega (arith, h.1), omega (arith, h.1)))
                      ])
              ])))
    where
      any : (m : Outcome (Option Place)) → Allows m (λ _. Unit {0})
      any (ok x) = tt
      any (throw e) = tt

  -- A pair of open ranges that are as long as each other, hold the same bytes and do not overlap
  -- stays so when it grows: unless the call throws, it ends within its rounds and the result
  -- contains the pair, with the same distance between the ranges.
  pub grow-Grown :
      (constrained : Bool) (p : FileRange × FileRange)
      → IsPair w first_fd second_fd p
      → Allows (grow w constrained p) (Grown p)
  unfolding grow
  grow-Grown constrained p s =
      let P = Grown p in
      Allows-check P invalid_argument (p.0.m_begin % 4096 == 0) _ (λ _.
        Allows-check P invalid_argument (p.1.m_begin % 4096 == 0) _ (λ _.
          Allows-check P invalid_argument (not (overlaps w.stat_id w.stat_size p.0 p.1)) _ (λ _.
            opened (open_fd p.1) _ (λ fd.
              Allows-bind P P
                (grow_backward w (block_size_max_extent + 1) p (w.extent_at fd p.1.m_begin) false) _
                (grow_backward-Grown (block_size_max_extent + 1) p _ false s
                  (omega arith, omega arith))
                (elim [
                  | none ↦ absurd
                  | some (q, rv) ↦ λ (t, i).
                      Grown-Allows p q
                        (grow_forward w (block_size_max_extent + 1) constrained q
                          (w.extent_at fd p.1.m_begin) rv)
                        i
                        (grow_forward-Grown (block_size_max_extent + 1) constrained q _ rv t
                          (omega arith, omega arith))
                ])))))
    where
      opened :
          (m : Outcome ℕ) (f : ℕ → Outcome (Option ((FileRange × FileRange) × Bool)))
          → ((fd : ℕ) → Allows (f fd) (Grown p))
          → Allows (m >>= f) (Grown p)
      opened (ok fd) f h = h fd
      opened (throw e) f h = tt
