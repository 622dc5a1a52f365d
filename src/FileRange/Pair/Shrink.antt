-- ===== src/FileRange/Pair/Shrink.antt =====
-- Shrinking a pair of equal ranges (BeesRangePair::shrink_begin and shrink_end, src/bees-types.cc).
use bees.Base.{
  ℕ, ◌+◌, ◌-◌, ◌≤◌, ◌<◌, ◌≡◌, inl, inr, refl, Bool, true, false, arith, ltb, leb, ◌==◌,
  if◌then◌else◌, Returns, Bool-cases,
}
use bees.FileRange.{
  FileRange, size, overlaps, bytes_meet, is_same_file, fid, range_shrink_begin, range_shrink_end,
  pair_shrink_begin, pair_shrink_end,
}
use bees.FileRange.Pair.{World}
use bees.FileRange.Pair.Identical.{IsPair, Inside, length_of}

module _ (w : World) (first_fd second_fd : ℕ) where
  -- Smaller ranges of the same files do not begin to overlap.
  smaller_apart :
      (a b : FileRange) (a0 a1 b0 b1 : ℕ)
      → overlaps w.stat_id w.stat_size a b ≡ false
      → a.m_begin ≤ a0
      → a1 ≤ a.m_end
      → b.m_begin ≤ b0
      → b1 ≤ b.m_end
      → a0 < a1
      → b0 < b1
      → overlaps w.stat_id w.stat_size
          (record a { m_begin = a0; m_end = a1 })
          (record b { m_begin = b0; m_end = b1 })
        ≡ false
  unfolding overlaps bytes_meet is_same_file fid
  smaller_apart a b a0 a1 b0 b1 h l m n o p q =
      still (if ltb b0 a0 then ltb a0 b1 else ltb b0 a1)
        (if ltb b.m_begin a.m_begin then ltb a.m_begin b.m_end else ltb b.m_begin a.m_end) _
        (λ e. ground arith) h
    where
      still :
          (x y same : Bool)
          → (x ≡ true → y ≡ true)
          → (if y then same else false) ≡ false
          → (if x then same else false) ≡ false
      still x y false k h = elim (Bool-cases x) [ inl e ↦ rw e refl | inr e ↦ rw e refl ]
      still false y true k h = refl
      still true y true k h = let e = k refl in absurd (ground arith)

  -- What shrinking by `delta` leaves.
  pub record Shrunk (p : FileRange × FileRange) (delta : ℕ) (q : FileRange × FileRange)
      : Type 0 where
    pub pair : IsPair w first_fd second_fd q
    pub inside : Inside w first_fd second_fd q p
    pub shorter : length_of w first_fd second_fd q + delta ≡ length_of w first_fd second_fd p

  pair_shrink_begin-Shrunk :
      (p : FileRange × FileRange) (delta : ℕ)
      → IsPair w first_fd second_fd p
      → 0 < delta
      → delta < length_of w first_fd second_fd p
      → Returns (pair_shrink_begin delta p) (Shrunk p delta)
  unfolding pair_shrink_begin range_shrink_begin size
  pair_shrink_begin-Shrunk p delta s pos less =
      let o1 = s.order_first in
      let o2 = s.order_second in
      let z = s.same_size in
      let a = p.0 in
      let b = p.1 in
      let t1 : ltb 0 delta ≡ true = ground arith in
      let t2 : ltb (delta + a.m_begin) a.m_end ≡ true = ground arith in
      let t3 : ltb (delta + b.m_begin) b.m_end ≡ true = ground arith in
      let t4 : leb (a.m_begin + delta) a.m_end ≡ true = ground arith in
      let t5 : leb (b.m_begin + delta) b.m_end ≡ true = ground arith in
      let t6 : (a.m_end - (a.m_begin + delta) == b.m_end - (b.m_begin + delta)) ≡ true =
        ground arith in
      let apart =
        smaller_apart a b (a.m_begin + delta) a.m_end (b.m_begin + delta) b.m_end s.apart
          (omega arith) (omega arith) (omega arith) (omega arith) (omega arith) (omega arith) in
      rw (t1, t2, t3, t4, t5, t6)
        (record {
          pair = record {
            fd_first = s.fd_first;
            fd_second = s.fd_second;
            order_first = omega arith;
            order_second = omega arith;
            same_size = omega arith;
            same_bytes = λ i h.
                let x : a.m_begin + delta + i ≡ a.m_begin + (delta + i) = omega arith in
                let y : b.m_begin + delta + i ≡ b.m_begin + (delta + i) = omega arith in
                rw (x, y) (s.same_bytes (delta + i) (omega arith));
            apart = apart;
          };
          inside = record {
            first_begin = omega arith;
            first_end = omega arith;
            second_begin = omega arith;
            second_end = omega arith;
            distance = omega arith;
          };
          shorter = omega arith;
        })

  pair_shrink_end-Shrunk :
      (p : FileRange × FileRange) (delta : ℕ)
      → IsPair w first_fd second_fd p
      → 0 < delta
      → delta < length_of w first_fd second_fd p
      → Returns (pair_shrink_end delta p) (Shrunk p delta)
  unfolding pair_shrink_end range_shrink_end size
  pair_shrink_end-Shrunk p delta s pos less =
      let o1 = s.order_first in
      let o2 = s.order_second in
      let z = s.same_size in
      let a = p.0 in
      let b = p.1 in
      let t1 : ltb 0 delta ≡ true = ground arith in
      let t2 : leb delta a.m_end ≡ true = ground arith in
      let t3 : leb delta b.m_end ≡ true = ground arith in
      let t4 : leb a.m_begin (a.m_end - delta) ≡ true = ground arith in
      let t5 : leb b.m_begin (b.m_end - delta) ≡ true = ground arith in
      let t6 : (a.m_end - delta - a.m_begin == b.m_end - delta - b.m_begin) ≡ true = ground arith in
      let apart =
        smaller_apart a b a.m_begin (a.m_end - delta) b.m_begin (b.m_end - delta) s.apart
          (omega arith) (omega arith) (omega arith) (omega arith) (omega arith) (omega arith) in
      rw (t1, t2, t3, t4, t5, t6)
        (record {
          pair = record {
            fd_first = s.fd_first;
            fd_second = s.fd_second;
            order_first = omega arith;
            order_second = omega arith;
            same_size = omega arith;
            same_bytes = λ i h. s.same_bytes i (omega arith);
            apart = apart;
          };
          inside = record {
            first_begin = omega arith;
            first_end = omega arith;
            second_begin = omega arith;
            second_end = omega arith;
            distance = omega arith;
          };
          shorter = omega arith;
        })

  -- By a length of at least 1 and less than the size, shrink_begin and shrink_end of a pair of
  -- open ranges that are as long as each other, hold the same bytes and do not overlap return such
  -- a pair, inside the old one and shorter by the length.
  pub shrink-Shrunk :
      (p : FileRange × FileRange) (delta : ℕ)
      → IsPair w first_fd second_fd p
      → 0 < delta
      → delta < length_of w first_fd second_fd p
      → Returns (pair_shrink_begin delta p) (Shrunk p delta)
        × Returns (pair_shrink_end delta p) (Shrunk p delta)
  shrink-Shrunk p delta s pos less =
      (pair_shrink_begin-Shrunk p delta s pos less, pair_shrink_end-Shrunk p delta s pos less)
