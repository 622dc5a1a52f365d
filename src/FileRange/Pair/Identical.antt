-- ===== src/FileRange/Pair/Identical.antt =====
-- BeesRangePair::grow (src/bees-types.cc) keeps the two ranges identical and apart.
use bees.Base.{
  ℕ, zero, suc, ◌+◌, ◌-◌, ◌%◌, ◌≤◌, ◌<◌, ◌≡◌, refl, sym, ap, ◌∙◌, Bool, true, false, not, Option,
  none, some, arith, ltb, leb, ltb→lt, leb→le, ◌==◌, ==_iff, if◌then◌else◌, Outcome, ok, throw,
  ◌>>=◌, invalid_argument, runtime_error, Allows, Allows-bind, Allows-if, Allows-check,
}
use mathlib.Core.Path.{subst}
use native.Mathlib.Decide.{dec_lt}
use bees.Address.{get_physical_or_zero}
use bees.FileRange.{FileRange, size, overlaps}
use bees.FileRange.Pair.{
  World, BlockData, new_block, bytes_from, list_eq, open_fd, bytes, is_data_equal, may_join,
}

bytes_from_equal :
    (f g : ℕ → ℕ) (a b n i : ℕ)
    → list_eq (bytes_from f a n) (bytes_from g b n) ≡ true
    → i < n
    → f (a + i) ≡ g (b + i)
bytes_from_equal f g a b zero i e h = absurd (omega arith)
bytes_from_equal f g a b (suc n) zero e h =
    let first : f a ≡ g b = ground arith in
    let x : a + 0 ≡ a = omega arith in let y : b + 0 ≡ b = omega arith in rw (x, y) first
bytes_from_equal f g a b (suc n) (suc i) e h =
    let rest : list_eq (bytes_from f (a + 1) n) (bytes_from g (b + 1) n) ≡ true = ground arith in
    let x : a + suc i ≡ a + 1 + i = omega arith in
    let y : b + suc i ≡ b + 1 + i = omega arith in
    rw (x, y) (bytes_from_equal f g (a + 1) (b + 1) n i rest (omega arith))

abbrev block_of : ℕ → ℕ → ℕ → BlockData
block_of fd from to = record { block_fd = fd; block_offset = from; block_length = to - from }

new_block-Allows :
    (fd from to : ℕ)
    → Allows (new_block fd from to) (λ b.
      (b ≡ record { block_fd = fd; block_offset = from; block_length = to - from }) × (from < to))
unfolding new_block
new_block-Allows fd from to =
    let P = λ (b : BlockData).
      (b ≡ record { block_fd = fd; block_offset = from; block_length = to - from }) × (from < to) in
    Allows-check P invalid_argument (ltb from to) _ (λ h.
      Allows-check P invalid_argument (leb (to - from) 4096) _
        (λ i. Allows-check P invalid_argument (from % 4096 == 0) _ (λ j. (refl, ltb→lt from to h))))

open_fd-Allows : (fd : ℕ) (r : FileRange) → r.m_fd ≡ some fd → Allows (open_fd r) (λ x. x ≡ fd)
open_fd-Allows fd r h = opened r.m_fd h
  where
    opened :
        (o : Option ℕ)
        → o ≡ some fd
        → Allows (elim o [ none ↦ throw runtime_error | some x ↦ ok x ]) (λ x. x ≡ fd)
    opened none h = absurd (ground arith)
    opened (some x) h = ground arith

pub size-Allows :
    (r : FileRange) → Allows (size r) (λ n. (n ≡ r.m_end - r.m_begin) × (r.m_begin ≤ r.m_end))
unfolding size
size-Allows r =
    Allows-check (λ n. (n ≡ r.m_end - r.m_begin) × (r.m_begin ≤ r.m_end)) invalid_argument
      (leb r.m_begin r.m_end) _ (λ h. (refl, leb→le r.m_begin r.m_end h))

module _ (w : World) where
  Equal : BlockData → BlockData → Type 0
  Equal a b =
      (a.block_length ≡ b.block_length)
      × ((i : ℕ)
          → i < a.block_length
          → w.byte_at a.block_fd (a.block_offset + i) ≡ w.byte_at b.block_fd (b.block_offset + i))

  is_data_equal-Allows :
      (a b : BlockData) → Allows (is_data_equal w a b) (λ j. (j ≡ true) → Equal a b)
  unfolding is_data_equal bytes Equal
  is_data_equal-Allows a b =
      let P = λ (j : Bool). (j ≡ true) → Equal a b in
      Allows-check P invalid_argument (ltb 0 a.block_length) _ (λ h.
        Allows-check P invalid_argument (a.block_length == b.block_length) _ (λ e j.
          let same = (==_iff a.block_length b.block_length).0 e in
          (
            same,
            λ i l.
                bytes_from_equal (w.byte_at a.block_fd) (w.byte_at b.block_fd) a.block_offset
                  b.block_offset a.block_length i
                  (subst
                    (λ n.
                      list_eq (bytes w a) (bytes_from (w.byte_at b.block_fd) b.block_offset n)
                      ≡ true)
                    (sym same) j)
                  l,
          )))

  may_join-Allows :
      (a b : BlockData) (probe : ℕ) → Allows (may_join w a b probe) (λ j. (j ≡ true) → Equal a b)
  unfolding may_join
  may_join-Allows a b probe =
      let P = λ (j : Bool). (j ≡ true) → Equal a b in
      let no : false ≡ true → Equal a b = λ e. absurd (ground arith) in
      Allows-bind P P (is_data_equal w a b) _ (is_data_equal-Allows a b) (λ same equal.
        Allows-if P (not same) _ _ (λ e. no)
          (λ e.
            let Q = λ (x : ℕ). Unit {0} in
            let is : same ≡ true = ground arith in
            Allows-bind Q P (w.address_at a.block_fd a.block_offset) _ (any _) (λ x _.
              Allows-bind Q P (w.address_at b.block_fd b.block_offset) _ (any _) (λ y _.
                Allows-if P (get_physical_or_zero x == get_physical_or_zero y) _ _ (λ e. no)
                  (λ e.
                    Allows-bind Q P (w.address_at a.block_fd probe) _ (any _)
                      (λ z _ j. equal is))))))
    where
      any : (m : Outcome ℕ) → Allows m (λ x. Unit {0})
      any (ok x) = tt
      any (throw e) = tt

  module _ (first_fd second_fd : ℕ) where
    -- The ranges of a pair are as long as each other, hold the same bytes and do not overlap.
    pub record IsPair (p : FileRange × FileRange) : Type 0 where
      pub fd_first : p.0.m_fd ≡ some first_fd
      pub fd_second : p.1.m_fd ≡ some second_fd
      pub order_first : p.0.m_begin ≤ p.0.m_end
      pub order_second : p.1.m_begin ≤ p.1.m_end
      pub same_size : p.0.m_end - p.0.m_begin ≡ p.1.m_end - p.1.m_begin
      pub same_bytes :
          (i : ℕ)
          → i < p.0.m_end - p.0.m_begin
          → w.byte_at first_fd (p.0.m_begin + i) ≡ w.byte_at second_fd (p.1.m_begin + i)
      pub apart : overlaps w.stat_id w.stat_size p.0 p.1 ≡ false

    -- The second pair has the first inside, with the same distance between its ranges.
    pub record Inside (p q : FileRange × FileRange) : Type 0 where
      pub first_begin : q.0.m_begin ≤ p.0.m_begin
      pub first_end : p.0.m_end ≤ q.0.m_end
      pub second_begin : q.1.m_begin ≤ p.1.m_begin
      pub second_end : p.1.m_end ≤ q.1.m_end
      pub distance : p.0.m_begin + q.1.m_begin ≡ p.1.m_begin + q.0.m_begin

    abbrev pub length_of : FileRange × FileRange → ℕ
    length_of p = p.0.m_end - p.0.m_begin

    -- What a round that hits gives.
    unfoldable pub Larger : FileRange × FileRange → Option (FileRange × FileRange) → Type 0
    Larger p none = Unit {0}
    Larger p (some q) = IsPair q × Inside p q × (length_of p < length_of q)

    pub extend_begin :
        (p : FileRange × FileRange) (b c : ℕ)
        → IsPair p
        → b < p.0.m_begin
        → c < p.1.m_begin
        → p.0.m_begin - b ≡ p.1.m_begin - c
        → ((i : ℕ) → i < p.0.m_begin - b → w.byte_at first_fd (b + i) ≡ w.byte_at second_fd (c + i))
        → overlaps w.stat_id w.stat_size (record p.0 { m_begin = b }) (record p.1 { m_begin = c })
          ≡ false
        → Larger p (some (record p.0 { m_begin = b }, record p.1 { m_begin = c }))
    unfolding Larger
    extend_begin p b c s h l d new_bytes apart =
        let o1 = s.order_first in
        let o2 = s.order_second in
        let z = s.same_size in
        let n = p.0.m_begin - b in
        (
          record {
            fd_first = s.fd_first;
            fd_second = s.fd_second;
            order_first = omega arith;
            order_second = omega arith;
            same_size = omega arith;
            same_bytes = λ i m. elim (dec_lt i n) [
              | yes inside ↦ new_bytes i inside
              | no beyond ↦
                  let x : p.0.m_begin + (i - n) ≡ b + i = omega arith in
                  let y : p.1.m_begin + (i - n) ≡ c + i = omega arith in
                  rw⁻¹ (x, y) (s.same_bytes (i - n) (omega arith))
            ];
            apart = apart;
          },
          record {
            first_begin = omega arith;
            first_end = omega arith;
            second_begin = omega arith;
            second_end = omega arith;
            distance = omega arith;
          },
          omega arith,
        )

    pub extend_end :
        (p : FileRange × FileRange) (b c k m : ℕ)
        → IsPair p
        → p.0.m_end < b
        → p.1.m_end < c
        → b - p.0.m_end ≡ c - p.1.m_end
        → ((i : ℕ)
            → i < b - p.0.m_end
            → w.byte_at first_fd (p.0.m_end + i) ≡ w.byte_at second_fd (p.1.m_end + i))
        → overlaps w.stat_id w.stat_size
            (record p.0 { m_end = b; m_file_size = k })
            (record p.1 { m_end = c; m_file_size = m })
          ≡ false
        → Larger p (
            some (
              record p.0 { m_end = b; m_file_size = k },
              record p.1 { m_end = c; m_file_size = m },
            ))
    unfolding Larger
    extend_end p b c k m s h l d new_bytes apart =
        let o1 = s.order_first in
        let o2 = s.order_second in
        let z = s.same_size in
        let n = p.0.m_end - p.0.m_begin in
        (
          record {
            fd_first = s.fd_first;
            fd_second = s.fd_second;
            order_first = omega arith;
            order_second = omega arith;
            same_size = omega arith;
            same_bytes = λ i v. elim (dec_lt i n) [
              | yes inside ↦ s.same_bytes i inside
              | no beyond ↦
                  let x : p.0.m_end + (i - n) ≡ p.0.m_begin + i = omega arith in
                  let y : p.1.m_end + (i - n) ≡ p.1.m_begin + i = omega arith in
                  rw⁻¹ (x, y) (new_bytes (i - n) (omega arith))
            ];
            apart = apart;
          },
          record {
            first_begin = omega arith;
            first_end = omega arith;
            second_begin = omega arith;
            second_end = omega arith;
            distance = omega arith;
          },
          omega arith,
        )

    -- The blocks of a round, where they may be joined.
    pub join_lem :
        (p : FileRange × FileRange) (from to from' to' probe : ℕ)
        (next : Outcome (Option (FileRange × FileRange)))
        → IsPair p
        → (from < to
            → from' < to'
            → to - from ≡ to' - from'
            → ((i : ℕ)
                → i < to - from
                → w.byte_at first_fd (from + i) ≡ w.byte_at second_fd (from' + i))
            → Allows next (Larger p))
        → Allows
            (do
              fd ← open_fd p.0
              fd' ← open_fd p.1
              a ← new_block fd from to
              b ← new_block fd' from' to'
              joins ← may_join w a b probe
              if not joins then ok none else next)
            (Larger p)
    unfolding Equal Larger
    join_lem p from to from' to' probe next s k =
        Allows-bind (λ x. x ≡ first_fd) (Larger p) (open_fd p.0) _
          (open_fd-Allows first_fd p.0 s.fd_first)
          (λ fd e.
            Allows-bind (λ x. x ≡ second_fd) (Larger p) (open_fd p.1) _
              (open_fd-Allows second_fd p.1 s.fd_second)
              (λ fd' e'.
                Allows-bind _ (Larger p) (new_block fd from to) _ (new_block-Allows fd from to)
                  (λ a (f, h).
                    Allows-bind _ (Larger p) (new_block fd' from' to') _
                      (new_block-Allows fd' from' to')
                      (λ b (g, l).
                        Allows-bind _ (Larger p) (may_join w a b probe) _
                          (may_join-Allows a b probe)
                          (λ joins equal.
                            Allows-if (Larger p) (not joins) _ _ (λ _. tt)
                              (λ j.
                                let a_is : a ≡ block_of first_fd from to =
                                  f ∙ ap (λ x. block_of x from to) e in
                                let b_is : b ≡ block_of second_fd from' to' =
                                  g ∙ ap (λ x. block_of x from' to') e' in
                                let (same, bytes_same) : Equal (block_of first_fd from to)
                                    (block_of second_fd from' to') =
                                  subst (λ x. Equal x (block_of second_fd from' to')) a_is
                                    (subst (Equal a) b_is (equal (ground arith))) in
                                k h l same bytes_same))))))
