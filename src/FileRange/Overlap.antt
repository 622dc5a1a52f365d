-- ===== src/FileRange/Overlap.antt =====
-- BeesFileRange::overlaps (src/bees-types.cc) against the ranges as sets of bytes.
use bees.Base.{ℕ, ◌≤◌, ◌<◌, ◌≡◌, ◌↔◌, ◌⊎◌, inl, inr, true, arith, Bool-cases}
use bees.FileRange.{FileId, FileRange, bytes_meet, is_same_file, overlaps}

abbrev pub Common : FileRange → FileRange → Type 0
Common a b = (x : ℕ) × (a.m_begin ≤ x) × (x < a.m_end) × (b.m_begin ≤ x) × (x < b.m_end)

bytes_meet_iff :
    (a b : FileRange)
    → a.m_begin < a.m_end
    → b.m_begin < b.m_end
    → (bytes_meet a b ≡ true) ↔ Common a b
unfolding bytes_meet
bytes_meet_iff a b h l = (
  λ e.
      let a0 = a.m_begin in
      let a1 = a.m_end in
      let b0 = b.m_begin in
      let b1 = b.m_end in
      let x : (b0 < a0) × (a0 < b1) ⊎ (a0 ≤ b0) × (b0 < a1) = ground arith in
      elim x [
        | inl y ↦ (a0, omega arith, h, omega (arith, y.0), y.1)
        | inr y ↦ (b0, y.0, y.1, omega arith, l)
      ],
  λ (x, p, q, r, s). ground arith,
)

-- Two ranges that are not empty overlap exactly where they are of one file and have a byte in
-- common.
pub overlaps_iff :
    (stat_id : ℕ → FileId) (stat_size : ℕ → ℕ) (a b : FileRange)
    → a.m_begin < a.m_end
    → b.m_begin < b.m_end
    → (overlaps stat_id stat_size a b ≡ true)
      ↔ (Common a b × (is_same_file stat_id stat_size a b ≡ true))
unfolding overlaps
overlaps_iff stat_id stat_size a b h l =
    let iff = bytes_meet_iff a b h l in
    elim (Bool-cases (bytes_meet a b)) [
      | inl e ↦ rw e (λ s. (iff.0 e, s), λ x. x.1)
      | inr e ↦ rw e (λ f. absurd (ground arith), λ x. let m = iff.1 x.0 in absurd (ground arith))
    ]
