-- ===== src/Seeker/Tests.antt =====
-- seek_backward at concrete keys, and at the position where it misses one.
use bees.Base.{
  ℕ, ◌≤◌, ◌≡◌, ◌⊎◌, inl, inr, refl, List, [], ◌∷◌, ok, All, arith, leb, if◌then◌else◌, Returns,
  Bool-cases, leb→le, sym,
}
use bees.Seeker.{end_pos, seek_backward, seek_loop, round, bisect, widen, halve, narrow, scan_back}
use bees.Seeker.Fetch.{Fetches, IsOrdered, Reaches}
use bees.Seeker.Result.{Highest}
use bees.Seeker.Search.{seek_backward-Highest}

abbrev IsKey : ℕ → Type 0
IsKey k = (k ≡ 10) ⊎ (k ≡ 20)

abbrev keys_from : ℕ → ℕ → List ℕ
keys_from lower upper = if leb lower 10 then 10 ∷ 20 ∷ [] else if leb lower 20 then 20 ∷ [] else []

keys_from-IsOrdered : (lower upper : ℕ) → IsOrdered (keys_from lower upper)
keys_from-IsOrdered lower upper = elim (Bool-cases (leb lower 10)) [
  | inl e ↦ rw e (omega arith, tt)
  | inr e ↦ elim (Bool-cases (leb lower 20)) [ inl f ↦ rw (e, f) tt | inr f ↦ rw (e, f) tt ]
]

keys_from_sound :
    (lower upper : ℕ) → All (λ x. IsKey x × (lower ≤ x) × (x ≤ end_pos)) (keys_from lower upper)
keys_from_sound lower upper = elim (Bool-cases (leb lower 10)) [
  | inl e ↦
      let h = leb→le lower 10 e in
      rw e ((inl refl, h, omega arith), ((inr refl, omega arith, omega arith), tt))
  | inr e ↦ elim (Bool-cases (leb lower 20)) [
    | inl f ↦ let h = leb→le lower 20 f in rw (e, f) ((inr refl, h, omega arith), tt)
    | inr f ↦ rw (e, f) tt
  ]
]

keys_from_complete :
    (lower upper k : ℕ) → IsKey k → lower ≤ k → k ≤ upper → Reaches k (keys_from lower upper)
keys_from_complete lower upper k key h l = elim (Bool-cases (leb lower 10)) [
  | inl e ↦ elim key [ inl a ↦ rw e (inl (sym a)) | inr a ↦ rw e (inr (omega arith)) ]
  | inr e ↦ elim (Bool-cases (leb lower 20)) [
    | inl f ↦ elim key [ inl a ↦ absurd (ground arith) | inr a ↦ rw (e, f) (omega arith) ]
    | inr f ↦ absurd (ground arith)
  ]
]

keys_from-Fetches : Fetches IsKey keys_from
keys_from-Fetches = record {
  ordered = keys_from-IsOrdered;
  sound = keys_from_sound;
  complete = keys_from_complete;
}

seek_between : seek_backward 15 keys_from 1 1000 ≡ ok 10
unfolding seek_backward seek_loop round bisect widen halve narrow scan_back
seek_between = refl

seek_before : seek_backward 9 keys_from 1 1000 ≡ ok 0
unfolding seek_backward seek_loop round bisect widen halve narrow scan_back
seek_before = refl

seek_beyond : seek_backward 0x123456789abcdef keys_from 1 1000 ≡ ok 20
unfolding seek_backward seek_loop round bisect widen halve narrow scan_back
seek_beyond = refl

seek_backward-Highest_example : Returns (seek_backward 15 keys_from 1 1000) (Highest IsKey 15)
seek_backward-Highest_example =
    seek_backward-Highest IsKey 15 (omega arith) keys_from 1 keys_from-Fetches (omega arith) 1000
      (omega arith)

-- The only key is the last position.
abbrev last_position : ℕ → ℕ → List ℕ
last_position lower upper = if leb lower end_pos then end_pos ∷ [] else []

seek_last_position : seek_backward end_pos last_position 1 1000 ≡ ok 0
unfolding seek_backward seek_loop round bisect widen halve narrow scan_back
seek_last_position = refl
