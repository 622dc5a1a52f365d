-- ===== src/Seeker/Fetch.antt =====
-- What include/crucible/seeker.h asks of the fetch function.
use bees.Base.{ℕ, ◌≤◌, ◌<◌, ◌≡◌, ◌⊎◌, inl, inr, List, [], ◌∷◌, none, some, ok, All, arith}
use native.Mathlib.Decide.{dec_lt}
use bees.Seeker.{end_pos, last_or, scan_back}

abbrev pub IsOrdered : List ℕ → Type 0
IsOrdered [] = Unit {0}
IsOrdered (x ∷ []) = Unit {0}
IsOrdered (x ∷ y ∷ ys) = (x ≤ y) × IsOrdered (y ∷ ys)

-- The keys up to `k` that were asked for are all there, unless the result ends before `k`.
abbrev pub Reaches : ℕ → List ℕ → Type 0
Reaches k [] = ⊥
Reaches k (x ∷ []) = x ≤ k
Reaches k (x ∷ y ∷ ys) = (x ≡ k) ⊎ Reaches k (y ∷ ys)

-- `fetch lower upper` lists keys in order from `lower` on, and misses one up to `upper` only by
-- ending before it; it may go on behind `upper`.
pub record Fetches (IsKey : ℕ → Type 0) (fetch : ℕ → ℕ → List ℕ) : Type 0 where
  pub ordered : (lower upper : ℕ) → IsOrdered (fetch lower upper)
  pub sound :
      (lower upper : ℕ) → All (λ x. IsKey x × (lower ≤ x) × (x ≤ end_pos)) (fetch lower upper)
  pub complete :
      (lower upper k : ℕ) → IsKey k → lower ≤ k → k ≤ upper → Reaches k (fetch lower upper)

pub first-le-last : (d : ℕ) (x : ℕ) (xs : List ℕ) → IsOrdered (x ∷ xs) → x ≤ last_or d (x ∷ xs)
first-le-last d x [] o = omega arith
first-le-last d x (y ∷ ys) o = omega (arith, first-le-last d y ys o.1)

-- A key that the result reaches is not before the first one.
pub first-le : (k x : ℕ) (xs : List ℕ) → IsOrdered (x ∷ xs) → Reaches k (x ∷ xs) → x ≤ k
first-le k x [] o r = r
first-le k x (y ∷ ys) o (inl e) = omega arith
first-le k x (y ∷ ys) o (inr r) = omega (arith, first-le k y ys o.1 r)

-- The scan from the high end passes over what lies above the target.
scan_back_above :
    (probe target x : ℕ) (xs : List ℕ)
    → All (λ y. probe ≤ y) (x ∷ xs)
    → IsOrdered (x ∷ xs)
    → target < x
    → scan_back probe target (x ∷ xs) ≡ ok none
unfolding scan_back
scan_back_above probe target x [] a o h = ground arith
scan_back_above probe target x (y ∷ ys) a o h =
    rw (scan_back_above probe target y ys a.1 o.1 (omega arith)) (ground arith)

-- It stops at the highest key at or below the target, where the result spans the target.
pub scan_back_lem :
    (IsKey : ℕ → Type 0) (probe target x : ℕ) (xs : List ℕ)
    → All (λ y. IsKey y × (probe ≤ y) × (y ≤ end_pos)) (x ∷ xs)
    → IsOrdered (x ∷ xs)
    → x ≤ target
    → (v : ℕ) × (scan_back probe target (x ∷ xs) ≡ ok (some v))
      × IsKey v
      × (v ≤ target)
      × (x ≤ v)
      × ((k : ℕ) → Reaches k (x ∷ xs) → k ≤ target → target ≤ last_or end_pos (x ∷ xs) → k ≤ v)
unfolding scan_back
scan_back_lem IsKey probe target x [] a o h =
    (x, ground arith, a.0.0, h, omega arith, λ k r p q. omega arith)
scan_back_lem IsKey probe target x (y ∷ ys) a o h = elim (dec_lt target y) [
  | no q ↦
      let (v, e, key, le, ge, best) = scan_back_lem IsKey probe target y ys a.1 o.1 (omega arith) in
      (
        v,
        rw e,
        key,
        le,
        omega arith,
        λ k r p s. elim r [ inl same ↦ omega arith | inr later ↦ best k later p s ],
      )
  | yes q ↦ (
    x,
    rw (scan_back_above probe target y ys (probes (y ∷ ys) a.1) o.1 q) (ground arith),
    a.0.0,
    h,
    omega arith,
    λ k r p s. elim r [
      | inl same ↦ omega arith
      | inr later ↦ absurd (omega (arith, first-le k y ys o.1 later))
    ],
  )
]
  where
    probes :
        (zs : List ℕ)
        → All (λ y. IsKey y × (probe ≤ y) × (y ≤ end_pos)) zs
        → All (λ y. probe ≤ y) zs
    probes [] b = tt
    probes (z ∷ zs) b = (b.0.1, probes zs b.1)
