-- ===== src/Cache/Coherent.antt =====
-- The list and the map of an LRUCache (include/crucible/cache.h) tell the same entries.
use bees.Base.{
  ℕ, ◌+◌, ◌<◌, ◌≡◌, ◌≢◌, ◌⊎◌, inl, inr, refl, sym, ap, ◌∙◌, true, false, Option, none, some, List,
  [], ◌∷◌, ◌++◌, length, All, All-append, arith, leb, ◌==◌, ==_iff, if◌then◌else◌, Bool-cases,
  else_branch,
}
use bees.Cache.{Node, Cache, map_erase, overflow}

-- The node that the list has for a key.
abbrev pub listed : ℕ → List Node → Option ℕ
listed k [] = none
listed k (x ∷ xs) = if k == x.key then some x.node else listed k xs

-- Each key and each node number once.
abbrev pub Distinct : List Node → Type 0
Distinct [] = Unit {0}
Distinct (x ∷ xs) = All (λ y. (x.key ≢ y.key) × (x.node ≢ y.node)) xs × Distinct xs

pub record IsCache (c : Cache) : Type 0 where
  pub distinct : Distinct c.m_list
  pub numbered : All (λ x. x.node < c.node_count) c.m_list
  pub mapped : (k : ℕ) → c.m_map k ≡ listed k c.m_list
  pub counted : c.map_size ≡ length c.m_list

-- A key that no later node has is not listed.
pub listed-none :
    (x : Node) (xs : List Node)
    → All (λ y. (x.key ≢ y.key) × (x.node ≢ y.node)) xs
    → listed x.key xs ≡ none
listed-none x [] a = refl
listed-none x (y ∷ ys) a =
    let e : (x.key == y.key) ≡ false = let h = a.0.0 in ground arith in rw e (listed-none x ys a.1)

listed_first : (x : Node) (xs : List Node) → listed x.key (x ∷ xs) ≡ some x.node
listed_first x xs = let e : (x.key == x.key) ≡ true = ground arith in rw e refl

-- Without its coldest entry.
erase_first-IsCache :
    (x : Node) (xs : List Node) (c : Cache)
    → IsCache (record c { m_list = x ∷ xs })
    → IsCache (record (map_erase x.key c) { m_list = xs })
unfolding map_erase
erase_first-IsCache x xs c i = record {
  distinct = i.distinct.1;
  numbered = i.numbered.1;
  mapped = λ k. elim (Bool-cases (k == x.key)) [
    | inl e ↦
        let same = (==_iff k x.key).0 e in
        rw e (sym (ap (λ j. listed j xs) same ∙ listed-none x xs i.distinct.0))
    | inr e ↦ rw e (i.mapped k ∙ (rw e refl))
  ];
  counted =
      let f : c.m_map x.key ≡ some x.node = i.mapped x.key ∙ listed_first x xs in
      let n = i.counted in rw f (omega arith);
}

-- The loop leaves the end of the list that fits, and a map that tells it.
pub overflow-IsCache :
    (xs : List Node) (c : Cache)
    → IsCache (record c { m_list = xs })
    → IsCache (overflow xs c)
      × ((overflow xs c).map_size < c.m_max_size ⊎ ((overflow xs c).m_list ≡ []))
      × ((k : ℕ) → c.m_map k ≡ none → (overflow xs c).m_map k ≡ none)
unfolding overflow map_erase
overflow-IsCache [] c i = (i, inr refl, λ k h. h)
overflow-IsCache (x ∷ xs) c i = elim (Bool-cases (leb c.m_max_size c.map_size)) [
  | inr e ↦ rw e (i, inl (ground arith), λ k h. h)
  | inl e ↦
      let (j, room, less) =
        overflow-IsCache xs (map_erase x.key c) (erase_first-IsCache x xs c i) in
      rw e (
        j,
        room,
        λ k h. less k (elim (Bool-cases (k == x.key)) [ inl f ↦ rw f refl | inr f ↦ rw f h ]),
      )
]

pub listed-append :
    (k : ℕ) (xs : List Node) (y : Node)
    → listed k xs ≡ none
    → listed k (xs ++ y ∷ []) ≡ (if k == y.key then some y.node else none)
listed-append k [] y h = refl
listed-append k (x ∷ xs) y h = elim (Bool-cases (k == x.key)) [
  | inl e ↦ absurd (ground arith)
  | inr e ↦ rw e (listed-append k xs y (rw⁻¹ (else_branch _ (some x.node) (listed k xs) e) h))
]

pub listed-append_found :
    (k : ℕ) (xs : List Node) (y : Node)
    → (k == y.key) ≡ false
    → listed k (xs ++ y ∷ []) ≡ listed k xs
listed-append_found k [] y e = rw e refl
listed-append_found k (x ∷ xs) y e = elim (Bool-cases (k == x.key)) [
  | inl f ↦ rw f refl
  | inr f ↦ rw f (listed-append_found k xs y e)
]

-- A node with a new key and a new number at the end.
pub All-new :
    (k n : ℕ) (xs : List Node)
    → listed k xs ≡ none
    → All (λ x. x.node < n) xs
    → All (λ y. (y.key ≢ k) × (y.node ≢ n)) xs
All-new k n [] h a = tt
All-new k n (x ∷ xs) h a = elim (Bool-cases (k == x.key)) [
  | inl e ↦ absurd (ground arith)
  | inr e ↦ (
    (
      λ f. let g = f in absurd (ground arith),
      λ f. let g = f in let l = a.0 in absurd (omega arith),
    ),
    All-new k n xs (rw⁻¹ (else_branch _ (some x.node) (listed k xs) e) h) a.1,
  )
]

pub Distinct-append :
    (xs : List Node) (y : Node)
    → Distinct xs
    → All (λ x. (x.key ≢ y.key) × (x.node ≢ y.node)) xs
    → Distinct (xs ++ y ∷ [])
Distinct-append [] y d a = (tt, tt)
Distinct-append (x ∷ xs) y d a = (
  All-append (λ z. (x.key ≢ z.key) × (x.node ≢ z.node)) xs (y ∷ []) d.0 (a.0, tt),
  Distinct-append xs y d.1 a.1,
)

pub All-numbered :
    (n : ℕ) (xs : List Node) → All (λ x. x.node < n) xs → All (λ x. x.node < n + 1) xs
All-numbered n [] a = tt
All-numbered n (x ∷ xs) a = (let l = a.0 in omega arith, All-numbered n xs a.1)
