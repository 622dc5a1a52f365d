-- ===== src/Cache/Used.antt =====
-- What a call for a key leaves of an LRUCache (include/crucible/cache.h), and where its nodes stand.
use bees.Base.{
  ℕ, ◌+◌, ◌≤◌, ◌<◌, ◌≡◌, ◌≢◌, inl, inr, refl, sym, ap, ◌∙◌, true, false, none, some, List, [], ◌∷◌,
  ◌++◌, length, length-append, All, All-append, arith, max, ◌==◌, ==_iff, Returns, Bool-cases,
  then_branch, else_branch,
}
use bees.Cache.{Node, Cache, map_insert, without, node_at, overflow, check_overflow, finish_insert}
use bees.Cache.Coherent.{
  All-new, All-numbered, Distinct, Distinct-append, IsCache, listed, listed-append,
  listed-append_found, listed-none, overflow-IsCache,
}

-- What a call for a key leaves: the key at the hot end of a coherent cache, with the result.
pub record Used (k ret bound : ℕ) (d : Cache) : Type 0 where
  pub coherent : IsCache d
  pub hot : (ys : List Node) × (x : Node) × (d.m_list ≡ ys ++ x ∷ []) × (x.key ≡ k) × (x.ret ≡ ret)
  pub bounded : d.map_size ≤ bound

pub finish_insert-Used :
    (k ret : ℕ) (c : Cache)
    → IsCache c
    → c.m_map k ≡ none
    → Returns (finish_insert k ret c) (λ (d, r). Used k ret (max 1 c.m_max_size) d × (r ≡ ret))
unfolding finish_insert check_overflow map_insert
finish_insert-Used k ret c i h =
    let d = overflow c.m_list c in
    let (j, room, less) = overflow-IsCache c.m_list c i in
    let free : d.m_map k ≡ none = less k h in
    let y : Node = record { node = d.node_count; key = k; ret = ret } in
    let unlisted : listed k d.m_list ≡ none = sym (j.mapped k) ∙ free in
    let size : d.map_size + 1 ≤ max 1 c.m_max_size = elim room [
      | inl l ↦ omega arith
      | inr e ↦ let n : d.map_size ≡ 0 = j.counted ∙ ap length e in omega arith
    ] in
    rw free (
      record {
        coherent = record {
          distinct =
              Distinct-append d.m_list y j.distinct
                (All-new k d.node_count d.m_list unlisted j.numbered);
          numbered =
              All-append (λ x. x.node < d.node_count + 1) d.m_list (y ∷ [])
                (All-numbered d.node_count d.m_list j.numbered) (omega arith, tt);
          mapped = λ n. elim (Bool-cases (n == k)) [
            | inl e ↦
                let same = (==_iff n k).0 e in
                let none_there : listed n d.m_list ≡ none =
                  ap (λ m. listed m d.m_list) same ∙ unlisted in
                rw e (
                  sym (
                    listed-append n d.m_list y none_there
                    ∙ then_branch (n == k) (some d.node_count) none e))
            | inr e ↦ rw e (j.mapped n ∙ sym (listed-append_found n d.m_list y e))
          ];
          counted = let n = j.counted in rw (length-append d.m_list (y ∷ [])) (omega arith);
        };
        hot = (d.m_list, y, refl, refl, refl);
        bounded = size;
      },
      refl,
    )

-- Where a listed node stands.
pub found :
    (k n : ℕ) (xs : List Node)
    → Distinct xs
    → listed k xs ≡ some n
    → (ys : List Node) × (x : Node) × (zs : List Node) × (xs ≡ ys ++ x ∷ zs)
      × (x.key ≡ k)
      × (node_at n xs ≡ some x)
      × (without n xs ≡ ys ++ zs)
found k n [] d h = absurd (ground arith)
found k n (x ∷ xs) d h = elim (Bool-cases (k == x.key)) [
  | inl e ↦
      let is : some x.node ≡ some n = sym (then_branch _ (some x.node) (listed k xs) e) ∙ h in
      let same : (n == x.node) ≡ true = ground arith in
      ([], x, xs, refl, sym ((==_iff k x.key).0 e), rw same refl, rw same refl)
  | inr e ↦
      let later : listed k xs ≡ some n = sym (else_branch _ (some x.node) (listed k xs) e) ∙ h in
      let (ys, z, zs, p, q, r, s) = found k n xs d.1 later in
      let other : (n == x.node) ≡ false = not_first x xs d.0 later in
      (x ∷ ys, z, zs, ap (λ l. x ∷ l) p, q, rw other r, rw other (ap (λ l. x ∷ l) s))
]
  where
    not_first :
        (x : Node) (xs : List Node)
        → All (λ y. (x.key ≢ y.key) × (x.node ≢ y.node)) xs
        → listed k xs ≡ some n
        → (n == x.node) ≡ false
    not_first x [] a h = absurd (ground arith)
    not_first x (y ∷ ys) a h = elim (Bool-cases (k == y.key)) [
      | inl e ↦
          let is : some y.node ≡ some n = sym (then_branch _ (some y.node) (listed k ys) e) ∙ h in
          let d = a.0.1 in ground arith
      | inr e ↦ not_first x ys a.1 (sym (else_branch _ (some y.node) (listed k ys) e) ∙ h)
    ]

pub All-move :
    (P : Node → Type 0) (ys zs : List Node) (x : Node)
    → All P (ys ++ x ∷ zs)
    → All P ((ys ++ zs) ++ x ∷ [])
All-move P [] zs x a = All-append P zs (x ∷ []) a.1 (a.0, tt)
All-move P (y ∷ ys) zs x a = (a.0, All-move P ys zs x a.1)

-- A node moved to the end.
pub Distinct-move :
    (ys zs : List Node) (x : Node)
    → Distinct (ys ++ x ∷ zs)
    → Distinct ((ys ++ zs) ++ x ∷ [])
      × ((k : ℕ) → listed k ((ys ++ zs) ++ x ∷ []) ≡ listed k (ys ++ x ∷ zs))
Distinct-move [] zs x d = (
  Distinct-append zs x d.1 (flip zs d.0),
  λ k. elim (Bool-cases (k == x.key)) [
    | inl e ↦
        let same = (==_iff k x.key).0 e in
        listed-append k zs x (ap (λ j. listed j zs) same ∙ listed-none x zs d.0) ∙ rw e refl
    | inr e ↦ listed-append_found k zs x e ∙ rw e refl
  ],
)
  where
    flip :
        (zs : List Node)
        → All (λ y. (x.key ≢ y.key) × (x.node ≢ y.node)) zs
        → All (λ y. (y.key ≢ x.key) × (y.node ≢ x.node)) zs
    flip [] a = tt
    flip (z ∷ zs) a = ((λ e. a.0.0 (sym e), λ e. a.0.1 (sym e)), flip zs a.1)
Distinct-move (y ∷ ys) zs x d =
    let (e, l) = Distinct-move ys zs x d.1 in
    (
      (All-move (λ z. (y.key ≢ z.key) × (y.node ≢ z.node)) ys zs x d.0, e),
      λ k. elim (Bool-cases (k == y.key)) [ inl f ↦ rw f refl | inr f ↦ rw f (l k) ],
    )
