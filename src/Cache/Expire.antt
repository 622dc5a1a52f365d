-- ===== src/Cache/Expire.antt =====
-- Taking a key out of an LRUCache (include/crucible/cache.h).
use bees.Base.{
  ℕ, ◌<◌, ◌≡◌, ◌≢◌, refl, sym, ap, ◌∙◌, inl, inr, true, false, none, some, List, [], ◌∷◌, ◌++◌,
  length-append, All, arith, ◌==◌, ==_iff, if◌then◌else◌, Bool-cases, Option-cases, then_branch,
  else_branch,
}
use mathlib.Core.Path.{subst}
use bees.Cache.{Node, Cache, map_erase, erase_key, expire, without}
use bees.Cache.Coherent.{IsCache, listed, Distinct, listed-none}
use bees.Cache.Used.{found}

All-drop :
    (P : Node → Type 0) (ys zs : List Node) (x : Node) → All P (ys ++ x ∷ zs) → All P (ys ++ zs)
All-drop P [] zs x a = a.1
All-drop P (y ∷ ys) zs x a = (a.0, All-drop P ys zs x a.1)

All-at : (P : Node → Type 0) (ys zs : List Node) (x : Node) → All P (ys ++ x ∷ zs) → P x
All-at P [] zs x a = a.0
All-at P (y ∷ ys) zs x a = All-at P ys zs x a.1

-- A node taken out.
Distinct-drop :
    (ys zs : List Node) (x : Node)
    → Distinct (ys ++ x ∷ zs)
    → Distinct (ys ++ zs)
      × ((k : ℕ) → listed k (ys ++ zs) ≡ (if k == x.key then none else listed k (ys ++ x ∷ zs)))
Distinct-drop [] zs x d = (
  d.1,
  λ k. elim (Bool-cases (k == x.key)) [
    | inl e ↦
        let same = (==_iff k x.key).0 e in rw e (ap (λ j. listed j zs) same ∙ listed-none x zs d.0)
    | inr e ↦ rw e refl
  ],
)
Distinct-drop (y ∷ ys) zs x d =
    let (e, l) = Distinct-drop ys zs x d.1 in
    (
      (All-drop (λ z. (y.key ≢ z.key) × (y.node ≢ z.node)) ys zs x d.0, e),
      λ k. elim (Bool-cases (k == y.key)) [
        | inl f ↦
            let apart = (All-at (λ z. (y.key ≢ z.key) × (y.node ≢ z.node)) ys zs x d.0).0 in
            let is : k ≡ y.key = (==_iff k y.key).0 f in
            let other : (k == x.key) ≡ false = elim (Bool-cases (k == x.key)) [
              | inl g ↦ absurd (apart (sym is ∙ (==_iff k x.key).0 g))
              | inr g ↦ g
            ] in
            rw (f, other) refl
        | inr f ↦ rw f (l k)
      ],
    )

-- Without a key, the rest as it was.
pub record Without (k : ℕ) (c d : Cache) : Type 0 where
  pub coherent : IsCache d
  pub gone : d.m_map k ≡ none
  pub kept : (n : ℕ) → n ≢ k → d.m_map n ≡ c.m_map n

-- The cache with the entry taken out of both.
dropped-IsCache :
    (ys zs : List Node) (x : Node) (n : ℕ) (c : Cache)
    → IsCache (record c { m_list = ys ++ x ∷ zs })
    → c.m_map x.key ≡ some n
    → IsCache (record (map_erase x.key c) { m_list = ys ++ zs })
unfolding map_erase
dropped-IsCache ys zs x n c i h =
    let (distinct, others) = Distinct-drop ys zs x i.distinct in
    record {
      distinct = distinct;
      numbered = All-drop (λ y. y.node < c.node_count) ys zs x i.numbered;
      mapped = λ k. elim (Bool-cases (k == x.key)) [
        | inl e ↦ rw e (sym (others k ∙ rw e refl))
        | inr e ↦ rw e (i.mapped k ∙ sym (others k ∙ rw e refl))
      ];
      counted =
          let l = i.counted in rw h (omega (arith, length-append ys (x ∷ zs), length-append ys zs));
    }

erase_key_found :
    (k n : ℕ) (c : Cache) (l : List Node)
    → c.m_map k ≡ some n
    → without n c.m_list ≡ l
    → erase_key k c ≡ record (map_erase k c) { m_list = l }
unfolding erase_key
erase_key_found k n c l h e =
    subst
      (λ o.
        elim o [ none ↦ c | some m ↦ record (map_erase k c) { m_list = without m c.m_list } ]
        ≡ record (map_erase k c) { m_list = l })
      (sym h) (ap (λ m. record (map_erase k c) { m_list = m }) e)

erase_key_missing : (k : ℕ) (c : Cache) → c.m_map k ≡ none → erase_key k c ≡ c
unfolding erase_key
erase_key_missing k c h = rw (erase_key, h) refl

map_erase-m_map :
    (k n : ℕ) (c : Cache) → (map_erase k c).m_map n ≡ (if n == k then none else c.m_map n)
unfolding map_erase
map_erase-m_map k n c = refl

-- Expire takes the key out of a coherent cache, which stays coherent, and every other key stays as
-- it was.
pub expire-Without : (k : ℕ) (c : Cache) → IsCache c → Without k c (expire k c)
unfolding expire
expire-Without k c i = elim (Option-cases (c.m_map k)) [
  | inl h ↦
      subst (Without k c) (sym (erase_key_missing k c h))
        (record { coherent = i; gone = h; kept = λ n e. refl })
  | inr (n, h) ↦
      let (ys, x, zs, p, q, at_n, rest) = found k n c.m_list i.distinct (sym (i.mapped k) ∙ h) in
      let j : IsCache (record c { m_list = ys ++ x ∷ zs }) =
        subst (λ l. IsCache (record c { m_list = l })) p i in
      let mapped : c.m_map x.key ≡ some n = ap c.m_map q ∙ h in
      let d : Cache = record (map_erase k c) { m_list = ys ++ zs } in
      let coherent : IsCache d =
        subst (λ m. IsCache (record (map_erase m c) { m_list = ys ++ zs })) q
          (dropped-IsCache ys zs x n c j mapped) in
      let self : (k == k) ≡ true = ground arith in
      subst (Without k c) (sym (erase_key_found k n c (ys ++ zs) h rest)) (record {
        coherent = coherent;
        gone = map_erase-m_map k k c ∙ then_branch (k == k) none (c.m_map k) self;
        kept = λ m e.
            map_erase-m_map k m c
            ∙ else_branch (m == k) none (c.m_map m)
                (elim (Bool-cases (m == k)) [ inl f ↦ absurd (e ((==_iff m k).0 f)) | inr f ↦ f ]);
      })
]
