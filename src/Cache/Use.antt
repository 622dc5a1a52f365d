-- ===== src/Cache/Use.antt =====
-- A call through an LRUCache (include/crucible/cache.h), whether the key is cached or not.
use bees.Base.{
  ℕ, ◌≤◌, ◌<◌, ◌≡◌, ◌⊎◌, inl, inr, refl, sym, ◌∙◌, none, some, List, [], ◌∷◌, ◌++◌, length-append,
  arith, max, Outcome, ok, throw, Returns, Option-cases,
}
use mathlib.Core.Path.{subst}
use bees.Cache.{Node, Cache, recent_use, find_item, finish_insert, insert_item, node_at, without}
use bees.Cache.Coherent.{IsCache, listed}
use bees.Cache.Used.{Used, finish_insert-Used, found, Distinct-move, All-move}

-- The list has the key with this result.
abbrev pub Cached : ℕ → ℕ → Cache → Type 0
Cached k ret c =
    (ys : List Node) × (x : Node) × (zs : List Node) × (c.m_list ≡ ys ++ x ∷ zs)
    × (x.key ≡ k)
    × (x.ret ≡ ret)

moved-IsCache :
    (ys zs : List Node) (x : Node) (c : Cache)
    → IsCache (record c { m_list = ys ++ x ∷ zs })
    → IsCache (record c { m_list = (ys ++ zs) ++ x ∷ [] })
moved-IsCache ys zs x c i =
    let (distinct, same) = Distinct-move ys zs x i.distinct in
    record {
      distinct = distinct;
      numbered = All-move (λ y. y.node < c.node_count) ys zs x i.numbered;
      mapped = λ k. i.mapped k ∙ sym (same k);
      counted =
          let n = i.counted in
          omega (
            arith,
            length-append ys (x ∷ zs),
            length-append (ys ++ zs) (x ∷ []),
            length-append ys zs,
          );
    }

find_item_found :
    (k n : ℕ) (c : Cache) (l : List Node) (x : Node)
    → c.m_map k ≡ some n
    → node_at n c.m_list ≡ some x
    → without n c.m_list ≡ l
    → find_item k c ≡ some (record c { m_list = l ++ x ∷ [] }, ok x.ret)
unfolding find_item recent_use
find_item_found k n c l x h at_n rest = rw (h, find_item, recent_use, at_n, rest) refl

-- The key is found: its entry moves to the hot end, and its result is returned.
find_item-Used :
    (k n : ℕ) (c : Cache)
    → IsCache c
    → c.m_map k ≡ some n
    → (d : Cache) × (r : ℕ) × (find_item k c ≡ some (d, ok r))
      × Used k r c.map_size d
      × Cached k r c
find_item-Used k n c i h =
    let (ys, x, zs, p, q, at_n, rest) = found k n c.m_list i.distinct (sym (i.mapped k) ∙ h) in
    let j : IsCache (record c { m_list = ys ++ x ∷ zs }) =
      subst (λ l. IsCache (record c { m_list = l })) p i in
    (
      record c { m_list = (ys ++ zs) ++ x ∷ [] },
      x.ret,
      find_item_found k n c (ys ++ zs) x h at_n rest,
      record {
        coherent = moved-IsCache ys zs x c j;
        hot = (ys ++ zs, x, refl, q, refl);
        bounded = omega arith;
      },
      (ys, x, zs, p, q, refl),
    )

find_item_missing : (k : ℕ) (c : Cache) → c.m_map k ≡ none → find_item k c ≡ none
unfolding find_item
find_item_missing k c e = rw (e, find_item) refl

-- What a call leaves, and what it returns.
abbrev pub Served : ℕ → ℕ → Cache → Cache × ℕ → Type 0
Served k value c (d, r) =
    Used k r (max c.map_size (max 1 c.m_max_size)) d
    × (Cached k r c ⊎ ((listed k c.m_list ≡ none) × (r ≡ value)))

wider : (k r a b : ℕ) (d : Cache) → a ≤ b → Used k r a d → Used k r b d
wider k r a b d h u = record {
  coherent = u.coherent;
  hot = u.hot;
  bounded = let l = u.bounded in omega arith;
}

-- A call for a key through a coherent cache, where the function returns a value, returns the
-- cached result, or that value where the key is not cached; the key is at the hot end with the
-- result, and the cache stays coherent and grows to its limit at most.
pub insert_item-Served :
    (fn : ℕ → Outcome ℕ) (k value : ℕ) (c : Cache)
    → IsCache c
    → fn k ≡ ok value
    → Returns (insert_item fn k c) (Served k value c)
unfolding insert_item
insert_item-Served fn k value c i h = elim (Option-cases (c.m_map k)) [
  | inl e ↦
      rw (insert_item, find_item_missing k c e, h)
        (finished (finish_insert k value c) e (finish_insert-Used k value c i e))
  | inr (n, e) ↦
      let (d, r, is, used, cached) = find_item-Used k n c i e in
      rw (insert_item, is)
        (
          wider k r c.map_size (max c.map_size (max 1 c.m_max_size)) d (omega arith) used,
          inl cached,
        )
]
  where
    finished :
        (o : Outcome (Cache × ℕ))
        → c.m_map k ≡ none
        → Returns o (λ (d, r). Used k value (max 1 c.m_max_size) d × (r ≡ value))
        → Returns o (Served k value c)
    finished (ok (d, r)) e (u, s) = (
      subst (λ x. Used k x (max c.map_size (max 1 c.m_max_size)) d) (sym s)
          (wider k value (max 1 c.m_max_size) (max c.map_size (max 1 c.m_max_size)) d (omega arith)
            u),
      inr (sym (i.mapped k) ∙ e, s),
    )
    finished (throw x) e u = absurd u
