-- ===== src/Cache/Tests.antt =====
-- An LRUCache with room for two entries.
use bees.Base.{
  none, some, arith, ◌==◌, if◌then◌else◌, ℕ, ◌*◌, ◌≡◌, refl, List, [], ◌∷◌, Outcome, ok, Returns,
  ◌>>=◌,
}
use bees.Cache.{
  Node, Cache, new_cache, insert_item, find_item, finish_insert, recent_use, check_overflow,
  overflow, map_erase, map_insert,
}
use bees.Cache.Coherent.{IsCache}
use bees.Cache.{expire}
use bees.Cache.Expire.{Without, expire-Without}
use bees.Cache.Use.{Served, insert_item-Served}

abbrev square : ℕ → Outcome ℕ
square k = ok (k * k)

-- After 3 and 4 the third key evicts the coldest, which is 4 as 3 was used again.
abbrev keys_after : List ℕ → Cache → Outcome (List ℕ)
keys_after [] c = ok (keys c.m_list)
  where
    keys : List Node → List ℕ
    keys [] = []
    keys (x ∷ xs) = x.key ∷ keys xs
keys_after (k ∷ ks) c = insert_item square k c >>= λ r. keys_after ks r.0

eviction : keys_after (3 ∷ 4 ∷ 3 ∷ 5 ∷ []) (new_cache 2) ≡ ok (3 ∷ 5 ∷ [])
unfolding insert_item find_item finish_insert recent_use check_overflow overflow map_erase
    map_insert
eviction = refl

-- The key 3 is cached, with a result that the function does not give.
abbrev warm : Cache
warm = record {
  m_list = record { node = 0; key = 3; ret = 10 } ∷ record { node = 1; key = 4; ret = 16 } ∷ [];
  m_map = λ k. if k == 3 then some 0 else if k == 4 then some 1 else none;
  map_size = 2;
  m_max_size = 2;
  node_count = 2;
}

warm-IsCache : IsCache warm
warm-IsCache = record {
  distinct = (((λ e. absurd (omega arith), λ e. absurd (omega arith)), tt), (tt, tt));
  numbered = (omega arith, (omega arith, tt));
  mapped = λ k. refl;
  counted = refl;
}

insert_item-Served_example : Returns (insert_item square 3 warm) (Served 3 9 warm)
insert_item-Served_example = insert_item-Served square 3 9 warm warm-IsCache refl

expire-Without_example : Without 3 warm (expire 3 warm)
expire-Without_example = expire-Without 3 warm warm-IsCache
