-- ===== src/HashTable/Table/RoundTrip.antt =====
-- Each operation of the hash table of src/bees-hash.cc, and a find_cell that follows it.
use mathlib.Core.List.{append_assoc}
use native.Mathlib.Decide.{ℕ_discrete}
use bees.Base.{
  ℕ, ◌≤◌, ◌<◌, ◌≡◌, ◌≢◌, ap, ◌∙◌, ◌⊎◌, inl, inr, Bool, List, ◌∷◌, ◌++◌, arith, length, Outcome, ok,
}
use bees.HashTable.{Cell, empty_cell, cells_per_bucket}
use bees.HashTable.Bucket.{Pushed, erase, push_front, push_random, matching}
use bees.HashTable.Bucket.Front.{FrontEffect, push_front-FrontEffect}
use bees.HashTable.Bucket.Random.{RandomEffect, push_random-RandomEffect}
use bees.HashTable.Bucket.Count.{count, FrontEffect-length, RandomEffect-length}
use bees.HashTable.Bucket.Erase.{length-erase, count-erase}
use bees.HashTable.Table.{
  Bucket, Table, Pread, File, bucket_of, close_bucket, find_cell, push_front_hash_addr,
  push_random_hash_addr, erase_hash_addr,
}
use bees.HashTable.Table.Invariant.{IsTable, IsDisk, home, closed, open_bucket_lem}
use bees.HashTable.Table.Store.{Stored}
use bees.HashTable.Table.Lookup.{
  matching-append, matching-cons, count-matching, loaded, bucket, length-bucket, store_lem,
  find_cell-Stored,
}

abbrev pub entry : ℕ → ℕ → Cell
entry hash addr = record { e_hash = hash; e_addr = addr }

module _ (pread : Pread) (file : File) (d : IsDisk pread file) (t : Table) (v : IsTable t) where
  -- An operation that turns the bucket of `hash` into `cells` and reports `found`.
  abbrev Performs : ℕ → Outcome (Table × Bool) → Bucket → Bool → Type 0
  Performs hash run cells found =
      (t' : Table) × (run ≡ ok (t', found))
      × Stored (loaded pread file d t v hash) (home t hash) cells t'
      × (find_cell pread file t' hash ≡ ok (t', matching hash cells))

  performs :
      (hash : ℕ) (p : Pushed) (run : Outcome (Table × Bool))
      → length p.cells ≡ cells_per_bucket
      → run ≡ close_bucket (loaded pread file d t v hash) hash (home t hash) p
      → Performs hash run p.cells p.found
  performs hash p run n e =
      let (r, s) = store_lem pread file d t v hash p n in
      (
        closed (loaded pread file d t v hash) (home t hash) p,
        e ∙ r,
        s,
        find_cell-Stored pread file d t v hash p.cells _ s,
      )

  pub push_front-Performs :
      (hash addr : ℕ)
      → let p = push_front (entry hash addr) (bucket pread file d t v hash) in
        Performs hash (push_front_hash_addr pread file t hash addr) p.cells p.found
  unfolding push_front_hash_addr
  push_front-Performs hash addr =
      let xs = bucket pread file d t v hash in
      let n = length-bucket pread file d t v hash in
      performs hash (push_front (entry hash addr) xs) _
        (FrontEffect-length (push_front-FrontEffect (entry hash addr) xs (omega arith)) ∙ n)
        (rw (open_bucket_lem pread file d t v hash))

  pub push_random-Performs :
      (pos hash addr : ℕ)
      → pos < cells_per_bucket
      → let p = push_random (entry hash addr) pos (bucket pread file d t v hash) in
        Performs hash (push_random_hash_addr pread file pos t hash addr) p.cells p.found
  unfolding push_random_hash_addr
  push_random-Performs pos hash addr h =
      let xs = bucket pread file d t v hash in
      let n = length-bucket pread file d t v hash in
      performs hash (push_random (entry hash addr) pos xs) _
        (RandomEffect-length (push_random-RandomEffect (entry hash addr) pos xs (omega arith)) ∙ n)
        (rw (open_bucket_lem pread file d t v hash))

  pub erase-Performs :
      (hash addr : ℕ)
      → let p = erase (entry hash addr) (bucket pread file d t v hash) in
        Performs hash (erase_hash_addr pread file t hash addr) p.cells p.found
  unfolding erase_hash_addr
  erase-Performs hash addr =
      let xs = bucket pread file d t v hash in
      performs hash (erase (entry hash addr) xs) _
        (length-erase (entry hash addr) xs ∙ length-bucket pread file d t v hash)
        (rw (open_bucket_lem pread file d t v hash))

unchanged :
    {t : Table} {b : ℕ} {cells : Bucket} {t' : Table}
    → Stored t b cells t'
    → (b' : ℕ) → (b' ≡ b) ⊎ (bucket_of t' b' ≡ bucket_of t b')
unchanged {b = b} s b' = elim (ℕ_discrete b' b) [ yes e ↦ inl e | no e ↦ inr (s.elsewhere b' e) ]

pub front_head :
    {mv : Cell} {xs : List Cell} {p : Pushed}
    → FrontEffect mv xs p
    → (rest : List Cell) × (p.cells ≡ mv ∷ rest)
front_head (FrontEffect.moved ys zs p a c f) = (ys ++ zs, c)
front_head (FrontEffect.filled ys zs a p b c f) = (ys ++ zs, c)
front_head (FrontEffect.evicted ys z a b p c f) = (ys, c)

random_member :
    {mv : Cell} {pos : ℕ} {xs : List Cell} {p : Pushed}
    → RandomEffect mv pos xs p
    → (ys : List Cell) × (zs : List Cell) × (p.cells ≡ ys ++ mv ∷ zs)
random_member {mv} (RandomEffect.bumped ys ms zs p n a c f e) =
    (ys, ms ++ zs, c ∙ append_assoc ys (mv ∷ ms) zs)
random_member (RandomEffect.kept ys zs p n c f e) = (ys, zs, c ∙ p)
random_member (RandomEffect.filled ys zs a p c f e) = (ys, zs, c)
random_member (RandomEffect.evicted ys ms z a b p n c f e) = (ys, ms, c)

module _ (pread : Pread) (file : File) (d : IsDisk pread file) (t : Table) (v : IsTable t) where
  -- On a well-formed table and for an address of at least 0x1000, push_front_hash_addr returns and
  -- keeps the table well formed, the find_cell that follows returns the new entry first, and no
  -- other bucket changes.
  pub find_cell-push_front :
      (hash addr : ℕ)
      → 0x1000 ≤ addr
      → (t' : Table) × (found : Bool) × (rest : List Cell) × (push_front_hash_addr pread file t hash
            addr
          ≡ ok (t', found))
        × IsTable t'
        × (find_cell pread file t' hash ≡ ok (t', entry hash addr ∷ rest))
        × ((b : ℕ)
            → (b ≡ home t hash) ⊎ (bucket_of t' b ≡ bucket_of (loaded pread file d t v hash) b))
  find_cell-push_front hash addr h =
      let xs = bucket pread file d t v hash in
      let n = length-bucket pread file d t v hash in
      let c = entry hash addr in
      let (rest, e) = front_head (push_front-FrontEffect c xs (omega arith)) in
      let (t', run, s, found) = push_front-Performs pread file d t v hash addr in
      (
        t',
        (push_front c xs).found,
        matching hash rest,
        run,
        s.valid,
        found ∙ ap (λ (l : Bucket). ok (t', l)) (ap (matching hash) e ∙ matching-cons c rest h),
        unchanged s,
      )

  -- On a well-formed table, for an address of at least 0x1000 and a position inside the bucket,
  -- push_random_hash_addr returns and keeps the table well formed, the find_cell that follows
  -- returns the new entry among others, and no other bucket changes.
  pub find_cell-push_random :
      (pos hash addr : ℕ)
      → pos < cells_per_bucket
      → 0x1000 ≤ addr
      → (t' : Table) × (found : Bool) × (ys : List Cell) × (zs : List Cell) × (push_random_hash_addr
            pread file pos t hash addr
          ≡ ok (t', found))
        × IsTable t'
        × (find_cell pread file t' hash ≡ ok (t', ys ++ entry hash addr ∷ zs))
        × ((b : ℕ)
            → (b ≡ home t hash) ⊎ (bucket_of t' b ≡ bucket_of (loaded pread file d t v hash) b))
  find_cell-push_random pos hash addr k h =
      let xs = bucket pread file d t v hash in
      let n = length-bucket pread file d t v hash in
      let c = entry hash addr in
      let (ys, zs, e) = random_member (push_random-RandomEffect c pos xs (omega arith)) in
      let (t', run, s, found) = push_random-Performs pread file d t v pos hash addr k in
      (
        t',
        (push_random c pos xs).found,
        matching hash ys,
        matching hash zs,
        run,
        s.valid,
        found
            ∙ ap (λ (l : Bucket). ok (t', l))
                (ap (matching hash) e
                  ∙ matching-append hash ys (c ∷ zs)
                  ∙ ap (◌++◌ (matching hash ys)) (matching-cons c zs h)),
        unchanged s,
      )

  -- On a well-formed table, after erase_hash_addr of an entry with an address of at least 0x1000
  -- that its bucket holds at most once, find_cell of the hash does not return it, and no other
  -- bucket changes.
  pub find_cell-erase :
      (hash addr : ℕ)
      → 0x1000 ≤ addr
      → count (entry hash addr) (bucket pread file d t v hash) ≤ 1
      → (t' : Table) × (found : Bool) × (cells : List Cell) × (erase_hash_addr pread file t hash
            addr
          ≡ ok (t', found))
        × IsTable t'
        × (find_cell pread file t' hash ≡ ok (t', cells))
        × (count (entry hash addr) cells ≡ 0)
        × ((b : ℕ)
            → (b ≡ home t hash) ⊎ (bucket_of t' b ≡ bucket_of (loaded pread file d t v hash) b))
  find_cell-erase hash addr h n =
      let xs = bucket pread file d t v hash in
      let c = entry hash addr in
      let (t', run, s, found) = erase-Performs pread file d t v hash addr in
      let used : c ≢ empty_cell = λ e. omega (arith, ap (λ (x : Cell). x.e_addr) e) in
      (
        t',
        (erase c xs).found,
        matching hash (erase c xs).cells,
        run,
        s.valid,
        found,
        count-matching c hash (erase c xs).cells (count-erase c xs used n),
        unchanged s,
      )
