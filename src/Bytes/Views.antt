-- ===== src/Bytes/Views.antt =====
-- Parts of a ByteVector (lib/bytevector.cc) and the buffer that they stand in.
use bees.Base.{
  ℕ, ◌+◌, ◌-◌, ◌%◌, ◌^◌, ◌≤◌, ◌<◌, ◌≡◌, ◌⊎◌, inl, inr, refl, ap, ◌∙◌, true, false, none, some, List,
  [], length, get_or, set, get_or-set_self, arith, ltb, leb, ◌==◌, ==_iff, if◌then◌else◌, ok,
  Returns, Bool-cases,
}
use bees.Bytes.{Heap, Pointer, ByteVector, part, byte_at, write_at, erase}

abbrev pub buffer_of : Heap → Pointer → List ℕ
buffer_of h p = get_or h p.buffer []

-- The vector lies in its buffer, which malloc can have given.
abbrev pub IsView : Heap → ByteVector → Type 0
IsView h v = elim v.m_ptr [
  | none ↦ v.m_size ≡ 0
  | some p ↦ (p.offset + v.m_size ≤ length (buffer_of h p)) × (length (buffer_of h p) < 2 ^ 63)
]

abbrev pub view : Pointer → ℕ → ByteVector
view p n = record { m_ptr = some p; m_size = n }

module _ (h : Heap) (p : Pointer) (n : ℕ) where
  part_value :
      (start m : ℕ)
      → start ≤ n
      → n + m < 2 ^ 64
      → part (view p n) start m
        ≡ ok (record { m_ptr = some (record p { offset = p.offset + start }); m_size = m })
  unfolding part
  part_value start m l k =
      let t1 : leb start n ≡ true = ground arith in
      let t2 : leb ((start + m) % 2 ^ 64) ((n + m) % 2 ^ 64) ≡ true =
        let x : (start + m) % 2 ^ 64 ≡ start + m = omega arith in
        let y : (n + m) % 2 ^ 64 ≡ n + m = omega arith in rw (x, y) (ground arith) in
      rw (t1, t2) refl

  -- A part that ends within a vector that lies in its buffer is returned, lies in the buffer too,
  -- and has the bytes of the vector from its start on.
  pub part-IsView :
      (start m : ℕ)
      → IsView h (view p n)
      → start + m ≤ n
      → Returns
          (part (view p n) start m)
          (λ u. IsView h u × ((i : ℕ) → i < m → byte_at h u i ≡ byte_at h (view p n) (start + i)))
  unfolding byte_at
  part-IsView start m v l =
      let bound = v.0 in
      let small = v.1 in
      rw (part_value start m (omega arith) (omega arith)) (
        (omega arith, small),
        λ i k.
            let t1 : ltb i m ≡ true = ground arith in
            let t2 : ltb (start + i) n ≡ true = ground arith in
            let e : p.offset + start + i ≡ p.offset + (start + i) = omega arith in
            rw (t1, t2, e) refl,
      )

  -- Where the start lies in the vector and no sum wraps, the constructor of a part returns a
  -- vector that goes beyond its buffer, if the length is too long for it.
  pub part_beyond :
      (start m : ℕ)
      → start ≤ n
      → n + m < 2 ^ 64
      → length (buffer_of h p) < p.offset + start + m
      → Returns (part (view p n) start m) (λ u. IsView h u → ⊥)
  part_beyond start m l k beyond =
      rw (part_value start m l k) (λ v. let bound = v.0 in absurd (omega arith))

  -- A byte written through a vector that lies in its buffer is read through a part that ends
  -- within the vector, as both share the buffer.
  pub write_at-part :
      (start m i x : ℕ)
      → IsView h (view p n)
      → p.buffer < length h
      → start + m ≤ n
      → i < m
      → Returns
          (write_at h (view p n) (start + i) x)
          (λ after. Returns (part (view p n) start m) (λ u. byte_at after u i ≡ ok x))
  unfolding write_at byte_at
  write_at-part start m i x v here l k =
      let bound = v.0 in
      let small = v.1 in
      let t1 : ltb (start + i) n ≡ true = ground arith in
      let t2 : ltb i m ≡ true = ground arith in
      let e : p.offset + start + i ≡ p.offset + (start + i) = omega arith in
      let q = p.offset + (start + i) in
      let inside : q < length (buffer_of h p) = omega arith in
      rw t1 (
        rw (part_value start m (omega arith) (omega arith), t2, e)
          (ap ok (
            ap (λ b. get_or b q 0) (get_or-set_self h p.buffer (set (buffer_of h p) q x) [] here)
            ∙ get_or-set_self (buffer_of h p) q x 0 inside)))

  -- Erasing at least one byte at the begin or at the end of a vector that lies in its buffer, up
  -- to all of it, returns a vector that lies in the buffer, is shorter by as much and has the
  -- other bytes.
  pub erase-IsView :
      (from to : ℕ)
      → IsView h (view p n)
      → from < to
      → p.offset ≤ from
      → to ≤ p.offset + n
      → (from ≡ p.offset) ⊎ (to ≡ p.offset + n)
      → Returns (erase (view p n) from to) (λ u.
        IsView h u
        × (u.m_size + (to - from) ≡ n)
        × ((i : ℕ)
            → i < u.m_size
            → byte_at h u i
              ≡ byte_at h (view p n) (if from == p.offset then (to - from) + i else i)))
  unfolding erase byte_at
  erase-IsView from to v less low high ends =
      let bound = v.0 in
      let small = v.1 in
      let d = to - from in
      let w : (to + (2 ^ 64 - from)) % 2 ^ 64 ≡ d = omega arith in
      let z : (d == 0) ≡ false = ground arith in
      let m : (n + (2 ^ 64 - d)) % 2 ^ 64 ≡ n - d = omega arith in
      elim (Bool-cases (from == p.offset)) [
        | inl e ↦
            let here : from ≡ p.offset = (==_iff from p.offset).0 e in
            let f : (p.offset == from) ≡ true = ground arith in
            elim (Bool-cases (to == p.offset + n)) [
              | inl g ↦ rw (w, z, f, e, g) (refl, ground arith, λ i k. absurd (omega arith))
              | inr g ↦
                  rw (w, z, f, e, g, m)
                    (
                      (omega arith, small),
                      omega arith,
                      λ i k.
                          let t1 : ltb i (n - d) ≡ true = ground arith in
                          let t2 : ltb (d + i) n ≡ true = ground arith in
                          let q : p.offset + (d + i) ≡ to + i = ground arith in rw (t1, t2, q) refl,
                    )
            ]
        | inr e ↦
            let f : (p.offset == from) ≡ false = ground arith in
            let g : (p.offset + n == to) ≡ true = ground arith in
            rw (w, z, f, g, e, m)
              (
                (omega arith, small),
                omega arith,
                λ i k.
                    let t1 : ltb i (n - d) ≡ true = ground arith in
                    let t2 : ltb i n ≡ true = ground arith in rw (t1, t2) refl,
              )
      ]
