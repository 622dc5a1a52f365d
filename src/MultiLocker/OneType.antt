-- ===== src/MultiLocker/OneType.antt =====
-- Whatever the threads do, the handles of a MultiLocker (lib/multilock.cc) are of one type.
use bees.Base.{
  ℕ, ◌+◌, ◌-◌, ◌<◌, ◌≡◌, ◌⊎◌, inl, inr, refl, sym, ap, ◌∙◌, true, Option, none, some, List, [], ◌∷◌,
  ◌++◌, arith, ltb, ◌==◌, ==_iff, if◌then◌else◌, ok, Returns, Bool-cases,
}
use mathlib.Core.Path.{subst}
use bees.MultiLocker.{
  Counters, LockHandle, is_lock_available, insert_counter, counter_of, set_counter, put_lock,
  get_lock_private, destroy,
}

abbrev pub handle : ℕ → LockHandle
handle type = record { m_type = type; m_locked = true }

-- How many handles of a type there are; a handle is locked as long as it lives.
abbrev pub handles : ℕ → List ℕ → ℕ
handles type [] = 0
handles type (t ∷ ts) = (if type == t then 1 else 0) + handles type ts

-- The counters, and the types of the handles.
abbrev pub System : Type 0
System = Counters × List ℕ

pub data Step : System → System → Type 0 where
  gets :
      (type : ℕ) (c d : Counters) (h : LockHandle) (ts : List ℕ)
      → get_lock_private type c ≡ (d, some h)
      → Step (c, ts) (d, h.m_type ∷ ts)
  waits :
      (type : ℕ) (c d : Counters) (ts : List ℕ)
      → get_lock_private type c ≡ (d, none)
      → Step (c, ts) (d, ts)
  drops :
      (type : ℕ) (c d : Counters) (before after : List ℕ)
      → destroy (c, handle type) ≡ ok d
      → Step (c, before ++ type ∷ after) (d, before ++ after)

pub data Reachable : System → Type 0 where
  starts : Reachable ([], [])
  steps : (s t : System) → Reachable s → Step s t → Reachable t

-- Each counter counts the handles of its type, and only one is not 0.
pub record IsSystem (s : System) : Type 0 where
  pub counted : (type : ℕ) → counter_of type s.0 ≡ handles type s.1
  pub one_type : (a b : ℕ) → 0 < counter_of a s.0 → 0 < counter_of b s.0 → a ≡ b

insert_counter-counter_of :
    (type n : ℕ) (c : Counters) → counter_of n (insert_counter type c) ≡ counter_of n c
unfolding insert_counter
insert_counter-counter_of type n [] = ground arith
insert_counter-counter_of type n (i ∷ is) = elim (Bool-cases (type == i.0)) [
  | inl e ↦ rw e refl
  | inr e ↦ rw (e, insert_counter-counter_of type n is) refl
]

-- Whether there is an entry.
Entered : ℕ → Counters → Type 0
Entered type [] = ⊥
Entered type (i ∷ is) = (type ≡ i.0) ⊎ Entered type is

insert_counter-Entered : (type : ℕ) (c : Counters) → Entered type (insert_counter type c)
unfolding insert_counter Entered
insert_counter-Entered type [] = inl refl
insert_counter-Entered type (i ∷ is) = elim (Bool-cases (type == i.0)) [
  | inl e ↦ rw e (inl ((==_iff type i.0).0 e))
  | inr e ↦ rw e (inr (insert_counter-Entered type is))
]

set_counter-counter_of :
    (type v n : ℕ) (c : Counters)
    → Entered type c
    → counter_of n (set_counter type v c) ≡ (if n == type then v else counter_of n c)
unfolding set_counter Entered
set_counter-counter_of type v n [] h = absurd h
set_counter-counter_of type v n (i ∷ is) h = elim (Bool-cases (type == i.0)) [
  | inl e ↦ rw e (ground arith)
  | inr e ↦ elim h [
    | inl f ↦ absurd (ground arith)
    | inr l ↦ let rest = set_counter-counter_of type v n is l in rw e (ground arith)
  ]
]

available_lem :
    (type a : ℕ) (c : Counters) → is_lock_available type c ≡ true → 0 < counter_of a c → a ≡ type
unfolding is_lock_available
available_lem type a [] h p = absurd (omega arith)
available_lem type a (i ∷ is) h p = elim (Bool-cases (a == i.0)) [
  | inl e ↦ ground arith
  | inr e ↦ available_lem type a is (ground arith) (ground arith)
]

handles-append :
    (type : ℕ) (ts us : List ℕ) → handles type (ts ++ us) ≡ handles type ts + handles type us
handles-append type [] us = omega arith
handles-append type (t ∷ ts) us = omega (arith, handles-append type ts us)

handles_inside : (type : ℕ) (before after : List ℕ) → 0 < handles type (before ++ type ∷ after)
handles_inside type before after =
    let one : ◌≡◌ {A = ℕ} (if type == type then 1 else 0) 1 = ground arith in
    omega (arith, one, handles-append type before (type ∷ after))

-- What put_lock does to the counters, where there is a handle of the type.
put_lock-counter_of :
    (type : ℕ) (c : Counters)
    → 0 < counter_of type c
    → Returns (put_lock type c) (λ d.
      (n : ℕ) → counter_of n d ≡ (if n == type then counter_of type c - 1 else counter_of n c))
unfolding put_lock
put_lock-counter_of type c h =
    let same = insert_counter-counter_of type type c in
    let t : ltb 0 (counter_of type (insert_counter type c)) ≡ true = ground arith in
    rw t (λ n.
      let e = insert_counter-counter_of type n c in
      let f =
        set_counter-counter_of type (counter_of type (insert_counter type c) - 1) n
          (insert_counter type c) (insert_counter-Entered type c) in
      ground arith)

-- What the loop of get_lock does: it waits, or there is a new handle, and all others are of its type.
GetEffect : ℕ → Counters → Counters × Option LockHandle → Type 0
GetEffect type c (d, none) = (n : ℕ) → counter_of n d ≡ counter_of n c
GetEffect type c (d, some h) =
    (h ≡ handle type)
    × ((n : ℕ) → counter_of n d ≡ (if n == type then counter_of type c + 1 else counter_of n c))
    × ((n : ℕ) → 0 < counter_of n c → n ≡ type)

get_lock_private-GetEffect : (type : ℕ) (c : Counters) → GetEffect type c (get_lock_private type c)
unfolding get_lock_private GetEffect
get_lock_private-GetEffect type c =
    elim (Bool-cases (is_lock_available type (insert_counter type c))) [
      | inr e ↦ rw e (λ n. insert_counter-counter_of type n c)
      | inl e ↦ rw e (
        refl,
        λ n.
            let same = insert_counter-counter_of type type c in
            let others = insert_counter-counter_of type n c in
            let f =
              set_counter-counter_of type (counter_of type (insert_counter type c) + 1) n
                (insert_counter type c) (insert_counter-Entered type c) in
            ground arith,
        λ n p.
            available_lem type n (insert_counter type c) e
              (let o = insert_counter-counter_of type n c in omega arith),
      )
    ]

Step-IsSystem : (s t : System) → Step s t → IsSystem s → IsSystem t
unfolding GetEffect destroy
Step-IsSystem _ _ (gets type c d h ts e) i =
    let (f, g, k) = subst (GetEffect type c) e (get_lock_private-GetEffect type c) in
    let same : h.m_type ≡ type = ap (λ (x : LockHandle). x.m_type) f in
    record {
      counted = λ n. let x = i.counted n in let y = i.counted type in let z = g n in ground arith;
      one_type = λ a b p q.
          let x = g a in
          let y = g b in
          let u : a ≡ type = elim (Bool-cases (a == type)) [
            | inl v ↦ (==_iff a type).0 v
            | inr v ↦ k a (ground arith)
          ] in
          let w : b ≡ type = elim (Bool-cases (b == type)) [
            | inl v ↦ (==_iff b type).0 v
            | inr v ↦ k b (ground arith)
          ] in
          u ∙ sym w;
    }
Step-IsSystem _ _ (waits type c d ts e) i =
    let f = subst (GetEffect type c) e (get_lock_private-GetEffect type c) in
    record {
      counted = λ n. f n ∙ i.counted n;
      one_type =
          λ a b p q. i.one_type a b (let x = f a in omega arith) (let y = f b in omega arith);
    }
Step-IsSystem _ _ (drops type c d before after e) i =
    let here : 0 < counter_of type c =
      omega (arith, i.counted type, handles_inside type before after) in
    let f =
      subst
        (λ o. Returns o (λ d.
          (n : ℕ) → counter_of n d ≡ (if n == type then counter_of type c - 1 else counter_of n c)))
        e (put_lock-counter_of type c here) in
    record {
      counted = λ n.
          let x = i.counted n in
          let y = i.counted type in
          let z = f n in
          let u = handles-append n before (type ∷ after) in
          let v = handles-append n before after in ground arith;
      one_type =
          λ a b p q. let x = f a in let y = f b in i.one_type a b (ground arith) (ground arith);
    }

pub Reachable-IsSystem : (s : System) → Reachable s → IsSystem s
Reachable-IsSystem _ starts = record {
  counted = λ n. refl;
  one_type = λ a b p q. absurd (omega arith);
}
Reachable-IsSystem _ (steps s t r h) = Step-IsSystem s t h (Reachable-IsSystem s r)

-- Whatever the threads do, any two handles that live at once are of one type.
pub holders-OneType :
    (c : Counters) (a b : ℕ) (before between after : List ℕ)
    → Reachable (c, before ++ a ∷ (between ++ b ∷ after))
    → a ≡ b
holders-OneType c a b before between after r =
    let i = Reachable-IsSystem _ r in
    i.one_type a b (omega (arith, i.counted a, handles_inside a before (between ++ b ∷ after))) (
      omega (
        arith,
        i.counted b,
        handles-append b before (a ∷ (between ++ b ∷ after)),
        handles_inside b between after,
      ))
