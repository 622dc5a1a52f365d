-- ===== src/Base/Throws.antt =====
-- What a call of the program does: it returns, or it throws one of the exceptions of
-- THROW_CHECK and THROW_ERROR (include/crucible/error.h), or stops in an
-- assert or in a lock of a mutex that its own thread holds.
use mathlib.Core.Bool.{Bool, true, false}
use mathlib.Core.Path.{◌≡◌, refl}
use native.Mathlib.Omega.{arith}
use bees.Base.Tests.{if◌then◌else◌}

pub data Exception : Type 0 where
  invalid_argument out_of_range runtime_error system_error assertion_failure
        resource_deadlock_would_occur :
      Exception

pub data Outcome {ℓ} (A : Type ℓ) : Type ℓ where
  ok : A → Outcome A
  throw : Exception → Outcome A

infixl 5 ◌>>=◌ ◌>>◌
abbrev pub ◌>>=◌ {ℓ κ} : {A : Type ℓ} {B : Type κ} → Outcome A → (A → Outcome B) → Outcome B
ok a >>= f = f a
throw e >>= f = throw e

abbrev pub ◌>>◌ {ℓ} : {B : Type ℓ} → Outcome (Unit {0}) → Outcome B → Outcome B
m >> k = m >>= λ _. k

-- THROW_CHECK0 to THROW_CHECK4: the values only go into the message.
abbrev pub throw_check : Exception → Bool → Outcome (Unit {0})
throw_check e true = ok tt
throw_check e false = throw e

-- The call returns, and its value satisfies `P`.
abbrev pub Returns {ℓ} : {A : Type ℓ} → Outcome A → (A → Type 0) → Type 0
Returns (ok a) P = P a
Returns (throw e) P = ⊥

-- A call that returns well goes on well.
pub Returns-bind {ℓ κ} :
    {A : Type ℓ} {B : Type κ} (P : A → Type 0) (Q : B → Type 0) (m : Outcome A) (f : A → Outcome B)
    → Returns m P
    → ((a : A) → P a → Returns (f a) Q)
    → Returns (m >>= f) Q
Returns-bind P Q (ok a) f h k = k a h
Returns-bind P Q (throw e) f h k = absurd h

pub Returns-mono {ℓ} :
    {A : Type ℓ} (P Q : A → Type 0) (m : Outcome A)
    → ((a : A) → P a → Q a)
    → Returns m P
    → Returns m Q
Returns-mono P Q (ok a) f h = f a h
Returns-mono P Q (throw e) f h = h

-- The branches of a test that is known.
pub Returns-then {ℓ} :
    {A : Type ℓ} (P : A → Type 0) (b : Bool) (x y : Outcome A)
    → b ≡ true
    → Returns x P
    → Returns (if b then x else y) P
Returns-then P true x y e h = h
Returns-then P false x y e h = absurd (ground arith)

pub Returns-else {ℓ} :
    {A : Type ℓ} (P : A → Type 0) (b : Bool) (x y : Outcome A)
    → b ≡ false
    → Returns y P
    → Returns (if b then x else y) P
Returns-else P true x y e h = absurd (ground arith)
Returns-else P false x y e h = h

-- The call throws, or its value satisfies `P`.
abbrev pub Allows {ℓ} : {A : Type ℓ} → Outcome A → (A → Type 0) → Type 0
Allows (ok a) P = P a
Allows (throw e) P = Unit {0}

pub Allows-bind {ℓ κ} :
    {A : Type ℓ} {B : Type κ} (P : A → Type 0) (Q : B → Type 0) (m : Outcome A) (f : A → Outcome B)
    → Allows m P
    → ((a : A) → P a → Allows (f a) Q)
    → Allows (m >>= f) Q
Allows-bind P Q (ok a) f h k = k a h
Allows-bind P Q (throw e) f h k = tt

pub Allows-if {ℓ} :
    {A : Type ℓ} (P : A → Type 0) (b : Bool) (x y : Outcome A)
    → (b ≡ true → Allows x P)
    → (b ≡ false → Allows y P)
    → Allows (if b then x else y) P
Allows-if P true x y h k = h refl
Allows-if P false x y h k = k refl

pub Allows-check {ℓ} :
    {A : Type ℓ} (P : A → Type 0) (e : Exception) (b : Bool) (x : Outcome A)
    → (b ≡ true → Allows x P)
    → Allows (throw_check e b >> x) P
Allows-check P e true x h = h refl
Allows-check P e false x h = tt

pub Allows-mono {ℓ} :
    {A : Type ℓ} (P Q : A → Type 0) (m : Outcome A)
    → ((a : A) → P a → Q a)
    → Allows m P
    → Allows m Q
Allows-mono P Q (ok a) f h = f a h
Allows-mono P Q (throw e) f h = tt
