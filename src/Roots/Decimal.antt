-- ===== src/Roots/Decimal.antt =====
-- The decimal numbers of the state file (src/bees-roots.cc) are read back by from_hex (lib/string.cc).
use bees.Base.{
  ℕ, zero, suc, ◌+◌, ◌-◌, ◌*◌, ◌/◌, ◌%◌, ◌^◌, ◌≤◌, ◌<◌, ◌≡◌, refl, ap, sym, ◌∙◌, inl, inr, Bool,
  true, false, ◌&&◌, Option, none, some, [], ◌∷◌, All, ltb, leb, lt→ltb, ◌==◌, arith, Bool-cases,
  then_branch, else_branch, Outcome, ok, throw, ◌>>=◌, invalid_argument,
}
use mathlib.Core.Path.{subst}
use bees.Roots.Text.{
  Text, digits, print, letter_value, digit_value, more_digits, is_space, skip_space, magnitude,
  signed, in_range, from_hex,
}

abbrev pub IsDigit : ℕ → Type 0
IsDigit c = (48 ≤ c) × (c ≤ 57)

digit_lem : (c : ℕ) → IsDigit c → digit_value 10 c ≡ some (c - 48)
digit_lem c (h, k) =
    let a : (leb 48 c && leb c 57) ≡ true = ground arith in
    let v : letter_value c ≡ c - 48 = then_branch (leb 48 c && leb c 57) _ _ a in
    let b : ltb (letter_value c) 10 ≡ true = lt→ltb _ _ (omega (arith, v)) in
    then_branch (ltb (letter_value c) 10) _ _ b ∙ ap (λ n. some n) v

one_digit :
    (n c : ℕ) (s : Text)
    → IsDigit c
    → more_digits 10 n (c ∷ s) ≡ more_digits 10 (n * 10 + (c - 48)) s
one_digit n c s h =
    ap (λ (o : Option ℕ). elim o as (λ _. ℕ) [ none ↦ n | some d ↦ more_digits 10 (n * 10 + d) s ])
      (digit_lem c h)

-- The digits of a number: the first one is not 0, and they are read as the number.
record Printed (n : ℕ) (out text : Text) : Type 0 where
  first : ℕ
  others : Text
  text_is : text ≡ first ∷ others
  low : 49 ≤ first
  high : first ≤ 57
  read : more_digits 10 (first - 48) others ≡ more_digits 10 n out

last_digit : (fuel n : ℕ) (out : Text) → ltb n 10 ≡ true → digits (suc fuel) n out ≡ (48 + n) ∷ out
last_digit fuel n out e =
    ap
      (λ (b : Bool). elim b as (λ _. Text) [
        | true ↦ (48 + n) ∷ out
        | false ↦ digits fuel (n / 10) ((48 + n % 10) ∷ out)
      ])
      e

next_digit :
    (fuel n : ℕ) (out : Text)
    → ltb n 10 ≡ false
    → digits (suc fuel) n out ≡ digits fuel (n / 10) ((48 + n % 10) ∷ out)
next_digit fuel n out e =
    ap
      (λ (b : Bool). elim b as (λ _. Text) [
        | true ↦ (48 + n) ∷ out
        | false ↦ digits fuel (n / 10) ((48 + n % 10) ∷ out)
      ])
      e

digits-Printed : (fuel n : ℕ) (out : Text) → n < fuel → 0 < n → Printed n out (digits fuel n out)
digits-Printed zero n out h p = absurd (omega (arith, h))
digits-Printed (suc fuel) n out h p = elim (Bool-cases (ltb n 10)) [
  | inl e ↦
      let small : n < 10 = ground arith in
      subst (Printed n out) (sym (last_digit fuel n out e)) (record {
        first = 48 + n;
        others = out;
        text_is = refl;
        low = omega (arith, p);
        high = omega (arith, small);
        read = ap (λ m. more_digits 10 m out) (omega arith);
      })
  | inr e ↦
      let big : 10 ≤ n = ground arith in
      let c = 48 + n % 10 in
      let r = digits-Printed fuel (n / 10) (c ∷ out) (omega (arith, h, big)) (omega (arith, big)) in
      subst (Printed n out) (sym (next_digit fuel n out e)) (record {
        first = r.first;
        others = r.others;
        text_is = r.text_is;
        low = r.low;
        high = r.high;
        read =
            r.read
            ∙ (one_digit (n / 10) c out (omega arith, omega arith)
                ∙ ap (λ m. more_digits 10 m out) (omega arith));
      })
]

-- All bytes of a number are digits.
pub digits-IsDigit : (fuel n : ℕ) (out : Text) → All IsDigit out → All IsDigit (digits fuel n out)
digits-IsDigit zero n out h = h
digits-IsDigit (suc fuel) n out h = elim (Bool-cases (ltb n 10)) [
  | inl e ↦
      subst (All IsDigit) (sym (last_digit fuel n out e))
        ((omega arith, let k : n < 10 = ground arith in omega (arith, k)), h)
  | inr e ↦
      subst (All IsDigit) (sym (next_digit fuel n out e))
        (digits-IsDigit fuel (n / 10) ((48 + n % 10) ∷ out) ((omega arith, omega arith), h))
]

pub print-IsDigit : (n : ℕ) → All IsDigit (print n)
unfolding print
print-IsDigit n = digits-IsDigit (suc n) n [] tt

-- A number in decimal, not beginning with 0, is read as such.
from_hex_decimal :
    (c n : ℕ) (s : Text)
    → 49 ≤ c
    → c ≤ 57
    → more_digits 10 (c - 48) s ≡ n
    → n < 2 ^ 64
    → from_hex (c ∷ s) ≡ ok n
unfolding from_hex
from_hex_decimal c n s h k e fits =
    let blank : is_space c ≡ false = ground arith in
    let zero : (c == 48) ≡ false = ground arith in
    let plus : (c == 43) ≡ false = ground arith in
    let minus : (c == 45) ≡ false = ground arith in
    let size : magnitude (c ∷ s) ≡ ok n =
      else_branch (c == 48) _ _ zero
      ∙ (ap
            (λ (o : Option ℕ). elim o as (λ _. Outcome ℕ) [
              | none ↦ throw invalid_argument
              | some d ↦ ok (more_digits 10 d s)
            ])
            (digit_lem c (omega (arith, h), k))
          ∙ ap (λ m. ok m) e) in
    ap signed (else_branch (is_space c) (skip_space s) (c ∷ s) blank)
    ∙ (else_branch (c == 43) _ _ plus
        ∙ (else_branch (c == 45) _ _ minus
            ∙ (ap (λ o. o >>= in_range) size
                ∙ then_branch (ltb n (2 ^ 64)) (ok n) _ (lt→ltb _ _ fits))))

from_hex_zero : from_hex (48 ∷ []) ≡ ok 0
unfolding from_hex
from_hex_zero = refl

pub from_hex-print : (n : ℕ) → n < 2 ^ 64 → from_hex (print n) ≡ ok n
unfolding print
from_hex-print zero h = from_hex_zero
from_hex-print (suc n) h =
    let p = digits-Printed (suc (suc n)) (suc n) [] (omega arith) (omega arith) in
    ap from_hex p.text_is ∙ from_hex_decimal p.first (suc n) p.others p.low p.high p.read h
