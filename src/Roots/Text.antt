-- ===== src/Roots/Text.antt =====
-- The text of the state file: split and from_hex (lib/string.cc), and what they and the program use of
-- the standard library, stoull and the stream's decimal numbers. A text is the list of its bytes.
use Prim.Native.Char.{code}
use Prim.Native.String.{String}
use bees.Base.{
  ℕ, zero, suc, ◌+◌, ◌-◌, ◌*◌, ◌/◌, ◌%◌, ◌^◌, Bool, true, false, ◌&&◌, ◌||◌, Option, none, some,
  List, [], ◌∷◌, ltb, leb, ◌==◌, if◌then◌else◌, Outcome, ok, throw, invalid_argument, out_of_range,
  ◌>>=◌,
}

abbrev pub Text : Type 0
Text = List ℕ

abbrev pub codes : String → Text
codes String.[] = []
codes (String.◌∷◌ c s) = code c ∷ codes s

abbrev pub space : ℕ
space = 32

abbrev pub newline : ℕ
newline = 10

-- ofs << n: the digits of n, the last one first put before `out`.
abbrev pub digits : ℕ → ℕ → Text → Text
digits zero n out = out
digits (suc fuel) n out = elim (ltb n 10) [
  | true ↦ (48 + n) ∷ out
  | false ↦ digits fuel (n / 10) ((48 + n % 10) ∷ out)
]

unfoldable pub print : ℕ → Text
print n = digits (suc n) n []

-- A word that is not empty is pushed to the result.
abbrev pub push_word : Text → List Text → List Text
push_word [] words = words
push_word (c ∷ word) words = (c ∷ word) ∷ words

-- The text up to the delimiter, and the words behind it.
abbrev pub first_word : ℕ → Text → Text × List Text
first_word delim [] = ([], [])
first_word delim (c ∷ s) =
    let r = first_word delim s in if c == delim then ([], push_word r.0 r.1) else (c ∷ r.0, r.1)

-- split, with a delimiter of one byte.
unfoldable pub split : ℕ → Text → List Text
split delim s = let r = first_word delim s in push_word r.0 r.1

-- isspace
abbrev pub is_space : ℕ → Bool
is_space c = (c == 32) || (leb 9 c && leb c 13)

abbrev pub skip_space : Text → Text
skip_space [] = []
skip_space (c ∷ s) = let rest = skip_space s in if is_space c then rest else c ∷ s

abbrev pub letter_value : ℕ → ℕ
letter_value c =
    if leb 48 c && leb c 57
    then c - 48
    else if leb 97 c && leb c 122
    then c - 87
    else if leb 65 c && leb c 90
    then c - 55
    else 36

abbrev pub digit_value : ℕ → ℕ → Option ℕ
digit_value base c = if ltb (letter_value c) base then some (letter_value c) else none

-- The digits that a text begins with, behind the number `n`.
abbrev pub more_digits : ℕ → ℕ → Text → ℕ
more_digits base n [] = n
more_digits base n (c ∷ s) = elim (digit_value base c) [
  | none ↦ n
  | some d ↦ more_digits base (n * base + d) s
]

abbrev pub hex_or_zero : Text → ℕ
hex_or_zero [] = 0
hex_or_zero (c ∷ s) = elim (digit_value 16 c) [ none ↦ 0 | some d ↦ more_digits 16 d s ]

-- Behind a zero: a hexadecimal number behind an x, or else an octal one.
abbrev pub after_zero : Text → ℕ
after_zero [] = 0
after_zero (c ∷ s) = if (c == 120) || (c == 88) then hex_or_zero s else more_digits 8 0 (c ∷ s)

-- A number without a sign, of any size.
abbrev pub magnitude : Text → Outcome ℕ
magnitude [] = throw invalid_argument
magnitude (c ∷ s) = if c == 48 then ok (after_zero s) else elim (digit_value 10 c) [
  | none ↦ throw invalid_argument
  | some d ↦ ok (more_digits 10 d s)
]

abbrev pub in_range : ℕ → Outcome ℕ
in_range n = if ltb n (2 ^ 64) then ok n else throw out_of_range

abbrev pub negated : Outcome ℕ → Outcome ℕ
negated (ok n) = ok ((2 ^ 64 - n) % 2 ^ 64)
negated (throw e) = throw e

abbrev pub signed : Text → Outcome ℕ
signed [] = throw invalid_argument
signed (c ∷ s) =
    if c == 43
    then magnitude s >>= in_range
    else if c == 45
    then negated (magnitude s >>= in_range)
    else magnitude (c ∷ s) >>= in_range

-- stoull(s, nullptr, 0)
unfoldable pub from_hex : Text → Outcome ℕ
from_hex s = signed (skip_space s)
