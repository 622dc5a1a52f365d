-- ===== src/Base/Words.antt =====
-- Single bits of an unsigned word, in the form that the arithmetic tactics read at a numeral.
use Prim.Native.Nat.{ℕ, ◌+◌, ◌-◌, ◌*◌, ◌/◌, ◌%◌, ◌^◌}
use mathlib.Core.Bool.{Bool}
use bees.Base.Tests.{◌==◌, if◌then◌else◌}

-- x & (1 << k), as a test
abbrev pub has_bit : ℕ → ℕ → Bool
has_bit x k = x / 2 ^ k % 2 == 1

-- x & ~(1 << k)
abbrev pub clear_bit : ℕ → ℕ → ℕ
clear_bit x k = x - x / 2 ^ k % 2 * 2 ^ k

-- x | (1 << k)
abbrev pub set_bit : ℕ → ℕ → ℕ
set_bit x k = if has_bit x k then x else x + 2 ^ k
