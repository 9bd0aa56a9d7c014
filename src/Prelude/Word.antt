-- ===== src/Prelude/Word.antt =====
-- Fixed-width integers of the C code (inc/types.h). A 32-bit value, signed or not, is its bit
-- pattern, a number below 2 ^ 32; signed comparisons shift both sides by 2 ^ 31 first.
use Prim.Native.Nat.{ℕ, ◌+◌, ◌-◌, ◌%◌, ◌^◌, ◌≤◌, ◌<◌}
use mathlib.Core.Path.{◌≡◌}
use mathlib.Core.Bool.{Bool, true}
use native.Mathlib.Omega.{arith}
use sisop_tps.Prelude.Tests.{ltb, leb, if◌then◌else◌}

abbrev pub word : ℕ
word = 0x1_0000_0000

abbrev pub half_word : ℕ
half_word = 0x8000_0000

unfoldable pub add32 : ℕ → ℕ → ℕ
add32 a b = (a + b) % word

unfoldable pub sub32 : ℕ → ℕ → ℕ
sub32 a b = (a + (word - b % word)) % word

-- `-x` at 64 bits
unfoldable pub neg64 : ℕ → ℕ
neg64 a = (2 ^ 64 - a) % 2 ^ 64

abbrev pub bias : ℕ → ℕ
bias a = (a + half_word) % word

-- `a < b` and `a <= b` on `int`
abbrev pub slt : ℕ → ℕ → Bool
slt a b = ltb (bias a) (bias b)

abbrev pub sle : ℕ → ℕ → Bool
sle a b = leb (bias a) (bias b)

-- a `char` (signed on this target) promoted to `int`
abbrev pub sign_extend8 : ℕ → ℕ
sign_extend8 c = if ltb c 128 then c else c + 0xffff_ff00

pub add32_exact : (a b : ℕ) → a + b < word → add32 a b ≡ a + b
unfolding add32
add32_exact a b h = omega arith

pub sub32_exact : (a b : ℕ) → a < word → b ≤ a → sub32 a b ≡ a - b
unfolding sub32
sub32_exact a b h k = omega arith

-- On values that are not negative the signed order is that of the numbers.
pub slt_small : (a b : ℕ) → a < half_word → b < half_word → slt a b ≡ ltb a b
slt_small a b h k = ground arith

-- A pattern from 2 ^ 31 on is negative.
pub slt_neg : (a : ℕ) → half_word ≤ a → a < word → slt a 0 ≡ true
slt_neg a h k = ground arith
