-- ===== src/Prelude/Bits.antt =====
-- Facts about the bit operations at variables.
use Prim.Native.Nat.{
  ℕ, zero, suc, ◌+◌, ◌*◌, ◌/◌, ◌%◌, ◌≤◌, ◌<◌, min, max, bit_and, bit_or, bit_or-bitwise, digits,
  bit_and-bitwise,
}
use mathlib.Core.Path.{◌≡◌, ◌∙◌, refl, ap}
use mathlib.Core.Bool.{Bool, true, ◌&&◌}
use native.Mathlib.Omega.{arith}

-- Over a small range, every value is checked by evaluation.
unfoldable pub all_below : ℕ → (ℕ → Bool) → Bool
all_below (suc limit) test = all_below limit test && test limit
all_below zero test = true

pub all_below_sound :
    (limit : ℕ) (test : ℕ → Bool) (value : ℕ)
    → all_below limit test ≡ true
    → value < limit
    → test value ≡ true
unfolding all_below
all_below_sound (suc limit) test value passed l = ground (arith, all_below_sound limit test value)
all_below_sound zero test value passed l = absurd (omega arith)

-- Digit by digit, by any rule for two digits, more fuel than the first number changes nothing.
module _ (rest : ℕ → ℕ) (rule : ℕ → ℕ → ℕ) where
  digits_enough :
      (x y limit bound : ℕ)
      → x ≤ limit
      → x ≤ bound
      → digits rest rule limit x y ≡ digits rest rule bound x y
  digits_enough (suc x) y (suc limit) (suc bound) u v =
      let halves = digits_enough (suc x / 2) (y / 2) limit bound (omega arith) (omega arith) in
      ap (λ high. high * 2 + rule (suc x % 2) (y % 2)) halves
  digits_enough (suc x) y zero bound u v = absurd (omega arith)
  digits_enough (suc x) y (suc limit) zero u v = absurd (omega arith)
  digits_enough zero y zero zero u v = refl
  digits_enough zero y zero (suc bound) u v = refl
  digits_enough zero y (suc limit) zero u v = refl
  digits_enough zero y (suc limit) (suc bound) u v = refl

-- the lowest binary digit of a conjunction apart from the others
pub bit_and_step : (x y : ℕ) → bit_and x y ≡ bit_and (x / 2) (y / 2) * 2 + min (x % 2) (y % 2)
bit_and_step zero y = omega (arith, bit_and-bitwise 0 (y / 2), bit_and-bitwise 0 y)
bit_and_step (suc x) y =
    let h : ℕ = suc x / 2 in
    let same = digits_enough (λ _. zero) min h (y / 2) x h (omega arith) (omega arith) in
    omega (arith, same, bit_and-bitwise h (y / 2), bit_and-bitwise (suc x) y)

no_bits : (limit x : ℕ) → x ≤ limit → bit_and x 0 ≡ 0
no_bits limit zero u = refl
no_bits (suc limit) (suc x) u =
    let halves = no_bits limit (suc x / 2) (omega arith) in
    omega (arith, halves, bit_and_step (suc x) 0)
no_bits zero (suc x) u = absurd (omega arith)

pub bit_and-zero : (x : ℕ) → bit_and x 0 ≡ 0
bit_and-zero x = no_bits x x (omega arith)

pub bit_and-one : (x : ℕ) → bit_and x 1 ≡ x % 2
bit_and-one x = omega (arith, bit_and-zero (x / 2), bit_and_step x 1)

-- `k` ones, and the `k` low bits
abbrev pub ones : ℕ → ℕ
ones zero = 0
ones (suc k) = ones k * 2 + 1

abbrev pub low_bits : ℕ → ℕ → ℕ
low_bits zero x = 0
low_bits (suc k) x = low_bits k (x / 2) * 2 + x % 2

-- A mask of `k` ones keeps the `k` low bits.
pub bit_and-ones : (k x : ℕ) → bit_and x (ones k) ≡ low_bits k x
bit_and-ones zero x = bit_and-zero x
bit_and-ones (suc k) x =
    let half : (ones k * 2 + 1) / 2 ≡ ones k = omega arith in
    bit_and_step x (ones (suc k)) ∙ rw half (omega (arith, bit_and-ones k (x / 2)))

-- The complement mask: `k` zeros below `n` ones.
abbrev pub ones_above : ℕ → ℕ → ℕ
ones_above n zero = ones n
ones_above n (suc k) = ones_above n k * 2

abbrev pub high_bits : ℕ → ℕ → ℕ → ℕ
high_bits n zero x = low_bits n x
high_bits n (suc k) x = high_bits n k (x / 2) * 2

pub bit_and-ones_above : (n k x : ℕ) → bit_and x (ones_above n k) ≡ high_bits n k x
bit_and-ones_above n zero x = bit_and-ones n x
bit_and-ones_above n (suc k) x =
    let half : (ones_above n k * 2) / 2 ≡ ones_above n k = omega arith in
    bit_and_step x (ones_above n (suc k)) ∙ rw half (omega (arith, bit_and-ones_above n k (x / 2)))

-- the lowest binary digit of a disjunction apart from the others
bit_or_step : (x y : ℕ) → bit_or x y ≡ bit_or (x / 2) (y / 2) * 2 + max (x % 2) (y % 2)
bit_or_step zero y = omega (arith, bit_or-bitwise 0 (y / 2), bit_or-bitwise 0 y)
bit_or_step (suc x) y =
    let h : ℕ = suc x / 2 in
    let same = digits_enough (λ z. z) max h (y / 2) x h (omega arith) (omega arith) in
    omega (arith, same, bit_or-bitwise h (y / 2), bit_or-bitwise (suc x) y)

all_bits : (limit x : ℕ) → x ≤ limit → bit_or x 0 ≡ x
all_bits limit zero u = bit_or-bitwise 0 0
all_bits (suc limit) (suc x) u =
    let halves = all_bits limit (suc x / 2) (omega arith) in
    omega (arith, halves, bit_or_step (suc x) 0)
all_bits zero (suc x) u = absurd (omega arith)

-- `x << k`, by doubling
abbrev pub shifted : ℕ → ℕ → ℕ
shifted zero x = x
shifted (suc k) x = shifted k x * 2

-- Bits below a shifted number are added to it.
pub bit_or-shifted : (k x o : ℕ) → o < shifted k 1 → bit_or (shifted k x) o ≡ shifted k x + o
bit_or-shifted zero x o h =
    let z : o ≡ 0 = omega arith in rw z (all_bits x x (omega arith) ∙ omega arith)
bit_or-shifted (suc k) x o h =
    let half : (shifted k x * 2) / 2 ≡ shifted k x = omega arith in
    bit_or_step (shifted (suc k) x) o
    ∙ rw half (omega (arith, bit_or-shifted k x (o / 2) (omega arith)))
