-- ===== src/Types.antt =====
-- inc/types.h: the rounding macros, on a `uint32_t`.
mod Tests
use sisop_tps.Prelude.{ℕ, ◌+◌, ◌-◌, ◌*◌, ◌/◌, ◌%◌, ◌≤◌, ◌<◌, ◌≡◌, refl, word, add32, sub32, arith}
use native.Mathlib.Nat.{
  mod-add-div', mul-mod_left, mul-le-mul_right, lt-div-mul-add, div-lt_iff_lt-mul,
}

unfoldable pub rounddown : ℕ → ℕ → ℕ
rounddown a n = a - a % n

-- `ROUNDUP`; the sum wraps
unfoldable pub roundup : ℕ → ℕ → ℕ
unfolding rounddown add32 sub32
roundup a n = rounddown (sub32 (add32 a n) 1) n

rounddown_lem : (a n : ℕ) → rounddown a n ≡ a / n * n
unfolding rounddown
rounddown_lem a n = omega (arith, mod-add-div' a n)

roundup-mul : (a n : ℕ) → 0 < n → a + n < word → roundup a n ≡ (a + n - 1) / n * n
unfolding roundup
roundup-mul a n p h =
    let sum : sub32 (add32 a n) 1 ≡ a + n - 1 = unfold add32 sub32 in omega arith in
    rw sum (rounddown_lem (a + n - 1) n)

-- Where the sum does not wrap, `ROUNDUP` is the least multiple of `n` that is not below `a`.
pub roundup_lem :
    (a n : ℕ)
    → 0 < n
    → a + n < word
    → (a ≤ roundup a n) × (roundup a n % n ≡ 0) × ((k : ℕ) → a ≤ k * n → roundup a n ≤ k * n)
roundup_lem a n p h =
    let q = (a + n - 1) / n in
    rw (roundup-mul a n p h) (
      omega (arith, lt-div-mul-add {a = a + n - 1} p),
      mul-mod_left q n,
      λ k b.
          let small : q < k + 1 =
            (div-lt_iff_lt-mul {x = a + n - 1} {y = k + 1} p).1 (omega arith) in
          mul-le-mul_right n (omega arith),
    )
