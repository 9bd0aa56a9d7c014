-- ===== src/Strings/Block/Plain.antt =====
-- lib/string.c, the block routines without ASM, in C: memset and memmove behind the `#else`.
pub mod Same
use sisop_tps.Prelude.{
  ℕ, zero, suc, ◌+◌, ◌-◌, ◌%◌, true, false, ◌&&◌, ltb, if◌then◌else◌, sub32, sle, word,
}
use sisop_tps.Prelude.Run.{Run, done, no_fuel}
use sisop_tps.Memory.{Memory, store}

-- `while (--m >= 0) *p++ = c;` with `m` an `int`
unfoldable pub plain_set_loop : ℕ → ℕ → Memory → ℕ → ℕ → Run Memory
plain_set_loop zero count m p c = no_fuel
plain_set_loop (suc f) count m p c =
    let count' = sub32 count 1 in
    elim (sle 0 count') [ true ↦ plain_set_loop f count' (store m p c) (p + 1) c | false ↦ done m ]

-- `m = n` takes the low 32 bits of the size.
unfoldable pub plain_memset : Memory → ℕ → ℕ → ℕ → Run Memory
plain_memset m v c n = plain_set_loop (n + 1) (n % word) m v c

-- `while (n-- > 0) *--d = *--s;`
unfoldable pub plain_copy_down : ℕ → Memory → ℕ → ℕ → Memory
plain_copy_down zero m d s = m
plain_copy_down (suc n) m d s = plain_copy_down n (store m (d - 1) (m (s - 1))) (d - 1) (s - 1)

-- `while (n-- > 0) *d++ = *s++;`
unfoldable pub plain_copy_up : ℕ → Memory → ℕ → ℕ → Memory
plain_copy_up zero m d s = m
plain_copy_up (suc n) m d s = plain_copy_up n (store m d (m s)) (d + 1) (s + 1)

unfoldable pub plain_memmove : Memory → ℕ → ℕ → ℕ → Memory
plain_memmove m dst src n =
    if ltb src dst && ltb dst (src + n)
    then plain_copy_down n m (dst + n) (src + n)
    else plain_copy_up n m dst src
