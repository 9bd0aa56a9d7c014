-- ===== src/Strings.antt =====
-- lib/string.c: the string routines. Memory is a function from addresses to bytes; a routine that
-- writes returns the new memory. A loop that only a NUL stops takes fuel, and is `none` when that
-- runs out; a loop that its size bounds recurs on the size.
pub mod Block
pub mod Strtol
pub mod Lengths
pub mod Copying
pub mod Comparing
mod Tests
use sisop_tps.Prelude.{
  ℕ, zero, suc, ◌+◌, ◌-◌, Bool, true, false, ◌&&◌, not, Option, none, some, ◌==◌, ltb,
  if◌then◌else◌, sub32,
}
use sisop_tps.Memory.{Memory, store}

-- `for (n = 0; *s != '\0'; s++) n++;`
strlen_loop : ℕ → Memory → ℕ → ℕ → Option ℕ
strlen_loop zero m s n = none
strlen_loop (suc f) m s n = elim (m s == 0) [
  | true ↦ some n
  | false ↦ strlen_loop f m (s + 1) (n + 1)
]

pub strlen : ℕ → Memory → ℕ → Option ℕ
strlen fuel m s = strlen_loop fuel m s 0

-- `for (n = 0; size > 0 && *s != '\0'; s++, size--) n++;`
strnlen_loop : ℕ → Memory → ℕ → ℕ → ℕ
strnlen_loop zero m s n = n
strnlen_loop (suc size) m s n = elim (m s == 0) [
  | true ↦ n
  | false ↦ strnlen_loop size m (s + 1) (n + 1)
]

pub strnlen : Memory → ℕ → ℕ → ℕ
strnlen m s size = strnlen_loop size m s 0

-- `while ((*dst++ = *src++) != '\0')`; `dst` itself is what the function returns
pub strcpy : ℕ → Memory → ℕ → ℕ → Option Memory
strcpy zero m dst src = none
strcpy (suc f) m dst src = elim (m src == 0) [
  | true ↦ some (store m dst (m src))
  | false ↦ strcpy f (store m dst (m src)) (dst + 1) (src + 1)
]

pub strcat : ℕ → Memory → ℕ → ℕ → Option Memory
strcat fuel m dst src = elim (strlen fuel m dst) [
  | none ↦ none
  | some len ↦ strcpy fuel m (dst + len) src
]

-- one round of the loop for each of the `size` cells
pub strncpy : ℕ → Memory → ℕ → ℕ → Memory
strncpy zero m dst src = m
strncpy (suc size) m dst src =
    strncpy size (store m dst (m src)) (dst + 1) (if m src == 0 then src else src + 1)

-- `while (--size > 0 && *src != '\0') *dst++ = *src++;`, entered with `size` one more than the
-- first argument; the final `dst` comes back beside the memory
strlcpy_loop : ℕ → Memory → ℕ → ℕ → Memory × ℕ
strlcpy_loop zero m dst src = (m, dst)
strlcpy_loop (suc room) m dst src = elim (m src == 0) [
  | true ↦ (m, dst)
  | false ↦ strlcpy_loop room (store m dst (m src)) (dst + 1) (src + 1)
]

-- the memory, and the number of bytes copied
pub strlcpy : Memory → ℕ → ℕ → ℕ → Memory × ℕ
strlcpy m dst src zero = (m, dst - dst)
strlcpy m dst src (suc room) =
    let (m', end) = strlcpy_loop room m dst src in (store m' end 0, end - dst)

-- the difference of two `unsigned char`s as an `int`
pub strcmp : ℕ → Memory → ℕ → ℕ → Option ℕ
strcmp zero m p q = none
strcmp (suc f) m p q = elim (not (m p == 0) && m p == m q) [
  | true ↦ strcmp f m (p + 1) (q + 1)
  | false ↦ some (sub32 (m p) (m q))
]

pub strncmp : Memory → ℕ → ℕ → ℕ → ℕ
strncmp m p q zero = 0
strncmp m p q (suc n) = elim (not (m p == 0) && m p == m q) [
  | true ↦ strncmp m (p + 1) (q + 1) n
  | false ↦ sub32 (m p) (m q)
]

-- The outer `none` is the end of the fuel, the inner one the null pointer.
pub strchr : ℕ → Memory → ℕ → ℕ → Option (Option ℕ)
strchr zero m s c = none
strchr (suc f) m s c = elim (m s == 0) [
  | true ↦ some none
  | false ↦ elim (m s == c) [ true ↦ some (some s) | false ↦ strchr f m (s + 1) c ]
]

pub strfind : ℕ → Memory → ℕ → ℕ → Option ℕ
strfind zero m s c = none
strfind (suc f) m s c = elim (m s == 0) [
  | true ↦ some s
  | false ↦ elim (m s == c) [ true ↦ some s | false ↦ strfind f m (s + 1) c ]
]

-- the two bytes of the first difference, as an `int`
pub memcmp : Memory → ℕ → ℕ → ℕ → ℕ
memcmp m p q zero = 0
memcmp m p q (suc n) = elim (m p == m q) [
  | true ↦ memcmp m (p + 1) (q + 1) n
  | false ↦ sub32 (m p) (m q)
]

-- `c` is the byte that the cast keeps
pub memfind : Memory → ℕ → ℕ → ℕ → ℕ
memfind m s c zero = s
memfind m s c (suc n) = elim (m s == c) [ true ↦ s | false ↦ memfind m (s + 1) c n ]
