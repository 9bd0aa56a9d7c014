-- ===== src/Strings/Strtol.antt =====
-- strtol of lib/string.c. `long` has 32 bits and wraps, as the source's comment says it does not
-- detect overflow. The result is the value and the end pointer.
pub mod Digits
use sisop_tps.Prelude.{
  ℕ, zero, suc, ◌+◌, ◌-◌, ◌*◌, ◌%◌, Bool, true, false, ◌&&◌, ◌||◌, Option, none, some, ◌==◌, leb,
  if◌then◌else◌, add32, sub32, sle, word,
}
use sisop_tps.Memory.{Memory}

-- `while (*s == ' ' || *s == '\t') s++;`
pub skip_blanks : ℕ → Memory → ℕ → Option ℕ
skip_blanks zero m s = none
skip_blanks (suc f) m s = elim (m s == b' ' || m s == b'\t') [
  | true ↦ skip_blanks f m (s + 1)
  | false ↦ some s
]

-- the new `s`, and `neg`
pub read_sign : Memory → ℕ → ℕ × Bool
read_sign m s =
    if m s == b'+' then (s + 1, false) else if m s == b'-' then (s + 1, true) else (s, false)

-- the new `s`, and the base
pub read_base : Memory → ℕ → ℕ → ℕ × ℕ
read_base m s base =
    if (base == 0 || base == 16) && (m s == b'0' && m (s + 1) == b'x')
    then (s + 2, 16)
    else if base == 0 && m s == b'0'
    then (s + 1, 8)
    else if base == 0
    then (s, 10)
    else (s, base)

-- the three ranges of digits
unfoldable pub digit_of : ℕ → Option ℕ
digit_of c =
    if leb b'0' c && leb c b'9'
    then some (c - b'0')
    else if leb b'a' c && leb c b'z'
    then some (c - b'a' + 10)
    else if leb b'A' c && leb c b'Z'
    then some (c - b'A' + 10)
    else none

-- `if (dig >= base) break;` included
abbrev pub accepts : ℕ → ℕ → Option ℕ
accepts base c = elim (digit_of c) [
  | none ↦ none
  | some dig ↦ if sle base dig then none else some dig
]

pub digits_loop : ℕ → Memory → ℕ → ℕ → ℕ → Option (ℕ × ℕ)
digits_loop zero m s base val = none
digits_loop (suc f) m s base val = elim (accepts base (m s)) [
  | none ↦ some (val, s)
  | some dig ↦ digits_loop f m (s + 1) base (add32 (val * base % word) dig)
]

abbrev pub negate_if : Bool → ℕ × ℕ → ℕ × ℕ
negate_if neg (val, s) = (if neg then sub32 0 val else val, s)

pub strtol : ℕ → Memory → ℕ → ℕ → Option (ℕ × ℕ)
strtol fuel m s base = elim (skip_blanks fuel m s) [
  | none ↦ none
  | some s₁ ↦
      let (s₂, neg) = read_sign m s₁ in
      let (s₃, base') = read_base m s₂ base in
      elim (digits_loop fuel m s₃ base' 0) [ none ↦ none | some r ↦ some (negate_if neg r) ]
]
