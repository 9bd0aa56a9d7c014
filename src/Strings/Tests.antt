-- ===== src/Strings/Tests.antt =====
-- The functions of lib/string.c at work: instances of what is proved of them.
use sisop_tps.Prelude.{
  ℕ, ◌+◌, ◌%◌, ◌≡◌, inl, refl, true, List, [], ◌∷◌, ◌++◌, some, ◌==◌, if◌then◌else◌, take, min,
  word, arith,
}
use sisop_tps.Memory.{Memory, Holds, IsBytes, copied}
use sisop_tps.Strings.{strcat, strlcpy, strcmp}
use sisop_tps.Strings.Block.{memset, memmove}
use sisop_tps.Prelude.Run.{done}
use sisop_tps.Strings.Block.Plain.{plain_memmove, plain_memset}
use sisop_tps.Strings.Block.Plain.Same.{plain_memmove-memmove}
use sisop_tps.Strings.Block.Fill.{filled, memset_lem}
use sisop_tps.Strings.Block.Move.{memmove_lem}
use sisop_tps.Strings.Copying.{Writes, strcat-Writes, strlcpy-Writes}
use sisop_tps.Strings.Comparing.{IsText, Orders, strcmp-Orders}
use sisop_tps.Strings.Strtol.{strtol}
use sisop_tps.Strings.Strtol.Digits.{value_from, signed, strtol_decimal}

-- `key` at 100, `kit` at 200, `-47` at 300, each terminated
abbrev cells : Memory
cells p =
    if p == 100
    then b'k'
    else if p == 101
    then b'e'
    else if p == 102
    then b'y'
    else if p == 200
    then b'k'
    else if p == 201
    then b'i'
    else if p == 202
    then b't'
    else if p == 300
    then b'-'
    else if p == 301
    then b'4'
    else if p == 302
    then b'7'
    else 0

abbrev key : List ℕ
key = b'k' ∷ b'e' ∷ b'y' ∷ []

abbrev kit : List ℕ
kit = b'k' ∷ b'i' ∷ b't' ∷ []

cells-IsBytes : IsBytes cells
cells-IsBytes p = ground arith

key-Holds : Holds cells 100 key
key-Holds = (refl, (λ e. omega arith), (refl, (λ e. omega arith), (refl, (λ e. omega arith), refl)))

kit-Holds : Holds cells 200 kit
kit-Holds = (refl, (λ e. omega arith), (refl, (λ e. omega arith), (refl, (λ e. omega arith), refl)))

key-IsText : IsText key
key-IsText = (
  ((λ e. omega arith), omega arith),
  (((λ e. omega arith), omega arith), (((λ e. omega arith), omega arith), tt)),
)

kit-IsText : IsText kit
kit-IsText = (
  ((λ e. omega arith), omega arith),
  (((λ e. omega arith), omega arith), (((λ e. omega arith), omega arith), tt)),
)

memmove_lem_example : memmove cells 102 100 3 104 ≡ copied cells 102 100 3 104
memmove_lem_example = memmove_lem cells 102 100 3 104

memset_lem_example : memset cells 100 0x141 8 107 ≡ filled cells 100 0x41 8 107
memset_lem_example = memset_lem cells 100 0x141 8 107

plain_memmove-memmove_example :
    (plain_memmove cells 102 100 3 ≡ memmove cells 102 100 3)
    × (plain_memset cells 102 0x141 3 ≡ done (memset cells 102 0x141 3))
plain_memmove-memmove_example =
    plain_memmove-memmove cells 102 100 3 0x141 3 cells-IsBytes (omega arith)

strcat-Writes_example :
    (m' : Memory) × (strcat 4 cells 100 200 ≡ some m')
    × Holds m' 100 (key ++ kit)
    × Writes cells m' 103 4 kit
strcat-Writes_example =
    strcat-Writes key kit 4 cells 100 200 key-Holds kit-Holds cells-IsBytes (inl (omega arith))
      (omega arith) (omega arith)

strlcpy-Writes_example :
    ((strlcpy cells 97 100 3).1 ≡ min 3 2)
    × Writes cells (strlcpy cells 97 100 3).0 97 3 (take 2 key)
strlcpy-Writes_example =
    strlcpy-Writes key 2 cells 97 100 key-Holds cells-IsBytes (inl (omega arith))

strcmp-Orders_example : (r : ℕ) × (strcmp 4 cells 100 200 ≡ some r) × Orders r key kit
strcmp-Orders_example =
    strcmp-Orders cells key kit 4 100 200 key-IsText kit-IsText key-Holds kit-Holds (omega arith)

strtol_decimal_example :
    strtol 3 cells 300 10 ≡ some (signed true (value_from 10 0 (4 ∷ 7 ∷ []) % word), 300 + 3)
strtol_decimal_example =
    strtol_decimal cells true (4 ∷ 7 ∷ []) 3 300 (refl, (refl, (refl, tt))) (omega arith) (λ e. cc)
      (inl (omega arith)) (omega arith)
