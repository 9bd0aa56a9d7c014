-- ===== src/Segments/Assembly.antt =====
-- inc/mmu.h under __ASSEMBLER__: the bytes that SEG_NULL and SEG lay down in an assembly file.
use sisop_tps.Prelude.{
  ℕ, ◌+◌, ◌*◌, ◌/◌, ◌%◌, ◌^◌, ◌<◌, ◌≡◌, refl, ◌==◌, true, List, [], ◌∷◌, ◌++◌, bit_or, all_below,
  all_below_sound, ==→eq, arith,
}
use sisop_tps.Segments.{segdesc, seg, seg_null, packed}

-- `.word`, the low byte first
abbrev pub asm_word : ℕ → List ℕ
asm_word v = v % 2 ^ 8 ∷ v / 2 ^ 8 % 2 ^ 8 ∷ []

unfoldable pub asm_seg_null : List ℕ
asm_seg_null = asm_word 0 ++ asm_word 0 ++ (0 ∷ 0 ∷ 0 ∷ 0 ∷ [])

unfoldable pub asm_seg : ℕ → ℕ → ℕ → List ℕ
asm_seg type base lim =
    asm_word (lim / 2 ^ 12 % 2 ^ 16)
    ++ asm_word (base % 2 ^ 16)
    ++ (base / 2 ^ 16 % 2 ^ 8
        ∷ bit_or 0x90 type
        ∷ bit_or 0xc0 (lim / 2 ^ 28 % 2 ^ 4)
        ∷ base / 2 ^ 24 % 2 ^ 8
        ∷ [])

-- the number that bytes in memory are, the low one first
abbrev pub from_bytes : List ℕ → ℕ
from_bytes [] = 0
from_bytes (b ∷ bs) = b + 256 * from_bytes bs

access_table : all_below 16 (λ t. bit_or 0x90 t == 0x90 + t) ≡ true
unfolding all_below
access_table = refl

flags_table : all_below 16 (λ l. bit_or 0xc0 l == 0xc0 + l) ≡ true
unfolding all_below
flags_table = refl

-- For a type of 4 bits and a base and a limit of 32, the bytes that `SEG` and `SEG_NULL` lay down in an assembly file
-- are those of the descriptors that they make in C, for privilege level 0.
pub asm_seg-packed :
    (type base lim : ℕ)
    → type < 16
    → base < 2 ^ 32
    → lim < 2 ^ 32
    → (from_bytes (asm_seg type base lim) ≡ packed (seg type base lim 0))
      × (from_bytes asm_seg_null ≡ packed seg_null)
unfolding asm_seg asm_seg_null packed segdesc seg seg_null
asm_seg-packed type base lim t b l =
    let access : bit_or 0x90 type ≡ 0x90 + type =
      ==→eq _ _ (all_below_sound 16 (λ t. bit_or 0x90 t == 0x90 + t) type access_table t) in
    let high = lim / 2 ^ 28 % 2 ^ 4 in
    let flags : bit_or 0xc0 high ≡ 0xc0 + high =
      ==→eq _ _
        (all_below_sound 16 (λ l. bit_or 0xc0 l == 0xc0 + l) high flags_table (omega arith)) in
    (rw (access, flags) (omega arith), refl)
