-- ===== src/Strings/Block.antt =====
-- lib/string.c, the block routines with ASM set: memset, memmove, memcpy. `rep stosb` and `rep stosl`
-- write units of 1 and 4 bytes, `rep movsb` and `rep movsl` read a whole unit before they write it.
pub mod Fill
pub mod Move
pub mod Plain
use sisop_tps.Prelude.{
  ℕ, zero, suc, ◌+◌, ◌-◌, ◌*◌, ◌/◌, ◌%◌, ◌^◌, ◌&&◌, bit_and, bit_or, ◌==◌, ltb, if◌then◌else◌,
}
use sisop_tps.Memory.{Memory, inside}

-- one `stos`: the `w` low bytes of `v`, little endian
pub stos : ℕ → ℕ → Memory → ℕ → Memory
stos w v m d q = if inside q d w then v / 256 ^ (q - d) % 256 else m q

-- `rep stos` with the direction flag clear
pub rep_stos : ℕ → ℕ → ℕ → Memory → ℕ → Memory
rep_stos w v zero m d = m
rep_stos w v (suc count) m d = rep_stos w v count (stos w v m d) (d + w)

-- `c &= 0xFF; c = (c<<24)|(c<<16)|(c<<8)|c;`
pub spread : ℕ → ℕ
spread c =
    let b = bit_and c 0xff in bit_or (bit_or (bit_or (b * 2 ^ 24) (b * 2 ^ 16)) (b * 2 ^ 8)) b

pub memset : Memory → ℕ → ℕ → ℕ → Memory
memset m v c n =
    if n == 0
    then m
    else if v % 4 == 0 && n % 4 == 0
    then rep_stos 4 (spread c) (n / 4) m v
    else rep_stos 1 c n m v

-- one `movs` of `w` bytes from `s` to `d`
pub movs : ℕ → Memory → ℕ → ℕ → Memory
movs w m d s q = if inside q d w then m (s + (q - d)) else m q

-- `rep movs` with the direction flag clear
pub rep_movs_up : ℕ → ℕ → Memory → ℕ → ℕ → Memory
rep_movs_up w zero m d s = m
rep_movs_up w (suc count) m d s = rep_movs_up w count (movs w m d s) (d + w) (s + w)

-- `rep movs` with the direction flag set
pub rep_movs_down : ℕ → ℕ → Memory → ℕ → ℕ → Memory
rep_movs_down w zero m d s = m
rep_movs_down w (suc count) m d s = rep_movs_down w count (movs w m d s) (d - w) (s - w)

pub memmove : Memory → ℕ → ℕ → ℕ → Memory
memmove m dst src n =
    let s = src + n in
    let d = dst + n in
    if ltb src dst && ltb dst (src + n)
    then if s % 4 == 0 && d % 4 == 0 && n % 4 == 0
      then rep_movs_down 4 (n / 4) m (d - 4) (s - 4)
      else rep_movs_down 1 n m (d - 1) (s - 1)
    else if src % 4 == 0 && dst % 4 == 0 && n % 4 == 0
    then rep_movs_up 4 (n / 4) m dst src
    else rep_movs_up 1 n m dst src

pub memcpy : Memory → ℕ → ℕ → ℕ → Memory
memcpy m dst src n = memmove m dst src n
