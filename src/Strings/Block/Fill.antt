-- ===== src/Strings/Block/Fill.antt =====
-- memset of lib/string.c: both the byte loop and the word loop fill the area with the low byte.
use sisop_tps.Prelude.{
  ℕ, zero, suc, ◌+◌, ◌-◌, ◌*◌, ◌/◌, ◌%◌, ◌^◌, ◌<◌, ◌≡◌, refl, ◌&&◌, true, bit_and, bit_or, ◌==◌,
  ==_iff, if◌then◌else◌, arith, all_below, all_below_sound, ◌∙◌, if_at, bit_and-ones,
}
use Prim.Native.Nat.mul
use sisop_tps.Memory.{Memory, inside}
use sisop_tps.Strings.Block.{stos, rep_stos, spread, memset}

-- the memory with `n` bytes `b` from `d`
abbrev pub filled : Memory → ℕ → ℕ → ℕ → Memory
filled m d b n q = if inside q d n then b else m q

-- the low byte as the mask takes it
low_byte : (c : ℕ) → bit_and c 0xff ≡ c % 256
low_byte c = bit_and-ones 8 c ∙ omega arith

spread_table :
    all_below 256
      (λ b. bit_or (bit_or (bit_or (b * 2 ^ 24) (b * 2 ^ 16)) (b * 2 ^ 8)) b == b * 0x1010101)
    ≡ true
unfolding all_below
spread_table = refl

spread_lem : (c : ℕ) → spread c ≡ (c % 256) * 0x1010101
unfolding spread
spread_lem c = rw low_byte (
    (==_iff _ _).0 (
      all_below_sound 256
        (λ b. bit_or (bit_or (bit_or (b * 2 ^ 24) (b * 2 ^ 16)) (b * 2 ^ 8)) b == b * 0x1010101)
        (c % 256) spread_table (omega arith)))

-- every byte of the spread word is `b`
spread_byte : (b i : ℕ) → b < 256 → i < 4 → b * 0x1010101 / 256 ^ i % 256 ≡ b
spread_byte b zero h l = omega arith
spread_byte b (suc zero) h l = omega arith
spread_byte b (suc (suc zero)) h l = omega arith
spread_byte b (suc (suc (suc zero))) h l = omega arith
spread_byte b (suc (suc (suc (suc i)))) h l = absurd (omega arith)

-- `n` bytes above a unit of `w` bytes, where `x` is what the unit holds and `y` what stood there
filled_step :
    (w n d q b x y : ℕ)
    → (q - d < w → x ≡ b)
    → (if inside q (d + w) n then b else if inside q d w then x else y)
      ≡ (if inside q d (w + n) then b else y)
filled_step w n d q b x y h = ground arith

-- A unit whose bytes are all `b`, stored `count` times, fills `count * w` bytes.
rep_stos_lem :
    (w v b count : ℕ) (m : Memory) (d q : ℕ)
    → ((i : ℕ) → i < w → v / 256 ^ i % 256 ≡ b)
    → rep_stos w v count m d q ≡ filled m d b (count * w) q
unfolding rep_stos
rep_stos_lem w v b zero m d q h = ground arith
rep_stos_lem w v b (suc count) m d q h = rep_stos_lem w v b count (stos w v m d) (d + w) q h ∙ step
  where
    step : filled (stos w v m d) (d + w) b (count * w) q ≡ filled m d b (suc count * w) q
    step = unfold stos in rw mul.suc (filled_step w (count * w) d q b _ (m q) (h (q - d)))

-- `memset` stores the low byte of `c` in each of the `n` bytes from `v`, whichever loop it takes, and
-- leaves all other bytes alone.
pub memset_lem : (m : Memory) (v c n q : ℕ) → memset m v c n q ≡ filled m v (c % 256) n q
unfolding memset
memset_lem m v c n q =
    if_at (n == 0) _ _ q _ (λ e. ground arith)
      (λ _.
        if_at (v % 4 == 0 && n % 4 == 0) _ _ q _
          (λ words.
            total 4 (spread c) (n / 4) (ground arith)
              (λ i l. rw spread_lem (spread_byte (c % 256) i (omega arith) l)))
          (λ _. total 1 c n (omega arith) one_byte))
  where
    total :
        (w x count : ℕ)
        → count * w ≡ n
        → ((i : ℕ) → i < w → x / 256 ^ i % 256 ≡ c % 256)
        → rep_stos w x count m v q ≡ filled m v (c % 256) n q
    total w x count e h = rw (← e) (rep_stos_lem w x (c % 256) count m v q h)

    one_byte : (i : ℕ) → i < 1 → c / 256 ^ i % 256 ≡ c % 256
    one_byte zero l = omega arith
    one_byte (suc i) l = absurd (omega arith)
