-- ===== src/Strings/Block/Plain/Same.antt =====
-- The block routines of lib/string.c without ASM do what those with ASM do.
use sisop_tps.Prelude.{
  ℕ, zero, suc, ◌+◌, ◌-◌, ◌%◌, ◌≤◌, ◌<◌, ◌≡◌, ◌⊎◌, ◌∙◌, sym, ap, refl, true, false, inl, inr, ◌&&◌,
  ltb, sle, sub32, sub32_exact, half_word, word, if_at, arith,
}
use sisop_tps.Prelude.Run.{done}
use sisop_tps.Memory.{Memory, store, copied, IsBytes}
use sisop_tps.Strings.Block.{memset, memmove}
use sisop_tps.Strings.Block.Fill.{filled, memset_lem}
use sisop_tps.Strings.Block.Move.{memmove_lem}
use sisop_tps.Strings.Block.Plain.{
  plain_set_loop, plain_memset, plain_copy_down, plain_copy_up, plain_memmove,
}

store-filled :
    (m : Memory) (p c n q : ℕ)
    → filled (store m p c) (p + 1) (c % 256) n q ≡ filled m p (c % 256) (suc n) q
store-filled m p c n q = ground arith

nothing-filled : (m : Memory) (p c q : ℕ) → m q ≡ filled m p (c % 256) 0 q
nothing-filled m p c q = ground arith

plain_set_loop_lem :
    (f n : ℕ) (m : Memory) (p c : ℕ)
    → n < f
    → n < half_word
    → plain_set_loop f n m p c ≡ done (filled m p (c % 256) n)
unfolding plain_set_loop
plain_set_loop_lem zero n m p c l h = absurd (omega arith)
plain_set_loop_lem (suc f) zero m p c l h =
    let stop : sle 0 (sub32 0 1) ≡ false = unfold sub32 in refl in
    rw (stop, plain_set_loop) (ap done (λ i q. nothing-filled m p c q i))
plain_set_loop_lem (suc f) (suc n) m p c l h =
    let less : sub32 (suc n) 1 ≡ n =
      sub32_exact (suc n) 1 (omega arith) (omega arith) ∙ omega arith in
    let more : sle 0 (sub32 (suc n) 1) ≡ true = ground (arith, less) in
    rw (more, plain_set_loop)
      (ap (λ k. plain_set_loop f k (store m p c) (p + 1) c) less
        ∙ plain_set_loop_lem f n (store m p c) (p + 1) c (omega arith) (omega arith)
        ∙ ap done (λ i q. store-filled m p c n q i))

plain_memset_lem :
    (m : Memory) (v c n : ℕ) → n < half_word → plain_memset m v c n ≡ done (memset m v c n)
unfolding plain_memset
plain_memset_lem m v c n h =
    let low : n % word ≡ n = omega arith in
    rw low (
      plain_set_loop_lem (n + 1) n m v c (omega arith) h
      ∙ ap done (λ i q. sym (memset_lem m v c n q) i))

store-IsBytes : (m : Memory) (d v : ℕ) → IsBytes m → IsBytes (store m d v)
store-IsBytes m d v b q = ground (arith, b q)

-- One byte copied at the bottom, then those above it.
store-copied_up :
    (m : Memory) (d s n q : ℕ)
    → m s < 256
    → (d ≤ s) ⊎ (s + suc n ≤ d)
    → copied (store m d (m s)) (d + 1) (s + 1) n q ≡ copied m d s (suc n) q
store-copied_up m d s n q b h = ground arith

plain_copy_up_lem :
    (n : ℕ) (m : Memory) (d s q : ℕ)
    → IsBytes m
    → (d ≤ s) ⊎ (s + n ≤ d)
    → plain_copy_up n m d s q ≡ copied m d s n q
unfolding plain_copy_up
plain_copy_up_lem zero m d s q b h = ground arith
plain_copy_up_lem (suc n) m d s q b h =
    plain_copy_up_lem n (store m d (m s)) (d + 1) (s + 1) q (store-IsBytes m d (m s) b)
      (elim h [ inl x ↦ inl (omega arith) | inr x ↦ inr (omega arith) ])
    ∙ store-copied_up m d s n q (b s) h

-- One byte copied at the top, then those below it.
store-copied_down :
    (m : Memory) (d s n q : ℕ)
    → m (s + n) < 256
    → s < d
    → copied (store m (d + n) (m (s + n))) d s n q ≡ copied m d s (suc n) q
store-copied_down m d s n q b h = ground arith

plain_copy_down_lem :
    (n : ℕ) (m : Memory) (d s q : ℕ)
    → IsBytes m
    → s < d
    → plain_copy_down n m (d + n) (s + n) q ≡ copied m d s n q
unfolding plain_copy_down
plain_copy_down_lem zero m d s q b h = ground arith
plain_copy_down_lem (suc n) m d s q b h =
    let e : d + suc n - 1 ≡ d + n = omega arith in
    let e' : s + suc n - 1 ≡ s + n = omega arith in
    rw (e, e', plain_copy_down)
      (plain_copy_down_lem n (store m (d + n) (m (s + n))) d s q
          (store-IsBytes m (d + n) (m (s + n)) b) h
        ∙ store-copied_down m d s n q (b (s + n)) h)

plain_memmove-copied :
    (m : Memory) (dst src n q : ℕ) → IsBytes m → plain_memmove m dst src n q ≡ copied m dst src n q
unfolding plain_memmove
plain_memmove-copied m dst src n q b =
    if_at (ltb src dst && ltb dst (src + n)) _ _ q _
      (λ over. plain_copy_down_lem n m dst src q b (ground arith))
      (λ clear. plain_copy_up_lem n m dst src q b (ground arith))

-- On memory that holds bytes, for any overlap, alignment and size, the `memmove` in C and the one with ASM leave
-- the same memory; and so do, for a size below 2 ^ 31, the `memset` in C, which ends, and the one with ASM.
pub plain_memmove-memmove :
    (m : Memory) (dst src n c k : ℕ)
    → IsBytes m
    → k < half_word
    → (plain_memmove m dst src n ≡ memmove m dst src n)
      × (plain_memset m dst c k ≡ done (memset m dst c k))
plain_memmove-memmove m dst src n c k b h = (
  (λ i q. (plain_memmove-copied m dst src n q b ∙ sym (memmove_lem m dst src n q)) i),
  plain_memset_lem m dst c k h,
)
