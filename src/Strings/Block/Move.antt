-- ===== src/Strings/Block/Move.antt =====
-- memmove of lib/string.c copies its source as it was before the call, however the two areas overlap.
use sisop_tps.Prelude.{
  ℕ, zero, suc, ◌+◌, ◌-◌, ◌*◌, ◌/◌, ◌%◌, ◌==◌, ◌≤◌, ◌<◌, ◌≡◌, ◌≢◌, ◌⊎◌, ◌∙◌, ◌&&◌, ltb, if_at,
  arith,
}
use sisop_tps.Memory.{Memory, copied}
use sisop_tps.Strings.Block.{movs, rep_movs_up, rep_movs_down, memmove}

-- A forward copy is right if it does not run into what it has still to read.
rep_movs_up_lem :
    (w count : ℕ) (m : Memory) (d s q : ℕ)
    → (d ≤ s) ⊎ (s + count * w ≤ d)
    → rep_movs_up w count m d s q ≡ copied m d s (count * w) q
unfolding rep_movs_up movs
rep_movs_up_lem w zero m d s q h = ground arith
rep_movs_up_lem w (suc count) m d s q h =
    ground (arith, rep_movs_up_lem w count (movs w m d s) (d + w) (s + w) q)

-- One unit copied at the top, then the `n` bytes below it: nothing that is still to be read changes.
copied-movs :
    (w n : ℕ) (m : Memory) (d s q : ℕ)
    → s < d
    → copied (movs w m (d + n) (s + n)) d s n q ≡ copied m d s (n + w) q
unfolding movs
copied-movs w n m d s q h = ground arith

movs-copied :
    (w n : ℕ) (m : Memory) (d s d' s' q : ℕ)
    → d' ≡ d
    → s' ≡ s
    → n ≡ w
    → movs w m d' s' q ≡ copied m d s n q
unfolding movs
movs-copied w n m d s d' s' q h e e' = ground arith

-- A backward copy that starts at the last unit, towards higher addresses, is right.
rep_movs_down_lem :
    (w k n : ℕ) (m : Memory) (d s d' s' q : ℕ)
    → s < d
    → n ≡ k * w + w
    → d' ≡ d + k * w
    → s' ≡ s + k * w
    → rep_movs_down w (suc k) m d' s' q ≡ copied m d s n q
unfolding rep_movs_down
rep_movs_down_lem w zero n m d s d' s' q h z e e' =
    movs-copied w n m d s d' s' q (omega arith) (omega arith) (omega arith)
rep_movs_down_lem w (suc k) n m d s d' s' q h z e e' =
    rep_movs_down_lem w k (suc k * w) (movs w m d' s') d s (d' - w) (s' - w) q h (omega arith)
      (omega arith) (omega arith)
    ∙ rw (e, e', z) (copied-movs w (suc k * w) m d s q h)

-- the same, with the pointers as `memmove` computes them
rep_movs_down_total :
    (w count n : ℕ) (m : Memory) (d s q : ℕ)
    → s < d
    → n ≢ 0
    → n ≡ count * w
    → rep_movs_down w count m (d + n - w) (s + n - w) q ≡ copied m d s n q
rep_movs_down_total w zero n m d s q h ne e = absurd (omega arith)
rep_movs_down_total w (suc k) n m d s q h ne e =
    rep_movs_down_lem w k n m d s (d + n - w) (s + n - w) q h (omega arith) (omega arith)
      (omega arith)

-- After `memmove` each byte of the destination is the byte that stood at the same place of the source
-- before the call, for any overlap and alignment, and all other bytes are as before.
pub memmove_lem : (m : Memory) (dst src n q : ℕ) → memmove m dst src n q ≡ copied m dst src n q
unfolding memmove
memmove_lem m dst src n q =
    if_at (ltb src dst && ltb dst (src + n)) _ _ q _
      (λ over.
        if_at ((src + n) % 4 == 0 && (dst + n) % 4 == 0 && n % 4 == 0) _ _ q _
          (λ words.
            rep_movs_down_total 4 (n / 4) n m dst src q (ground arith) (ground arith)
              (ground arith))
          (λ _. rep_movs_down_total 1 n n m dst src q (ground arith) (ground arith) (omega arith)))
      (λ clear.
        if_at (src % 4 == 0 && dst % 4 == 0 && n % 4 == 0) _ _ q _
          (λ words. up 4 (n / 4) (ground arith) (ground arith))
          (λ _. up 1 n (ground arith) (omega arith)))
  where
    up :
        (w count : ℕ)
        → (dst ≤ src) ⊎ (src + n ≤ dst)
        → count * w ≡ n
        → rep_movs_up w count m dst src q ≡ copied m dst src n q
    up w count h e = rw (← e) (rep_movs_up_lem w count m dst src q (rw (← e) at h))
