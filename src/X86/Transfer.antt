-- ===== src/X86/Transfer.antt =====
-- What the string instructions of inc/x86.h put into memory, and what they read from it.
use sisop_tps.Prelude.{ℕ, zero, suc, ◌+◌, ◌-◌, ◌*◌, ◌/◌, ◌%◌, ◌≡◌, ap, ◌∙◌, if◌then◌else◌, arith}
use sisop_tps.Memory.{Memory, store, inside, IsBytes}
use sisop_tps.X86.{value_at, put_value, rep_ins}

-- the memory `m` with the `n` bytes of `b` from `pos` on at `a`
abbrev pub landed : Memory → ℕ → Memory → ℕ → ℕ → Memory
landed b pos m a n q = if inside q a n then b (pos + (q - a)) else m q

landed-none : (b : Memory) (pos : ℕ) (m : Memory) (a q : ℕ) → m q ≡ landed b pos m a 0 q
landed-none b pos m a q = ground arith

-- a part and what follows it
landed-more :
    (b : Memory) (pos : ℕ) (m m' : Memory) (a w n q : ℕ)
    → m' q ≡ landed b pos m a w q
    → landed b (pos + w) m' (a + w) n q ≡ landed b pos m a (w + n) q
landed-more b pos m m' a w n q e = ground arith

store-landed :
    (b m : Memory) (pos a rest q : ℕ)
    → IsBytes b
    → store m a (b pos + 256 * rest) q ≡ landed b pos m a 1 q
store-landed b m pos a rest q h =
    let byte : (b pos + 256 * rest) % 256 ≡ b pos = omega (arith, h pos) in ground (arith, byte)

put_value-value_at :
    (width : ℕ) (b m : Memory) (pos a q : ℕ)
    → IsBytes b
    → put_value width m a (value_at width b pos) q ≡ landed b pos m a width q
unfolding put_value value_at
put_value-value_at zero b m pos a q h = landed-none b pos m a q
put_value-value_at (suc width) b m pos a q h =
    let rest = value_at width b (pos + 1) in
    let quotient : (b pos + 256 * rest) / 256 ≡ rest = omega (arith, h pos) in
    let m' = store m a (b pos + 256 * rest) in
    ap (λ v. put_value width m' (a + 1) v q) quotient
    ∙ put_value-value_at width b m' (pos + 1) (a + 1) q h
    ∙ landed-more b pos m m' a 1 width q (store-landed b m pos a rest q h)
    ∙ ap (λ n. landed b pos m a n q) (omega arith)

-- A port hands out the bytes of `b` from `pos` on, in `cnt` values of `width` bytes.
unfoldable pub Hands : {S : Type 0} → ℕ → (S → ℕ × S) → Memory → ℕ → ℕ → S → Type 0
Hands width read b pos zero s = Unit
Hands width read b pos (suc cnt) s =
    ((read s).0 ≡ value_at width b pos) × Hands width read b (pos + width) cnt (read s).1

pub rep_ins_lem :
    {S : Type 0} (width : ℕ) (read : S → ℕ × S) (b : Memory) (pos a cnt q : ℕ) (m : Memory) (s : S)
    → IsBytes b
    → Hands width read b pos cnt s
    → (rep_ins width read a cnt (m, s)).0 q ≡ landed b pos m a (cnt * width) q
unfolding rep_ins Hands
rep_ins_lem width read b pos a zero q m s h k =
    landed-none b pos m a q ∙ ap (λ n. landed b pos m a n q) (omega arith)
rep_ins_lem width read b pos a (suc cnt) q m s h k =
    let m' = put_value width m a (value_at width b pos) in
    let size : width + cnt * width ≡ suc cnt * width = omega arith in
    ap (λ v. (rep_ins width read (a + width) cnt (put_value width m a v, (read s).1)).0 q) k.0
    ∙ rep_ins_lem width read b (pos + width) (a + width) cnt q m' (read s).1 h k.1
    ∙ landed-more b pos m m' a width (cnt * width) q (put_value-value_at width b m pos a q h)
    ∙ ap (λ n. landed b pos m a n q) size
