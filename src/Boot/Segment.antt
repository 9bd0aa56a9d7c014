-- ===== src/Boot/Segment.antt =====
-- readseg of boot/main.c puts a stretch of the kernel's image in memory.
use sisop_tps.Prelude.{
  ℕ, zero, suc, ◌+◌, ◌-◌, ◌*◌, ◌/◌, ◌%◌, ◌^◌, ◌≤◌, ◌<◌, ◌≡◌, ◌⊎◌, refl, ap, ◌∙◌, true, false, inl,
  inr, Bool-cases, ltb, if◌then◌else◌, add32, add32_exact, word, arith,
}
use sisop_tps.Prelude.Run.{Returns, bind-Returns, map-Returns}
use sisop_tps.Memory.{Memory, inside}
use sisop_tps.Boot.{Ports, readsect, read_sectors, readseg}
use sisop_tps.Boot.Disk.{Drive, readsect_lem, with_sector}

-- memory with `k` sectors from `pa` on
abbrev pub with_sectors : (ℕ → ℕ) → ℕ → ℕ → ℕ → Memory → ℕ → ℕ
with_sectors disk n pa k m q = if inside q pa (512 * k) then disk (512 * n + (q - pa)) else m q

-- the kernel's image, which starts at the second sector
abbrev pub image_of : (ℕ → ℕ) → ℕ → ℕ
image_of disk i = disk (512 + i)

-- The bytes are in memory, and beyond the sectors that they lie in nothing has changed.
pub record Loads (disk : ℕ → ℕ) (m : Memory) (pa count offset : ℕ) (m' : Memory) : Type 0 where
  pub bytes : (i : ℕ) → i < count → m' (pa + i) ≡ image_of disk (offset + i)
  pub frame : (q : ℕ) → (q + 512 ≤ pa) ⊎ (pa + count + 512 ≤ q) → m' q ≡ m q

sectors_step :
    (disk : ℕ → ℕ) (n pa k q : ℕ) (m m₁ : Memory)
    → ((q : ℕ) → m₁ q ≡ with_sector disk n pa m q)
    → with_sectors disk (n + 1) (pa + 512) k m₁ q ≡ with_sectors disk n pa (suc k) m q
sectors_step disk n pa k q m m₁ e = elim (Bool-cases (inside q (pa + 512) (512 * k))) [
  | inl t ↦
      let at : 512 * (n + 1) + (q - (pa + 512)) ≡ 512 * n + (q - pa) = ground (arith, t) in
      let all : inside q pa (512 * suc k) ≡ true = ground (arith, t) in rw (t, all) (ap disk at)
  | inr t ↦ rw t (e q ∙ ground (arith, t))
]

module _ {W : Type 0} {d : Ports W} {disk : ℕ → ℕ} {delay : ℕ} (v : Drive d disk delay) where
  read_sectors_lem :
      (k f fuel pa end n : ℕ) (m : Memory) (w : W)
      → end ≤ pa + 512 * k
      → pa + 512 * k < end + 512
      → pa + 512 * k + 512 ≤ word
      → n + k < 2 ^ 28
      → k < f
      → delay < fuel
      → Returns
          (read_sectors d f fuel pa end n (m, w))
          (λ s. (q : ℕ) → s.0 q ≡ with_sectors disk n pa k m q)
  unfolding read_sectors
  read_sectors_lem k zero fuel pa end n m w a b c o l u = absurd (omega arith)
  read_sectors_lem zero (suc f) fuel pa end n m w a b c o l u =
      let stop : ltb pa end ≡ false = ground arith in rw (stop, read_sectors) (λ q. ground arith)
  read_sectors_lem (suc k) (suc f) fuel pa end n m w a b c o l u =
      let on : ltb pa end ≡ true = ground arith in
      rw (on, read_sectors)
        (bind-Returns (readsect d fuel pa n (m, w)) _ _
          (λ s. (q : ℕ) → s.0 q ≡ with_sectors disk n pa (suc k) m q)
          (readsect_lem v fuel pa n m w (omega arith) u)
          (λ s e.
            let next : add32 pa 512 ≡ pa + 512 = add32_exact pa 512 (omega arith) in
            let after : add32 n 1 ≡ n + 1 = add32_exact n 1 (omega arith) in
            rw (next, after)
              (map-Returns (read_sectors d f fuel (pa + 512) end (n + 1) s) _
                (λ s'. (q : ℕ) → s'.0 q ≡ with_sectors disk n pa (suc k) m q)
                (read_sectors_lem k f fuel (pa + 512) end (n + 1) s.0 s.1 (omega arith)
                  (omega arith) (omega arith) (omega arith) (omega arith) u)
                (λ s' e' q. e' q ∙ sectors_step disk n pa k q m s.0 e))))

  -- For an offset and an address at the same place of a sector, and a drive that answers in time, `readseg`
  -- ends with `count` bytes of the image from `offset` on at `pa`, and beyond the sectors that it reads
  -- whole memory is as before.
  pub readseg-Loads :
      (fuel pa count offset : ℕ) (m : Memory) (w : W)
      → pa % 512 ≡ offset % 512
      → pa + count + 1024 ≤ word
      → offset + count + 2048 ≤ 2 ^ 37
      → delay < fuel
      → Returns (readseg d fuel pa count offset (m, w)) (λ s. Loads disk m pa count offset s.0)
  unfolding readseg
  readseg-Loads fuel pa count offset m w a b c u =
      let k = (pa % 512 + count + 511) / 512 in
      let end : add32 pa count ≡ pa + count = add32_exact pa count (omega arith) in
      let first : add32 (offset / 512) 1 ≡ offset / 512 + 1 =
        add32_exact (offset / 512) 1 (omega arith) in
      rw (end, first)
        (map-Returns
          (read_sectors d (count / 512 + 3) fuel (pa - pa % 512) (pa + count) (offset / 512 + 1)
            (m, w))
          _ (λ s. Loads disk m pa count offset s.0)
          (read_sectors_lem k (count / 512 + 3) fuel (pa - pa % 512) (pa + count) (offset / 512 + 1)
            m w (omega arith) (omega arith) (omega arith) (omega arith) (omega arith) u)
          (λ s e. record {
            bytes = λ i l.
                let in_it : inside (pa + i) (pa - pa % 512) (512 * k) ≡ true = ground arith in
                let at : 512 * (offset / 512 + 1) + (pa + i - (pa - pa % 512))
                    ≡ 512 + (offset + i) =
                  omega arith in
                e (pa + i) ∙ rw in_it (ap disk at);
            frame = λ q out.
                let off : inside q (pa - pa % 512) (512 * k) ≡ false = ground arith in
                e q ∙ rw off refl;
          }))
