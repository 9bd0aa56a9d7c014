-- ===== src/Boot/Disk.antt =====
-- readsect of boot/main.c on an IDE drive.
use sisop_tps.Prelude.{
  ℕ, zero, suc, ◌+◌, ◌-◌, ◌*◌, ◌/◌, ◌%◌, ◌^◌, ◌≤◌, ◌<◌, ◌≡◌, refl, ◌∙◌, true, false, inl, inr,
  Bool-cases, ◌==◌, if◌then◌else◌, bit_and, bit_or, all_below, all_below_sound, ==→eq, arith,
}
use sisop_tps.Prelude.Run.{Returns, bind-Returns, map-Returns}
use sisop_tps.Memory.{Memory, inside}
use sisop_tps.Boot.{Ports, waitdisk, ask_sector, readsect}

-- What the loader relies on of the drive, whose sector `n` holds the bytes `disk (512 * n)` and on. The drive is
-- busy for `delay` polls of 0x1F7 at most, and only while it is not busy is anything known of the rest:
-- the ports 0x1F2 to 0x1F6 are registers; the command 0x20 at 0x1F7, with the count 1 in 0x1F2 and with
-- the mode of linear addresses and the first drive in 0x1F6, selects the sector that the registers name in
-- their 28 bits; the data port hands out the selected sector, of which `taken` bytes have been read.
pub record Drive {W : Type 0} (d : Ports W) (disk : ℕ → ℕ) (delay : ℕ) : Type 0 where
  pub register : W → ℕ → ℕ
  pub selected : W → ℕ
  pub busy : W → ℕ
  pub taken : W → ℕ
  pub sets :
      (port b r : ℕ) (w : W)
      → busy w ≡ 0
      → 0x1f2 ≤ port
      → port ≤ 0x1f6
      → b < 256
      → (register (d.outb port b w) r ≡ (if r == port then b else register w r))
        × (busy (d.outb port b w) ≡ 0)
  pub selects :
      (w : W)
      → busy w ≡ 0
      → register w 0x1f2 ≡ 1
      → register w 0x1f6 / 16 ≡ 14
      → (selected (d.outb 0x1f7 0x20 w)
          ≡ register w 0x1f3
            + 256 * register w 0x1f4
            + 65536 * register w 0x1f5
            + 16777216 * (register w 0x1f6 % 16))
        × (taken (d.outb 0x1f7 0x20 w) ≡ 0)
  pub busy_le : (w : W) → busy w ≤ delay
  pub ready : (w : W) → (bit_and (d.inb 0x1f7 w).0 0xc0 == 0x40) ≡ (busy w == 0)
  pub polled : (w : W) → busy (d.inb 0x1f7 w).1 ≡ busy w - 1
  pub remembers : (w : W) → selected (d.inb 0x1f7 w).1 ≡ selected w
  pub still : (w : W) → taken (d.inb 0x1f7 w).1 ≡ taken w
  pub hands_out :
      (dst q : ℕ) (m : Memory) (w : W)
      → busy w ≡ 0
      → taken w ≡ 0
      → (d.insl 0x1f0 dst 128 m w).0 q
        ≡ (if inside q dst 512 then disk (512 * selected w + (q - dst)) else m q)

-- memory with a sector at `dst`
abbrev pub with_sector : (ℕ → ℕ) → ℕ → ℕ → Memory → ℕ → ℕ
with_sector disk n dst m q = if inside q dst 512 then disk (512 * n + (q - dst)) else m q

-- The mode bits of 0x1F6 stand above the four highest bits of the sector's number.
high_bits : (h : ℕ) → h < 16 → bit_or h 0xe0 % 256 ≡ 224 + h
unfolding all_below
high_bits h l =
    ==→eq _ (224 + h) (all_below_sound 16 (λ h. bit_or h 0xe0 % 256 == 224 + h) h refl l)

module _ {W : Type 0} {d : Ports W} {disk : ℕ → ℕ} {delay : ℕ} (v : Drive d disk delay) where
  -- Waiting ends with the drive not busy, and it keeps the sector that was selected.
  waitdisk_lem :
      (fuel : ℕ) (w : W)
      → v.busy w < fuel
      → Returns
          (waitdisk d fuel w)
          (λ w'. (v.busy w' ≡ 0) × (v.selected w' ≡ v.selected w) × (v.taken w' ≡ v.taken w))
  unfolding waitdisk
  waitdisk_lem zero w l = absurd (omega arith)
  waitdisk_lem (suc f) w l = elim (Bool-cases (v.busy w == 0)) [
    | inl z ↦
        let on : (bit_and (d.inb 0x1f7 w).0 0xc0 == 0x40) ≡ true = v.ready w ∙ z in
        rw (on, waitdisk) (ground (arith, z, v.polled w), v.remembers w, v.still w)
    | inr z ↦
        let off : (bit_and (d.inb 0x1f7 w).0 0xc0 == 0x40) ≡ false = v.ready w ∙ z in
        rw (off, waitdisk)
          (map-Returns (waitdisk d f (d.inb 0x1f7 w).1) _
            (λ w'. (v.busy w' ≡ 0) × (v.selected w' ≡ v.selected w) × (v.taken w' ≡ v.taken w))
            (waitdisk_lem f (d.inb 0x1f7 w).1 (ground (arith, z, v.polled w)))
            (λ w' (b, e, f). (b, e ∙ v.remembers w, f ∙ v.still w)))
  ]

  -- The registers name the sector, and the drive starts at its first byte.
  ask_sector_lem :
      (offset : ℕ) (w : W)
      → v.busy w ≡ 0
      → offset < 2 ^ 28
      → (v.selected (ask_sector d offset w) ≡ offset) × (v.taken (ask_sector d offset w) ≡ 0)
  unfolding ask_sector
  ask_sector_lem offset w idle h =
      let b₃ : ℕ = offset % 256 in
      let b₄ : ℕ = offset / 2 ^ 8 % 256 in
      let b₅ : ℕ = offset / 2 ^ 16 % 256 in
      let b₆ : ℕ = bit_or (offset / 2 ^ 24) 0xe0 % 256 in
      let w₁ = d.outb 0x1f2 1 w in
      let w₂ = d.outb 0x1f3 b₃ w₁ in
      let w₃ = d.outb 0x1f4 b₄ w₂ in
      let w₄ = d.outb 0x1f5 b₅ w₃ in
      let w₅ = d.outb 0x1f6 b₆ w₄ in
      let s₁ = λ (r : ℕ). v.sets 0x1f2 1 r w idle (omega arith) (omega arith) (omega arith) in
      let s₂ = λ (r : ℕ). v.sets 0x1f3 b₃ r w₁ (s₁ 0).1 (omega arith) (omega arith) (omega arith) in
      let s₃ = λ (r : ℕ). v.sets 0x1f4 b₄ r w₂ (s₂ 0).1 (omega arith) (omega arith) (omega arith) in
      let s₄ = λ (r : ℕ). v.sets 0x1f5 b₅ r w₃ (s₃ 0).1 (omega arith) (omega arith) (omega arith) in
      let s₅ = λ (r : ℕ). v.sets 0x1f6 b₆ r w₄ (s₄ 0).1 (omega arith) (omega arith) (omega arith) in
      let high : b₆ ≡ 224 + offset / 2 ^ 24 = high_bits (offset / 2 ^ 24) (omega arith) in
      let one : v.register w₅ 0x1f2 ≡ 1 =
        (s₅ 0x1f2).0 ∙ (s₄ 0x1f2).0 ∙ (s₃ 0x1f2).0 ∙ (s₂ 0x1f2).0 ∙ (s₁ 0x1f2).0 in
      let first : v.register w₅ 0x1f3 ≡ b₃ =
        (s₅ 0x1f3).0 ∙ (s₄ 0x1f3).0 ∙ (s₃ 0x1f3).0 ∙ (s₂ 0x1f3).0 in
      let second : v.register w₅ 0x1f4 ≡ b₄ = (s₅ 0x1f4).0 ∙ (s₄ 0x1f4).0 ∙ (s₃ 0x1f4).0 in
      let third : v.register w₅ 0x1f5 ≡ b₅ = (s₅ 0x1f5).0 ∙ (s₄ 0x1f5).0 in
      let mode : v.register w₅ 0x1f6 ≡ 224 + offset / 2 ^ 24 = (s₅ 0x1f6).0 ∙ high in
      let (named, begun) = v.selects w₅ (s₅ 0).1 one (omega (arith, mode)) in
      (omega (arith, named, first, second, third, mode), begun)

  -- A sector is read to `dst`, and all else stays.
  pub readsect_lem :
      (fuel dst offset : ℕ) (m : Memory) (w : W)
      → offset < 2 ^ 28
      → delay < fuel
      → Returns
          (readsect d fuel dst offset (m, w))
          (λ s. (q : ℕ) → s.0 q ≡ with_sector disk offset dst m q)
  unfolding readsect
  readsect_lem fuel dst offset m w h l =
      bind-Returns (waitdisk d fuel w) _ _ _ (waitdisk_lem fuel w (omega (arith, v.busy_le w)))
        (λ w₁ (ready, _, _).
          bind-Returns (waitdisk d fuel (ask_sector d offset w₁)) _ _
            (λ s. (q : ℕ) → s.0 q ≡ with_sector disk offset dst m q)
            (waitdisk_lem fuel (ask_sector d offset w₁)
              (omega (arith, v.busy_le (ask_sector d offset w₁))))
            (λ w₂ (b, e, f) q.
              let (asked, begun) = ask_sector_lem offset w₁ ready h in
              let n : v.selected w₂ ≡ offset = e ∙ asked in
              v.hands_out dst q m w₂ b (f ∙ begun) ∙ rw n refl))
