-- ===== src/Boot.antt =====
-- boot/main.c: the boot loader. Memory is a function from addresses to bytes, and the world behind the ports
-- is a parameter with the instructions of inc/x86.h that the loader uses.
pub mod Disk
pub mod Segment
pub mod Kernel
pub mod Tests
use sisop_tps.Prelude.{
  ℕ, zero, suc, ◌+◌, ◌-◌, ◌*◌, ◌/◌, ◌%◌, ◌^◌, true, false, ◌==◌, ltb, add32, bit_and, bit_or,
}
use sisop_tps.Prelude.Run.{Run, done, no_fuel, ◌>>=◌}
use sisop_tps.Memory.{Memory}

-- `insl` takes the port, the address and the number of words
pub record Ports (W : Type 0) : Type 0 where
  pub inb : ℕ → W → ℕ × W
  pub outb : ℕ → ℕ → W → W
  pub outw : ℕ → ℕ → W → W
  pub insl : ℕ → ℕ → ℕ → Memory → W → Memory × W

abbrev pub sectsize : ℕ
sectsize = 512

-- `ELFHDR`
abbrev pub elfhdr : ℕ
elfhdr = 0x1_0000

abbrev pub elf_magic : ℕ
elf_magic = 0x464c_457f

-- a `uint16_t` and a `uint32_t` in memory
abbrev pub half_at : Memory → ℕ → ℕ
half_at m p = m p + 256 * m (p + 1)

abbrev pub word_at : Memory → ℕ → ℕ
word_at m p = m p + 256 * m (p + 1) + 65536 * m (p + 2) + 16777216 * m (p + 3)

-- the fields of `struct Elf` and `struct Proghdr` that the loader reads
abbrev pub e_entry : Memory → ℕ → ℕ
e_entry m p = word_at m (p + 24)

abbrev pub e_phoff : Memory → ℕ → ℕ
e_phoff m p = word_at m (p + 28)

abbrev pub e_phnum : Memory → ℕ → ℕ
e_phnum m p = half_at m (p + 44)

abbrev pub p_offset : Memory → ℕ → ℕ
p_offset m p = word_at m (p + 4)

abbrev pub p_pa : Memory → ℕ → ℕ
p_pa m p = word_at m (p + 12)

abbrev pub p_memsz : Memory → ℕ → ℕ
p_memsz m p = word_at m (p + 20)

-- the two ways out of bootmain: the jump to the kernel, or the endless loop
pub data Exit : Type 0 where
  entered : ℕ → Exit
  bad : Exit

module _ {W : Type 0} (d : Ports W) where
  -- `while ((inb(0x1F7) & 0xC0) != 0x40)`
  unfoldable pub waitdisk : ℕ → W → Run W
  waitdisk zero w = no_fuel
  waitdisk (suc f) w = elim (bit_and (d.inb 0x1f7 w).0 0xc0 == 0x40) [
    | true ↦ done (d.inb 0x1f7 w).1
    | false ↦ waitdisk f (d.inb 0x1f7 w).1
  ]

  -- the six writes that ask the drive for a sector
  unfoldable pub ask_sector : ℕ → W → W
  ask_sector offset w =
      let w₁ = d.outb 0x1f2 1 w in
      let w₂ = d.outb 0x1f3 (offset % 256) w₁ in
      let w₃ = d.outb 0x1f4 (offset / 2 ^ 8 % 256) w₂ in
      let w₄ = d.outb 0x1f5 (offset / 2 ^ 16 % 256) w₃ in
      let w₅ = d.outb 0x1f6 (bit_or (offset / 2 ^ 24) 0xe0 % 256) w₄ in d.outb 0x1f7 0x20 w₅

  unfoldable pub readsect : ℕ → ℕ → ℕ → Memory × W → Run (Memory × W)
  readsect fuel dst offset (m, w) = waitdisk fuel w >>= λ w₁.
      waitdisk fuel (ask_sector offset w₁) >>= λ w₂. done (d.insl 0x1f0 dst (sectsize / 4) m w₂)

  -- `while (pa < end_pa)`
  unfoldable pub read_sectors : ℕ → ℕ → ℕ → ℕ → ℕ → Memory × W → Run (Memory × W)
  read_sectors zero fuel pa end_pa offset s = no_fuel
  read_sectors (suc f) fuel pa end_pa offset s = elim (ltb pa end_pa) [
    | true ↦ readsect fuel pa offset s >>= λ s'.
        read_sectors f fuel (add32 pa sectsize) end_pa (add32 offset 1) s'
    | false ↦ done s
  ]

  -- one round for each sector of `count` bytes, and two more
  unfoldable pub readseg : ℕ → ℕ → ℕ → ℕ → Memory × W → Run (Memory × W)
  readseg fuel pa count offset s =
      read_sectors (count / sectsize + 3) fuel (pa - pa % sectsize) (add32 pa count)
        (add32 (offset / sectsize) 1) s

  -- `for (; ph < eph; ph++)`, counted by the headers left
  unfoldable pub load_segments : ℕ → ℕ → ℕ → Memory × W → Run (Memory × W)
  load_segments fuel zero ph s = done s
  load_segments fuel (suc n) ph s =
      readseg fuel (p_pa s.0 ph) (p_memsz s.0 ph) (p_offset s.0 ph) s >>= λ s'.
      load_segments fuel n (ph + 32) s'

  unfoldable pub bootmain : ℕ → Memory × W → Run (Exit × Memory × W)
  bootmain fuel s = readseg fuel elfhdr (sectsize * 8) 0 s >>= λ s₁.
      elim (word_at s₁.0 elfhdr == elf_magic) [
        | false ↦ done (bad, s₁.0, d.outw 0x8a00 0x8e00 (d.outw 0x8a00 0x8a00 s₁.1))
        | true ↦
            load_segments fuel (e_phnum s₁.0 elfhdr) (elfhdr + e_phoff s₁.0 elfhdr) s₁ >>= λ s₂.
            done (entered (e_entry s₂.0 elfhdr), s₂.0, s₂.1)
      ]
