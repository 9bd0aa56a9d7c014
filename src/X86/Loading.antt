-- ===== src/X86/Loading.antt =====
-- The boot loader of boot/main.c on the functions of inc/x86.h: the drive is known by its single transfers.
use sisop_tps.Prelude.{
  ℕ, zero, suc, ◌+◌, ◌-◌, ◌*◌, ◌/◌, ◌%◌, ◌^◌, ◌≤◌, ◌<◌, ◌≡◌, ap, ap₂, subst, ◌∙◌, ◌==◌,
  if◌then◌else◌, bit_and, arith,
}
use sisop_tps.Prelude.Run.{Returns}
use sisop_tps.Memory.{Memory, IsBytes}
use sisop_tps.X86.{Processor, inb, outb, outw, insl, port16}
use sisop_tps.X86.Transfer.{Hands, rep_ins_lem}
use sisop_tps.X86.{value_at}
use sisop_tps.Boot.{Ports, word_at, elf_magic, bootmain, entered, e_entry}
use sisop_tps.Boot.Disk.{Drive}
use sisop_tps.Boot.Kernel.{Loadable, Loaded, kernel, bootmain-Loaded}

-- What the loader relies on of the drive, by single transfers: as Drive has it, but for the data port, which hands
-- out the selected sector in words of 32 bits; `cld` does not touch the drive.
pub record WordDrive {S : Type 0} (p : Processor S) (disk : ℕ → ℕ) (delay : ℕ) : Type 0 where
  pub register : S → ℕ → ℕ
  pub selected : S → ℕ
  pub busy : S → ℕ
  pub taken : S → ℕ
  pub sets :
      (port b r : ℕ) (s : S)
      → busy s ≡ 0
      → 0x1f2 ≤ port
      → port ≤ 0x1f6
      → b < 256
      → (register (p.out8 port b s) r ≡ (if r == port then b else register s r))
        × (busy (p.out8 port b s) ≡ 0)
  pub selects :
      (s : S)
      → busy s ≡ 0
      → register s 0x1f2 ≡ 1
      → register s 0x1f6 / 16 ≡ 14
      → (selected (p.out8 0x1f7 0x20 s)
          ≡ register s 0x1f3
            + 256 * register s 0x1f4
            + 65536 * register s 0x1f5
            + 16777216 * (register s 0x1f6 % 16))
        × (taken (p.out8 0x1f7 0x20 s) ≡ 0)
  pub busy_le : (s : S) → busy s ≤ delay
  pub ready : (s : S) → (bit_and (p.in8 0x1f7 s).0 0xc0 == 0x40) ≡ (busy s == 0)
  pub polled : (s : S) → busy (p.in8 0x1f7 s).1 ≡ busy s - 1
  pub remembers : (s : S) → selected (p.in8 0x1f7 s).1 ≡ selected s
  pub still : (s : S) → taken (p.in8 0x1f7 s).1 ≡ taken s
  pub hands :
      (s : S)
      → busy s ≡ 0
      → taken s + 4 ≤ 512
      → (p.in32 0x1f0 s).0 ≡ value_at 4 disk (512 * selected s + taken s)
  pub goes_on :
      (s : S)
      → busy s ≡ 0
      → taken s + 4 ≤ 512
      → (taken (p.in32 0x1f0 s).1 ≡ taken s + 4) × (busy (p.in32 0x1f0 s).1 ≡ 0)
  pub stays : (s : S) → selected (p.in32 0x1f0 s).1 ≡ selected s
  pub cleared :
      (s : S)
      → (selected (p.cld s) ≡ selected s) × (taken (p.cld s) ≡ taken s) × (busy (p.cld s) ≡ busy s)

-- the functions of inc/x86.h that the loader calls
abbrev pub ports : {S : Type 0} → Processor S → Ports S
ports p = record {
  inb = inb p;
  outb = outb p;
  outw = outw p;
  insl = λ port addr cnt m s. insl p port addr cnt (m, s);
}

module _ {S : Type 0} {p : Processor S} {disk : ℕ → ℕ} {delay : ℕ} (v : WordDrive p disk delay)
    (bytes : IsBytes disk) where
  -- what is left of the sector comes word by word
  sector-Hands :
      (cnt : ℕ) (s : S)
      → v.busy s ≡ 0
      → v.taken s + cnt * 4 ≤ 512
      → Hands 4 (p.in32 0x1f0) disk (512 * v.selected s + v.taken s) cnt s
  unfolding Hands
  sector-Hands zero s b l = tt
  sector-Hands (suc cnt) s b l =
      let s' = (p.in32 0x1f0 s).1 in
      let (on, idle) = v.goes_on s b (omega arith) in
      let moved : 512 * v.selected s' + v.taken s' ≡ 512 * v.selected s + v.taken s + 4 =
        omega (arith, on, v.stays s) in
      (
        v.hands s b (omega arith),
        subst (λ pos. Hands 4 (p.in32 0x1f0) disk pos cnt s') moved
            (sector-Hands cnt s' idle (omega (arith, on))),
      )

  -- The drive is the one that the loader's theorems ask for.
  pub ports-Drive : Drive (ports p) disk delay
  unfolding inb outb insl
  ports-Drive = record {
    register = v.register;
    selected = v.selected;
    busy = v.busy;
    taken = v.taken;
    sets = λ port b r s idle low high small.
        let same : port16 port ≡ port = omega arith in
        let byte : b % 2 ^ 8 ≡ b = omega arith in
        let there : p.out8 (port16 port) (b % 2 ^ 8) s ≡ p.out8 port b s =
          ap₂ (λ x y. p.out8 x y s) same byte in
        let (set, as_before) = v.sets port b r s idle low high small in
        (ap (λ s'. v.register s' r) there ∙ set, ap v.busy there ∙ as_before);
    selects = v.selects;
    busy_le = v.busy_le;
    ready = v.ready;
    polled = v.polled;
    remembers = v.remembers;
    still = v.still;
    hands_out = λ dst q m s idle none.
        let (kept, as_before, ready) = v.cleared s in
        let start : 512 * v.selected (p.cld s) + v.taken (p.cld s) ≡ 512 * v.selected s =
          omega (arith, kept, as_before) in
        rep_ins_lem 4 (p.in32 0x1f0) disk (512 * v.selected s) dst 128 q m (p.cld s) bytes (
          subst (λ pos. Hands 4 (p.in32 0x1f0) disk pos 128 (p.cld s)) start
            (sector-Hands 128 (p.cld s) (ready ∙ idle) (omega (arith, as_before))));
  }

  -- On the functions of inc/x86.h, with a drive that answers in time and hands out its sectors word by word, and
  -- with an image that begins with the magic number and can be loaded, the loader jumps to the image's entry
  -- point, and the header page and the bytes of every segment are in memory at their addresses.
  pub bootmain-ports :
      (n fuel : ℕ) (m : Memory) (s : S)
      → word_at (kernel disk) 0 ≡ elf_magic
      → Loadable (kernel disk) n
      → delay < fuel
      → Returns
          (bootmain (ports p) fuel (m, s))
          (λ r. (r.0 ≡ entered (e_entry (kernel disk) 0)) × Loaded (kernel disk) n r.1)
  bootmain-ports = bootmain-Loaded ports-Drive
