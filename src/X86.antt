-- ===== src/X86.antt =====
-- inc/x86.h: the functions around single instructions. What an instruction does to the processor and to what lies
-- behind its ports is a parameter; here are the functions that the kernel makes of them. An address is a
-- number, and a function that reads or writes memory takes and returns it.
pub mod Transfer
pub mod Loading
mod Tests
use sisop_tps.Prelude.{ℕ, zero, suc, ◌+◌, ◌*◌, ◌/◌, ◌%◌, ◌^◌, ◌==◌, if◌then◌else◌}
use sisop_tps.Memory.{Memory, store}

-- The instructions on a state `S` of the processor with what is behind the ports. `popf` is what the processor
-- makes of the flags that it is given; `load_idt` and `load_gdt` read the six bytes at an address.
pub record Processor (S : Type 0) : Type 0 where
  pub int3 : S → S
  pub in8 : ℕ → S → ℕ × S
  pub in16 : ℕ → S → ℕ × S
  pub in32 : ℕ → S → ℕ × S
  pub out8 : ℕ → ℕ → S → S
  pub out16 : ℕ → ℕ → S → S
  pub out32 : ℕ → ℕ → S → S
  pub cld : S → S
  pub forget_page : ℕ → S → S
  pub load_idt : ℕ → Memory → S → S
  pub load_gdt : ℕ → Memory → S → S
  pub load_ldt : ℕ → S → S
  pub load_tr : ℕ → S → S
  pub cr0 : S → ℕ
  pub cr2 : S → ℕ
  pub cr3 : S → ℕ
  pub cr4 : S → ℕ
  pub set_cr0 : ℕ → S → S
  pub set_cr3 : ℕ → S → S
  pub set_cr4 : ℕ → S → S
  pub flags : S → ℕ
  pub popf : ℕ → S → S
  pub ebp : S → ℕ
  pub esp : S → ℕ
  pub identify : ℕ → S → (ℕ × ℕ × ℕ × ℕ) × S
  pub rdtsc : S → ℕ × S

-- the `width` bytes at `p`, the low one first, as a number, and a number put there
unfoldable pub value_at : ℕ → Memory → ℕ → ℕ
value_at zero m p = 0
value_at (suc width) m p = m p + 256 * value_at width m (p + 1)

unfoldable pub put_value : ℕ → Memory → ℕ → ℕ → Memory
put_value zero m p v = m
put_value (suc width) m p v = put_value width (store m p v) (p + 1) (v / 256)

-- `rep ins`, with the direction flag clear: `cnt` values of `width` bytes from a port to memory
unfoldable pub rep_ins : {S : Type 0} → ℕ → (S → ℕ × S) → ℕ → ℕ → Memory × S → Memory × S
rep_ins width read addr zero s = s
rep_ins width read addr (suc cnt) (m, s) =
    let (v, s') = read s in rep_ins width read (addr + width) cnt (put_value width m addr v, s')

-- `rep outs`
unfoldable pub rep_outs : {S : Type 0} → ℕ → (ℕ → S → S) → ℕ → ℕ → Memory → S → S
rep_outs width write addr zero m s = s
rep_outs width write addr (suc cnt) m s =
    rep_outs width write (addr + width) cnt m (write (value_at width m addr) s)

-- the low 16 bits of a port's number, as `%w1` and `%dx` have them
abbrev pub port16 : ℕ → ℕ
port16 port = port % 2 ^ 16

module _ {S : Type 0} (p : Processor S) where
  pub breakpoint : S → S
  breakpoint s = p.int3 s

  unfoldable pub inb : ℕ → S → ℕ × S
  inb port s = p.in8 (port16 port) s

  unfoldable pub insb : ℕ → ℕ → ℕ → Memory × S → Memory × S
  insb port addr cnt (m, s) = rep_ins 1 (p.in8 (port16 port)) addr cnt (m, p.cld s)

  pub inw : ℕ → S → ℕ × S
  inw port s = p.in16 (port16 port) s

  unfoldable pub insw : ℕ → ℕ → ℕ → Memory × S → Memory × S
  insw port addr cnt (m, s) = rep_ins 2 (p.in16 (port16 port)) addr cnt (m, p.cld s)

  pub inl : ℕ → S → ℕ × S
  inl port s = p.in32 (port16 port) s

  unfoldable pub insl : ℕ → ℕ → ℕ → Memory × S → Memory × S
  insl port addr cnt (m, s) = rep_ins 4 (p.in32 (port16 port)) addr cnt (m, p.cld s)

  unfoldable pub outb : ℕ → ℕ → S → S
  outb port data_byte s = p.out8 (port16 port) (data_byte % 2 ^ 8) s

  unfoldable pub outsb : ℕ → ℕ → ℕ → Memory → S → S
  outsb port addr cnt m s = rep_outs 1 (p.out8 (port16 port)) addr cnt m (p.cld s)

  unfoldable pub outw : ℕ → ℕ → S → S
  outw port data_half s = p.out16 (port16 port) (data_half % 2 ^ 16) s

  unfoldable pub outsw : ℕ → ℕ → ℕ → Memory → S → S
  outsw port addr cnt m s = rep_outs 2 (p.out16 (port16 port)) addr cnt m (p.cld s)

  unfoldable pub outsl : ℕ → ℕ → ℕ → Memory → S → S
  outsl port addr cnt m s = rep_outs 4 (p.out32 (port16 port)) addr cnt m (p.cld s)

  pub outl : ℕ → ℕ → S → S
  outl port data_word s = p.out32 (port16 port) (data_word % 2 ^ 32) s

  pub invlpg : ℕ → S → S
  invlpg addr s = p.forget_page addr s

  pub lidt : ℕ → Memory → S → S
  lidt addr m s = p.load_idt addr m s

  pub lgdt : ℕ → Memory → S → S
  lgdt addr m s = p.load_gdt addr m s

  pub lldt : ℕ → S → S
  lldt sel s = p.load_ldt (sel % 2 ^ 16) s

  pub ltr : ℕ → S → S
  ltr sel s = p.load_tr (sel % 2 ^ 16) s

  pub lcr0 : ℕ → S → S
  lcr0 val s = p.set_cr0 val s

  pub rcr0 : S → ℕ
  rcr0 s = p.cr0 s

  pub rcr2 : S → ℕ
  rcr2 s = p.cr2 s

  unfoldable pub lcr3 : ℕ → S → S
  lcr3 val s = p.set_cr3 val s

  unfoldable pub rcr3 : S → ℕ
  rcr3 s = p.cr3 s

  pub lcr4 : ℕ → S → S
  lcr4 val s = p.set_cr4 val s

  pub rcr4 : S → ℕ
  rcr4 s = p.cr4 s

  unfoldable pub tlbflush : S → S
  tlbflush s = p.set_cr3 (p.cr3 s) s

  pub read_eflags : S → ℕ
  read_eflags s = p.flags s

  pub write_eflags : ℕ → S → S
  write_eflags eflags s = p.popf eflags s

  pub read_ebp : S → ℕ
  read_ebp s = p.ebp s

  pub read_esp : S → ℕ
  read_esp s = p.esp s

  -- `if (ptr) *ptr = v;`
  abbrev pub put_if : ℕ → ℕ → Memory → Memory
  put_if ptr v m = if ptr == 0 then m else put_value 4 m ptr v

  unfoldable pub cpuid : ℕ → ℕ → ℕ → ℕ → ℕ → Memory × S → Memory × S
  cpuid info eaxp ebxp ecxp edxp (m, s) =
      let ((eax, ebx, ecx, edx), s') = p.identify info s in
      (put_if edxp edx (put_if ecxp ecx (put_if ebxp ebx (put_if eaxp eax m))), s')

  pub read_tsc : S → ℕ × S
  read_tsc s = p.rdtsc s

-- what was at `addr`, and the memory with the new value there
unfoldable pub xchg : ℕ → ℕ → Memory → ℕ × Memory
xchg addr newval m = (value_at 4 m addr, put_value 4 m addr newval)
