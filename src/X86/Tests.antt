-- ===== src/X86/Tests.antt =====
-- The boot loader on a processor that knows nothing but a drive, which hands out a word at a time.
use sisop_tps.Prelude.{
  ℕ, zero, suc, ◌+◌, ◌-◌, ◌*◌, ◌%◌, ◌≤◌, ◌<◌, ◌≡◌, refl, ap, ◌∙◌, true, false, Bool, ◌&&◌, List, [],
  ◌∷◌, ◌==◌, ltb, if◌then◌else◌, get_or, arith,
}
use sisop_tps.Prelude.Run.{Returns}
use sisop_tps.Memory.{IsBytes}
use sisop_tps.X86.{Processor, value_at}
use sisop_tps.X86.Loading.{WordDrive, ports, bootmain-ports}
use sisop_tps.Boot.{bootmain, entered, e_entry}
use sisop_tps.Boot.Kernel.{Loaded, kernel}
use sisop_tps.Boot.Tests.{first_bytes, platter, blank_memory, named, shown_ready, loadable}

record Cpu : Type 0 where
  registers : ℕ → ℕ
  sector : ℕ
  wait : ℕ
  given : ℕ

abbrev write_port : ℕ → ℕ → Cpu → Cpu
write_port p b w = elim (p == 0x1f7) [
  | true ↦ record { registers = w.registers; sector = named w.registers; wait = 2; given = 0 }
  | false ↦ record w { registers = λ r. if r == p then b else w.registers r }
]

abbrev cpu : Processor Cpu
cpu = record {
  int3 = λ s. s;
  in8 = λ port s. (if s.wait % 3 == 0 then 0x40 else 0x80, record s { wait = s.wait % 3 - 1 });
  in16 = λ port s. (0, s);
  in32 =
      λ port s. (value_at 4 platter (512 * s.sector + s.given), record s { given = s.given + 4 });
  out8 = write_port;
  out16 = λ port v s. s;
  out32 = λ port v s. s;
  cld = λ s. s;
  forget_page = λ addr s. s;
  load_idt = λ addr m s. s;
  load_gdt = λ addr m s. s;
  load_ldt = λ sel s. s;
  load_tr = λ sel s. s;
  cr0 = λ s. 0;
  cr2 = λ s. 0;
  cr3 = λ s. 0;
  cr4 = λ s. 0;
  set_cr0 = λ v s. s;
  set_cr3 = λ v s. s;
  set_cr4 = λ v s. s;
  flags = λ s. 2;
  popf = λ v s. s;
  ebp = λ s. 0;
  esp = λ s. 0;
  identify = λ info s. ((0, 0, 0, 0), s);
  rdtsc = λ s. (0, s);
}

write_port_register :
    (p b r : ℕ) (w : Cpu)
    → p ≤ 0x1f6
    → ((write_port p b w).registers r ≡ (if r == p then b else w.registers r))
      × ((write_port p b w).wait ≡ w.wait)
write_port_register p b r w h =
    let other : (p == 0x1f7) ≡ false = ground arith in rw (other, write_port) (refl, refl)

drive : WordDrive cpu platter 2
drive = record {
  register = λ w. w.registers;
  selected = λ w. w.sector;
  busy = λ w. w.wait % 3;
  taken = λ w. w.given;
  sets = λ p b r w idle _ l _.
      let (set, as_before) = write_port_register p b r w l in
      (set, ap (λ n. n % 3) as_before ∙ idle);
  selects = λ w _ _ _. (refl, refl);
  busy_le = λ w. omega arith;
  ready = λ w. shown_ready w.wait;
  polled = λ w. omega arith;
  remembers = λ w. refl;
  still = λ w. refl;
  hands = λ w _ l. refl;
  goes_on = λ w b _. (refl, b);
  stays = λ w. refl;
  cleared = λ w. (refl, refl, refl);
}

abbrev all_bytes : List ℕ → Bool
all_bytes [] = true
all_bytes (b ∷ bs) = ltb b 256 && all_bytes bs

get_or-lt : (bs : List ℕ) (i d : ℕ) → all_bytes bs ≡ true → d < 256 → get_or bs i d < 256
get_or-lt [] i d h l = l
get_or-lt (b ∷ bs) zero d h l = ground (arith, h)
get_or-lt (b ∷ bs) (suc i) d h l = get_or-lt bs i d (ground (arith, h)) l

platter-IsBytes : IsBytes platter
platter-IsBytes q = get_or-lt first_bytes (q - 512) 0xaa refl (omega arith)

switched_on : Cpu
switched_on = record { registers = λ _. 0; sector = 0; wait = 1; given = 0 }

bootmain-ports_example :
    Returns
      (bootmain (ports cpu) 3 (blank_memory, switched_on))
      (λ r. (r.0 ≡ entered (e_entry (kernel platter) 0)) × Loaded (kernel platter) 2 r.1)
bootmain-ports_example =
    bootmain-ports drive platter-IsBytes 2 3 blank_memory switched_on refl loadable (omega arith)
