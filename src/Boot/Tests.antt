-- ===== src/Boot/Tests.antt =====
-- The boot loader on a drive that is busy for two polls after a command, with a kernel of two segments.
use sisop_tps.Prelude.{
  ℕ, zero, suc, ◌+◌, ◌-◌, ◌*◌, ◌%◌, ◌≤◌, ◌<◌, ◌≡◌, ◌⊎◌, refl, ap, ◌∙◌, true, false, inl, inr,
  Bool-cases, List, [], ◌∷◌, ◌==◌, if◌then◌else◌, get_or, bit_and, arith,
}
use sisop_tps.Prelude.Run.{Returns}
use sisop_tps.Memory.{Memory, inside}
use sisop_tps.Boot.{Ports, bootmain, e_entry, entered, bad}
use sisop_tps.Boot.Disk.{Drive}
use sisop_tps.Boot.Segment.{Loads}
use sisop_tps.Boot.Kernel.{
  header, seg_pa, seg_size, seg_offset, Loadable, Loaded, kernel, bootmain-Loaded, bootmain-bad,
}

record Ide : Type 0 where
  registers : ℕ → ℕ
  sector : ℕ
  wait : ℕ

abbrev pub named : (ℕ → ℕ) → ℕ
named r = r 0x1f3 + 256 * r 0x1f4 + 65536 * r 0x1f5 + 16777216 * (r 0x1f6 % 16)

abbrev write_port : ℕ → ℕ → Ide → Ide
write_port p b w = elim (p == 0x1f7) [
  | true ↦ record { registers = w.registers; sector = named w.registers; wait = 2 }
  | false ↦ record {
    registers = λ r. if r == p then b else w.registers r;
    sector = w.sector;
    wait = w.wait;
  }
]

-- the first bytes of the image: magic, entry point, place and number of the headers, and two headers
abbrev pub first_bytes : List ℕ
first_bytes =
    0x7f ∷ 0x45 ∷ 0x4c ∷ 0x46 ∷ 1 ∷ 1 ∷ 1 ∷ 0 ∷ 0 ∷ 0 ∷ 0 ∷ 0 ∷ 0 ∷ 0 ∷ 0 ∷ 0 ∷ 2 ∷ 0 ∷ 3 ∷ 0 ∷ 1
    ∷ 0 ∷ 0 ∷ 0 ∷ 12 ∷ 0 ∷ 16 ∷ 0 ∷ 52 ∷ 0 ∷ 0 ∷ 0 ∷ 0 ∷ 0 ∷ 0 ∷ 0 ∷ 0 ∷ 0 ∷ 0 ∷ 0 ∷ 52 ∷ 0 ∷ 32 ∷ 0
    ∷ 2 ∷ 0 ∷ 0 ∷ 0 ∷ 0 ∷ 0 ∷ 0 ∷ 0 ∷ 1 ∷ 0 ∷ 0 ∷ 0 ∷ 0 ∷ 16 ∷ 0 ∷ 0 ∷ 0 ∷ 0 ∷ 16 ∷ 240 ∷ 0 ∷ 0 ∷ 16
    ∷ 0 ∷ 88 ∷ 2 ∷ 0 ∷ 0 ∷ 88 ∷ 2 ∷ 0 ∷ 0 ∷ 5 ∷ 0 ∷ 0 ∷ 0 ∷ 0 ∷ 16 ∷ 0 ∷ 0 ∷ 1 ∷ 0 ∷ 0 ∷ 0 ∷ 0 ∷ 32
    ∷ 0 ∷ 0 ∷ 0 ∷ 32 ∷ 16 ∷ 240 ∷ 0 ∷ 32 ∷ 16 ∷ 0 ∷ 100 ∷ 0 ∷ 0 ∷ 0 ∷ 100 ∷ 0 ∷ 0 ∷ 0 ∷ 6 ∷ 0 ∷ 0
    ∷ 0 ∷ 0 ∷ 16 ∷ 0 ∷ 0 ∷ []

-- the image at the second sector
abbrev pub platter : ℕ → ℕ
platter q = get_or first_bytes (q - 512) 0xaa

abbrev ide : Ports Ide
ide = record {
  inb = λ p w. (
    if w.wait % 3 == 0 then 0x40 else 0x80,
    record { registers = w.registers; sector = w.sector; wait = w.wait % 3 - 1 },
  );
  outb = write_port;
  outw = λ p b w. w;
  insl = λ p dst n m w.
      ((λ q. if inside q dst 512 then platter (512 * w.sector + (q - dst)) else m q), w);
}

write_port_register :
    (p b r : ℕ) (w : Ide)
    → p ≤ 0x1f6
    → ((write_port p b w).registers r ≡ (if r == p then b else w.registers r))
      × ((write_port p b w).wait ≡ w.wait)
write_port_register p b r w h =
    let other : (p == 0x1f7) ≡ false = ground arith in rw (other, write_port) (refl, refl)

pub shown_ready :
    (n : ℕ) → (bit_and (if n % 3 == 0 then 0x40 else 0x80) 0xc0 == 0x40) ≡ (n % 3 == 0)
shown_ready n = elim (Bool-cases (n % 3 == 0)) [ inl z ↦ rw z refl | inr z ↦ rw z refl ]

abbrev answers : Drive ide platter 2
answers = record {
  register = λ w. w.registers;
  selected = λ w. w.sector;
  busy = λ w. w.wait % 3;
  sets = λ p b r w idle _ l _.
      let (set, as_before) = write_port_register p b r w l in
      (set, ap (λ n. n % 3) as_before ∙ idle);
  selects = λ w _ _ _. (refl, refl);
  busy_le = λ w. omega arith;
  ready = λ w. shown_ready w.wait;
  polled = λ w. omega arith;
  remembers = λ w. refl;
  taken = λ w. 0;
  still = λ w. refl;
  hands_out = λ dst q m w _ f. refl;
}

-- no memory and a drive that has just been switched on
abbrev pub blank_memory : Memory
blank_memory _ = 0

abbrev switched_on : Ide
switched_on = record { registers = λ _. 0; sector = 0; wait = 1 }

segments_read :
    (seg_pa (kernel platter) 0 ≡ 0x10_0000)
    × (seg_size (kernel platter) 0 ≡ 600)
    × (seg_offset (kernel platter) 0 ≡ 4096)
    × (seg_pa (kernel platter) 1 ≡ 0x10_2000)
    × (seg_size (kernel platter) 1 ≡ 100)
    × (seg_offset (kernel platter) 1 ≡ 8192)
unfolding header seg_pa seg_size seg_offset
segments_read = (refl, refl, refl, refl, refl, refl)

below_two : (j : ℕ) → j < 2 → (j ≡ 0) ⊎ (j ≡ 1)
below_two zero l = inl refl
below_two (suc zero) l = inr refl
below_two (suc (suc j)) l = absurd (omega arith)

headers_fit : header (kernel platter) 2 ≤ 4096
unfolding header
headers_fit = omega arith

pub loadable : Loadable (kernel platter) 2
loadable =
    let (pa, size, offset, pa₁, size₁, offset₁) = segments_read in
    record {
      number = refl;
      headers = headers_fit;
      aligned =
          λ j l. elim (below_two j l) [ inl e ↦ rw e (omega arith) | inr e ↦ rw e (omega arith) ];
      low = λ j l. elim (below_two j l) [ inl e ↦ rw e (omega arith) | inr e ↦ rw e (omega arith) ];
      short =
          λ j l. elim (below_two j l) [ inl e ↦ rw e (omega arith) | inr e ↦ rw e (omega arith) ];
      clear = λ j l. elim (below_two j l) [
        | inl e ↦ rw e (inr (omega arith))
        | inr e ↦ rw e (inr (omega arith))
      ];
      apart = λ i j l h.
          let first : i ≡ 0 = omega arith in
          let second : j ≡ 1 = omega arith in rw (first, second) (inl (omega arith));
    }

bootmain-Loaded_example :
    Returns
      (bootmain ide 3 (blank_memory, switched_on))
      (λ r. (r.0 ≡ entered (e_entry (kernel platter) 0)) × Loaded (kernel platter) 2 r.1)
bootmain-Loaded_example =
    bootmain-Loaded answers 2 3 blank_memory switched_on refl loadable (omega arith)

-- nothing but zeros on the disk
abbrev erased : ℕ → ℕ
erased _ = 0

abbrev ide_erased : Ports Ide
ide_erased = record {
  inb = ide.inb;
  outb = ide.outb;
  outw = ide.outw;
  insl = λ p dst n m w. ((λ q. if inside q dst 512 then 0 else m q), w);
}

answers_erased : Drive ide_erased erased 2
answers_erased = record {
  register = answers.register;
  selected = answers.selected;
  busy = answers.busy;
  sets = answers.sets;
  selects = answers.selects;
  busy_le = answers.busy_le;
  ready = answers.ready;
  polled = answers.polled;
  remembers = answers.remembers;
  taken = λ w. 0;
  still = λ w. refl;
  hands_out = λ dst q m w _ f. refl;
}

bootmain-bad_example : Returns (bootmain ide_erased 3 (blank_memory, switched_on)) (λ r.
    (r.0 ≡ bad)
    × Loads erased blank_memory 0x1_0000 4096 0 r.1
    × ((w' : Ide) × (r.2 ≡ ide_erased.outw 0x8a00 0x8e00 (ide_erased.outw 0x8a00 0x8a00 w'))))
bootmain-bad_example =
    bootmain-bad answers_erased 3 blank_memory switched_on (λ e. omega arith) (omega arith)
