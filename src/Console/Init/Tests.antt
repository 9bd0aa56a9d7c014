-- ===== src/Console/Init/Tests.antt =====
-- A colour display: the register chosen, the registers and the cells.
use sisop_tps.Prelude.{
  ℕ, ◌%◌, ◌≡◌, refl, true, false, Bool-cases, inl, inr, ◌==◌, if◌then◌else◌, replicate, arith,
}
use sisop_tps.Console.{Machine, cga_cursor}
use sisop_tps.Console.Init.{cga_init, cga_buf}
use sisop_tps.Console.Init.Cursor.{Display, Recovers, cga_init-cga_cursor}

record Screen : Type 0 where
  chosen : ℕ
  register : ℕ → ℕ
  cell : ℕ → ℕ

abbrev peek : ℕ → Screen → ℕ
peek p w = w.cell p % 0x1_0000

abbrev poke : ℕ → ℕ → Screen → Screen
poke p v w = record w { cell = λ q. if q == p then v else w.cell q }

abbrev inb : ℕ → Screen → ℕ × Screen
inb port w = (w.register w.chosen, w)

abbrev outb : ℕ → ℕ → Screen → Screen
outb port b w =
    if port == 0x3d4
    then record w { chosen = b }
    else if port == 0x3d5
    then record w { register = λ s. if s == w.chosen then b else w.register s }
    else w

unwritten : (p q b : ℕ) (w : Screen) → peek p (outb q b w) ≡ peek p w
unwritten p q b w = elim (Bool-cases (q == 0x3d4)) [
  | inl y ↦ rw y refl
  | inr n ↦ elim (Bool-cases (q == 0x3d5)) [ inl y ↦ rw (n, y) refl | inr n' ↦ rw (n, n') refl ]
]

display : Display peek poke inb outb
display = record {
  chosen = λ w. w.chosen;
  register = λ w. w.register;
  chooses = λ r w. refl;
  chooses_only = λ r s w. refl;
  sets = λ b s w. refl;
  reads = λ w. refl;
  reads_only = λ s w. refl;
  pokes_only = λ v s w. refl;
  keeps = λ v w l. omega arith;
  apart = λ p v w n. let other : (p == cga_buf) ≡ false = ground (arith, n) in rw other refl;
  cell_lt = λ w. omega arith;
  unwritten = unwritten;
  unread = λ p q w. refl;
}

-- the cursor in the third row, on a blank screen
abbrev booted : Machine Screen
booted = record {
  world = record { chosen = 0; register = λ _. 0; cell = λ _. 0x720 };
  serial_exists = true;
  addr_6845 = 0x3d4;
  crt_buf = replicate 2000 0x0720;
  crt_pos = 165;
  shift = 0;
  buf = replicate 512 0;
  rpos = 0;
  wpos = 0;
}

cga_init-cga_cursor_example :
    Recovers peek poke booted (cga_init peek poke inb outb (cga_cursor inb outb booted))
cga_init-cga_cursor_example = cga_init-cga_cursor display booted refl (omega arith)
