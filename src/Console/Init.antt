-- ===== src/Console/Init.antt =====
-- kern/console.c: cga_init, cons_init and the console's side of cprintf and readline. `peek` and `poke` read and
-- write a 16-bit cell of the display's memory in the world `W`; they are parameters, as the ports are.
pub mod Cursor
mod Tests
use sisop_tps.Prelude.{
  ℕ, zero, suc, ◌+◌, ◌*◌, ◌%◌, Bool, true, false, List, [], ◌∷◌, ◌==◌, if◌then◌else◌, bit_or, codes,
}
use sisop_tps.Prelude.Run.{Run, done, ◌>>=◌}
use sisop_tps.Readline.{Terminal}
use sisop_tps.Console.{Machine, crt_size, in_port, out_port, serial_init, cons_putc}
use sisop_tps.Console.Ring.{getchar}
use sisop_tps.Printf.{cprintf}

-- `KERNBASE + CGA_BUF` and `KERNBASE + MONO_BUF`
abbrev pub cga_buf : ℕ
cga_buf = 0xf00b_8000

abbrev pub mono_buf : ℕ
mono_buf = 0xf00b_0000

abbrev pub cga_base : ℕ
cga_base = 0x3d4

abbrev pub mono_base : ℕ
mono_base = 0x3b4

module _ {W : Type 0} (peek : ℕ → W → ℕ) (poke : ℕ → ℕ → W → W) where
  -- the `n` cells from `cp` on, as `crt_buf` shows them
  unfoldable pub cells : ℕ → ℕ → W → List ℕ
  cells zero cp w = []
  cells (suc n) cp w = peek cp w ∷ cells n (cp + 2) w

  -- `cp` and the machine behind the test for a colour display
  unfoldable pub cga_probe : Machine W → ℕ × Machine W
  cga_probe m =
      let was = peek cga_buf m.world in
      let w = poke cga_buf 0xa55a m.world in
      if peek cga_buf w == 0xa55a
      then (cga_buf, record m { world = poke cga_buf was w; addr_6845 = cga_base })
      else (mono_buf, record m { world = w; addr_6845 = mono_base })

  module _ (inb : ℕ → W → ℕ × W) (outb : ℕ → ℕ → W → W) where
    -- `pos`, read from the display's registers 14 and 15
    unfoldable pub cga_position : Machine W → ℕ × Machine W
    cga_position m =
        let (high, m₁) = in_port inb outb (m.addr_6845 + 1) (out_port inb outb m.addr_6845 14 m) in
        let (low, m₂) =
          in_port inb outb (m₁.addr_6845 + 1) (out_port inb outb m₁.addr_6845 15 m₁) in
        (bit_or (high * 256) low, m₂)

    -- what is left of cga_init behind the test
    unfoldable pub cga_take : ℕ × Machine W → Machine W
    cga_take (cp, m) =
        let (pos, m₁) = cga_position m in
        record m₁ { crt_buf = cells crt_size cp m₁.world; crt_pos = pos % 0x1_0000 }

    unfoldable pub cga_init : Machine W → Machine W
    cga_init m = cga_take (cga_probe m)

    module _ (string_at : ℕ → List ℕ) (error_address : ℕ → ℕ) where
      -- kbd_init does nothing
      unfoldable pub cons_init : Machine W → Run (Machine W)
      cons_init m =
          let m₁ = serial_init inb outb (cga_init m) in
          if m₁.serial_exists
          then done m₁
          else (cprintf inb outb string_at error_address (codes "Serial port does not exist!\n") []
                m₁
              >>= λ r. done r.0)

      -- what readline and the monitor use of the console: cputchar, getchar, cprintf and iscons
      abbrev pub console : ℕ → Terminal (Machine W)
      console fuel = record {
        getchar = getchar inb outb string_at error_address fuel;
        cputchar = cons_putc inb outb;
        cprintf = λ fmt ap m. cprintf inb outb string_at error_address fmt ap m >>= λ r. done r.0;
        iscons = true;
      }
