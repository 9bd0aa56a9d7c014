-- ===== src/Printf.antt =====
-- kern/printf.c: cprintf on the console. `cnt` is an `int`; the pair is what `putdat` points to and the
-- machine.
pub mod Text
mod Tests
use sisop_tps.Prelude.{ℕ, List, add32}
use sisop_tps.Prelude.Run.{Run}
use sisop_tps.Console.{Machine, cons_putc}
use sisop_tps.Printfmt.Format.{printfmt}

module _ {W : Type 0} (inb : ℕ → W → ℕ × W) (outb : ℕ → ℕ → W → W) where
  -- `cputchar(ch); (*cnt)++;`
  unfoldable pub putch : ℕ → Machine W × ℕ → Machine W × ℕ
  putch ch (m, cnt) = (cons_putc inb outb ch m, add32 cnt 1)

  -- the machine afterwards, and the number returned; vcprintf is this with the list given
  unfoldable pub cprintf :
      (ℕ → List ℕ) → (ℕ → ℕ) → List ℕ → List ℕ → Machine W → Run (Machine W × ℕ)
  cprintf string_at error_address fmt ap m = printfmt putch string_at error_address fmt ap (m, 0)
