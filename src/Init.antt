-- ===== src/Init.antt =====
-- kern/init.c: the start of the kernel, the backtrace test, and panic. What they print on is a `Terminal`.
pub mod Order
mod Tests
use sisop_tps.Prelude.{
  ℕ, zero, suc, true, false, List, [], ◌∷◌, ◌==◌, if◌then◌else◌, codes, slt, sub32, replicate,
}
use sisop_tps.Prelude.Run.{Run, done, no_fuel, ◌>>=◌}
use sisop_tps.Memory.{Memory}
use sisop_tps.Strings.Block.{memset}
use sisop_tps.Readline.{Terminal}
use sisop_tps.Console.{Machine}
use sisop_tps.Console.Init.{cons_init, console}
use sisop_tps.Monitor.{Kernel, monitor}

module _ {S : Type 0} (t : Terminal S) where
  -- mon_backtrace of kern/monitor.c, which only returns 0
  unfoldable pub mon_backtrace : S → Run (ℕ × S)
  mon_backtrace s = done (0, s)

  -- `x` is an `int`; the fuel bounds the depth
  unfoldable pub test_backtrace : ℕ → ℕ → S → Run S
  test_backtrace zero x s = no_fuel
  test_backtrace (suc f) x s = t.cprintf (codes "entering test_backtrace %d\n") (x ∷ []) s >>= λ s₁.
      elim (slt 0 x) [
        | true ↦ test_backtrace f (sub32 x 1) s₁
        | false ↦ mon_backtrace s₁ >>= λ r. done r.1
      ]
      >>= λ s₂. t.cprintf (codes "leaving test_backtrace %d\n") (x ∷ []) s₂

  -- `cprintf(prefix, file, line); vcprintf(fmt, ap); cprintf("\n");`
  unfoldable pub report : List ℕ → ℕ → ℕ → List ℕ → List ℕ → S → Run S
  report prefix file line fmt ap s = t.cprintf prefix (file ∷ line ∷ []) s >>= λ s₁.
      t.cprintf fmt ap s₁ >>= λ s₂. t.cprintf (codes "\n") [] s₂

  unfoldable pub warn : ℕ → ℕ → List ℕ → List ℕ → S → Run S
  warn file line fmt ap s = report (codes "kernel warning at %s:%d: ") file line fmt ap s

  -- `_panic` up to `dead`: `panicstr`, and the terminal; `at` is the address of the format `fmt`
  unfoldable pub panic_report : ℕ → ℕ → ℕ → List ℕ → List ℕ → ℕ × S → Run (ℕ × S)
  panic_report file line at fmt ap (panicstr, s) =
      if panicstr == 0
      then (report (codes "kernel panic at %s:%d: ") file line fmt ap s >>= λ s'. done (at, s'))
      else done (panicstr, s)

  module _ (k : Kernel) where
    -- `while (1) monitor(NULL);`, whose calls do not come back
    unfoldable pub monitor_forever : ℕ → ℕ → ℕ → Memory → S → Run S
    monitor_forever zero f fuel m s = no_fuel
    monitor_forever (suc g) f fuel m s =
        monitor t k f fuel m s >>= λ s'. monitor_forever g f fuel m s'

    unfoldable pub panic : ℕ → ℕ → ℕ → Memory → ℕ → ℕ → ℕ → List ℕ → List ℕ → ℕ × S → Run S
    panic g f fuel m file line at fmt ap s =
        panic_report file line at fmt ap s >>= λ r. monitor_forever g f fuel m r.1

-- the statics of the console, which lie between `__bss_start` and `end`, when those bytes are cleared
abbrev pub clear_statics : {W : Type 0} → Machine W → Machine W
clear_statics s = record {
  world = s.world;
  serial_exists = false;
  addr_6845 = 0;
  crt_buf = [];
  crt_pos = 0;
  shift = 0;
  buf = replicate 512 0;
  rpos = 0;
  wpos = 0;
}

-- The kernel starts on the console.
module _ {W : Type 0} (peek : ℕ → W → ℕ) (poke : ℕ → ℕ → W → W) (inb : ℕ → W → ℕ × W)
    (outb : ℕ → ℕ → W → W) (string_at : ℕ → List ℕ) (error_address : ℕ → ℕ) (k : Kernel) where
  -- `start` and `end` are `__bss_start` and `end`, whose bytes are cleared in memory, and with them the statics
  -- that the console keeps apart; the two last fuels are for monitor
  unfoldable pub i386_init : ℕ → ℕ → ℕ → ℕ → ℕ → Memory → Machine W → Run (Machine W)
  i386_init g f fuel start end m s =
      let t = console peek poke inb outb string_at error_address fuel in
      let m₁ = memset m start 0 (sub32 end start) in
      cons_init peek poke inb outb string_at error_address (clear_statics s) >>= λ s₁.
      t.cprintf (codes "6828 decimal is %o octal!\n") (6828 ∷ []) s₁ >>= λ s₂.
      test_backtrace t 6 5 s₂ >>= λ s₃. monitor_forever t k g f fuel m₁ s₃
