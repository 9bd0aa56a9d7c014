-- ===== src/Console/Ring.antt =====
-- kern/console.c: the input ring `cons`, filled by the interrupt routines and emptied by cons_getc.
pub mod Queue
pub mod Line
pub mod Drain
pub mod Getchar
pub mod Typing
pub mod Tests
use sisop_tps.Prelude.{
  ℕ, zero, suc, ◌+◌, ◌%◌, Bool, true, false, not, List, ◌==◌, if◌then◌else◌, get_or, set,
}
use sisop_tps.Prelude.Run.{Run, done, no_fuel, ◌>>=◌}
use sisop_tps.Console.{Machine}
use sisop_tps.Console.Keyboard.{minus_one, serial_proc_data, kbd_proc_data}

abbrev pub consbufsize : ℕ
consbufsize = 512

-- the position behind `pos`, back to 0 at the end
abbrev pub advance : ℕ → ℕ
advance pos = if pos + 1 == consbufsize then 0 else pos + 1

module _ {W : Type 0} where
  -- the body of the loop of `cons_intr`
  pub cons_store : ℕ → Machine W → Machine W
  cons_store c m =
      if c == 0 then m else record m { buf = set m.buf m.wpos (c % 256); wpos = advance m.wpos }

  -- `while ((c = (*proc)()) != -1)`; the device decides how often it goes round
  pub cons_intr : ℕ → (Machine W → Run (ℕ × Machine W)) → Machine W → Run (Machine W)
  cons_intr zero proc m = no_fuel
  cons_intr (suc f) proc m = proc m >>= λ r. elim (r.0 == minus_one) [
    | true ↦ done r.1
    | false ↦ cons_intr f proc (cons_store r.0 r.1)
  ]

  -- `cons_getc` behind the polling
  pub cons_take : Machine W → ℕ × Machine W
  cons_take m =
      if not (m.rpos == m.wpos)
      then (get_or m.buf m.rpos 0, record m { rpos = advance m.rpos })
      else (0, m)

module _ {W : Type 0} (inb : ℕ → W → ℕ × W) (outb : ℕ → ℕ → W → W) (string_at : ℕ → List ℕ)
    (error_address : ℕ → ℕ) where
  pub serial_intr : ℕ → Machine W → Run (Machine W)
  serial_intr f m =
      if m.serial_exists
      then cons_intr f (serial_proc_data inb outb string_at error_address) m
      else done m

  pub kbd_intr : ℕ → Machine W → Run (Machine W)
  kbd_intr f m = cons_intr f (kbd_proc_data inb outb string_at error_address) m

  pub cons_getc : ℕ → Machine W → Run (ℕ × Machine W)
  cons_getc f m = serial_intr f m >>= λ m₁. kbd_intr f m₁ >>= λ m₂. done (cons_take m₂)

  -- `while ((c = cons_getc()) == 0)`
  pub getchar : ℕ → Machine W → Run (ℕ × Machine W)
  getchar zero m = no_fuel
  getchar (suc f) m =
      cons_getc (suc f) m >>= λ r. elim (r.0 == 0) [ true ↦ getchar f r.1 | false ↦ done r ]
