-- ===== src/Console.antt =====
-- kern/console.c: the state of the console's devices, and output to the serial port, the parallel port and
-- the CGA display. The port instructions of inc/x86.h act on a world `W` that is a parameter: `inb` may
-- answer anything and change it.
pub mod Scancodes
pub mod Screen
pub mod Keyboard
pub mod Ring
pub mod Shift
pub mod Init
mod Tests
use sisop_tps.Prelude.{
  ℕ, zero, suc, ◌+◌, ◌-◌, ◌*◌, ◌/◌, ◌%◌, Bool, true, false, List, [], ◌∷◌, ◌++◌, ◌==◌, ltb, leb,
  if◌then◌else◌, bit_and, bit_or, set, take, drop, replicate,
}

-- the file's static variables, with the world behind the ports; `crt_buf` is the display's memory that the pointer
-- leads to, kept here and no more in the world once `cga_init` has found it, and `buf`, `rpos`, `wpos` are
-- the fields of `cons`
pub record Machine (W : Type 0) : Type 0 where
  pub world : W
  pub serial_exists : Bool
  pub addr_6845 : ℕ
  pub crt_buf : List ℕ
  pub crt_pos : ℕ
  pub shift : ℕ
  pub buf : List ℕ
  pub rpos : ℕ
  pub wpos : ℕ

abbrev pub crt_cols : ℕ
crt_cols = 80

abbrev pub crt_size : ℕ
crt_size = 2000

abbrev pub com1 : ℕ
com1 = 0x3f8

-- what a `uint8_t` parameter takes of an `int`
abbrev pub low_byte : ℕ → ℕ
low_byte c = c % 256

abbrev pub blank : ℕ
blank = 0x0720

-- `if (!(c & ~0xFF)) c |= 0x0700;`
unfoldable pub with_attribute : ℕ → ℕ
with_attribute c = if bit_and c 0xffff_ff00 == 0 then bit_or c 0x0700 else c

module _ {W : Type 0} where
  -- `crt_pos -= (crt_pos % CRT_COLS)`
  abbrev pub carriage_return : Machine W → Machine W
  carriage_return m = record m { crt_pos = m.crt_pos - m.crt_pos % crt_cols }

  -- the switch; `tab` is what the tab case does by its calls of `cons_putc`
  unfoldable pub cga_switch : (Machine W → Machine W) → ℕ → Machine W → Machine W
  cga_switch tab c m =
      if bit_and c 0xff == 0x08
      then if ltb 0 m.crt_pos
        then record m {
          crt_pos = m.crt_pos - 1;
          crt_buf = set m.crt_buf (m.crt_pos - 1) (bit_or (bit_and c 0xffff_ff00) 0x20 % 0x1_0000);
        }
        else m
      else if bit_and c 0xff == 0x0a
      then carriage_return (record m { crt_pos = (m.crt_pos + crt_cols) % 0x1_0000 })
      else if bit_and c 0xff == 0x0d
      then carriage_return m
      else if bit_and c 0xff == 0x09
      then tab m
      else record m {
        crt_pos = (m.crt_pos + 1) % 0x1_0000;
        crt_buf = set m.crt_buf m.crt_pos (c % 0x1_0000);
      }

  -- the scroll: all rows move up, and the last one is blanked
  unfoldable pub cga_scroll : Machine W → Machine W
  cga_scroll m =
      if leb crt_size m.crt_pos
      then record m {
        crt_buf = take (crt_size - crt_cols) (drop crt_cols m.crt_buf) ++ replicate crt_cols blank;
        crt_pos = m.crt_pos - crt_cols;
      }
      else m

module _ {W : Type 0} (inb : ℕ → W → ℕ × W) (outb : ℕ → ℕ → W → W) where
  abbrev pub in_port : ℕ → Machine W → ℕ × Machine W
  in_port port m = let (b, w) = inb port m.world in (b, record m { world = w })

  abbrev pub out_port : ℕ → ℕ → Machine W → Machine W
  out_port port b m = record m { world = outb port (low_byte b) m.world }

  unfoldable pub delay : Machine W → Machine W
  delay m = (in_port 0x84 (in_port 0x84 (in_port 0x84 (in_port 0x84 m).1).1).1).1

  -- `for (i = 0; !(inb(port) & mask) && i < n; i++) delay();`
  unfoldable pub wait_ready : ℕ → ℕ → ℕ → Machine W → Machine W
  wait_ready port mask zero m = (in_port port m).1
  wait_ready port mask (suc n) m = elim (bit_and (in_port port m).0 mask == 0) [
    | true ↦ wait_ready port mask n (delay (in_port port m).1)
    | false ↦ (in_port port m).1
  ]

  unfoldable pub serial_putc : ℕ → Machine W → Machine W
  serial_putc c m = out_port com1 c (wait_ready (com1 + 5) 0x20 12800 m)

  unfoldable pub serial_init : Machine W → Machine W
  serial_init m =
      let m₁ = out_port (com1 + 2) 0 m in
      let m₂ = out_port (com1 + 3) 0x80 m₁ in
      let m₃ = out_port com1 (115200 / 9600) m₂ in
      let m₄ = out_port (com1 + 1) 0 m₃ in
      let m₅ = out_port (com1 + 3) 0x03 m₄ in
      let m₆ = out_port (com1 + 4) 0 m₅ in
      let m₇ = out_port (com1 + 1) 0x01 m₆ in
      let (lsr, m₈) = in_port (com1 + 5) m₇ in
      let m₉ = record m₈ { serial_exists = if lsr == 0xff then false else true } in
      (in_port com1 (in_port (com1 + 2) m₉).1).1

  unfoldable pub lpt_putc : ℕ → Machine W → Machine W
  lpt_putc c m =
      out_port 0x37a 0x08 (out_port 0x37a 0x0d (out_port 0x378 c (wait_ready 0x379 0x80 12800 m)))

  unfoldable pub cga_cursor : Machine W → Machine W
  cga_cursor m = out_port (m.addr_6845 + 1) m.crt_pos (
      out_port m.addr_6845 15
        (out_port (m.addr_6845 + 1) (m.crt_pos / 256) (out_port m.addr_6845 14 m)))

  unfoldable pub cga_putc : (Machine W → Machine W) → ℕ → Machine W → Machine W
  cga_putc tab c m = cga_cursor (cga_scroll (cga_switch tab (with_attribute c) m))

  -- `cons_putc`, and `cga_putc` for a tab, call each other: the first argument bounds the depth.
  unfoldable pub cons_putc_depth : ℕ → ℕ → Machine W → Machine W
  cons_putc_depth zero c m = m
  cons_putc_depth (suc d) c m =
      let space = cons_putc_depth d b' ' in
      cga_putc (λ n. space (space (space (space (space n))))) c (lpt_putc c (serial_putc c m))

  -- A tab calls for spaces, and a space for nothing: two levels are all.
  unfoldable pub cons_putc : ℕ → Machine W → Machine W
  cons_putc = cons_putc_depth 2
