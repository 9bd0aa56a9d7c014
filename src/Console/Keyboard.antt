-- ===== src/Console/Keyboard.antt =====
-- kern/console.c: kbd_proc_data and serial_proc_data. Each answers with an `int`, -1 for no data.
use sisop_tps.Prelude.{
  ℕ, ◌+◌, ◌-◌, Bool, not, ◌&&◌, List, [], ◌==◌, leb, if◌then◌else◌, bit_and, bit_or, bit_xor, codes,
}
use sisop_tps.Prelude.Run.{Run, done, ◌>>=◌}
use sisop_tps.Console.{Machine, in_port, out_port, com1}
use sisop_tps.Console.Scancodes.{
  shift_key, ctl, alt, capslock, e0esc, shiftcode, togglecode, normalmap, shiftmap, ctlmap,
}
use sisop_tps.Printf.{cprintf}

abbrev pub minus_one : ℕ
minus_one = 0xffff_ffff

abbrev pub key_del : ℕ
key_del = 0xe9

-- `~x` on a `uint32_t`
abbrev pub not32 : ℕ → ℕ
not32 x = 0xffff_ffff - x

abbrev pub has : ℕ → ℕ → Bool
has x mask = not (bit_and x mask == 0)

-- `charcode[i][data]`
unfoldable pub charcode : ℕ → ℕ → ℕ
unfolding normalmap shiftmap ctlmap
charcode i data_byte =
    if i == 0 then normalmap data_byte else if i == 1 then shiftmap data_byte else ctlmap data_byte

-- Caps Lock swaps the cases.
unfoldable pub caps : ℕ → ℕ
caps c = if leb b'a' c && leb c b'z' then c - 32 else if leb b'A' c && leb c b'Z' then c + 32 else c

-- a key pressed, behind the tests for releases: the character, and `shift`
unfoldable pub kbd_press : ℕ → ℕ → ℕ × ℕ
unfolding shiftcode togglecode charcode caps
kbd_press shift data_byte =
    let s = bit_xor (bit_or shift (shiftcode data_byte)) (togglecode data_byte) in
    let c = charcode (bit_and s (bit_or ctl shift_key)) data_byte in
    (if has s capslock then caps c else c, s)

-- what one byte from the keyboard does to `shift`, with the character or 0
unfoldable pub kbd_byte : ℕ → ℕ → ℕ × ℕ
unfolding kbd_press
kbd_byte shift data_byte =
    if data_byte == 0xe0
    then (0, bit_or shift e0esc)
    else if has data_byte 0x80
    then (
      0,
      bit_and shift (
          not32 (
            bit_or (shiftcode (if has shift e0esc then data_byte else bit_and data_byte 0x7f))
              e0esc)),
    )
    else if has shift e0esc
    then kbd_press (bit_and shift (not32 e0esc)) (bit_or data_byte 0x80)
    else kbd_press shift data_byte

-- Ctrl-Alt-Del; the other two ways out of `kbd_byte` return before the test, with 0, which it refuses
abbrev pub reboots : ℕ → ℕ → Bool
reboots shift c = bit_and (not32 shift) (bit_or ctl alt) == 0 && c == key_del

module _ {W : Type 0} (inb : ℕ → W → ℕ × W) (outb : ℕ → ℕ → W → W) (string_at : ℕ → List ℕ)
    (error_address : ℕ → ℕ) where
  unfoldable pub serial_proc_data : Machine W → Run (ℕ × Machine W)
  serial_proc_data m =
      let (lsr, m₁) = in_port inb outb (com1 + 5) m in
      done (if bit_and lsr 0x01 == 0 then (minus_one, m₁) else in_port inb outb com1 m₁)

  -- the character, after `Rebooting!` and the reset where the keys ask for it
  unfoldable pub kbd_reboot : ℕ → Machine W → Run (ℕ × Machine W)
  kbd_reboot c m =
      if reboots m.shift c
      then (cprintf inb outb string_at error_address (codes "Rebooting!\n") [] m >>= λ r.
          done (c, out_port inb outb 0x92 0x3 r.0))
      else done (c, m)

  unfoldable pub kbd_proc_data : Machine W → Run (ℕ × Machine W)
  kbd_proc_data m =
      let (stat, m₁) = in_port inb outb 0x64 m in
      if bit_and stat 0x01 == 0
      then done (minus_one, m₁)
      else if has stat 0x20
      then done (minus_one, m₁)
      else let (data_byte, m₂) = in_port inb outb 0x60 m₁ in
        let r = kbd_byte m₂.shift data_byte in kbd_reboot r.0 (record m₂ { shift = r.1 })
