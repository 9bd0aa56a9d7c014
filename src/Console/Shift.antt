-- ===== src/Console/Shift.antt =====
-- kern/console.c: the modifiers that `kbd_proc_data` keeps in `shift`, and the characters it answers.
use sisop_tps.Prelude.{
  ℕ, ◌+◌, ◌<◌, ◌≡◌, refl, Bool, true, false, inl, inr, ◌&&◌, ◌==◌, ltb, if◌then◌else◌, bit_and,
  bit_or, bit_xor, all_below, all_below_sound, Bool-cases, arith,
}
use sisop_tps.Console.Scancodes.{
  capslock, e0esc, shiftcode, togglecode, normalmap, shiftmap, ctlmap,
}
use sisop_tps.Console.Keyboard.{kbd_byte, kbd_press, charcode, caps, not32, has}

-- a key goes down and up again: the modifier it is goes out, the lock it is changes over
abbrev pub tapped : ℕ → ℕ → ℕ
tapped shift key = bit_and (bit_xor shift (togglecode key)) (not32 (shiftcode key))

-- `shift` after the bytes of a key pressed and released
abbrev pub tap : ℕ → ℕ → ℕ
tap shift key = (kbd_byte (kbd_byte shift key).1 (key + 0x80)).1

-- the same where 0xE0 precedes each byte
abbrev pub tap_extended : ℕ → ℕ → ℕ
tap_extended shift key =
    let down = (kbd_byte (kbd_byte shift 0xe0).1 key).1 in
    (kbd_byte (kbd_byte down 0xe0).1 (key + 0x80)).1

tap_test : ℕ → ℕ → Bool
tap_test shift key =
    tap shift key == tapped shift key && tap_extended shift key == tapped shift (key + 0x80)

tap_table : all_below 64 (λ s. all_below 0x60 (λ k. tap_test s k)) ≡ true
unfolding all_below tap_test kbd_byte kbd_press charcode normalmap shiftmap ctlmap caps shiftcode
    togglecode
tap_table = refl

-- Tapping a key, be it a plain one or one behind 0xE0, clears the modifier that the key is, changes over
-- the lock that it is, and leaves the rest of `shift`: from any state without a pending escape, for the
-- scan codes below 0x60.
pub kbd_byte-tap :
    (shift key : ℕ)
    → shift < 64
    → key < 0x60
    → (tap shift key ≡ tapped shift key) × (tap_extended shift key ≡ tapped shift (key + 0x80))
unfolding tap_test
kbd_byte-tap shift key hs hk =
    let row = all_below_sound 64 (λ s. all_below 0x60 (λ k. tap_test s k)) shift tap_table hs in
    let cell = all_below_sound 0x60 (λ k. tap_test shift k) key row hk in ground (arith, cell)

map_test : ℕ → Bool
map_test d =
    ltb (normalmap d) 256 && ltb (shiftmap d) 256 && ltb (ctlmap d) 256 && ltb (bit_or d 0x80) 256

map_table : all_below 256 (λ d. map_test d) ≡ true
unfolding all_below map_test normalmap shiftmap ctlmap
map_table = refl

-- Either way of a test.
if-lt : (b : Bool) {x y n : ℕ} → x < n → y < n → (if b then x else y) < n
if-lt true p q = p
if-lt false p q = q

caps-lt : (c : ℕ) → c < 256 → caps c < 256
unfolding caps
caps-lt c h = ground arith

map_test_lem :
    (d : ℕ)
    → map_test d ≡ true
    → (normalmap d < 256) × (shiftmap d < 256) × (ctlmap d < 256) × (bit_or d 0x80 < 256)
unfolding map_test
map_test_lem d t = ground (arith, t)

maps-lt :
    (d : ℕ)
    → d < 256
    → (normalmap d < 256) × (shiftmap d < 256) × (ctlmap d < 256) × (bit_or d 0x80 < 256)
maps-lt d h = map_test_lem d (all_below_sound 256 (λ d. map_test d) d map_table h)

charcode-lt : (i d : ℕ) → d < 256 → charcode i d < 256
unfolding charcode
charcode-lt i d h = let (n, s, c, o) = maps-lt d h in if-lt (i == 0) n (if-lt (i == 1) s c)

kbd_press-lt : (shift d : ℕ) → d < 256 → (kbd_press shift d).0 < 256
unfolding kbd_press
kbd_press-lt shift d h =
    let s = bit_xor (bit_or shift (shiftcode d)) (togglecode d) in
    let c = charcode-lt (bit_and s 3) d h in if-lt (has s capslock) (caps-lt _ c) c

-- Whatever `shift` holds, a byte from the keyboard is answered by a number below 256, which neither reads
-- as -1 nor is cut when the ring stores it.
pub kbd_byte-lt : (shift d : ℕ) → d < 256 → (kbd_byte shift d).0 < 256
unfolding kbd_byte
kbd_byte-lt shift d h = elim (Bool-cases (d == 0xe0)) [
  | inl t ↦ rw (t, kbd_byte) (omega arith)
  | inr t ↦ elim (Bool-cases (has d 0x80)) [
    | inl t₁ ↦ rw (t, t₁, kbd_byte) (omega arith)
    | inr t₁ ↦ elim (Bool-cases (has shift e0esc)) [
      | inl t₂ ↦
          rw (t, t₁, t₂, kbd_byte)
            (let (_, _, _, o) = maps-lt d h in kbd_press-lt _ (bit_or d 0x80) o)
      | inr t₂ ↦ rw (t, t₁, t₂, kbd_byte) (kbd_press-lt shift d h)
    ]
  ]
]
