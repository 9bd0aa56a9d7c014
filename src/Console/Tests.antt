-- ===== src/Console/Tests.antt =====
-- The console at work, on ports that are always ready.
use sisop_tps.Prelude.{
  ℕ, ◌+◌, ◌%◌, ◌<◌, ◌≡◌, refl, true, List, [], ◌∷◌, replicate, length-replicate, get_or-replicate,
  sym, ◌∙◌, arith,
}
use sisop_tps.Console.{Machine, cons_putc}
use sisop_tps.Console.Screen.{IsValid, cons_putc-IsValid}
use sisop_tps.Console.Keyboard.{kbd_byte}
use sisop_tps.Console.Shift.{tap, tapped, tap_extended, kbd_byte-tap, kbd_byte-lt}
use sisop_tps.Console.Ring.{cons_store, cons_take}
use sisop_tps.Console.Ring.Queue.{
  Represents, RingOp, store, take, answers, queue_answers, Fits, answers_lem, cons_store-full,
}

-- every port reads 0xff, and the world counts the reads
abbrev ready : ℕ → ℕ → ℕ × ℕ
ready port w = (0xff, w + 1)

abbrev ignore : ℕ → ℕ → ℕ → ℕ
ignore port b w = w

-- the cursor in the last cell, and an empty ring about to wrap
abbrev machine : Machine ℕ
machine = record {
  world = 0;
  serial_exists = true;
  addr_6845 = 0x3d4;
  crt_buf = replicate 2000 0x0720;
  crt_pos = 1999;
  shift = 0;
  buf = replicate 512 0;
  rpos = 511;
  wpos = 511;
}

machine-IsValid : IsValid machine
machine-IsValid = (length-replicate {A = ℕ} 2000 0x0720, omega arith)

cons_putc-IsValid_example : IsValid (cons_putc ready ignore b'\t' machine)
cons_putc-IsValid_example = cons_putc-IsValid ready ignore b'\t' machine machine-IsValid

machine-Represents : Represents machine []
unfolding Represents
machine-Represents = (
  length-replicate {A = ℕ} 512 0,
  omega arith,
  omega arith,
  refl,
  λ i h. absurd (omega (arith, h)),
)

-- two interrupts, and three readers
abbrev ops : List RingOp
ops = store b'a' ∷ store b'b' ∷ take ∷ take ∷ take ∷ []

answers_lem_example : answers ops machine ≡ queue_answers ops []
unfolding Fits
answers_lem_example = answers_lem ops machine [] machine-Represents (omega arith, (omega arith, tt))

abbrev full : Machine ℕ
full = record machine { buf = replicate 512 b'x'; rpos = 0 }

full-Represents : Represents full (replicate 511 b'x')
unfolding Represents
full-Represents = (
  length-replicate {A = ℕ} 512 b'x',
  omega arith,
  omega arith,
  refl,
  λ i h.
      get_or-replicate {A = ℕ} 512 b'x' 0 ((0 + i) % 512) (omega arith)
      ∙ sym (get_or-replicate {A = ℕ} 511 b'x' 0 i h),
)

cons_store-full_example : cons_take (cons_store b'y' full) ≡ (0, cons_store b'y' full)
cons_store-full_example =
    cons_store-full b'y' full (replicate 511 b'x') (λ e. omega arith) full-Represents
      (length-replicate {A = ℕ} 511 b'x')

-- Ctrl with Caps Lock on, and the right-hand Alt
kbd_byte-tap_example : (tap 8 0x1d ≡ tapped 8 0x1d) × (tap_extended 8 0x1d ≡ tapped 8 (0x1d + 0x80))
kbd_byte-tap_example = kbd_byte-tap 8 0x1d (omega arith) (omega arith)

kbd_byte-lt_example : (kbd_byte 3 0x1e).0 < 256
kbd_byte-lt_example = kbd_byte-lt 3 0x1e (omega arith)
