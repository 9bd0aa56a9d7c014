-- ===== src/Console/Ring/Line.antt =====
-- kern/console.c with characters that wait on the serial line: output leaves them and the ring alone.
use sisop_tps.Prelude.{
  ℕ, zero, suc, ◌+◌, ◌≡◌, ◌≢◌, refl, ap, ◌∙◌, true, false, Bool, inl, inr, List, [], ◌∷◌, ◌==◌, leb,
  ltb, bit_and, Bool-cases, arith,
}
use sisop_tps.Console.{
  Machine, crt_size, com1, cga_switch, cga_scroll, cga_cursor, cga_putc, with_attribute, in_port,
  out_port, delay, lpt_putc, serial_putc, wait_ready, cons_putc_depth, cons_putc,
}
use sisop_tps.Printfmt.Number.{emit}

-- A serial device behind the ports of COM1, with the characters that wait in it, and a keyboard on which no key
-- is pressed: the status register tells whether a character waits, a read of the receive buffer takes it, and no
-- other access to a port does.
pub record Line {W : Type 0} (inb : ℕ → W → ℕ × W) (outb : ℕ → ℕ → W → W) (waiting : W → List ℕ)
    : Type 0 where
  pub ready :
      (w : W) (c : ℕ) (cs : List ℕ)
      → waiting w ≡ c ∷ cs
      → (bit_and (inb (com1 + 5) w).0 0x01 == 0) ≡ false
  pub idle : (w : W) → waiting w ≡ [] → (bit_and (inb (com1 + 5) w).0 0x01 == 0) ≡ true
  pub no_key : (w : W) → (bit_and (inb 0x64 w).0 0x01 == 0) ≡ true
  pub received :
      (w : W) (c : ℕ) (cs : List ℕ)
      → waiting w ≡ c ∷ cs
      → ((inb com1 w).0 ≡ c) × (waiting (inb com1 w).1 ≡ cs)
  pub unread : (port : ℕ) (w : W) → port ≢ com1 → waiting (inb port w).1 ≡ waiting w
  pub unsent : (port b : ℕ) (w : W) → waiting (outb port b w) ≡ waiting w

module _ {W : Type 0} {inb : ℕ → W → ℕ × W} {outb : ℕ → ℕ → W → W} {waiting : W → List ℕ}
    (line : Line inb outb waiting) where
  -- the ring and what waits
  unfoldable pub input : Machine W → List ℕ × ℕ × ℕ × Bool × List ℕ
  input m = (m.buf, m.rpos, m.wpos, m.serial_exists, waiting m.world)

  pub in_port-input :
      (port : ℕ) (m : Machine W) → port ≢ com1 → input (in_port inb outb port m).1 ≡ input m
  unfolding input
  in_port-input port m n =
      ap (λ l. (m.buf, m.rpos, m.wpos, m.serial_exists, l)) (line.unread port m.world n)

  out_port-input : (port b : ℕ) (m : Machine W) → input (out_port inb outb port b m) ≡ input m
  unfolding input
  out_port-input port b m =
      ap (λ l. (m.buf, m.rpos, m.wpos, m.serial_exists, l)) (line.unsent port _ m.world)

  delay-input : (m : Machine W) → input (delay inb outb m) ≡ input m
  unfolding delay
  delay-input m =
      let once = λ (m : Machine W). in_port-input 0x84 m (λ e. omega arith) in
      once _ ∙ once _ ∙ once _ ∙ once m

  wait_ready-input :
      (port mask n : ℕ) (m : Machine W)
      → port ≢ com1
      → input (wait_ready inb outb port mask n m) ≡ input m
  unfolding wait_ready
  wait_ready-input port mask zero m p = in_port-input port m p
  wait_ready-input port mask (suc n) m p =
      elim (Bool-cases (bit_and (inb port m.world).0 mask == 0)) [
        | inl t ↦
            rw (t, wait_ready)
              (wait_ready-input port mask n _ p ∙ delay-input _ ∙ in_port-input port m p)
        | inr t ↦ rw (t, wait_ready) (in_port-input port m p)
      ]

  serial_putc-input : (c : ℕ) (m : Machine W) → input (serial_putc inb outb c m) ≡ input m
  unfolding serial_putc
  serial_putc-input c m =
      out_port-input com1 c _ ∙ wait_ready-input (com1 + 5) 0x20 12800 m (λ e. omega arith)

  lpt_putc-input : (c : ℕ) (m : Machine W) → input (lpt_putc inb outb c m) ≡ input m
  unfolding lpt_putc
  lpt_putc-input c m =
      out_port-input 0x37a 0x08 _
      ∙ out_port-input 0x37a 0x0d _
      ∙ out_port-input 0x378 c _
      ∙ wait_ready-input 0x379 0x80 12800 m (λ e. omega arith)

  cga_cursor-input : (m : Machine W) → input (cga_cursor inb outb m) ≡ input m
  unfolding cga_cursor
  cga_cursor-input m =
      out_port-input (m.addr_6845 + 1) _ _
      ∙ out_port-input m.addr_6845 15 _
      ∙ out_port-input (m.addr_6845 + 1) _ _
      ∙ out_port-input m.addr_6845 14 m

  cga_scroll-input : (m : Machine W) → input (cga_scroll m) ≡ input m
  unfolding cga_scroll input
  cga_scroll-input m = elim (Bool-cases (leb crt_size m.crt_pos)) [
    | inl t ↦ rw (t, cga_scroll) refl
    | inr t ↦ rw (t, cga_scroll) refl
  ]

  cga_switch-input :
      (tab : Machine W → Machine W) (c : ℕ) (m : Machine W)
      → ((n : Machine W) → input (tab n) ≡ input n)
      → input (cga_switch tab c m) ≡ input m
  unfolding cga_switch input
  cga_switch-input tab c m keep = elim (Bool-cases (bit_and c 0xff == 0x08)) [
    | inl t ↦ elim (Bool-cases (ltb 0 m.crt_pos)) [
      | inl p ↦ rw (t, p, cga_switch) refl
      | inr p ↦ rw (t, p, cga_switch) refl
    ]
    | inr t ↦ elim (Bool-cases (bit_and c 0xff == 0x0a)) [
      | inl t₁ ↦ rw (t, t₁, cga_switch) refl
      | inr t₁ ↦ elim (Bool-cases (bit_and c 0xff == 0x0d)) [
        | inl t₂ ↦ rw (t, t₁, t₂, cga_switch) refl
        | inr t₂ ↦ elim (Bool-cases (bit_and c 0xff == 0x09)) [
          | inl t₃ ↦ rw (t, t₁, t₂, t₃, cga_switch) (keep m)
          | inr t₃ ↦ rw (t, t₁, t₂, t₃, cga_switch) refl
        ]
      ]
    ]
  ]

  cons_putc_depth-input :
      (d c : ℕ) (m : Machine W) → input (cons_putc_depth inb outb d c m) ≡ input m
  unfolding cons_putc_depth cga_putc
  cons_putc_depth-input zero c m = refl
  cons_putc_depth-input (suc d) c m =
      let space = cons_putc_depth-input d b' ' in
      cga_cursor-input _
      ∙ cga_scroll-input _
      ∙ cga_switch-input _ (with_attribute c) _
          (λ n. space _ ∙ space _ ∙ space _ ∙ space _ ∙ space n)
      ∙ lpt_putc-input c _
      ∙ serial_putc-input c m

  -- output leaves the ring and what waits alone
  pub cons_putc-input : (c : ℕ) (m : Machine W) → input (cons_putc inb outb c m) ≡ input m
  unfolding cons_putc
  cons_putc-input = cons_putc_depth-input 2

  pub emit-input : (cs : List ℕ) (m : Machine W) → input (emit (cons_putc inb outb) cs m) ≡ input m
  emit-input [] m = refl
  emit-input (c ∷ cs) m = emit-input cs (cons_putc inb outb c m) ∙ cons_putc-input c m
