-- ===== src/Console/Screen.antt =====
-- kern/console.c: what output does to the CGA memory and the cursor.
use sisop_tps.Prelude.{
  ℕ, zero, suc, ◌<◌, ◌≡◌, refl, ap, ◌∙◌, inl, inr, List, ◌==◌, ltb, leb, bit_and, length, take,
  drop, replicate, Bool-cases, length-append, length-set, length-take, length-drop,
  length-replicate, arith,
}
use sisop_tps.Console.{
  Machine, crt_size, crt_cols, blank, cga_switch, cga_scroll, cga_cursor, cga_putc, with_attribute,
  lpt_putc, serial_putc, wait_ready, delay, cons_putc_depth, cons_putc,
}

-- room for one row behind the frame
abbrev behind : ℕ
behind = 2080

module _ {W : Type 0} where
  -- the frame is whole, and the cursor less than `limit`
  abbrev pub Within : ℕ → Machine W → Type 0
  Within limit m = (length m.crt_buf ≡ crt_size) × (m.crt_pos < limit)

  -- what holds between two calls of `cga_putc`
  abbrev pub IsValid : Machine W → Type 0
  IsValid = Within crt_size

  frame : Machine W → List ℕ × ℕ
  frame m = (m.crt_buf, m.crt_pos)

  Within-frame : (limit : ℕ) (m n : Machine W) → frame n ≡ frame m → Within limit m → Within limit n
  unfolding frame
  Within-frame limit m n e v = (ap length (ap (λ p. p.0) e) ∙ v.0, rw (ap (λ p. p.1) e) v.1)

  cga_scroll-IsValid : (m : Machine W) → Within behind m → IsValid (cga_scroll m)
  unfolding cga_scroll
  cga_scroll-IsValid m v = elim (Bool-cases (leb crt_size m.crt_pos)) [
    | inl t ↦
        rw (t, cga_scroll)
          (
            length-append (take 1920 (drop crt_cols m.crt_buf)) (replicate crt_cols blank)
                ∙ omega (
                  arith,
                  length-take 1920 (drop crt_cols m.crt_buf)
                      (omega (arith, length-drop crt_cols m.crt_buf, v.0)),
                  length-replicate crt_cols blank,
                ),
            omega (arith, v.1),
          )
    | inr t ↦ rw (t, cga_scroll) (v.0, ground (arith, t))
  ]

  cga_switch-Within :
      (tab : Machine W → Machine W) (c : ℕ) (m : Machine W)
      → ((n : Machine W) → IsValid n → IsValid (tab n))
      → IsValid m
      → Within behind (cga_switch tab c m)
  unfolding cga_switch
  cga_switch-Within tab c m keep v = elim (Bool-cases (bit_and c 0xff == 0x08)) [
    | inl t ↦ elim (Bool-cases (ltb 0 m.crt_pos)) [
      | inl p ↦ rw (t, p, cga_switch) (length-set m.crt_buf _ _ ∙ v.0, omega (arith, v.1))
      | inr p ↦ rw (t, p, cga_switch) (v.0, omega (arith, v.1))
    ]
    | inr t ↦ elim (Bool-cases (bit_and c 0xff == 0x0a)) [
      | inl t₁ ↦ rw (t, t₁, cga_switch) (v.0, omega (arith, v.1))
      | inr t₁ ↦ elim (Bool-cases (bit_and c 0xff == 0x0d)) [
        | inl t₂ ↦ rw (t, t₁, t₂, cga_switch) (v.0, omega (arith, v.1))
        | inr t₂ ↦ elim (Bool-cases (bit_and c 0xff == 0x09)) [
          | inl t₃ ↦ let k = keep m v in rw (t, t₁, t₂, t₃, cga_switch) (k.0, omega (arith, k.1))
          | inr t₃ ↦
              rw (t, t₁, t₂, t₃, cga_switch) (length-set m.crt_buf _ _ ∙ v.0, omega (arith, v.1))
        ]
      ]
    ]
  ]

module _ {W : Type 0} (inb : ℕ → W → ℕ × W) (outb : ℕ → ℕ → W → W) where
  -- waiting for a device leaves the screen alone
  wait_ready-frame :
      (port mask n : ℕ) (m : Machine W) → frame (wait_ready inb outb port mask n m) ≡ frame m
  unfolding frame wait_ready delay
  wait_ready-frame port mask zero m = refl
  wait_ready-frame port mask (suc n) m =
      elim (Bool-cases (bit_and (inb port m.world).0 mask == 0)) [
        | inl t ↦ rw (t, wait_ready) (wait_ready-frame port mask n _)
        | inr t ↦ rw (t, wait_ready) refl
      ]

  serial_putc-frame : (c : ℕ) (m : Machine W) → frame (serial_putc inb outb c m) ≡ frame m
  unfolding frame serial_putc
  serial_putc-frame c m = wait_ready-frame 1021 0x20 12800 m

  lpt_putc-frame : (c : ℕ) (m : Machine W) → frame (lpt_putc inb outb c m) ≡ frame m
  unfolding frame lpt_putc
  lpt_putc-frame c m = wait_ready-frame 0x379 0x80 12800 m

  cga_putc-IsValid :
      (tab : Machine W → Machine W) (c : ℕ) (m : Machine W)
      → ((n : Machine W) → IsValid n → IsValid (tab n))
      → IsValid m
      → IsValid (cga_putc inb outb tab c m)
  unfolding cga_putc cga_cursor
  cga_putc-IsValid tab c m keep v =
      cga_scroll-IsValid _ (cga_switch-Within tab (with_attribute c) m keep v)

  cons_putc_depth-IsValid :
      (d c : ℕ) (m : Machine W) → IsValid m → IsValid (cons_putc_depth inb outb d c m)
  unfolding cons_putc_depth
  cons_putc_depth-IsValid zero c m v = v
  cons_putc_depth-IsValid (suc d) c m v =
      let space = cons_putc_depth-IsValid d b' ' in
      cga_putc-IsValid _ c _ (λ n w. space _ (space _ (space _ (space _ (space _ w)))))
        (Within-frame crt_size m _ (lpt_putc-frame c _ ∙ serial_putc-frame c m) v)

  -- Whatever is printed and whatever the devices answer, the frame keeps its 2000 cells and the cursor stays
  -- inside it.
  pub cons_putc-IsValid : (c : ℕ) (m : Machine W) → IsValid m → IsValid (cons_putc inb outb c m)
  unfolding cons_putc
  cons_putc-IsValid c m v = cons_putc_depth-IsValid 2 c m v

  -- Two levels of calls are enough: a greater depth does the same.
  pub cons_putc-depth :
      (d c : ℕ) (m : Machine W)
      → cons_putc_depth inb outb (suc (suc d)) c m ≡ cons_putc inb outb c m
  unfolding cons_putc cons_putc_depth cga_putc cga_switch with_attribute
  cons_putc-depth d c m = refl
