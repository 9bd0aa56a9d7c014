-- ===== src/Console/Init/Cursor.antt =====
-- kern/console.c: cga_init finds the cursor where cga_cursor left it.
use sisop_tps.Prelude.{
  ℕ, zero, suc, ◌+◌, ◌*◌, ◌/◌, ◌%◌, ◌<◌, ◌≡◌, ◌≢◌, refl, ap, ◌∙◌, true, ◌==◌, if◌then◌else◌, bit_or,
  bit_or-shifted, shifted, length, arith,
}
use native.Mathlib.Decide.{ℕ_discrete}
use sisop_tps.Console.{Machine, crt_size, cga_cursor}
use sisop_tps.Console.Screen.{IsValid}
use sisop_tps.Console.Init.{cga_buf, cga_base, cells, cga_probe, cga_position, cga_take, cga_init}

-- What the driver relies on of a colour display: the port 0x3D4 chooses a register, 0x3D5 reads and writes the
-- register chosen, a cell keeps what is written to it, and neither the ports nor the cells change the other.
pub record Display {W : Type 0} (peek : ℕ → W → ℕ) (poke : ℕ → ℕ → W → W) (inb : ℕ → W → ℕ × W)
    (outb : ℕ → ℕ → W → W) : Type 0 where
  pub chosen : W → ℕ
  pub register : W → ℕ → ℕ
  pub chooses : (r : ℕ) (w : W) → chosen (outb 0x3d4 r w) ≡ r
  pub chooses_only : (r s : ℕ) (w : W) → register (outb 0x3d4 r w) s ≡ register w s
  pub sets :
      (b s : ℕ) (w : W) → register (outb 0x3d5 b w) s ≡ (if s == chosen w then b else register w s)
  pub reads : (w : W) → (inb 0x3d5 w).0 ≡ register w (chosen w)
  pub reads_only : (s : ℕ) (w : W) → register (inb 0x3d5 w).1 s ≡ register w s
  pub pokes_only : (v s : ℕ) (w : W) → register (poke cga_buf v w) s ≡ register w s
  pub keeps : (v : ℕ) (w : W) → v < 0x1_0000 → peek cga_buf (poke cga_buf v w) ≡ v
  pub apart : (p v : ℕ) (w : W) → p ≢ cga_buf → peek p (poke cga_buf v w) ≡ peek p w
  pub cell_lt : (w : W) → peek cga_buf w < 0x1_0000
  pub unwritten : (p q b : ℕ) (w : W) → peek p (outb q b w) ≡ peek p w
  pub unread : (p q : ℕ) (w : W) → peek p (inb q w).1 ≡ peek p w

-- The screen of `m` and its cursor are found again in `n`.
pub record Recovers {W : Type 0} (peek : ℕ → W → ℕ) (poke : ℕ → ℕ → W → W) (m n : Machine W)
    : Type 0 where
  pub position_is : n.crt_pos ≡ m.crt_pos
  pub base_is : n.addr_6845 ≡ cga_base
  pub frame_is : n.crt_buf ≡ cells peek poke crt_size cga_buf m.world
  pub shows : (q : ℕ) → peek q n.world ≡ peek q m.world
  pub valid : m.crt_pos < crt_size → IsValid n

module _ {W : Type 0} {peek : ℕ → W → ℕ} {poke : ℕ → ℕ → W → W} {inb : ℕ → W → ℕ × W}
    {outb : ℕ → ℕ → W → W} (v : Display peek poke inb outb) where
  -- the world behind cga_cursor
  cursor_at : ℕ → W → W
  cursor_at p w =
      outb 0x3d5 (p % 256) (outb 0x3d4 15 (outb 0x3d5 (p / 256 % 256) (outb 0x3d4 14 w)))

  cursor_at-registers :
      (p : ℕ) (w : W)
      → (v.register (cursor_at p w) 14 ≡ p / 256 % 256) × (v.register (cursor_at p w) 15 ≡ p % 256)
  unfolding cursor_at
  cursor_at-registers p w =
      let w₁ = outb 0x3d4 14 w in
      let w₂ = outb 0x3d5 (p / 256 % 256) w₁ in
      let w₃ = outb 0x3d4 15 w₂ in
      let at₁ = v.chooses 14 w in
      let at₃ = v.chooses 15 w₂ in
      let high : v.register w₂ 14 ≡ p / 256 % 256 = v.sets (p / 256 % 256) 14 w₁ ∙ rw at₁ refl in
      (
        v.sets (p % 256) 14 w₃ ∙ rw at₃ (v.chooses_only 15 14 w₂ ∙ high),
        v.sets (p % 256) 15 w₃ ∙ rw at₃ refl,
      )

  cursor_at-shows : (q p : ℕ) (w : W) → peek q (cursor_at p w) ≡ peek q w
  unfolding cursor_at
  cursor_at-shows q p w =
      v.unwritten q 0x3d5 (p % 256) _
      ∙ v.unwritten q 0x3d4 15 _
      ∙ v.unwritten q 0x3d5 (p / 256 % 256) _
      ∙ v.unwritten q 0x3d4 14 w

  -- the world behind the test for the display
  probed : W → W
  probed w = poke cga_buf (peek cga_buf w) (poke cga_buf 0xa55a w)

  probed-shows : (q : ℕ) (w : W) → peek q (probed w) ≡ peek q w
  unfolding probed
  probed-shows q w = elim (ℕ_discrete q cga_buf) [
    | yes e ↦ rw e (v.keeps (peek cga_buf w) (poke cga_buf 0xa55a w) (v.cell_lt w))
    | no n ↦ v.apart q (peek cga_buf w) (poke cga_buf 0xa55a w) n ∙ v.apart q 0xa55a w n
  ]

  probed-register : (s : ℕ) (w : W) → v.register (probed w) s ≡ v.register w s
  unfolding probed
  probed-register s w =
      v.pokes_only (peek cga_buf w) s (poke cga_buf 0xa55a w) ∙ v.pokes_only 0xa55a s w

  -- what cga_position reads, and the world behind it
  position : W → ℕ
  position w =
      bit_or ((inb 0x3d5 (outb 0x3d4 14 w)).0 * 256)
        (inb 0x3d5 (outb 0x3d4 15 (inb 0x3d5 (outb 0x3d4 14 w)).1)).0

  behind : W → W
  behind w = (inb 0x3d5 (outb 0x3d4 15 (inb 0x3d5 (outb 0x3d4 14 w)).1)).1

  behind-shows : (q : ℕ) (w : W) → peek q (behind w) ≡ peek q w
  unfolding behind
  behind-shows q w =
      v.unread q 0x3d5 _ ∙ v.unwritten q 0x3d4 15 _ ∙ v.unread q 0x3d5 _ ∙ v.unwritten q 0x3d4 14 w

  read_back : (r : ℕ) (w : W) → (inb 0x3d5 (outb 0x3d4 r w)).0 ≡ v.register w r
  read_back r w = v.reads (outb 0x3d4 r w) ∙ rw (v.chooses r w) (v.chooses_only r r w)

  position-registers :
      (p : ℕ) (w : W)
      → p < 0x1_0000
      → v.register w 14 ≡ p / 256 % 256
      → v.register w 15 ≡ p % 256
      → position w ≡ p
  unfolding position
  position-registers p w l a b =
      let w₁ = (inb 0x3d5 (outb 0x3d4 14 w)).1 in
      let high : (inb 0x3d5 (outb 0x3d4 14 w)).0 ≡ p / 256 = read_back 14 w ∙ omega arith in
      let low : (inb 0x3d5 (outb 0x3d4 15 w₁)).0 ≡ p % 256 =
        read_back 15 w₁ ∙ v.reads_only 15 (outb 0x3d4 14 w) ∙ v.chooses_only 14 15 w ∙ b in
      let up : p / 256 * 256 ≡ shifted 8 (p / 256) = omega arith in
      rw (high, low, up) (bit_or-shifted 8 (p / 256) (p % 256) (omega arith) ∙ omega arith)

  cells-same :
      (n cp : ℕ) (w w' : W)
      → ((q : ℕ) → peek q w ≡ peek q w')
      → cells peek poke n cp w ≡ cells peek poke n cp w'
  unfolding cells
  cells-same zero cp w w' e = refl
  cells-same (suc n) cp w w' e = rw (e cp, cells-same n (cp + 2) w w' e) refl

  length-cells : (n cp : ℕ) (w : W) → length (cells peek poke n cp w) ≡ n
  unfolding cells
  length-cells zero cp w = refl
  length-cells (suc n) cp w = ap suc (length-cells n (cp + 2) w)

  cga_probe_lem :
      (m : Machine W)
      → cga_probe peek poke m ≡ (cga_buf, record m { world = probed m.world; addr_6845 = cga_base })
  unfolding cga_probe probed
  cga_probe_lem m =
      let kept : (peek cga_buf (poke cga_buf 0xa55a m.world) == 0xa55a) ≡ true =
        rw (v.keeps 0xa55a m.world (omega arith)) refl in
      rw kept refl

  cga_take_lem :
      (m : Machine W)
      → m.addr_6845 ≡ cga_base
      → cga_take peek poke inb outb (cga_buf, m) ≡ record m {
        world = behind m.world;
        crt_buf = cells peek poke crt_size cga_buf (behind m.world);
        crt_pos = position m.world % 0x1_0000;
      }
  unfolding cga_take cga_position position behind
  cga_take_lem m e = rw e refl

  -- the world behind cga_cursor and cga_init
  restarted : Machine W → W
  restarted m = behind (probed (cursor_at m.crt_pos m.world))

  restart_lem :
      (m : Machine W)
      → m.addr_6845 ≡ cga_base
      → cga_init peek poke inb outb (cga_cursor inb outb m) ≡ record m {
        world = restarted m;
        addr_6845 = cga_base;
        crt_buf = cells peek poke crt_size cga_buf (restarted m);
        crt_pos = position (probed (cursor_at m.crt_pos m.world)) % 0x1_0000;
      }
  unfolding cga_init cga_cursor cursor_at restarted
  restart_lem m e = rw e (
      ap (cga_take peek poke inb outb)
        (cga_probe_lem (record m { world = cursor_at m.crt_pos m.world; addr_6845 = cga_base }))
      ∙ cga_take_lem
          (record m { world = probed (cursor_at m.crt_pos m.world); addr_6845 = cga_base }) refl)

  restarted-shows : (m : Machine W) (q : ℕ) → peek q (restarted m) ≡ peek q m.world
  unfolding restarted
  restarted-shows m q =
      behind-shows q (probed (cursor_at m.crt_pos m.world))
      ∙ probed-shows q (cursor_at m.crt_pos m.world)
      ∙ cursor_at-shows q m.crt_pos m.world

  restarted-position :
      (m : Machine W)
      → m.crt_pos < 0x1_0000
      → position (probed (cursor_at m.crt_pos m.world)) ≡ m.crt_pos
  restarted-position m l =
      let w = cursor_at m.crt_pos m.world in
      let (high, low) = cursor_at-registers m.crt_pos m.world in
      position-registers m.crt_pos (probed w) l (probed-register 14 w ∙ high)
        (probed-register 15 w ∙ low)

  -- On a colour display, behind cga_cursor with a position of 16 bits, `cga_init` finds that position and the
  -- characters that the display shows, and leaves all of them as they are; a position inside the frame makes
  -- the console valid.
  pub cga_init-cga_cursor :
      (m : Machine W)
      → m.addr_6845 ≡ cga_base
      → m.crt_pos < 0x1_0000
      → Recovers peek poke m (cga_init peek poke inb outb (cga_cursor inb outb m))
  cga_init-cga_cursor m e l =
      let shown = cells-same crt_size cga_buf (restarted m) m.world (λ q. restarted-shows m q) in
      let at : position (probed (cursor_at m.crt_pos m.world)) % 0x1_0000 ≡ m.crt_pos =
        rw (restarted-position m l) (omega arith) in
      rw (restart_lem m e) (record {
        position_is = at;
        base_is = refl;
        frame_is = shown;
        shows = restarted-shows m;
        valid = λ b. (length-cells crt_size cga_buf (restarted m), omega (arith, at));
      })
