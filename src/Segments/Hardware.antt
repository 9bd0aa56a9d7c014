-- ===== src/Segments/Hardware.antt =====
-- What the processor reads from the descriptors of inc/mmu.h: the layout of the i386 manual, bit by bit.
use sisop_tps.Prelude.{
  ℕ, ◌+◌, ◌*◌, ◌/◌, ◌%◌, ◌^◌, ◌<◌, ◌≡◌, Bool, true, false, if◌then◌else◌, ◌==◌, arith,
}
use sisop_tps.Segments.{
  segdesc, seg, seg16, packed, Gatedesc, setgate, setcallgate, packed_gate, sts_cg32, sts_ig32,
  sts_tg32,
}

-- `n` bits of `v` from `lo` on
abbrev pub bits : ℕ → ℕ → ℕ → ℕ
bits v lo n = v / 2 ^ lo % 2 ^ n

-- the first byte of the segment that a descriptor is for
abbrev pub base_of : ℕ → ℕ
base_of v = bits v 16 24 + bits v 56 8 * 2 ^ 24

-- the last offset in the segment: the granularity bit counts in pages
abbrev pub limit_of : ℕ → ℕ
limit_of v =
    let lim = bits v 0 16 + bits v 48 4 * 2 ^ 16 in
    if bits v 55 1 == 1 then lim * 4096 + 4095 else lim

-- the address that a gate leads to
abbrev pub offset_of : ℕ → ℕ
offset_of v = bits v 0 16 + bits v 48 16 * 2 ^ 16

-- A present descriptor of an application segment: its place, its last offset, its type, its privilege level
-- and its operand size.
pub record Describes (v base last type dpl db : ℕ) : Type 0 where
  pub base_is : base_of v ≡ base
  pub limit_is : limit_of v ≡ last
  pub type_is : bits v 40 4 ≡ type
  pub application : bits v 44 1 ≡ 1
  pub dpl_is : bits v 45 2 ≡ dpl
  pub present : bits v 47 1 ≡ 1
  pub db_is : bits v 54 1 ≡ db

-- A present gate: the selector and the offset that it leads to, its type and its privilege level, in a
-- system descriptor without arguments.
pub record LeadsTo (v sel off type dpl : ℕ) : Type 0 where
  pub sel_is : bits v 16 16 ≡ sel
  pub off_is : offset_of v ≡ off
  pub type_is : bits v 40 4 ≡ type
  pub no_args : bits v 32 5 ≡ 0
  pub system : bits v 44 1 ≡ 0
  pub dpl_is : bits v 45 2 ≡ dpl
  pub present : bits v 47 1 ≡ 1

seg-limit :
    (type base lim dpl : ℕ)
    → lim < 2 ^ 32
    → limit_of (packed (seg type base lim dpl)) ≡ lim / 4096 * 4096 + 4095
unfolding packed segdesc seg
seg-limit type base lim dpl l =
    let g : (bits (packed (seg type base lim dpl)) 55 1 == 1) ≡ true = ground arith in
    rw g (omega arith)

-- For a base and a limit of 32 bits, `SEG` makes a descriptor that the processor reads as a present 32-bit
-- segment at that base that ends with the page of the limit.
pub seg-Describes :
    (type base lim dpl : ℕ)
    → type < 16
    → base < 2 ^ 32
    → lim < 2 ^ 32
    → dpl < 4
    → Describes (packed (seg type base lim dpl)) base (lim / 4096 * 4096 + 4095) type dpl 1
unfolding packed segdesc seg
seg-Describes type base lim dpl t b l d = record {
  base_is = omega arith;
  limit_is = seg-limit type base lim dpl l;
  type_is = omega arith;
  application = omega arith;
  dpl_is = omega arith;
  present = omega arith;
  db_is = omega arith;
}

seg16-limit :
    (type base lim dpl : ℕ) → lim < 2 ^ 20 → limit_of (packed (seg16 type base lim dpl)) ≡ lim
unfolding packed segdesc seg16
seg16-limit type base lim dpl l =
    let g : (bits (packed (seg16 type base lim dpl)) 55 1 == 1) ≡ false = ground arith in
    rw g (omega arith)

-- For a base of 32 and a limit of 20 bits, `SEG16` makes a descriptor that the processor reads as a present
-- segment at that base with exactly that limit.
pub seg16-Describes :
    (type base lim dpl : ℕ)
    → type < 16
    → base < 2 ^ 32
    → lim < 2 ^ 20
    → dpl < 4
    → Describes (packed (seg16 type base lim dpl)) base lim type dpl 1
unfolding packed segdesc seg16
seg16-Describes type base lim dpl t b l d = record {
  base_is = omega arith;
  limit_is = seg16-limit type base lim dpl l;
  type_is = omega arith;
  application = omega arith;
  dpl_is = omega arith;
  present = omega arith;
  db_is = omega arith;
}

-- the packed value of a gate
gate_lem :
    (sel off type dpl : ℕ)
    → sel < 2 ^ 16
    → off < 2 ^ 32
    → type < 16
    → dpl < 4
    → LeadsTo
        (off % 2 ^ 32 % 2 ^ 16
          + sel % 2 ^ 16 * 2 ^ 16
          + 0 * 2 ^ 32
          + 0 * 2 ^ 37
          + type * 2 ^ 40
          + 0 * 2 ^ 44
          + dpl % 2 ^ 2 * 2 ^ 45
          + 1 * 2 ^ 47
          + off % 2 ^ 32 / 2 ^ 16 * 2 ^ 48)
        sel
        off
        type
        dpl
gate_lem sel off type dpl s o t d = record {
  sel_is = omega arith;
  off_is = omega arith;
  type_is = omega arith;
  no_args = omega arith;
  system = omega arith;
  dpl_is = omega arith;
  present = omega arith;
}

gate_type : (istrap : Bool) → (if istrap then sts_tg32 else sts_ig32) < 16
gate_type true = omega arith
gate_type false = omega arith

-- For a selector of 16 bits, an offset of 32 and a privilege level of 2, `SETGATE` makes of any descriptor a
-- present gate that leads there, a trap gate or an interrupt gate, and `SETCALLGATE` a call gate.
pub setgate-LeadsTo :
    (gate : Gatedesc) (istrap : Bool) (sel off dpl : ℕ)
    → sel < 2 ^ 16
    → off < 2 ^ 32
    → dpl < 4
    → LeadsTo
        (packed_gate (setgate gate istrap sel off dpl))
        sel
        off
        (if istrap then sts_tg32 else sts_ig32)
        dpl
      × LeadsTo (packed_gate (setcallgate gate sel off dpl)) sel off sts_cg32 dpl
unfolding packed_gate setgate setcallgate
setgate-LeadsTo gate istrap sel off dpl s o d = (
  gate_lem sel off (if istrap then sts_tg32 else sts_ig32) dpl s o (gate_type istrap) d,
  gate_lem sel off sts_cg32 dpl s o (omega arith) d,
)
