-- ===== src/Segments.antt =====
-- inc/mmu.h: segment and gate descriptors. A bit-field keeps the value that its width can hold, and `packed`
-- is the eight bytes of the structure, whose first field stands in the lowest bits.
pub mod Hardware
pub mod Assembly
mod Tests
use sisop_tps.Prelude.{ℕ, ◌+◌, ◌*◌, ◌/◌, ◌%◌, ◌^◌, Bool, if◌then◌else◌}

pub record Segdesc : Type 0 where
  pub sd_lim_15_0 : ℕ
  pub sd_base_15_0 : ℕ
  pub sd_base_23_16 : ℕ
  pub sd_type : ℕ
  pub sd_s : ℕ
  pub sd_dpl : ℕ
  pub sd_p : ℕ
  pub sd_lim_19_16 : ℕ
  pub sd_avl : ℕ
  pub sd_rsv1 : ℕ
  pub sd_db : ℕ
  pub sd_g : ℕ
  pub sd_base_31_24 : ℕ

-- a structure written out, each value cut to its field
unfoldable pub segdesc : ℕ → ℕ → ℕ → ℕ → ℕ → ℕ → ℕ → ℕ → ℕ → ℕ → ℕ → ℕ → ℕ → Segdesc
segdesc l b b' t s d p l' a r db g b'' = record {
  sd_lim_15_0 = l % 2 ^ 16;
  sd_base_15_0 = b % 2 ^ 16;
  sd_base_23_16 = b' % 2 ^ 8;
  sd_type = t % 2 ^ 4;
  sd_s = s % 2;
  sd_dpl = d % 2 ^ 2;
  sd_p = p % 2;
  sd_lim_19_16 = l' % 2 ^ 4;
  sd_avl = a % 2;
  sd_rsv1 = r % 2;
  sd_db = db % 2;
  sd_g = g % 2;
  sd_base_31_24 = b'' % 2 ^ 8;
}

unfoldable pub seg_null : Segdesc
seg_null = segdesc 0 0 0 0 0 0 0 0 0 0 0 0 0

unfoldable pub seg_fault : Segdesc
seg_fault = segdesc 0 0 0 0 1 0 1 0 0 0 1 0 0

unfoldable pub seg : ℕ → ℕ → ℕ → ℕ → Segdesc
seg type base lim dpl =
    segdesc (lim / 2 ^ 12 % 2 ^ 16) (base % 2 ^ 16) (base / 2 ^ 16 % 2 ^ 8) type 1 dpl 1
      (lim / 2 ^ 28) 0 0 1 1 (base / 2 ^ 24)

unfoldable pub seg16 : ℕ → ℕ → ℕ → ℕ → Segdesc
seg16 type base lim dpl =
    segdesc (lim % 2 ^ 16) (base % 2 ^ 16) (base / 2 ^ 16 % 2 ^ 8) type 1 dpl 1 (lim / 2 ^ 16) 0 0 1
      0 (base / 2 ^ 24)

unfoldable pub packed : Segdesc → ℕ
packed s =
    s.sd_lim_15_0
    + s.sd_base_15_0 * 2 ^ 16
    + s.sd_base_23_16 * 2 ^ 32
    + s.sd_type * 2 ^ 40
    + s.sd_s * 2 ^ 44
    + s.sd_dpl * 2 ^ 45
    + s.sd_p * 2 ^ 47
    + s.sd_lim_19_16 * 2 ^ 48
    + s.sd_avl * 2 ^ 52
    + s.sd_rsv1 * 2 ^ 53
    + s.sd_db * 2 ^ 54
    + s.sd_g * 2 ^ 55
    + s.sd_base_31_24 * 2 ^ 56

pub record Gatedesc : Type 0 where
  pub gd_off_15_0 : ℕ
  pub gd_sel : ℕ
  pub gd_args : ℕ
  pub gd_rsv1 : ℕ
  pub gd_type : ℕ
  pub gd_s : ℕ
  pub gd_dpl : ℕ
  pub gd_p : ℕ
  pub gd_off_31_16 : ℕ

abbrev pub sts_cg32 : ℕ
sts_cg32 = 0xc

abbrev pub sts_ig32 : ℕ
sts_ig32 = 0xe

abbrev pub sts_tg32 : ℕ
sts_tg32 = 0xf

unfoldable pub setgate : Gatedesc → Bool → ℕ → ℕ → ℕ → Gatedesc
setgate gate istrap sel off dpl = record gate {
  gd_off_15_0 = off % 2 ^ 32 % 2 ^ 16;
  gd_sel = sel % 2 ^ 16;
  gd_args = 0;
  gd_rsv1 = 0;
  gd_type = if istrap then sts_tg32 else sts_ig32;
  gd_s = 0;
  gd_dpl = dpl % 2 ^ 2;
  gd_p = 1;
  gd_off_31_16 = off % 2 ^ 32 / 2 ^ 16;
}

unfoldable pub setcallgate : Gatedesc → ℕ → ℕ → ℕ → Gatedesc
setcallgate gate sel off dpl = record gate {
  gd_off_15_0 = off % 2 ^ 32 % 2 ^ 16;
  gd_sel = sel % 2 ^ 16;
  gd_args = 0;
  gd_rsv1 = 0;
  gd_type = sts_cg32;
  gd_s = 0;
  gd_dpl = dpl % 2 ^ 2;
  gd_p = 1;
  gd_off_31_16 = off % 2 ^ 32 / 2 ^ 16;
}

unfoldable pub packed_gate : Gatedesc → ℕ
packed_gate g =
    g.gd_off_15_0
    + g.gd_sel * 2 ^ 16
    + g.gd_args * 2 ^ 32
    + g.gd_rsv1 * 2 ^ 37
    + g.gd_type * 2 ^ 40
    + g.gd_s * 2 ^ 44
    + g.gd_dpl * 2 ^ 45
    + g.gd_p * 2 ^ 47
    + g.gd_off_31_16 * 2 ^ 48
