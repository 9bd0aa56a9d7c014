-- ===== src/Segments/Tests.antt =====
-- The kernel's data segment, a 16-bit stack segment and a gate of the kind that a trap goes through.
use sisop_tps.Prelude.{true, ◌≡◌, arith}
use sisop_tps.Segments.Assembly.{asm_seg, asm_seg_null, from_bytes, asm_seg-packed}
use sisop_tps.Segments.{
  Gatedesc, seg, seg_null, packed, setgate, setcallgate, packed_gate, sts_cg32, sts_tg32,
}
use sisop_tps.Segments.Hardware.{Describes, LeadsTo, seg-Describes, setgate-LeadsTo}

seg-Describes_example :
    Describes (packed (seg 0x2 0xf000_0000 0xffff_ffff 3)) 0xf000_0000 0xffff_ffff 0x2 3 1
seg-Describes_example =
    seg-Describes 0x2 0xf000_0000 0xffff_ffff 3 (omega arith) (omega arith) (omega arith)
      (omega arith)

abbrev zeroed : Gatedesc
zeroed = record {
  gd_off_15_0 = 0;
  gd_sel = 0;
  gd_args = 0;
  gd_rsv1 = 0;
  gd_type = 0;
  gd_s = 0;
  gd_dpl = 0;
  gd_p = 0;
  gd_off_31_16 = 0;
}

setgate-LeadsTo_example :
    LeadsTo (packed_gate (setgate zeroed true 8 0xf010_3a2c 3)) 8 0xf010_3a2c sts_tg32 3
    × LeadsTo (packed_gate (setcallgate zeroed 8 0xf010_3a2c 3)) 8 0xf010_3a2c sts_cg32 3
setgate-LeadsTo_example =
    setgate-LeadsTo zeroed true 8 0xf010_3a2c 3 (omega arith) (omega arith) (omega arith)

-- the flat code segment of the boot loader
asm_seg-packed_example :
    (from_bytes (asm_seg 0xa 0 0xffff_ffff) ≡ packed (seg 0xa 0 0xffff_ffff 0))
    × (from_bytes asm_seg_null ≡ packed seg_null)
asm_seg-packed_example = asm_seg-packed 0xa 0 0xffff_ffff (omega arith) (omega arith) (omega arith)
