-- ===== src/Paging/Tests.antt =====
-- The walk and the address macros at concrete addresses.
use sisop_tps.Prelude.{◌≡◌, refl, arith}
use sisop_tps.Paging.{pdx, ptx, pgoff, pgaddr}
use sisop_tps.Paging.Walk.{walk, mapped, walk-mapped, pgaddr-parts}

-- a table in the kernel's image, and the monitor's first instruction
walk-mapped_example : walk 0xf011_2000 0xf010_0abc ≡ mapped 0xf010_0abc
walk-mapped_example =
    walk-mapped 0xf011_2000 0xf010_0abc (omega arith) (omega arith) refl (omega arith)

pgaddr-parts_example : pgaddr (pdx 0xf010_0abc) (ptx 0xf010_0abc) (pgoff 0xf010_0abc) ≡ 0xf010_0abc
pgaddr-parts_example = pgaddr-parts 0xf010_0abc (omega arith)
