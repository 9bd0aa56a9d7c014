-- ===== src/Types/Tests.antt =====
-- An end of the kernel's image, in kilobytes.
use sisop_tps.Prelude.{ℕ, ◌*◌, ◌%◌, ◌≤◌, ◌≡◌, arith}
use sisop_tps.Types.{roundup, roundup_lem}

roundup_lem_example :
    (0x1_2345 ≤ roundup 0x1_2345 1024)
    × (roundup 0x1_2345 1024 % 1024 ≡ 0)
    × ((k : ℕ) → 0x1_2345 ≤ k * 1024 → roundup 0x1_2345 1024 ≤ k * 1024)
roundup_lem_example = roundup_lem 0x1_2345 1024 (omega arith) (omega arith)
