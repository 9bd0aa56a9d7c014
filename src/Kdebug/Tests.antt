-- ===== src/Kdebug/Tests.antt =====
-- A search at work.
use sisop_tps.Prelude.{ℕ, zero, suc, ◌<◌, ◌≢◌, List, [], ◌∷◌, arith}
use sisop_tps.Prelude.Run.{Returns}
use sisop_tps.Kdebug.{Stab, stab_binsearch}
use sisop_tps.Kdebug.Scan.{HasType, before}
use sisop_tps.Kdebug.Step.{value, Searched}
use sisop_tps.Kdebug.Correct.{Answer, stab_binsearch-Answer}

abbrev n_slot : ℕ → ℕ → Stab
n_slot type value = record { n_strx = 0; n_type = type; n_other = 0; n_desc = 0; n_value = value }

-- two functions, 0x24, with a line entry, 0x44, in each
abbrev table : List Stab
table = n_slot 0x24 0x100 ∷ n_slot 0x44 0 ∷ n_slot 0x24 0x140 ∷ n_slot 0x44 4 ∷ []

-- The functions stand in order.
table_increasing :
    (i j : ℕ)
    → i < j
    → j < 4
    → HasType table 0x24 i
    → HasType table 0x24 j
    → value table i < value table j
table_increasing i zero l h a b = absurd (omega arith)
table_increasing zero (suc zero) l h a b = absurd (omega (arith, b))
table_increasing zero (suc (suc zero)) l h a b = omega arith
table_increasing zero (suc (suc (suc zero))) l h a b = absurd (omega (arith, b))
table_increasing (suc zero) (suc j) l h a b = absurd (omega (arith, a))
table_increasing (suc (suc i)) (suc (suc (suc zero))) l h a b = absurd (omega (arith, b))
table_increasing (suc (suc i)) (suc zero) l h a b = absurd (omega arith)
table_increasing (suc (suc i)) (suc (suc zero)) l h a b = absurd (omega arith)
table_increasing i (suc (suc (suc (suc j)))) l h a b = absurd (omega arith)

-- No stab is at 0x121.
table_no_next : (i : ℕ) → i < 4 → value table i ≢ 0x121
table_no_next zero l e = omega (arith, e)
table_no_next (suc zero) l e = omega (arith, e)
table_no_next (suc (suc zero)) l e = omega (arith, e)
table_no_next (suc (suc (suc zero))) l e = omega (arith, e)
table_no_next (suc (suc (suc (suc i)))) l e = omega arith

table-Searched : Searched table 0x24 0 4 0x120
table-Searched = record {
  small = omega arith;
  ordered = omega arith;
  inside = omega arith;
  address = omega arith;
  increasing = λ i j _. table_increasing i j;
  no_next = λ i _ l _. table_no_next i l;
}

stab_binsearch-Answer_example :
    Returns (stab_binsearch table 0 (before 4) 0x24 0x120) (Answer table 0x24 0 4 0x120)
stab_binsearch-Answer_example = stab_binsearch-Answer table 0x24 0 4 0x120 table-Searched
