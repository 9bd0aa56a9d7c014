-- ===== src/Kdebug.antt =====
-- kern/kdebug.c: stab_binsearch. The stabs are a list, and a read outside it is a fault. `int`s are
-- 32-bit patterns; `*region_left` and `*region_right` go in and come out as values.
pub mod Scan
pub mod Step
pub mod Ways
pub mod Looping
pub mod Correct
pub mod Debuginfo
mod Tests
use sisop_tps.Prelude.{
  ℕ, zero, suc, ◌+◌, ◌*◌, ◌/◌, Bool, true, false, not, Option, none, some, List, ◌==◌, ltb,
  if◌then◌else◌, add32, sub32, slt, sle, get_elem?, length,
}
use sisop_tps.Prelude.Run.{Run, done, fault, no_fuel, ◌>>=◌}

-- `struct Stab` of inc/stab.h
pub record Stab : Type 0 where
  pub n_strx : ℕ
  pub n_type : ℕ
  pub n_other : ℕ
  pub n_desc : ℕ
  pub n_value : ℕ

-- `stabs[i]`
abbrev pub read : List Stab → ℕ → Run Stab
read stabs i = elim (get_elem? stabs i) [ none ↦ fault | some st ↦ done st ]

-- `x / 2` on `int`, towards 0
pub half : ℕ → ℕ
half x = if slt x 0 then sub32 0 (sub32 0 x / 2) else x / 2

-- `while (m >= l && stabs[m].n_type != type) m--;`
pub scan : ℕ → List Stab → ℕ → ℕ → ℕ → Run ℕ
scan zero stabs type l m = no_fuel
scan (suc f) stabs type l m = elim (sle l m) [
  | false ↦ done m
  | true ↦ read stabs m >>= λ st.
      let rest = scan f stabs type l (sub32 m 1) in if st.n_type == type then done m else rest
]

-- the variables of `stab_binsearch`
pub record Region : Type 0 where
  pub l : ℕ
  pub r : ℕ
  pub any_matches : Bool
  pub left : ℕ
  pub right : ℕ
  pub addr : ℕ

-- the body of the loop behind the scan that ended at `m`, with the stab read there
pub compare_stab : Region → ℕ → ℕ → Stab → Region
compare_stab s true_m m st =
    if ltb st.n_value s.addr
    then record s { any_matches = true; left = m; l = add32 true_m 1 }
    else if ltb s.addr st.n_value
    then record s { any_matches = true; right = sub32 m 1; r = sub32 m 1 }
    else record s { any_matches = true; left = m; l = m; addr = add32 s.addr 1 }

-- one round of the loop
pub round : ℕ → List Stab → ℕ → Region → Run Region
round fuel stabs type s =
    let true_m = half (add32 s.l s.r) in
    scan fuel stabs type s.l true_m >>= λ m.
    if slt m s.l
    then done (record s { l = add32 true_m 1 })
    else read stabs m >>= λ st. done (compare_stab s true_m m st)

-- `while (l <= r)`; `fuel` is for the scans
pub binsearch_loop : ℕ → ℕ → List Stab → ℕ → Region → Run Region
binsearch_loop zero fuel stabs type s = no_fuel
binsearch_loop (suc f) fuel stabs type s = elim (sle s.l s.r) [
  | false ↦ done s
  | true ↦ round fuel stabs type s >>= λ s'. binsearch_loop f fuel stabs type s'
]

-- `for (l = *region_right; l > *region_left && stabs[l].n_type != type; l--)`
pub rightmost : ℕ → List Stab → ℕ → ℕ → ℕ → Run ℕ
rightmost zero stabs type left l = no_fuel
rightmost (suc f) stabs type left l = elim (slt left l) [
  | false ↦ done l
  | true ↦ read stabs l >>= λ st.
      let rest = rightmost f stabs type left (sub32 l 1) in
      if st.n_type == type then done l else rest
]

-- what follows the loop: the final `*region_left` and `*region_right`
pub settle : ℕ → List Stab → ℕ → Region → Run (ℕ × ℕ)
settle fuel stabs type s =
    if not s.any_matches
    then done (s.left, sub32 s.left 1)
    else (rightmost fuel stabs type s.left s.right >>= λ l. done (l, s.right))

-- The fuel is by the number of stabs: a scan goes down by one each round, and of the outer loop each
-- round but one shrinks the region.
pub stab_binsearch : List Stab → ℕ → ℕ → ℕ → ℕ → Run (ℕ × ℕ)
stab_binsearch stabs left right type addr =
    let fuel = length stabs + 2 in
    binsearch_loop (2 * length stabs + 4) fuel stabs type
      (record { l = left; r = right; any_matches = false; left = left; right = right; addr = addr })
    >>= λ s. settle fuel stabs type s
