-- ===== src/Kdebug/Debuginfo.antt =====
-- kern/kdebug.c: debuginfo_eip, which fills in the `struct Eipdebuginfo` of kern/kdebug.h for an address. The
-- tables that the linker makes are a parameter; the strings stand in memory.
pub mod Loops
pub mod Parts
pub mod Entries
pub mod Outcome
mod Tests
use sisop_tps.Prelude.{
  ℕ, zero, suc, ◌+◌, ◌-◌, Bool, true, false, not, ◌&&◌, ◌||◌, none, some, List, ◌==◌, ltb, leb,
  if◌then◌else◌, add32, sub32, slt, sle, length,
}
use sisop_tps.Prelude.Run.{Run, done, no_fuel, ◌>>=◌}
use sisop_tps.Memory.{Memory}
use sisop_tps.Strings.{strfind}
use sisop_tps.Kdebug.{Stab, read, stab_binsearch}

-- the stab types of inc/stab.h that are looked for
abbrev pub n_fun : ℕ
n_fun = 0x24

abbrev pub n_so : ℕ
n_so = 0x64

abbrev pub n_sol : ℕ
n_sol = 0x84

abbrev pub n_psym : ℕ
n_psym = 0xa0

-- `ULIM` of inc/memlayout.h
abbrev pub ulim : ℕ
ulim = 0xef80_0000

pub record Eipdebuginfo : Type 0 where
  pub eip_file : ℕ
  pub eip_line : ℕ
  pub eip_fn_name : ℕ
  pub eip_fn_namelen : ℕ
  pub eip_fn_addr : ℕ
  pub eip_fn_narg : ℕ

-- what the linker provides: the stabs from `__STAB_BEGIN__` to `__STAB_END__`, the ends of the string table,
-- and the address of the literal "<unknown>"
pub record Tables : Type 0 where
  pub stabs : List Stab
  pub stabstr : ℕ
  pub stabstr_end : ℕ
  pub unknown : ℕ

-- the two ways out: the panic, or the value returned with `*info`
pub data Debug : Type 0 where
  panicked : Debug
  returned : ℕ → Eipdebuginfo → Debug

-- The backward search stops at an included source file, or at a file with an address.
abbrev pub names_file : Stab → Bool
names_file st = st.n_type == n_sol || (st.n_type == n_so && not (st.n_value == 0))

-- `while (lline >= lfile && stabs[lline].n_type != N_SOL && ...) lline--;`
unfoldable pub find_file : ℕ → List Stab → ℕ → ℕ → Run ℕ
find_file zero stabs lfile lline = no_fuel
find_file (suc f) stabs lfile lline = elim (sle lfile lline) [
  | false ↦ done lline
  | true ↦ read stabs lline >>= λ st.
      let rest = find_file f stabs lfile (sub32 lline 1) in
      if names_file st then done lline else rest
]

-- `for (; lline < rfun && stabs[lline].n_type == N_PSYM; lline++) info->eip_fn_narg++;`
unfoldable pub count_args : ℕ → List Stab → ℕ → ℕ → ℕ → Run ℕ
count_args zero stabs lline rfun narg = no_fuel
count_args (suc f) stabs lline rfun narg = elim (slt lline rfun) [
  | false ↦ done narg
  | true ↦ read stabs lline >>= λ st.
      let rest = count_args f stabs (add32 lline 1) rfun (add32 narg 1) in
      if st.n_type == n_psym then rest else done narg
]

-- `strfind(info->eip_fn_name, ':') - info->eip_fn_name`
unfoldable pub name_length : ℕ → Memory → ℕ → Run ℕ
name_length fuel m name = elim (strfind fuel m name b':') [
  | none ↦ no_fuel
  | some p ↦ done (sub32 p name)
]

module _ (t : Tables) where
  -- a stab's string, or `other` where its index is out of bounds
  abbrev pub name_of : Stab → ℕ → ℕ
  name_of st other =
      if ltb st.n_strx (t.stabstr_end - t.stabstr) then t.stabstr + st.n_strx else other

  -- the function's name and address, and where the search for a line starts
  unfoldable pub find_function : ℕ → ℕ → ℕ → ℕ → Eipdebuginfo → Run (Eipdebuginfo × ℕ)
  find_function lfile lfun rfun addr info = elim (sle lfun rfun) [
    | true ↦ read t.stabs lfun >>= λ st.
        done (
          record info { eip_fn_name = name_of st info.eip_fn_name; eip_fn_addr = st.n_value },
          lfun,
        )
    | false ↦ done (record info { eip_fn_addr = addr }, lfile)
  ]

  -- `if (lline >= lfile && ...) info->eip_file = ...;`
  unfoldable pub file_name : ℕ → ℕ → ℕ → Run ℕ
  file_name lfile lline other = elim (sle lfile lline) [
    | true ↦ read t.stabs lline >>= λ st. done (name_of st other)
    | false ↦ done other
  ]

  -- `if (lfun < rfun) for (lline = lfun + 1; ...)`
  unfoldable pub argument_count : ℕ → ℕ → Run ℕ
  argument_count lfun rfun = elim (slt lfun rfun) [
    | true ↦ count_args (length t.stabs + 2) t.stabs (add32 lfun 1) rfun 0
    | false ↦ done 0
  ]

  -- what follows the search for the function
  unfoldable pub describe : ℕ → Memory → ℕ → ℕ → ℕ → ℕ → Eipdebuginfo → Run Debug
  describe fuel m lfile lfun rfun addr info =
      find_function lfile lfun rfun addr info >>= λ (found, lline).
      name_length fuel m found.eip_fn_name >>= λ namelen.
      find_file (length t.stabs + 2) t.stabs lfile lline >>= λ at.
      file_name lfile at found.eip_file >>= λ file. argument_count lfun rfun >>= λ narg.
      done (
        returned 0 (record found { eip_fn_namelen = namelen; eip_file = file; eip_fn_narg = narg }))

  -- `*info` at the start
  abbrev pub initial_info : ℕ → Eipdebuginfo
  initial_info addr = record {
    eip_file = t.unknown;
    eip_line = 0;
    eip_fn_name = t.unknown;
    eip_fn_namelen = 9;
    eip_fn_addr = addr;
    eip_fn_narg = 0;
  }

  -- `fuel` is for strfind
  unfoldable pub debuginfo_eip : ℕ → Memory → ℕ → Run Debug
  debuginfo_eip fuel m addr =
      let info = initial_info addr in
      let failed = done (returned 0xffff_ffff info) in
      if ltb addr ulim
      then done panicked
      else if leb t.stabstr_end t.stabstr || not (m (t.stabstr_end - 1) == 0)
      then failed
      else (stab_binsearch t.stabs 0 (sub32 (length t.stabs) 1) n_so addr >>= λ (lfile, rfile).
          if lfile == 0
          then failed
          else (stab_binsearch t.stabs lfile rfile n_fun addr >>= λ (lfun, rfun).
              describe fuel m lfile lfun rfun addr info))
