-- ===== src/Kdebug/Debuginfo/Entries.antt =====
-- What debuginfo_eip (kern/kdebug.c) tells of one stab, and where it has none for the function.
use sisop_tps.Prelude.{ℕ, ◌≤◌, ◌<◌, ◌≡◌, refl, inl, true, false, slt, sle, length, arith}
use sisop_tps.Prelude.Run.{done}
use sisop_tps.Memory.{Memory}
use sisop_tps.Strings.Lengths.{Upto}
use sisop_tps.Kdebug.Scan.{stab, HasType, read_lem, before}
use sisop_tps.Kdebug.Step.{value, Searched}
use sisop_tps.Kdebug.Debuginfo.{
  n_fun, n_so, ulim, Eipdebuginfo, Tables, returned, find_function, name_of, argument_count,
  describe, initial_info,
}
use sisop_tps.Kdebug.Debuginfo.Parts.{
  Readable, Entry, NoEntry, name_end, name_in, arguments_lem, found-File, describe_steps,
}

module _ (t : Tables) (m : Memory) (fuel a : ℕ) where
  -- what the search relies on: the tables can be read, the files and the functions each stand in order, none
  -- at the address behind `a`, and the first stab, a header, is no file
  pub record Lookup : Type 0 where
    pub readable : Readable t m fuel
    pub kernel : ulim ≤ a
    pub files : Searched t.stabs n_so 0 (length t.stabs) a
    pub functions : Searched t.stabs n_fun 0 (length t.stabs) a
    pub some_stab : 0 < length t.stabs
    pub header : ¬ HasType t.stabs n_so 0

module _ {t : Tables} {m : Memory} {fuel a : ℕ} (h : Lookup t m fuel a) where
  -- the run of `describe` with a stab that it takes for the function
  pub entry_lem :
      (lfile k e : ℕ)
      → lfile ≤ k
      → k < e
      → e ≤ length t.stabs
      → (info : Eipdebuginfo) × (describe t fuel m lfile k (before e) a (initial_info t a)
          ≡ done (returned 0 info))
        × (info.eip_line ≡ 0)
        × Upto m b':' info.eip_fn_name info.eip_fn_namelen
        × Entry t lfile k e info
  unfolding find_function
  entry_lem lfile k e l p b =
      let h' = h.readable in
      let inn : sle k (before e) ≡ true = ground (arith, h'.small) in
      let (namelen, e₂, u) =
        name_end t m fuel h' (name_of t (stab t.stabs k) t.unknown)
          (name_in t m fuel h' (stab t.stabs k)) in
      let (at, file, e₃, e₄, w) = found-File t m fuel h' lfile k l (omega arith) in
      let (narg, e₅, args) = arguments_lem t m fuel h' k e p b in
      let found : Eipdebuginfo = record (initial_info t a) {
        eip_fn_name = name_of t (stab t.stabs k) t.unknown;
        eip_fn_addr = value t.stabs k;
      } in
      (
        record found { eip_fn_namelen = namelen; eip_file = file; eip_fn_narg = narg },
        describe_steps t m fuel h' lfile k (before e) a k namelen at file narg (initial_info t a)
            found (rw (inn, read_lem t.stabs k (omega arith), find_function) refl) e₂ e₃ e₄ e₅,
        refl,
        u,
        record { addr_is = refl; name_is = refl; args = args; file = w },
      )

  -- the run of `describe` where the search for a function leaves nothing
  pub no_entry_lem :
      (lfile : ℕ)
      → 0 < lfile
      → lfile < length t.stabs
      → (info : Eipdebuginfo) × (describe t fuel m lfile lfile (before lfile) a (initial_info t a)
          ≡ done (returned 0 info))
        × (info.eip_line ≡ 0)
        × Upto m b':' info.eip_fn_name info.eip_fn_namelen
        × NoEntry t lfile a info
  unfolding find_function argument_count
  no_entry_lem lfile p b =
      let h' = h.readable in
      let out : sle lfile (before lfile) ≡ false = ground (arith, h'.small) in
      let none_left : slt lfile (before lfile) ≡ false = ground (arith, h'.small) in
      let (namelen, e₂, u) = name_end t m fuel h' t.unknown (inl refl) in
      let (at, file, e₃, e₄, w) = found-File t m fuel h' lfile lfile (omega arith) b in
      let found : Eipdebuginfo = initial_info t a in
      (
        record found { eip_fn_namelen = namelen; eip_file = file; eip_fn_narg = 0 },
        describe_steps t m fuel h' lfile lfile (before lfile) a lfile namelen at file 0
            (initial_info t a) found (rw (out, find_function) refl) e₂ e₃ e₄
            (rw (none_left, argument_count) refl),
        refl,
        u,
        record { addr_is = refl; name_is = refl; no_args = refl; file = w },
      )
  -- The functions of a file are searched like the functions of all files.
