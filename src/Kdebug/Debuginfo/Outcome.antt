-- ===== src/Kdebug/Debuginfo/Outcome.antt =====
-- What debuginfo_eip (kern/kdebug.c) tells of an address.
use sisop_tps.Prelude.{
  ℕ, zero, suc, ◌-◌, ◌≤◌, ◌<◌, ◌≡◌, refl, ap, ◌∙◌, ◌⊎◌, inl, inr, true, false, ◌==◌, sub32, ltb,
  leb, length, arith,
}
use native.Mathlib.Decide.{dec_lt}
use sisop_tps.Prelude.Run.{◌>>=◌, Returns, bind-Returns, map-Returns}
use sisop_tps.Memory.{Memory}
use sisop_tps.Strings.Lengths.{Upto}
use sisop_tps.Kdebug.{stab_binsearch}
use sisop_tps.Kdebug.Scan.{HasType, before}
use sisop_tps.Kdebug.Step.{value, Searched}
use sisop_tps.Kdebug.Correct.{Found, Absent, stab_binsearch-Answer}
use sisop_tps.Kdebug.Debuginfo.{
  n_fun, n_so, ulim, Eipdebuginfo, Tables, Debug, returned, describe, initial_info, debuginfo_eip,
}
use sisop_tps.Kdebug.Debuginfo.Parts.{Entry, NoEntry}
use sisop_tps.Kdebug.Debuginfo.Entries.{Lookup, entry_lem, no_entry_lem}

module _ (t : Tables) (m : Memory) (a : ℕ) where
  -- the file that the address is in, and what is told of the function
  pub record Known (r : Debug) : Type 0 where
    pub info : Eipdebuginfo
    pub result : r ≡ returned 0 info
    pub lfile : ℕ
    pub rfile : ℕ
    pub found : Found t.stabs n_so 0 (length t.stabs) a lfile rfile
    pub no_line : info.eip_line ≡ 0
    pub name : Upto m b':' info.eip_fn_name info.eip_fn_namelen
    pub function :
        ((lfun rfun : ℕ) × (f : Found t.stabs n_fun lfile found.end a lfun rfun) × Entry t lfile
            lfun f.end info)
        ⊎ (((i : ℕ) → lfile ≤ i → i < found.end → HasType t.stabs n_fun i → a < value t.stabs i)
            × (((e : ℕ) × (lfile < e) × Entry t lfile lfile e info) ⊎ NoEntry t lfile a info))

  -- what the call may tell
  abbrev pub Told : Debug → Type 0
  Told r =
      ((r ≡ returned 0xffff_ffff (initial_info t a))
        × ((i : ℕ) → i < length t.stabs → HasType t.stabs n_so i → a < value t.stabs i))
      ⊎ Known r

module _ {t : Tables} {m : Memory} {fuel a : ℕ} (h : Lookup t m fuel a) where
  functions_of : (lo hi : ℕ) → lo ≤ hi → hi ≤ length t.stabs → Searched t.stabs n_fun lo hi a
  functions_of lo hi l b =
      let s = h.functions in
      record {
        small = s.small;
        ordered = l;
        inside = b;
        address = s.address;
        increasing = λ i j _ p q. s.increasing i j (omega arith) p (omega arith);
        no_next = λ i _ q. s.no_next i (omega arith) (omega arith);
      }

  behind_header : (i : ℕ) → HasType t.stabs n_so i → 0 < i
  behind_header zero y = absurd (h.header y)
  behind_header (suc i) y = omega arith

  -- A search that finds no function leaves the file's stab.
  at_file :
      (lfile end lfun : ℕ)
      → lfile < end
      → HasType t.stabs n_so lfile
      → (lfun ≡ lfile) ⊎ ((lfun ≡ before lfile) × ((lfile ≡ end) ⊎ HasType t.stabs n_fun lfile))
      → lfun ≡ lfile
  at_file lfile end lfun l y s = elim s [
    | inl e ↦ e
    | inr (e, w) ↦ elim w [ inl x ↦ absurd (omega arith) | inr x ↦ absurd (omega (arith, x, y)) ]
  ]

  -- from the searches to what is told
  known_lem :
      (lfile rfile lfun rfun : ℕ) (f : Found t.stabs n_so 0 (length t.stabs) a lfile rfile)
      → (Found t.stabs n_fun lfile f.end a lfun rfun ⊎ Absent t.stabs n_fun lfile f.end a lfun rfun)
      → Returns (describe t fuel m lfile lfun rfun a (initial_info t a)) (Known t m a)
  known_lem lfile rfile lfun rfun f s = elim s [
    | inl g ↦
        let (info, e, line, u, w) =
          entry_lem h lfile lfun g.end g.last.from g.left_lt (omega (arith, g.end_le, f.end_le)) in
        let right : rfun ≡ before g.end = g.right_is in
        rw (right, e)
          (record {
            info = info;
            result = refl;
            lfile = lfile;
            rfile = rfile;
            found = f;
            no_line = line;
            name = u;
            function = inl (lfun, rfun, g, w);
          })
    | inr n ↦
        let (e, right, le, ge) = n.right_is in
        let left : lfun ≡ lfile = at_file lfile f.end lfun f.left_lt f.last.is_type n.left_is in
        elim (dec_lt lfile e) [
          | yes more ↦
              let (info, r, line, u, w) =
                entry_lem h lfile lfile e (omega arith) more (omega (arith, f.end_le)) in
              rw (left, right, r)
                (record {
                  info = info;
                  result = refl;
                  lfile = lfile;
                  rfile = rfile;
                  found = f;
                  no_line = line;
                  name = u;
                  function = inr (n.above, inl (e, more, w));
                })
          | no nothing ↦
              let right' : rfun ≡ before lfile = right ∙ ap before (omega arith) in
              let (info, r, line, u, w) =
                no_entry_lem h lfile (behind_header lfile f.last.is_type)
                  (omega (arith, f.left_lt, f.end_le)) in
              rw (left, right', r)
                (record {
                  info = info;
                  result = refl;
                  lfile = lfile;
                  rfile = rfile;
                  found = f;
                  no_line = line;
                  name = u;
                  function = inr (n.above, inr w);
                })
        ]
  ]

  -- A search that finds no file leaves the first stab.
  at_start :
      (lfile : ℕ)
      → (lfile ≡ 0) ⊎ ((lfile ≡ before 0) × ((0 ≡ length t.stabs) ⊎ HasType t.stabs n_so 0))
      → lfile ≡ 0
  at_start lfile s = elim s [
    | inl e ↦ e
    | inr (e, w) ↦ elim w [
      | inl x ↦ absurd (omega (arith, h.some_stab))
      | inr y ↦ absurd (h.header y)
    ]
  ]

  -- the search for a function, and what follows it
  in_file :
      (lfile rfile : ℕ) (f : Found t.stabs n_so 0 (length t.stabs) a lfile rfile)
      → Returns
          (stab_binsearch t.stabs lfile rfile n_fun a >>= λ (lfun, rfun).
            describe t fuel m lfile lfun rfun a (initial_info t a))
          (Known t m a)
  in_file lfile rfile f =
      let right : rfile ≡ before f.end = f.right_is in
      rw right (
        bind-Returns (stab_binsearch t.stabs lfile (before f.end) n_fun a) _ _ (Known t m a)
          (stab_binsearch-Answer t.stabs n_fun lfile f.end a
            (functions_of lfile f.end (omega (arith, f.left_lt)) f.end_le))
          (λ r s. known_lem lfile rfile r.0 r.1 f s))

  -- For a kernel address, with tables that can be read and whose first stab is no file, with files and
  -- functions in order and none of them at the address behind, `debuginfo_eip` ends, never reads outside the stabs, and returns -1 exactly where
  -- every file is above the address. Otherwise it tells of the last file and the last function at or
  -- below the address: the function's address, its name up to a colon, the number of argument stabs that directly
  -- follow its own, the last of the function's stabs left out, and the last file named before; the line is always 0. With no such function in the file it tells of the file's stab
  -- as if it were one, or of the bare address.
  pub debuginfo_eip-Told : Returns (debuginfo_eip t fuel m a) (Told t m a)
  unfolding debuginfo_eip
  debuginfo_eip-Told =
      let h' = h.readable in
      let kernel : ltb a ulim ≡ false = ground (arith, h.kernel) in
      let some_table : leb t.stabstr_end t.stabstr ≡ false = ground (arith, h'.nonempty) in
      let ended : (m (t.stabstr_end - 1) == 0) ≡ true = ground (arith, h'.ends) in
      let all : sub32 (length t.stabs) 1 ≡ before (length t.stabs) =
        unfold sub32 in omega (arith, h'.small) in
      rw (kernel, some_table, ended, all)
        (bind-Returns (stab_binsearch t.stabs 0 (before (length t.stabs)) n_so a) _ _ (Told t m a)
          (stab_binsearch-Answer t.stabs n_so 0 (length t.stabs) a h.files)
          (λ r s. elim s [
            | inl f ↦
                let later : (r.0 == 0) ≡ false = ground (arith, behind_header r.0 f.last.is_type) in
                rw later
                  (map-Returns _ (Known t m a) (Told t m a) (in_file r.0 r.1 f) (λ _ k. inr k))
            | inr n ↦
                let none_there : (r.0 == 0) ≡ true = ground (arith, at_start r.0 n.left_is) in
                rw none_there (inl (refl, λ i l y. n.above i (omega arith) l y))
          ]))
