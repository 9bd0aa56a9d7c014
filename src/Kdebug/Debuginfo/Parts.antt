-- ===== src/Kdebug/Debuginfo/Parts.antt =====
-- The parts of debuginfo_eip (kern/kdebug.c) behind its searches: the name of the function, the file and the
-- arguments.
use sisop_tps.Prelude.{
  ℕ, suc, ◌+◌, ◌-◌, ◌≤◌, ◌<◌, ◌≡◌, refl, ap, ◌∙◌, ◌⊎◌, inl, inr, Bool-cases, true, false, word,
  add32, add32_exact, slt, sle, ltb, length, arith,
}
use native.Mathlib.Decide.{dec_lt}
use sisop_tps.Prelude.Run.{done}
use sisop_tps.Memory.{Memory}
use sisop_tps.Strings.Lengths.{Upto}
use sisop_tps.Kdebug.{Stab}
use sisop_tps.Kdebug.Scan.{stab, read_lem, max_stabs, before}
use sisop_tps.Kdebug.Step.{value}
use sisop_tps.Kdebug.Debuginfo.{
  names_file, Eipdebuginfo, Tables, returned, find_file, count_args, find_function, name_length,
  name_of, file_name, argument_count, describe,
}
use sisop_tps.Kdebug.Debuginfo.Loops.{
  FileAt, Arguments, find_file_lem, count_args_lem, name_length_lem,
}

module _ (t : Tables) where
  -- what the string tables hold, and the fuel that is enough for a name
  pub record Readable (m : Memory) (fuel : ℕ) : Type 0 where
    pub small : length t.stabs ≤ max_stabs
    pub nonempty : t.stabstr < t.stabstr_end
    pub below : t.stabstr_end < word
    pub ends : m (t.stabstr_end - 1) ≡ 0
    pub literal : m (t.unknown + 9) ≡ 0
    pub literal_low : t.unknown + 9 < word
    pub table_fuel : t.stabstr_end - t.stabstr ≤ fuel
    pub literal_fuel : 9 < fuel

  -- the file that a position of the stabs is in: the last one named from `lfile` to there, if there is one
  pub record Named (lfile k file at : ℕ) : Type 0 where
    pub from : lfile ≤ at
    pub to : at ≤ k
    pub names : names_file (stab t.stabs at) ≡ true
    pub last : (i : ℕ) → at < i → i ≤ k → names_file (stab t.stabs i) ≡ false
    pub file_is : file ≡ name_of t (stab t.stabs at) t.unknown

  abbrev pub File : ℕ → ℕ → ℕ → Type 0
  File lfile k file =
      ((at : ℕ) × Named lfile k file at)
      ⊎ ((file ≡ t.unknown) × ((i : ℕ) → lfile ≤ i → i ≤ k → names_file (stab t.stabs i) ≡ false))

  -- the function described by the stab `k`, whose stabs end before `e`
  pub record Entry (lfile k e : ℕ) (info : Eipdebuginfo) : Type 0 where
    pub addr_is : info.eip_fn_addr ≡ value t.stabs k
    pub name_is : info.eip_fn_name ≡ name_of t (stab t.stabs k) t.unknown
    pub args :
        ((k + 1 < e) × Arguments t.stabs (k + 1) (e - 1) info.eip_fn_narg)
        ⊎ ((e ≤ k + 1) × (info.eip_fn_narg ≡ 0))
    pub file : File lfile k info.eip_file

  -- no function
  pub record NoEntry (lfile a : ℕ) (info : Eipdebuginfo) : Type 0 where
    pub addr_is : info.eip_fn_addr ≡ a
    pub name_is : info.eip_fn_name ≡ t.unknown
    pub no_args : info.eip_fn_narg ≡ 0
    pub file : File lfile lfile info.eip_file

module _ (t : Tables) (m : Memory) (fuel : ℕ) (h : Readable t m fuel) where
  file_name_at :
      (lfile j : ℕ)
      → sle lfile j ≡ true
      → j < length t.stabs
      → file_name t lfile j t.unknown ≡ done (name_of t (stab t.stabs j) t.unknown)
  unfolding file_name
  file_name_at lfile j inn l = rw (inn, read_lem t.stabs j l, file_name) refl

  pub file_name_lem :
      (lfile k g : ℕ)
      → lfile ≤ k
      → k < length t.stabs
      → FileAt t.stabs lfile (suc k) g
      → (file : ℕ) × (file_name t lfile (before g) t.unknown ≡ done file) × File t lfile k file
  unfolding file_name
  file_name_lem lfile k g l b s = elim s.at [
    | inl none_at ↦
        let out : sle lfile (before g) ≡ false = ground (arith, h.small) in
        (
          t.unknown,
          rw (out, file_name) refl,
          inr (refl, λ i p q. s.none_above i (omega arith) (omega arith)),
        )
    | inr (j, e, p, y) ↦
        let at : before g ≡ j = omega (arith, h.small, s.high) in
        let inn : sle lfile j ≡ true = ground (arith, h.small, s.high) in
        (
          name_of t (stab t.stabs j) t.unknown,
          ap (λ x. file_name t lfile x t.unknown) at
              ∙ file_name_at lfile j inn (omega (arith, s.high)),
          inl (
            j,
            record {
              from = p;
              to = omega (arith, s.high);
              names = y;
              last = λ i u v. s.none_above i (omega arith) (omega arith);
              file_is = refl;
            },
          ),
        )
  ]

  pub name_end :
      (p : ℕ)
      → (p ≡ t.unknown) ⊎ ((t.stabstr ≤ p) × (p < t.stabstr_end))
      → (n : ℕ) × (name_length fuel m p ≡ done n) × Upto m b':' p n
  name_end p w = elim w [
    | inl e ↦
        let (n, r, _, u) =
          name_length_lem fuel m p 9 (rw e h.literal) h.literal_fuel (rw e h.literal_low) in
        (n, r, u)
    | inr (a, b) ↦
        let last : t.stabstr_end - 1 ≡ p + (t.stabstr_end - 1 - p) = omega arith in
        let (n, r, _, u) =
          name_length_lem fuel m p (t.stabstr_end - 1 - p) (rw last at h.ends)
            (omega (arith, h.table_fuel)) (omega (arith, h.below)) in
        (n, r, u)
  ]

  pub name_in :
      (st : Stab)
      → (name_of t st t.unknown ≡ t.unknown)
        ⊎ ((t.stabstr ≤ name_of t st t.unknown) × (name_of t st t.unknown < t.stabstr_end))
  name_in st = elim (Bool-cases (ltb st.n_strx (t.stabstr_end - t.stabstr))) [
    | inl y ↦ rw y (inr (omega arith, ground arith))
    | inr n ↦ rw n (inl refl)
  ]

  from_zero : (n : ℕ) → 0 + n ≡ n
  from_zero n = omega arith

  argument_count_more :
      (k e : ℕ)
      → slt k (before e) ≡ true
      → k + 1 < word
      → before e ≡ e - 1
      → argument_count t k (before e) ≡ count_args (length t.stabs + 2) t.stabs (k + 1) (e - 1) 0
  unfolding argument_count
  argument_count_more k e inn l to =
      let next : add32 k 1 ≡ k + 1 = add32_exact k 1 l in
      rw (inn, next, argument_count)
        (ap (λ x. count_args (length t.stabs + 2) t.stabs (k + 1) x 0) to)

  pub arguments_lem :
      (k e : ℕ)
      → k < e
      → e ≤ length t.stabs
      → (n : ℕ) × (argument_count t k (before e) ≡ done n)
        × (((k + 1 < e) × Arguments t.stabs (k + 1) (e - 1) n) ⊎ ((e ≤ k + 1) × (n ≡ 0)))
  unfolding argument_count
  arguments_lem k e l b =
      let to : before e ≡ e - 1 = omega (arith, h.small) in
      elim (dec_lt (k + 1) e) [
        | no short ↦
            let out : slt k (before e) ≡ false = ground (arith, h.small) in
            (0, rw (out, argument_count) refl, inr (omega arith, refl))
        | yes more ↦
            let inn : slt k (before e) ≡ true = ground (arith, h.small) in
            let (n, r, a) =
              count_args_lem t.stabs h.small (length t.stabs + 2) (k + 1) (e - 1) 0 (omega arith)
                (omega arith) (omega arith) (omega (arith, h.small)) in
            (
              n,
              argument_count_more k e inn (omega (arith, h.small)) to ∙ r ∙ ap done (from_zero n),
              inl (more, a),
            )
      ]

  pub found-File :
      (lfile k : ℕ)
      → lfile ≤ k
      → k < length t.stabs
      → (at file : ℕ) × (find_file (length t.stabs + 2) t.stabs lfile k ≡ done at)
        × (file_name t lfile at t.unknown ≡ done file)
        × File t lfile k file
  found-File lfile k l b =
      let (g, r, s) =
        find_file_lem t.stabs h.small (length t.stabs + 2) lfile (suc k) k (omega (arith, h.small))
          (omega arith) (omega arith) (omega arith) in
      let (file, e, w) = file_name_lem lfile k g l b s in (before g, file, r, e, w)

  -- the steps of `describe`, put together
  pub describe_steps :
      (lfile lfun rfun a lline namelen at file narg : ℕ) (info found : Eipdebuginfo)
      → find_function t lfile lfun rfun a info ≡ done (found, lline)
      → name_length fuel m found.eip_fn_name ≡ done namelen
      → find_file (length t.stabs + 2) t.stabs lfile lline ≡ done at
      → file_name t lfile at found.eip_file ≡ done file
      → argument_count t lfun rfun ≡ done narg
      → describe t fuel m lfile lfun rfun a info
        ≡ done (
            returned 0
              (record found { eip_fn_namelen = namelen; eip_file = file; eip_fn_narg = narg }))
  unfolding describe
  describe_steps lfile lfun rfun a lline namelen at file narg info found e₁ e₂ e₃ e₄ e₅ =
      rw (e₁, e₂, e₃, e₄, e₅, describe) refl
