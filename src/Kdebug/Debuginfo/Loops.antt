-- ===== src/Kdebug/Debuginfo/Loops.antt =====
-- The loops of debuginfo_eip (kern/kdebug.c): the backward search for a file, the count of the arguments, and
-- the end of the name in the string table.
use sisop_tps.Prelude.{
  ℕ, zero, suc, ◌+◌, ◌≤◌, ◌<◌, ◌≡◌, refl, ap, ◌∙◌, ◌⊎◌, inl, inr, Bool-cases, ==_iff, true, false,
  List, ◌==◌, word, half_word, sub32, add32, add32_exact, slt, sle, length, arith,
}
use native.Mathlib.Decide.{ℕ_discrete}
use sisop_tps.Prelude.Run.{done}
use sisop_tps.Memory.{Memory}
use sisop_tps.Strings.Lengths.{Upto, strfind_stop}
use sisop_tps.Kdebug.{Stab}
use sisop_tps.Kdebug.Scan.{stab, HasType, read_lem, max_stabs, before}
use sisop_tps.Kdebug.Debuginfo.{n_psym, names_file, find_file, count_args, name_length}

module _ (stabs : List Stab) where
  -- `g - 1` is the last stab of [lo, e) that names a file, or `g` is `lo` and there is none.
  pub record FileAt (lo e g : ℕ) : Type 0 where
    pub low : lo ≤ g
    pub high : g ≤ e
    pub none_above : (i : ℕ) → g ≤ i → i < e → names_file (stab stabs i) ≡ false
    pub at : (g ≡ lo) ⊎ ((k : ℕ) × (g ≡ suc k) × (lo ≤ k) × (names_file (stab stabs k) ≡ true))

  -- The `n` stabs from `b` on are arguments, below `e`, and no more of them follow.
  pub record Arguments (b e n : ℕ) : Type 0 where
    pub fit : b + n ≤ e
    pub all : (i : ℕ) → b ≤ i → i < b + n → HasType stabs n_psym i
    pub stop : (b + n ≡ e) ⊎ ¬ HasType stabs n_psym (b + n)

module _ (stabs : List Stab) (small : length stabs ≤ max_stabs) where
  find_file_hit :
      (f lo e : ℕ)
      → sle lo e ≡ true
      → e < length stabs
      → names_file (stab stabs e) ≡ true
      → find_file (suc f) stabs lo e ≡ done e
  unfolding find_file
  find_file_hit f lo e inn c hit = rw (inn, read_lem stabs e c, hit, find_file)

  find_file_miss :
      (f lo e : ℕ)
      → sle lo e ≡ true
      → e < length stabs
      → names_file (stab stabs e) ≡ false
      → find_file (suc f) stabs lo e ≡ find_file f stabs lo (sub32 e 1)
  unfolding find_file
  find_file_miss f lo e inn c miss = rw (inn, read_lem stabs e c, miss, find_file)

  -- below `e` no stab at all
  FileAt-empty : (e : ℕ) → FileAt stabs e e e
  FileAt-empty e = record {
    low = omega arith;
    high = omega arith;
    none_above = λ i p q. absurd (omega arith);
    at = inl refl;
  }

  FileAt-hit :
      (lo e : ℕ) → lo ≤ e → names_file (stab stabs e) ≡ true → FileAt stabs lo (suc e) (suc e)
  FileAt-hit lo e l hit = record {
    low = omega arith;
    high = omega arith;
    none_above = λ i p q. absurd (omega arith);
    at = inr (e, refl, l, hit);
  }

  FileAt-miss :
      (lo e g : ℕ)
      → names_file (stab stabs e) ≡ false
      → FileAt stabs lo e g
      → FileAt stabs lo (suc e) g
  FileAt-miss lo e g miss s = record {
    low = s.low;
    high = omega (arith, s.high);
    none_above = λ i p q. elim (ℕ_discrete i e) [
      | yes x ↦ ap (λ j. names_file (stab stabs j)) x ∙ miss
      | no x ↦ s.none_above i p (omega arith)
    ];
    at = s.at;
  }

  pub find_file_lem :
      (f lo e m : ℕ)
      → m ≡ before e
      → lo ≤ e
      → e ≤ length stabs
      → e < f + lo
      → (g : ℕ) × (find_file f stabs lo m ≡ done (before g)) × FileAt stabs lo e g
  unfolding find_file sub32
  find_file_lem zero lo e m k b c h = absurd (omega arith)
  find_file_lem (suc f) lo zero m k b c h =
      let z : lo ≡ 0 = omega arith in (zero, ground arith, rw z (FileAt-empty zero))
  find_file_lem (suc f) lo (suc e) m k b c h =
      let m_is : m ≡ e = omega arith in
      rw m_is (elim (Bool-cases (sle lo e)) [
        | inr out ↦
            let z : lo ≡ suc e = ground arith in
            (suc e, rw (out, find_file) (ground arith), rw z (FileAt-empty (suc e)))
        | inl inn ↦ elim (Bool-cases (names_file (stab stabs e))) [
          | inl hit ↦ (
            suc e,
            find_file_hit f lo e inn c hit ∙ ap done (omega arith),
            FileAt-hit lo e (ground arith) hit,
          )
          | inr miss ↦
              let l : lo ≤ e = ground arith in
              let ih =
                find_file_lem f lo e (sub32 e 1) (omega arith) l (omega arith) (omega arith) in
              (ih.0, find_file_miss f lo e inn c miss ∙ ih.1, FileAt-miss lo e ih.0 miss ih.2)
        ]
      ])

  Arguments-none : (b e : ℕ) → b ≤ e → (b ≡ e) ⊎ ¬ HasType stabs n_psym b → Arguments stabs b e 0
  Arguments-none b e l s = record {
    fit = omega arith;
    all = λ i p q. absurd (omega arith);
    stop = elim s [
      | inl x ↦ inl (omega arith)
      | inr x ↦ inr (λ y. x (ap (λ j. (stab stabs j).n_type) (omega arith) ∙ y))
    ];
  }

  Arguments-one_more :
      (b e n : ℕ)
      → HasType stabs n_psym b
      → Arguments stabs (b + 1) e n
      → Arguments stabs b e (n + 1)
  Arguments-one_more b e n y a =
      let same : b + 1 + n ≡ b + (n + 1) = omega arith in
      record {
        fit = omega (arith, a.fit);
        all = λ i p q. elim (ℕ_discrete i b) [
          | yes x ↦ ap (λ j. (stab stabs j).n_type) x ∙ y
          | no x ↦ a.all i (omega arith) (omega arith)
        ];
        stop = rw same at a.stop;
      }

  count_args_hit :
      (f b e narg : ℕ)
      → slt b e ≡ true
      → b < length stabs
      → narg < half_word
      → ((stab stabs b).n_type == n_psym) ≡ true
      → count_args (suc f) stabs b e narg ≡ count_args f stabs (b + 1) e (narg + 1)
  unfolding count_args
  count_args_hit f b e narg inn l o hit =
      let next : add32 b 1 ≡ b + 1 = add32_exact b 1 (omega arith) in
      let more : add32 narg 1 ≡ narg + 1 = add32_exact narg 1 (omega arith) in
      rw (inn, read_lem stabs b l, hit, next, more, count_args) refl

  sum : (narg n : ℕ) → narg + 1 + n ≡ narg + (n + 1)
  sum narg n = omega arith

  pub count_args_lem :
      (f b e narg : ℕ)
      → b ≤ e
      → e ≤ length stabs
      → e < f + b
      → narg + e < half_word + b
      → (n : ℕ) × (count_args f stabs b e narg ≡ done (narg + n)) × Arguments stabs b e n
  unfolding count_args
  count_args_lem zero b e narg l c h o = absurd (omega arith)
  count_args_lem (suc f) b e narg l c h o = elim (Bool-cases (slt b e)) [
    | inr out ↦
        (0, rw (out, count_args) (ap done (omega arith)), Arguments-none b e l (inl (ground arith)))
    | inl inn ↦
        let lt : b < e = ground arith in
        let here = read_lem stabs b (omega arith) in
        elim (Bool-cases ((stab stabs b).n_type == n_psym)) [
          | inr miss ↦ (
            0,
            rw (inn, here, miss, count_args) (ap done (omega arith)),
            Arguments-none b e l (inr (ground (arith, miss))),
          )
          | inl hit ↦
              let (n, ih, a) =
                count_args_lem f (b + 1) e (narg + 1) (omega arith) c (omega arith) (omega arith) in
              (
                n + 1,
                count_args_hit f b e narg inn (omega arith) (omega arith) hit
                    ∙ ih
                    ∙ ap done (sum narg n),
                Arguments-one_more b e n ((==_iff _ _).0 hit) a,
              )
        ]
  ]

-- A name ends where the table that it stands in does, at the latest.
pub name_length_lem :
    (fuel : ℕ) (m : Memory) (p d : ℕ)
    → m (p + d) ≡ 0
    → d < fuel
    → p + d < word
    → (n : ℕ) × (name_length fuel m p ≡ done n) × (n ≤ d) × Upto m b':' p n
unfolding name_length sub32
name_length_lem fuel m p d z l o =
    let (n, e, b, u) = strfind_stop m b':' fuel p d z l in
    (n, rw (e, name_length) (ap done (omega arith)), b, u)
