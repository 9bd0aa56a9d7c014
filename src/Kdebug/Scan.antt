-- ===== src/Kdebug/Scan.antt =====
-- The two downward scans of stab_binsearch (kern/kdebug.c) stop at the last stab of the type.
use sisop_tps.Prelude.{
  ℕ, zero, suc, ◌+◌, ◌%◌, ◌≤◌, ◌<◌, ◌≡◌, refl, ap, ==_iff, ◌⊎◌, inl, inr, Bool-cases, true, false,
  List, [], ◌∷◌, ◌==◌, word, sub32, slt, sle, get_or, length, arith, ◌∙◌,
}
use native.Mathlib.Decide.{ℕ_discrete}
use sisop_tps.Prelude.Run.{done}
use sisop_tps.Kdebug.{Stab, read, scan, rightmost}

abbrev pub no_stab : Stab
no_stab = record { n_strx = 0; n_type = 0; n_other = 0; n_desc = 0; n_value = 0 }

-- the stab at an index that is in range
abbrev pub stab : List Stab → ℕ → Stab
stab stabs i = get_or stabs i no_stab

-- The stab at `i` is of the type.
abbrev pub HasType : List Stab → ℕ → ℕ → Type 0
HasType stabs type i = (stab stabs i).n_type ≡ type

pub read_lem : (stabs : List Stab) (i : ℕ) → i < length stabs → read stabs i ≡ done (stab stabs i)
read_lem [] i h = absurd (omega arith)
read_lem (x ∷ xs) zero h = refl
read_lem (x ∷ xs) (suc i) h = read_lem xs i (omega arith)

-- the limit under which no `int` of the search overflows
abbrev pub max_stabs : ℕ
max_stabs = 0x4000_0000

-- `e - 1` as an `int`
abbrev pub before : ℕ → ℕ
before e = (e + 0xffff_ffff) % word

module _ (stabs : List Stab) (type : ℕ) (small : length stabs ≤ max_stabs) where
  -- The scan from `e - 1` down to `l` ends just below `g`: there is no stab of the type in [g, e), and
  -- `g - 1` is one unless the scan ran out of the region.
  pub record Scanned (l e : ℕ) (g : ℕ) : Type 0 where
    pub low : l ≤ g
    pub high : g ≤ e
    pub none_above : (i : ℕ) → g ≤ i → i < e → ¬ HasType stabs type i
    pub at : (g ≡ l) ⊎ ((k : ℕ) × (g ≡ suc k) × (l ≤ k) × HasType stabs type k)

  scan_hit :
      (f l e : ℕ)
      → sle l e ≡ true
      → e < length stabs
      → ((stab stabs e).n_type == type) ≡ true
      → scan (suc f) stabs type l e ≡ done e
  unfolding scan
  scan_hit f l e inn c hit = rw (inn, read_lem stabs e c, hit, scan)

  scan_miss :
      (f l e : ℕ)
      → sle l e ≡ true
      → e < length stabs
      → ((stab stabs e).n_type == type) ≡ false
      → scan (suc f) stabs type l e ≡ scan f stabs type l (sub32 e 1)
  unfolding scan
  scan_miss f l e inn c miss = rw (inn, read_lem stabs e c, miss, scan)

  pub scan_lem :
      (f l e m : ℕ)
      → m ≡ before e
      → l ≤ e
      → e ≤ length stabs
      → e < f + l
      → (g : ℕ) × (scan f stabs type l m ≡ done (before g)) × Scanned l e g
  unfolding scan sub32
  scan_lem zero l e m k b c h = absurd (omega arith)
  scan_lem (suc f) l zero m k b c h = (
    zero,
    ground arith,
    record {
      low = b;
      high = omega arith;
      none_above = λ i p q. absurd (omega arith);
      at = inl (omega arith);
    },
  )
  scan_lem (suc f) l (suc e) m k b c h =
      let m_is : m ≡ e = omega arith in
      rw m_is (elim (Bool-cases (sle l e)) [
        | inr out ↦ (
          suc e,
          rw (out, scan) (ground arith),
          record {
            low = b;
            high = omega arith;
            none_above = λ i p q. absurd (omega arith);
            at = inl (ground arith);
          },
        )
        | inl inn ↦
            let l_le : l ≤ e = ground arith in
            elim (Bool-cases ((stab stabs e).n_type == type)) [
              | inl hit ↦ (
                suc e,
                scan_hit f l e inn c hit ∙ ap done (omega arith),
                record {
                  low = b;
                  high = omega arith;
                  none_above = λ i p q. absurd (omega arith);
                  at = inr (e, refl, l_le, (==_iff _ _).0 hit);
                },
              )
              | inr miss ↦
                  let ih =
                    scan_lem f l e (sub32 e 1) (omega arith) l_le (omega arith) (omega arith) in
                  (
                    ih.0,
                    scan_miss f l e inn c miss ∙ ih.1,
                    record {
                      low = ih.2.low;
                      high = omega (arith, ih.2.high);
                      none_above = λ i p q. elim (ℕ_discrete i e) [
                        | yes z ↦ rw z (λ y. ground arith)
                        | no ne ↦ ih.2.none_above i p (omega arith)
                      ];
                      at = ih.2.at;
                    },
                  )
            ]
      ])

  rightmost_miss :
      (f l left : ℕ)
      → slt left l ≡ true
      → l < length stabs
      → ((stab stabs l).n_type == type) ≡ false
      → rightmost (suc f) stabs type left l ≡ rightmost f stabs type left (sub32 l 1)
  unfolding rightmost
  rightmost_miss f l left inn c miss = rw (inn, read_lem stabs l c, miss, rightmost)

  -- With no stab of the type strictly between `left` and `e`, the last loop goes down to `left`.
  pub rightmost_lem :
      (f left e l : ℕ)
      → l ≡ before e
      → left < e
      → e ≤ length stabs
      → e < f + left
      → ((i : ℕ) → left < i → i < e → ¬ HasType stabs type i)
      → rightmost f stabs type left l ≡ done left
  unfolding rightmost sub32
  rightmost_lem zero left e l k b c h n = absurd (omega arith)
  rightmost_lem (suc f) left zero l k b c h n = absurd (omega arith)
  rightmost_lem (suc f) left (suc e) l k b c h n =
      let l_is : l ≡ e = omega arith in
      rw l_is (elim (Bool-cases (slt left e)) [
        | inr out ↦ rw (out, rightmost) (ap done (ground arith))
        | inl inn ↦
            let lt : left < e = ground arith in
            rightmost_miss f e left inn c (ground (arith, n e lt (omega arith)))
            ∙ rightmost_lem f left e (sub32 e 1) (omega arith) lt (omega arith) (omega arith)
                (λ i p q. n i p (omega arith))
      ])
