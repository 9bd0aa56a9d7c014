-- ===== src/Kdebug/Step.antt =====
-- One round of the loop of stab_binsearch (kern/kdebug.c): what it does to the region, and the invariant
-- that it keeps. The upper bounds are exclusive here: `re` stands for `r + 1`.
use sisop_tps.Prelude.{
  ℕ, suc, ◌+◌, ◌-◌, ◌*◌, ◌/◌, ◌≤◌, ◌<◌, ◌≡◌, ◌≢◌, refl, ◌⊎◌, true, false, List, ◌==◌, word, add32,
  slt, length, arith, if◌then◌else◌,
}
use sisop_tps.Prelude.Run.{done}
use native.Mathlib.Decide.{dec_lt}
use sisop_tps.Kdebug.{Stab, Region, scan, half, compare_stab, round}
use sisop_tps.Kdebug.Scan.{stab, HasType, read_lem, max_stabs, before, Scanned, scan_lem}

abbrev pub value : List Stab → ℕ → ℕ
value stabs i = (stab stabs i).n_value

-- What is searched: the stabs of the type in [lo, hi) stand in increasing order of address, and none of
-- them is at the address behind `a`.
pub record Searched (stabs : List Stab) (type lo hi a : ℕ) : Type 0 where
  pub small : length stabs ≤ max_stabs
  pub ordered : lo ≤ hi
  pub inside : hi ≤ length stabs
  pub address : a + 1 < word
  pub increasing :
      (i j : ℕ)
      → lo ≤ i
      → i < j
      → j < hi
      → HasType stabs type i
      → HasType stabs type j
      → value stabs i < value stabs j
  pub no_next : (i : ℕ) → lo ≤ i → i < hi → HasType stabs type i → value stabs i ≢ a + 1

module _ (stabs : List Stab) (type lo hi a : ℕ) where
  -- No stab of the type stands in [b, e).
  abbrev pub Without : ℕ → ℕ → Type 0
  Without b e = (i : ℕ) → b ≤ i → i < e → ¬ HasType stabs type i

  -- `k` is the last stab of the type below `e`, and its address is at most `a`.
  pub record Last (k e : ℕ) : Type 0 where
    pub from : lo ≤ k
    pub is_type : HasType stabs type k
    pub at_most : value stabs k ≤ a
    pub rest : Without (suc k) e

  pub record Inv (s : Region) (re : ℕ) : Type 0 where
    pub r_is : s.r ≡ before re
    pub right_is : s.right ≡ s.r
    pub l_low : lo ≤ s.l
    pub l_high : s.l ≤ re
    pub re_high : re ≤ hi
    pub addr_is : (s.addr ≡ a) ⊎ (s.addr ≡ a + 1)
    pub low : (i : ℕ) → lo ≤ i → i < s.l → HasType stabs type i → value stabs i ≤ a
    pub high : (i : ℕ) → re ≤ i → i < hi → HasType stabs type i → a < value stabs i
    pub left_is :
        ((s.left ≡ lo) × Without lo s.l) ⊎ ((s.left ≤ s.l) × (s.left < re) × Last s.left s.l)
    pub edge : (re ≡ hi) ⊎ ((re < hi) × HasType stabs type re)
    pub idle : s.any_matches ≡ false → (re ≡ hi) × (s.left ≡ lo) × Without lo s.l

  pub join : {b c e : ℕ} → Without b c → Without c e → Without b e
  join {c = c} m n i p q = elim (dec_lt i c) [ yes x ↦ m i p x | no x ↦ n i (omega arith) q ]

  abbrev pub measure : Region → ℕ → ℕ
  measure s re = 2 * (re - s.l) + (if s.addr == a then 1 else 0)

module _ {stabs : List Stab} {type lo hi a : ℕ} (h : Searched stabs type lo hi a) where
  abbrev pub Good : Region → ℕ → Type 0
  Good = Inv stabs type lo hi a

  middle : (s : Region) (re : ℕ) → Good s re → s.l < re → half (add32 s.l s.r) ≡ (s.l + re - 1) / 2
  unfolding half add32
  middle s re v l = ground (arith, h.small, h.inside, v.r_is, v.re_high)

  module _ (fuel : ℕ) (enough : length stabs + 2 ≤ fuel) (s : Region) (re : ℕ) (v : Good s re)
      (l : s.l < re) where
    abbrev pub t : ℕ
    t = (s.l + re - 1) / 2

    pub scanned :
        (g : ℕ) × (scan fuel stabs type s.l t ≡ done (before g))
        × Scanned stabs type h.small s.l (suc t) g
    scanned =
        scan_lem stabs type h.small fuel s.l (suc t) t (omega (arith, h.small, h.inside, v.re_high))
          (omega arith) (omega (arith, h.inside, v.re_high)) (omega (arith, h.inside, v.re_high))

    pub round_none : scanned.0 ≡ s.l → round fuel stabs type s ≡ done (record s { l = suc t })
    unfolding round
    round_none e =
        let bound : re ≤ max_stabs = omega (arith, h.small, h.inside, v.re_high) in
        let out : slt (before s.l) s.l ≡ true = ground arith in
        let next : add32 t 1 ≡ suc t = unfold add32 in omega arith in
        rw (middle s re v l, scanned.1, e, out, next, round) refl

    pub round_hit :
        (k : ℕ)
        → scanned.0 ≡ suc k
        → s.l ≤ k
        → k ≤ t
        → round fuel stabs type s ≡ done (compare_stab s t k (stab stabs k))
    unfolding round
    round_hit k e b c =
        let bound : re ≤ max_stabs = omega (arith, h.small, h.inside, v.re_high) in
        let here : before (suc k) ≡ k = omega arith in
        let inn : slt k s.l ≡ false = ground arith in
        rw
          (
            middle s re v l,
            scanned.1,
            e,
            here,
            inn,
            read_lem stabs k (omega (arith, h.inside, v.re_high)),
            round,
          )
          refl
