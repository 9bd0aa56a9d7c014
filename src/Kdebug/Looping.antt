-- ===== src/Kdebug/Looping.antt =====
-- The loop of stab_binsearch (kern/kdebug.c): each round keeps the invariant and makes the region smaller.
use sisop_tps.Prelude.{
  ℕ, zero, suc, ◌+◌, ◌-◌, ◌/◌, ◌≤◌, ◌<◌, ◌≡◌, inl, inr, Bool-cases, true, false, List, add32, sle,
  ltb, length, arith,
}
use sisop_tps.Prelude.Run.{done}
use native.Mathlib.Decide.{dec_lt}
use sisop_tps.Kdebug.{Stab, Region, compare_stab, round, binsearch_loop}
use sisop_tps.Kdebug.Scan.{stab, HasType}
use sisop_tps.Kdebug.Step.{value, Searched, Without, Inv, measure, scanned, round_none, round_hit}
use sisop_tps.Kdebug.Ways.{none-Inv, below-Inv, above-Inv, exact-Inv, exact-measure}

module _ {stabs : List Stab} {type lo hi a : ℕ} (h : Searched stabs type lo hi a) (fuel : ℕ)
    (enough : length stabs + 2 ≤ fuel) where
  abbrev Good : Region → ℕ → Type 0
  Good = Inv stabs type lo hi a

  -- a region that the next round may start from, smaller than `s`
  abbrev Smaller : Region → ℕ → Region → Type 0
  Smaller s re s' =
      (re' : ℕ) × Good s' re'
      × (measure stabs type lo hi a s' re' < measure stabs type lo hi a s re)

  compare_lem :
      (s : Region) (re k : ℕ) (v : Good s re)
      → s.l < re
      → s.l ≤ k
      → k ≤ (s.l + re - 1) / 2
      → HasType stabs type k
      → Without stabs type lo hi a (suc k) (suc ((s.l + re - 1) / 2))
      → Smaller s re (compare_stab s ((s.l + re - 1) / 2) k (stab stabs k))
  unfolding compare_stab
  compare_lem s re k v l b c y n =
      let m = (s.l + re - 1) / 2 in
      let next : add32 m 1 ≡ suc m = unfold add32 in omega (arith, h.small, h.inside, v.re_high) in
      elim (Bool-cases (ltb (value stabs k) s.addr)) [
        | inl lt ↦
            rw (lt, next, compare_stab)
              (
                re,
                below-Inv h s re k (suc m) v b (omega arith) (omega arith) y n (ground arith),
                ground arith,
              )
        | inr ge ↦ elim (Bool-cases (ltb s.addr (value stabs k))) [
          | inl gt ↦
              rw (ge, gt, compare_stab)
                (
                  k,
                  above-Inv h s re k (suc m) v b (omega arith) (omega arith) y n (ground arith),
                  ground arith,
                )
          | inr le ↦
              rw (ge, le, compare_stab)
                (
                  re,
                  exact-Inv h s re k (suc m) v b (omega arith) (omega arith) y n (ground arith),
                  exact-measure h s re k (suc m) v b (omega arith) (omega arith) y n (ground arith),
                )
        ]
      ]

  round_lem :
      (s : Region) (re : ℕ) (v : Good s re)
      → s.l < re
      → (s' : Region) × (round fuel stabs type s ≡ done s') × Smaller s re s'
  round_lem s re v l =
      let sc = scanned h fuel enough s re v l in
      let m = (s.l + re - 1) / 2 in
      elim sc.2.at [
        | inl e ↦ (
          record s { l = suc m },
          round_none h fuel enough s re v l e,
          (
            re,
            none-Inv h s re v l (suc m) (omega arith) (omega arith) (rw e at sc.2.none_above),
            ground arith,
          ),
        )
        | inr (k, e, b, y) ↦
            let k_le : k ≤ m = omega (arith, e, sc.2.high) in
            (
              compare_stab s m k (stab stabs k),
              round_hit h fuel enough s re v l k e b k_le,
              compare_lem s re k v l b k_le y (rw e at sc.2.none_above),
            )
      ]

  pub loop_lem :
      (f : ℕ) (s : Region) (re : ℕ)
      → Good s re
      → measure stabs type lo hi a s re < f
      → (s' : Region) × (binsearch_loop f fuel stabs type s ≡ done s') × Good s' s'.l
  unfolding binsearch_loop
  loop_lem zero s re v p = absurd (omega arith)
  loop_lem (suc f) s re v p = elim (dec_lt s.l re) [
    | no out ↦
        let stop : sle s.l s.r ≡ false =
          ground (arith, h.small, h.inside, v.r_is, v.l_high, v.re_high) in
        let z : re ≡ s.l = omega (arith, v.l_high) in (s, rw (stop, binsearch_loop), rw z at v)
    | yes l ↦
        let go : sle s.l s.r ≡ true = ground (arith, h.small, h.inside, v.r_is, v.re_high) in
        let (s', e, (re', v', q)) = round_lem s re v l in
        let r = loop_lem f s' re' v' (omega arith) in (r.0, rw (go, e, binsearch_loop) r.1, r.2)
  ]
