-- ===== src/Kdebug/Ways.antt =====
-- The ways on in the loop of stab_binsearch (kern/kdebug.c) keep its invariant and shrink its measure.
use sisop_tps.Prelude.{ℕ, suc, ◌≤◌, ◌<◌, ◌≡◌, refl, inl, inr, true, List, add32, sub32, arith}
use native.Mathlib.Decide.{ℕ_discrete, dec_lt}
use sisop_tps.Kdebug.{Stab, Region}
use sisop_tps.Kdebug.Scan.{HasType}
use sisop_tps.Kdebug.Step.{value, Searched, Without, Last, Inv, join, measure}

module _ {stabs : List Stab} {type lo hi a : ℕ} (h : Searched stabs type lo hi a) where
  abbrev Good : Region → ℕ → Type 0
  Good = Inv stabs type lo hi a

  -- No stab of the type in [l, e): the region goes on from `e`.
  module _ (s : Region) (re : ℕ) (v : Good s re) (l : s.l < re) where
    pub none-Inv :
        (e : ℕ) → s.l ≤ e → e ≤ re → Without stabs type lo hi a s.l e → Good (record s { l = e }) re
    none-Inv e b c n = record {
      r_is = v.r_is;
      right_is = v.right_is;
      l_low = omega (arith, v.l_low);
      l_high = c;
      re_high = v.re_high;
      addr_is = v.addr_is;
      low = λ i p q y. elim (dec_lt i s.l) [
        | yes b ↦ v.low i p b y
        | no b ↦ absurd (n i (omega arith) q y)
      ];
      high = v.high;
      left_is = elim v.left_is [
        | inl (z, w) ↦ inl (z, join stabs type lo hi a w n)
        | inr (b', d, k) ↦ inr (
          omega arith,
          d,
          record {
            from = k.from;
            is_type = k.is_type;
            at_most = k.at_most;
            rest = join stabs type lo hi a k.rest n;
          },
        )
      ];
      edge = v.edge;
      idle = λ z. ((v.idle z).0, (v.idle z).1, join stabs type lo hi a (v.idle z).2 n);
    }

  -- The stab at `k` is the last of the type in [l, e).
  module _ (s : Region) (re k e : ℕ) (v : Good s re) (from : s.l ≤ k) (k_lt : k < e) (e_le : e ≤ re)
      (y : HasType stabs type k) (n : Without stabs type lo hi a (suc k) e) where
    k_lo : lo ≤ k
    k_lo = omega (arith, v.l_low)

    k_hi : k < hi
    k_hi = omega (arith, v.re_high)

    -- up to the end of the scan, stabs of the type are at most at the address of `k`
    up_to : (i : ℕ) → lo ≤ i → i < e → HasType stabs type i → value stabs i ≤ value stabs k
    up_to i p q z = elim (ℕ_discrete i k) [
      | yes x ↦ rw x (omega arith)
      | no ne ↦ elim (dec_lt i k) [
        | yes x ↦ omega (arith, h.increasing i k p x k_hi z y)
        | no x ↦ absurd (n i (omega arith) q z)
      ]
    ]

    from_k : (i : ℕ) → k ≤ i → i < hi → HasType stabs type i → value stabs k ≤ value stabs i
    from_k i p q z = elim (ℕ_discrete i k) [
      | yes x ↦ rw x (omega arith)
      | no ne ↦ omega (arith, h.increasing k i k_lo (omega arith) q y z)
    ]

    k-Last : value stabs k ≤ a → (e' : ℕ) → e' ≤ e → Last stabs type lo hi a k e'
    k-Last b e' c = record {
      from = k_lo;
      is_type = y;
      at_most = b;
      rest = λ i p q. n i p (omega arith);
    }

    pub below-Inv :
        value stabs k < s.addr → Good (record s { any_matches = true; left = k; l = e }) re
    below-Inv b =
        let at_most : value stabs k ≤ a = omega (arith, v.addr_is) in
        record {
          r_is = v.r_is;
          right_is = v.right_is;
          l_low = omega (arith, k_lo);
          l_high = e_le;
          re_high = v.re_high;
          addr_is = v.addr_is;
          low = λ i p q z. omega (arith, up_to i p q z);
          high = v.high;
          left_is = inr (omega arith, omega arith, k-Last at_most e (omega arith));
          edge = v.edge;
          idle = λ z. cc;
        }

    pub above-Inv :
        s.addr < value stabs k
        → Good (record s { any_matches = true; right = sub32 k 1; r = sub32 k 1 }) k
    above-Inv b = record {
      r_is = unfold sub32 in omega (arith, k_hi);
      right_is = refl;
      l_low = v.l_low;
      l_high = from;
      re_high = omega (arith, k_hi);
      addr_is = v.addr_is;
      low = v.low;
      high = λ i p q z. omega (arith, v.addr_is, from_k i p q z);
      left_is = elim v.left_is [ inl w ↦ inl w | inr (c, d, w) ↦ inr (c, stays c w, w) ];
      edge = inr (k_hi, y);
      idle = λ z. cc;
    }
      where
        stays : s.left ≤ s.l → Last stabs type lo hi a s.left s.l → s.left < k
        stays c w = elim (ℕ_discrete s.left k) [
          | yes x ↦ absurd (omega (arith, v.addr_is, w.at_most, rw x at w.at_most))
          | no x ↦ omega arith
        ]

    -- An exact match is at the first address: the one behind it belongs to no stab.
    exact_first : value stabs k ≡ s.addr → s.addr ≡ a
    exact_first b = elim v.addr_is [
      | inl x ↦ x
      | inr x ↦ absurd (h.no_next k k_lo k_hi y (omega arith))
    ]

    pub exact-Inv :
        value stabs k ≡ s.addr
        → Good (record s { any_matches = true; left = k; l = k; addr = add32 s.addr 1 }) re
    exact-Inv b =
        let first : s.addr ≡ a = exact_first b in
        record {
          r_is = v.r_is;
          right_is = v.right_is;
          l_low = k_lo;
          l_high = omega arith;
          re_high = v.re_high;
          addr_is = inr (unfold add32 in omega (arith, h.address));
          low = λ i p q z. omega (arith, up_to i p (omega arith) z);
          high = v.high;
          left_is = inr (omega arith, omega arith, k-Last (omega arith) k (omega arith));
          edge = v.edge;
          idle = λ z. cc;
        }

    pub exact-measure :
        value stabs k ≡ s.addr
        → measure stabs type lo hi a
            (record s { any_matches = true; left = k; l = k; addr = add32 s.addr 1 })
            re
          < measure stabs type lo hi a s re
    unfolding add32
    exact-measure b = ground (arith, exact_first b, h.address)
