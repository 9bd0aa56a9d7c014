-- ===== src/Kdebug/Correct.antt =====
-- stab_binsearch (kern/kdebug.c) ends without a fault and finds the last stab at or below the address.
use sisop_tps.Prelude.{
  ℕ, zero, suc, ◌+◌, ◌*◌, ◌≤◌, ◌<◌, ◌≡◌, refl, ap, ◌∙◌, ◌⊎◌, inl, inr, Bool-cases, false, List,
  sub32, slt, length, arith,
}
use sisop_tps.Prelude.Run.{done, Returns}
use native.Mathlib.Decide.{dec_lt}
use sisop_tps.Kdebug.{Stab, Region, rightmost, settle, stab_binsearch}
use sisop_tps.Kdebug.Scan.{HasType, before, rightmost_lem}
use sisop_tps.Kdebug.Step.{value, Searched, Without, Last, Inv}
use sisop_tps.Kdebug.Looping.{loop_lem}

-- the result of a search of [lo, hi) for the address `a`
module _ (stabs : List Stab) (type lo hi a : ℕ) where
  -- `left` is the last stab of the type at or below the address, and the region ends before the next stab
  -- of the type, or with [lo, hi).
  pub record Found (left right : ℕ) : Type 0 where
    pub end : ℕ
    pub right_is : right ≡ before end
    pub left_lt : left < end
    pub end_le : end ≤ hi
    pub last : Last stabs type lo hi a left end
    pub above : (i : ℕ) → end ≤ i → i < hi → HasType stabs type i → a < value stabs i
    pub edge : (end ≡ hi) ⊎ ((end < hi) × HasType stabs type end)

  -- Every stab of the type is above the address. The region is then no longer marked empty by `left` and
  -- `right` alone: `left` is `lo`, or `lo - 1` where nothing is searched or the first stab is of the type.
  pub record Absent (left right : ℕ) : Type 0 where
    pub left_is : (left ≡ lo) ⊎ ((left ≡ before lo) × ((lo ≡ hi) ⊎ HasType stabs type lo))
    pub right_is : (e : ℕ) × (right ≡ before e) × (lo ≤ e) × (e ≤ hi)
    pub above : (i : ℕ) → lo ≤ i → i < hi → HasType stabs type i → a < value stabs i

  abbrev pub Answer : ℕ × ℕ → Type 0
  Answer r = Found r.0 r.1 ⊎ Absent r.0 r.1

module _ {stabs : List Stab} {type lo hi a : ℕ} (h : Searched stabs type lo hi a) (fuel : ℕ)
    (enough : length stabs + 2 ≤ fuel) where
  abbrev Good : Region → ℕ → Type 0
  Good = Inv stabs type lo hi a

  absent :
      {s : Region}
      → Good s s.l
      → Without stabs type lo hi a lo s.l
      → (i : ℕ) → lo ≤ i
      → i < hi
      → HasType stabs type i
      → a < value stabs i
  absent {s} v w i p q y = elim (dec_lt i s.l) [
    | yes x ↦ absurd (w i p x y)
    | no x ↦ v.high i (omega arith) q y
  ]

  rightmost_stop :
      (f left l : ℕ) → 0 < f → slt left l ≡ false → rightmost f stabs type left l ≡ done l
  unfolding rightmost
  rightmost_stop zero left l p q = absurd (omega arith)
  rightmost_stop (suc f) left l p q = rw (q, rightmost)

  settle_lem :
      (s : Region) → Good s s.l → Returns (settle fuel stabs type s) (Answer stabs type lo hi a)
  unfolding settle sub32
  settle_lem s v = elim (Bool-cases s.any_matches) [
    | inr idle ↦
        rw (idle, settle)
          (inr (record {
            left_is = inl (v.idle idle).1;
            right_is = (
              lo,
              omega (arith, (v.idle idle).1, h.small, h.inside, h.ordered),
              omega arith,
              h.ordered,
            );
            above = λ i p q y. absurd ((v.idle idle).2 i p (omega (arith, (v.idle idle).0)) y);
          }))
    | inl matched ↦ elim v.left_is [
      | inr (le, lt, k) ↦
          let r : s.right ≡ before s.l = v.right_is ∙ v.r_is in
          let e =
            rightmost_lem stabs type h.small fuel s.left s.l s.right r lt
              (omega (arith, h.inside, v.re_high)) (omega (arith, h.inside, v.re_high)) k.rest in
          rw (matched, e, settle)
            (inl (record {
              end = s.l;
              right_is = r;
              left_lt = lt;
              end_le = v.re_high;
              last = k;
              above = v.high;
              edge = v.edge;
            }))
      | inl (z, w) ↦ elim (dec_lt lo s.l) [
        | yes lt ↦
            let r : s.right ≡ before s.l = v.right_is ∙ v.r_is in
            let e =
              rightmost_lem stabs type h.small fuel s.left s.l s.right r (omega arith)
                (omega (arith, h.inside, v.re_high)) (omega (arith, h.inside, v.re_high))
                (λ i p q. w i (omega arith) q) in
            rw (matched, e, settle)
              (inr (record {
                left_is = inl z;
                right_is = (s.l, r, v.l_low, omega (arith, v.l_high, v.re_high));
                above = absent v w;
              }))
        | no ge ↦
            let r : s.right ≡ before lo =
              v.right_is ∙ v.r_is ∙ ap (λ (x : ℕ). before x) (omega (arith, v.l_low)) in
            let e : rightmost fuel stabs type s.left s.right ≡ done s.right =
              rightmost_stop fuel s.left s.right (omega arith)
                (ground (arith, h.small, h.inside, v.re_high, v.l_low)) in
            rw (matched, e, settle)
              (inr (record {
                left_is = inr (
                  r,
                  elim v.edge [
                    | inl m ↦ inl (omega arith)
                    | inr m ↦ inr (let same : s.l ≡ lo = omega arith in rw same at m.1)
                  ],
                );
                right_is = (lo, r, omega arith, h.ordered);
                above = absent v w;
              }))
      ]
    ]
  ]

start :
    {stabs : List Stab} {type lo hi a : ℕ}
    → Searched stabs type lo hi a
    → Inv stabs type lo hi a
        (record {
          l = lo;
          r = before hi;
          any_matches = false;
          left = lo;
          right = before hi;
          addr = a;
        })
        hi
start h = record {
  r_is = refl;
  right_is = refl;
  l_low = omega arith;
  l_high = h.ordered;
  re_high = omega arith;
  addr_is = inl refl;
  low = λ i p q y. absurd (omega arith);
  high = λ i p q y. absurd (omega arith);
  left_is = inl (refl, λ i p q. absurd (omega arith));
  edge = inl refl;
  idle = λ z. (refl, refl, λ i p q. absurd (omega arith));
}

-- With the stabs of the type in increasing order in [lo, hi), and none at the address behind `a`,
-- `stab_binsearch` on the region from `lo` to `hi - 1` ends, never reads outside the stabs, and returns the
-- last stab of the type at or below `a` with the index before the next one. Where every stab of the type is
-- above `a`, it returns `lo`, or `lo - 1` if nothing is searched or the first stab is of the type, with an
-- index from `lo - 1` to `hi - 1`: the result alone does not tell that there is none.
pub stab_binsearch-Answer :
    (stabs : List Stab) (type lo hi a : ℕ)
    → Searched stabs type lo hi a
    → Returns (stab_binsearch stabs lo (before hi) type a) (Answer stabs type lo hi a)
unfolding stab_binsearch
stab_binsearch-Answer stabs type lo hi a h =
    let fuel = length stabs + 2 in
    let r =
      loop_lem h fuel (omega arith) (2 * length stabs + 4) _ hi (start h)
        (ground (arith, h.inside)) in
    rw (r.1, stab_binsearch) (settle_lem h fuel (omega arith) r.0 r.2)
