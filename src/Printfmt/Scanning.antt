-- ===== src/Printfmt/Scanning.antt =====
-- The scans inside a conversion of vprintfmt (lib/printfmt.c), and what one byte of the format tells.
use sisop_tps.Prelude.{
  ℕ, zero, suc, ◌+◌, ◌*◌, ◌%◌, ◌||◌, ltb, add32, sub32, word, ◌≤◌, ◌<◌, ◌≡◌, ◌≢◌, sym, ◌∙◌, refl,
  inl, inr, List, [], ◌∷◌, ◌==◌, Bool-cases, get_or, length, arith,
}
use sisop_tps.Prelude.Run.{done, no_fuel}
use sisop_tps.Printfmt.{
  Directive, other, classify, back_up, read_digits, take_word, getint, getuint,
}

-- Behind the last byte of a format every read gives NUL.
pub get_or-nonzero : (fmt : List ℕ) (i : ℕ) → get_or fmt i 0 ≢ 0 → i < length fmt
get_or-nonzero [] i h = absurd (h refl)
get_or-nonzero (c ∷ fmt) zero h = omega arith
get_or-nonzero (c ∷ fmt) (suc i) h = omega (arith, get_or-nonzero fmt i h)

-- `back_up` stops at a `%` at the latest.
pub back_up-ahead :
    (fmt : List ℕ) (start i : ℕ)
    → get_or fmt start 0 ≡ b'%'
    → start < i
    → (j : ℕ) × (back_up fmt i ≡ done j) × (start < j)
unfolding back_up
back_up-ahead fmt start zero e l = absurd (omega arith)
back_up-ahead fmt start (suc i) e l = elim (Bool-cases (get_or fmt i 0 == b'%')) [
  | inl here ↦ (suc i, rw here, omega arith)
  | inr more ↦ rw more (back_up-ahead fmt start i e (ground arith))
]

-- The scan of a width ends behind its digits.
pub read_digits-ahead :
    (fmt : List ℕ) (f i ch p : ℕ)
    → length fmt < f + i
    → i ≤ length fmt
    → (r : ℕ × ℕ) × (read_digits f fmt i ch p ≡ done r) × (i ≤ r.1) × (r.1 ≤ length fmt)
unfolding read_digits
read_digits-ahead fmt zero i ch p h b = absurd (omega arith)
read_digits-ahead fmt (suc f) i ch p h b =
    elim (Bool-cases (ltb (get_or fmt i 0) b'0' || ltb b'9' (get_or fmt i 0))) [
      | inl last ↦ ((sub32 (add32 (p * 10 % word) ch) b'0', i), rw last, omega arith, b)
      | inr more ↦
          let r =
            read_digits-ahead fmt f (i + 1) (get_or fmt i 0) (sub32 (add32 (p * 10 % word) ch) b'0')
              (omega arith) (omega (arith, get_or-nonzero fmt i (ground arith))) in
          (r.0, rw more r.1, omega (arith, r.2), r.3)
    ]

-- A byte with a case of its own is not the NUL.
pub in_format :
    (fmt : List ℕ) (i : ℕ) {d : Directive}
    → classify (get_or fmt i 0) ≡ d
    → d ≢ other
    → i + 1 ≤ length fmt
unfolding classify
in_format fmt i {d} k h = omega (arith, get_or-nonzero fmt i (λ z. h (sym k ∙ rw z)))

pub take_word-fuel : (ap : List ℕ) → take_word ap ≢ no_fuel
take_word-fuel ap = ground arith

pub getuint-fuel : (lflag : ℕ) (ap : List ℕ) → getuint lflag ap ≢ no_fuel
unfolding getuint
getuint-fuel lflag ap = ground arith

pub getint-fuel : (lflag : ℕ) (ap : List ℕ) → getint lflag ap ≢ no_fuel
unfolding getint
getint-fuel lflag ap = ground arith
