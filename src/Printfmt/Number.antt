-- ===== src/Printfmt/Number.antt =====
-- printnum of lib/printfmt.c prints the digits of its number behind the padding.
use sisop_tps.Prelude.{
  ℕ, zero, suc, ap₂, ◌≤◌, ◌==◌, ==→eq, all_below, all_below_sound, ◌+◌, ◌/◌, ◌%◌, ◌^◌, ◌<◌, ◌≡◌,
  refl, sym, ap, All, ◌∙◌, inl, inr, List, [], ◌∷◌, ◌++◌, map, foldl, foldl-append, append_assoc,
  leb, sub32, length, length-append, replicate, Bool-cases, arith,
}
use sisop_tps.Printfmt.{digit_char, positive, repeat_putch, printnum_loop, printnum}
use sisop_tps.Printfmt.Digits.{
  numeral_char, digits_of, div-pos, div-lt-pow, digits_of-bounds, digits_of-leading,
  value_from-digits_of, StartsNonzero,
}
use sisop_tps.Strings.Strtol.Digits.{value_from}
use native.Mathlib.Nat.{pow-zero, pow-le-pow_left, lt_of_lt_of_le}
use mathlib.Core.List.{map-append}

-- the calls of `putch` for the characters of a list, in order
abbrev pub emit : {S : Type 0} → (ℕ → S → S) → List ℕ → S → S
emit putch cs s = foldl (λ s c. putch c s) s cs

module _ {S : Type 0} (putch : ℕ → S → S) where
  pub emit-append :
      (xs ys : List ℕ) (s : S) → emit putch (xs ++ ys) s ≡ emit putch ys (emit putch xs s)
  emit-append xs ys s = foldl-append (λ s c. putch c s) s xs ys

  pub repeat_putch_lem : (n c : ℕ) (s : S) → repeat_putch putch n c s ≡ emit putch (replicate n c) s
  unfolding repeat_putch
  repeat_putch_lem zero c s = refl
  repeat_putch_lem (suc n) c s = repeat_putch_lem n c (putch c s)

-- what a field of `width` holds: the padding that the digits leave room for, and the digits
abbrev pub field : ℕ → ℕ → List ℕ → List ℕ
field width padc ds = replicate (positive (sub32 width (length ds))) padc ++ map digit_char ds

field-snoc :
    (width padc d : ℕ) (ds : List ℕ)
    → field (sub32 width 1) padc ds ++ (digit_char d ∷ []) ≡ field width padc (ds ++ (d ∷ []))
field-snoc width padc d ds =
    let e : sub32 (sub32 width 1) (length ds) ≡ sub32 width (length (ds ++ (d ∷ []))) =
      unfold sub32 in omega (arith, length-append {0} ds (d ∷ [])) in
    rw (e, map-append)
      (append_assoc (replicate (positive (sub32 width (length (ds ++ (d ∷ []))))) padc)
        (map digit_char ds) _)

fits : (num base : ℕ) → 1 < base → num < 2 ^ 64 → num < base ^ 64
fits num base b h = lt_of_lt_of_le h (pow-le-pow_left {n = 2} {m = base} b 64)

module _ {S : Type 0} (putch : ℕ → S → S) where
  -- the `f` digits that the fuel allows hold the number
  printnum_loop_lem :
      (f num base width padc : ℕ) (s : S)
      → 1 < base
      → num < base ^ f
      → 0 < num + f
      → printnum_loop putch f num base width padc s
        ≡ emit putch (field width padc (digits_of f base num)) s
  unfolding printnum_loop digits_of
  printnum_loop_lem zero num base width padc s b h p =
      let z : num < 1 = rw (pow-zero base) at h in absurd (omega arith)
  printnum_loop_lem (suc f) num base width padc s b h p = elim (Bool-cases (leb base num)) [
    | inl more ↦
        let q : 0 < num / base = div-pos num base (omega arith) (ground arith) in
        let ih =
          printnum_loop_lem f (num / base) base (sub32 width 1) padc s b
            (div-lt-pow num base f (omega arith) h) (omega arith) in
        let d = digit_char (num % base) in
        let ds = digits_of f base (num / base) in
        rw (more, printnum_loop, digits_of)
          (ap (putch d) ih
            ∙ sym (emit-append putch (field (sub32 width 1) padc ds) (d ∷ []) s)
            ∙ ap (λ l. emit putch l s) (field-snoc width padc (num % base) ds))
    | inr last ↦
        rw (last, printnum_loop, digits_of)
          (ap (putch (digit_char (num % base)))
              (repeat_putch_lem putch (positive (sub32 width 1)) padc s)
            ∙ sym (
                emit-append putch (replicate (positive (sub32 width 1)) padc)
                  (digit_char (num % base) ∷ []) s))
  ]

  -- In a base from 2 on, `printnum` of a 64-bit number is these calls of `putch`: the field of its digits.
  pub printnum-field :
      (num base width padc : ℕ) (s : S)
      → 1 < base
      → num < 2 ^ 64
      → printnum putch num base width padc s
        ≡ emit putch (field width padc (digits_of 64 base num)) s
  unfolding printnum
  printnum-field num base width padc s b h =
      printnum_loop_lem 64 num base width padc s b (fits num base b h) (omega arith)

-- the numeral of `num`: digits of the base, worth `num`, with no leading 0 but that of 0 itself
pub record IsNumeral (base num : ℕ) (ds : List ℕ) : Type 0 where
  pub bounds : All (λ d. d < base) ds
  pub value : value_from base 0 ds ≡ num
  pub leading : 0 < num → StartsNonzero ds

pub digits_of-IsNumeral :
    (num base : ℕ) → 1 < base → num < 2 ^ 64 → IsNumeral base num (digits_of 64 base num)
digits_of-IsNumeral num base b h = record {
  bounds = digits_of-bounds base b 64 num;
  value = value_from-digits_of base b 64 num (fits num base b h);
  leading = λ p. digits_of-leading base b 64 num p (fits num base b h);
}

digit_char-numeral_char : (d : ℕ) → d < 16 → digit_char d ≡ numeral_char d
unfolding all_below digit_char
digit_char-numeral_char d l =
    ==→eq _ _ (all_below_sound 16 (λ d. digit_char d == numeral_char d) d refl l)

-- The code's table has the characters of the digits.
pub map-digit_char :
    (base : ℕ) (ds : List ℕ)
    → base ≤ 16
    → All (λ d. d < base) ds
    → map digit_char ds ≡ map numeral_char ds
map-digit_char base [] l h = refl
map-digit_char base (d ∷ ds) l h =
    ap₂ (λ c cs. c ∷ cs) (digit_char-numeral_char d (omega (arith, h.0)))
      (map-digit_char base ds l h.1)
