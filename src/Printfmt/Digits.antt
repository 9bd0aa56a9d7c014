-- ===== src/Printfmt/Digits.antt =====
-- The digits of a number, most significant first: an independent description of what printnum of
-- lib/printfmt.c prints.
use sisop_tps.Prelude.{
  ℕ, zero, suc, ltb, if◌then◌else◌, ◌-◌, ◌+◌, ◌*◌, ◌/◌, ◌%◌, ◌^◌, ◌≤◌, ◌<◌, ◌≡◌, ◌≢◌, refl, ◌∙◌,
  inl, inr, true, false, List, [], ◌∷◌, ◌++◌, leb, All, Bool-cases, arith,
}
use sisop_tps.Strings.Strtol.Digits.{value_from}
use native.Mathlib.Nat.{
  div-lt_iff_lt-mul, le-div_iff_mul-le, pow-zero, pow-suc, div-add-mod', mod-lt, mod-eq_of_lt,
}

-- at most `f` digits
unfoldable pub digits_of : ℕ → ℕ → ℕ → List ℕ
digits_of zero base num = []
digits_of (suc f) base num = elim (leb base num) [
  | true ↦ digits_of f base (num / base) ++ (num % base ∷ [])
  | false ↦ num % base ∷ []
]

-- the character of a digit below 16
abbrev pub numeral_char : ℕ → ℕ
numeral_char d = if ltb d 10 then b'0' + d else b'a' + (d - 10)

value_from-append :
    (base v : ℕ) (xs ys : List ℕ)
    → value_from base v (xs ++ ys) ≡ value_from base (value_from base v xs) ys
value_from-append base v [] ys = refl
value_from-append base v (x ∷ xs) ys = value_from-append base (v * base + x) xs ys

All-append {ℓ} :
    {A : Type ℓ} (P : A → Type 0) (xs ys : List A) → All P xs → All P ys → All P (xs ++ ys)
All-append P [] ys p q = q
All-append P (x ∷ xs) ys p q = (p.0, All-append P xs ys p.1 q)

-- The quotient by the base has a digit less.
pub div-lt-pow : (num base f : ℕ) → 0 < base → num < base ^ suc f → num / base < base ^ f
div-lt-pow num base f h l = (div-lt_iff_lt-mul h).1 (rw (← pow-suc base f) l)

pub div-pos : (num base : ℕ) → 0 < base → base ≤ num → 0 < num / base
div-pos num base h l = (le-div_iff_mul-le {k = base} {x = 1} {y = num} h).1 (omega arith)

-- a list that begins with a digit that is not 0
abbrev pub StartsNonzero : List ℕ → Type 0
StartsNonzero [] = ⊥
StartsNonzero (d ∷ ds) = d ≢ 0

StartsNonzero-append : (xs ys : List ℕ) → StartsNonzero xs → StartsNonzero (xs ++ ys)
StartsNonzero-append [] ys h = absurd h
StartsNonzero-append (x ∷ xs) ys h = h

module _ (base : ℕ) (two : 2 ≤ base) where
  -- They are digits of the base.
  pub digits_of-bounds : (f num : ℕ) → All (λ d. d < base) (digits_of f base num)
  unfolding digits_of
  digits_of-bounds zero num = tt
  digits_of-bounds (suc f) num = elim (Bool-cases (leb base num)) [
    | inl more ↦
        rw (more, digits_of)
          (All-append (λ d. d < base) (digits_of f base (num / base)) _
            (digits_of-bounds f (num / base)) (mod-lt num (omega arith), tt))
    | inr last ↦ rw (last, digits_of) (mod-lt num (omega arith), tt)
  ]

  -- Read back they give the number.
  pub value_from-digits_of :
      (f num : ℕ) → num < base ^ f → value_from base 0 (digits_of f base num) ≡ num
  unfolding digits_of
  value_from-digits_of zero num h = let z : num < 1 = rw (pow-zero base) at h in omega arith
  value_from-digits_of (suc f) num h = elim (Bool-cases (leb base num)) [
    | inl more ↦
        rw (more, digits_of)
          (value_from-append base 0 (digits_of f base (num / base)) (num % base ∷ [])
            ∙ rw (value_from-digits_of f (num / base) (div-lt-pow num base f (omega arith) h))
                (div-add-mod' num base))
    | inr last ↦ rw (last, digits_of) (rw (mod-eq_of_lt (small last)) (omega arith))
  ]
    where
      small : leb base num ≡ false → num < base
      small e = ground arith

  -- There is no leading 0 but that of 0 itself.
  pub digits_of-leading :
      (f num : ℕ) → 0 < num → num < base ^ f → StartsNonzero (digits_of f base num)
  unfolding digits_of
  digits_of-leading zero num p h = let z : num < 1 = rw (pow-zero base) at h in absurd (omega arith)
  digits_of-leading (suc f) num p h = elim (Bool-cases (leb base num)) [
    | inl more ↦
        rw (more, digits_of)
          (StartsNonzero-append (digits_of f base (num / base)) _ (
            digits_of-leading f (num / base) (div-pos num base (omega arith) (ground arith))
              (div-lt-pow num base f (omega arith) h)))
    | inr last ↦ rw (last, digits_of) (rw (mod-eq_of_lt (small last)) (λ e. omega arith))
  ]
    where
      small : leb base num ≡ false → num < base
      small e = ground arith
