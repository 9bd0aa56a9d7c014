-- ===== src/Strings/Strtol/Digits.antt =====
-- strtol of lib/string.c on a numeral: blanks, a sign, digits of the base, and what follows.
use sisop_tps.Prelude.{
  map, length-map, All, ◌⊎◌, refl, ℕ, zero, suc, ◌+◌, ◌*◌, ◌/◌, ◌%◌, ◌<◌, ◌≤◌, ◌≡◌, ◌≢◌, ap, ◌∙◌,
  Bool, true, false, List, [], ◌∷◌, ◌++◌, Option, none, some, if◌then◌else◌, length, add32, sub32,
  word, arith,
}
use sisop_tps.Memory.{Memory, Stands}
use sisop_tps.Strings.Strtol.{
  skip_blanks, read_sign, read_base, digit_of, accepts, digits_loop, strtol, negate_if,
}

-- the value of digits read from the left, by the schoolbook rule
abbrev pub value_from : ℕ → ℕ → List ℕ → ℕ
value_from base v [] = v
value_from base v (d ∷ ds) = value_from base (v * base + d) ds

-- Each character is that digit of the base.
abbrev pub Spells : ℕ → List ℕ → List ℕ → Type 0
Spells base [] [] = Unit
Spells base [] (d ∷ ds) = ⊥
Spells base (c ∷ cs) [] = ⊥
Spells base (c ∷ cs) (d ∷ ds) = (accepts base c ≡ some d) × Spells base cs ds

-- One round of the loop, with its two wrap-arounds, is the schoolbook step modulo 2 ^ 32.
step-mod : (v base d : ℕ) → add32 (v % word * base % word) d ≡ (v * base + d) % word
unfolding add32
step-mod v base d =
    let parts : word * (v / word) + v % word ≡ v = omega arith in
    omega (arith, ap (λ t. t * base) parts)

digits_step :
    (m : Memory) (base c d f s val : ℕ)
    → m s ≡ c
    → accepts base c ≡ some d
    → digits_loop (suc f) m s base val ≡ digits_loop f m (s + 1) base (add32 (val * base % word) d)
unfolding digits_loop
digits_step m base c d f s val h e = ground arith

digits_loop_lem :
    (m : Memory) (base : ℕ) (cs ds : List ℕ) (fuel s v : ℕ)
    → Stands m s cs
    → Spells base cs ds
    → accepts base (m (s + length cs)) ≡ none
    → length cs < fuel
    → digits_loop fuel m s base (v % word) ≡ some (value_from base v ds % word, s + length cs)
unfolding digits_loop
digits_loop_lem m base cs ds zero s v h sp e l = absurd (omega arith)
digits_loop_lem m base [] [] (suc f) s v h sp e l = ground (arith, e)
digits_loop_lem m base [] (d ∷ ds) (suc f) s v h sp e l = absurd sp
digits_loop_lem m base (c ∷ cs) [] (suc f) s v h sp e l = absurd sp
digits_loop_lem m base (c ∷ cs) (d ∷ ds) (suc f) s v h sp e l =
    let z : s + 1 + length cs ≡ s + suc (length cs) = omega arith in
    let ih =
      digits_loop_lem m base cs ds f (s + 1) (v * base + d) h.1 sp.1 (rw z e) (omega arith) in
    digits_step m base c d f s (v % word) h.0 sp.0 ∙ rw (step-mod v base d) (rw z at ih)

-- the sign as it is written
abbrev pub sign_text : Bool → List ℕ
sign_text true = b'-' ∷ []
sign_text false = []

abbrev pub signed : Bool → ℕ → ℕ
signed neg v = if neg then sub32 0 v else v

accepts-decimal : (c d : ℕ) → accepts 10 c ≡ some d → (b'0' ≤ c) × (c ≤ b'9')
unfolding digit_of
accepts-decimal c d h = ground arith

-- the part of `strtol` behind the sign
decimal_tail : ℕ → Memory → ℕ → Bool → Option (ℕ × ℕ)
decimal_tail fuel m s neg = elim (digits_loop fuel m s 10 0) [
  | none ↦ none
  | some r ↦ some (negate_if neg r)
]

strtol_unsigned :
    (m : Memory) (fuel s : ℕ)
    → 0 < fuel
    → b'0' ≤ m s
    → strtol fuel m s 10 ≡ decimal_tail fuel m s false
unfolding strtol skip_blanks read_sign read_base decimal_tail
strtol_unsigned m zero s f h = absurd (omega arith)
strtol_unsigned m (suc fuel) s f h = ground arith

strtol_minus :
    (m : Memory) (fuel s : ℕ)
    → 0 < fuel
    → m s ≡ b'-'
    → strtol fuel m s 10 ≡ decimal_tail fuel m (s + 1) true
unfolding strtol skip_blanks read_sign read_base decimal_tail
strtol_minus m zero s f h = absurd (omega arith)
strtol_minus m (suc fuel) s f h = ground arith

decimal_tail_lem :
    (m : Memory) (neg : Bool) (cs ds : List ℕ) (fuel s : ℕ)
    → Stands m s cs
    → Spells 10 cs ds
    → accepts 10 (m (s + length cs)) ≡ none
    → length cs < fuel
    → decimal_tail fuel m s neg ≡ some (signed neg (value_from 10 0 ds % word), s + length cs)
unfolding decimal_tail
decimal_tail_lem m neg cs ds fuel s h sp e l =
    rw (digits_loop_lem m 10 cs ds fuel s 0 h sp e l, decimal_tail) refl

first_digit :
    (m : Memory) (cs ds : List ℕ) (s : ℕ) → Stands m s cs → Spells 10 cs ds → cs ≢ [] → b'0' ≤ m s
first_digit m [] ds s h sp ne = absurd (ne refl)
first_digit m (c ∷ cs) [] s h sp ne = absurd sp
first_digit m (c ∷ cs) (d ∷ ds) s h sp ne = omega (arith, h.0, accepts-decimal c d sp.0)

-- a numeral in the terms of the code, from its first character to where `accepts` stops
pub strtol_numeral :
    (m : Memory) (neg : Bool) (cs ds : List ℕ) (fuel s : ℕ)
    → Stands m s (sign_text neg ++ cs)
    → Spells 10 cs ds
    → cs ≢ []
    → accepts 10 (m (s + length (sign_text neg ++ cs))) ≡ none
    → length cs < fuel
    → strtol fuel m s 10
      ≡ some (signed neg (value_from 10 0 ds % word), s + length (sign_text neg ++ cs))
strtol_numeral m false cs ds fuel s h sp ne e l =
    strtol_unsigned m fuel s (omega arith) (first_digit m cs ds s h sp ne)
    ∙ decimal_tail_lem m false cs ds fuel s h sp e l
strtol_numeral m true cs ds fuel s h sp ne e l =
    let z : s + suc (length cs) ≡ s + 1 + length cs = omega arith in
    strtol_minus m fuel s (omega arith) h.0
    ∙ rw z (decimal_tail_lem m true cs ds fuel (s + 1) h.1 sp (rw z at e) l)

-- the characters of decimal digits
abbrev pub decimal_text : List ℕ → List ℕ
decimal_text ds = map (λ d. b'0' + d) ds

pub accepts-decimal_digit : (d : ℕ) → d < 10 → accepts 10 (b'0' + d) ≡ some d
unfolding digit_of
accepts-decimal_digit d l = ground arith

accepts-no_digit : (c : ℕ) → (c < b'0') ⊎ (b'9' < c) → accepts 10 c ≡ none
unfolding digit_of
accepts-no_digit c out = ground arith

Spells-decimal : (ds : List ℕ) → All (λ d. d < 10) ds → Spells 10 (decimal_text ds) ds
Spells-decimal [] h = tt
Spells-decimal (d ∷ ds) h = (accepts-decimal_digit d h.0, Spells-decimal ds h.1)

decimal_text-ne-nil : (ds : List ℕ) → ds ≢ [] → decimal_text ds ≢ []
decimal_text-ne-nil [] n = absurd (n refl)
decimal_text-ne-nil (d ∷ ds) n = λ e. cc

-- `strtol` in base 10 reads an optional minus sign and one or more of the characters `0` to `9`, if the
-- character behind them is none of these: it returns the value of the digits modulo 2 ^ 32, negated after
-- the sign, and the end of the digits.
pub strtol_decimal :
    (m : Memory) (neg : Bool) (ds : List ℕ) (fuel s : ℕ)
    → Stands m s (sign_text neg ++ decimal_text ds)
    → All (λ d. d < 10) ds
    → ds ≢ []
    → (m (s + length (sign_text neg ++ decimal_text ds)) < b'0')
      ⊎ (b'9' < m (s + length (sign_text neg ++ decimal_text ds)))
    → length ds < fuel
    → strtol fuel m s 10
      ≡ some (signed neg (value_from 10 0 ds % word), s + length (sign_text neg ++ decimal_text ds))
strtol_decimal m neg ds fuel s h digits ne out l =
    strtol_numeral m neg (decimal_text ds) ds fuel s h (Spells-decimal ds digits)
      (decimal_text-ne-nil ds ne) (accepts-no_digit _ out)
      (omega (arith, length-map (λ d. b'0' + d) ds))
