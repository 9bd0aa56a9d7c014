-- ===== src/Printfmt/Buffer/Decimal.antt =====
-- A number printed with `%d` by snprintf (lib/printfmt.c) and read back by strtol (lib/string.c).
use sisop_tps.Prelude.{
  ℕ, zero, suc, ◌+◌, ◌-◌, ◌/◌, ◌%◌, ◌^◌, ◌≤◌, ◌<◌, ◌≡◌, ◌≢◌, refl, ap, subst, ◌∙◌, inl, inr, Bool,
  true, false, append-nil, Bool-cases, some, List, [], ◌∷◌, ◌++◌, map, All, ltb, leb, sub32,
  half_word, word, length, length-append, length-map, codes, arith,
}
use sisop_tps.Prelude.Run.{done}
use sisop_tps.Memory.{Memory, Stands}
use sisop_tps.Strings.Strtol.{digit_of, accepts, strtol}
use sisop_tps.Strings.Strtol.Digits.{
  accepts-decimal_digit, Spells, sign_text, signed, value_from, strtol_numeral,
}
use sisop_tps.Printfmt.Digits.{numeral_char, digits_of, div-lt-pow}
use sisop_tps.Printfmt.Number.{digits_of-IsNumeral}
use sisop_tps.Printfmt.Pieces.{decimal, numeral, signed_numeral}
use sisop_tps.Printfmt.Rendering.{signed_numeral-plus, signed_numeral-minus}
use sisop_tps.Printfmt.Buffer.{snprintf}
use sisop_tps.Printfmt.Buffer.Bounded.{fitting}
use sisop_tps.Printfmt.Buffer.Text.{snprintf-text}

numeral_char-decimal : (d : ℕ) → d < 10 → numeral_char d ≡ b'0' + d
numeral_char-decimal d l = ground arith

Spells-decimal : (ds : List ℕ) → All (λ d. d < 10) ds → Spells 10 (map numeral_char ds) ds
Spells-decimal [] h = tt
Spells-decimal (d ∷ ds) h = (
  ap (accepts 10) (numeral_char-decimal d h.0) ∙ accepts-decimal_digit d h.0,
  Spells-decimal ds h.1,
)

-- the characters of a decimal numeral are bytes
bytes-decimal : (ds : List ℕ) → All (λ d. d < 10) ds → All (λ c. c < 256) (map numeral_char ds)
bytes-decimal [] h = tt
bytes-decimal (d ∷ ds) h = (omega (arith, numeral_char-decimal d h.0), bytes-decimal ds h.1)

-- A number below a power of the base has no more digits than the exponent.
length-digits_of-pow : (f k num : ℕ) → num < 10 ^ suc k → length (digits_of f 10 num) ≤ suc k
unfolding digits_of
length-digits_of-pow zero k num l = omega arith
length-digits_of-pow (suc f) zero num l =
    let one : leb 10 num ≡ false = ground arith in rw (one, digits_of) (omega arith)
length-digits_of-pow (suc f) (suc k) num l = elim (Bool-cases (leb 10 num)) [
  | inl more ↦
      rw (more, digits_of)
        (omega (
          arith,
          length-append (digits_of f 10 (num / 10)) (num % 10 ∷ []),
          length-digits_of-pow f k (num / 10) (div-lt-pow num 10 (suc k) (omega arith) l),
        ))
  | inr last ↦ rw (last, digits_of) (omega arith)
]

fitting-All :
    (room : ℕ) (cs : List ℕ) → All (λ c. c < 256) cs → length cs ≤ room → fitting room cs ≡ cs
fitting-All zero [] h l = refl
fitting-All (suc room) [] h l = refl
fitting-All zero (c ∷ cs) h l = absurd (omega arith)
fitting-All (suc room) (c ∷ cs) h l =
    let byte : c % 256 ≡ c = omega (arith, h.0) in
    rw byte (ap (◌∷◌ c) (fitting-All room cs h.1 (omega arith)))

Stands-prefix : (m : Memory) (p : ℕ) (xs ys : List ℕ) → Stands m p (xs ++ ys) → Stands m p xs
Stands-prefix m p [] ys h = tt
Stands-prefix m p (x ∷ xs) ys h = (h.0, Stands-prefix m (p + 1) xs ys h.1)

Stands-last :
    (m : Memory) (p c : ℕ) (xs : List ℕ) → Stands m p (xs ++ (c ∷ [])) → m (p + length xs) ≡ c
Stands-last m p c [] h = ap m (omega arith) ∙ h.0
Stands-last m p c (x ∷ xs) h = ap m (omega arith) ∙ Stands-last m (p + 1) c xs h.1

-- what `%d` writes: a sign or none, and a decimal numeral, that stand for the word
record Signed (w : ℕ) : Type 0 where
  neg : Bool
  amount : ℕ
  written : signed_numeral w ≡ sign_text neg ++ numeral 10 amount
  small : amount < word
  worth : signed neg amount ≡ w

word_parts : (w : ℕ) → w < word → Signed w
unfolding sub32
word_parts w l = elim (Bool-cases (ltb w half_word)) [
  | inl plus ↦ record {
    neg = false;
    amount = w;
    written = signed_numeral-plus w plus;
    small = l;
    worth = refl;
  }
  | inr minus ↦
      let low : half_word ≤ w = ground arith in
      record {
        neg = true;
        amount = word - w;
        written = signed_numeral-minus w minus;
        small = omega arith;
        worth = omega arith;
      }
]

digits_of-pos : (f base num : ℕ) → 0 < length (digits_of (suc f) base num)
unfolding digits_of
digits_of-pos f base num = elim (Bool-cases (leb base num)) [
  | inl more ↦
      rw (more, digits_of)
        (omega (arith, length-append (digits_of f base (num / base)) (num % base ∷ [])))
  | inr last ↦ rw (last, digits_of) (omega arith)
]

length-numeral :
    (num : ℕ) → num < word → (0 < length (numeral 10 num)) × (length (numeral 10 num) ≤ 10)
length-numeral num l =
    let same = length-map numeral_char (digits_of 64 10 num) in
    (
      omega (arith, digits_of-pos 63 10 num, same),
      omega (arith, length-digits_of-pow 64 9 num (omega arith), same),
    )

numeral-ne-nil : (num : ℕ) → num < word → numeral 10 num ≢ []
numeral-ne-nil num l e =
    let none : length (numeral 10 num) ≡ 0 = ap length e in
    absurd (omega (arith, length-numeral num l))

length-signed : (neg : Bool) (num : ℕ) → num < word → length (sign_text neg ++ numeral 10 num) ≤ 11
length-signed true num l = omega (arith, length-numeral num l)
length-signed false num l = omega (arith, length-numeral num l)

bytes-numeral : (num : ℕ) → num < word → All (λ c. c < 256) (numeral 10 num)
bytes-numeral num l =
    let number = digits_of-IsNumeral num 10 (omega arith) (omega arith) in
    bytes-decimal (digits_of 64 10 num) number.bounds

bytes-signed :
    (neg : Bool) (num : ℕ) → num < word → All (λ c. c < 256) (sign_text neg ++ numeral 10 num)
bytes-signed true num l = (omega arith, bytes-numeral num l)
bytes-signed false num l = bytes-numeral num l

-- such a text in memory, with its NUL, is read back
read_back :
    (m : Memory) (p : ℕ) (neg : Bool) (num fuel : ℕ)
    → num < word
    → Stands m p ((sign_text neg ++ numeral 10 num) ++ (0 ∷ []))
    → 12 ≤ fuel
    → strtol fuel m p 10 ≡ some (signed neg num, p + length (sign_text neg ++ numeral 10 num))
unfolding digit_of
read_back m p neg num fuel l h f =
    let cs = sign_text neg ++ numeral 10 num in
    let ds = digits_of 64 10 num in
    let number = digits_of-IsNumeral num 10 (omega arith) (omega arith) in
    let value : value_from 10 0 ds % word ≡ num = omega (arith, number.value) in
    strtol_numeral m neg (numeral 10 num) ds fuel p (Stands-prefix m p cs (0 ∷ []) h)
      (Spells-decimal ds number.bounds) (numeral-ne-nil num l)
      (ap (accepts 10) (Stands-last m p 0 cs h)) (omega (arith, length-numeral num l))
    ∙ ap (λ v. some (signed neg v, p + length cs)) value

-- With room for 12 bytes, `snprintf` of any `int` with `%d` leaves a text that `strtol` in base 10 reads back as
-- the same `int`, to its last character, of which `snprintf` has returned the number.
pub snprintf-strtol :
    (string_at : ℕ → List ℕ) (error_address : ℕ → ℕ) (m : Memory) (buf n w fuel : ℕ)
    → buf ≢ 0
    → 12 ≤ n
    → n < half_word
    → w < word
    → 12 ≤ fuel
    → (r : Memory × ℕ) × (snprintf string_at error_address m buf n (codes "%d") (w ∷ []) ≡ done r)
      × (strtol fuel r.0 buf 10 ≡ some (w, buf + r.1))
snprintf-strtol string_at error_address m buf n w fuel nn room small l f =
    let (r, ran, leaves) =
      snprintf-text string_at error_address m buf n (decimal w ∷ []) nn (omega arith) small
        (l, tt) in
    let parts = word_parts w l in
    let cs = sign_text parts.neg ++ numeral 10 parts.amount in
    let same : signed_numeral w ++ [] ≡ cs = append-nil (signed_numeral w) ∙ parts.written in
    let short = length-signed parts.neg parts.amount parts.small in
    let kept : fitting (n - 1) cs ≡ cs =
      fitting-All (n - 1) cs (bytes-signed parts.neg parts.amount parts.small) (omega arith) in
    let there : Stands r.0 buf (cs ++ (0 ∷ [])) =
      subst (λ t. Stands r.0 buf (t ++ (0 ∷ []))) (ap (fitting (n - 1)) same ∙ kept) leaves.1 in
    let number : length cs ≡ r.1 = omega (arith, leaves.0, ap length same) in
    (
      r,
      ran,
      read_back r.0 buf parts.neg parts.amount fuel parts.small there f
          ∙ ap (λ v. some (v, buf + length cs)) parts.worth
          ∙ ap (λ k. some (w, buf + k)) number,
    )
