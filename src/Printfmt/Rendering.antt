-- ===== src/Printfmt/Rendering.antt =====
-- printfmt of lib/printfmt.c on the formats of Pieces: what the numbers and strings of one conversion put out.
pub mod Switch
pub mod Text
use sisop_tps.Prelude.{
  ℕ, zero, suc, ◌+◌, ◌-◌, ◌*◌, ◌/◌, ◌%◌, ◌^◌, ◌<◌, ◌≤◌, ◌≡◌, ◌≢◌, refl, ap, sym, subst, ◌∙◌, ◌==◌,
  Bool-cases, inl, inr, true, false, List, [], ◌∷◌, ◌++◌, map, ltb, leb, slt, sle, if◌then◌else◌,
  half_word, word, add32, sub32, neg64, replicate, length, length-append, length-map, get_or,
  sign_extend8, codes, arith,
}
use sisop_tps.Prelude.Run.{Run, done, ◌>>=◌}
use sisop_tps.Printfmt.{
  Flags, no_flags, minus_one, getint, getuint, Directive, pad_right, pad_zero, digit, star, dot,
  hash, long, char, error, string, signed, unsigned, octal, pointer, hex, percent, other, classify,
  read_digits, process_precision, positive, sign_extend32, digit_char, printnum, put_string,
  format_string, repeat_putch,
}
use sisop_tps.Printfmt.Format.{Next, convert, reswitch, vprintfmt, put_signed, put_pointed}
use sisop_tps.Printfmt.Number.{
  emit, emit-append, printnum-field, map-digit_char, digits_of-IsNumeral,
}
use sisop_tps.Printfmt.Scanning.{get_or-nonzero}
use sisop_tps.Printfmt.Digits.{digits_of, numeral_char}
use sisop_tps.Printfmt.Pieces.{
  Piece, plain, sign, decimal, padded_hex, numeral, signed_numeral, format_of, arguments_of,
  rendered, IsPiece,
}

length-digits_of : (f base num : ℕ) → length (digits_of f base num) ≤ f
unfolding digits_of
length-digits_of zero base num = omega arith
length-digits_of (suc f) base num = elim (Bool-cases (leb base num)) [
  | inl more ↦
      rw (more, digits_of)
        (omega (
          arith,
          length-append (digits_of f base (num / base)) (num % base ∷ []),
          length-digits_of f base (num / base),
        ))
  | inr last ↦ rw (last, digits_of) (omega arith)
]

sign_extend32-plus : (w : ℕ) → ltb w half_word ≡ true → sign_extend32 w ≡ w
sign_extend32-plus w plus = rw plus refl

sign_extend32-minus : (w : ℕ) → ltb w half_word ≡ false → sign_extend32 w ≡ w + (2 ^ 64 - word)
sign_extend32-minus w minus = rw minus refl

pub signed_numeral-plus : (w : ℕ) → ltb w half_word ≡ true → signed_numeral w ≡ numeral 10 w
signed_numeral-plus w plus = rw plus refl

pub signed_numeral-minus :
    (w : ℕ) → ltb w half_word ≡ false → signed_numeral w ≡ b'-' ∷ numeral 10 (word - w)
signed_numeral-minus w minus = rw minus refl

module _ {S : Type 0} (putch : ℕ → S → S) where
  -- without a width nothing is padded
  pub printnum-numeral :
      (num base : ℕ) (s : S)
      → 1 < base
      → base ≤ 16
      → num < 2 ^ 64
      → printnum putch num base minus_one b' ' s ≡ emit putch (numeral base num) s
  printnum-numeral num base s b top l =
      let short = length-digits_of 64 base num in
      let none : positive (sub32 minus_one (length (digits_of 64 base num))) ≡ 0 =
        unfold sub32 in ground arith in
      printnum-field putch num base minus_one b' ' s b l
      ∙ rw none (
          ap (λ cs. emit putch cs s)
            (map-digit_char base (digits_of 64 base num) top
              (digits_of-IsNumeral num base b l).bounds))

  -- with a width and `0` the numeral is filled up
  pub printnum-padded :
      (num base d : ℕ) (s : S)
      → 1 < base
      → base ≤ 16
      → num < 2 ^ 64
      → d < 10
      → printnum putch num base d b'0' s
        ≡ emit putch (replicate (d - length (numeral base num)) b'0' ++ numeral base num) s
  printnum-padded num base d s b top l w =
      let short = length-digits_of 64 base num in
      let room : positive (sub32 d (length (digits_of 64 base num)))
          ≡ d - length (numeral base num) =
        unfold sub32 in ground (arith, length-map numeral_char (digits_of 64 base num)) in
      printnum-field putch num base d b'0' s b l
      ∙ rw room (
          ap (λ cs. emit putch (replicate (d - length (numeral base num)) b'0' ++ cs) s)
            (map-digit_char base (digits_of 64 base num) top
              (digits_of-IsNumeral num base b l).bounds))

  put_string_lem :
      (p : List ℕ) (w : ℕ) (s : S)
      → w < word
      → put_string putch false p minus_one w s
        ≡ (sub32 w (length p), emit putch (map sign_extend8 p) s)
  unfolding put_string
  put_string_lem [] w s l = let same : sub32 w 0 ≡ w = unfold sub32 in omega arith in rw same refl
  put_string_lem (c ∷ p) w s l =
      let one_less : sub32 (sub32 w 1) (length p) ≡ sub32 w (suc (length p)) =
        unfold sub32 in omega arith in
      let small : sub32 w 1 < word = unfold sub32 in omega arith in
      put_string_lem p (sub32 w 1) (putch (sign_extend8 c) s) small ∙ rw one_less refl

  pub format_string_lem :
      (p : List ℕ) (s : S)
      → length p < half_word
      → format_string putch no_flags p s ≡ emit putch (map sign_extend8 p) s
  unfolding format_string repeat_putch
  format_string_lem p s l =
      let none : positive (sub32 minus_one (length p)) ≡ 0 = unfold sub32 in ground arith in
      rw (put_string_lem p minus_one s (omega arith), none, repeat_putch) refl

  module _ (string_at : ℕ → List ℕ) (error_address : ℕ → ℕ) (i : ℕ) (ap' : List ℕ) (s : S) where
    put_signed-plus :
        (num : ℕ)
        → num < 2 ^ 63
        → put_signed putch string_at error_address no_flags i (num, ap') s
          ≡ done (i, ap', emit putch (numeral 10 num) s)
    unfolding put_signed
    put_signed-plus num l =
        let small : leb (2 ^ 63) num ≡ false = ground arith in
        rw (small, put_signed)
          (ap (λ x. done (i, ap', x))
            (printnum-numeral num 10 s (omega arith) (omega arith) (omega arith)))

    put_signed-minus :
        (num : ℕ)
        → 2 ^ 63 ≤ num
        → num < 2 ^ 64
        → put_signed putch string_at error_address no_flags i (num, ap') s
          ≡ done (i, ap', emit putch (b'-' ∷ numeral 10 (2 ^ 64 - num)) s)
    unfolding put_signed
    put_signed-minus num l h =
        let large : leb (2 ^ 63) num ≡ true = ground arith in
        let opposite : neg64 num ≡ 2 ^ 64 - num = unfold neg64 in omega arith in
        rw (large, put_signed)
          (ap (λ x. done (i, ap', printnum putch x 10 minus_one b' ' (putch b'-' s))) opposite
            ∙ ap (λ x. done (i, ap', x))
                (printnum-numeral (2 ^ 64 - num) 10 (putch b'-' s) (omega arith) (omega arith)
                  (omega arith)))

    -- `%d` with no flags
    pub put_signed_lem :
        (w : ℕ)
        → w < word
        → put_signed putch string_at error_address no_flags i (sign_extend32 w, ap') s
          ≡ done (i, ap', emit putch (signed_numeral w) s)
    put_signed_lem w l = elim (Bool-cases (ltb w half_word)) [
      | inl plus ↦
          let small : w < 2 ^ 63 = ground arith in
          ap (λ x. put_signed putch string_at error_address no_flags i (x, ap') s)
            (sign_extend32-plus w plus)
          ∙ put_signed-plus w small
          ∙ ap (λ x. done (i, ap', emit putch x s)) (sym (signed_numeral-plus w plus))
      | inr minus ↦
          let low : half_word ≤ w = ground arith in
          let same : 2 ^ 64 - (w + (2 ^ 64 - word)) ≡ word - w = omega arith in
          ap (λ x. put_signed putch string_at error_address no_flags i (x, ap') s)
            (sign_extend32-minus w minus)
          ∙ put_signed-minus (w + (2 ^ 64 - word)) (omega arith) (omega arith)
          ∙ ap (λ x. done (i, ap', emit putch (b'-' ∷ numeral 10 x) s)) same
          ∙ ap (λ x. done (i, ap', emit putch x s)) (sym (signed_numeral-minus w minus))
    ]
