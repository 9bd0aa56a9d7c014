-- ===== src/Printfmt/Rendering/Switch.antt =====
-- The switch of vprintfmt (lib/printfmt.c) on the conversions of Pieces.
use sisop_tps.Prelude.{
  ℕ, suc, ◌+◌, ◌-◌, ◌*◌, ◌%◌, ◌<◌, ◌≡◌, refl, ap, subst, ◌∙◌, List, [], ◌∷◌, ◌++◌, word, add32,
  sub32, replicate, length, get_or, arith,
}
use sisop_tps.Prelude.Run.{Run, done}
use sisop_tps.Printfmt.{
  Flags, no_flags, getuint, Directive, pad_right, pad_zero, digit, star, dot, hash, long, char,
  error, string, signed, unsigned, octal, pointer, hex, percent, other, classify, read_digits,
  process_precision,
}
use sisop_tps.Printfmt.Format.{convert, reswitch, vprintfmt}
use sisop_tps.Printfmt.Number.{emit}
use sisop_tps.Printfmt.Pieces.{numeral}
use sisop_tps.Printfmt.Rendering.{printnum-padded}

-- the conversions of the pieces
abbrev pub IsConversion : Directive → Type 0
IsConversion char = Unit
IsConversion string = Unit
IsConversion signed = Unit
IsConversion unsigned = Unit
IsConversion hex = Unit
IsConversion pointer = Unit
IsConversion percent = Unit
IsConversion _ = ⊥

-- what stands at an index of a format, to its end
abbrev pub At : List ℕ → ℕ → List ℕ → Type 0
At fmt i [] = get_or fmt i 0 ≡ 0
At fmt i (x ∷ xs) = (get_or fmt i 0 ≡ x) × At fmt (i + 1) xs

At-cons : (c : ℕ) (fmt : List ℕ) (i : ℕ) (xs : List ℕ) → At fmt i xs → At (c ∷ fmt) (suc i) xs
At-cons c fmt i [] at = at
At-cons c fmt i (x ∷ xs) at =
    (at.0, subst (λ k. At (c ∷ fmt) k xs) (omega arith) (At-cons c fmt (i + 1) xs at.1))

-- a format stands at its own start
pub At-start : (fmt : List ℕ) → At fmt 0 fmt
At-start [] = refl
At-start (c ∷ fmt) = (refl, At-cons c fmt 0 fmt (At-start fmt))

-- a width of one digit, before the byte of its conversion
one_digit :
    (fmt : List ℕ) (i d ch : ℕ)
    → ch ≡ b'0' + d
    → get_or fmt i 0 ≡ b'x'
    → d < 10
    → read_digits (suc (length fmt)) fmt i ch 0 ≡ done (d, i)
unfolding read_digits
one_digit fmt i d ch c at small =
    let value : sub32 (add32 (0 * 10 % word) ch) b'0' ≡ d = unfold sub32 add32 in omega arith in
    rw (read_digits, at, value) refl

module _ {S : Type 0} (putch : ℕ → S → S) (string_at : ℕ → List ℕ) (error_address : ℕ → ℕ) where
  reswitch-convert :
      (nested : List ℕ → List ℕ → S → Run S) (d : Directive) (f : ℕ) (fmt : List ℕ) (i : ℕ)
      (fl : Flags) (ap' : List ℕ) (s : S)
      → IsConversion d
      → classify (get_or fmt i 0) ≡ d
      → reswitch putch string_at error_address nested (suc f) fmt i fl ap' s
        ≡ convert putch string_at error_address nested d fmt (i + 1) fl ap' s
  unfolding reswitch
  reswitch-convert nested char f fmt i fl ap' s c k = rw (reswitch, k) refl
  reswitch-convert nested string f fmt i fl ap' s c k = rw (reswitch, k) refl
  reswitch-convert nested signed f fmt i fl ap' s c k = rw (reswitch, k) refl
  reswitch-convert nested unsigned f fmt i fl ap' s c k = rw (reswitch, k) refl
  reswitch-convert nested hex f fmt i fl ap' s c k = rw (reswitch, k) refl
  reswitch-convert nested pointer f fmt i fl ap' s c k = rw (reswitch, k) refl
  reswitch-convert nested percent f fmt i fl ap' s c k = rw (reswitch, k) refl
  reswitch-convert nested pad_right f fmt i fl ap' s c k = elim c [ ]
  reswitch-convert nested pad_zero f fmt i fl ap' s c k = elim c [ ]
  reswitch-convert nested digit f fmt i fl ap' s c k = elim c [ ]
  reswitch-convert nested star f fmt i fl ap' s c k = elim c [ ]
  reswitch-convert nested dot f fmt i fl ap' s c k = elim c [ ]
  reswitch-convert nested hash f fmt i fl ap' s c k = elim c [ ]
  reswitch-convert nested long f fmt i fl ap' s c k = elim c [ ]
  reswitch-convert nested error f fmt i fl ap' s c k = elim c [ ]
  reswitch-convert nested octal f fmt i fl ap' s c k = elim c [ ]
  reswitch-convert nested other f fmt i fl ap' s c k = elim c [ ]

  reswitch-pad_zero :
      (nested : List ℕ → List ℕ → S → Run S) (f : ℕ) (fmt : List ℕ) (i : ℕ) (fl : Flags)
      (ap' : List ℕ) (s : S)
      → classify (get_or fmt i 0) ≡ pad_zero
      → reswitch putch string_at error_address nested (suc f) fmt i fl ap' s
        ≡ reswitch putch string_at error_address nested f fmt
            (i + 1)
            (record fl { padc = b'0' })
            ap'
            s
  unfolding reswitch
  reswitch-pad_zero nested f fmt i fl ap' s k = rw (reswitch, k) refl

  reswitch-digit :
      (nested : List ℕ → List ℕ → S → Run S) (f : ℕ) (fmt : List ℕ) (i : ℕ) (fl : Flags)
      (ap' : List ℕ) (s : S) (r : ℕ × ℕ)
      → classify (get_or fmt i 0) ≡ digit
      → read_digits (suc (length fmt)) fmt (i + 1) (get_or fmt i 0) 0 ≡ done r
      → reswitch putch string_at error_address nested (suc f) fmt i fl ap' s
        ≡ reswitch putch string_at error_address nested f fmt r.1 (process_precision r.0 fl) ap' s
  unfolding reswitch
  reswitch-digit nested f fmt i fl ap' s r k e = rw (reswitch, k, e) refl

  -- `%0dx`, from the `0` on
  pub padded_lem :
      (nested : List ℕ → List ℕ → S → Run S) (n : ℕ) (fmt : List ℕ) (i d w : ℕ) (xs ap' : List ℕ)
      (s : S)
      → 0 < d
      → d < 10
      → w < word
      → At fmt i (b'0' ∷ (b'0' + d) ∷ b'x' ∷ xs)
      → reswitch putch string_at error_address nested (suc (suc (suc n))) fmt i no_flags (w ∷ ap') s
        ≡ done (
          i + 1 + 1 + 1,
          ap',
          emit putch (replicate (d - length (numeral 16 w)) b'0' ++ numeral 16 w) s,
        )
  unfolding classify convert getuint
  padded_lem nested n fmt i d w xs ap' s pos small word_size at =
      let is_digit : classify (b'0' + d) ≡ digit = ground arith in
      reswitch-pad_zero nested (suc (suc n)) fmt i no_flags (w ∷ ap') s (ap classify at.0)
      ∙ reswitch-digit nested (suc n) fmt (i + 1) (record no_flags { padc = b'0' }) (w ∷ ap') s
          (d, i + 1 + 1) (ap classify at.1.0 ∙ is_digit)
          (one_digit fmt (i + 1 + 1) d (get_or fmt (i + 1) 0) at.1.0 at.1.1.0 small)
      ∙ reswitch-convert nested hex n fmt (i + 1 + 1) (record no_flags { padc = b'0'; width = d })
          (w ∷ ap') s tt (ap classify at.1.1.0)
      ∙ ap (λ x. done (i + 1 + 1 + 1, ap', x))
          (printnum-padded putch w 16 d s (omega arith) (omega arith) (omega arith) small)

  -- one conversion of the outer loop
  pub switched :
      (f : ℕ) (fmt : List ℕ) (i : ℕ) (ap' : List ℕ) (s : S) (r : ℕ × List ℕ × S)
      → get_or fmt i 0 ≡ b'%'
      → reswitch putch string_at error_address
          (λ g. vprintfmt putch string_at error_address f g 0)
          (suc (length fmt))
          fmt
          (i + 1)
          no_flags
          ap'
          s
        ≡ done r
      → vprintfmt putch string_at error_address (suc f) fmt i ap' s
        ≡ vprintfmt putch string_at error_address f fmt r.0 r.1 r.2
  unfolding vprintfmt
  switched f fmt i ap' s r is_sign e = rw (vprintfmt, is_sign, e) refl

  pub conversion :
      (d : Directive) (f : ℕ) (fmt : List ℕ) (i : ℕ) (ap' : List ℕ) (s : S) (r : ℕ × List ℕ × S)
      → IsConversion d
      → get_or fmt i 0 ≡ b'%'
      → classify (get_or fmt (i + 1) 0) ≡ d
      → convert putch string_at error_address
          (λ g. vprintfmt putch string_at error_address f g 0)
          d
          fmt
          (i + 1 + 1)
          no_flags
          ap'
          s
        ≡ done r
      → vprintfmt putch string_at error_address (suc f) fmt i ap' s
        ≡ vprintfmt putch string_at error_address f fmt r.0 r.1 r.2
  conversion d f fmt i ap' s r c is_sign k e = switched f fmt i ap' s r is_sign (
      reswitch-convert (λ g. vprintfmt putch string_at error_address f g 0) d (length fmt) fmt
        (i + 1) no_flags ap' s c k
      ∙ e)
