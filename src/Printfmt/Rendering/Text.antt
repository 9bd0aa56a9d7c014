-- ===== src/Printfmt/Rendering/Text.antt =====
-- printfmt of lib/printfmt.c on a format of Pieces, from its first byte to its last.
use sisop_tps.Prelude.{
  ℕ, zero, suc, ◌+◌, ◌-◌, ◌<◌, ◌≡◌, refl, ap, sym, ◌∙◌, ◌==◌, false, List, [], ◌∷◌, ◌++◌, length,
  arith,
}
use sisop_tps.Prelude.Run.{Run, done}
use sisop_tps.Printfmt.{
  no_flags, getint, getuint, char, string, signed, unsigned, pointer, hex, percent, classify,
}
use sisop_tps.Printfmt.Format.{convert, reswitch, vprintfmt, put_pointed}
use sisop_tps.Printfmt.Number.{emit, emit-append}
use sisop_tps.Printfmt.Scanning.{get_or-nonzero}
use sisop_tps.Printfmt.Pieces.{
  Piece, plain, sign, decimal, padded_hex, numeral, signed_numeral, format_of, arguments_of,
  rendered, IsPiece,
}
use sisop_tps.Prelude.{All, sym}
use sisop_tps.Printfmt.Format.{printfmt}
use sisop_tps.Printfmt.Pieces.{text, format, arguments}
use sisop_tps.Printfmt.Rendering.{put_signed_lem, printnum-numeral, format_string_lem}
use sisop_tps.Printfmt.Rendering.Switch.{At, At-start, switched, conversion, padded_lem}

module _ {S : Type 0} (putch : ℕ → S → S) (string_at : ℕ → List ℕ) (error_address : ℕ → ℕ) where
  -- the index behind a piece
  abbrev pub behind : Piece → ℕ → ℕ
  behind (plain c) i = i + 1
  behind (padded_hex d w) i = i + 1 + 1 + 1 + 1
  behind _ i = i + 1 + 1

  pub piece_lem :
      (p : Piece) (f : ℕ) (fmt : List ℕ) (i : ℕ) (xs ap' : List ℕ) (s : S)
      → IsPiece string_at p
      → At fmt i (format_of p ++ xs)
      → vprintfmt putch string_at error_address (suc f) fmt i (arguments_of p ++ ap') s
        ≡ vprintfmt putch string_at error_address f fmt
            (behind p i)
            ap'
            (emit putch (rendered string_at p) s)
  unfolding vprintfmt classify convert put_pointed getint getuint
  piece_lem (plain c) f fmt i xs ap' s ok at =
      let no_sign : (c == b'%') ≡ false = ground arith in
      let no_end : (c == 0) ≡ false = ground arith in
      rw (vprintfmt, at.0, no_sign, at.0, no_end, at.0) refl
  piece_lem sign f fmt i xs ap' s ok at =
      conversion putch string_at error_address percent f fmt i ap' s (i + 1 + 1, ap', putch b'%' s)
        tt at.0 (ap classify at.1.0) refl
  piece_lem (Piece.char c) f fmt i xs ap' s ok at =
      conversion putch string_at error_address char f fmt i (c ∷ ap') s (i + 1 + 1, ap', putch c s)
        tt at.0 (ap classify at.1.0) refl
  piece_lem (Piece.string p) f fmt i xs ap' s ok at =
      conversion putch string_at error_address string f fmt i (p ∷ ap') s
        (i + 1 + 1, ap', emit putch (rendered string_at (Piece.string p)) s) tt at.0
        (ap classify at.1.0) (ap (λ x. done (i + 1 + 1, ap', x)) (format_string_lem putch _ s ok))
  piece_lem (decimal w) f fmt i xs ap' s ok at =
      conversion putch string_at error_address signed f fmt i (w ∷ ap') s
        (i + 1 + 1, ap', emit putch (signed_numeral w) s) tt at.0 (ap classify at.1.0)
        (put_signed_lem putch string_at error_address (i + 1 + 1) ap' s w ok)
  piece_lem (Piece.unsigned w) f fmt i xs ap' s ok at =
      conversion putch string_at error_address unsigned f fmt i (w ∷ ap') s
        (i + 1 + 1, ap', emit putch (numeral 10 w) s) tt at.0 (ap classify at.1.0)
        (ap (λ x. done (i + 1 + 1, ap', x))
          (printnum-numeral putch w 10 s (omega arith) (omega arith) (omega arith)))
  piece_lem (Piece.hex w) f fmt i xs ap' s ok at =
      conversion putch string_at error_address hex f fmt i (w ∷ ap') s
        (i + 1 + 1, ap', emit putch (numeral 16 w) s) tt at.0 (ap classify at.1.0)
        (ap (λ x. done (i + 1 + 1, ap', x))
          (printnum-numeral putch w 16 s (omega arith) (omega arith) (omega arith)))
  piece_lem (Piece.pointer w) f fmt i xs ap' s ok at =
      conversion putch string_at error_address pointer f fmt i (w ∷ ap') s
        (i + 1 + 1, ap', emit putch (numeral 16 w) (putch b'x' (putch b'0' s))) tt at.0
        (ap classify at.1.0)
        (ap (λ x. done (i + 1 + 1, ap', x))
          (printnum-numeral putch w 16 (putch b'x' (putch b'0' s)) (omega arith) (omega arith)
            (omega arith)))
  piece_lem (padded_hex d w) f fmt i xs ap' s ok at =
      let nested : List ℕ → List ℕ → S → Run S =
        λ g. vprintfmt putch string_at error_address f g 0 in
      let long_enough =
        get_or-nonzero fmt (i + 1 + 1 + 1) (λ z. absurd (omega (arith, at.1.1.1.0))) in
      let fuel : suc (length fmt) ≡ suc (suc (suc (length fmt - 2))) = omega arith in
      switched putch string_at error_address f fmt i (w ∷ ap') s _ at.0 (
        ap (λ n. reswitch putch string_at error_address nested n fmt (i + 1) no_flags (w ∷ ap') s)
          fuel
        ∙ padded_lem putch string_at error_address nested (length fmt - 2) fmt (i + 1) d w xs ap' s
            ok.0 ok.1 ok.2 at.1)

  At-behind :
      (p : Piece) (fmt : List ℕ) (i : ℕ) (xs : List ℕ)
      → At fmt i (format_of p ++ xs)
      → At fmt (behind p i) xs
  At-behind (plain c) fmt i xs at = at.1
  At-behind sign fmt i xs at = at.1.1
  At-behind (Piece.char c) fmt i xs at = at.1.1
  At-behind (Piece.string p) fmt i xs at = at.1.1
  At-behind (decimal w) fmt i xs at = at.1.1
  At-behind (Piece.unsigned w) fmt i xs at = at.1.1
  At-behind (Piece.hex w) fmt i xs at = at.1.1
  At-behind (Piece.pointer w) fmt i xs at = at.1.1
  At-behind (padded_hex d w) fmt i xs at = at.1.1.1.1

  length-format_of : (p : Piece) (xs : List ℕ) → length xs < length (format_of p ++ xs)
  length-format_of (plain c) xs = omega arith
  length-format_of sign xs = omega arith
  length-format_of (Piece.char c) xs = omega arith
  length-format_of (Piece.string p) xs = omega arith
  length-format_of (decimal w) xs = omega arith
  length-format_of (Piece.unsigned w) xs = omega arith
  length-format_of (Piece.hex w) xs = omega arith
  length-format_of (Piece.pointer w) xs = omega arith
  length-format_of (padded_hex d w) xs = omega arith

  vprintfmt-text :
      (ps : List Piece) (f : ℕ) (fmt : List ℕ) (i : ℕ) (s : S)
      → length (format ps) < f
      → All (IsPiece string_at) ps
      → At fmt i (format ps)
      → vprintfmt putch string_at error_address f fmt i (arguments ps) s
        ≡ done (emit putch (text string_at ps) s)
  unfolding vprintfmt
  vprintfmt-text ps zero fmt i s l ok at = absurd (omega arith)
  vprintfmt-text [] (suc f) fmt i s l ok at = rw (vprintfmt, at, at) refl
  vprintfmt-text (p ∷ ps) (suc f) fmt i s l ok at =
      piece_lem p f fmt i (format ps) (arguments ps) s ok.0 at
      ∙ vprintfmt-text ps f fmt (behind p i) (emit putch (rendered string_at p) s)
          (omega (arith, length-format_of p (format ps))) ok.1 (At-behind p fmt i (format ps) at)
      ∙ ap done (sym (emit-append putch (rendered string_at p) (text string_at ps) s))

-- A format that is made of pieces is put out piece by piece, by calls of `putch` in the order of the text, with
-- the arguments that the pieces take in turn; it reads no more of them than it needs and ends at the NUL.
pub printfmt-text :
    {S : Type 0} (putch : ℕ → S → S) (string_at : ℕ → List ℕ) (error_address : ℕ → ℕ)
    (ps : List Piece) (s : S)
    → All (IsPiece string_at) ps
    → printfmt putch string_at error_address (format ps) (arguments ps) s
      ≡ done (emit putch (text string_at ps) s)
unfolding printfmt
printfmt-text putch string_at error_address ps s ok =
    vprintfmt-text putch string_at error_address ps (length (format ps) + 10) (format ps) 0 s
      (omega arith) ok (At-start (format ps))
