-- ===== src/Printfmt/Buffer/Text.antt =====
-- What snprintf and vsnprintf of lib/printfmt.c leave in the buffer for a format of Pieces.
use sisop_tps.Prelude.{
  ℕ, ◌-◌, ◌<◌, ◌≡◌, ◌≢◌, ap, false, List, [], All, ◌||◌, ◌==◌, slt, half_word, arith,
}
use sisop_tps.Prelude.Run.{done, ◌>>=◌}
use sisop_tps.Memory.{Memory}
use sisop_tps.Printfmt.Number.{emit}
use sisop_tps.Printfmt.Pieces.{Piece, IsPiece, text, format, arguments}
use sisop_tps.Printfmt.Rendering.Text.{printfmt-text}
use sisop_tps.Printfmt.Buffer.{sprintputch, start, finish, vsnprintf, snprintf}
use sisop_tps.Printfmt.Buffer.Bounded.{Printed-start, Printed-emit, terminated, Leaves}

-- With a buffer that is not null, a positive size `n` and a format that is made of pieces, `snprintf` returns the
-- number of the text's characters modulo 2 ^ 32, also where they do not fit; the buffer holds the first `n - 1` of
-- them and a NUL, and no byte outside the `n` bytes of the buffer has changed.
pub snprintf-text :
    (string_at : ℕ → List ℕ) (error_address : ℕ → ℕ) (m : Memory) (buf n : ℕ) (ps : List Piece)
    → buf ≢ 0
    → 0 < n
    → n < half_word
    → All (IsPiece string_at) ps
    → (r : Memory × ℕ) × (snprintf string_at error_address m buf n (format ps) (arguments ps)
        ≡ done r)
      × Leaves m buf n (text string_at ps) r
unfolding vsnprintf snprintf
snprintf-text string_at error_address m buf n ps nn pos small ok =
    let go : (buf == 0 || slt n 1) ≡ false = ground arith in
    let cs = text string_at ps in
    let b = emit sprintputch cs (start m buf n) in
    (
      _,
      rw go (
          ap (λ r. r >>= finish)
            (printfmt-text sprintputch string_at error_address ps (start m buf n) ok)),
      terminated m buf n cs b pos
          (Printed-emit m buf (n - 1) [] cs (start m buf n) (Printed-start m buf n pos)),
    )
