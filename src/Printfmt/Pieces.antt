-- ===== src/Printfmt/Pieces.antt =====
-- The formats of lib/printfmt.c that the kernel writes, as pieces: an independent description of what a format
-- and its arguments put out.
use sisop_tps.Prelude.{
  ℕ, ◌+◌, ◌-◌, ◌<◌, ◌≢◌, ◌==◌, List, [], ◌∷◌, ◌++◌, map, ltb, if◌then◌else◌, half_word, word,
  replicate, length, sign_extend8, codes,
}
use sisop_tps.Printfmt.Digits.{digits_of, numeral_char}

pub data Piece : Type 0 where
  -- a byte of the format itself, and `%%`
  plain : ℕ → Piece
  sign : Piece
  -- `%c`, `%s`, `%d`, `%u`, `%x` and `%p`, each with its argument
  char : ℕ → Piece
  string : ℕ → Piece
  decimal : ℕ → Piece
  unsigned : ℕ → Piece
  hex : ℕ → Piece
  pointer : ℕ → Piece
  -- `%0wx` for a width of one digit
  padded_hex : ℕ → ℕ → Piece

-- the bytes of a piece in the format
abbrev pub format_of : Piece → List ℕ
format_of (plain c) = c ∷ []
format_of sign = b'%' ∷ b'%' ∷ []
format_of (char c) = b'%' ∷ b'c' ∷ []
format_of (string p) = b'%' ∷ b's' ∷ []
format_of (decimal w) = b'%' ∷ b'd' ∷ []
format_of (unsigned w) = b'%' ∷ b'u' ∷ []
format_of (hex w) = b'%' ∷ b'x' ∷ []
format_of (pointer w) = b'%' ∷ b'p' ∷ []
format_of (padded_hex d w) = b'%' ∷ b'0' ∷ (b'0' + d) ∷ b'x' ∷ []

-- its words among the arguments
abbrev pub arguments_of : Piece → List ℕ
arguments_of (plain c) = []
arguments_of sign = []
arguments_of (char c) = c ∷ []
arguments_of (string p) = p ∷ []
arguments_of (decimal w) = w ∷ []
arguments_of (unsigned w) = w ∷ []
arguments_of (hex w) = w ∷ []
arguments_of (pointer w) = w ∷ []
arguments_of (padded_hex d w) = w ∷ []

-- the characters of a number's numeral
abbrev pub numeral : ℕ → ℕ → List ℕ
numeral base num = map numeral_char (digits_of 64 base num)

-- a signed word in base 10
abbrev pub signed_numeral : ℕ → List ℕ
signed_numeral w = if ltb w half_word then numeral 10 w else b'-' ∷ numeral 10 (word - w)

module _ (string_at : ℕ → List ℕ) where
  -- what a piece puts out
  abbrev pub rendered : Piece → List ℕ
  rendered (plain c) = c ∷ []
  rendered sign = b'%' ∷ []
  rendered (char c) = c ∷ []
  rendered (string p) = map sign_extend8 (if p == 0 then codes "(null)" else string_at p)
  rendered (decimal w) = signed_numeral w
  rendered (unsigned w) = numeral 10 w
  rendered (hex w) = numeral 16 w
  rendered (pointer w) = b'0' ∷ b'x' ∷ numeral 16 w
  rendered (padded_hex d w) = replicate (d - length (numeral 16 w)) b'0' ++ numeral 16 w

  -- Plain bytes are neither `%` nor the end, numbers are words, strings no longer than an `int` counts, and
  -- widths a digit but 0.
  abbrev pub IsPiece : Piece → Type 0
  IsPiece (plain c) = (c ≢ b'%') × (c ≢ 0)
  IsPiece sign = Unit
  IsPiece (char c) = Unit
  IsPiece (string p) = length (if p == 0 then codes "(null)" else string_at p) < half_word
  IsPiece (decimal w) = w < word
  IsPiece (unsigned w) = w < word
  IsPiece (hex w) = w < word
  IsPiece (pointer w) = w < word
  IsPiece (padded_hex d w) = (0 < d) × (d < 10) × (w < word)

  -- the same for a list of pieces
  abbrev pub text : List Piece → List ℕ
  text [] = []
  text (p ∷ ps) = rendered p ++ text ps

abbrev pub format : List Piece → List ℕ
format [] = []
format (p ∷ ps) = format_of p ++ format ps

abbrev pub arguments : List Piece → List ℕ
arguments [] = []
arguments (p ∷ ps) = arguments_of p ++ arguments ps
