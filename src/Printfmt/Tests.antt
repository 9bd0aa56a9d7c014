-- ===== src/Printfmt/Tests.antt =====
-- printfmt at work on a collected text, and in a small buffer.
use sisop_tps.Prelude.{ℕ, ◌+◌, ◌*◌, ◌≡◌, ◌≢◌, List, [], ◌∷◌, codes, All, refl, some, ◌-◌, arith}
use sisop_tps.Prelude.Run.{done, no_fuel}
use sisop_tps.Memory.{Memory}
use sisop_tps.Printfmt.{digit_char}
use sisop_tps.Printfmt.Format.{printfmt}
use sisop_tps.Printfmt.Number.{emit}
use sisop_tps.Printfmt.Digits.{digits_of}
use sisop_tps.Printfmt.Total.{printfmt-ne-no_fuel}
use sisop_tps.Printfmt.Pieces.{Piece, plain, sign, decimal, padded_hex, IsPiece, text, format}
use sisop_tps.Printfmt.Pieces
use sisop_tps.Printfmt.Rendering.Text.{printfmt-text}
use sisop_tps.Strings.Strtol.{strtol}
use sisop_tps.Printfmt.Buffer.{vsnprintf, snprintf}
use sisop_tps.Printfmt.Collecting.{Both, collect}
use sisop_tps.Printfmt.Buffer.Text.{snprintf-text}
use sisop_tps.Printfmt.Buffer.Decimal.{snprintf-strtol}
use sisop_tps.Printfmt.Buffer.Bounded.{Leaves, vsnprintf-Bounded}

-- the one string that a `%s` finds, and the entry of a message
abbrev some_text : ℕ → List ℕ
some_text address = codes "entry"

abbrev message_address : ℕ → ℕ
message_address err = 0x1000 + 4 * err

abbrev in_hex : List ℕ
in_hex = codes "%s %08x\n"

abbrev arguments : List ℕ
arguments = 0x2000 ∷ 0xf010_000c ∷ []

printfmt-ne-no_fuel_example :
    printfmt collect some_text message_address in_hex arguments [] ≢ no_fuel
printfmt-ne-no_fuel_example =
    printfmt-ne-no_fuel collect some_text message_address in_hex arguments []

abbrev no_memory : Memory
no_memory p = 0

vsnprintf-Bounded_example :
    (vsnprintf some_text message_address no_memory 0x100 4 in_hex arguments ≢ no_fuel)
    × Both
        (Leaves no_memory 0x100 4)
        (printfmt collect some_text message_address in_hex arguments [])
        (vsnprintf some_text message_address no_memory 0x100 4 in_hex arguments)
vsnprintf-Bounded_example =
    vsnprintf-Bounded some_text message_address no_memory 0x100 4 in_hex arguments
      (λ e. omega arith) (omega arith) (omega arith)

-- "=%s %d%%%06x" with a string, -1984 and 0xbeef
abbrev numbers : List Piece
numbers = decimal (0x1_0000_0000 - 1984) ∷ sign ∷ padded_hex 6 0xbeef ∷ []

abbrev pieces : List Piece
pieces = plain b'=' ∷ Piece.string 0x2000 ∷ plain b' ' ∷ numbers

numbers-IsPiece : All (IsPiece some_text) numbers
numbers-IsPiece = (omega arith, (tt, ((omega arith, omega arith, omega arith), tt)))

pieces-IsPiece : All (IsPiece some_text) pieces
pieces-IsPiece = (
  ((λ e. omega arith), (λ e. omega arith)),
  (omega arith, (((λ e. omega arith), (λ e. omega arith)), numbers-IsPiece)),
)

format-pieces : format pieces ≡ codes "=%s %d%%%06x"
format-pieces = refl

text-numbers : text some_text numbers ≡ codes "-1984%00beef"
unfolding digits_of digit_char
text-numbers = refl

printfmt-text_example :
    printfmt collect some_text message_address (format pieces) (Pieces.arguments pieces) []
    ≡ done (emit collect (text some_text pieces) [])
printfmt-text_example = printfmt-text collect some_text message_address pieces [] pieces-IsPiece

snprintf-text_example :
    (r : Memory × ℕ) × (snprintf some_text message_address no_memory 0x100 8
        (format pieces)
        (Pieces.arguments pieces)
      ≡ done r)
    × Leaves no_memory 0x100 8 (text some_text pieces) r
snprintf-text_example =
    snprintf-text some_text message_address no_memory 0x100 8 pieces (λ e. omega arith)
      (omega arith) (omega arith) pieces-IsPiece

snprintf-strtol_example :
    (r : Memory × ℕ) × (snprintf some_text message_address no_memory 0x100 12
        (codes "%d")
        (0x8000_0000 ∷ [])
      ≡ done r)
    × (strtol 12 r.0 0x100 10 ≡ some (0x8000_0000, 0x100 + r.1))
snprintf-strtol_example =
    snprintf-strtol some_text message_address no_memory 0x100 12 0x8000_0000 12 (λ e. omega arith)
      (omega arith) (omega arith) (omega arith) (omega arith)
