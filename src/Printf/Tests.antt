-- ===== src/Printf/Tests.antt =====
-- cprintf at work on a console whose ports are always ready.
use sisop_tps.Prelude.{ℕ, ◌+◌, ◌%◌, ◌≡◌, List, [], ◌∷◌, replicate, All, word, length, true, arith}
use sisop_tps.Prelude.Run.{done}
use sisop_tps.Console.{Machine, cons_putc}
use sisop_tps.Printf.{cprintf}
use sisop_tps.Printf.Text.{cprintf-text}
use sisop_tps.Printfmt.Number.{emit}
use sisop_tps.Printfmt.Pieces.{Piece, plain, decimal, IsPiece, text, format, arguments}

-- every port reads 0xff, and the world counts the reads
abbrev ready : ℕ → ℕ → ℕ × ℕ
ready port w = (0xff, w + 1)

abbrev ignore : ℕ → ℕ → ℕ → ℕ
ignore port b w = w

abbrev machine : Machine ℕ
machine = record {
  world = 0;
  serial_exists = true;
  addr_6845 = 0x3d4;
  crt_buf = replicate 2000 0x0720;
  crt_pos = 1999;
  shift = 0;
  buf = replicate 512 0;
  rpos = 0;
  wpos = 0;
}

abbrev no_string : ℕ → List ℕ
no_string address = []

abbrev no_address : ℕ → ℕ
no_address err = 0

-- "%d%c\n"
abbrev pieces : List Piece
pieces = decimal 6828 ∷ Piece.char b'!' ∷ plain b'\n' ∷ []

pieces-IsPiece : All (IsPiece no_string) pieces
pieces-IsPiece = (omega arith, (tt, (((λ e. omega arith), (λ e. omega arith)), tt)))

cprintf-text_example :
    cprintf ready ignore no_string no_address (format pieces) (arguments pieces) machine
    ≡ done (
      emit (cons_putc ready ignore) (text no_string pieces) machine,
      length (text no_string pieces) % word,
    )
cprintf-text_example = cprintf-text ready ignore no_string no_address pieces machine pieces-IsPiece
