-- ===== src/Printf/Text.antt =====
-- What cprintf of kern/printf.c puts on the console, and what it returns.
use sisop_tps.Prelude.{ℕ, ◌+◌, ◌%◌, ◌≡◌, ap, ◌∙◌, List, [], ◌∷◌, All, add32, word, length, arith}
use sisop_tps.Prelude.Run.{done}
use sisop_tps.Console.{Machine, cons_putc}
use sisop_tps.Printf.{putch, cprintf}
use sisop_tps.Printfmt.Number.{emit}
use sisop_tps.Printfmt.Pieces.{Piece, IsPiece, text, format, arguments}
use sisop_tps.Printfmt.Rendering.Text.{printfmt-text}

module _ {W : Type 0} (inb : ℕ → W → ℕ × W) (outb : ℕ → ℕ → W → W) where
  emit-putch :
      (cs : List ℕ) (n : ℕ) (m : Machine W)
      → emit (putch inb outb) cs (m, n % word)
        ≡ (emit (cons_putc inb outb) cs m, (n + length cs) % word)
  unfolding putch add32
  emit-putch [] n m = ap (λ k. (m, k)) (omega arith)
  emit-putch (c ∷ cs) n m =
      let counted : add32 (n % word) 1 ≡ (n + 1) % word = omega arith in
      let total : (n + 1 + length cs) % word ≡ (n + length (c ∷ cs)) % word = omega arith in
      ap (λ k. emit (putch inb outb) cs (cons_putc inb outb c m, k)) counted
      ∙ emit-putch cs (n + 1) (cons_putc inb outb c m)
      ∙ ap (λ k. (emit (cons_putc inb outb) cs (cons_putc inb outb c m), k)) total

  -- On a format that is made of pieces, `cprintf` writes the text to the console, one `cons_putc` for each
  -- character in order, and returns the number of characters modulo 2 ^ 32.
  pub cprintf-text :
      (string_at : ℕ → List ℕ) (error_address : ℕ → ℕ) (ps : List Piece) (m : Machine W)
      → All (IsPiece string_at) ps
      → cprintf inb outb string_at error_address (format ps) (arguments ps) m
        ≡ done (emit (cons_putc inb outb) (text string_at ps) m, length (text string_at ps) % word)
  unfolding cprintf
  cprintf-text string_at error_address ps m ok =
      printfmt-text (putch inb outb) string_at error_address ps (m, 0) ok
      ∙ ap done (emit-putch (text string_at ps) 0 m)
      ∙ ap (λ k. done (emit (cons_putc inb outb) (text string_at ps) m, k)) from_0
    where
      from_0 : (0 + length (text string_at ps)) % word ≡ length (text string_at ps) % word
      from_0 = omega arith
