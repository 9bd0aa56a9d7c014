-- ===== src/Console/Ring/Typing.antt =====
-- The console of kern/console.c as the terminal of lib/readline.c, for characters that come over the serial line.
use sisop_tps.Prelude.{
  ℕ, ◌<◌, ◌≡◌, refl, ◌∙◌, List, [], ◌∷◌, ◌++◌, length, foldl, half_word, ◌==◌, if◌then◌else◌, All,
  codes, Bool-cases, inl, inr, arith,
}
use sisop_tps.Prelude.Run.{Returns, done, ◌>>=◌, Keeps, bind-Keeps}
use sisop_tps.Console.{Machine, cons_putc}
use sisop_tps.Console.Init.{console}
use sisop_tps.Console.Ring.Line.{Line, input, cons_putc-input, emit-input}
use sisop_tps.Console.Ring.Drain.{Typed, Holding-input}
use sisop_tps.Console.Ring.Getchar.{getchar-Typed}
use sisop_tps.Printf.{putch, cprintf}
use sisop_tps.Printfmt.Invariant.{printfmt-Keeps}
use sisop_tps.Printf.Text.{cprintf-text}
use sisop_tps.Printfmt.Pieces.{Piece, text}
use sisop_tps.Readline.{buflen, readline}
use sisop_tps.Readline.Editing.{Keyboard, IsKey, IsEnter, Ends, edit, readline-Ends}

module _ {W : Type 0} {inb : ℕ → W → ℕ × W} {outb : ℕ → ℕ → W → W} {waiting : W → List ℕ}
    (line : Line inb outb waiting) where
  Typed-input :
      (m n : Machine W) (ks : List ℕ)
      → input line n ≡ input line m
      → Typed line m ks
      → Typed line n ks
  Typed-input m n ks e t = record {
    ring = t.ring;
    behind = t.behind;
    all = t.all;
    holds = Holding-input line m n t.ring t.behind e t.holds;
    fits = t.fits;
    characters = t.characters;
  }

  module _ (peek : ℕ → W → ℕ) (poke : ℕ → ℕ → W → W) (string_at : ℕ → List ℕ)
      (error_address : ℕ → ℕ) (short : (p : ℕ) → length (string_at p) < half_word) where
    short_or_null : (p : ℕ) → length (if p == 0 then codes "(null)" else string_at p) < half_word
    short_or_null p = elim (Bool-cases (p == 0)) [
      | inl null ↦ rw null (omega arith)
      | inr other ↦ rw other (short p)
    ]

    pub console-Keyboard :
        Keyboard (console peek poke inb outb string_at error_address 512) (Typed line)
    console-Keyboard = record {
      reads = λ m c ks t. getchar-Typed line string_at error_address 512 m c ks (omega arith) t;
      puts = λ c m ks t. Typed-input m (cons_putc inb outb c m) ks (cons_putc-input line c m) t;
      prints = λ prompt m ks t.
          let ps = Piece.string prompt ∷ [] in
          let printed =
            cprintf-text inb outb string_at error_address ps m (short_or_null prompt, tt) in
          rw (printed, ◌>>=◌) (Typed-input m _ ks (emit-input line (text string_at ps) m) t);
    }

    -- What cprintf prints leaves the characters to come alone, whatever the format.
    pub console-quiet :
        (ks fmt ap : List ℕ) (m : Machine W)
        → Typed line m ks
        → Keeps
            (λ m'. Typed line m' ks)
            ((console peek poke inb outb string_at error_address 512).cprintf fmt ap m)
    unfolding cprintf
    console-quiet ks fmt ap m t =
        let Same : Machine W × ℕ → Type 0 = λ r. input line r.0 ≡ input line m in
        bind-Keeps Same (λ m'. Typed line m' ks) (cprintf inb outb string_at error_address fmt ap m)
          (λ r. done r.0)
          (printfmt-Keeps (putch inb outb) Same
            (λ c r h. unfold putch in (cons_putc-input line c r.0 ∙ h)) string_at error_address fmt
            ap (m, 0) refl)
          (λ r h. Typed-input m r.0 ks h t)

    -- With at most 511 characters on the serial line and in the ring, among them an Enter behind the keys, and
    -- no key pressed on the keyboard, `readline` on the console ends: the buffer holds the text that the editor
    -- makes of the keys, and the characters behind Enter are still to be read, in their order.
    pub readline-Typed :
        (ks rest : List ℕ) (e prompt fuel : ℕ) (buf : List ℕ) (m : Machine W)
        → length buf ≡ buflen
        → All IsKey ks
        → IsEnter e
        → Typed line m (ks ++ (e ∷ rest))
        → length ks < fuel
        → Returns
            (readline (console peek poke inb outb string_at error_address 512) fuel prompt buf m)
            (Ends
              (console peek poke inb outb string_at error_address 512)
              (Typed line)
              console-Keyboard
              (foldl edit [] ks)
              rest)
    readline-Typed = readline-Ends _ (Typed line) console-Keyboard
