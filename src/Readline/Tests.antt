-- ===== src/Readline/Tests.antt =====
-- The line editor on a terminal that keeps the keys to come and the text shown.
use sisop_tps.Prelude.{
  ℕ, ◌≡◌, refl, true, List, [], ◌∷◌, ◌++◌, foldl, All, replicate, length-replicate, arith,
}
use sisop_tps.Prelude.Run.{done, Returns}
use sisop_tps.Readline.{Terminal, readline}
use sisop_tps.Readline.Editing.{Keyboard, edit, IsKey, Ends, readline-Ends}

-- the keys to come, then the text shown
abbrev pub Tty : Type 0
Tty = List ℕ × List ℕ

-- With no key left the terminal answers -1.
abbrev next_key : Tty → ℕ × Tty
next_key ([], text) = (0xffff_ffff, ([], text))
next_key (c ∷ ks, text) = (c, (ks, text))

abbrev pub tty : Terminal Tty
tty = record {
  getchar = λ s. done (next_key s);
  cputchar = λ c s. (s.0, s.1 ++ (c ∷ []));
  cprintf = λ fmt ap s. done (s.0, s.1 ++ fmt);
  iscons = true;
}

abbrev pub Typed : Tty → List ℕ → Type 0
Typed s ks = s.0 ≡ ks

reads_next :
    (s : Tty) (c : ℕ) (ks : List ℕ) → s.0 ≡ c ∷ ks → ((next_key s).0 ≡ c) × ((next_key s).1.0 ≡ ks)
reads_next ([], text) c ks h = cc
reads_next (d ∷ ds, text) c ks h = (cc, cc)

pub tty-Keyboard : Keyboard tty Typed
tty-Keyboard = record { reads = reads_next; puts = λ c s ks h. h; prints = λ prompt s ks h. h }

abbrev no_line : List ℕ
no_line = replicate 1024 0

-- a letter too many, and taken back
abbrev typed : List ℕ
typed = b'h' ∷ b'i' ∷ b'x' ∷ 8 ∷ []

-- The keys end up on the line as the editor has it.
edited : foldl edit [] typed ≡ b'h' ∷ b'i' ∷ []
unfolding edit
edited = refl

typed_keys : All IsKey typed
typed_keys =
    ((omega arith, refl), ((omega arith, refl), ((omega arith, refl), ((omega arith, refl), tt))))

readline-Ends_example :
    Returns
      (readline tty 5 0x1000 no_line (typed ++ (b'\n' ∷ b'q' ∷ []), []))
      (Ends tty Typed tty-Keyboard (foldl edit [] typed) (b'q' ∷ []))
readline-Ends_example =
    readline-Ends tty Typed tty-Keyboard typed (b'q' ∷ []) b'\n' 0x1000 5 no_line
      (typed ++ (b'\n' ∷ b'q' ∷ []), []) (length-replicate {A = ℕ} 1024 0) typed_keys refl refl
      (omega arith)
