-- ===== src/Console/Ring/Tests.antt =====
-- readline on the console, with a line that has come over the serial port.
use sisop_tps.Prelude.{
  ℕ, ◌%◌, ◌+◌, ◌<◌, get_or-replicate, ◌∙◌, sym, ◌≡◌, ◌≢◌, refl, true, false, List, [], ◌∷◌, ◌++◌,
  ◌==◌, if◌then◌else◌, Bool-cases, inl, inr, foldl, replicate, length-replicate, length, All,
  half_word, arith,
}
use sisop_tps.Prelude.Run.{Returns}
use sisop_tps.Console.{Machine, com1}
use sisop_tps.Console.Init.{console}
use sisop_tps.Console.Ring.Queue.{Represents}
use sisop_tps.Console.Ring.Line.{Line}
use sisop_tps.Console.Ring.Drain.{Typed}
use sisop_tps.Console.Ring.Typing.{console-Keyboard, readline-Typed}
use sisop_tps.Readline.{readline}
use sisop_tps.Readline.Editing.{IsKey, Ends, edit}

-- The world is what waits on the line.
abbrev status : List ℕ → ℕ
status [] = 0
status (c ∷ cs) = 1

abbrev next : List ℕ → ℕ × List ℕ
next [] = (0, [])
next (c ∷ cs) = (c, cs)

abbrev pub inb : ℕ → List ℕ → ℕ × List ℕ
inb port w = if port == 0x3f8 then next w else if port == 0x3fd then (status w, w) else (0, w)

abbrev pub outb : ℕ → ℕ → List ℕ → List ℕ
outb port b w = w

abbrev waiting : List ℕ → List ℕ
waiting w = w

unread_elsewhere : (port : ℕ) (w : List ℕ) → port ≢ com1 → (inb port w).1 ≡ w
unread_elsewhere port w n =
    let other : (port == 0x3f8) ≡ false = ground (arith, n) in
    elim (Bool-cases (port == 0x3fd)) [ inl t ↦ rw (other, t) refl | inr t ↦ rw (other, t) refl ]

pub serial : Line inb outb waiting
serial = record {
  ready = λ w c cs e. rw e refl;
  idle = λ w e. rw e refl;
  no_key = λ w. refl;
  received = λ w c cs e. rw e (refl, refl);
  unread = unread_elsewhere;
  unsent = λ port b w. refl;
}

-- one character is in the ring, four wait
abbrev pub machine : Machine (List ℕ)
machine = record {
  world = b'i' ∷ b'x' ∷ 8 ∷ b'\r' ∷ b'q' ∷ [];
  serial_exists = true;
  addr_6845 = 0x3d4;
  crt_buf = replicate 2000 0x0720;
  crt_pos = 0;
  shift = 0;
  buf = replicate 512 b'h';
  rpos = 511;
  wpos = 0;
}

abbrev pub keys : List ℕ
keys = b'h' ∷ b'i' ∷ b'x' ∷ 8 ∷ []

pub typed_keys : All IsKey keys
typed_keys =
    ((omega arith, refl), ((omega arith, refl), ((omega arith, refl), ((omega arith, refl), tt))))

pub machine-Typed : Typed serial machine (keys ++ (b'\r' ∷ b'q' ∷ []))
unfolding Represents
machine-Typed = record {
  ring = b'h' ∷ [];
  behind = b'i' ∷ b'x' ∷ 8 ∷ b'\r' ∷ b'q' ∷ [];
  all = refl;
  holds = (
    (
      length-replicate {A = ℕ} 512 b'h',
      omega arith,
      omega arith,
      refl,
      λ i h.
          get_or-replicate {A = ℕ} 512 b'h' 0 ((511 + i) % 512) (omega arith)
          ∙ sym (get_or-replicate {A = ℕ} 1 b'h' 0 i h),
    ),
    refl,
    refl,
  );
  fits = omega arith;
  characters = (
    ((λ e. omega arith), omega arith),
    (
      ((λ e. omega arith), omega arith),
      (
        ((λ e. omega arith), omega arith),
        (
          ((λ e. omega arith), omega arith),
          (((λ e. omega arith), omega arith), (((λ e. omega arith), omega arith), tt)),
        ),
      ),
    ),
  );
}

abbrev pub no_string : ℕ → List ℕ
no_string p = []

abbrev pub no_address : ℕ → ℕ
no_address err = 0

abbrev pub peek : ℕ → List ℕ → ℕ
peek p w = 0

abbrev pub poke : ℕ → ℕ → List ℕ → List ℕ
poke p v w = w

pub no_string-short : (p : ℕ) → length (no_string p) < half_word
no_string-short p = omega arith

readline-Typed_example :
    Returns
      (readline
        (console peek poke inb outb no_string no_address 512)
        5
        0x1000
        (replicate 1024 0)
        machine)
      (Ends
        (console peek poke inb outb no_string no_address 512)
        (Typed serial)
        (console-Keyboard serial peek poke no_string no_address no_string-short)
        (foldl edit [] keys)
        (b'q' ∷ []))
readline-Typed_example =
    readline-Typed serial peek poke no_string no_address no_string-short keys (b'q' ∷ []) b'\r'
      0x1000 5 (replicate 1024 0) machine (length-replicate {A = ℕ} 1024 0) typed_keys refl
      machine-Typed (omega arith)
