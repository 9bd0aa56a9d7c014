-- ===== src/Monitor/Tests.antt =====
-- The monitor on a command line in memory.
use sisop_tps.Prelude.{
  ℕ, ◌+◌, ◌-◌, ◌≡◌, ◌≢◌, refl, inl, true, List, [], ◌∷◌, ◌++◌, map, leb, if◌then◌else◌, length,
  get_or, All, foldl, codes, arith,
}
use sisop_tps.Prelude.Run.{done, ◌>>=◌}
use sisop_tps.Memory.{Memory, Holds}
use sisop_tps.Strings.Comparing.{IsText}
use sisop_tps.Readline.{Terminal}
use sisop_tps.Readline.Editing.{IsKey, edit}
use sisop_tps.Readline.Tests.{tty, Typed, tty-Keyboard}
use sisop_tps.Monitor.Session.{Round, command_loop-Round}
use sisop_tps.Monitor.{Handler, command_table, help, kerninfo, Kernel, Parsed, runcmd, monitor}
use sisop_tps.Monitor.Words.{words}
use sisop_tps.Monitor.Splitting.{Split}
use sisop_tps.Monitor.Dispatch.{Named, answer, runcmd_lem}
use sisop_tps.Monitor.Forever.{monitor-ne-done}

-- a terminal that shows the formats, and on which nothing is typed
abbrev shown : Terminal (List ℕ)
shown = record {
  getchar = λ s. done (b'\n', s);
  cputchar = λ c s. s ++ (c ∷ []);
  cprintf = λ fmt ap s. done (s ++ fmt);
  iscons = true;
}

-- `help` at 0x100, `kerninfo` at 0x110, and the line ` help up` at 0x200
abbrev pub cells : Memory
cells p =
    if leb 0x200 p
    then get_or (codes " help up") (p - 0x200) 0
    else if leb 0x110 p
    then get_or (codes "kerninfo") (p - 0x110) 0
    else if leb 0x100 p
    then get_or (codes "help") (p - 0x100) 0
    else 0

abbrev pub kernel : Kernel
kernel = record {
  commands =
      record { name = 0x100; desc = 0; func = help }
      ∷ record { name = 0x110; desc = 0; func = kerninfo }
      ∷ [];
  symbols = record { start = 0; entry = 0; etext = 0; edata = 0; end = 0 };
  prompt = 0x300;
  line_buf = 0x200;
}

abbrev pub table : List (List ℕ × Handler)
table = map (λ c. (c.0, c.2)) command_table

line-Holds : Holds cells 0x200 (codes " help up")
line-Holds = (
  refl,
  (λ e. omega arith),
  (
    refl,
    (λ e. omega arith),
    (
      refl,
      (λ e. omega arith),
      (
        refl,
        (λ e. omega arith),
        (
          refl,
          (λ e. omega arith),
          (refl, (λ e. omega arith), (refl, (λ e. omega arith), (refl, (λ e. omega arith), refl))),
        ),
      ),
    ),
  ),
)

line-IsText : IsText (codes " help up")
line-IsText = omega arith

kernel-Named : Named cells 0x200 (0x200 + length (codes " help up")) kernel.commands table
kernel-Named = (
  (
    refl,
    (λ e. omega arith),
    (refl, (λ e. omega arith), (refl, (λ e. omega arith), (refl, (λ e. omega arith), refl))),
  ),
  omega arith,
  refl,
  inl (omega arith),
  (
    (
      refl,
      (λ e. omega arith),
      (
        refl,
        (λ e. omega arith),
        (
          refl,
          (λ e. omega arith),
          (
            refl,
            (λ e. omega arith),
            (
              refl,
              (λ e. omega arith),
              (
                refl,
                (λ e. omega arith),
                (refl, (λ e. omega arith), (refl, (λ e. omega arith), refl)),
              ),
            ),
          ),
        ),
      ),
    ),
    omega arith,
    refl,
    inl (omega arith),
    tt,
  ),
)

runcmd_lem_example :
    (p : Parsed) × Split cells 0x200 (0x200 + 8) (words (codes " help up")) p
    × (runcmd shown kernel 10 cells 0x200 [] ≡ (
        answer shown kernel table (words (codes " help up")) p.argv [] >>= λ r.
        done (p.mem, r.0, r.1)))
runcmd_lem_example =
    runcmd_lem shown kernel table 10 cells 0x200 (codes " help up") [] line-Holds line-IsText
      kernel-Named (omega arith)

monitor-ne-done_example : monitor shown kernel 3 10 cells [] ≢ done []
monitor-ne-done_example = monitor-ne-done shown kernel 3 10 cells [] []

-- The line has these two words.
two_words : words (codes " help up") ≡ codes "help" ∷ codes "up" ∷ []
unfolding words
two_words = refl

-- `help` with an `x` taken back, and the keys behind the Enter
abbrev keys : List ℕ
keys = codes "helpx" ++ (8 ∷ [])

keys-IsKey : All IsKey keys
keys-IsKey = (
  (omega arith, refl),
  (
    (omega arith, refl),
    ((omega arith, refl), ((omega arith, refl), ((omega arith, refl), ((omega arith, refl), tt)))),
  ),
)

pub kernel-Named_outside : Named cells 0x200 (0x200 + 1023) kernel.commands table
kernel-Named_outside = (
  kernel-Named.0,
  kernel-Named.1,
  refl,
  inl (omega arith),
  (kernel-Named.4.0, kernel-Named.4.1, refl, inl (omega arith), tt),
)

command_loop-Round_example :
    Round tty kernel Typed tty-Keyboard table 2 1025 cells
      (keys ++ (b'\r' ∷ codes "up"), [])
      (foldl edit [] keys)
      (codes "up")
command_loop-Round_example =
    command_loop-Round tty kernel Typed tty-Keyboard table keys (codes "up") b'\r' 2 1025 cells
      (keys ++ (b'\r' ∷ codes "up"), []) keys-IsKey (omega arith) refl refl kernel-Named_outside
      (omega arith) (omega arith) (λ fmt ap s h. h)
