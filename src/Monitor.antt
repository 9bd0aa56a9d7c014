-- ===== src/Monitor.antt =====
-- kern/monitor.c: the command line is split in place, and the first word chooses the command. Memory is a
-- function from addresses to bytes; `argv` is the list of its pointers.
pub mod Words
pub mod Stepping
pub mod Rounds
pub mod Splitting
pub mod Dispatch
pub mod Forever
pub mod Typed
pub mod Session
pub mod Serial
pub mod Tests
use sisop_tps.Prelude.{
  ℕ, zero, suc, ◌+◌, ◌-◌, ◌/◌, Bool, true, false, ◌&&◌, not, Option, none, some, List, [], ◌∷◌,
  ◌++◌, ◌==◌, ◌||◌, if◌then◌else◌, length, map, codes, slt, sub32, get_or,
}
use sisop_tps.Prelude.Run.{Run, done, fault, no_fuel, ◌>>=◌}
use sisop_tps.Memory.{Memory, store, inside}
use sisop_tps.Strings.{strcmp}
use sisop_tps.Types.{roundup}
use sisop_tps.Paging.{kernbase}
use sisop_tps.Readline.{Terminal, Line, readline, buflen}

abbrev pub maxargs : ℕ
maxargs = 16

-- `strchr(WHITESPACE, c)` is not null, for a `c` that is not NUL
abbrev pub blank : ℕ → Bool
blank c = c == b'\t' || c == b'\r' || c == b'\n' || c == b' '

-- `while (*buf && strchr(WHITESPACE, *buf)) *buf++ = 0;`
unfoldable pub gobble : ℕ → Memory → ℕ → Run (Memory × ℕ)
gobble zero m buf = no_fuel
gobble (suc f) m buf = elim (not (m buf == 0) && blank (m buf)) [
  | true ↦ gobble f (store m buf 0) (buf + 1)
  | false ↦ done (m, buf)
]

-- `while (*buf && !strchr(WHITESPACE, *buf)) buf++;`
unfoldable pub scan_past : ℕ → Memory → ℕ → Run ℕ
scan_past zero m buf = no_fuel
scan_past (suc f) m buf = elim (not (m buf == 0) && not (blank (m buf))) [
  | true ↦ scan_past f m (buf + 1)
  | false ↦ done buf
]

-- what the parsing loop ends with
pub record Parsed : Type 0 where
  pub mem : Memory
  pub argv : List ℕ
  pub too_many : Bool

-- the parsing loop; `fuel` is for the two loops inside it
unfoldable pub parse : ℕ → ℕ → Memory → ℕ → List ℕ → Run Parsed
parse zero fuel m buf argv = no_fuel
parse (suc f) fuel m buf argv = gobble fuel m buf >>= λ (m₁, buf₁). elim (m₁ buf₁ == 0) [
  | true ↦ done (record { mem = m₁; argv = argv; too_many = false })
  | false ↦ elim (length argv == maxargs - 1) [
    | true ↦ done (record { mem = m₁; argv = argv; too_many = true })
    | false ↦ scan_past fuel m₁ buf₁ >>= λ buf₂. parse f fuel m₁ buf₂ (argv ++ (buf₁ ∷ []))
  ]
]

-- the functions of the table
pub data Handler : Type 0 where
  help : Handler
  kerninfo : Handler

-- the table as it is written: names, descriptions and functions
abbrev pub command_table : List (List ℕ × List ℕ × Handler)
command_table =
    (codes "help", codes "Display this list of commands", help)
    ∷ (codes "kerninfo", codes "Display information about the kernel", kerninfo)
    ∷ []

-- `struct Command`, its strings as addresses
pub record Command : Type 0 where
  pub name : ℕ
  pub desc : ℕ
  pub func : Handler

-- the loop over the table
unfoldable pub lookup : ℕ → Memory → ℕ → List Command → Run (Option Handler)
lookup fuel m arg [] = done none
lookup fuel m arg (c ∷ cs) = elim (strcmp fuel m arg c.name) [
  | none ↦ no_fuel
  | some r ↦ let rest = lookup fuel m arg cs in if r == 0 then done (some c.func) else rest
]

-- the linker's symbols that mon_kerninfo prints
pub record Symbols : Type 0 where
  pub start : ℕ
  pub entry : ℕ
  pub etext : ℕ
  pub edata : ℕ
  pub end : ℕ

-- what the linker and the table of the kernel give: the commands, the symbols, the prompt and the line
-- editor's buffer
pub record Kernel : Type 0 where
  pub commands : List Command
  pub symbols : Symbols
  pub prompt : ℕ
  pub line_buf : ℕ

-- `x / 1024` on `int`, towards 0
unfoldable pub kilobytes : ℕ → ℕ
kilobytes x = if slt x 0 then sub32 0 (sub32 0 x / 1024) else x / 1024

-- a line of the editor's static buffer in memory, and back
abbrev pub put_line : Memory → ℕ → List ℕ → Memory
put_line m a bytes q = if inside q a (length bytes) then get_or bytes (q - a) 0 else m q

abbrev pub take_line : Memory → ℕ → ℕ → List ℕ
take_line m a zero = []
take_line m a (suc n) = m a ∷ take_line m (a + 1) n

-- the calls of cprintf in mon_kerninfo
abbrev pub kerninfo_calls : Symbols → List (List ℕ × List ℕ)
kerninfo_calls y =
    (codes "Special kernel symbols:\n", [])
    ∷ (codes "  _start                  %08x (phys)\n", y.start ∷ [])
    ∷ (codes "  entry  %08x (virt)  %08x (phys)\n", y.entry ∷ sub32 y.entry kernbase ∷ [])
    ∷ (codes "  etext  %08x (virt)  %08x (phys)\n", y.etext ∷ sub32 y.etext kernbase ∷ [])
    ∷ (codes "  edata  %08x (virt)  %08x (phys)\n", y.edata ∷ sub32 y.edata kernbase ∷ [])
    ∷ (codes "  end    %08x (virt)  %08x (phys)\n", y.end ∷ sub32 y.end kernbase ∷ [])
    ∷ (
      codes "Kernel executable memory footprint: %dKB\n",
      kilobytes (roundup (sub32 y.end y.entry) 1024) ∷ [],
    )
    ∷ []

module _ {S : Type 0} (t : Terminal S) (k : Kernel) where
  -- calls of cprintf one after the other, each with its format and its arguments
  unfoldable pub print_all : List (List ℕ × List ℕ) → S → Run S
  print_all [] s = done s
  print_all ((fmt, ap) ∷ calls) s = t.cprintf fmt ap s >>= λ s'. print_all calls s'

  -- a call for each entry of the table; the commands return 0
  unfoldable pub mon_help : S → Run (ℕ × S)
  mon_help s =
      print_all (map (λ c. (codes "%s - %s\n", c.name ∷ c.desc ∷ [])) k.commands) s >>= λ s'.
      done (0, s')

  unfoldable pub mon_kerninfo : S → Run (ℕ × S)
  mon_kerninfo s = print_all (kerninfo_calls k.symbols) s >>= λ s'. done (0, s')

  unfoldable pub call : Handler → S → Run (ℕ × S)
  call help s = mon_help s
  call kerninfo s = mon_kerninfo s

  -- runcmd behind the parsing loop: the value returned
  unfoldable pub invoke : ℕ → Memory → List ℕ → S → Run (ℕ × S)
  invoke fuel m [] s = done (0, s)
  invoke fuel m (arg ∷ args) s = lookup fuel m arg k.commands >>= λ o. elim o [
    | some h ↦ call h s
    | none ↦ t.cprintf (codes "Unknown command '%s'\n") (arg ∷ []) s >>= λ s'. done (0, s')
  ]

  -- the memory afterwards, the value returned and the terminal
  unfoldable pub runcmd : ℕ → Memory → ℕ → S → Run (Memory × ℕ × S)
  runcmd fuel m buf s = parse fuel fuel m buf [] >>= λ p.
      if p.too_many
      then (t.cprintf (codes "Too many arguments (max %d)\n") (maxargs ∷ []) s >>= λ s'.
          done (p.mem, 0, s'))
      else (invoke fuel p.mem p.argv s >>= λ r. done (p.mem, r.0, r.1))

  -- `while (1)` of monitor; `fuel` is for the loops inside, and there is no line to run after an error
  unfoldable pub command_loop : ℕ → ℕ → Memory → S → Run S
  command_loop zero fuel m s = no_fuel
  command_loop (suc f) fuel m s =
      readline t fuel k.prompt (take_line m k.line_buf buflen) s >>= λ l. elim l.entered [
        | false ↦ command_loop f fuel (put_line m k.line_buf l.buf) l.term
        | true ↦ runcmd fuel (put_line m k.line_buf l.buf) k.line_buf l.term >>= λ r.
            elim (slt r.1 0) [ true ↦ done r.2 | false ↦ command_loop f fuel r.0 r.2 ]
      ]

  unfoldable pub monitor : ℕ → ℕ → Memory → S → Run S
  monitor f fuel m s = t.cprintf (codes "Welcome to the JOS kernel monitor!\n") [] s >>= λ s₁.
      t.cprintf (codes "Type 'help' for a list of commands.\n") [] s₁ >>= λ s₂.
      command_loop f fuel m s₂
