-- ===== src/Readline.antt =====
-- lib/readline.c: the line editor behind the monitor's prompt. The console that it reads from and echoes
-- to is an interface, and `buf` is the list of its 1024 bytes.
pub mod Editing
pub mod Tests
use sisop_tps.Prelude.{
  ℕ, zero, suc, ◌+◌, ◌-◌, ◌%◌, Bool, true, false, ◌&&◌, ◌||◌, List, [], ◌∷◌, ◌==◌, ltb, leb, slt,
  if◌then◌else◌, set, codes,
}
use sisop_tps.Prelude.Run.{Run, done, no_fuel, ◌>>=◌}

-- the routines of the console that the line editor and the monitor call; `iscons` is the answer for 0
pub record Terminal (S : Type 0) : Type 0 where
  pub getchar : S → Run (ℕ × S)
  pub cputchar : ℕ → S → S
  pub cprintf : List ℕ → List ℕ → S → Run S
  pub iscons : Bool

abbrev pub buflen : ℕ
buflen = 1024

abbrev pub backspace : ℕ
backspace = 0x08

abbrev pub delete : ℕ
delete = 0x7f

-- what the chain of tests makes of a character
pub data Key : Type 0 where
  read_error : Key
  erase : Key
  insert : Key
  enter : Key
  ignored : Key

unfoldable pub key_of : ℕ → ℕ → Key
key_of c i =
    if slt c 0
    then read_error
    else if (c == backspace || c == delete) && ltb 0 i
    then erase
    else if leb b' ' c && ltb i (buflen - 1)
    then insert
    else if c == b'\n' || c == b'\r'
    then enter
    else ignored

-- `buf` afterwards, and whether the function returns it or a null pointer
pub record Line (S : Type 0) : Type 0 where
  pub entered : Bool
  pub buf : List ℕ
  pub term : S

module _ {S : Type 0} (t : Terminal S) where
  -- `if (echoing) cputchar(c);`
  abbrev pub echo : ℕ → S → S
  echo c s = if t.iscons then t.cputchar c s else s

  -- `while (1)`; the keys that are typed decide how often it goes round
  unfoldable pub read_keys : ℕ → List ℕ → ℕ → S → Run (Line S)
  read_keys zero buf i s = no_fuel
  read_keys (suc f) buf i s = t.getchar s >>= λ r. elim (key_of r.0 i) [
    | read_error ↦ t.cprintf (codes "read error: %e\n") (r.0 ∷ []) r.1 >>= λ s'.
        done (record { entered = false; buf = buf; term = s' })
    | erase ↦ read_keys f buf (i - 1) (echo backspace r.1)
    | insert ↦ read_keys f (set buf i (r.0 % 256)) (i + 1) (echo r.0 r.1)
    | enter ↦ done (record { entered = true; buf = set buf i 0; term = echo b'\n' r.1 })
    | ignored ↦ read_keys f buf i r.1
  ]

  -- `prompt` is an address
  unfoldable pub readline : ℕ → ℕ → List ℕ → S → Run (Line S)
  readline fuel prompt buf s =
      (if prompt == 0 then done s else t.cprintf (codes "%s") (prompt ∷ []) s) >>= λ s'.
      read_keys fuel buf 0 s'
