-- ===== src/Printfmt/Buffer.antt =====
-- sprintbuf, sprintputch, vsnprintf and snprintf of lib/printfmt.c. The area that is printed into is
-- taken to be apart from the format and from the strings among the arguments.
pub mod Bounded
pub mod Text
pub mod Decimal
use sisop_tps.Prelude.{ℕ, ◌+◌, ◌-◌, List, ◌==◌, ◌||◌, ltb, slt, if◌then◌else◌, add32, sub32}
use sisop_tps.Prelude.Run.{Run, done, ◌>>=◌}
use sisop_tps.Memory.{Memory, store}
use sisop_tps.Printfmt.Format.{printfmt}

-- `struct sprintbuf`, with the memory that its pointers lead into
pub record SprintBuf : Type 0 where
  pub mem : Memory
  pub buf : ℕ
  pub ebuf : ℕ
  pub cnt : ℕ

pub sprintputch : ℕ → SprintBuf → SprintBuf
sprintputch ch b =
    if ltb b.buf b.ebuf
    then record b { cnt = add32 b.cnt 1; mem = store b.mem b.buf ch; buf = b.buf + 1 }
    else record b { cnt = add32 b.cnt 1 }

abbrev pub e_inval : ℕ
e_inval = 3

abbrev pub start : Memory → ℕ → ℕ → SprintBuf
start mem buf n = record { mem = mem; buf = buf; ebuf = buf + n - 1; cnt = 0 }

-- `*b.buf = '\0'; return b.cnt;`
abbrev pub finish : SprintBuf → Run (Memory × ℕ)
finish b = done (store b.mem b.buf 0, b.cnt)

module _ (string_at : ℕ → List ℕ) (error_address : ℕ → ℕ) where
  -- the memory, and the `int` returned
  pub vsnprintf : Memory → ℕ → ℕ → List ℕ → List ℕ → Run (Memory × ℕ)
  vsnprintf mem buf n fmt ap =
      if buf == 0 || slt n 1
      then done (mem, sub32 0 e_inval)
      else (printfmt sprintputch string_at error_address fmt ap (start mem buf n) >>= finish)

  pub snprintf : Memory → ℕ → ℕ → List ℕ → List ℕ → Run (Memory × ℕ)
  snprintf mem buf n fmt ap = vsnprintf mem buf n fmt ap
