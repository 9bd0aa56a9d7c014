-- ===== src/Monitor/Forever.antt =====
-- monitor (kern/monitor.c) goes on for ever, since runcmd never asks it to leave.
use sisop_tps.Prelude.{
  ℕ, zero, suc, ◌≡◌, ◌≢◌, refl, true, false, inl, inr, Bool-cases, Option, some, none, List, [],
  ◌∷◌, slt, if◌then◌else◌, codes,
}
use sisop_tps.Prelude.Run.{Run, done, fault, no_fuel, ◌>>=◌, Keeps, bind-Keeps, after-Keeps}
use sisop_tps.Memory.{Memory}
use sisop_tps.Readline.{Terminal, Line, readline, buflen}
use sisop_tps.Monitor.{
  Handler, help, kerninfo, lookup, Parsed, parse, Kernel, print_all, mon_help, mon_kerninfo, call,
  invoke, runcmd, command_loop, monitor, maxargs, put_line, take_line,
}

module _ {S : Type 0} (t : Terminal S) (k : Kernel) where
  -- every command returns 0
  unfoldable pub IsZero : ℕ × S → Type 0
  IsZero r = r.0 ≡ 0

  printed-IsZero :
      (calls : List (List ℕ × List ℕ)) (s : S)
      → Keeps IsZero (print_all t k calls s >>= λ s'. done (0, s'))
  unfolding IsZero
  printed-IsZero calls s =
      after-Keeps IsZero (print_all t k calls s) (λ s'. done (0, s')) (λ s'. refl)

  pub call-IsZero : (h : Handler) (s : S) → Keeps IsZero (call t k h s)
  unfolding call mon_help mon_kerninfo
  call-IsZero help s = printed-IsZero _ s
  call-IsZero kerninfo s = printed-IsZero _ s

  pub unknown-IsZero :
      (arg : ℕ) (s : S)
      → Keeps IsZero
          (t.cprintf (codes "Unknown command '%s'\n") (arg ∷ []) s >>= λ s'. done (0, s'))
  unfolding IsZero
  unknown-IsZero arg s =
      after-Keeps IsZero (t.cprintf (codes "Unknown command '%s'\n") (arg ∷ []) s)
        (λ s'. done (0, s')) (λ s'. refl)

  invoke-IsZero :
      (fuel : ℕ) (m : Memory) (argv : List ℕ) (s : S) → Keeps IsZero (invoke t k fuel m argv s)
  unfolding invoke
  invoke-IsZero fuel m [] s = unfold IsZero in refl
  invoke-IsZero fuel m (arg ∷ args) s = go (lookup fuel m arg k.commands)
    where
      go :
          (found : Run (Option Handler))
          → Keeps IsZero (
              found >>= λ o. elim o [
                | some h ↦ call t k h s
                | none ↦
                    t.cprintf (codes "Unknown command '%s'\n") (arg ∷ []) s >>= λ s'. done (0, s')
              ])
      go (done (some h)) = call-IsZero h s
      go (done none) = unknown-IsZero arg s
      go fault = tt
      go no_fuel = tt

  -- runcmd returns 0 on every line: none of the commands asks the monitor to leave.
  IsZeroRun : Memory × ℕ × S → Type 0
  IsZeroRun r = r.1 ≡ 0

  runcmd-IsZeroRun :
      (fuel : ℕ) (m : Memory) (b : ℕ) (s : S) → Keeps IsZeroRun (runcmd t k fuel m b s)
  unfolding runcmd IsZero IsZeroRun
  runcmd-IsZeroRun fuel m b s = go (parse fuel fuel m b [])
    where
      go :
          (parsed : Run Parsed)
          → Keeps IsZeroRun (
              parsed >>= λ p.
              if p.too_many
              then (t.cprintf (codes "Too many arguments (max %d)\n") (maxargs ∷ []) s >>= λ s'.
                  done (p.mem, 0, s'))
              else (invoke t k fuel p.mem p.argv s >>= λ r. done (p.mem, r.0, r.1)))
      go fault = tt
      go no_fuel = tt
      go (done p) = elim (Bool-cases p.too_many) [
        | inl many ↦ rw many (
            after-Keeps IsZeroRun
              (t.cprintf (codes "Too many arguments (max %d)\n") (maxargs ∷ []) s)
              (λ s'. done (p.mem, 0, s')) (λ s'. refl))
        | inr few ↦ rw few (
            bind-Keeps IsZero IsZeroRun (invoke t k fuel p.mem p.argv s)
              (λ r. done (p.mem, r.0, r.1)) (invoke-IsZero fuel p.mem p.argv s) (λ r z. z))
      ]

  Never : S → Type 0
  Never s = ⊥

  stays : (r : ℕ) → r ≡ 0 → slt r 0 ≡ false
  stays r z = rw z refl

  command_loop-Never : (f fuel : ℕ) (m : Memory) (s : S) → Keeps Never (command_loop t k f fuel m s)
  unfolding command_loop IsZeroRun
  command_loop-Never zero fuel m s = tt
  command_loop-Never (suc f) fuel m s =
      after-Keeps Never (readline t fuel k.prompt (take_line m k.line_buf buflen) s) _
        (λ l. go (command_loop-Never f) l)
    where
      go :
          ((fuel : ℕ) (m : Memory) (s : S) → Keeps Never (command_loop t k f fuel m s))
          → (l : Line S)
          → Keeps Never (elim l.entered as (λ _. Run S) [
            | false ↦ command_loop t k f fuel (put_line m k.line_buf l.buf) l.term
            | true ↦ runcmd t k fuel (put_line m k.line_buf l.buf) k.line_buf l.term >>= λ r.
                elim (slt r.1 0) [ true ↦ done r.2 | false ↦ command_loop t k f fuel r.0 r.2 ]
          ])
      go ih l = elim (Bool-cases l.entered) [
        | inr off ↦ rw off (ih fuel (put_line m k.line_buf l.buf) l.term)
        | inl on ↦ rw on (
            bind-Keeps IsZeroRun Never
              (runcmd t k fuel (put_line m k.line_buf l.buf) k.line_buf l.term)
              (λ r. elim (slt r.1 0) [ true ↦ done r.2 | false ↦ command_loop t k f fuel r.0 r.2 ])
              (runcmd-IsZeroRun fuel (put_line m k.line_buf l.buf) k.line_buf l.term)
              (λ r z. let on : slt r.1 0 ≡ false = stays r.1 z in rw on (ih fuel r.0 r.2)))
      ]

  -- The monitor never returns, whatever is typed and for however long it runs: no command asks it to leave.
  pub monitor-ne-done : (f fuel : ℕ) (m : Memory) (s s' : S) → monitor t k f fuel m s ≢ done s'
  unfolding monitor Never
  monitor-ne-done f fuel m s s' e =
      rw e at (welcome (t.cprintf (codes "Welcome to the JOS kernel monitor!\n") [] s))
    where
      welcome :
          (shown : Run S)
          → Keeps Never (
              shown >>= λ s₁.
              t.cprintf (codes "Type 'help' for a list of commands.\n") [] s₁ >>= λ s₂.
              command_loop t k f fuel m s₂)
      welcome fault = tt
      welcome no_fuel = tt
      welcome (done s₁) =
          after-Keeps Never (t.cprintf (codes "Type 'help' for a list of commands.\n") [] s₁)
            (λ s₂. command_loop t k f fuel m s₂) (λ s₂. command_loop-Never f fuel m s₂)
