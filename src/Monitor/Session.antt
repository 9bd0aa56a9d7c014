-- ===== src/Monitor/Session.antt =====
-- One round of the monitor (kern/monitor.c): a line is typed, and its command runs.
use sisop_tps.Prelude.{
  ℕ, suc, ◌+◌, ◌<◌, ◌≡◌, refl, true, false, inl, inr, ◌⊎◌, Bool-cases, Option, some, none, List, [],
  ◌∷◌, ◌++◌, foldl, All, leb, slt, length, codes, arith,
}
use sisop_tps.Prelude.Run.{
  Run, done, fault, no_fuel, ◌>>=◌, Keeps, bind-Keeps, after-Keeps, Returns-eq,
}
use sisop_tps.Memory.{Memory, Holds}
use sisop_tps.Strings.Comparing.{IsText}
use sisop_tps.Readline.{Terminal, readline, buflen}
use sisop_tps.Readline.Editing.{Keyboard, IsKey, IsEnter, edit, readline-Ends}
use sisop_tps.Monitor.{
  Handler, help, kerninfo, call, Kernel, Parsed, command_loop, take_line, put_line, print_all,
  mon_help, mon_kerninfo,
}
use sisop_tps.Monitor.Words.{words}
use sisop_tps.Monitor.Splitting.{Split}
use sisop_tps.Monitor.Dispatch.{Named, respond, answer, find, runcmd_lem}
use sisop_tps.Monitor.Forever.{IsZero, call-IsZero, unknown-IsZero}
use sisop_tps.Monitor.Typed.{
  length-take_line, put_line-Holds, put_line-frame, Named-kept, edited-IsText,
}

module _ {S : Type 0} (t : Terminal S) (k : Kernel) where
  respond-IsZero :
      (names : List (List ℕ × Handler)) (ws : List (List ℕ)) (argv : List ℕ) (s : S)
      → Keeps (IsZero t k) (respond t k names ws argv s)
  respond-IsZero names [] argv s = unfold IsZero in refl
  respond-IsZero names (w ∷ ws) [] s = unfold IsZero in refl
  respond-IsZero names (w ∷ ws) (arg ∷ args) s = go (find w names)
    where
      go :
          (found : Option Handler)
          → Keeps (IsZero t k) (elim found as (λ _. Run (ℕ × S)) [
            | some h ↦ call t k h s
            | none ↦ t.cprintf (codes "Unknown command '%s'\n") (arg ∷ []) s >>= λ s'. done (0, s')
          ])
      go (some h) = call-IsZero t k h s
      go none = unknown-IsZero t k arg s

  answer-IsZero :
      (names : List (List ℕ × Handler)) (ws : List (List ℕ)) (argv : List ℕ) (s : S)
      → Keeps (IsZero t k) (answer t k names ws argv s)
  answer-IsZero names ws argv s = elim (Bool-cases (leb (length ws) 15)) [
    | inl few ↦ rw few (respond-IsZero names ws argv s)
    | inr many ↦ rw many (
        after-Keeps (IsZero t k) (t.cprintf (codes "Too many arguments (max %d)\n") (16 ∷ []) s)
          (λ s'. done (0, s')) (λ s'. unfold IsZero in refl))
  ]

  -- the memory and what a command returns
  abbrev with_memory : Memory → ℕ × S → Run (Memory × ℕ × S)
  with_memory m r = done (m, r.0, r.1)

  -- the test of the value that a command returns
  goes_on :
      (m : Memory) (a : Run (ℕ × S)) (next : Memory → S → Run S)
      → Keeps (IsZero t k) a
      → ((a >>= with_memory m) >>= λ r. elim (slt r.1 0) [ true ↦ done r.2 | false ↦ next r.0 r.2 ])
        ≡ (a >>= λ r. next m r.1)
  unfolding IsZero
  goes_on m (done r) next z = rw z refl
  goes_on m fault next z = refl
  goes_on m no_fuel next z = refl

  -- Where cprintf leaves the keys to come alone, so do the commands.
  module _ (Keys : S → List ℕ → Type 0) (rest : List ℕ)
      (quiet : (fmt ap : List ℕ) (s : S)
        → Keys s rest
        → Keeps (λ s'. Keys s' rest) (t.cprintf fmt ap s)) where
    abbrev Still : ℕ × S → Type 0
    Still r = Keys r.1 rest

    print_all-Keys :
        (calls : List (List ℕ × List ℕ)) (s : S)
        → Keys s rest
        → Keeps (λ s'. Keys s' rest) (print_all t k calls s)
    unfolding print_all
    print_all-Keys [] s h = h
    print_all-Keys ((fmt, ap) ∷ calls) s h =
        bind-Keeps (λ s'. Keys s' rest) (λ s'. Keys s' rest) (t.cprintf fmt ap s)
          (print_all t k calls) (quiet fmt ap s h) (print_all-Keys calls)

    -- what prints and returns a number keeps the keys
    returning-Keys :
        (n : ℕ) (m : Run S) → Keeps (λ s'. Keys s' rest) m → Keeps Still (m >>= λ s'. done (n, s'))
    returning-Keys n m h =
        bind-Keeps (λ s'. Keys s' rest) Still m (λ s'. done (n, s')) h (λ s' g. g)

    call-Keys : (h : Handler) (s : S) → Keys s rest → Keeps Still (call t k h s)
    unfolding call mon_help mon_kerninfo
    call-Keys help s h = returning-Keys 0 (print_all t k _ s) (print_all-Keys _ s h)
    call-Keys kerninfo s h = returning-Keys 0 (print_all t k _ s) (print_all-Keys _ s h)

    respond-Keys :
        (names : List (List ℕ × Handler)) (ws : List (List ℕ)) (argv : List ℕ) (s : S)
        → Keys s rest
        → Keeps Still (respond t k names ws argv s)
    respond-Keys names [] argv s h = h
    respond-Keys names (w ∷ ws) [] s h = h
    respond-Keys names (w ∷ ws) (arg ∷ args) s h = go (find w names)
      where
        go :
            (found : Option Handler)
            → Keeps Still (elim found as (λ _. Run (ℕ × S)) [
              | some f ↦ call t k f s
              | none ↦
                  t.cprintf (codes "Unknown command '%s'\n") (arg ∷ []) s >>= λ s'. done (0, s')
            ])
        go (some f) = call-Keys f s h
        go none =
            returning-Keys 0 (t.cprintf (codes "Unknown command '%s'\n") (arg ∷ []) s)
              (quiet _ _ s h)

    answer-Keys :
        (names : List (List ℕ × Handler)) (ws : List (List ℕ)) (argv : List ℕ) (s : S)
        → Keys s rest
        → Keeps Still (answer t k names ws argv s)
    answer-Keys names ws argv s h = elim (Bool-cases (leb (length ws) 15)) [
      | inl few ↦ rw few (respond-Keys names ws argv s h)
      | inr many ↦ rw many (
          returning-Keys 0 (t.cprintf (codes "Too many arguments (max %d)\n") (16 ∷ []) s)
            (quiet _ _ s h))
    ]

  module _ (Keys : S → List ℕ → Type 0) (keyboard : Keyboard t Keys)
      (names : List (List ℕ × Handler)) where
    -- what a round leaves to the next: the line in memory, its words, and the state behind the Enter
    pub record Round (f fuel : ℕ) (m : Memory) (s : S) (text rest : List ℕ) : Type 0 where
      pub line : Memory
      pub parsed : Parsed
      pub term : S
      pub typed : Holds line k.line_buf text
      pub frame : (q : ℕ) → (q < k.line_buf) ⊎ (k.line_buf + 1023 < q) → line q ≡ m q
      pub split : Split line k.line_buf (k.line_buf + length text) (words text) parsed
      pub left : Keys term rest
      pub left_after : Keeps (λ r. Keys r.1 rest) (answer t k names (words text) parsed.argv term)
      pub runs : command_loop t k (suc f) fuel m s ≡ (
          answer t k names (words text) parsed.argv term >>= λ r.
          command_loop t k f fuel parsed.mem r.1)

    -- With keys and an Enter typed, the monitor reads the line that the editor makes of the keys into its buffer,
    -- splits it into its words, does what the first word says, and where that ends goes on to the next
    -- round, with the keys behind the Enter still to come. The names of the commands stand outside the
    -- buffer, and what cprintf prints leaves the keys to come alone.
    pub command_loop-Round :
        (ks rest : List ℕ) (e f fuel : ℕ) (m : Memory) (s : S)
        → All IsKey ks
        → All (λ c. c < 256) ks
        → IsEnter e
        → Keys s (ks ++ (e ∷ rest))
        → Named m k.line_buf (k.line_buf + 1023) k.commands names
        → length ks < fuel
        → 1024 < fuel
        → ((fmt ap : List ℕ) (s' : S)
            → Keys s' rest
            → Keeps (λ s''. Keys s'' rest) (t.cprintf fmt ap s'))
        → Round f fuel m s (foldl edit [] ks) rest
    unfolding command_loop
    command_loop-Round ks rest e f fuel m s keys bytes enter there named l big quiet =
        let text = foldl edit [] ks in
        let b = k.line_buf in
        let (r, ran, ends) = Returns-eq (readline t fuel k.prompt (take_line m b buflen) s) _ (
          readline-Ends t Keys keyboard ks rest e k.prompt fuel (take_line m b buflen) s
            (length-take_line m b buflen) keys enter there l) in
        let text_ok : IsText text = edited-IsText ks [] bytes tt in
        let line = put_line m b r.buf in
        let starts = ends.text_is.starts in
        let frame : (q : ℕ) → (q < b) ⊎ (b + 1023 < q) → line q ≡ m q =
          λ q out. put_line-frame m b q r.buf starts.whole out in
        let typed = put_line-Holds m b r.buf text ends.text_is text_ok in
        let (p, split, runs) =
          runcmd_lem t k names fuel line b text r.term typed text_ok
            (Named-kept m line b (b + 1023) (b + length text) k.commands names
              (omega (arith, starts.room)) named frame)
            (omega (arith, starts.room)) in
        record {
          line = line;
          parsed = p;
          term = r.term;
          typed = typed;
          frame = frame;
          split = split;
          left = ends.left;
          left_after = answer-Keys Keys rest quiet names (words text) p.argv r.term ends.left;
          runs =
              rw (ran, ◌>>=◌)
                (rw (ends.returned, runs)
                  (goes_on p.mem (answer t k names (words text) p.argv r.term)
                    (command_loop t k f fuel) (answer-IsZero names (words text) p.argv r.term)));
        }
