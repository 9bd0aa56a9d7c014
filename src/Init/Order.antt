-- ===== src/Init/Order.antt =====
-- kern/init.c: the order in which the start of the kernel prints, and the one panic.
use sisop_tps.Prelude.{
  ℕ, zero, suc, ◌<◌, ◌≡◌, ◌≢◌, refl, ap, ◌∙◌, sym, true, false, Bool-cases, inl, inr, List, [], ◌∷◌,
  ◌++◌, ◌==◌, codes, slt, sub32, sub32_exact, half_word, arith,
}
use sisop_tps.Prelude.Run.{Run, ◌>>=◌, bind_assoc, bind-done, bind-same}
use sisop_tps.Memory.{Memory}
use sisop_tps.Strings.Block.{memset}
use sisop_tps.Strings.Block.Fill.{filled, memset_lem}
use sisop_tps.Readline.{Terminal}
use sisop_tps.Console.{Machine}
use sisop_tps.Console.Init.{cons_init, console}
use sisop_tps.Monitor.{Kernel, print_all}
use sisop_tps.Init.{
  mon_backtrace, test_backtrace, report, panic_report, panic, monitor_forever, clear_statics,
  i386_init,
}

-- the calls of cprintf from depth `x` inwards and back
abbrev pub nested : ℕ → List (List ℕ × List ℕ)
nested zero =
    (codes "entering test_backtrace %d\n", 0 ∷ [])
    ∷ (codes "leaving test_backtrace %d\n", 0 ∷ [])
    ∷ []
nested (suc x) =
    (codes "entering test_backtrace %d\n", suc x ∷ [])
    ∷ (nested x ++ ((codes "leaving test_backtrace %d\n", suc x ∷ []) ∷ []))

module _ {S : Type 0} (t : Terminal S) (k : Kernel) where
  print_all-append :
      (xs ys : List (List ℕ × List ℕ)) (s : S)
      → print_all t k (xs ++ ys) s ≡ (print_all t k xs s >>= λ s'. print_all t k ys s')
  unfolding print_all
  print_all-append [] ys s = refl
  print_all-append ((fmt, ap') ∷ xs) ys s =
      bind-same (t.cprintf fmt ap' s) _ _ (print_all-append xs ys)
      ∙ sym (bind_assoc (t.cprintf fmt ap' s) _ _)

  pub test_backtrace-nested :
      (f x : ℕ) (s : S)
      → x < f
      → x < half_word
      → test_backtrace t f x s ≡ print_all t k (nested x) s
  unfolding test_backtrace print_all mon_backtrace
  test_backtrace-nested zero x s l h = absurd (omega arith)
  test_backtrace-nested (suc f) zero s l h =
      bind-same (t.cprintf (codes "entering test_backtrace %d\n") (0 ∷ []) s) _ _
        (λ s₁. sym (bind-done (t.cprintf (codes "leaving test_backtrace %d\n") (0 ∷ []) s₁)))
  test_backtrace-nested (suc f) (suc x) s l h =
      let deeper : slt 0 (suc x) ≡ true = ground arith in
      let less : sub32 (suc x) 1 ≡ x =
        sub32_exact (suc x) 1 (omega arith) (omega arith) ∙ omega arith in
      rw (deeper, less)
        (bind-same (t.cprintf (codes "entering test_backtrace %d\n") (suc x ∷ []) s) _ _ (λ s₁.
          ap (λ r. r >>= λ s₂. t.cprintf (codes "leaving test_backtrace %d\n") (suc x ∷ []) s₂)
            (test_backtrace-nested f x s₁ (omega arith) (omega arith))
          ∙ bind-same (print_all t k (nested x) s₁) _ _ (λ s₂.
            sym (bind-done (t.cprintf (codes "leaving test_backtrace %d\n") (suc x ∷ []) s₂)))
          ∙ sym (
              print_all-append (nested x) ((codes "leaving test_backtrace %d\n", suc x ∷ []) ∷ [])
                s₁)))

  -- the greeting and the test, before anything else
  printed :
      (rest : S → Run S) (s : S)
      → (t.cprintf (codes "6828 decimal is %o octal!\n") (6828 ∷ []) s >>= λ s₂.
          test_backtrace t 6 5 s₂ >>= λ s₃. rest s₃)
        ≡ (print_all t k ((codes "6828 decimal is %o octal!\n", 6828 ∷ []) ∷ nested 5) s >>= rest)
  unfolding print_all
  printed rest s =
      let greeting = t.cprintf (codes "6828 decimal is %o octal!\n") (6828 ∷ []) s in
      bind-same greeting _ _
        (λ s₂. ap (λ r. r >>= rest) (test_backtrace-nested 6 5 s₂ (omega arith) (omega arith)))
      ∙ sym (bind_assoc greeting (λ s₂. print_all t k (nested 5) s₂) rest)

module _ {S : Type 0} (t : Terminal S) where
  -- What `_panic` does before it enters the monitor, done a second time behind itself, adds nothing: where
  -- the first format is not the null pointer, nothing more is printed up to the monitor, and the first
  -- format is kept.
  panic_report-once :
      (file line at file' line' at' : ℕ) (fmt ap' fmt' ap'' : List ℕ) (s : ℕ × S)
      → at ≢ 0
      → (panic_report t file line at fmt ap' s >>= λ s'.
          panic_report t file' line' at' fmt' ap'' s')
        ≡ panic_report t file line at fmt ap' s
  unfolding panic_report
  panic_report-once file line at file' line' at' fmt ap' fmt' ap'' (panicstr, s) n =
      elim (Bool-cases (panicstr == 0)) [
        | inl first ↦
            let set : (at == 0) ≡ false = ground (arith, n) in
            rw (first, panic_report)
              (bind_assoc (report t (codes "kernel panic at %s:%d: ") file line fmt ap' s) _ _
                ∙ bind-same (report t (codes "kernel panic at %s:%d: ") file line fmt ap' s) _ _
                    (λ s'. rw set refl))
        | inr again ↦ rw (again, again, panic_report) refl
      ]

module _ {S : Type 0} (t : Terminal S) (k : Kernel) where
  -- A second `_panic` after the report of a first, whose format is not the null pointer, goes straight to the
  -- monitor: it prints no report of its own, and the monitor's calls follow what the first has printed.
  pub panic-again :
      (g f fuel : ℕ) (m : Memory) (file line at file' line' at' : ℕ) (fmt ap' fmt' ap'' : List ℕ)
      (s : ℕ × S)
      → at ≢ 0
      → (panic_report t file line at fmt ap' s >>= λ s'.
          panic t k g f fuel m file' line' at' fmt' ap'' s')
        ≡ (panic_report t file line at fmt ap' s >>= λ s'. monitor_forever t k g f fuel m s'.1)
  unfolding panic
  panic-again g f fuel m file line at file' line' at' fmt ap' fmt' ap'' s n =
      sym (bind_assoc (panic_report t file line at fmt ap' s) _ _)
      ∙ ap (λ r. r >>= λ s'. monitor_forever t k g f fuel m s'.1)
          (panic_report-once t file line at file' line' at' fmt ap' fmt' ap'' s n)

module _ {W : Type 0} (peek : ℕ → W → ℕ) (poke : ℕ → ℕ → W → W) (inb : ℕ → W → ℕ × W)
    (outb : ℕ → ℕ → W → W) (string_at : ℕ → List ℕ) (error_address : ℕ → ℕ) (k : Kernel) where
  -- The start of the kernel clears the bytes from `start` to `end` and the console's statics, sets the console up and then prints the
  -- octal test and the nested calls from depth 5, before the monitor takes over with the memory so cleared.
  i386_init_lem :
      (g f fuel start end : ℕ) (m : Memory) (s : Machine W)
      → let t = console peek poke inb outb string_at error_address fuel in
        i386_init peek poke inb outb string_at error_address k g f fuel start end m s ≡ (
          cons_init peek poke inb outb string_at error_address (clear_statics s) >>= λ s₁.
          print_all t k ((codes "6828 decimal is %o octal!\n", 6828 ∷ []) ∷ nested 5) s₁ >>= λ s₂.
          monitor_forever t k g f fuel (filled m start 0 (sub32 end start)) s₂)
  unfolding i386_init
  i386_init_lem g f fuel start end m s =
      let t : Terminal (Machine W) = console peek poke inb outb string_at error_address fuel in
      let cleared : memset m start 0 (sub32 end start) ≡ filled m start 0 (sub32 end start) =
        λ i q. memset_lem m start 0 (sub32 end start) q i in
      rw cleared (
        bind-same (cons_init peek poke inb outb string_at error_address (clear_statics s)) _ _
          (λ s₁.
            printed t k (λ s₃. monitor_forever t k g f fuel (filled m start 0 (sub32 end start)) s₃)
              s₁))
