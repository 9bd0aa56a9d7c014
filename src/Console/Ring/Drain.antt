-- ===== src/Console/Ring/Drain.antt =====
-- kern/console.c: what cons_intr fetches from a serial line.
use sisop_tps.Prelude.{
  ℕ, zero, suc, ◌+◌, ◌%◌, ◌<◌, ◌≡◌, ◌≢◌, refl, ap, subst, ◌∙◌, true, false, inl, inr, List, [], ◌∷◌,
  ◌++◌, ◌==◌, append_assoc, append-nil, length, length-append, All, Bool-cases, arith,
}
use sisop_tps.Prelude.Run.{Run, done, ◌>>=◌}
use sisop_tps.Console.{Machine, com1, in_port}
use sisop_tps.Console.Keyboard.{minus_one, serial_proc_data, kbd_proc_data}
use sisop_tps.Console.Ring.{cons_store, cons_intr, kbd_intr}
use sisop_tps.Console.Ring.Queue.{Represents, enqueue, cons_store-Represents}
use sisop_tps.Console.Ring.Line.{Line, input, in_port-input}

-- a byte that is a character
abbrev pub IsCharacter : ℕ → Type 0
IsCharacter c = (c ≢ 0) × (c < 256)

cons_store-rest :
    {W : Type 0} (c : ℕ) (m : Machine W)
    → ((cons_store c m).world ≡ m.world) × ((cons_store c m).serial_exists ≡ m.serial_exists)
unfolding cons_store
cons_store-rest c m = elim (Bool-cases (c == 0)) [
  | inl t ↦ rw (t, cons_store) (refl, refl)
  | inr t ↦ rw (t, cons_store) (refl, refl)
]

-- one round of the loop
module _ {W : Type 0} (proc : Machine W → Run (ℕ × Machine W)) (f : ℕ) (m n : Machine W) where
  cons_intr-last : proc m ≡ done (minus_one, n) → cons_intr (suc f) proc m ≡ done n
  unfolding cons_intr
  cons_intr-last e = rw (e, ◌>>=◌) refl

  cons_intr-more :
      (c : ℕ)
      → proc m ≡ done (c, n)
      → (c == minus_one) ≡ false
      → cons_intr (suc f) proc m ≡ cons_intr f proc (cons_store c n)
  unfolding cons_intr
  cons_intr-more c e more = rw (e, ◌>>=◌) (rw more refl)

module _ {W : Type 0} {inb : ℕ → W → ℕ × W} {outb : ℕ → ℕ → W → W} {waiting : W → List ℕ}
    (line : Line inb outb waiting) where
  -- The ring holds `q`, and `cs` waits.
  abbrev pub Holding : Machine W → List ℕ → List ℕ → Type 0
  Holding m q cs = Represents m q × (waiting m.world ≡ cs) × (m.serial_exists ≡ true)

  Represents-input :
      (m n : Machine W) (q : List ℕ) → input line n ≡ input line m → Represents m q → Represents n q
  unfolding Represents input
  Represents-input m n q e (l, r, s, w, at) =
      let buf : n.buf ≡ m.buf = ap (λ p. p.0) e in
      let rpos : n.rpos ≡ m.rpos = ap (λ p. p.1) e in
      let wpos : n.wpos ≡ m.wpos = ap (λ p. p.2) e in
      (ap length buf ∙ l, rw rpos r, s, rw (wpos, rpos) w, λ i h. rw (buf, rpos) (at i h))

  pub Holding-input :
      (m n : Machine W) (q cs : List ℕ)
      → input line n ≡ input line m
      → Holding m q cs
      → Holding n q cs
  unfolding input
  Holding-input m n q cs e (r, w, s) =
      (Represents-input m n q e r, ap (λ p. p.4) e ∙ w, ap (λ p. p.3) e ∙ s)

  -- `Typed m ks`: the characters `ks` are unread, in the ring or on the line.
  pub record Typed (m : Machine W) (ks : List ℕ) : Type 0 where
    pub ring : List ℕ
    pub behind : List ℕ
    pub all : ring ++ behind ≡ ks
    pub holds : Holding m ring behind
    pub fits : length ks < 512
    pub characters : All IsCharacter ks

  -- a character put into the ring
  store-Holding :
      (m : Machine W) (q : List ℕ) (c : ℕ) (cs : List ℕ)
      → length (q ++ (c ∷ cs)) < 512
      → IsCharacter c
      → Holding m q cs
      → Holding (cons_store c m) (q ++ (c ∷ [])) cs
  store-Holding m q c cs room ok h =
      let nonzero : (c == 0) ≡ false = ground (arith, ok.0) in
      let byte : c % 256 ≡ c = omega (arith, ok.1) in
      let queue : enqueue c q ≡ q ++ (c ∷ []) = rw (nonzero, byte) refl in
      let rest = cons_store-rest c m in
      (
        subst (λ l. Represents (cons_store c m) l) queue
            (cons_store-Represents c m q (omega (arith, length-append q (c ∷ cs))) h.0),
        ap waiting rest.0 ∙ h.1,
        rest.1 ∙ h.2,
      )

  module _ (string_at : ℕ → List ℕ) (error_address : ℕ → ℕ) where
    -- with nothing to fetch
    serial-idle :
        (m : Machine W) (q : List ℕ)
        → Holding m q []
        → (n : Machine W) × (serial_proc_data inb outb string_at error_address m
            ≡ done (minus_one, n))
          × Holding n q []
    unfolding serial_proc_data
    serial-idle m q h =
        let idle = line.idle m.world h.1 in
        let n = (in_port inb outb (com1 + 5) m).1 in
        (
          n,
          rw idle refl,
          Holding-input m n q [] (in_port-input line (com1 + 5) m (λ e. omega arith)) h,
        )

    -- with a character to fetch
    serial-fetch :
        (m : Machine W) (q : List ℕ) (c : ℕ) (cs : List ℕ)
        → Holding m q (c ∷ cs)
        → (n : Machine W) × (serial_proc_data inb outb string_at error_address m ≡ done (c, n))
          × Holding n q cs
    unfolding serial_proc_data Represents
    serial-fetch m q c cs h =
        let ready = line.ready m.world c cs h.1 in
        let m₁ = (in_port inb outb (com1 + 5) m).1 in
        let h₁ : Holding m₁ q (c ∷ cs) =
          Holding-input m m₁ q (c ∷ cs) (in_port-input line (com1 + 5) m (λ e. omega arith)) h in
        let got = line.received m₁.world c cs h₁.1 in
        let n = (in_port inb outb com1 m₁).1 in
        (n, rw ready (ap (λ b. done (b, n)) got.0), (h₁.0, got.1, h₁.2))

    pub drained :
        (cs : List ℕ) (fuel : ℕ) (m : Machine W) (q : List ℕ)
        → length cs < fuel
        → length (q ++ cs) < 512
        → All IsCharacter cs
        → Holding m q cs
        → (n : Machine W) × (cons_intr fuel (serial_proc_data inb outb string_at error_address) m
            ≡ done n)
          × Holding n (q ++ cs) []
    drained cs zero m q l room ok h = absurd (omega arith)
    drained [] (suc f) m q l room ok h =
        let (n, ran, holds) = serial-idle m q h in
        (n, cons_intr-last _ f m n ran, rw (append-nil q) holds)
    drained (c ∷ cs) (suc f) m q l room ok h =
        let (n, ran, holds) = serial-fetch m q c cs h in
        let more : (c == minus_one) ≡ false = ground (arith, ok.0.1) in
        let stored = store-Holding n q c cs room ok.0 holds in
        let same = append_assoc q (c ∷ []) cs in
        let (n', ran', holds') =
          drained cs f (cons_store c n) (q ++ (c ∷ [])) (omega arith)
            (omega (arith, ap length same)) ok.1 stored in
        (n', cons_intr-more _ f m n c ran more ∙ ran', subst (λ l. Holding n' l []) same holds')

    -- the keyboard has nothing
    pub kbd_intr-none :
        (f : ℕ) (m : Machine W) (q : List ℕ)
        → Holding m q []
        → (n : Machine W) × (kbd_intr inb outb string_at error_address (suc f) m ≡ done n)
          × Holding n q []
    unfolding kbd_proc_data kbd_intr
    kbd_intr-none f m q h =
        let none = line.no_key m.world in
        (
          (in_port inb outb 0x64 m).1,
          cons_intr-last _ f m _ (rw none refl),
          Holding-input m _ q [] (in_port-input line 0x64 m (λ e. omega arith)) h,
        )
