-- ===== src/Printfmt/Buffer/Bounded.antt =====
-- vsnprintf of lib/printfmt.c stays inside its buffer, cuts the text there and counts all of it.
use sisop_tps.Prelude.{
  ℕ, zero, suc, ◌+◌, ◌-◌, ◌%◌, ◌≤◌, ◌<◌, ◌≡◌, ◌≢◌, refl, ap, inl, inr, Bool-cases, List, [], ◌∷◌,
  ◌++◌, append-nil, append_assoc, subst, sym, map, ltb, ltb→lt, ltb→le, false, ◌||◌, ◌==◌, slt,
  half_word, word, length, length-append, take, min, add32, arith,
}
use sisop_tps.Prelude.Run.{Run, done, fault, no_fuel, ◌>>=◌}
use sisop_tps.Memory.{Memory, store, inside, Stands, Stands-snoc}
use sisop_tps.Printfmt.Number.{emit}
use sisop_tps.Printfmt.Collecting.{Both, then-Both, collect, printfmt-collect}
use sisop_tps.Printfmt.Format.{printfmt}
use sisop_tps.Printfmt.Total.{printfmt-ne-no_fuel}
use sisop_tps.Printfmt.Buffer.{SprintBuf, sprintputch, start, finish, vsnprintf}

bind-ends :
    {A B : Type 0} (m : Run A) (k : A → Run B)
    → m ≢ no_fuel
    → ((a : A) → k a ≢ no_fuel)
    → (m >>= k) ≢ no_fuel
bind-ends (done a) k h n = n a
bind-ends fault k h n = λ e. cc
bind-ends no_fuel k h n = absurd (h refl)

finish-ends : (b : SprintBuf) → finish b ≢ no_fuel
finish-ends b = λ e. cc

-- the bytes of characters that fit in `room` cells
abbrev pub fitting : ℕ → List ℕ → List ℕ
fitting room cs = map (λ c. c % 256) (take room cs)

fitting-snoc_fits :
    (room c : ℕ) (cs : List ℕ)
    → length cs < room
    → fitting room (cs ++ (c ∷ [])) ≡ fitting room cs ++ (c % 256 ∷ [])
fitting-snoc_fits zero c cs h = absurd (omega arith)
fitting-snoc_fits (suc zero) c [] h = refl
fitting-snoc_fits (suc (suc room)) c [] h = refl
fitting-snoc_fits (suc room) c (x ∷ cs) h =
    ap (◌∷◌ (x % 256)) (fitting-snoc_fits room c cs (omega arith))

fitting-snoc_full :
    (room c : ℕ) (cs : List ℕ) → room ≤ length cs → fitting room (cs ++ (c ∷ [])) ≡ fitting room cs
fitting-snoc_full zero c cs h = refl
fitting-snoc_full (suc room) c [] h = absurd (omega arith)
fitting-snoc_full (suc room) c (x ∷ cs) h =
    ap (◌∷◌ (x % 256)) (fitting-snoc_full room c cs (omega arith))

length-fitting : (room : ℕ) (cs : List ℕ) → length (fitting room cs) ≡ min (length cs) room
length-fitting zero cs = omega arith
length-fitting (suc room) [] = omega arith
length-fitting (suc room) (x ∷ cs) = omega (arith, length-fitting room cs)

nothing_yet : (m : Memory) (p room : ℕ) → Stands m p (fitting room [])
nothing_yet m p zero = tt
nothing_yet m p (suc room) = tt

-- what the buffer holds after the characters `cs`, started at `p` with room for `room` of them
pub record Printed (m : Memory) (p room : ℕ) (cs : List ℕ) (b : SprintBuf) : Type 0 where
  limit : b.ebuf ≡ p + room
  at : b.buf ≡ p + min (length cs) room
  counted : b.cnt ≡ length cs % word
  text : Stands b.mem p (fitting room cs)
  frame : (q : ℕ) → inside q p room ≡ false → b.mem q ≡ m q

module _ (m : Memory) (p room : ℕ) where
  pub Printed-snoc :
      (c : ℕ) (cs : List ℕ) (b : SprintBuf)
      → Printed m p room cs b
      → Printed m p room (cs ++ (c ∷ [])) (sprintputch c b)
  unfolding sprintputch add32
  Printed-snoc c cs b v = elim (Bool-cases (ltb b.buf b.ebuf)) [
    | inl fits ↦
        let l : length cs < room =
          let h : b.buf < b.ebuf = ltb→lt _ _ fits in omega (arith, v.at, v.limit) in
        rw (fits, sprintputch)
          (record {
            limit = v.limit;
            at = omega (arith, v.at, length-append {0} cs (c ∷ []));
            counted = omega (arith, v.counted, length-append {0} cs (c ∷ []));
            text = rw (fitting-snoc_fits room c cs l) (
                Stands-snoc b.mem p b.buf c (fitting room cs) v.text
                  (omega (arith, v.at, length-fitting room cs)));
            frame = λ q out. ground (arith, v.frame q, v.at);
          })
    | inr full ↦
        let l : room ≤ length cs =
          let h : b.ebuf ≤ b.buf = ltb→le _ _ full in omega (arith, v.at, v.limit) in
        rw (full, sprintputch)
          (record {
            limit = v.limit;
            at = omega (arith, v.at, length-append {0} cs (c ∷ []));
            counted = omega (arith, v.counted, length-append {0} cs (c ∷ []));
            text = rw (fitting-snoc_full room c cs l) v.text;
            frame = v.frame;
          })
  ]

-- an empty buffer
pub Printed-start : (m : Memory) (buf n : ℕ) → 0 < n → Printed m buf (n - 1) [] (start m buf n)
Printed-start m buf n pos = record {
  limit = omega arith;
  at = omega arith;
  counted = omega arith;
  text = nothing_yet m buf (n - 1);
  frame = λ q out. refl;
}

-- what a caller of `snprintf` may rely on, when the call ends after the characters `cs`
abbrev pub Leaves : Memory → ℕ → ℕ → List ℕ → Memory × ℕ → Type 0
Leaves m buf n cs r =
    (r.1 ≡ length cs % word)
    × Stands r.0 buf (fitting (n - 1) cs ++ (0 ∷ []))
    × ((q : ℕ) → inside q buf n ≡ false → r.0 q ≡ m q)

pub terminated :
    (m : Memory) (buf n : ℕ) (cs : List ℕ) (b : SprintBuf)
    → 0 < n
    → Printed m buf (n - 1) cs b
    → Leaves m buf n cs (store b.mem b.buf 0, b.cnt)
terminated m buf n cs b pos v = (
  v.counted,
  Stands-snoc b.mem buf b.buf 0 (fitting (n - 1) cs) v.text
      (omega (arith, v.at, length-fitting (n - 1) cs)),
  λ q out. ground (arith, v.frame q, v.at),
)

-- the calls of `sprintputch` for a list of characters
pub Printed-emit :
    (m : Memory) (p room : ℕ) (cs xs : List ℕ) (b : SprintBuf)
    → Printed m p room cs b
    → Printed m p room (cs ++ xs) (emit sprintputch xs b)
Printed-emit m p room cs [] b v = subst (λ l. Printed m p room l b) (sym (append-nil cs)) v
Printed-emit m p room cs (x ∷ xs) b v =
    subst (λ l. Printed m p room l (emit sprintputch xs (sprintputch x b)))
      (append_assoc cs (x ∷ []) xs)
      (Printed-emit m p room (cs ++ (x ∷ [])) xs (sprintputch x b) (Printed-snoc m p room x cs b v))

module _ (string_at : ℕ → List ℕ) (error_address : ℕ → ℕ) where
  -- With a buffer that is not null and a positive size `n` that is not negative as an `int`, `vsnprintf` does
  -- to the buffer what `printfmt` prints: where `printfmt` on the same format and arguments, with a
  -- `putch` that only collects the characters, ends with the characters `cs`, `vsnprintf` ends as well and
  -- returns their number modulo 2 ^ 32, the buffer holds the first `n - 1` of them and a NUL, and no byte
  -- outside the `n` bytes of the buffer has changed. Where the one does not end in a result, nor does
  -- the other; in neither does the fuel run out.
  pub vsnprintf-Bounded :
      (m : Memory) (buf n : ℕ) (fmt ap : List ℕ)
      → buf ≢ 0
      → 0 < n
      → n < half_word
      → (vsnprintf string_at error_address m buf n fmt ap ≢ no_fuel)
        × Both
            (Leaves m buf n)
            (printfmt collect string_at error_address fmt ap [])
            (vsnprintf string_at error_address m buf n fmt ap)
  unfolding vsnprintf
  vsnprintf-Bounded m buf n fmt ap nn pos small =
      let go : (buf == 0 || slt n 1) ≡ false = ground arith in
      rw go (
        bind-ends _ _
            (printfmt-ne-no_fuel sprintputch string_at error_address fmt ap (start m buf n))
            (λ b. finish-ends b),
        then-Both (λ cs b. b ≡ emit sprintputch cs (start m buf n)) (Leaves m buf n)
            (printfmt collect string_at error_address fmt ap [])
            (printfmt sprintputch string_at error_address fmt ap (start m buf n)) finish
            (printfmt-collect sprintputch string_at error_address fmt ap (start m buf n))
            (λ cs b e. terminated m buf n cs b pos (
              rw e (Printed-emit m buf (n - 1) [] cs (start m buf n) (Printed-start m buf n pos)))),
      )
