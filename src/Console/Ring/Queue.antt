-- ===== src/Console/Ring/Queue.antt =====
-- kern/console.c: the ring `cons` against a queue of bytes, a list with its oldest element first.
use sisop_tps.Prelude.{
  ℕ, suc, ◌+◌, ◌%◌, ◌<◌, ◌≡◌, ◌≢◌, refl, sym, ap, ap₂, ◌∙◌, true, false, inl, inr, List, [], ◌∷◌,
  ◌++◌, ◌==◌, if◌then◌else◌, length, get_or, set, Bool-cases, length-append, length-set,
  get_or-set_self, get_or-set_ne, get_or-snoc_inner, get_or-snoc_last, arith,
}
use sisop_tps.Console.{Machine}
use sisop_tps.Console.Ring.{cons_store, cons_take, consbufsize, advance}

-- `0` is no character
abbrev pub enqueue : ℕ → List ℕ → List ℕ
enqueue c q = if c == 0 then q else q ++ (c % 256 ∷ [])

abbrev pub dequeue : List ℕ → ℕ × List ℕ
dequeue [] = (0, [])
dequeue (c ∷ q) = (c, q)

advance_lem : (pos : ℕ) → pos < 512 → advance pos ≡ (pos + 1) % 512
advance_lem pos h = elim (Bool-cases (pos + 1 == 512)) [
  | inl t ↦ rw t (ground (arith, t))
  | inr t ↦ rw t (ground (arith, t))
]

module _ {W : Type 0} where
  -- the unread part of the ring, from `rpos` round to `wpos`, is `q`
  unfoldable pub Represents : Machine W → List ℕ → Type 0
  Represents m q =
      (length m.buf ≡ consbufsize)
      × (m.rpos < consbufsize)
      × (length q < consbufsize)
      × (m.wpos ≡ (m.rpos + length q) % 512)
      × ((i : ℕ) → i < length q → get_or m.buf ((m.rpos + i) % 512) 0 ≡ get_or q i 0)

  pub cons_store-Represents :
      (c : ℕ) (m : Machine W) (q : List ℕ)
      → length q < 511
      → Represents m q
      → Represents (cons_store c m) (enqueue c q)
  unfolding Represents cons_store
  cons_store-Represents c m q room (l, r, s, w, e) = elim (Bool-cases (c == 0)) [
    | inl t ↦ rw (t, cons_store) (l, r, s, w, e)
    | inr t ↦
        rw (t, cons_store)
          (
            length-set m.buf _ _ ∙ l,
            r,
            omega (arith, length-append q (c % 256 ∷ [])),
            advance_lem m.wpos (omega arith) ∙ omega (arith, length-append q (c % 256 ∷ [])),
            λ i h. elim (Bool-cases (i == length q)) [
              | inl u ↦
                  let at_end : i ≡ length q = ground (arith, u) in
                  let here : (m.rpos + i) % 512 ≡ m.wpos = omega arith in
                  ap (λ p. get_or (set m.buf m.wpos (c % 256)) p 0) here
                  ∙ get_or-set_self m.buf m.wpos (c % 256) 0 (omega arith)
                  ∙ sym (get_or-snoc_last q (c % 256) 0)
                  ∙ ap (λ j. get_or (q ++ (c % 256 ∷ [])) j 0) (sym at_end)
              | inr u ↦
                  let inner : i < length q = ground (arith, u, length-append q (c % 256 ∷ [])) in
                  get_or-set_ne m.buf (c % 256) 0 (λ same. omega arith)
                  ∙ e i inner
                  ∙ sym (get_or-snoc_inner q (c % 256) 0 i inner)
            ],
          )
  ]

  cons_take-none : (m : Machine W) → m.rpos ≡ m.wpos → cons_take m ≡ (0, m)
  unfolding cons_take
  cons_take-none m h =
      let t : (m.rpos == m.wpos) ≡ true = ground (arith, h) in rw (t, cons_take) refl

  cons_take-some :
      (m : Machine W)
      → m.rpos ≢ m.wpos
      → cons_take m ≡ (get_or m.buf m.rpos 0, record m { rpos = advance m.rpos })
  unfolding cons_take
  cons_take-some m h =
      let t : (m.rpos == m.wpos) ≡ false = ground (arith, h) in rw (t, cons_take) refl

  pub cons_take-Represents :
      (m : Machine W) (q : List ℕ)
      → Represents m q
      → ((cons_take m).0 ≡ (dequeue q).0) × Represents (cons_take m).1 (dequeue q).1
  unfolding Represents
  cons_take-Represents m [] (l, r, s, w, e) =
      rw (cons_take-none m (omega arith)) (refl, (l, r, s, w, e))
  cons_take-Represents m (c ∷ q) (l, r, s, w, e) =
      let next : advance m.rpos ≡ (m.rpos + 1) % 512 = advance_lem m.rpos r in
      rw (cons_take-some m (λ same. omega arith)) (
        ap (λ p. get_or m.buf p 0) (omega arith) ∙ e 0 (omega arith),
        (
          l,
          omega arith,
          omega arith,
          omega arith,
          λ i h. ap (λ p. get_or m.buf p 0) (omega arith) ∙ e (suc i) (omega arith),
        ),
      )

  -- With 511 bytes unread, one more makes the ring look empty.
  pub cons_store-full :
      (c : ℕ) (m : Machine W) (q : List ℕ)
      → c ≢ 0
      → Represents m q
      → length q ≡ 511
      → cons_take (cons_store c m) ≡ (0, cons_store c m)
  unfolding Represents cons_store
  cons_store-full c m q h (l, r, s, w, e) n =
      let t : (c == 0) ≡ false = ground (arith, h) in
      cons_take-none (cons_store c m)
        (rw (t, cons_store) (omega arith ∙ sym (advance_lem m.wpos (omega arith))))

-- what the two ends of the ring do, in the order they do it
pub data RingOp : Type 0 where
  store : ℕ → RingOp
  take : RingOp

-- the bytes that the takes return, in order
unfoldable pub answers : {W : Type 0} → List RingOp → Machine W → List ℕ
answers [] m = []
answers (store c ∷ ops) m = answers ops (cons_store c m)
answers (take ∷ ops) m = (cons_take m).0 ∷ answers ops (cons_take m).1

unfoldable pub queue_answers : List RingOp → List ℕ → List ℕ
queue_answers [] q = []
queue_answers (store c ∷ ops) q = queue_answers ops (enqueue c q)
queue_answers (take ∷ ops) q = (dequeue q).0 ∷ queue_answers ops (dequeue q).1

-- no store finds 511 bytes unread
unfoldable pub Fits : List RingOp → List ℕ → Type 0
Fits [] q = Unit
Fits (store c ∷ ops) q = (length q < 511) × Fits ops (enqueue c q)
Fits (take ∷ ops) q = Fits ops (dequeue q).1

-- Whatever the order in which interrupts store and readers take, the readers get what a queue would give
-- them, as long as no store finds 511 bytes unread.
pub answers_lem :
    {W : Type 0} (ops : List RingOp) (m : Machine W) (q : List ℕ)
    → Represents m q
    → Fits ops q
    → answers ops m ≡ queue_answers ops q
unfolding answers queue_answers Fits
answers_lem [] m q r f = refl
answers_lem (store c ∷ ops) m q r f =
    answers_lem ops (cons_store c m) (enqueue c q) (cons_store-Represents c m q f.0 r) f.1
answers_lem (take ∷ ops) m q r f =
    let (same, r₁) = cons_take-Represents m q r in
    ap₂ (λ a rest. a ∷ rest) same (answers_lem ops (cons_take m).1 (dequeue q).1 r₁ f)
