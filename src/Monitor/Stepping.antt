-- ===== src/Monitor/Stepping.antt =====
-- The two loops inside the parsing loop of runcmd (kern/monitor.c): over blanks, and over a word.
use sisop_tps.Prelude.{
  ℕ, zero, suc, ◌+◌, ◌≤◌, ◌<◌, ◌≡◌, refl, ◌∙◌, true, false, ◌&&◌, not, inl, inr, Bool-cases, List,
  [], ◌∷◌, ◌==◌, ltb, leb, if◌then◌else◌, length, arith,
}
use sisop_tps.Prelude.Run.{done, Returns, map-Returns}
use sisop_tps.Memory.{Memory, Holds, Holds-agree, store}
use sisop_tps.Monitor.{blank, gobble, scan_past}
use sisop_tps.Monitor.Words.{first_word, skip_blank}

-- after the blanks from `b` on: the rest of the line stands at `r.1`, and all from `b` to it is NUL
pub record Gobbled (m : Memory) (b : ℕ) (s : List ℕ) (r : Memory × ℕ) : Type 0 where
  pub rest : Holds r.0 r.1 (skip_blank s)
  pub from : b ≤ r.1
  pub ends : r.1 + length (skip_blank s) ≡ b + length s
  pub cleared : (q : ℕ) → r.0 q ≡ (if leb b q && ltb q r.1 then 0 else m q)

gobble_on :
    (f : ℕ) (m : Memory) (b : ℕ)
    → (not (m b == 0) && blank (m b)) ≡ true
    → gobble (suc f) m b ≡ gobble f (store m b 0) (b + 1)
unfolding gobble
gobble_on f m b h = rw (h, gobble) refl

gobble_stop :
    (f : ℕ) (m : Memory) (b : ℕ)
    → (not (m b == 0) && blank (m b)) ≡ false
    → gobble (suc f) m b ≡ done (m, b)
unfolding gobble
gobble_stop f m b h = rw (h, gobble) refl

pub gobble_lem :
    (s : List ℕ) (fuel : ℕ) (m : Memory) (b : ℕ)
    → Holds m b s
    → length s < fuel
    → Returns (gobble fuel m b) (Gobbled m b s)
unfolding skip_blank
gobble_lem s zero m b h l = absurd (omega arith)
gobble_lem [] (suc f) m b h l =
    rw (gobble_stop f m b (ground arith))
      (record { rest = h; from = omega arith; ends = refl; cleared = λ q. ground arith })
gobble_lem (c ∷ s) (suc f) m b h l = elim (Bool-cases (blank c)) [
  | inl t ↦
      let on : Holds (store m b 0) (b + 1) s =
        Holds-agree m (store m b 0) (b + 1) s h.2 (λ a u v. ground arith) in
      rw (gobble_on f m b (ground (arith, h.0, t))) (
        map-Returns _ _ (Gobbled m b (c ∷ s))
          (gobble_lem s f (store m b 0) (b + 1) on (omega arith))
          (λ r g. record {
            rest = rw t g.rest;
            from = omega (arith, g.from);
            ends = rw t (omega (arith, g.ends));
            cleared = λ q. g.cleared q ∙ ground (arith, g.from);
          }))
  | inr t ↦
      rw (gobble_stop f m b (ground (arith, h.0, t))) (record {
        rest = rw t h;
        from = omega arith;
        ends = rw t refl;
        cleared = λ q. ground arith;
      })
]

pub scan_past_lem :
    (s : List ℕ) (fuel : ℕ) (m : Memory) (b : ℕ)
    → Holds m b s
    → length s < fuel
    → scan_past fuel m b ≡ done (b + length (first_word s))
unfolding scan_past first_word
scan_past_lem s zero m b h l = absurd (omega arith)
scan_past_lem [] (suc f) m b h l = ground arith
scan_past_lem (c ∷ s) (suc f) m b h l = elim (Bool-cases (blank c)) [
  | inl t ↦ ground (arith, h.0, t)
  | inr t ↦ ground (arith, h.0, t, scan_past_lem s f m (b + 1) h.2)
]
