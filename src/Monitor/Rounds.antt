-- ===== src/Monitor/Rounds.antt =====
-- One round of the parsing loop of runcmd (kern/monitor.c): what is found so far, and the next word.
use sisop_tps.Prelude.{
  ℕ, suc, ◌+◌, ◌≤◌, ◌<◌, ◌≡◌, ◌≢◌, refl, true, false, ◌⊎◌, inl, inr, List, [], ◌∷◌, ◌++◌, ◌==◌,
  length, length-append, arith,
}
use sisop_tps.Prelude.Run.{done, ◌>>=◌}
use sisop_tps.Memory.{Memory, Holds, store}
use sisop_tps.Monitor.{blank, gobble, scan_past, parse}
use sisop_tps.Monitor.Words.{
  first_word, behind_word, skip_blank, starts_word, Args, Args-agree, Args-snoc, Holds-first_word,
  Holds-behind_word, behind_word-blank, skip_blank-word, skip_blank-lt,
}
use sisop_tps.Monitor.Stepping.{Gobbled}

some_word : (c : ℕ) (t : List ℕ) → blank c ≡ false → 0 < length (first_word (c ∷ t))
unfolding first_word
some_word c t h = ground (arith, h)

-- The words found so far, and what is left of the line.
pub record Progress (m : Memory) (b : ℕ) (s : List ℕ) (argv : List ℕ) (ws : List (List ℕ))
    : Type 0 where
  pub line : Holds m b s
  pub args : Args (store m b 0) argv ws b
  pub apart : (starts_word s ≡ false) ⊎ ((argv ≡ []) × (ws ≡ []))
  pub room : length ws ≤ 15

module _ (f fuel : ℕ) (m : Memory) (b : ℕ) (argv : List ℕ) (r : Memory × ℕ)
    (g : gobble fuel m b ≡ done r) where
  pub parse_done :
      r.0 r.1 ≡ 0
      → parse (suc f) fuel m b argv ≡ done (record { mem = r.0; argv = argv; too_many = false })
  unfolding parse
  parse_done z = let t : (r.0 r.1 == 0) ≡ true = ground arith in rw (g, ◌>>=◌) (rw (t) refl)

  pub parse_full :
      r.0 r.1 ≢ 0
      → length argv ≡ 15
      → parse (suc f) fuel m b argv ≡ done (record { mem = r.0; argv = argv; too_many = true })
  unfolding parse
  parse_full z n =
      let t : (r.0 r.1 == 0) ≡ false = ground arith in
      let u : (length argv == 15) ≡ true = ground arith in rw (g, ◌>>=◌) (rw (t, u) refl)

  pub parse_next :
      (end : ℕ)
      → r.0 r.1 ≢ 0
      → length argv ≢ 15
      → scan_past fuel r.0 r.1 ≡ done end
      → parse (suc f) fuel m b argv ≡ parse f fuel r.0 end (argv ++ (r.1 ∷ []))
  unfolding parse
  parse_next end z n e =
      let t : (r.0 r.1 == 0) ≡ false = ground arith in
      let u : (length argv == 15) ≡ false = ground arith in rw (g, ◌>>=◌) (rw (t, u, e) refl)

module _ (m : Memory) (b : ℕ) (s argv : List ℕ) (ws : List (List ℕ)) (v : Progress m b s argv ws)
    (r : Memory × ℕ) (g : Gobbled m b s r) where
  -- The words found so far stand in any memory that agrees up to the blanks.
  pub kept : (m' : Memory) → ((q : ℕ) → q ≤ b → m' q ≡ r.0 q) → Args m' argv ws r.1
  kept m' e = elim v.apart [
    | inr (none_yet, no_words) ↦ rw (none_yet, no_words) tt
    | inl separate ↦ Args-agree (store m b 0) m' argv ws b r.1 v.args g.from (agree separate)
  ]
    where
      agree : starts_word s ≡ false → (q : ℕ) → q ≤ b → m' q ≡ store m b 0 q
      agree separate q l = elim (skip_blank-lt s separate) [
        | inl nothing ↦ ground (arith, e q l, g.cleared q, rw nothing at (v.line))
        | inr less ↦ ground (arith, e q l, g.cleared q, g.ends)
      ]

  -- A word follows the blanks: it is the next argument.
  pub next_word :
      (c : ℕ) (t : List ℕ)
      → skip_blank s ≡ c ∷ t
      → length ws ≢ 15
      → Progress r.0
          (r.1 + length (first_word (c ∷ t)))
          (behind_word (c ∷ t))
          (argv ++ (r.1 ∷ []))
          (ws ++ (first_word (c ∷ t) ∷ []))
  next_word c t e n = record {
    line = Holds-behind_word r.0 (c ∷ t) r.1 (rw e at (g.rest));
    args =
        let end = r.1 + length (first_word (c ∷ t)) in
        Args-snoc (store r.0 end 0) argv ws r.1 (first_word (c ∷ t)) end
          (Args-agree (store r.0 end 0) (store r.0 end 0) argv ws r.1 end
            (kept (store r.0 end 0)
              (λ q l. ground (arith, some_word c t (skip_blank-word s c t e), g.from)))
            (omega arith) (λ q l. refl))
          (Holds-first_word r.0 (c ∷ t) r.1 (rw e at (g.rest))) (omega arith);
    apart = inl (behind_word-blank (c ∷ t));
    room = omega (arith, v.room, length-append ws (first_word (c ∷ t) ∷ []));
  }
