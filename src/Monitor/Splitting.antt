-- ===== src/Monitor/Splitting.antt =====
-- The parsing loop of runcmd (kern/monitor.c) finds the words of the line.
use sisop_tps.Prelude.{
  ℕ, zero, suc, ◌+◌, ◌≤◌, ◌<◌, ◌≡◌, ◌≢◌, refl, sym, ap, ◌∙◌, true, false, ◌⊎◌, inl, inr, List, [],
  ◌∷◌, ◌++◌, length, length-append, append-nil, append_assoc, arith,
}
use sisop_tps.Prelude.Run.{done, Returns, map-Returns, Returns-eq}
use native.Mathlib.Decide.{ℕ_discrete}
use sisop_tps.Memory.{Memory, Holds}
use sisop_tps.Monitor.{gobble, Parsed, parse}
use sisop_tps.Monitor.Words.{
  no_words, words, extend, first_word, behind_word, skip_blank, Args, words-skip_blank, words-first,
  Args-length, Args-agree, length-behind_word, skip_blank-word, length-skip_blank,
}
use sisop_tps.Monitor.Stepping.{Gobbled, gobble_lem, scan_past_lem}
use sisop_tps.Monitor.Rounds.{Progress, parse_done, parse_full, parse_next, kept, next_word}

-- The loop has found the words `ws`, or more than there is room for, and has changed no cell outside
-- [lo, hi].
pub record Split (m : Memory) (lo hi : ℕ) (ws : List (List ℕ)) (p : Parsed) : Type 0 where
  pub found :
      ((length ws ≤ 15) × (p.too_many ≡ false) × Args p.mem p.argv ws hi)
      ⊎ ((15 < length ws) × (p.too_many ≡ true))
  pub frame : (q : ℕ) → (q < lo) ⊎ (hi < q) → p.mem q ≡ m q

-- The loop from one word on, given what it does from the next.
module _ (f fuel : ℕ)
    (ih : (m : Memory) (b : ℕ) (s argv : List ℕ) (ws : List (List ℕ))
      → Progress m b s argv ws
      → length (words s) < f
      → length s < fuel
      → Returns (parse f fuel m b argv) (Split m b (b + length s) (ws ++ words s)))
    (m : Memory) (b : ℕ) (s argv : List ℕ) (ws : List (List ℕ)) (v : Progress m b s argv ws)
    (r : Memory × ℕ) (e : gobble fuel m b ≡ done r) (g : Gobbled m b s r) where
  parse_end :
      skip_blank s ≡ []
      → Returns (parse (suc f) fuel m b argv) (Split m b (b + length s) (ws ++ words s))
  parse_end q =
      let nothing : words s ≡ [] = sym (words-skip_blank s) ∙ ap words q ∙ no_words in
      rw (nothing, append-nil, parse_done f fuel m b argv r e (rw q at (g.rest)))
        (record {
          found = inl (
            v.room,
            refl,
            Args-agree r.0 r.0 argv ws r.1 (b + length s)
                (kept m b s argv ws v r g r.0 (λ q l. refl)) (omega (arith, g.ends)) (λ q l. refl),
          );
          frame = λ q out. g.cleared q ∙ ground (arith, g.ends);
        })

  parse_word :
      (c : ℕ) (t : List ℕ)
      → skip_blank s ≡ c ∷ t
      → length (words s) < suc f
      → length s < fuel
      → Returns (parse (suc f) fuel m b argv) (Split m b (b + length s) (ws ++ words s))
  parse_word c t q k l = elim (ℕ_discrete (length ws) 15) [
    | yes full ↦ rw (parse_full f fuel m b argv r e seen (args_length ∙ full)) (record {
      found = inr (omega (arith, length-append ws (words s), ap length split), refl);
      frame = λ q out. g.cleared q ∙ ground (arith, g.ends);
    })
    | no more ↦
        rw
          (parse_next f fuel m b argv r e end seen (λ n. more (sym args_length ∙ n))
            (scan_past_lem (c ∷ t) fuel r.0 r.1 (rw q at (g.rest)) (omega (arith, shorter))))
          (map-Returns (parse f fuel r.0 end (argv ++ (r.1 ∷ []))) _
            (Split m b (b + length s) (ws ++ words s))
            (ih r.0 end (behind_word (c ∷ t)) (argv ++ (r.1 ∷ [])) (ws ++ (first_word (c ∷ t) ∷ []))
              (next_word m b s argv ws v r g c t q more) (omega (arith, ap length split))
              (omega (arith, shorter, length-behind_word (c ∷ t))))
            widen)
  ]
    where
      end : ℕ
      end = r.1 + length (first_word (c ∷ t))

      seen : r.0 r.1 ≢ 0
      seen = λ z. (rw q at (g.rest)).1 (sym (rw q at (g.rest)).0 ∙ z)

      args_length : length argv ≡ length ws
      args_length = Args-length r.0 argv ws r.1 (kept m b s argv ws v r g r.0 (λ q l. refl))

      split : words s ≡ first_word (c ∷ t) ∷ words (behind_word (c ∷ t))
      split = sym (words-skip_blank s) ∙ ap words q ∙ words-first c t (skip_blank-word s c t q)

      shorter : length (c ∷ t) ≤ length s
      shorter = omega (arith, length-skip_blank s, ap length q)

      widen :
          (p : Parsed)
          → Split r.0 end
              (end + length (behind_word (c ∷ t)))
              ((ws ++ (first_word (c ∷ t) ∷ [])) ++ words (behind_word (c ∷ t)))
              p
          → Split m b (b + length s) (ws ++ words s) p
      widen p z =
          let longer = length-behind_word (c ∷ t) in
          let hi : end + length (behind_word (c ∷ t)) ≡ b + length s =
            omega (arith, g.ends, ap length q) in
          record {
            found =
                rw
                  (
                    split,
                    ← append_assoc ws (first_word (c ∷ t) ∷ []) (words (behind_word (c ∷ t))),
                    ← hi,
                  )
                  z.found;
            frame =
                λ x out. z.frame x (omega (arith, g.from)) ∙ g.cleared x ∙ ground (arith, g.ends);
          }

length-extend : (c : ℕ) (ws : List (List ℕ)) → length (extend c ws) ≤ length ws + 1
length-extend c [] = omega arith
length-extend c (w ∷ ws) = omega arith

length-words : (s : List ℕ) → length (words s) ≤ length s
unfolding words
length-words [] = omega arith
length-words (c ∷ s) = ground (arith, length-words s, length-extend c (words s))

parse_lem :
    (f fuel : ℕ) (m : Memory) (b : ℕ) (s argv : List ℕ) (ws : List (List ℕ))
    → Progress m b s argv ws
    → length (words s) < f
    → length s < fuel
    → Returns (parse f fuel m b argv) (Split m b (b + length s) (ws ++ words s))
parse_lem zero fuel m b s argv ws v k l = absurd (omega arith)
parse_lem (suc f) fuel m b s argv ws v k l =
    let (r, e, g) = Returns-eq (gobble fuel m b) (Gobbled m b s) (gobble_lem s fuel m b v.line l) in
    from (parse_lem f fuel) r e g (skip_blank s) refl
  where
    from :
        ((m : Memory) (b : ℕ) (s argv : List ℕ) (ws : List (List ℕ))
          → Progress m b s argv ws
          → length (words s) < f
          → length s < fuel
          → Returns (parse f fuel m b argv) (Split m b (b + length s) (ws ++ words s)))
        → (r : Memory × ℕ) → gobble fuel m b ≡ done r
        → Gobbled m b s r
        → (t : List ℕ) → skip_blank s ≡ t
        → Returns (parse (suc f) fuel m b argv) (Split m b (b + length s) (ws ++ words s))
    from ih r e g [] q = parse_end f fuel ih m b s argv ws v r e g q
    from ih r e g (c ∷ t) q = parse_word f fuel ih m b s argv ws v r e g c t q k l

-- The parsing loop of runcmd on a line in memory, with fuel for its length: if the line has at most 15 words
-- `argv` holds a pointer to each of them, in order and terminated, and otherwise the loop gives up. Only
-- cells of the line change.
pub parse-Split :
    (fuel : ℕ) (m : Memory) (b : ℕ) (s : List ℕ)
    → Holds m b s
    → length s + 1 < fuel
    → Returns (parse fuel fuel m b []) (Split m b (b + length s) (words s))
parse-Split fuel m b s h l =
    parse_lem fuel fuel m b s [] []
      (record { line = h; args = tt; apart = inr (refl, refl); room = omega arith })
      (omega (arith, length-words s)) (omega arith)
