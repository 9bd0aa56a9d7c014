-- ===== src/Monitor/Dispatch.antt =====
-- runcmd (kern/monitor.c): the first word of the line chooses the command.
use sisop_tps.Prelude.{
  ℕ, ◌+◌, ◌≤◌, ◌<◌, ◌≡◌, ◌≢◌, refl, sym, ap, ◌∙◌, Bool, true, false, ◌&&◌, ◌⊎◌, inl, inr,
  Bool-cases, Option, some, none, List, [], ◌∷◌, ◌==◌, leb, if◌then◌else◌, length, codes, ==→eq,
  arith, ◌↔◌,
}
use sisop_tps.Prelude.Run.{Run, done, ◌>>=◌, Returns-eq, bind_assoc}
use sisop_tps.Memory.{Memory, Holds, Holds-agree}
use mathlib.Core.List.{cons-ne-nil}
use sisop_tps.Strings.Comparing.{IsText, strcmp-Orders}
use sisop_tps.Readline.{Terminal}
use sisop_tps.Monitor.{Handler, Command, lookup, Parsed, parse, Kernel, call, invoke, runcmd}
use sisop_tps.Monitor.Words.{
  first_word-IsText, skip_blank-IsText, no_words, words, first_word, behind_word, skip_blank, Args,
  words-skip_blank, words-first, skip_blank-word, length-skip_blank, length-behind_word,
}
use sisop_tps.Monitor.Splitting.{Split, parse-Split}

-- equality of texts
abbrev pub same_text : List ℕ → List ℕ → Bool
same_text [] [] = true
same_text [] (d ∷ t) = false
same_text (c ∷ s) [] = false
same_text (c ∷ s) (d ∷ t) = c == d && same_text s t

same_text_iff : (s t : List ℕ) → (same_text s t ≡ true) ↔ (s ≡ t)
same_text_iff [] [] = (λ _. refl, λ _. refl)
same_text_iff [] (d ∷ t) = (λ e. cc, λ e. cc)
same_text_iff (c ∷ s) [] = (λ e. cc, λ e. cc)
same_text_iff (c ∷ s) (d ∷ t) = ground (arith, same_text_iff s t)

-- the command of that name
unfoldable pub find : List ℕ → List (List ℕ × Handler) → Option Handler
find w [] = none
find w ((name, h) ∷ rest) = if same_text w name then some h else find w rest

-- The table's strings in memory are these names, and stand outside [lo, hi].
abbrev pub Named : Memory → ℕ → ℕ → List Command → List (List ℕ × Handler) → Type 0
Named m lo hi [] [] = Unit
Named m lo hi [] (n ∷ ns) = ⊥
Named m lo hi (c ∷ cs) [] = ⊥
Named m lo hi (c ∷ cs) ((name, h) ∷ ns) =
    Holds m c.name name
    × IsText name
    × (c.func ≡ h)
    × ((c.name + length name < lo) ⊎ (hi < c.name))
    × Named m lo hi cs ns

-- Changes between `lo` and `hi` leave them.
Named-agree :
    (m m' : Memory) (lo hi : ℕ) (cs : List Command) (names : List (List ℕ × Handler))
    → Named m lo hi cs names
    → ((q : ℕ) → (q < lo) ⊎ (hi < q) → m' q ≡ m q)
    → Named m' lo hi cs names
Named-agree m m' lo hi [] [] n e = tt
Named-agree m m' lo hi [] (x ∷ xs) n e = elim n [ ]
Named-agree m m' lo hi (c ∷ cs) [] n e = elim n [ ]
Named-agree m m' lo hi (c ∷ cs) ((name, h) ∷ ns) n e = (
  Holds-agree m m' c.name name n.0
      (λ q u v. e q (elim n.3 [ inl x ↦ inl (omega arith) | inr x ↦ inr (omega arith) ])),
  n.1,
  n.2,
  n.3,
  Named-agree m m' lo hi cs ns n.4 e,
)

differ : {b : Bool} → b ≢ true → b ≡ false
differ {b = true} h = absurd (h refl)
differ {b = false} h = refl

lookup_lem :
    (fuel : ℕ) (m : Memory) (lo hi p : ℕ) (w : List ℕ) (cs : List Command)
    (names : List (List ℕ × Handler))
    → Named m lo hi cs names
    → Holds m p w
    → IsText w
    → length w < fuel
    → lookup fuel m p cs ≡ done (find w names)
unfolding lookup find
lookup_lem fuel m lo hi p w [] [] n h t l = refl
lookup_lem fuel m lo hi p w [] (x ∷ xs) n h t l = elim n [ ]
lookup_lem fuel m lo hi p w (c ∷ cs) [] n h t l = elim n [ ]
lookup_lem fuel m lo hi p w (c ∷ cs) ((name, f) ∷ ns) n h t l =
    let (r, e, orders) = strcmp-Orders m w name fuel p c.name t n.1 h n.0 l in
    elim (Bool-cases (r == 0)) [
      | inl z ↦
          let same : same_text w name ≡ true =
            (same_text_iff w name).1 (orders.0.0 (==→eq r 0 z)) in
          rw (e, lookup) (rw (z, same, n.2) refl)
      | inr z ↦
          let other : same_text w name ≡ false =
            differ (λ y. ground (arith, z, orders.0.1 ((same_text_iff w name).0 y))) in
          rw (e, lookup) (rw (z, other) (lookup_lem fuel m lo hi p w cs ns n.4 h t l))
    ]

head_word :
    (s w : List ℕ) (ws : List (List ℕ))
    → words s ≡ w ∷ ws
    → IsText s
    → IsText w × (length w ≤ length s)
head_word s w ws e a = go (skip_blank s) refl
  where
    go : (t : List ℕ) → skip_blank s ≡ t → IsText w × (length w ≤ length s)
    go [] q = absurd (cons-ne-nil w ws (sym e ∙ sym (words-skip_blank s) ∙ ap words q ∙ no_words))
    go (c ∷ t) q =
        let same : first_word (c ∷ t) ∷ words (behind_word (c ∷ t)) ≡ w ∷ ws =
          sym (words-first c t (skip_blank-word s c t q))
          ∙ ap words (sym q)
          ∙ words-skip_blank s
          ∙ e in
        let first : first_word (c ∷ t) ≡ w = cc in
        rw (← first) (
          first_word-IsText (c ∷ t) (rw q at (skip_blank-IsText s a)),
          omega (arith, length-skip_blank s, ap length q, length-behind_word (c ∷ t)),
        )

module _ {S : Type 0} (t : Terminal S) (k : Kernel) where
  -- what a command line with these words does
  abbrev pub respond : List (List ℕ × Handler) → List (List ℕ) → List ℕ → S → Run (ℕ × S)
  respond names (w ∷ ws) (arg ∷ args) s = elim (find w names) [
    | some h ↦ call t k h s
    | none ↦ t.cprintf (codes "Unknown command '%s'\n") (arg ∷ []) s >>= λ s'. done (0, s')
  ]
  respond names ws args s = done (0, s)

  -- what follows the parsing loop
  invoke_lem :
      (names : List (List ℕ × Handler)) (fuel lo hi : ℕ) (m : Memory) (argv : List ℕ)
      (ws : List (List ℕ)) (s : S)
      → Named m lo hi k.commands names
      → Args m argv ws hi
      → ((w : List ℕ) (rest : List (List ℕ)) → ws ≡ w ∷ rest → IsText w × (length w < fuel))
      → invoke t k fuel m argv s ≡ respond names ws argv s
  unfolding invoke
  invoke_lem names fuel lo hi m [] [] s n a h = refl
  invoke_lem names fuel lo hi m [] (w ∷ ws) s n a h = elim a [ ]
  invoke_lem names fuel lo hi m (p ∷ ps) [] s n a h = elim a [ ]
  invoke_lem names fuel lo hi m (p ∷ ps) (w ∷ ws) s n a h =
      let (text, short) = h w ws refl in
      rw (lookup_lem fuel m lo hi p w k.commands names n a.0 text short) refl

  -- what runcmd does with a line of these words
  abbrev pub answer : List (List ℕ × Handler) → List (List ℕ) → List ℕ → S → Run (ℕ × S)
  answer names ws argv s =
      if leb (length ws) 15
      then respond names ws argv s
      else (t.cprintf (codes "Too many arguments (max %d)\n") (16 ∷ []) s >>= λ s'. done (0, s'))

  run_parsed :
      (names : List (List ℕ × Handler)) (fuel : ℕ) (m : Memory) (b : ℕ) (line : List ℕ) (s : S)
      (p : Parsed)
      → IsText line
      → Named m b (b + length line) k.commands names
      → length line + 1 < fuel
      → parse fuel fuel m b [] ≡ done p
      → Split m b (b + length line) (words line) p
      → runcmd t k fuel m b s ≡ (answer names (words line) p.argv s >>= λ r. done (p.mem, r.0, r.1))
  unfolding runcmd
  run_parsed names fuel m b line s p text n l e v =
      rw (e, ◌>>=◌)
        (elim v.found [
          | inl (few, ok, args) ↦
              let le : leb (length (words line)) 15 ≡ true = ground arith in
              let named = Named-agree m p.mem b (b + length line) k.commands names n v.frame in
              let first =
                λ (w : List ℕ) (rest : List (List ℕ)) (q : words line ≡ w ∷ rest). small w rest q in
              rw (ok, le)
                (ap (λ o. o >>= λ r. done (p.mem, r.0, r.1))
                  (invoke_lem names fuel b (b + length line) p.mem p.argv (words line) s named args
                    first))
          | inr (many, over) ↦
              let gt : leb (length (words line)) 15 ≡ false = ground arith in
              rw (over, gt)
                (sym
                  (bind_assoc (t.cprintf (codes "Too many arguments (max %d)\n") (16 ∷ []) s) _ _))
        ])
    where
      small :
          (w : List ℕ) (rest : List (List ℕ)) → words line ≡ w ∷ rest → IsText w × (length w < fuel)
      small w rest q = let (a, b) = head_word line w rest q text in (a, omega arith)

  -- runcmd splits the line into its words, with pointers to them in `argv`, and does what the first word
  -- says: the command of that name, an error message if no command has it, nothing on an empty line, and
  -- another message if there are more than 15 words. The commands' names stand outside the line.
  pub runcmd_lem :
      (names : List (List ℕ × Handler)) (fuel : ℕ) (m : Memory) (b : ℕ) (line : List ℕ) (s : S)
      → Holds m b line
      → IsText line
      → Named m b (b + length line) k.commands names
      → length line + 1 < fuel
      → (p : Parsed) × Split m b (b + length line) (words line) p
        × (runcmd t k fuel m b s
            ≡ (answer names (words line) p.argv s >>= λ r. done (p.mem, r.0, r.1)))
  runcmd_lem names fuel m b line s h text n l =
      let (p, e, v) = Returns-eq (parse fuel fuel m b []) _ (parse-Split fuel m b line h l) in
      (p, v, run_parsed names fuel m b line s p text n l e v)
