-- ===== src/Monitor/Words.antt =====
-- The words of a command line, and how they stand in memory behind `argv` (kern/monitor.c).
use sisop_tps.Prelude.{
  ℕ, suc, ◌+◌, ◌≤◌, ◌<◌, ◌≡◌, refl, ap, Bool, false, not, ◌⊎◌, inl, inr, Bool-cases, List, [], ◌∷◌,
  ◌++◌, if◌then◌else◌, length, arith,
}
use sisop_tps.Strings.Comparing.{IsText}
use sisop_tps.Memory.{Memory, Holds, Holds-agree, store}
use sisop_tps.Monitor.{blank}

-- The line begins with a character of a word.
abbrev pub starts_word : List ℕ → Bool
starts_word [] = false
starts_word (c ∷ s) = not (blank c)

-- a character in front of the first word
abbrev pub extend : ℕ → List (List ℕ) → List (List ℕ)
extend c [] = (c ∷ []) ∷ []
extend c (w ∷ ws) = (c ∷ w) ∷ ws

-- the words of a line: the longest runs of characters that are not blank
unfoldable pub words : List ℕ → List (List ℕ)
words [] = []
words (c ∷ s) =
    if blank c then words s else if starts_word s then extend c (words s) else (c ∷ []) ∷ words s

-- what stands before and behind the first blank
unfoldable pub first_word : List ℕ → List ℕ
first_word [] = []
first_word (c ∷ s) = if blank c then [] else c ∷ first_word s

unfoldable pub behind_word : List ℕ → List ℕ
behind_word [] = []
behind_word (c ∷ s) = if blank c then c ∷ s else behind_word s

unfoldable pub skip_blank : List ℕ → List ℕ
skip_blank [] = []
skip_blank (c ∷ s) = if blank c then skip_blank s else c ∷ s

pub words-skip_blank : (s : List ℕ) → words (skip_blank s) ≡ words s
unfolding words skip_blank
words-skip_blank [] = refl
words-skip_blank (c ∷ s) = ground (arith, words-skip_blank s)

-- A line that begins with a word is that word and then the others.
pub words-first :
    (c : ℕ) (s : List ℕ)
    → blank c ≡ false
    → words (c ∷ s) ≡ first_word (c ∷ s) ∷ words (behind_word (c ∷ s))
unfolding words first_word behind_word
words-first c [] h = ground arith
words-first c (d ∷ s) h = ground (arith, words-first d s)

-- Each pointer leads to its word, and the words end below `limit`.
abbrev pub Args : Memory → List ℕ → List (List ℕ) → ℕ → Type 0
Args m [] [] limit = Unit
Args m [] (w ∷ ws) limit = ⊥
Args m (p ∷ ps) [] limit = ⊥
Args m (p ∷ ps) (w ∷ ws) limit = Holds m p w × (p + length w ≤ limit) × Args m ps ws limit

-- The pointers and the words are as many.
pub Args-length :
    (m : Memory) (ps : List ℕ) (ws : List (List ℕ)) (limit : ℕ)
    → Args m ps ws limit
    → length ps ≡ length ws
Args-length m [] [] limit a = refl
Args-length m [] (w ∷ ws) limit a = elim a [ ]
Args-length m (p ∷ ps) [] limit a = elim a [ ]
Args-length m (p ∷ ps) (w ∷ ws) limit a = ap suc (Args-length m ps ws limit a.2)

-- What stands below the limit is all that counts.
pub Args-agree :
    (m m' : Memory) (ps : List ℕ) (ws : List (List ℕ)) (limit limit' : ℕ)
    → Args m ps ws limit
    → limit ≤ limit'
    → ((q : ℕ) → q ≤ limit → m' q ≡ m q)
    → Args m' ps ws limit'
Args-agree m m' [] [] limit limit' a l e = tt
Args-agree m m' [] (w ∷ ws) limit limit' a l e = elim a [ ]
Args-agree m m' (p ∷ ps) [] limit limit' a l e = elim a [ ]
Args-agree m m' (p ∷ ps) (w ∷ ws) limit limit' a l e = (
  Holds-agree m m' p w a.0 (λ q from to. e q (omega (arith, a.1))),
  omega (arith, a.1),
  Args-agree m m' ps ws limit limit' a.2 l e,
)

pub Args-snoc :
    (m : Memory) (ps : List ℕ) (ws : List (List ℕ)) (p : ℕ) (w : List ℕ) (limit : ℕ)
    → Args m ps ws limit
    → Holds m p w
    → p + length w ≤ limit
    → Args m (ps ++ (p ∷ [])) (ws ++ (w ∷ [])) limit
Args-snoc m [] [] p w limit a h l = (h, l, tt)
Args-snoc m [] (v ∷ ws) p w limit a h l = elim a [ ]
Args-snoc m (q ∷ ps) [] p w limit a h l = elim a [ ]
Args-snoc m (q ∷ ps) (v ∷ ws) p w limit a h l = (a.0, a.1, Args-snoc m ps ws p w limit a.2 h l)

-- The first word stands where the line does once its end is cut off.
pub Holds-first_word :
    (m : Memory) (s : List ℕ) (p : ℕ)
    → Holds m p s
    → Holds (store m (p + length (first_word s)) 0) p (first_word s)
unfolding first_word
Holds-first_word m s p h = cut m s p (p + length (first_word s)) h refl
  where
    cut :
        (m : Memory) (s : List ℕ) (p e : ℕ)
        → Holds m p s
        → e ≡ p + length (first_word s)
        → Holds (store m e 0) p (first_word s)
    cut m [] p e h q = ground arith
    cut m (c ∷ s) p e h q = elim (Bool-cases (blank c)) [
      | inl b ↦ rw b (ground (arith, b))
      | inr b ↦
          let step : e ≡ p + 1 + length (first_word s) = ground (arith, b) in
          rw b (ground (arith, b), h.1, cut m s (p + 1) e h.2 step)
    ]

pub Holds-behind_word :
    (m : Memory) (s : List ℕ) (p : ℕ)
    → Holds m p s
    → Holds m (p + length (first_word s)) (behind_word s)
unfolding first_word behind_word
Holds-behind_word m [] p h = ground arith
Holds-behind_word m (c ∷ s) p h = elim (Bool-cases (blank c)) [
  | inl b ↦ let z : p + 0 ≡ p = omega arith in rw (b, z) h
  | inr b ↦
      let z : p + suc (length (first_word s)) ≡ p + 1 + length (first_word s) = omega arith in
      rw (b, z) (Holds-behind_word m s (p + 1) h.2)
]

pub length-behind_word : (s : List ℕ) → length (first_word s) + length (behind_word s) ≡ length s
unfolding first_word behind_word
length-behind_word [] = refl
length-behind_word (c ∷ s) = ground (arith, length-behind_word s)

-- What is left behind a word begins with a blank, or is nothing.
pub behind_word-blank : (s : List ℕ) → starts_word (behind_word s) ≡ false
unfolding behind_word
behind_word-blank [] = refl
behind_word-blank (c ∷ s) = ground (arith, behind_word-blank s)

-- Once the blanks are skipped there is a word, or nothing.
pub skip_blank-word : (s : List ℕ) (c : ℕ) (t : List ℕ) → skip_blank s ≡ c ∷ t → blank c ≡ false
unfolding skip_blank
skip_blank-word [] c t e = cc
skip_blank-word (d ∷ s) c t e = elim (Bool-cases (blank d)) [
  | inl b ↦ skip_blank-word s c t (rw b at e)
  | inr b ↦ ground (arith, b)
]

pub length-skip_blank : (s : List ℕ) → length (skip_blank s) ≤ length s
unfolding skip_blank
length-skip_blank [] = omega arith
length-skip_blank (c ∷ s) = ground (arith, length-skip_blank s)

-- A line that begins with a blank gets shorter.
pub skip_blank-lt :
    (s : List ℕ) → starts_word s ≡ false → (s ≡ []) ⊎ (length (skip_blank s) < length s)
unfolding skip_blank
skip_blank-lt [] h = inl refl
skip_blank-lt (c ∷ s) h = inr (ground (arith, length-skip_blank s))

-- The first word is a part of the line.
pub first_word-IsText : (s : List ℕ) → IsText s → IsText (first_word s)
unfolding first_word
first_word-IsText [] a = tt
first_word-IsText (c ∷ s) a = elim (Bool-cases (blank c)) [
  | inl e ↦ rw e tt
  | inr e ↦ rw e (a.0, first_word-IsText s a.1)
]

pub skip_blank-IsText : (s : List ℕ) → IsText s → IsText (skip_blank s)
unfolding skip_blank
skip_blank-IsText [] a = tt
skip_blank-IsText (c ∷ s) a = elim (Bool-cases (blank c)) [
  | inl e ↦ rw e (skip_blank-IsText s a.1)
  | inr e ↦ rw e a
]

pub no_words : words [] ≡ []
unfolding words
no_words = refl
