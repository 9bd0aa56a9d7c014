-- ===== src/Monitor/Typed.antt =====
-- A line that readline has left in the buffer, as a string in memory (kern/monitor.c).
use sisop_tps.Prelude.{
  ℕ, zero, suc, ◌+◌, ◌%◌, ◌≤◌, ◌<◌, ◌≡◌, ◌≢◌, refl, ap, ◌∙◌, true, false, inl, inr, ◌⊎◌, ◌&&◌, ◌||◌,
  ◌==◌, ltb, leb, Bool-cases, List, [], ◌∷◌, ◌++◌, foldl, All, length, get_or, drop_last, arith,
}
use sisop_tps.Memory.{Memory, Holds, Holds-agree, inside}
use sisop_tps.Strings.Comparing.{IsText}
use sisop_tps.Readline.{buflen}
use sisop_tps.Readline.Editing.{Entered, edit}
use sisop_tps.Monitor.{Command, Handler, put_line, take_line}
use sisop_tps.Monitor.Dispatch.{Named}

pub length-take_line : (m : Memory) (a n : ℕ) → length (take_line m a n) ≡ n
length-take_line m a zero = refl
length-take_line m a (suc n) = ap suc (length-take_line m (a + 1) n)

Holds-cells :
    (m : Memory) (p : ℕ) (cs : List ℕ)
    → IsText cs
    → ((i : ℕ) → i < length cs → m (p + i) ≡ get_or cs i 0)
    → m (p + length cs) ≡ 0
    → Holds m p cs
Holds-cells m p [] text at end = ap m (omega arith) ∙ end
Holds-cells m p (c ∷ cs) text at end = (
  ap m (omega arith) ∙ at 0 (omega arith),
  text.0.0,
  Holds-cells m (p + 1) cs text.1 (λ i l. ap m (omega arith) ∙ at (suc i) (omega arith))
      (ap m (omega arith) ∙ end),
)

put_line-at :
    (m : Memory) (b i : ℕ) (bytes : List ℕ)
    → i < length bytes
    → put_line m b bytes (b + i) ≡ get_or bytes i 0
put_line-at m b i bytes l =
    let here : inside (b + i) b (length bytes) ≡ true = ground arith in
    rw here (ap (λ j. get_or bytes j 0) (omega arith))

-- The text of an entered line stands at the start of the buffer.
pub put_line-Holds :
    (m : Memory) (b : ℕ) (bytes text : List ℕ)
    → Entered bytes text
    → IsText text
    → Holds (put_line m b bytes) b text
put_line-Holds m b bytes text v ok =
    Holds-cells (put_line m b bytes) b text ok
      (λ i l.
        put_line-at m b i bytes (omega (arith, v.starts.whole, v.starts.room)) ∙ v.starts.same i l)
      (put_line-at m b (length text) bytes (omega (arith, v.starts.whole, v.starts.room)) ∙ v.ended)

-- Nothing else changes.
pub put_line-frame :
    (m : Memory) (b q : ℕ) (bytes : List ℕ)
    → length bytes ≡ buflen
    → (q < b) ⊎ (b + 1023 < q)
    → put_line m b bytes q ≡ m q
put_line-frame m b q bytes whole out =
    let outside : inside q b (length bytes) ≡ false = elim out [
      | inl x ↦ ground (arith, x, whole)
      | inr x ↦ ground (arith, x, whole)
    ] in
    rw outside refl

-- Names outside the buffer are outside the part of it that a line takes.
pub Named-kept :
    (m m' : Memory) (lo hi hi' : ℕ) (cs : List Command) (names : List (List ℕ × Handler))
    → hi' ≤ hi
    → Named m lo hi cs names
    → ((q : ℕ) → (q < lo) ⊎ (hi < q) → m' q ≡ m q)
    → Named m' lo hi' cs names
Named-kept m m' lo hi hi' [] [] l n e = tt
Named-kept m m' lo hi hi' [] (x ∷ xs) l n e = elim n [ ]
Named-kept m m' lo hi hi' (c ∷ cs) [] l n e = elim n [ ]
Named-kept m m' lo hi hi' (c ∷ cs) ((name, h) ∷ ns) l n e = (
  Holds-agree m m' c.name name n.0
      (λ q u v. e q (elim n.3 [ inl x ↦ inl (omega arith) | inr x ↦ inr (omega arith) ])),
  n.1,
  n.2,
  elim n.3 [ inl x ↦ inl x | inr x ↦ inr (omega arith) ],
  Named-kept m m' lo hi hi' cs ns l n.4 e,
)

drop_last-IsText : (s : List ℕ) → IsText s → IsText (drop_last s)
drop_last-IsText [] h = tt
drop_last-IsText (c ∷ []) h = tt
drop_last-IsText (c ∷ (d ∷ s)) h = (h.0, drop_last-IsText (d ∷ s) h.1)

snoc-IsText : (s : List ℕ) (c : ℕ) → IsText s → c ≢ 0 → c < 256 → IsText (s ++ (c ∷ []))
snoc-IsText [] c h n l = ((n, l), tt)
snoc-IsText (d ∷ s) c h n l = (h.0, snoc-IsText s c h.1 n l)

edit-IsText : (text : List ℕ) (c : ℕ) → c < 256 → IsText text → IsText (edit text c)
unfolding edit
edit-IsText text c l h = elim (Bool-cases ((c == 8 || c == 127) && ltb 0 (length text))) [
  | inl e ↦ rw e (drop_last-IsText text h)
  | inr e ↦ elim (Bool-cases (leb 32 c && ltb (length text) 1023)) [
    | inl u ↦
        let printing : 32 ≤ c = ground (arith, u) in
        rw (e, u) (snoc-IsText text (c % 256) h (λ z. omega arith) (omega arith))
    | inr u ↦ rw (e, u) h
  ]
]

-- What byte keys leave is a text.
pub edited-IsText :
    (ks text : List ℕ) → All (λ c. c < 256) ks → IsText text → IsText (foldl edit text ks)
edited-IsText [] text a h = h
edited-IsText (c ∷ ks) text a h = edited-IsText ks (edit text c) a.1 (edit-IsText text c a.0 h)
