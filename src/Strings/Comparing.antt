-- ===== src/Strings/Comparing.antt =====
-- strcmp, strncmp and memcmp of lib/string.c against the lexicographic order of the bytes.
use sisop_tps.Prelude.{
  ℕ, zero, suc, ◌+◌, ◌<◌, ◌≡◌, ◌↔◌, ◌≢◌, refl, Bool, true, false, List, [], ◌∷◌, some, ◌==◌, ltb,
  if◌then◌else◌, length, All, take, sub32, slt, arith,
}
use sisop_tps.Memory.{Memory, Holds, IsBytes}
use sisop_tps.Strings.{strcmp, strncmp, memcmp}

abbrev pub IsByte : ℕ → Type 0
IsByte c = c < 256

-- the lexicographic order on byte strings
abbrev pub before : List ℕ → List ℕ → Bool
before s [] = false
before [] (d ∷ t) = true
before (c ∷ s) (d ∷ t) = if c == d then before s t else ltb c d

-- the first difference of the strings as an `int`, 0 at the end of both
difference : List ℕ → List ℕ → ℕ
difference [] [] = 0
difference [] (d ∷ t) = sub32 0 d
difference (c ∷ s) [] = sub32 c 0
difference (c ∷ s) (d ∷ t) = if c == d then difference s t else sub32 c d

strcmp-difference :
    (m : Memory) (s t : List ℕ) (fuel p q : ℕ)
    → Holds m p s
    → Holds m q t
    → length s < fuel
    → strcmp fuel m p q ≡ some (difference s t)
unfolding strcmp difference sub32
strcmp-difference m s t zero p q h k l = absurd (omega arith)
strcmp-difference m [] [] (suc f) p q h k l = ground arith
strcmp-difference m [] (d ∷ t) (suc f) p q h k l = ground arith
strcmp-difference m (c ∷ s) [] (suc f) p q h k l = ground arith
strcmp-difference m (c ∷ s) (d ∷ t) (suc f) p q h k l =
    ground (arith, strcmp-difference m s t f (p + 1) (q + 1) h.2 k.2)

strncmp-difference :
    (m : Memory) (s t : List ℕ) (n p q : ℕ)
    → Holds m p s
    → Holds m q t
    → strncmp m p q n ≡ difference (take n s) (take n t)
unfolding strncmp difference sub32
strncmp-difference m s t zero p q h k = refl
strncmp-difference m [] [] (suc f) p q h k = ground arith
strncmp-difference m [] (d ∷ t) (suc f) p q h k = ground arith
strncmp-difference m (c ∷ s) [] (suc f) p q h k = ground arith
strncmp-difference m (c ∷ s) (d ∷ t) (suc f) p q h k =
    ground (arith, strncmp-difference m s t f (p + 1) (q + 1) h.2 k.2)

-- what a comparison promises: the sign of the result is the order of the strings
abbrev pub Orders : ℕ → List ℕ → List ℕ → Type 0
Orders r s t = ((r ≡ 0) ↔ (s ≡ t)) × (slt r 0 ≡ before s t) × (slt 0 r ≡ before t s)

-- the strings of a C program: bytes, none of them NUL
abbrev pub IsText : List ℕ → Type 0
IsText s = All (λ c. (c ≢ 0) × (c < 256)) s

difference-Orders : (s t : List ℕ) → IsText s → IsText t → Orders (difference s t) s t
unfolding difference sub32
difference-Orders [] [] a b = ground arith
difference-Orders [] (d ∷ t) a b = ground arith
difference-Orders (c ∷ s) [] a b = ground arith
difference-Orders (c ∷ s) (d ∷ t) a b = ground (arith, difference-Orders s t a.1 b.1)

-- On two NUL-terminated strings, and with fuel for the first, `strcmp` returns an `int` that is 0
-- exactly if the strings are equal, and negative or positive as the first or the second comes first
-- in the lexicographic order.
pub strcmp-Orders :
    (m : Memory) (s t : List ℕ) (fuel p q : ℕ)
    → IsText s
    → IsText t
    → Holds m p s
    → Holds m q t
    → length s < fuel
    → (r : ℕ) × (strcmp fuel m p q ≡ some r) × Orders r s t
strcmp-Orders m s t fuel p q a b h k l =
    (difference s t, strcmp-difference m s t fuel p q h k l, difference-Orders s t a b)

IsText-take : (n : ℕ) (s : List ℕ) → IsText s → IsText (take n s)
IsText-take zero s a = tt
IsText-take (suc n) [] a = tt
IsText-take (suc n) (c ∷ s) a = (a.0, IsText-take n s a.1)

-- `strncmp` orders the strings cut at `n` bytes in the same way, with no need of fuel.
pub strncmp-Orders :
    (m : Memory) (s t : List ℕ) (n p q : ℕ)
    → IsText s
    → IsText t
    → Holds m p s
    → Holds m q t
    → Orders (strncmp m p q n) (take n s) (take n t)
strncmp-Orders m s t n p q a b h k =
    rw (strncmp-difference m s t n p q h k)
      (difference-Orders (take n s) (take n t) (IsText-take n s a) (IsText-take n t b))

memcmp-zero→ :
    (m : Memory) (p q n i : ℕ) → IsBytes m → memcmp m p q n ≡ 0 → i < n → m (p + i) ≡ m (q + i)
unfolding memcmp sub32
memcmp-zero→ m p q zero i b e l = absurd (omega arith)
memcmp-zero→ m p q (suc n) zero b e l = ground (arith, b p, b q)
memcmp-zero→ m p q (suc n) (suc i) b e l =
    ground (arith, b p, b q, memcmp-zero→ m (p + 1) (q + 1) n i b)

→memcmp-zero :
    (m : Memory) (p q n : ℕ) → ((i : ℕ) → i < n → m (p + i) ≡ m (q + i)) → memcmp m p q n ≡ 0
unfolding memcmp
→memcmp-zero m p q zero h = refl
→memcmp-zero m p q (suc n) h =
    ground (arith, h 0, →memcmp-zero m (p + 1) (q + 1) n (λ i l. ground (arith, h (suc i))))

-- `memcmp` is 0 exactly if the two areas agree in every byte.
pub memcmp-eq-zero_iff :
    (m : Memory) (p q n : ℕ)
    → IsBytes m
    → (memcmp m p q n ≡ 0) ↔ ((i : ℕ) → i < n → m (p + i) ≡ m (q + i))
memcmp-eq-zero_iff m p q n b = (λ e i l. memcmp-zero→ m p q n i b e l, →memcmp-zero m p q n)
