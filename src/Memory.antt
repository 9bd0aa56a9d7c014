-- ===== src/Memory.antt =====
-- Byte-addressed memory, and C strings in it (the `char *` of lib/string.c).
-- An address is a number; objects do not wrap round the address space.
use sisop_tps.Prelude.{
  ℕ, ◌+◌, ◌-◌, ◌%◌, Bool, ◌&&◌, ltb, leb, ◌≤◌, ◌<◌, ◌≡◌, ◌≢◌, ◌⊎◌, List, [], ◌∷◌, ◌++◌, ◌==◌,
  if◌then◌else◌, length, arith,
}

abbrev pub Memory : Type 0
Memory = ℕ → ℕ

-- `*p = v` for a byte
abbrev pub store : Memory → ℕ → ℕ → Memory
store m p v q = if q == p then v % 256 else m q

-- The address `q` is one of the `n` bytes from `d`.
abbrev pub inside : ℕ → ℕ → ℕ → Bool
inside q d n = leb d q && ltb q (d + n)

-- the memory with `n` bytes copied from `s` to `d` at once
abbrev pub copied : Memory → ℕ → ℕ → ℕ → Memory
copied m d s n q = if inside q d n then m (s + (q - d)) else m q

-- every cell holds a byte
abbrev pub IsBytes : Memory → Type 0
IsBytes m = (p : ℕ) → m p < 256

-- At `p` stands the NUL-terminated string with these bytes.
abbrev pub Holds : Memory → ℕ → List ℕ → Type 0
Holds m p [] = m p ≡ 0
Holds m p (c ∷ cs) = (m p ≡ c) × (c ≢ 0) × Holds m (p + 1) cs

-- The cells from `p` on hold these values; nothing is said of what follows them.
abbrev pub Stands : Memory → ℕ → List ℕ → Type 0
Stands m p [] = Unit
Stands m p (c ∷ cs) = (m p ≡ c) × Stands m (p + 1) cs

-- The `n` bytes from `p` and the `n` bytes from `q` do not meet.
abbrev pub Apart : ℕ → ℕ → ℕ → Type 0
Apart p q n = (p + n ≤ q) ⊎ (q + n ≤ p)

-- A string stands where the memory agrees on its bytes.
pub Holds-agree :
    (m m' : Memory) (p : ℕ) (s : List ℕ)
    → Holds m p s
    → ((a : ℕ) → p ≤ a → a ≤ p + length s → m' a ≡ m a)
    → Holds m' p s
Holds-agree m m' p [] h e = ground (arith, e p)
Holds-agree m m' p (c ∷ cs) h e = (
  ground (arith, e p),
  h.1,
  Holds-agree m m' (p + 1) cs h.2 (λ a l u. e a (omega arith) (omega arith)),
)

-- A store at or behind the end of a run of cells leaves it, and at its end extends it.
pub Stands-store :
    (m : Memory) (p a v : ℕ) (xs : List ℕ)
    → Stands m p xs
    → p + length xs ≤ a
    → Stands (store m a v) p xs
Stands-store m p a v [] h l = tt
Stands-store m p a v (x ∷ xs) h l = (ground arith, Stands-store m (p + 1) a v xs h.1 (omega arith))

pub Stands-snoc :
    (m : Memory) (p a v : ℕ) (xs : List ℕ)
    → Stands m p xs
    → a ≡ p + length xs
    → Stands (store m a v) p (xs ++ (v % 256 ∷ []))
Stands-snoc m p a v [] h e = (ground arith, tt)
Stands-snoc m p a v (x ∷ xs) h e = (ground arith, Stands-snoc m (p + 1) a v xs h.1 (omega arith))
