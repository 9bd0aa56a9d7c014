-- ===== src/Strings/Copying.antt =====
-- strcpy, strncpy, strlcpy and strcat of lib/string.c: what is written where, and what is not.
use sisop_tps.Prelude.{
  ℕ, zero, suc, ◌+◌, ◌-◌, ◌≤◌, ◌<◌, ◌≡◌, ◌≢◌, ap, ◌⊎◌, refl, List, [], ◌∷◌, ◌++◌, some, ◌==◌,
  if◌then◌else◌, false, inl, inr, length, min, take, get_or, arith, ◌∙◌,
}
use sisop_tps.Memory.{Memory, Holds, IsBytes, Apart, store, copied, inside, Holds-agree}
use sisop_tps.Strings.Lengths.{strlen_lem}
use sisop_tps.Strings.{strcpy, strncpy, strlcpy, strlcpy_loop, strcat}

store-IsBytes : (m : Memory) (p v : ℕ) → IsBytes m → IsBytes (store m p v)
store-IsBytes m p v b q = ground (arith, b q)

store-Holds :
    (m : Memory) (p v a : ℕ) (s : List ℕ)
    → Holds m a s
    → (p < a) ⊎ (a + length s < p)
    → Holds (store m p v) a s
store-Holds m p v a s h out = Holds-agree m (store m p v) a s h (λ q l u. ground arith)

-- A string stands wherever its bytes and its NUL do.
Holds-shifted :
    (m m' : Memory) (d p : ℕ) (s : List ℕ)
    → Holds m p s
    → ((i : ℕ) → i ≤ length s → m' (d + i) ≡ m (p + i))
    → Holds m' d s
Holds-shifted m m' d p [] h e = ground (arith, e 0)
Holds-shifted m m' d p (c ∷ s) h e = (
  ground (arith, e 0),
  h.1,
  Holds-shifted m m' (d + 1) (p + 1) s h.2 (λ i l. ground (arith, e (suc i))),
)

-- A copied string stands at its new place.
Holds-copied :
    (m : Memory) (d p : ℕ) (s : List ℕ) (n : ℕ)
    → length s < n
    → Holds m p s
    → Holds (copied m d p n) d s
Holds-copied m d p s n l h = Holds-shifted m (copied m d p n) d p s h (λ i u. ground arith)

-- The bytes of the string and its NUL are copied, as by `memmove`, when the areas are apart.
strcpy-copied :
    (s : List ℕ) (fuel : ℕ) (m : Memory) (dst src : ℕ)
    → Holds m src s
    → IsBytes m
    → Apart dst src (length s + 1)
    → length s < fuel
    → (m' : Memory) × (strcpy fuel m dst src ≡ some m')
      × ((q : ℕ) → m' q ≡ copied m dst src (length s + 1) q)
unfolding strcpy
strcpy-copied s zero m dst src h b ap l = absurd (omega arith)
strcpy-copied [] (suc f) m dst src h b ap l =
    (store m dst (m src), ground arith, λ q. ground (arith, b src))
strcpy-copied (c ∷ s) (suc f) m dst src h b ap l =
    let r =
      strcpy-copied s f (store m dst (m src)) (dst + 1) (src + 1)
        (store-Holds m dst (m src) (src + 1) s h.2 (omega arith)) (store-IsBytes m dst (m src) b)
        (omega arith) (omega arith) in
    (r.0, ground (arith, r.1), λ q. ground (arith, r.2 q, b src))

-- what a copy promises: the string stands at `dst`, and nothing outside the `n` bytes there changed
pub record Writes (m m' : Memory) (dst n : ℕ) (s : List ℕ) : Type 0 where
  pub there : Holds m' dst s
  pub frame : (q : ℕ) → inside q dst n ≡ false → m' q ≡ m q

-- With fuel for the string and its NUL, and room apart from the source, `strcpy` puts the string at
-- `dst` and changes no other byte.
pub strcpy-Writes :
    (s : List ℕ) (fuel : ℕ) (m : Memory) (dst src : ℕ)
    → Holds m src s
    → IsBytes m
    → Apart dst src (length s + 1)
    → length s < fuel
    → (m' : Memory) × (strcpy fuel m dst src ≡ some m') × Writes m m' dst (length s + 1) s
strcpy-Writes s fuel m dst src h b ap l =
    let r = strcpy-copied s fuel m dst src h b ap l in
    (
      r.0,
      r.1,
      record {
        there = Holds-shifted m r.0 dst src s h (λ i u. r.2 (dst + i) ∙ ground arith);
        frame = λ q out. r.2 q ∙ rw out;
      },
    )

-- A string that keeps its bytes, and another from its end on, are one string.
Holds-append :
    (m m' : Memory) (s t : List ℕ) (p : ℕ)
    → Holds m p s
    → ((q : ℕ) → p ≤ q → q < p + length s → m' q ≡ m q)
    → Holds m' (p + length s) t
    → Holds m' p (s ++ t)
Holds-append m m' [] t p h e k = let z : p + 0 ≡ p = omega arith in rw z at k
Holds-append m m' (c ∷ s) t p h e k =
    let z : p + suc (length s) ≡ p + 1 + length s = omega arith in
    (
      ground (arith, e p),
      h.1,
      Holds-append m m' s t (p + 1) h.2 (λ q l u. e q (omega arith) (omega arith)) (rw z at k),
    )

-- With fuel for both strings, and room apart from the source, `strcat` leaves the two strings one
-- after the other at `dst`, and changes no byte but those of the second and its NUL.
pub strcat-Writes :
    (s t : List ℕ) (fuel : ℕ) (m : Memory) (dst src : ℕ)
    → Holds m dst s
    → Holds m src t
    → IsBytes m
    → Apart (dst + length s) src (length t + 1)
    → length s < fuel
    → length t < fuel
    → (m' : Memory) × (strcat fuel m dst src ≡ some m')
      × Holds m' dst (s ++ t)
      × Writes m m' (dst + length s) (length t + 1) t
unfolding strcat
strcat-Writes s t fuel m dst src h k b ap ls lt =
    let r = strcpy-Writes t fuel m (dst + length s) src k b ap lt in
    let w : Writes m r.0 (dst + length s) (length t + 1) t = r.2 in
    (
      r.0,
      rw (strlen_lem m s fuel dst h ls, strcat) r.1,
      Holds-append m r.0 s t dst h (λ q l u. w.frame q (ground arith)) w.there,
      w,
    )

get_or-cons : (c : ℕ) (s : List ℕ) (i : ℕ) → i ≢ 0 → get_or (c ∷ s) i 0 ≡ get_or s (i - 1) 0
get_or-cons c s zero h = absurd (h refl)
get_or-cons c s (suc i) h = ap (λ k. get_or s k 0) (omega arith)

-- `strncpy` writes exactly `size` cells: the string's bytes, then NULs.
pub strncpy_lem :
    (s : List ℕ) (size : ℕ) (m : Memory) (dst src q : ℕ)
    → Holds m src s
    → IsBytes m
    → (src + length s < dst) ⊎ (dst + size ≤ src)
    → strncpy size m dst src q ≡ (if inside q dst size then get_or s (q - dst) 0 else m q)
unfolding strncpy
strncpy_lem s zero m dst src q h b ap = ground arith
strncpy_lem [] (suc size) m dst src q h b ap = ground (
  arith,
  strncpy_lem [] size (store m dst (m src)) (dst + 1) src q
      (store-Holds m dst (m src) src [] h (omega arith)) (store-IsBytes m dst (m src) b)
      (omega arith),
)
strncpy_lem (c ∷ s) (suc size) m dst src q h b ap =
    let more : (m src == 0) ≡ false = ground arith in
    rw more (
      ground (
        arith,
        strncpy_lem s size (store m dst (m src)) (dst + 1) (src + 1) q
            (store-Holds m dst (m src) (src + 1) s h.2 (omega arith))
            (store-IsBytes m dst (m src) b) (omega arith),
        get_or-cons c s (q - dst),
        b src,
      ))

strlcpy_loop_lem :
    (s : List ℕ) (room : ℕ) (m : Memory) (dst src : ℕ)
    → Holds m src s
    → IsBytes m
    → (dst + min (length s) room ≤ src) ⊎ (src + length s + 1 ≤ dst)
    → ((strlcpy_loop room m dst src).1 ≡ dst + min (length s) room)
      × ((q : ℕ) → (strlcpy_loop room m dst src).0 q ≡ copied m dst src (min (length s) room) q)
unfolding strlcpy_loop
strlcpy_loop_lem s zero m dst src h b ap = (ground arith, λ q. ground arith)
strlcpy_loop_lem [] (suc room) m dst src h b ap = (ground arith, λ q. ground arith)
strlcpy_loop_lem (c ∷ s) (suc room) m dst src h b ap =
    let r =
      strlcpy_loop_lem s room (store m dst (m src)) (dst + 1) (src + 1)
        (store-Holds m dst (m src) (src + 1) s h.2 (omega arith)) (store-IsBytes m dst (m src) b)
        (omega arith) in
    (ground (arith, r.0), λ q. ground (arith, r.1 q, b src))

Holds-take :
    (m m' : Memory) (d p : ℕ) (s : List ℕ) (room : ℕ)
    → Holds m p s
    → ((i : ℕ) → i < min (length s) room → m' (d + i) ≡ m (p + i))
    → m' (d + min (length s) room) ≡ 0
    → Holds m' d (take room s)
Holds-take m m' d p s zero h e z = ground (arith, z)
Holds-take m m' d p [] (suc room) h e z = ground (arith, z)
Holds-take m m' d p (c ∷ s) (suc room) h e z = (
  ground (arith, e 0),
  h.1,
  Holds-take m m' (d + 1) (p + 1) s room h.2 (λ i l. ground (arith, e (suc i))) (ground (arith, z)),
)

-- With a buffer of `room + 1` bytes, of which the part that the result takes is apart from the source,
-- `strlcpy` leaves there the first `room` bytes of the string, terminated, returns their number, and writes
-- nothing outside the buffer.
pub strlcpy-Writes :
    (s : List ℕ) (room : ℕ) (m : Memory) (dst src : ℕ)
    → Holds m src s
    → IsBytes m
    → (dst + min (length s) room + 1 ≤ src) ⊎ (src + length s + 1 ≤ dst)
    → ((strlcpy m dst src (suc room)).1 ≡ min (length s) room)
      × Writes m (strlcpy m dst src (suc room)).0 dst (room + 1) (take room s)
unfolding strlcpy
strlcpy-Writes s room m dst src h b ap =
    let n = min (length s) room in
    let r =
      strlcpy_loop_lem s room m dst src h b
        (elim ap [ inl x ↦ inl (omega arith) | inr x ↦ inr x ]) in
    (
      omega (arith, r.0),
      record {
        there =
            Holds-take m _ dst src s room h (λ i l. ground (arith, r.0, r.1 (dst + i)))
              (ground (arith, r.0));
        frame = λ q out. ground (arith, r.0, r.1 q);
      },
    )
