-- ===== src/Strings/Lengths.antt =====
-- strlen, strnlen, strchr and strfind of lib/string.c on a string that memory holds.
use sisop_tps.Prelude.{
  ℕ, zero, suc, ◌+◌, ◌-◌, ◌≤◌, ◌<◌, ◌≡◌, ◌≢◌, ap, ◌∙◌, ◌⊎◌, inl, inr, Bool-cases, List, [], ◌∷◌,
  none, some, ◌==◌, if◌then◌else◌, length, min, arith,
}
use native.Mathlib.Decide.{dec_lt}
use sisop_tps.Memory.{Memory, Holds}
use sisop_tps.Strings.{strlen, strlen_loop, strnlen, strnlen_loop, strchr, strfind}

module _ (m : Memory) where
  strlen_loop_lem :
      (s : List ℕ) (fuel p n : ℕ)
      → Holds m p s
      → length s < fuel
      → strlen_loop fuel m p n ≡ some (length s + n)
  unfolding strlen_loop
  strlen_loop_lem s zero p n h l = absurd (omega arith)
  strlen_loop_lem [] (suc f) p n h l = ground arith
  strlen_loop_lem (c ∷ s) (suc f) p n h l = ground (arith, strlen_loop_lem s f (p + 1) (n + 1) h.2)

  -- With more fuel than the string has bytes `strlen` returns their number.
  pub strlen_lem :
      (s : List ℕ) (fuel p : ℕ) → Holds m p s → length s < fuel → strlen fuel m p ≡ some (length s)
  unfolding strlen
  strlen_lem s fuel p h l = ground (arith, strlen_loop_lem s fuel p 0 h)

  strnlen_loop_lem :
      (s : List ℕ) (size p n : ℕ) → Holds m p s → strnlen_loop size m p n ≡ min (length s) size + n
  unfolding strnlen_loop
  strnlen_loop_lem s zero p n h = omega arith
  strnlen_loop_lem [] (suc size) p n h = ground arith
  strnlen_loop_lem (c ∷ s) (suc size) p n h =
      ground (arith, strnlen_loop_lem s size (p + 1) (n + 1) h.2)

  -- `strnlen` is the length of the string, cut at `size`.
  pub strnlen_lem : (s : List ℕ) (size p : ℕ) → Holds m p s → strnlen m p size ≡ min (length s) size
  unfolding strnlen
  strnlen_lem s size p h = omega (arith, strnlen_loop_lem s size p 0 h)

-- where `c` first stands, or the length
abbrev pub index_of : ℕ → List ℕ → ℕ
index_of c [] = 0
index_of c (d ∷ s) = if d == c then 0 else index_of c s + 1

module _ (m : Memory) (c : ℕ) where
  -- `strfind` stops at the first `c`, and at the terminator if there is none.
  pub strfind_lem :
      (s : List ℕ) (fuel p : ℕ)
      → Holds m p s
      → length s < fuel
      → strfind fuel m p c ≡ some (p + index_of c s)
  unfolding strfind
  strfind_lem s zero p h l = absurd (omega arith)
  strfind_lem [] (suc f) p h l = ground arith
  strfind_lem (d ∷ s) (suc f) p h l = ground (arith, strfind_lem s f (p + 1) h.2)

  -- `strchr` points at the first `c`, and is the null pointer exactly if the string has none.
  pub strchr_lem :
      (s : List ℕ) (fuel p : ℕ)
      → Holds m p s
      → length s < fuel
      → strchr fuel m p c
        ≡ some (if index_of c s == length s then none else some (p + index_of c s))
  unfolding strchr
  strchr_lem s zero p h l = absurd (omega arith)
  strchr_lem [] (suc f) p h l = ground arith
  strchr_lem (d ∷ s) (suc f) p h l = ground (arith, strchr_lem s f (p + 1) h.2)

  -- The `n` bytes from `p` on are neither `c` nor a terminator, and the one behind them is.
  pub record Upto (p n : ℕ) : Type 0 where
    pub stop : (m (p + n) ≡ c) ⊎ (m (p + n) ≡ 0)
    pub inner : (i : ℕ) → i < n → (m (p + i) ≢ c) × (m (p + i) ≢ 0)

  Upto-here : (p : ℕ) → (m p ≡ c) ⊎ (m p ≡ 0) → Upto p 0
  Upto-here p s =
      let here : m (p + 0) ≡ m p = ap m (omega arith) in
      record {
        stop = elim s [ inl x ↦ inl (here ∙ x) | inr x ↦ inr (here ∙ x) ];
        inner = λ i q. absurd (omega arith);
      }

  Upto-suc : (p n : ℕ) → m p ≢ c → m p ≢ 0 → Upto (p + 1) n → Upto p (n + 1)
  Upto-suc p n a b u =
      let shift : p + 1 + n ≡ p + (n + 1) = omega arith in
      record {
        stop = rw shift at u.stop;
        inner = λ i q. elim (dec_lt 0 i) [
          | yes x ↦
              let back : p + 1 + (i - 1) ≡ p + i = omega arith in
              rw back at (u.inner (i - 1) (omega arith))
          | no x ↦ let here : p + i ≡ p = omega arith in rw here (a, b)
        ];
      }

  -- a terminator that is not here stands further on
  ne-lt : (p d : ℕ) → m (p + d) ≡ 0 → m p ≢ 0 → 0 < d
  ne-lt p zero z a = absurd (a (ap m (omega arith) ∙ z))
  ne-lt p (suc d) z a = omega arith

  -- `strfind` ends within the bytes before a terminator.
  pub strfind_stop :
      (fuel p d : ℕ)
      → m (p + d) ≡ 0
      → d < fuel
      → (n : ℕ) × (strfind fuel m p c ≡ some (p + n)) × (n ≤ d) × Upto p n
  unfolding strfind
  strfind_stop zero p d z l = absurd (omega arith)
  strfind_stop (suc f) p d z l = elim (Bool-cases (m p == 0)) [
    | inl end ↦ (
      0,
      rw (end, strfind) (ap some (omega arith)),
      omega arith,
      Upto-here p (inr (ground arith)),
    )
    | inr go ↦ elim (Bool-cases (m p == c)) [
      | inl hit ↦ (
        0,
        rw (go, hit, strfind) (ap some (omega arith)),
        omega arith,
        Upto-here p (inl (ground arith)),
      )
      | inr other ↦
          let alive : m p ≢ 0 = ground arith in
          let further : 0 < d = ne-lt p d z alive in
          let shift : p + d ≡ p + 1 + (d - 1) = omega arith in
          let (n, e, b, u) = strfind_stop f (p + 1) (d - 1) (rw shift at z) (omega arith) in
          (
            n + 1,
            rw (go, other, strfind) (e ∙ ap some (omega arith)),
            omega arith,
            Upto-suc p n (ground arith) alive u,
          )
    ]
  ]
