-- ===== src/Console/Ring/Getchar.antt =====
-- kern/console.c: cons_getc and getchar on a serial line.
use sisop_tps.Prelude.{
  ℕ, zero, suc, ◌≤◌, ◌<◌, ◌≡◌, refl, sym, ap, subst, ◌∙◌, true, false, inl, inr, List, [], ◌∷◌,
  ◌++◌, ◌==◌, if◌then◌else◌, append-nil, length, length-append, All, Bool-cases, arith,
}
use sisop_tps.Prelude.Run.{done, Returns, ◌>>=◌}
use sisop_tps.Console.{Machine}
use sisop_tps.Console.Keyboard.{serial_proc_data}
use sisop_tps.Console.Ring.{cons_intr, cons_take, serial_intr, cons_getc, getchar}
use sisop_tps.Console.Ring.Queue.{Represents, cons_take-Represents}
use sisop_tps.Console.Ring.Line.{Line}
use sisop_tps.Console.Ring.Drain.{IsCharacter, Holding, Typed, drained, kbd_intr-none}

cons_take-rest :
    {W : Type 0} (m : Machine W)
    → ((cons_take m).1.world ≡ m.world) × ((cons_take m).1.serial_exists ≡ m.serial_exists)
unfolding cons_take
cons_take-rest m = elim (Bool-cases (m.rpos == m.wpos)) [
  | inl t ↦ rw (t, cons_take) (refl, refl)
  | inr t ↦ rw (t, cons_take) (refl, refl)
]

All-suffix : (P : ℕ → Type 0) (xs ys : List ℕ) → All P (xs ++ ys) → All P ys
All-suffix P [] ys h = h
All-suffix P (x ∷ xs) ys h = All-suffix P xs ys h.1

module _ {W : Type 0} {inb : ℕ → W → ℕ × W} {outb : ℕ → ℕ → W → W} {waiting : W → List ℕ}
    (line : Line inb outb waiting) (string_at : ℕ → List ℕ) (error_address : ℕ → ℕ) where
  serial_intr-exists :
      (f : ℕ) (m : Machine W)
      → m.serial_exists ≡ true
      → serial_intr inb outb string_at error_address f m
        ≡ cons_intr f (serial_proc_data inb outb string_at error_address) m
  unfolding serial_intr
  serial_intr-exists f m e =
      ap
        (λ b.
          if b then cons_intr f (serial_proc_data inb outb string_at error_address) m else done m)
        e

  -- `cons_getc` looks at the line and at the keyboard, and takes the oldest character.
  cons_getc-Holding :
      (f : ℕ) (m : Machine W) (q cs : List ℕ)
      → length cs < suc f
      → length (q ++ cs) < 512
      → All IsCharacter cs
      → Holding line m q cs
      → (n : Machine W) × (cons_getc inb outb string_at error_address (suc f) m
          ≡ done (cons_take n))
        × Holding line n (q ++ cs) []
  unfolding cons_getc
  cons_getc-Holding f m q cs l room ok h =
      let (n₁, ran₁, h₁) = drained line string_at error_address cs (suc f) m q l room ok h in
      let (n₂, ran₂, h₂) = kbd_intr-none line string_at error_address f n₁ (q ++ cs) h₁ in
      (n₂, rw (serial_intr-exists (suc f) m h.2 ∙ ran₁, ◌>>=◌) (rw (ran₂, ◌>>=◌) refl), h₂)

  -- With room for them in the ring, `getchar` returns the characters in the order in which the line had them.
  pub getchar-Typed :
      (fuel : ℕ) (m : Machine W) (c : ℕ) (ks : List ℕ)
      → 512 ≤ fuel
      → Typed line m (c ∷ ks)
      → Returns
          (getchar inb outb string_at error_address fuel m)
          (λ r. (r.0 ≡ c) × Typed line r.1 ks)
  unfolding getchar
  getchar-Typed zero m c ks l t = absurd (omega arith)
  getchar-Typed (suc f) m c ks l t =
      let total = length-append t.ring t.behind in
      let whole = ap length t.all in
      let (n, ran, h) =
        cons_getc-Holding f m t.ring t.behind (omega (arith, t.fits)) (omega (arith, t.fits))
          (All-suffix IsCharacter t.ring t.behind
            (subst (All IsCharacter) (sym t.all) t.characters))
          t.holds in
      let queue : Represents n (c ∷ ks) = subst (Represents n) t.all h.0 in
      let (first, left) = cons_take-Represents n (c ∷ ks) queue in
      let rest = cons_take-rest n in
      let go_on : ((cons_take n).0 == 0) ≡ false = ground (arith, first, t.characters.0) in
      rw (ran, ◌>>=◌)
        (rw go_on (
          first,
          record {
            ring = ks;
            behind = [];
            all = append-nil ks;
            holds = (left, ap waiting rest.0 ∙ h.1, rest.1 ∙ h.2);
            fits = omega (arith, t.fits);
            characters = t.characters.1;
          },
        ))
