-- ===== src/Printfmt/Collecting.antt =====
-- vprintfmt of lib/printfmt.c does the same calls of `putch` for every caller: two runs with the same format and
-- arguments, on states that `putch` keeps related, end in the same way and related.
use sisop_tps.Prelude.{
  ℕ, zero, suc, ◌+◌, ◌-◌, ◌^◌, ◌≡◌, refl, Bool, true, false, ◌||◌, List, [], ◌∷◌, Option, none,
  some, ◌==◌, leb, sle, slt, sub32, if◌then◌else◌, get_or, length, Bool-cases, inl, inr, ◌++◌,
  foldl, foldl-append, sym, ap, ◌∙◌,
}
use sisop_tps.Prelude.Run.{Run, done, fault, no_fuel, ◌>>=◌}
use sisop_tps.Printfmt.{
  Flags, Directive, pad_right, pad_zero, digit, star, dot, hash, long, char, error, string, signed,
  unsigned, octal, pointer, hex, percent, other, classify, repeat_putch, printnum_loop, printnum,
  put_string, format_string, max_error, magnitude, error_string, getint, getuint, take_word,
  back_up, read_digits, no_flags, positive,
}
use sisop_tps.Printfmt.Format.{
  put_signed, put_message, put_error, put_pointed, convert, reswitch, vprintfmt, printfmt,
}

-- Both runs return, and related results, or both end in the same other way.
abbrev pub Both : {A B : Type 0} → (A → B → Type 0) → Run A → Run B → Type 0
Both R (done a) (done b) = R a b
Both R fault fault = Unit
Both R no_fuel no_fuel = Unit
Both R _ _ = ⊥

bind-Both :
    {A B C D : Type 0} (R : A → B → Type 0) (Q : C → D → Type 0) (m : Run A) (m' : Run B)
    (k : A → Run C) (k' : B → Run D)
    → Both R m m'
    → ((a : A) (b : B) → R a b → Both Q (k a) (k' b))
    → Both Q (m >>= k) (m' >>= k')
bind-Both R Q (done a) (done b) k k' n h = h a b n
bind-Both R Q fault fault k k' n h = tt
bind-Both R Q no_fuel no_fuel k k' n h = tt
bind-Both R Q (done a) fault k k' n h = elim n [ ]
bind-Both R Q (done a) no_fuel k k' n h = elim n [ ]
bind-Both R Q fault (done b) k k' n h = elim n [ ]
bind-Both R Q fault no_fuel k k' n h = elim n [ ]
bind-Both R Q no_fuel (done b) k k' n h = elim n [ ]
bind-Both R Q no_fuel fault k k' n h = elim n [ ]

-- the same, when only the second goes on
pub then-Both :
    {A B D : Type 0} (R : A → B → Type 0) (Q : A → D → Type 0) (m : Run A) (m' : Run B)
    (k : B → Run D)
    → Both R m m'
    → ((a : A) (b : B) → R a b → Both Q (done a) (k b))
    → Both Q m (m' >>= k)
then-Both R Q (done a) (done b) k n h = h a b n
then-Both R Q fault fault k n h = tt
then-Both R Q no_fuel no_fuel k n h = tt
then-Both R Q (done a) fault k n h = elim n [ ]
then-Both R Q (done a) no_fuel k n h = elim n [ ]
then-Both R Q fault (done b) k n h = elim n [ ]
then-Both R Q fault no_fuel k n h = elim n [ ]
then-Both R Q no_fuel (done b) k n h = elim n [ ]
then-Both R Q no_fuel fault k n h = elim n [ ]

-- what both do after the same step
after-Both :
    {A C D : Type 0} (Q : C → D → Type 0) (m : Run A) (k : A → Run C) (k' : A → Run D)
    → ((a : A) → Both Q (k a) (k' a))
    → Both Q (m >>= k) (m >>= k')
after-Both Q (done a) k k' h = h a
after-Both Q fault k k' h = tt
after-Both Q no_fuel k k' h = tt

if-both :
    {A B : Type 0} (R : A → B → Type 0) (b : Bool) (x y : A) (x' y' : B)
    → R x x'
    → R y y'
    → R (if b then x else y) (if b then x' else y')
if-both R true x y x' y' p q = p
if-both R false x y x' y' p q = q

module _ {S T : Type 0} (putch : ℕ → S → S) (putch' : ℕ → T → T) (R : S → T → Type 0)
    (keep : (c : ℕ) (s : S) (t : T) → R s t → R (putch c s) (putch' c t)) where
  repeat_putch-both :
      (n c : ℕ) (s : S) (t : T) → R s t → R (repeat_putch putch n c s) (repeat_putch putch' n c t)
  unfolding repeat_putch
  repeat_putch-both zero c s t p = p
  repeat_putch-both (suc n) c s t p = repeat_putch-both n c (putch c s) (putch' c t) (keep c s t p)

  printnum_loop-both :
      (f num base width padc : ℕ) (s : S) (t : T)
      → R s t
      → R
          (printnum_loop putch f num base width padc s)
          (printnum_loop putch' f num base width padc t)
  unfolding printnum_loop
  printnum_loop-both zero num base width padc s t p = p
  printnum_loop-both (suc f) num base width padc s t p = elim (Bool-cases (leb base num)) [
    | inl more ↦ rw (more, printnum_loop) (keep _ _ _ (printnum_loop-both f _ base _ padc s t p))
    | inr last ↦ rw (last, printnum_loop) (keep _ _ _ (repeat_putch-both _ padc s t p))
  ]

  printnum-both :
      (num base width padc : ℕ) (s : S) (t : T)
      → R s t
      → R (printnum putch num base width padc s) (printnum putch' num base width padc t)
  unfolding printnum
  printnum-both = printnum_loop-both 64

  put_string-both :
      (alt : Bool) (p : List ℕ) (precision width : ℕ) (s : S) (t : T)
      → R s t
      → ((put_string putch alt p precision width s).0
          ≡ (put_string putch' alt p precision width t).0)
        × R
            (put_string putch alt p precision width s).1
            (put_string putch' alt p precision width t).1
  unfolding put_string
  put_string-both alt [] precision width s t h = (refl, h)
  put_string-both alt (c ∷ p) precision width s t h =
      elim (Bool-cases (slt precision 0 || sle 0 (sub32 precision 1))) [
        | inl more ↦ rw (more, put_string) (put_string-both alt p _ _ _ _ (keep _ s t h))
        | inr stop ↦ rw (stop, put_string) (refl, h)
      ]

  -- the spaces behind a string
  filled-both :
      (r : ℕ × S) (r' : ℕ × T)
      → (r.0 ≡ r'.0) × R r.1 r'.1
      → R
          (repeat_putch putch (positive r.0) b' ' r.1)
          (repeat_putch putch' (positive r'.0) b' ' r'.1)
  filled-both r r' (same, ends) = rw same (repeat_putch-both (positive r'.0) b' ' r.1 r'.1 ends)

  format_string-both :
      (fl : Flags) (p : List ℕ) (s : S) (t : T)
      → R s t
      → R (format_string putch fl p s) (format_string putch' fl p t)
  unfolding format_string
  format_string-both fl p s t h =
      filled-both _ _
        (put_string-both fl.altflag p _ _ _ _ (if-both R _ _ _ _ _ (repeat_putch-both _ _ s t h) h))

  module _ (string_at : ℕ → List ℕ) (error_address : ℕ → ℕ) where
    -- the relation on what one conversion leaves
    abbrev Left : ℕ × List ℕ × S → ℕ × List ℕ × T → Type 0
    Left r r' = (r.0 ≡ r'.0) × (r.1 ≡ r'.1) × R r.2 r'.2

    put_signed-Both :
        (fl : Flags) (i : ℕ) (r : ℕ × List ℕ) (s : S) (t : T)
        → R s t
        → Both Left
            (put_signed putch string_at error_address fl i r s)
            (put_signed putch' string_at error_address fl i r t)
    unfolding put_signed
    put_signed-Both fl i r s t h =
        if-both (Both Left) (leb (2 ^ 63) r.0) _ _ _ _
          (refl, refl, printnum-both _ 10 fl.width fl.padc _ _ (keep b'-' s t h))
          (refl, refl, printnum-both _ 10 fl.width fl.padc s t h)

    module _ (nested : List ℕ → List ℕ → S → Run S) (nested' : List ℕ → List ℕ → T → Run T)
        (ok : (g ap : List ℕ) (s : S) (t : T)
          → R s t
          → Both R (nested g ap s) (nested' g ap t)) where
      put_message-Both :
          (i err : ℕ) (ap : List ℕ) (s : S) (t : T) (o : Option (List ℕ))
          → R s t
          → Both Left
              (put_message putch string_at error_address nested i err ap s o)
              (put_message putch' string_at error_address nested' i err ap t o)
      unfolding put_message
      put_message-Both i err ap s t none h =
          bind-Both R Left _ _ _ _ (ok _ _ s t h) (λ a b p. (refl, refl, p))
      put_message-Both i err ap s t (some p) h =
          bind-Both R Left _ _ _ _ (ok _ _ s t h) (λ a b p. (refl, refl, p))

      put_error-Both :
          (i : ℕ) (r : ℕ × List ℕ) (s : S) (t : T)
          → R s t
          → Both Left
              (put_error putch string_at error_address nested i r s)
              (put_error putch' string_at error_address nested' i r t)
      unfolding put_error
      put_error-Both i r s t h =
          if-both (Both Left) (sle max_error (magnitude r.0)) _ _ _ _
            (put_message-Both i _ r.1 s t none h)
            (if-both (Both Left) (slt (magnitude r.0) 0) _ _ _ _ tt
              (put_message-Both i _ r.1 s t (error_string (magnitude r.0)) h))

      convert-Both :
          (d : Directive) (fmt : List ℕ) (i : ℕ) (fl : Flags) (ap : List ℕ) (s : S) (t : T)
          → R s t
          → Both Left
              (convert putch string_at error_address nested d fmt i fl ap s)
              (convert putch' string_at error_address nested' d fmt i fl ap t)
      unfolding convert put_pointed
      convert-Both error fmt i fl ap s t h =
          after-Both Left (take_word ap) _ _ (λ r. put_error-Both i r s t h)
      convert-Both char fmt i fl ap s t h =
          after-Both Left (take_word ap) _ _ (λ r. (refl, refl, keep r.0 s t h))
      convert-Both string fmt i fl ap s t h =
          after-Both Left (take_word ap) _ _ (λ r. (refl, refl, format_string-both fl _ s t h))
      convert-Both signed fmt i fl ap s t h =
          after-Both Left (getint fl.lflag ap) _ _ (λ r. put_signed-Both fl i r s t h)
      convert-Both unsigned fmt i fl ap s t h =
          after-Both Left (getuint fl.lflag ap) _ _
            (λ r. (refl, refl, printnum-both r.0 10 fl.width fl.padc s t h))
      convert-Both octal fmt i fl ap s t h = (refl, refl, keep _ _ _ (keep _ _ _ (keep _ _ _ h)))
      convert-Both pointer fmt i fl ap s t h =
          after-Both Left (take_word ap) _ _ (λ r.
            (refl, refl, printnum-both r.0 16 fl.width fl.padc _ _ (keep _ _ _ (keep _ _ _ h))))
      convert-Both hex fmt i fl ap s t h =
          after-Both Left (getuint fl.lflag ap) _ _
            (λ r. (refl, refl, printnum-both r.0 16 fl.width fl.padc s t h))
      convert-Both percent fmt i fl ap s t h = (refl, refl, keep _ _ _ h)
      convert-Both _ fmt i fl ap s t h =
          after-Both Left (back_up fmt (i - 1)) _ _ (λ j. (refl, refl, keep _ _ _ h))

      -- one round of `reswitch`, with the later rounds as a hypothesis
      round-Both :
          (f : ℕ) (fmt : List ℕ) (i : ℕ) (fl : Flags) (ap : List ℕ) (s : S) (t : T)
          → R s t
          → ((j : ℕ) (fl : Flags) (ap : List ℕ)
              → Both Left
                  (reswitch putch string_at error_address nested f fmt j fl ap s)
                  (reswitch putch' string_at error_address nested' f fmt j fl ap t))
          → (d : Directive) → classify (get_or fmt i 0) ≡ d
          → Both Left
              (reswitch putch string_at error_address nested (suc f) fmt i fl ap s)
              (reswitch putch' string_at error_address nested' (suc f) fmt i fl ap t)
      unfolding reswitch
      round-Both f fmt i fl ap s t h later digit k =
          rw (k, reswitch)
            (after-Both Left (read_digits (suc (length fmt)) fmt (i + 1) (get_or fmt i 0) 0) _ _
              (λ r. later r.1 _ ap))
      round-Both f fmt i fl ap s t h later star k =
          rw (k, reswitch) (after-Both Left (take_word ap) _ _ (λ r. later (i + 1) _ r.1))
      round-Both f fmt i fl ap s t h later pad_right k = rw (k, reswitch) (later (i + 1) _ ap)
      round-Both f fmt i fl ap s t h later pad_zero k = rw (k, reswitch) (later (i + 1) _ ap)
      round-Both f fmt i fl ap s t h later dot k = rw (k, reswitch) (later (i + 1) _ ap)
      round-Both f fmt i fl ap s t h later hash k = rw (k, reswitch) (later (i + 1) _ ap)
      round-Both f fmt i fl ap s t h later long k = rw (k, reswitch) (later (i + 1) _ ap)
      round-Both f fmt i fl ap s t h later char k =
          rw (k, reswitch) (convert-Both char fmt (i + 1) fl ap s t h)
      round-Both f fmt i fl ap s t h later error k =
          rw (k, reswitch) (convert-Both error fmt (i + 1) fl ap s t h)
      round-Both f fmt i fl ap s t h later string k =
          rw (k, reswitch) (convert-Both string fmt (i + 1) fl ap s t h)
      round-Both f fmt i fl ap s t h later signed k =
          rw (k, reswitch) (convert-Both signed fmt (i + 1) fl ap s t h)
      round-Both f fmt i fl ap s t h later unsigned k =
          rw (k, reswitch) (convert-Both unsigned fmt (i + 1) fl ap s t h)
      round-Both f fmt i fl ap s t h later octal k =
          rw (k, reswitch) (convert-Both octal fmt (i + 1) fl ap s t h)
      round-Both f fmt i fl ap s t h later pointer k =
          rw (k, reswitch) (convert-Both pointer fmt (i + 1) fl ap s t h)
      round-Both f fmt i fl ap s t h later hex k =
          rw (k, reswitch) (convert-Both hex fmt (i + 1) fl ap s t h)
      round-Both f fmt i fl ap s t h later percent k =
          rw (k, reswitch) (convert-Both percent fmt (i + 1) fl ap s t h)
      round-Both f fmt i fl ap s t h later other k =
          rw (k, reswitch) (convert-Both other fmt (i + 1) fl ap s t h)

      reswitch-Both :
          (f : ℕ) (fmt : List ℕ) (i : ℕ) (fl : Flags) (ap : List ℕ) (s : S) (t : T)
          → R s t
          → Both Left
              (reswitch putch string_at error_address nested f fmt i fl ap s)
              (reswitch putch' string_at error_address nested' f fmt i fl ap t)
      unfolding reswitch
      reswitch-Both zero fmt i fl ap s t h = tt
      reswitch-Both (suc f) fmt i fl ap s t h =
          round-Both f fmt i fl ap s t h (λ j fl' ap'. reswitch-Both f fmt j fl' ap' s t h)
            (classify (get_or fmt i 0)) refl

    vprintfmt-Both :
        (f : ℕ) (fmt : List ℕ) (i : ℕ) (ap : List ℕ) (s : S) (t : T)
        → R s t
        → Both R
            (vprintfmt putch string_at error_address f fmt i ap s)
            (vprintfmt putch' string_at error_address f fmt i ap t)
    unfolding vprintfmt
    vprintfmt-Both zero fmt i ap s t h = tt
    vprintfmt-Both (suc f) fmt i ap s t h = elim (Bool-cases (get_or fmt i 0 == b'%')) [
      | inl pct ↦
          rw (pct, vprintfmt)
            (bind-Both Left R _ _ _ _
              (reswitch-Both _ _ (λ g a s t. vprintfmt-Both f g 0 a s t) (suc (length fmt)) fmt
                (i + 1) no_flags ap s t h)
              (λ r r' (e, e', h'). rw (e, e') (vprintfmt-Both f fmt r'.0 r'.1 r.2 r'.2 h')))
      | inr plain ↦ elim (Bool-cases (get_or fmt i 0 == 0)) [
        | inl end ↦ rw (plain, end, vprintfmt) h
        | inr more ↦
            rw (plain, more, vprintfmt) (vprintfmt-Both f fmt (i + 1) ap _ _ (keep _ s t h))
      ]
    ]

-- the characters so far, in order
abbrev pub collect : ℕ → List ℕ → List ℕ
collect c text = text ++ (c ∷ [])

-- What any caller's state is at the end is what the collected characters make of it.
pub printfmt-collect :
    {S : Type 0} (putch : ℕ → S → S) (string_at : ℕ → List ℕ) (error_address : ℕ → ℕ)
    (fmt ap' : List ℕ) (s : S)
    → Both
        (λ cs s'. s' ≡ foldl (λ s c. putch c s) s cs)
        (printfmt collect string_at error_address fmt ap' [])
        (printfmt putch string_at error_address fmt ap' s)
unfolding printfmt
printfmt-collect putch string_at error_address fmt ap' s =
    vprintfmt-Both collect putch (λ cs s'. s' ≡ foldl (λ s c. putch c s) s cs)
      (λ c cs s' e. ap (putch c) e ∙ sym (foldl-append (λ s c. putch c s) s cs (c ∷ []))) string_at
      error_address (length fmt + 10) fmt 0 ap' [] s refl
