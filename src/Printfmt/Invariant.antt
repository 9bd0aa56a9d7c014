-- ===== src/Printfmt/Invariant.antt =====
-- vprintfmt of lib/printfmt.c touches the state of its caller by `putch` alone: what every call of
-- `putch` keeps, the whole run keeps.
use sisop_tps.Prelude.{
  ℕ, zero, suc, ◌+◌, ◌-◌, ◌^◌, ◌≡◌, refl, Bool, true, false, ◌||◌, List, [], ◌∷◌, Option, none,
  some, ◌==◌, leb, sle, slt, sub32, if◌then◌else◌, get_or, length, Bool-cases, inl, inr,
}
use sisop_tps.Prelude.Run.{Keeps, bind-Keeps, any-Keeps, Run}
use sisop_tps.Printfmt.{
  Flags, Directive, pad_right, pad_zero, digit, star, dot, hash, long, char, error, string, signed,
  unsigned, octal, pointer, hex, percent, other, classify, repeat_putch, printnum_loop, printnum,
  put_string, format_string, max_error, magnitude, error_string, getint, getuint, take_word,
  back_up, read_digits, no_flags,
}
use sisop_tps.Printfmt.Format.{
  put_signed, put_message, put_error, put_pointed, convert, reswitch, vprintfmt, printfmt,
}

if-holds : {A : Type 0} (P : A → Type 0) (b : Bool) (x y : A) → P x → P y → P (if b then x else y)
if-holds P true x y p q = p
if-holds P false x y p q = q

module _ {S : Type 0} (putch : ℕ → S → S) (P : S → Type 0)
    (keep : (c : ℕ) (s : S) → P s → P (putch c s)) where
  repeat_putch-holds : (n c : ℕ) (s : S) → P s → P (repeat_putch putch n c s)
  unfolding repeat_putch
  repeat_putch-holds zero c s p = p
  repeat_putch-holds (suc n) c s p = repeat_putch-holds n c (putch c s) (keep c s p)

  printnum_loop-holds :
      (f num base width padc : ℕ) (s : S) → P s → P (printnum_loop putch f num base width padc s)
  unfolding printnum_loop
  printnum_loop-holds zero num base width padc s p = p
  printnum_loop-holds (suc f) num base width padc s p = elim (Bool-cases (leb base num)) [
    | inl more ↦ rw (more, printnum_loop) (keep _ _ (printnum_loop-holds f _ base _ padc s p))
    | inr last ↦ rw (last, printnum_loop) (keep _ _ (repeat_putch-holds _ padc s p))
  ]

  printnum-holds :
      (num base width padc : ℕ) (s : S) → P s → P (printnum putch num base width padc s)
  unfolding printnum
  printnum-holds = printnum_loop-holds 64

  put_string-holds :
      (alt : Bool) (p : List ℕ) (precision width : ℕ) (s : S)
      → P s
      → P (put_string putch alt p precision width s).1
  unfolding put_string
  put_string-holds alt [] precision width s h = h
  put_string-holds alt (c ∷ p) precision width s h =
      elim (Bool-cases (slt precision 0 || sle 0 (sub32 precision 1))) [
        | inl more ↦ rw (more, put_string) (put_string-holds alt p _ _ _ (keep _ s h))
        | inr stop ↦ rw (stop, put_string) h
      ]

  format_string-holds : (fl : Flags) (p : List ℕ) (s : S) → P s → P (format_string putch fl p s)
  unfolding format_string
  format_string-holds fl p s h =
      repeat_putch-holds _ _ _
        (put_string-holds fl.altflag p _ _ _ (if-holds P _ _ _ (repeat_putch-holds _ _ s h) h))

  module _ (string_at : ℕ → List ℕ) (error_address : ℕ → ℕ) where
    -- the predicate on what one conversion leaves
    abbrev Left : ℕ × List ℕ × S → Type 0
    Left r = P r.2

    put_signed-Keeps :
        (fl : Flags) (i : ℕ) (r : ℕ × List ℕ) (s : S)
        → P s
        → Keeps Left (put_signed putch string_at error_address fl i r s)
    unfolding put_signed
    put_signed-Keeps fl i r s h =
        if-holds (Keeps Left) (leb (2 ^ 63) r.0) _ _
          (printnum-holds _ 10 fl.width fl.padc _ (keep b'-' s h))
          (printnum-holds _ 10 fl.width fl.padc s h)

    module _ (nested : List ℕ → List ℕ → S → Run S)
        (ok : (g ap : List ℕ) (s : S) → P s → Keeps P (nested g ap s)) where
      put_message-Keeps :
          (i err : ℕ) (ap : List ℕ) (s : S) (o : Option (List ℕ))
          → P s
          → Keeps Left (put_message putch string_at error_address nested i err ap s o)
      unfolding put_message
      put_message-Keeps i err ap s none h = bind-Keeps P Left _ _ (ok _ _ s h) (λ s' p. p)
      put_message-Keeps i err ap s (some p) h = bind-Keeps P Left _ _ (ok _ _ s h) (λ s' p. p)

      put_error-Keeps :
          (i : ℕ) (r : ℕ × List ℕ) (s : S)
          → P s
          → Keeps Left (put_error putch string_at error_address nested i r s)
      unfolding put_error
      put_error-Keeps i r s h =
          if-holds (Keeps Left) (sle max_error (magnitude r.0)) _ _
            (put_message-Keeps i _ r.1 s none h)
            (if-holds (Keeps Left) (slt (magnitude r.0) 0) _ _ tt
              (put_message-Keeps i _ r.1 s (error_string (magnitude r.0)) h))

      convert-Keeps :
          (d : Directive) (fmt : List ℕ) (i : ℕ) (fl : Flags) (ap : List ℕ) (s : S)
          → P s
          → Keeps Left (convert putch string_at error_address nested d fmt i fl ap s)
      unfolding convert put_pointed
      convert-Keeps error fmt i fl ap s h =
          bind-Keeps _ Left (take_word ap) _ (any-Keeps _) (λ r _. put_error-Keeps i r s h)
      convert-Keeps char fmt i fl ap s h =
          bind-Keeps _ Left (take_word ap) _ (any-Keeps _) (λ r _. keep r.0 s h)
      convert-Keeps string fmt i fl ap s h =
          bind-Keeps _ Left (take_word ap) _ (any-Keeps _) (λ r _. format_string-holds fl _ s h)
      convert-Keeps signed fmt i fl ap s h =
          bind-Keeps _ Left (getint fl.lflag ap) _ (any-Keeps _)
            (λ r _. put_signed-Keeps fl i r s h)
      convert-Keeps unsigned fmt i fl ap s h =
          bind-Keeps _ Left (getuint fl.lflag ap) _ (any-Keeps _)
            (λ r _. printnum-holds r.0 10 fl.width fl.padc s h)
      convert-Keeps octal fmt i fl ap s h = keep _ _ (keep _ _ (keep _ _ h))
      convert-Keeps pointer fmt i fl ap s h =
          bind-Keeps _ Left (take_word ap) _ (any-Keeps _)
            (λ r _. printnum-holds r.0 16 fl.width fl.padc _ (keep _ _ (keep _ _ h)))
      convert-Keeps hex fmt i fl ap s h =
          bind-Keeps _ Left (getuint fl.lflag ap) _ (any-Keeps _)
            (λ r _. printnum-holds r.0 16 fl.width fl.padc s h)
      convert-Keeps percent fmt i fl ap s h = keep _ _ h
      convert-Keeps _ fmt i fl ap s h =
          bind-Keeps _ Left (back_up fmt (i - 1)) _ (any-Keeps _) (λ j _. keep _ _ h)

      -- one round of `reswitch`, with the later rounds as a hypothesis
      round-Keeps :
          (f : ℕ) (fmt : List ℕ) (i : ℕ) (fl : Flags) (ap : List ℕ) (s : S)
          → P s
          → ((j : ℕ) (fl : Flags) (ap : List ℕ)
              → Keeps Left (reswitch putch string_at error_address nested f fmt j fl ap s))
          → (d : Directive) → classify (get_or fmt i 0) ≡ d
          → Keeps Left (reswitch putch string_at error_address nested (suc f) fmt i fl ap s)
      unfolding reswitch
      round-Keeps f fmt i fl ap s h later pad_right k = rw (k, reswitch) (later (i + 1) _ ap)
      round-Keeps f fmt i fl ap s h later pad_zero k = rw (k, reswitch) (later (i + 1) _ ap)
      round-Keeps f fmt i fl ap s h later dot k = rw (k, reswitch) (later (i + 1) _ ap)
      round-Keeps f fmt i fl ap s h later hash k = rw (k, reswitch) (later (i + 1) _ ap)
      round-Keeps f fmt i fl ap s h later long k = rw (k, reswitch) (later (i + 1) _ ap)
      round-Keeps f fmt i fl ap s h later digit k =
          rw (k, reswitch)
            (bind-Keeps _ Left (read_digits (suc (length fmt)) fmt (i + 1) (get_or fmt i 0) 0) _
              (any-Keeps _) (λ r _. later r.1 _ ap))
      round-Keeps f fmt i fl ap s h later star k =
          rw (k, reswitch)
            (bind-Keeps _ Left (take_word ap) _ (any-Keeps _) (λ r _. later (i + 1) _ r.1))
      round-Keeps f fmt i fl ap s h later char k =
          rw (k, reswitch) (convert-Keeps char fmt (i + 1) fl ap s h)
      round-Keeps f fmt i fl ap s h later error k =
          rw (k, reswitch) (convert-Keeps error fmt (i + 1) fl ap s h)
      round-Keeps f fmt i fl ap s h later string k =
          rw (k, reswitch) (convert-Keeps string fmt (i + 1) fl ap s h)
      round-Keeps f fmt i fl ap s h later signed k =
          rw (k, reswitch) (convert-Keeps signed fmt (i + 1) fl ap s h)
      round-Keeps f fmt i fl ap s h later unsigned k =
          rw (k, reswitch) (convert-Keeps unsigned fmt (i + 1) fl ap s h)
      round-Keeps f fmt i fl ap s h later octal k =
          rw (k, reswitch) (convert-Keeps octal fmt (i + 1) fl ap s h)
      round-Keeps f fmt i fl ap s h later pointer k =
          rw (k, reswitch) (convert-Keeps pointer fmt (i + 1) fl ap s h)
      round-Keeps f fmt i fl ap s h later hex k =
          rw (k, reswitch) (convert-Keeps hex fmt (i + 1) fl ap s h)
      round-Keeps f fmt i fl ap s h later percent k =
          rw (k, reswitch) (convert-Keeps percent fmt (i + 1) fl ap s h)
      round-Keeps f fmt i fl ap s h later other k =
          rw (k, reswitch) (convert-Keeps other fmt (i + 1) fl ap s h)

      reswitch-Keeps :
          (f : ℕ) (fmt : List ℕ) (i : ℕ) (fl : Flags) (ap : List ℕ) (s : S)
          → P s
          → Keeps Left (reswitch putch string_at error_address nested f fmt i fl ap s)
      unfolding reswitch
      reswitch-Keeps zero fmt i fl ap s h = tt
      reswitch-Keeps (suc f) fmt i fl ap s h =
          round-Keeps f fmt i fl ap s h (λ j fl' ap'. reswitch-Keeps f fmt j fl' ap' s h)
            (classify (get_or fmt i 0)) refl

    vprintfmt-Keeps :
        (f : ℕ) (fmt : List ℕ) (i : ℕ) (ap : List ℕ) (s : S)
        → P s
        → Keeps P (vprintfmt putch string_at error_address f fmt i ap s)
    unfolding vprintfmt
    vprintfmt-Keeps zero fmt i ap s h = tt
    vprintfmt-Keeps (suc f) fmt i ap s h = elim (Bool-cases (get_or fmt i 0 == b'%')) [
      | inl pct ↦
          rw (pct, vprintfmt)
            (bind-Keeps Left P _ _
              (reswitch-Keeps _ (λ g a t. vprintfmt-Keeps f g 0 a t) (suc (length fmt)) fmt (i + 1)
                no_flags ap s h)
              (λ r. vprintfmt-Keeps f fmt r.0 r.1 r.2))
      | inr plain ↦ elim (Bool-cases (get_or fmt i 0 == 0)) [
        | inl end ↦ rw (plain, end, vprintfmt) h
        | inr more ↦ rw (plain, more, vprintfmt) (vprintfmt-Keeps f fmt (i + 1) ap _ (keep _ s h))
      ]
    ]

    -- What every call of `putch` keeps holds of the state that `printfmt` returns, if it held before.
    pub printfmt-Keeps :
        (fmt ap : List ℕ) (s : S) → P s → Keeps P (printfmt putch string_at error_address fmt ap s)
    unfolding printfmt
    printfmt-Keeps fmt ap s h = vprintfmt-Keeps (length fmt + 10) fmt 0 ap s h
