-- ===== src/Printfmt/Progress.antt =====
-- One conversion of vprintfmt (lib/printfmt.c): the switch behind a `%` ends, and leaves the format
-- pointer behind that `%`.
use sisop_tps.Prelude.{
  ℕ, zero, suc, ◌+◌, ◌-◌, ◌≤◌, ◌<◌, ◌≡◌, ◌≢◌, refl, Bool, true, false, Option, none, some, sle, slt,
  List, [], ◌∷◌, if◌then◌else◌, get_or, length, codes, arith,
}
use sisop_tps.Prelude.Run.{◌>>=◌, Run, done, fault, no_fuel}
use sisop_tps.Printfmt.{
  Flags, Directive, pad_right, pad_zero, char, error, string, signed, unsigned, octal, pointer, hex,
  digit, star, dot, hash, long, other, percent, classify, take_word, getint, getuint, error_string,
  magnitude, max_error,
}
use sisop_tps.Printfmt.Format.{reswitch, convert, put_message, put_error, put_signed, put_pointed}
use sisop_tps.Printfmt.Scanning.{
  back_up-ahead, read_digits-ahead, in_format, take_word-fuel, getuint-fuel, getint-fuel,
}

module _ {S : Type 0} (putch : ℕ → S → S) (string_at : ℕ → List ℕ) (error_address : ℕ → ℕ) where
  -- The run has fuel, and goes on behind `start` if it goes on.
  abbrev pub GoesOn : ℕ → Run (ℕ × List ℕ × S) → Type 0
  GoesOn start (done (j, ap, s)) = start < j
  GoesOn start fault = Unit
  GoesOn start no_fuel = ⊥

  bind-GoesOn :
      {A : Type 0} (start : ℕ) (m : Run A) (f : A → Run (ℕ × List ℕ × S))
      → m ≢ no_fuel
      → ((a : A) → GoesOn start (f a))
      → GoesOn start (m >>= f)
  bind-GoesOn start (done a) f h k = k a
  bind-GoesOn start fault f h k = tt
  bind-GoesOn start no_fuel f h k = h refl

  if-GoesOn :
      (start : ℕ) (b : Bool) (x y : Run (ℕ × List ℕ × S))
      → GoesOn start x
      → GoesOn start y
      → GoesOn start (if b then x else y)
  if-GoesOn start true x y p q = p
  if-GoesOn start false x y p q = q

  module _ (nested : List ℕ → List ℕ → S → Run S) where
    -- the two formats that `%e` hands on
    abbrev pub Nested : Type 0
    Nested =
        ((a : ℕ) (s : S) → nested (codes "error %d") (a ∷ []) s ≢ no_fuel)
        × ((a : ℕ) (s : S) → nested (codes "%s") (a ∷ []) s ≢ no_fuel)

    nested-GoesOn :
        (start i : ℕ) (ap : List ℕ) (m : Run S)
        → start < i
        → m ≢ no_fuel
        → GoesOn start (m >>= λ s'. done (i, ap, s'))
    nested-GoesOn start i ap m l h = bind-GoesOn start m _ h (λ s'. l)

    put_message-GoesOn :
        (ok : Nested) (start i err : ℕ) (ap : List ℕ) (s : S)
        → start < i
        → (o : Option (List ℕ))
        → GoesOn start (put_message putch string_at error_address nested i err ap s o)
    unfolding put_message
    put_message-GoesOn ok start i err ap s l none = nested-GoesOn start i ap _ l (ok.0 err s)
    put_message-GoesOn ok start i err ap s l (some p) =
        nested-GoesOn start i ap _ l (ok.1 (error_address err) s)

    put_error-GoesOn :
        (ok : Nested) (start i arg : ℕ) (ap : List ℕ) (s : S)
        → start < i
        → GoesOn start (put_error putch string_at error_address nested i (arg, ap) s)
    unfolding put_error
    put_error-GoesOn ok start i arg ap s l =
        if-GoesOn start (sle max_error (magnitude arg)) _ _ (message none)
          (if-GoesOn start (slt (magnitude arg) 0) _ _ tt (message (error_string (magnitude arg))))
      where
        message :
            (o : Option (List ℕ))
            → GoesOn start
                (put_message putch string_at error_address nested i (magnitude arg) ap s o)
        message = put_message-GoesOn ok start i (magnitude arg) ap s l

    convert-GoesOn :
        (ok : Nested) (d : Directive) (fmt : List ℕ) (start i : ℕ) (fl : Flags) (ap : List ℕ)
        (s : S)
        → get_or fmt start 0 ≡ b'%'
        → start + 1 < i
        → GoesOn start (convert putch string_at error_address nested d fmt i fl ap s)
    unfolding convert put_pointed put_signed getint getuint
    convert-GoesOn ok error fmt start i fl ap s e l =
        bind-GoesOn start (take_word ap) _ (take_word-fuel ap)
          (λ r. put_error-GoesOn ok start i r.0 r.1 s (omega arith))
    convert-GoesOn ok string fmt start i fl ap s e l =
        bind-GoesOn start (take_word ap) _ (take_word-fuel ap) (λ r. omega arith)
    convert-GoesOn ok signed fmt start i fl ap s e l =
        bind-GoesOn start (getint fl.lflag ap) _ (getint-fuel fl.lflag ap) (λ r. ground arith)
    convert-GoesOn ok unsigned fmt start i fl ap s e l =
        bind-GoesOn start (getuint fl.lflag ap) _ (getuint-fuel fl.lflag ap) (λ r. omega arith)
    convert-GoesOn ok octal fmt start i fl ap s e l = omega arith
    convert-GoesOn ok pointer fmt start i fl ap s e l =
        bind-GoesOn start (take_word ap) _ (take_word-fuel ap) (λ r. omega arith)
    convert-GoesOn ok hex fmt start i fl ap s e l =
        bind-GoesOn start (getuint fl.lflag ap) _ (getuint-fuel fl.lflag ap) (λ r. omega arith)
    convert-GoesOn ok percent fmt start i fl ap s e l = omega arith
    convert-GoesOn ok char fmt start i fl ap s e l =
        bind-GoesOn start (take_word ap) _ (take_word-fuel ap) (λ r. omega arith)
    convert-GoesOn ok _ fmt start i fl ap s e l =
        let r = back_up-ahead fmt start (i - 1) e (omega arith) in rw r.1 r.2

    -- one round of `reswitch`, with the later rounds as a hypothesis
    round-GoesOn :
        (ok : Nested) (f : ℕ) (fmt : List ℕ) (start i : ℕ) (fl : Flags) (ap : List ℕ) (s : S)
        → get_or fmt start 0 ≡ b'%'
        → start < i
        → ((j : ℕ) (fl : Flags) (ap : List ℕ)
            → i < j
            → j ≤ length fmt
            → GoesOn start (reswitch putch string_at error_address nested f fmt j fl ap s))
        → (d : Directive) → classify (get_or fmt i 0) ≡ d
        → GoesOn start (reswitch putch string_at error_address nested (suc f) fmt i fl ap s)
    unfolding reswitch
    round-GoesOn ok f fmt start i fl ap s e l later pad_right k =
        rw (k, reswitch) (later (i + 1) _ ap (omega arith) (in_format fmt i k (λ h. cc)))
    round-GoesOn ok f fmt start i fl ap s e l later pad_zero k =
        rw (k, reswitch) (later (i + 1) _ ap (omega arith) (in_format fmt i k (λ h. cc)))
    round-GoesOn ok f fmt start i fl ap s e l later dot k =
        rw (k, reswitch) (later (i + 1) _ ap (omega arith) (in_format fmt i k (λ h. cc)))
    round-GoesOn ok f fmt start i fl ap s e l later hash k =
        rw (k, reswitch) (later (i + 1) _ ap (omega arith) (in_format fmt i k (λ h. cc)))
    round-GoesOn ok f fmt start i fl ap s e l later long k =
        rw (k, reswitch) (later (i + 1) _ ap (omega arith) (in_format fmt i k (λ h. cc)))
    round-GoesOn ok f fmt start i fl ap s e l later digit k =
        let b = in_format fmt i k (λ h. cc) in
        let r =
          read_digits-ahead fmt (suc (length fmt)) (i + 1) (get_or fmt i 0) 0 (omega arith) b in
        rw (k, r.1, reswitch) (later r.0.1 _ ap (omega (arith, r.2)) r.3)
    round-GoesOn ok f fmt start i fl [] s e l later star k = rw (k, reswitch) tt
    round-GoesOn ok f fmt start i fl (w ∷ ws) s e l later star k =
        rw (k, reswitch) (later (i + 1) _ ws (omega arith) (in_format fmt i k (λ h. cc)))
    round-GoesOn ok f fmt start i fl ap s e l later char k =
        rw (k, reswitch) (convert-GoesOn ok char fmt start (i + 1) fl ap s e (omega arith))
    round-GoesOn ok f fmt start i fl ap s e l later error k =
        rw (k, reswitch) (convert-GoesOn ok error fmt start (i + 1) fl ap s e (omega arith))
    round-GoesOn ok f fmt start i fl ap s e l later string k =
        rw (k, reswitch) (convert-GoesOn ok string fmt start (i + 1) fl ap s e (omega arith))
    round-GoesOn ok f fmt start i fl ap s e l later signed k =
        rw (k, reswitch) (convert-GoesOn ok signed fmt start (i + 1) fl ap s e (omega arith))
    round-GoesOn ok f fmt start i fl ap s e l later unsigned k =
        rw (k, reswitch) (convert-GoesOn ok unsigned fmt start (i + 1) fl ap s e (omega arith))
    round-GoesOn ok f fmt start i fl ap s e l later octal k =
        rw (k, reswitch) (convert-GoesOn ok octal fmt start (i + 1) fl ap s e (omega arith))
    round-GoesOn ok f fmt start i fl ap s e l later pointer k =
        rw (k, reswitch) (convert-GoesOn ok pointer fmt start (i + 1) fl ap s e (omega arith))
    round-GoesOn ok f fmt start i fl ap s e l later hex k =
        rw (k, reswitch) (convert-GoesOn ok hex fmt start (i + 1) fl ap s e (omega arith))
    round-GoesOn ok f fmt start i fl ap s e l later percent k =
        rw (k, reswitch) (convert-GoesOn ok percent fmt start (i + 1) fl ap s e (omega arith))
    round-GoesOn ok f fmt start i fl ap s e l later other k =
        rw (k, reswitch) (convert-GoesOn ok other fmt start (i + 1) fl ap s e (omega arith))

    pub reswitch-GoesOn :
        (ok : Nested) (f : ℕ) (fmt : List ℕ) (start i : ℕ) (fl : Flags) (ap : List ℕ) (s : S)
        → get_or fmt start 0 ≡ b'%'
        → start < i
        → i ≤ length fmt
        → length fmt < f + i
        → GoesOn start (reswitch putch string_at error_address nested f fmt i fl ap s)
    reswitch-GoesOn ok zero fmt start i fl ap s e l b h = absurd (omega arith)
    reswitch-GoesOn ok (suc f) fmt start i fl ap s e l b h =
        round-GoesOn ok f fmt start i fl ap s e l
          (λ j fl' ap' k b'.
            reswitch-GoesOn ok f fmt start j fl' ap' s e (omega arith) b' (omega arith))
          (classify (get_or fmt i 0)) refl
