-- ===== src/Printfmt/Format.antt =====
-- vprintfmt and printfmt of lib/printfmt.c. `string_at` is the string that a pointer argument leads to,
-- and `error_address` the place that the linker gave each message of `error_string`.
use sisop_tps.Prelude.{
  ℕ, zero, suc, ◌+◌, ◌-◌, ◌^◌, true, false, Option, none, some, List, [], ◌∷◌, ◌==◌, leb,
  if◌then◌else◌, add32, neg64, sle, get_or, length, codes,
}
use sisop_tps.Prelude.Run.{Run, done, fault, no_fuel, ◌>>=◌}
use sisop_tps.Printfmt.{
  Flags, no_flags, Directive, pad_right, pad_zero, digit, star, dot, hash, long, char, error,
  string, signed, unsigned, octal, pointer, hex, percent, classify, process_precision, read_digits,
  back_up, magnitude, max_error, error_string, take_word, getuint, getint, printnum, format_string,
}
use sisop_tps.Prelude.{slt}

module _ {S : Type 0} (putch : ℕ → S → S) (string_at : ℕ → List ℕ) (error_address : ℕ → ℕ) where
  -- what the outer loop goes on with: the index into the format, the arguments left, the state
  abbrev pub Next : Type 0
  Next = ℕ × List ℕ × S

  -- `number:`
  abbrev pub put_number : Flags → ℕ → ℕ → ℕ × List ℕ → S → Run Next
  put_number fl base i (num, ap) s = done (i, ap, printnum putch num base fl.width fl.padc s)

  -- `case 'd'`
  unfoldable pub put_signed : Flags → ℕ → ℕ × List ℕ → S → Run Next
  put_signed fl i (num, ap) s =
      if leb (2 ^ 63) num
      then put_number fl 10 i (neg64 num, ap) (putch b'-' s)
      else put_number fl 10 i (num, ap) s

  -- the message of an error number, or `none` where the table has a null entry
  unfoldable pub put_message :
      (List ℕ → List ℕ → S → Run S) → ℕ → ℕ → List ℕ → S → Option (List ℕ) → Run Next
  put_message nested i err ap s none =
      nested (codes "error %d") (err ∷ []) s >>= λ s'. done (i, ap, s')
  put_message nested i err ap s (some p) =
      nested (codes "%s") (error_address err ∷ []) s >>= λ s'. done (i, ap, s')

  -- `case 'e'`; `nested` is the call of printfmt with its format and its arguments. An `err` that is
  -- still negative indexes the table from below.
  unfoldable pub put_error : (List ℕ → List ℕ → S → Run S) → ℕ → ℕ × List ℕ → S → Run Next
  put_error nested i (arg, ap) s =
      let err = magnitude arg in
      if sle max_error err
      then put_message nested i err ap s none
      else if slt err 0
      then fault
      else put_message nested i err ap s (error_string err)

  -- `case 's'` on a pointer argument
  unfoldable pub put_pointed : Flags → ℕ → ℕ × List ℕ → S → Run Next
  put_pointed fl i (p, ap) s =
      done (i, ap, format_string putch fl (if p == 0 then codes "(null)" else string_at p) s)

  -- the cases that end a conversion; `i` is the index behind the conversion's byte `ch`
  unfoldable pub convert :
      (List ℕ → List ℕ → S → Run S) → Directive → List ℕ → ℕ → Flags → List ℕ → S → Run Next
  convert nested char fmt i fl ap s = take_word ap >>= λ r. done (i, r.1, putch r.0 s)
  convert nested error fmt i fl ap s = take_word ap >>= λ r. put_error nested i r s
  convert nested string fmt i fl ap s = take_word ap >>= λ r. put_pointed fl i r s
  convert nested signed fmt i fl ap s = getint fl.lflag ap >>= λ r. put_signed fl i r s
  convert nested unsigned fmt i fl ap s = getuint fl.lflag ap >>= λ r. put_number fl 10 i r s
  convert nested octal fmt i fl ap s = done (i, ap, putch b'X' (putch b'X' (putch b'X' s)))
  convert nested pointer fmt i fl ap s =
      take_word ap >>= λ r. put_number fl 16 i r (putch b'x' (putch b'0' s))
  convert nested hex fmt i fl ap s = getuint fl.lflag ap >>= λ r. put_number fl 16 i r s
  convert nested percent fmt i fl ap s = done (i, ap, putch b'%' s)
  convert nested _ fmt i fl ap s = back_up fmt (i - 1) >>= λ j. done (j, ap, putch b'%' s)

  -- `reswitch:`, entered with `i` at the byte to switch on
  unfoldable pub reswitch :
      (List ℕ → List ℕ → S → Run S) → ℕ → List ℕ → ℕ → Flags → List ℕ → S → Run Next
  reswitch nested zero fmt i fl ap s = no_fuel
  reswitch nested (suc f) fmt i fl ap s = elim (classify (get_or fmt i 0)) [
    | pad_right ↦ reswitch nested f fmt (i + 1) (record fl { padc = b'-' }) ap s
    | pad_zero ↦ reswitch nested f fmt (i + 1) (record fl { padc = b'0' }) ap s
    | digit ↦ read_digits (suc (length fmt)) fmt (i + 1) (get_or fmt i 0) 0 >>= λ r.
        reswitch nested f fmt r.1 (process_precision r.0 fl) ap s
    | star ↦ take_word ap >>= λ r. reswitch nested f fmt (i + 1) (process_precision r.0 fl) r.1 s
    | dot ↦
        reswitch nested f fmt (i + 1) (record fl { width = if slt fl.width 0 then 0 else fl.width })
          ap s
    | hash ↦ reswitch nested f fmt (i + 1) (record fl { altflag = true }) ap s
    | long ↦ reswitch nested f fmt (i + 1) (record fl { lflag = add32 fl.lflag 1 }) ap s
    | d ↦ convert nested d fmt (i + 1) fl ap s
  ]

  -- the outer loop
  unfoldable pub vprintfmt : ℕ → List ℕ → ℕ → List ℕ → S → Run S
  vprintfmt zero fmt i ap s = no_fuel
  vprintfmt (suc f) fmt i ap s = elim (get_or fmt i 0 == b'%') [
    | true ↦ reswitch (λ g. vprintfmt f g 0) (suc (length fmt)) fmt (i + 1) no_flags ap s >>= λ r.
        vprintfmt f fmt r.0 r.1 r.2
    | false ↦ elim (get_or fmt i 0 == 0) [
      | true ↦ done s
      | false ↦ vprintfmt f fmt (i + 1) ap (putch (get_or fmt i 0) s)
    ]
  ]

  -- a call with the fuel that `Total` proves enough
  unfoldable pub printfmt : List ℕ → List ℕ → S → Run S
  printfmt fmt ap s = vprintfmt (length fmt + 10) fmt 0 ap s
