-- ===== src/Printfmt.antt =====
-- lib/printfmt.c: printnum and vprintfmt over any `putch`, which acts on a state `S` that stands for
-- `putdat` and all that the call changes. A format is the list of its bytes with an index into it; the
-- cell behind the last byte is the NUL. A `va_list` is the list of the 32-bit words that are left on
-- the stack, and a missing word is a fault. `int`s are 32-bit patterns that wrap.
pub mod Format
pub mod Number
pub mod Digits
pub mod Scanning
pub mod Progress
pub mod Invariant
pub mod Collecting
pub mod Total
pub mod Pieces
pub mod Rendering
pub mod Buffer
mod Tests
use sisop_tps.Prelude.{
  ℕ, zero, suc, ◌+◌, ◌-◌, ◌*◌, ◌/◌, ◌%◌, ◌^◌, ◌<◌, min, Bool, true, false, not, ◌&&◌, ◌||◌, Option,
  none, some, List, [], ◌∷◌, ◌==◌, ltb, leb, if◌then◌else◌, add32, sub32, neg64, sle, slt,
  sign_extend8, word, half_word, get_or, length, codes,
}
use sisop_tps.Prelude.Run.{Run, done, fault, no_fuel, ◌>>=◌}

-- `-1` as an `int`
abbrev pub minus_one : ℕ
minus_one = 0xffff_ffff

abbrev pub max_error : ℕ
max_error = 7

-- the table of messages; `none` is a null entry
pub error_string : ℕ → Option (List ℕ)
error_string err =
    get_or
      (none
        ∷ some (codes "unspecified error")
        ∷ some (codes "bad environment")
        ∷ some (codes "invalid parameter")
        ∷ some (codes "out of memory")
        ∷ some (codes "out of environments")
        ∷ some (codes "segmentation fault")
        ∷ [])
      err none

-- `"0123456789abcdef"[d]`, for the digits of a base up to 16
pub digit_char : ℕ → ℕ
digit_char d = get_or (codes "0123456789abcdef") d 0

-- how often a loop that counts `width` down while it is positive runs
abbrev pub positive : ℕ → ℕ
positive width = if slt 0 width then width else 0

abbrev pub take_word : List ℕ → Run (ℕ × List ℕ)
take_word [] = fault
take_word (w ∷ ap) = done (w, ap)

-- a `long long` is two words, the low one first
abbrev pub take_two_words : List ℕ → Run (ℕ × List ℕ)
take_two_words [] = fault
take_two_words (lo ∷ []) = fault
take_two_words (lo ∷ hi ∷ ap) = done (lo + hi * word, ap)

-- an `int` as a `long long`
abbrev pub sign_extend32 : ℕ → ℕ
sign_extend32 w = if ltb w half_word then w else w + (2 ^ 64 - word)

pub getuint : ℕ → List ℕ → Run (ℕ × List ℕ)
getuint lflag ap =
    if sle 2 lflag
    then take_two_words ap
    else if not (lflag == 0)
    then take_word ap
    else take_word ap

pub getint : ℕ → List ℕ → Run (ℕ × List ℕ)
getint lflag ap =
    if sle 2 lflag then take_two_words ap else (take_word ap >>= λ r. done (sign_extend32 r.0, r.1))

-- the variables that the flags of one conversion set
pub record Flags : Type 0 where
  pub padc : ℕ
  pub width : ℕ
  pub precision : ℕ
  pub lflag : ℕ
  pub altflag : Bool

abbrev pub no_flags : Flags
no_flags = record {
  padc = b' ';
  width = minus_one;
  precision = minus_one;
  lflag = 0;
  altflag = false;
}

-- the cases of the switch
pub data Directive : Type 0 where
  pad_right pad_zero digit star dot hash long : Directive
  char error string signed unsigned octal pointer hex percent other : Directive

pub classify : ℕ → Directive
classify ch =
    if ch == b'-'
    then pad_right
    else if ch == b'0'
    then pad_zero
    else if leb b'1' ch && leb ch b'9'
    then digit
    else if ch == b'*'
    then star
    else if ch == b'.'
    then dot
    else if ch == b'#'
    then hash
    else if ch == b'l'
    then long
    else if ch == b'c'
    then char
    else if ch == b'e'
    then error
    else if ch == b's'
    then string
    else if ch == b'd'
    then signed
    else if ch == b'u'
    then unsigned
    else if ch == b'o'
    then octal
    else if ch == b'p'
    then pointer
    else if ch == b'x'
    then hex
    else if ch == b'%'
    then percent
    else other

-- `process_precision`
abbrev pub process_precision : ℕ → Flags → Flags
process_precision precision fl =
    if slt fl.width 0
    then record fl { width = precision; precision = minus_one }
    else record fl { precision = precision }

-- the digits of a width: `precision`, and the index of the first byte that is no digit
pub read_digits : ℕ → List ℕ → ℕ → ℕ → ℕ → Run (ℕ × ℕ)
read_digits zero fmt i ch precision = no_fuel
read_digits (suc f) fmt i ch precision =
    let p = sub32 (add32 (precision * 10 % word) ch) b'0' in
    let next = get_or fmt i 0 in
    let rest = read_digits f fmt (i + 1) next p in
    if ltb next b'0' || ltb b'9' next then done (p, i) else rest

-- `for (fmt--; fmt[-1] != '%'; fmt--)`, from the index behind the first decrement; in front of the format the
-- loop would go on, and the model has no result
pub back_up : List ℕ → ℕ → Run ℕ
back_up fmt zero = no_fuel
back_up fmt (suc i) = if get_or fmt i 0 == b'%' then done (suc i) else back_up fmt i

-- `err < 0 ? -err : err`
abbrev pub magnitude : ℕ → ℕ
magnitude err = if slt err 0 then sub32 0 err else err

module _ {S : Type 0} (putch : ℕ → S → S) where
  -- `putch(c)`, as many times as counted
  pub repeat_putch : ℕ → ℕ → S → S
  repeat_putch zero c s = s
  repeat_putch (suc n) c s = repeat_putch n c (putch c s)

  -- The fuel bounds the depth, so the digits.
  pub printnum_loop : ℕ → ℕ → ℕ → ℕ → ℕ → S → S
  printnum_loop zero num base width padc s = s
  printnum_loop (suc f) num base width padc s =
      putch (digit_char (num % base)) (elim (leb base num) [
        | true ↦ printnum_loop f (num / base) base (sub32 width 1) padc s
        | false ↦ repeat_putch (positive (sub32 width 1)) padc s
      ])

  -- 64 digits are enough for an `unsigned long long` in any base from 2 on.
  pub printnum : ℕ → ℕ → ℕ → ℕ → S → S
  printnum = printnum_loop 64

  -- the loop of `%s` over the string, with what is left of `width`
  pub put_string : Bool → List ℕ → ℕ → ℕ → S → ℕ × S
  put_string alt [] precision width s = (width, s)
  put_string alt (c ∷ p) precision width s =
      let ch = sign_extend8 c in
      elim (slt precision 0 || sle 0 (sub32 precision 1)) [
        | true ↦
            put_string alt p (if slt precision 0 then precision else sub32 precision 1)
              (sub32 width 1) (putch (if alt && (slt ch b' ' || slt b'~' ch) then b'?' else ch) s)
        | false ↦ (width, s)
      ]

  -- `case 's'`, on the string `p`
  pub format_string : Flags → List ℕ → S → S
  format_string fl p s =
      let padding = slt 0 fl.width && not (fl.padc == b'-') in
      let width = if padding then sub32 fl.width (min (length p) fl.precision) else fl.width in
      let s₁ = if padding then repeat_putch (positive width) fl.padc s else s in
      let (left, s₂) =
        put_string fl.altflag p fl.precision (if padding && slt 0 width then 0 else width) s₁ in
      repeat_putch (positive left) b' ' s₂
