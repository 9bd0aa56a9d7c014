-- ===== src/Printfmt/Total.antt =====
-- vprintfmt of lib/printfmt.c ends on every format and argument list: the model's fuel is enough.
use sisop_tps.Prelude.{
  ℕ, zero, suc, ◌+◌, ◌-◌, ◌≤◌, ◌<◌, ◌≡◌, ◌≢◌, inl, inr, List, ◌==◌, Bool-cases, get_or, length,
  arith,
}
use sisop_tps.Prelude.Run.{Run, ◌>>=◌, done, fault, no_fuel}
use sisop_tps.Printfmt.{classify, back_up, getint, no_flags}
use sisop_tps.Printfmt.Format.{reswitch, convert, put_signed, put_pointed, vprintfmt, printfmt}
use sisop_tps.Printfmt.Progress.{GoesOn, Nested, reswitch-GoesOn}
use sisop_tps.Printfmt.Scanning.{get_or-nonzero}

module _ {S : Type 0} (putch : ℕ → S → S) (string_at : ℕ → List ℕ) (error_address : ℕ → ℕ) where
  bind-ne-no_fuel :
      (start : ℕ) (m : Run (ℕ × List ℕ × S)) (k : ℕ × List ℕ × S → Run S)
      → GoesOn putch string_at error_address start m
      → ((r : ℕ × List ℕ × S) → start < r.0 → k r ≢ no_fuel)
      → (m >>= k) ≢ no_fuel
  bind-ne-no_fuel start (done r) k h n = n r h
  bind-ne-no_fuel start fault k h n = λ e. cc
  bind-ne-no_fuel start no_fuel k h n = absurd h

  -- The calls for `%e` end, with nine units of fuel.
  nested_lem :
      (f g : ℕ)
      → f ≡ suc (suc (suc (suc (suc (suc (suc (suc (suc g))))))))
      → Nested putch string_at error_address
          (λ fmt. vprintfmt putch string_at error_address f fmt 0)
  unfolding vprintfmt reswitch convert put_signed put_pointed getint classify back_up
  nested_lem f g e = (λ a s. rw e (ground arith), λ a s. rw e (λ h. cc))

  loop-ne-no_fuel :
      (f : ℕ) (fmt : List ℕ) (i : ℕ) (ap : List ℕ) (s : S)
      → length fmt - i + 10 ≤ f
      → vprintfmt putch string_at error_address f fmt i ap s ≢ no_fuel
  unfolding vprintfmt
  loop-ne-no_fuel zero fmt i ap s h = absurd (omega arith)
  loop-ne-no_fuel (suc f) fmt i ap s h = elim (Bool-cases (get_or fmt i 0 == b'%')) [
    | inl pct ↦
        let in_fmt : i < length fmt = get_or-nonzero fmt i (λ z. ground arith) in
        rw (pct, vprintfmt)
          (bind-ne-no_fuel i _ _
            (reswitch-GoesOn putch string_at error_address _ (nested_lem f (f - 9) (omega arith))
              (suc (length fmt)) fmt i (i + 1) no_flags ap s (ground arith) (omega arith)
              (omega arith) (omega arith))
            (λ r l. loop-ne-no_fuel f fmt r.0 r.1 r.2 (omega arith)))
    | inr plain ↦ elim (Bool-cases (get_or fmt i 0 == 0)) [
      | inl end ↦ rw (plain, end, vprintfmt) (λ e. cc)
      | inr more ↦
          let in_fmt : i < length fmt = get_or-nonzero fmt i (λ z. ground arith) in
          rw (plain, more, vprintfmt) (loop-ne-no_fuel f fmt (i + 1) ap _ (omega arith))
    ]
  ]

  -- Whatever the format and the arguments, no loop of `printfmt` runs on: the fuel of its scans and of its
  -- calls for %e never runs out, and the search back for a `%` never leaves the format.
  pub printfmt-ne-no_fuel :
      (fmt ap : List ℕ) (s : S) → printfmt putch string_at error_address fmt ap s ≢ no_fuel
  unfolding printfmt
  printfmt-ne-no_fuel fmt ap s = loop-ne-no_fuel (length fmt + 10) fmt 0 ap s (omega arith)
