-- ===== src/Prelude.antt =====
-- Names that all modules share: the libraries', passed on, and those of the children below.
-- No source file of its own.
mod Tests
mod Lists
mod Word
mod Bits
pub mod Run
pub use Tests.*
pub use Lists.*
unfoldable pub use Word.{add32, sub32, neg64}
pub use Word.{word, half_word, slt, sle, sign_extend8, bias, add32_exact, sub32_exact, slt_small}
pub use Word.{slt_neg}
unfoldable pub use Bits.{all_below}
pub use Bits.{
  all_below_sound, bit_and-zero, bit_and_step, bit_and-one, bit_and-ones, bit_and-ones_above, ones,
  ones_above,
}
pub use Bits.{low_bits, high_bits, shifted, bit_or-shifted}
pub use Prim.Native.Nat.{
  ℕ, zero, suc, ◌+◌, ◌-◌, ◌*◌, ◌/◌, ◌%◌, ◌^◌, ◌≤◌, ◌<◌, bit_and, bit_or, bit_xor, min,
}
pub use mathlib.Core.Path.{◌≡◌, refl, sym, ap, ap₂, ◌∙◌, subst, fun_ext}
pub use mathlib.Core.Logic.{◌≢◌, ◌↔◌, ◌⊎◌, inl, inr}
pub use mathlib.Core.Bool.{Bool, true, false, not, ◌&&◌, ◌||◌}
pub use mathlib.Core.Option.{Option, none, some}
pub use mathlib.Core.List.{List, [], ◌∷◌, ◌++◌, map, foldl, foldl-append, append-nil, append_assoc}
pub use native.Mathlib.Omega.{arith}
