-- ===== src/Base.antt =====
-- The names that the other modules share: those of the libraries, passed on, and helpers on tests,
-- lists, bits and machine words.
mod Tests
mod Lists
mod Bits
mod Words
pub mod Span
pub use Tests.*
pub use Lists.*
unfoldable pub use Bits.{all_below}
pub use Bits.{
  all_below-true, bit_or-shifted, bit_and-le, bit_and-low_byte, bit_and_mask8, bit_and_mask24,
  bit_and_mask32, bit_and_mask, two_pow_positive, bit_and-round_down,
}
pub use Words.*
pub use Prim.Native.Nat.{
  ℕ, zero, suc, ◌+◌, ◌-◌, ◌*◌, ◌/◌, ◌%◌, ◌^◌, ◌≤◌, ◌<◌, min, max, bit_and, bit_or, bit_xor,
}
pub use mathlib.Core.Path.{◌≡◌, refl, sym, ap, ap₂, subst, ◌∙◌}
pub use mathlib.Core.Logic.{◌≢◌, ◌↔◌, ◌⊎◌, inl, inr}
pub use mathlib.Core.Bool.{Bool, true, false, not, ◌&&◌, ◌||◌}
pub use mathlib.Core.Option.{Option, none, some}
pub use mathlib.Core.List.{List, [], ◌∷◌, ◌++◌, map, append-nil, append_assoc}
pub use native.Mathlib.Omega.{arith}
