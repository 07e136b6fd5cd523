-- ===== src/Prelude.antt =====
-- Names that the models share: the library's, passed on, and those of the modules below.
mod Tests
mod Lists
mod Text
mod Decimal
mod Digits
pub use Tests.*
pub use Lists.*
pub use Text.{Str, codes, str_eq_iff, str_eq_refl, contains-append, cons_head}
unfoldable pub use Text.{
  str_eq, contains, is_space, trim_left, trim_right, trim_space, split_n, split, cut, join,
}
unfoldable pub use Decimal.{is_digit, digits_of, itoa, value_from, atoi_digits}
pub use Digits.{IsDigit, digit_not_space, itoa-IsDigit}
pub use Decimal.{max_int64, atoi_digits-itoa}
pub use Prim.Native.Nat.{ℕ, zero, suc, ◌+◌, ◌-◌, ◌*◌, ◌/◌, ◌%◌, ◌^◌, ◌≤◌, ◌<◌, compare, Ordering}
pub use Prim.Native.String.{String}
pub use mathlib.Core.Path.{◌≡◌, refl, sym, ap, ◌∙◌, subst}
pub use mathlib.Core.Logic.{◌≢◌, ◌↔◌, ◌⊎◌, inl, inr}
pub use mathlib.Core.Bool.{Bool, true, false, not, ◌&&◌, ◌||◌}
pub use mathlib.Core.Option.{Option, none, some}
pub use mathlib.Core.List.{List, [], ◌∷◌, ◌++◌, map}
pub use native.Mathlib.Omega.{arith}
pub use text.Mathlib.TextEquality.{eq_iff}
