-- ===== src/Prelude/Digits.antt =====
-- The digits that Itoa prints.
use Prim.Native.Nat.{ℕ, zero, suc, ◌+◌, ◌/◌, ◌%◌, ◌<◌}
use mathlib.Core.Path.{◌≡◌}
use mathlib.Core.Logic.{inl, inr}
use mathlib.Core.Bool.{true, false}
use native.Mathlib.Omega.{arith}
use snapshot.Prelude.Tests.{ltb, Bool-cases}
use snapshot.Prelude.Lists.{All, All-append}
use snapshot.Prelude.Text.{is_space}
use snapshot.Prelude.Decimal.{is_digit, digits_of, itoa}

abbrev pub IsDigit : ℕ → Type 0
IsDigit c = is_digit c ≡ true

digit_lem : (d : ℕ) → d < 10 → IsDigit (48 + d)
unfolding is_digit
digit_lem d h = ground arith

pub digit_not_space : (c : ℕ) → IsDigit c → is_space c ≡ false
unfolding is_digit is_space
digit_not_space c h = ground arith

digits_of-IsDigit : (f n : ℕ) → All IsDigit (digits_of f n)
unfolding digits_of
digits_of-IsDigit zero n = tt
digits_of-IsDigit (suc f) n = elim (Bool-cases (ltb n 10)) [
  | inl small ↦ rw small (digit_lem n (ground arith), tt)
  | inr large ↦
      rw large (
        All-append IsDigit _ _ (digits_of-IsDigit f (n / 10))
          (digit_lem (n % 10) (omega arith), tt))
]

pub itoa-IsDigit : (n : ℕ) → All IsDigit (itoa n)
unfolding itoa
itoa-IsDigit n = digits_of-IsDigit (suc n) n
