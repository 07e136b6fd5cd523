-- ===== src/Prelude/Decimal.antt =====
-- strconv.Itoa and strconv.Atoi on the digits of a number that is not negative.
use Prim.Native.Nat.{ℕ, zero, suc, ◌+◌, ◌-◌, ◌*◌, ◌/◌, ◌%◌, ◌^◌, ◌≤◌, ◌<◌}
use mathlib.Core.Path.{◌≡◌, refl, ◌∙◌, ap}
use mathlib.Core.Bool.{Bool, ◌&&◌}
use mathlib.Core.Option.{Option, none, some}
use mathlib.Core.List.{[], ◌∷◌, ◌++◌}
use mathlib.Core.Logic.{inl, inr}
use native.Mathlib.Omega.{arith}
use snapshot.Prelude.Tests.{ltb, leb, if◌then◌else◌, Bool-cases}
use snapshot.Prelude.Text.{Str}

abbrev pub max_int64 : ℕ
max_int64 = 2 ^ 63 - 1

unfoldable pub is_digit : ℕ → Bool
is_digit c = leb 48 c && leb c 57

-- The decimal digits of n, for fuel above n.
unfoldable pub digits_of : ℕ → ℕ → Str
digits_of zero n = []
digits_of (suc f) n =
    let rest = digits_of f (n / 10) ++ (48 + n % 10) ∷ [] in
    if ltb n 10 then (48 + n) ∷ [] else rest

unfoldable pub itoa : ℕ → Str
unfolding digits_of
itoa n = digits_of (suc n) n

-- The number that a run of digits stands for; `none` where a character is not a digit.
unfoldable pub value_from : ℕ → Str → Option ℕ
value_from acc [] = some acc
value_from acc (c ∷ s) =
    let rest = value_from (acc * 10 + (c - 48)) s in if is_digit c then rest else none

abbrev checked : Option ℕ → Option ℕ
checked none = none
checked (some n) = if leb n max_int64 then some n else none

-- strconv.Atoi on a text with no sign: `none` where it returns an error.
unfoldable pub atoi_digits : Str → Option ℕ
unfolding value_from is_digit
atoi_digits [] = none
atoi_digits (c ∷ s) = checked (value_from 0 (c ∷ s))

abbrev scaled : Option ℕ → ℕ → Option ℕ
scaled none d = none
scaled (some n) d = some (n * 10 + d)

value_from-snoc :
    (acc d : ℕ) (s : Str)
    → d < 10
    → value_from acc (s ++ (48 + d) ∷ []) ≡ scaled (value_from acc s) d
unfolding value_from is_digit
value_from-snoc acc d [] h = ground arith
value_from-snoc acc d (c ∷ s) h = ground (arith, value_from-snoc (acc * 10 + (c - 48)) d s)

value_from-digits_of : (f n : ℕ) → n < f → value_from 0 (digits_of f n) ≡ some n
unfolding digits_of
value_from-digits_of zero n h = elim h [ ]
value_from-digits_of (suc f) n h = elim (Bool-cases (ltb n 10)) [
  | inl small ↦ rw small (unfold value_from is_digit in ground arith)
  | inr large ↦ rw large (
      value_from-snoc 0 (n % 10) (digits_of f (n / 10)) (omega arith)
      ∙ ap (λ o. scaled o (n % 10)) (value_from-digits_of f (n / 10) (ground arith))
      ∙ ap some (omega arith))
]

atoi_digits-snoc :
    (s : Str) (d : ℕ) → atoi_digits (s ++ d ∷ []) ≡ checked (value_from 0 (s ++ d ∷ []))
unfolding atoi_digits
atoi_digits-snoc [] d = refl
atoi_digits-snoc (c ∷ s) d = refl

atoi_digits-digits_of :
    (f n : ℕ) → atoi_digits (digits_of (suc f) n) ≡ checked (value_from 0 (digits_of (suc f) n))
unfolding digits_of
atoi_digits-digits_of f n = elim (Bool-cases (ltb n 10)) [
  | inl small ↦ rw small (atoi_digits-snoc [] (48 + n))
  | inr large ↦ rw large (atoi_digits-snoc (digits_of f (n / 10)) (48 + n % 10))
]

-- Atoi reads back what Itoa printed.
pub atoi_digits-itoa : (n : ℕ) → n ≤ max_int64 → atoi_digits (itoa n) ≡ some n
unfolding itoa
atoi_digits-itoa n h =
    atoi_digits-digits_of n n
    ∙ ap checked (value_from-digits_of (suc n) n (omega arith))
    ∙ ground arith
