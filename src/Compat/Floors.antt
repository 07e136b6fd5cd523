-- ===== src/Compat/Floors.antt =====
-- The kernel and driver floors on printed versions.
use mathlib.Core.List.{append-nil}
use snapshot.Prelude.{
  ℕ, ◌-◌, ◌≤◌, ◌<◌, Str, ◌≡◌, refl, ap, ◌∙◌, ◌⊎◌, inl, inr, ◌↔◌, Bool, true, false, some, List, [],
  ◌∷◌, ◌++◌, ◌==◌, ◌&&◌, ltb, is_digit, is_space, itoa, atoi_digits, atoi_digits-itoa, max_int64,
  trim_left, trim_right, trim_space, split_n, cons_head, if◌then◌else◌, arith, IsDigit,
  digit_not_space, itoa-IsDigit, All, Bool-cases,
}
use snapshot.Compat.Types.{Environment}
use snapshot.Compat.Versions.{digit_prefix, leading_number, version_of, parse_kernel_version}
use snapshot.Compat.Rules.{kernel_minimum_rule, driver_minimum_rule}

-- A text that does not go on with a digit.
abbrev pub StopsDigits : Str → Type 0
StopsDigits [] = Unit
StopsDigits (c ∷ s) = is_digit c ≡ false

digit_not_dot : (c : ℕ) → IsDigit c → (c == b'.') ≡ false
unfolding is_digit
digit_not_dot c h = ground arith

digit_prefix-append :
    (ds tail : Str) → All IsDigit ds → StopsDigits tail → digit_prefix (ds ++ tail) ≡ ds
unfolding digit_prefix
digit_prefix-append [] [] h t = refl
digit_prefix-append [] (c ∷ s) h t = rw t
digit_prefix-append (d ∷ ds) tail h t = rw h.0 (ap (λ l. d ∷ l) (digit_prefix-append ds tail h.1 t))

pub leading_number-itoa :
    (n : ℕ) (tail : Str)
    → n ≤ max_int64
    → StopsDigits tail
    → leading_number (itoa n ++ tail) ≡ some n
unfolding leading_number
leading_number-itoa n tail h t =
    ap atoi_digits (digit_prefix-append (itoa n) tail (itoa-IsDigit n) t) ∙ atoi_digits-itoa n h

trim_right-digits :
    (ds tail : Str) → All IsDigit ds → trim_right (ds ++ tail) ≡ ds ++ trim_right tail
unfolding trim_right
trim_right-digits [] tail h = refl
trim_right-digits (d ∷ ds) tail h =
    rw (digit_not_space d h.0) (ap (λ l. d ∷ l) (trim_right-digits ds tail h.1))

trim_right-dot : (tail : Str) → trim_right (b'.' ∷ tail) ≡ b'.' ∷ trim_right tail
unfolding trim_right is_space
trim_right-dot tail = refl

-- A text that begins with digits and holds more has nothing to trim on the left.
trim_left-digits :
    (ds tail : Str) (c : ℕ)
    → All IsDigit ds
    → is_space c ≡ false
    → trim_left (ds ++ c ∷ tail) ≡ ds ++ c ∷ tail
unfolding trim_left
trim_left-digits [] tail c h e = rw e
trim_left-digits (d ∷ ds) tail c h e = rw (digit_not_space d h.0)

if_cases {ℓ} :
    {A : Type ℓ} (b : Bool) (x y : A) → ((if b then x else y) ≡ x) ⊎ ((if b then x else y) ≡ y)
if_cases true x y = inl refl
if_cases false x y = inr refl

trim_right-cases :
    (c : ℕ) (s : Str) → (trim_right (c ∷ s) ≡ []) ⊎ (trim_right (c ∷ s) ≡ c ∷ trim_right s)
unfolding trim_right
trim_right-cases c s = if_cases _ [] (c ∷ trim_right s)

trim_right-StopsDigits : (tail : Str) → StopsDigits tail → StopsDigits (trim_right tail)
unfolding trim_right
trim_right-StopsDigits [] h = tt
trim_right-StopsDigits (c ∷ s) h = elim (trim_right-cases c s) [ inl e ↦ rw e tt | inr e ↦ rw e h ]

abbrev prepend : Str → List Str → List Str
prepend ds [] = ds ∷ []
prepend ds (s ∷ ss) = (ds ++ s) ∷ ss

prepend-cons_head : (c : ℕ) (l : List Str) → cons_head c l ≡ prepend [] (cons_head c l)
prepend-cons_head c [] = refl
prepend-cons_head c (s ∷ ss) = refl

cons_head-prepend :
    (c : ℕ) (ds : Str) (l : List Str) → cons_head c (prepend ds l) ≡ prepend (c ∷ ds) l
cons_head-prepend c ds [] = refl
cons_head-prepend c ds (s ∷ ss) = refl

split_n-prepend_nil :
    (limit : ℕ) (t : Str) → split_n limit b'.' t ≡ prepend [] (split_n limit b'.' t)
unfolding split_n
split_n-prepend_nil limit [] = refl
split_n-prepend_nil limit (c ∷ s) = elim (Bool-cases (c == b'.' && ltb 1 limit)) [
  | inl e ↦ rw e
  | inr e ↦ rw e (prepend-cons_head c (split_n limit b'.' s))
]

split_n-digits :
    (limit : ℕ) (ds t : Str)
    → All IsDigit ds
    → split_n limit b'.' (ds ++ t) ≡ prepend ds (split_n limit b'.' t)
unfolding split_n
split_n-digits limit [] t h = split_n-prepend_nil limit t
split_n-digits limit (d ∷ ds) t h = rw (digit_not_dot d h.0) (
    ap (cons_head d) (split_n-digits limit ds t h.1)
    ∙ cons_head-prepend d ds (split_n limit b'.' t))

-- What precedes the next dot does not go on with a digit either.
split_n-StopsDigits :
    (limit : ℕ) (t : Str)
    → StopsDigits t
    → (x : Str) × (more : List Str) × (split_n limit b'.' t ≡ x ∷ more) × StopsDigits x
unfolding split_n
split_n-StopsDigits limit [] h = ([], [], refl, tt)
split_n-StopsDigits limit (c ∷ s) h = elim (Bool-cases (c == b'.' && ltb 1 limit)) [
  | inl e ↦ ([], split_n (limit - 1) b'.' s, rw e, tt)
  | inr e ↦ rw e (go (split_n limit b'.' s))
]
  where
    go : (l : List Str) → (x : Str) × (more : List Str) × (cons_head c l ≡ x ∷ more) × StopsDigits x
    go [] = (c ∷ [], [], refl, h)
    go (x ∷ more) = (c ∷ x, more, refl, h)

trim_space-version :
    (a b tail : Str)
    → All IsDigit a
    → All IsDigit b
    → trim_space (a ++ b'.' ∷ (b ++ tail)) ≡ a ++ b'.' ∷ (b ++ trim_right tail)
unfolding trim_space
trim_space-version a b tail h k =
    ap trim_right (trim_left-digits a (b ++ tail) b'.' h (unfold is_space in refl))
    ∙ trim_right-digits a (b'.' ∷ (b ++ tail)) h
    ∙ ap (λ l. a ++ l)
        (trim_right-dot (b ++ tail) ∙ ap (λ l. b'.' ∷ l) (trim_right-digits b tail k))

split_n-version :
    (a b t x : Str) (more : List Str)
    → All IsDigit a
    → All IsDigit b
    → split_n 2 b'.' t ≡ x ∷ more
    → split_n 3 b'.' (a ++ b'.' ∷ (b ++ t)) ≡ a ∷ (b ++ x) ∷ more
split_n-version a b t x more h k e =
    split_n-digits 3 a (b'.' ∷ (b ++ t)) h
    ∙ unfold split_n in rw append-nil (ap (λ l. a ∷ l) (split_n-digits 2 b t k ∙ ap (prepend b) e))

version_of-printed :
    (major minor : ℕ) (x : Str) (more : List Str)
    → major ≤ max_int64
    → minor ≤ max_int64
    → StopsDigits x
    → version_of (itoa major ∷ (itoa minor ++ x) ∷ more) ≡ some (major, minor)
version_of-printed major minor x more h k t =
    let e : leading_number (itoa major) ≡ some major =
      rw append-nil at (leading_number-itoa major [] h tt) in
    rw (e, leading_number-itoa minor x k t)

-- A printed version parses to its numbers, whatever follows them.
pub parse_kernel_version-printed :
    (major minor : ℕ) (tail : Str)
    → major ≤ max_int64
    → minor ≤ max_int64
    → StopsDigits tail
    → parse_kernel_version (itoa major ++ b'.' ∷ (itoa minor ++ tail)) ≡ some (major, minor)
unfolding parse_kernel_version
parse_kernel_version-printed major minor tail h k t =
    let (x, more, e, stops) =
      split_n-StopsDigits 2 (trim_right tail) (trim_right-StopsDigits tail t) in
    ap (λ v. version_of (split_n 3 b'.' v))
      (trim_space-version (itoa major) (itoa minor) tail (itoa-IsDigit major) (itoa-IsDigit minor))
    ∙ ap version_of (
        split_n-version (itoa major) (itoa minor) (trim_right tail) x more (itoa-IsDigit major)
          (itoa-IsDigit minor) e)
    ∙ version_of-printed major minor x more h k stops

-- The kernel rule passes a kernel that prints as major.minor, with anything but a digit after
-- it, exactly when the pair is at least 5.13.
pub kernel_minimum_exact :
    (source target : Environment) (major minor : ℕ) (tail : Str)
    → major ≤ max_int64
    → minor ≤ max_int64
    → StopsDigits tail
    → target.kernel_version ≡ itoa major ++ b'.' ∷ (itoa minor ++ tail)
    → (kernel_minimum_rule source target ≡ []) ↔ ((5 < major) ⊎ ((major ≡ 5) × (13 ≤ minor)))
unfolding kernel_minimum_rule
kernel_minimum_exact source target major minor tail h k t e =
    let p : parse_kernel_version target.kernel_version ≡ some (major, minor) =
      rw e (parse_kernel_version-printed major minor tail h k t) in
    rw p (ground arith)

-- The driver rule passes a driver that prints as a major number, with anything but a digit after
-- it, exactly when the number is at least 580.
pub driver_minimum_exact :
    (source target : Environment) (major : ℕ) (tail : Str)
    → major ≤ max_int64
    → StopsDigits tail
    → target.driver_version ≡ itoa major ++ tail
    → (driver_minimum_rule source target ≡ []) ↔ (580 ≤ major)
unfolding driver_minimum_rule
driver_minimum_exact source target major tail h t e =
    let p : leading_number target.driver_version ≡ some major =
      rw e (leading_number-itoa major tail h t) in
    rw p (ground arith)
