-- ===== src/Compat/Versions.antt =====
-- parseKernelVersion and leadingNumber of api/compat/checks.go.
use snapshot.Prelude.{
  ℕ, Str, Option, none, some, List, [], ◌∷◌, is_digit, atoi_digits, trim_space, split_n,
  if◌then◌else◌,
}

-- The digits that a field starts with.
unfoldable pub digit_prefix : Str → Str
digit_prefix [] = []
digit_prefix (c ∷ s) = let rest = digit_prefix s in if is_digit c then c ∷ rest else []

-- `atoi_digits` refuses the empty prefix too.
unfoldable pub leading_number : Str → Option ℕ
unfolding digit_prefix atoi_digits is_digit
leading_number field = atoi_digits (digit_prefix field)

abbrev pub both : Option ℕ → Option ℕ → Option (ℕ × ℕ)
both (some major) (some minor) = some (major, minor)
both _ _ = none

-- `none` where ok is false.
abbrev pub version_of : List Str → Option (ℕ × ℕ)
version_of (major ∷ minor ∷ _) = both (leading_number major) (leading_number minor)
version_of _ = none

unfoldable pub parse_kernel_version : Str → Option (ℕ × ℕ)
unfolding trim_space split_n
parse_kernel_version version = version_of (split_n 3 b'.' (trim_space version))
