-- ===== src/Compat/Digest.antt =====
-- ImageDigest of api/compat/checks.go.
use snapshot.Prelude.{ℕ, Str, Option, none, some, [], ◌∷◌, ◌==◌, codes, trim_space, if◌then◌else◌}
use snapshot.Compat.Types.{Libs}

abbrev after_prefix : Str → Str → Option Str
after_prefix [] s = some s
after_prefix (p ∷ ps) [] = none
after_prefix (p ∷ ps) (c ∷ s) = let rest = after_prefix ps s in if p == c then rest else none

abbrev or_else : Option Str → Option Str → Option Str
or_else (some s) other = some s
or_else none other = other

-- What follows the first occurrence of `pattern`, with strings.Index.
unfoldable pub after_first : Str → Str → Option Str
after_first pattern [] = none
after_first pattern (c ∷ s) = or_else (after_prefix pattern (c ∷ s)) (after_first pattern s)

-- What follows the last occurrence of a character, with strings.LastIndex.
unfoldable pub after_last : ℕ → Str → Option Str
after_last c [] = none
after_last c (d ∷ s) = or_else (after_last c s) (if d == c then some s else none)

abbrev get_or : Option Str → Str → Str
get_or (some s) d = s
get_or none d = d

unfoldable pub image_digest_of : Libs → Str → Str
unfolding after_first after_last trim_space
image_digest_of k image_id =
    let value = trim_space image_id in
    let unschemed = get_or (after_first (codes "://") value) value in
    let bare = get_or (after_last b'@' unschemed) unschemed in get_or (k.parse_digest bare) []
