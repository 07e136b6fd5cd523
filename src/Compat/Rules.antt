-- ===== src/Compat/Rules.antt =====
-- The rules of api/compat/checks.go. Each returns the mismatches with no name.
use snapshot.Prelude.{
  ℕ, Str, Bool, true, false, Option, none, some, List, [], ◌∷◌, ◌++◌, ◌==◌, ◌&&◌, ◌||◌, ltb, leb,
  length, str_eq, contains, itoa, codes, if◌then◌else◌, Ordering,
}
use snapshot.Compat.Types.{Libs, unset, Environment, Mismatch}
use snapshot.Compat.Versions.{leading_number, parse_kernel_version}
use snapshot.Compat.Digest
use snapshot.Compat.Devices.{gpu_models}

abbrev pub mismatch : Str → Str → Mismatch
mismatch s t = record { check = unset; source = s; target = t }

unfoldable pub must_match : Str → Str → List Mismatch
must_match s t = if str_eq s [] || str_eq t [] || str_eq s t then [] else mismatch s t ∷ []

abbrev pub min_kernel_major : ℕ
min_kernel_major = 5

abbrev pub min_kernel_minor : ℕ
min_kernel_minor = 13

abbrev pub min_driver_major : ℕ
min_driver_major = 580

abbrev pub kernel_floor : Str
kernel_floor = itoa min_kernel_major ++ (codes "." ++ (itoa min_kernel_minor ++ codes " or newer"))

abbrev pub driver_floor : Str
driver_floor = itoa min_driver_major ++ codes " or newer"

abbrev below_floor : Option (ℕ × ℕ) → Bool
below_floor none = false
below_floor (some (major, minor)) =
    if ltb min_kernel_major major || major == min_kernel_major && leb min_kernel_minor minor
    then false
    else true

unfoldable pub kernel_minimum_rule : Environment → Environment → List Mismatch
kernel_minimum_rule source target =
    if below_floor (parse_kernel_version target.kernel_version)
    then mismatch kernel_floor target.kernel_version ∷ []
    else []

abbrev driver_below : Option ℕ → Bool
driver_below none = false
driver_below (some major) = if leb min_driver_major major then false else true

unfoldable pub driver_minimum_rule : Environment → Environment → List Mismatch
driver_minimum_rule source target =
    if driver_below (leading_number target.driver_version)
    then mismatch driver_floor target.driver_version ∷ []
    else []

-- criuHandledMounts
unfoldable pub criu_handled : Str → Bool
criu_handled path = str_eq path (codes "/") || str_eq path (codes "/dev/shm")

-- The loop over source.ExternalizedMounts.
unfoldable pub missing_mounts : List Str → List Str → List Mismatch
missing_mounts existing [] = []
missing_mounts existing (path ∷ paths) =
    let rest = missing_mounts existing paths in
    if contains path existing || criu_handled path
    then rest
    else mismatch path (codes "missing") ∷ rest

unfoldable pub mount_rule : Environment → Environment → List Mismatch
unfolding missing_mounts criu_handled
mount_rule source target = missing_mounts target.existing_mount_paths source.externalized_mounts

abbrev differing : Option Str → Option Str → List Mismatch
differing (some s) (some t) = if str_eq s t then [] else mismatch s t ∷ []
differing _ _ = []

unfoldable pub gpu_model_rule : Environment → Environment → List Mismatch
gpu_model_rule source target =
    differing (gpu_models source.gpu_devices) (gpu_models target.gpu_devices)

unfoldable pub gpu_count_rule : Environment → Environment → List Mismatch
gpu_count_rule source target =
    let m = length source.gpu_devices in
    let n = length target.gpu_devices in
    if m == 0 || m == n then [] else mismatch (itoa m) (itoa n) ∷ []

-- cmp(target, source) ≥ 0
abbrev at_least : Ordering → Bool
at_least Ordering.lt = false
at_least Ordering.eq = true
at_least Ordering.gt = true

module _ (k : Libs) where
  abbrev compared : Str → Str → Option k.Quantity → Option k.Quantity → List Mismatch
  compared s t (some a) (some b) = if at_least (k.cmp b a) then [] else mismatch s t ∷ []
  compared s t _ _ = []

  unfoldable pub at_least_source : Str → Str → List Mismatch
  at_least_source s t = compared s t (k.parse_quantity s) (k.parse_quantity t)

  unfoldable pub image_digest_rule : Environment → Environment → List Mismatch
  image_digest_rule source target =
      must_match (Digest.image_digest_of k source.image_id)
        (Digest.image_digest_of k target.image_id)
