-- ===== src/Compat/Verdict.antt =====
-- What Compare says of whole environments.
use mathlib.Core.List.{append-nil}
use snapshot.Prelude.{
  Str, ◌≡◌, refl, ◌∙◌, inl, inr, Bool, true, false, none, List, [], ◌∷◌, ◌||◌, ◌&&◌, not, str_eq,
  str_eq_refl, contains, All, if◌then◌else◌, arith, Option-cases,
}
use snapshot.Compat.Types.{
  Libs, SetLaws, QuantityLaws, preflight, inspect, kernel_minimum, driver_minimum, Environment,
}
use snapshot.Compat.Devices.{gpu_models}
use snapshot.Compat.Digest
use snapshot.Compat.CpuFeatures.{instruction_sets, cpu_features_rule}
use snapshot.Compat.Rules.{
  must_match, kernel_minimum_rule, driver_minimum_rule, missing_mounts, mount_rule, criu_handled,
  gpu_model_rule, gpu_count_rule, at_least_source, image_digest_rule,
}
use snapshot.Compat.Table.{named, compare}

-- The environment of a checkpoint that recorded nothing.
abbrev pub unknown : Environment
unknown = record {
  kernel_version = [];
  cpu_arch = [];
  cpu_features = [];
  image = [];
  image_id = [];
  cpu_limit = [];
  memory_limit = [];
  driver_version = [];
  gpu_devices = [];
  externalized_mounts = [];
  existing_mount_paths = [];
}

-- resource.ParseQuantity and digest.Parse refuse the empty text.
pub record RefusesEmpty (k : Libs) : Type 1 where
  pub no_quantity : k.parse_quantity [] ≡ none
  pub no_digest : k.parse_digest [] ≡ none

must_match_unknown : (t : Str) → must_match [] t ≡ []
unfolding must_match str_eq
must_match_unknown t = refl

must_match_self : (s : Str) → must_match s s ≡ []
unfolding must_match
must_match_self s = ground (arith, str_eq_refl s)

&&-false : (b : Bool) → (b && false) ≡ false
&&-false true = refl
&&-false false = refl

&&-not : (b : Bool) → (b && not b) ≡ false
&&-not true = refl
&&-not false = refl

if_same {ℓ} : {A : Type ℓ} {x : A} (b : Bool) → (if b then x else x) ≡ x
if_same true = refl
if_same false = refl

gpu_model_self : (e : Environment) → gpu_model_rule e e ≡ []
unfolding gpu_model_rule
gpu_model_self e = elim (Option-cases (gpu_models e.gpu_devices)) [
  | inl h ↦ rw h
  | inr (s, h) ↦ rw h (rw (str_eq_refl s))
]

gpu_count_self : (e : Environment) → gpu_count_rule e e ≡ []
unfolding gpu_count_rule
gpu_count_self e = ground arith

missing_mounts_present :
    (existing paths : List Str)
    → All (λ path. (contains path existing || criu_handled path) ≡ true) paths
    → missing_mounts existing paths ≡ []
unfolding missing_mounts
missing_mounts_present existing [] h = refl
missing_mounts_present existing (p ∷ ps) h = rw h.0 (missing_mounts_present existing ps h.1)

module _ (k : Libs) where
  at_least_source_unknown : RefusesEmpty k → (t : Str) → at_least_source k [] t ≡ []
  unfolding at_least_source
  at_least_source_unknown e t = rw e.no_quantity

  at_least_source_self : QuantityLaws k → (s : Str) → at_least_source k s s ≡ []
  unfolding at_least_source
  at_least_source_self q s = elim (Option-cases (k.parse_quantity s)) [
    | inl e ↦ rw e
    | inr (a, e) ↦ rw e (rw q.cmp_refl)
  ]

  image_digest_empty : RefusesEmpty k → Digest.image_digest_of k [] ≡ []
  unfolding Digest.image_digest_of
  image_digest_empty e = rw e.no_digest

  instruction_sets_empty : SetLaws k → k.len (instruction_sets k []) ≡ 0
  unfolding instruction_sets contains
  instruction_sets_empty l =
      (l.len_zero _).1 λ x. l.has-intersection x _ _ ∙ rw (l.has-new x []) (&&-false _)

  cpu_features_unknown : SetLaws k → (t : Environment) → cpu_features_rule k unknown t ≡ []
  unfolding cpu_features_rule
  cpu_features_unknown l t = rw (instruction_sets_empty l)

  difference_self : SetLaws k → (a : k.Set) → k.len (k.difference a a) ≡ 0
  difference_self l a = (l.len_zero _).1 λ x. l.has-difference x a a ∙ &&-not (k.has x a)

  cpu_features_self : SetLaws k → (e : Environment) → cpu_features_rule k e e ≡ []
  unfolding cpu_features_rule
  cpu_features_self l e = rw (difference_self l _) (if_same _)

  image_digest_unknown : RefusesEmpty k → (t : Environment) → image_digest_rule k unknown t ≡ []
  unfolding image_digest_rule
  image_digest_unknown r t = rw (image_digest_empty r) (must_match_unknown _)

  image_digest_self : (e : Environment) → image_digest_rule k e e ≡ []
  unfolding image_digest_rule
  image_digest_self e = must_match_self _

  -- A checkpoint that recorded nothing is refused by the two floors alone, each at its gate.
  pub unknown_restores :
      SetLaws k
      → RefusesEmpty k
      → (t : Environment)
      → (compare k preflight unknown t ≡ named kernel_minimum (kernel_minimum_rule unknown t))
        × (compare k inspect unknown t ≡ named driver_minimum (driver_minimum_rule unknown t))
  unfolding compare mount_rule gpu_model_rule gpu_count_rule gpu_models
  unknown_restores l r t = (
    simp (must_match_unknown, cpu_features_unknown l, at_least_source_unknown r, append-nil),
    simp (image_digest_unknown r, must_match_unknown, append-nil),
  )

  -- A target that is the captured environment itself, with every recorded mount present or
  -- rebuilt by CRIU, is refused by the two floors alone, each at its gate.
  pub same_environment_restores :
      SetLaws k
      → QuantityLaws k
      → (e : Environment)
      → All
          (λ path. (contains path e.existing_mount_paths || criu_handled path) ≡ true)
          e.externalized_mounts
      → (compare k preflight e e ≡ named kernel_minimum (kernel_minimum_rule e e))
        × (compare k inspect e e ≡ named driver_minimum (driver_minimum_rule e e))
  unfolding compare mount_rule
  same_environment_restores l q e h = (
    simp (must_match_self, cpu_features_self l, at_least_source_self q, append-nil),
    simp (
      image_digest_self,
      must_match_self,
      missing_mounts_present e.existing_mount_paths e.externalized_mounts h,
      gpu_model_self,
      gpu_count_self,
      append-nil,
    ),
  )
