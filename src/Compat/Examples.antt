-- ===== src/Compat/Examples.antt =====
-- The rules on sample environments, and the theorems about them at those.
use mathlib.Core.List.Perm
use snapshot.Prelude.{
  ℕ, zero, suc, ◌≤◌, ◌<◌, Str, ◌≡◌, ◌↔◌, ◌⊎◌, refl, Bool, false, not, ◌&&◌, Option, none, some,
  List, [], ◌∷◌, codes, arith, length, contains, str_eq, str_eq_refl, str_eq_iff, if◌then◌else◌,
  All, Ordering, itoa, is_digit, Bool-cases, inl, inr, ap,
}
use snapshot.Compat.Types.{
  Libs, SetLaws, QuantityLaws, preflight, inspect, other, GpuDevice, Environment, kernel_minimum,
  driver_minimum,
}
use snapshot.Compat.Devices.{gpu_models}
use snapshot.Compat.Devices.Allocation.{gpu_models-perm}
use snapshot.Compat.CpuFeatures.{cpu_features_rule}
use snapshot.Compat.Rules.{kernel_minimum_rule, driver_minimum_rule, mount_rule, criu_handled}
use snapshot.Compat.Table.{named, policy, checks_by_gate, rows_at, compare}
use snapshot.Compat.Verdict.{unknown, RefusesEmpty, unknown_restores, same_environment_restores}
use snapshot.Compat.Registration.{
  IsStray, naming, register_checks_partition, OneOf, preflight_checks, inspect_checks,
  compare_names,
}
use snapshot.Compat.Floors.{kernel_minimum_exact, driver_minimum_exact}
use snapshot.Compat.Coverage.{IsProvided, mount_rule_exact, offers, Covers, cpu_features_exact}

-- Sets as lists, quantities as the lengths of texts, and no digest.
abbrev keep : (Str → Bool) → List Str → List Str
keep p [] = []
keep p (x ∷ xs) = let rest = keep p xs in if p x then x ∷ rest else rest

abbrev quantity : Str → Option ℕ
quantity [] = none
quantity (c ∷ s) = some (length s)

abbrev compare_ℕ : ℕ → ℕ → Ordering
compare_ℕ zero zero = Ordering.eq
compare_ℕ zero (suc b) = Ordering.lt
compare_ℕ (suc a) zero = Ordering.gt
compare_ℕ (suc a) (suc b) = compare_ℕ a b

abbrev libs : Libs
libs = record {
  Set = List Str;
  new = λ l. l;
  intersection = λ a b. keep (λ x. contains x b) a;
  difference = λ a b. keep (λ x. not (contains x b)) a;
  len = length;
  list = λ s. s;
  has = contains;
  Quantity = ℕ;
  parse_quantity = quantity;
  cmp = compare_ℕ;
  parse_digest = λ s. none;
}

contains-keep :
    (p : Str → Bool) (x : Str) (l : List Str) → contains x (keep p l) ≡ (contains x l && p x)
unfolding contains
contains-keep p x [] = refl
contains-keep p x (y ∷ l) = elim (Bool-cases (str_eq x y)) [
  | inl e ↦ ground (arith, contains-keep p x l, ap p ((str_eq_iff x y).0 e))
  | inr e ↦ ground (arith, contains-keep p x l)
]

length_zero : (a : List Str) → (length a ≡ 0) ↔ ((x : Str) → contains x a ≡ false)
unfolding contains
length_zero [] = (λ _ x. refl, λ _. refl)
length_zero (y ∷ a) = (λ h. absurd (omega arith), λ h. cc (h y, str_eq_refl y))

set_laws : SetLaws libs
set_laws = record {
  has-new = λ x l. refl;
  has-intersection = λ x a b. contains-keep (λ y. contains y b) x a;
  has-difference = λ x a b. contains-keep (λ y. not (contains y b)) x a;
  len_zero = length_zero;
}

compare_ℕ_refl : (a : ℕ) → compare_ℕ a a ≡ Ordering.eq
compare_ℕ_refl zero = refl
compare_ℕ_refl (suc a) = compare_ℕ_refl a

quantity_laws : QuantityLaws libs
quantity_laws = record { cmp_refl = compare_ℕ_refl }

refuses_empty : RefusesEmpty libs
refuses_empty = record { no_quantity = refl; no_digest = refl }

abbrev gpu : Str → GpuDevice
gpu name = record { uuid = []; product_name = name }

abbrev machine : Environment
machine = record unknown {
  kernel_version = codes "5.15.0-1071-aws";
  cpu_arch = codes "amd64";
  cpu_features = codes "avx2" ∷ codes "hypervisor" ∷ [];
  driver_version = codes "580.95.05";
  gpu_devices = gpu (codes "B200") ∷ gpu (codes "A100") ∷ [];
  externalized_mounts = codes "/" ∷ codes "/data" ∷ [];
  existing_mount_paths = codes "/data" ∷ [];
}

unknown_restores_example :
    (compare libs preflight unknown machine
      ≡ named kernel_minimum (kernel_minimum_rule unknown machine))
    × (compare libs inspect unknown machine
        ≡ named driver_minimum (driver_minimum_rule unknown machine))
unknown_restores_example = unknown_restores libs set_laws refuses_empty machine

same_environment_restores_example :
    (compare libs preflight machine machine
      ≡ named kernel_minimum (kernel_minimum_rule machine machine))
    × (compare libs inspect machine machine
        ≡ named driver_minimum (driver_minimum_rule machine machine))
unfolding criu_handled contains str_eq
same_environment_restores_example =
    same_environment_restores libs set_laws quantity_laws machine (refl, (refl, tt))

register_checks_partition_example :
    All (λ r. ¬ IsStray r) (policy libs)
    × (rows_at (checks_by_gate libs) preflight ≡ naming preflight (policy libs))
unfolding checks_by_gate
register_checks_partition_example =
    register_checks_partition (policy libs) (checks_by_gate libs) preflight refl

compare_names_example :
    All (OneOf preflight_checks) (compare libs preflight unknown machine)
    × All (OneOf inspect_checks) (compare libs inspect unknown machine)
    × ((s : Str) → compare libs (other s) unknown machine ≡ [])
compare_names_example = compare_names libs unknown machine

kernel_minimum_exact_example :
    (kernel_minimum_rule unknown machine ≡ []) ↔ ((5 < 5) ⊎ ((◌≡◌ {A = ℕ} 5 5) × (13 ≤ 15)))
unfolding itoa is_digit
kernel_minimum_exact_example =
    kernel_minimum_exact unknown machine 5 15 (codes ".0-1071-aws") (omega arith) (omega arith) refl
      refl

driver_minimum_exact_example : (driver_minimum_rule unknown machine ≡ []) ↔ (580 ≤ 580)
unfolding itoa is_digit
driver_minimum_exact_example =
    driver_minimum_exact unknown machine 580 (codes ".95.05") (omega arith) refl refl

mount_rule_exact_example :
    (mount_rule machine unknown ≡ [])
    ↔ All (IsProvided unknown.existing_mount_paths) machine.externalized_mounts
mount_rule_exact_example = mount_rule_exact machine unknown

cpu_features_exact_example : (cpu_features_rule libs machine unknown ≡ []) ↔ (
    ((x : Str) → offers machine.cpu_features x ≡ false)
    ⊎ ((x : Str) → offers unknown.cpu_features x ≡ false)
    ⊎ Covers machine unknown)
cpu_features_exact_example = cpu_features_exact libs set_laws machine unknown

gpu_models-perm_example :
    gpu_models (gpu (codes "B200") ∷ gpu (codes "A100") ∷ [])
    ≡ gpu_models (gpu (codes "A100") ∷ gpu (codes "B200") ∷ [])
gpu_models-perm_example =
    gpu_models-perm (gpu (codes "B200") ∷ gpu (codes "A100") ∷ [])
      (gpu (codes "A100") ∷ gpu (codes "B200") ∷ []) (Perm.swap _ _ [])
