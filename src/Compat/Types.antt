-- ===== src/Compat/Types.antt =====
-- The data of api/compat/compat.go and the libraries that the rules call.
use snapshot.Prelude.{ℕ, Str, Bool, Option, List, ◌≡◌, ◌&&◌, not, ◌↔◌, false, contains, Ordering}

-- `other` is any gate that nothing calls.
pub data Gate : Type 0 where
  preflight inspect : Gate
  other : Str → Gate

-- `unset` is the empty name, which a rule leaves for the table to fill in.
pub data Check : Type 0 where
  unset cpu_arch cpu_features kernel_version kernel_minimum image_digest memory_limit cpu_limit
        mount gpu_model gpu_count driver_version driver_minimum :
      Check

pub record GpuDevice : Type 0 where
  pub uuid : Str
  pub product_name : Str

pub record Environment : Type 0 where
  pub kernel_version : Str
  pub cpu_arch : Str
  pub cpu_features : List Str
  pub image : Str
  pub image_id : Str
  pub cpu_limit : Str
  pub memory_limit : Str
  pub driver_version : Str
  pub gpu_devices : List GpuDevice
  pub externalized_mounts : List Str
  pub existing_mount_paths : List Str

pub record Mismatch : Type 0 where
  pub check : Check
  pub source : Str
  pub target : Str

-- k8s.io/apimachinery sets.Set[string] and resource.Quantity, and go-digest's Parse.
pub record Libs : Type 1 where
  pub Set : Type 0
  pub new : List Str → Set
  pub intersection : Set → Set → Set
  pub difference : Set → Set → Set
  pub len : Set → ℕ
  pub list : Set → List Str
  pub has : Str → Set → Bool
  pub Quantity : Type 0
  pub parse_quantity : Str → Option Quantity
  pub cmp : Quantity → Quantity → Ordering
  pub parse_digest : Str → Option Str

-- What sets.Set documents of its operations, by membership.
pub record SetLaws (k : Libs) : Type 1 where
  pub has-new : (x : Str) (l : List Str) → k.has x (k.new l) ≡ contains x l
  pub has-intersection :
      (x : Str) (a b : k.Set) → k.has x (k.intersection a b) ≡ (k.has x a && k.has x b)
  pub has-difference :
      (x : Str) (a b : k.Set) → k.has x (k.difference a b) ≡ (k.has x a && not (k.has x b))
  pub len_zero : (a : k.Set) → (k.len a ≡ 0) ↔ ((x : Str) → k.has x a ≡ false)

-- A quantity compares equal to itself.
pub record QuantityLaws (k : Libs) : Type 1 where
  pub cmp_refl : (q : k.Quantity) → k.cmp q q ≡ Ordering.eq
