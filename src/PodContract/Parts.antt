-- ===== src/PodContract/Parts.antt =====
-- The parts of a pod that restore_pod.go checks and shapes: the control volume, its mount and its
-- environment, the startup gate and the seccomp profile.
use snapshot.Prelude.{
  Str, Bool, true, false, not, ◌&&◌, ◌||◌, Option, none, some, [], ◌∷◌, ◌++◌, str_eq, codes,
  if◌then◌else◌,
}
use snapshot.Kube.Condition.{Message, fmt}
use snapshot.PodContract.Types.{
  Result, ok, refused, ◌>>=◌, ◌>>◌, Check, VolumeSource, Volume, VolumeMount, EnvVar, Container,
  PodSpec,
}
use snapshot.PodContract.Scan.{at_most_one}
use snapshot.PodContract.Mappings.{is_nil}

abbrev pub snapshot_control_volume_name : Str
snapshot_control_volume_name = codes "snapshot-control"

abbrev pub snapshot_control_mount_path : Str
snapshot_control_mount_path = codes "/snapshot-control"

abbrev pub snapshot_control_dir_env : Str
snapshot_control_dir_env = codes "SNAPSHOT_CONTROL_DIR"

abbrev pub legacy_snapshot_control_dir_env : Str
legacy_snapshot_control_dir_env = codes "DYN_SNAPSHOT_CONTROL_DIR"

abbrev pub is_some {ℓ} : {A : Type ℓ} → Option A → Bool
is_some none = false
is_some (some _) = true

-- Adds what is missing, where the check accepts what is there.
abbrev pub add_unless {ℓ} : {A : Type ℓ} → A → A → Result Bool → Result A
add_unless same added (ok true) = ok same
add_unless same added (ok false) = ok added
add_unless same added (refused e) = refused e

-- The check's verdict where the thing must be there.
abbrev pub require : Message → Result Bool → Check
require missing (ok true) = ok tt
require missing (ok false) = refused missing
require missing (refused e) = refused e

unfoldable pub is_empty_dir_volume_source : VolumeSource → Bool
is_empty_dir_volume_source source = is_some source.empty_dir && is_nil source.others

abbrev pub concerns_volume : Volume → Bool
concerns_volume volume = str_eq volume.name snapshot_control_volume_name

abbrev pub bad_volume : Volume → Option Message
bad_volume volume =
    if is_empty_dir_volume_source volume.volume_source
    then none
    else some (fmt (codes "volume %q must be an emptyDir") (snapshot_control_volume_name ∷ []))

unfoldable pub has_valid_control_volume : PodSpec → Result Bool
has_valid_control_volume spec =
    at_most_one concerns_volume bad_volume
      (fmt (codes "duplicate %s volume") (snapshot_control_volume_name ∷ [])) false spec.volumes

abbrev pub control_volume : Volume
control_volume = record {
  name = snapshot_control_volume_name;
  volume_source = record { empty_dir = some []; others = [] };
}

unfoldable pub ensure_control_volume : PodSpec → Result PodSpec
ensure_control_volume spec =
    add_unless spec (record spec { volumes = spec.volumes ++ control_volume ∷ [] })
      (has_valid_control_volume spec)

unfoldable pub validate_control_volume : PodSpec → Check
validate_control_volume spec =
    require (fmt (codes "missing %s emptyDir volume") (snapshot_control_volume_name ∷ []))
      (has_valid_control_volume spec)

abbrev pub propagates : Option Str → Bool
propagates none = false
propagates (some p) = not (str_eq p (codes "None"))

-- validateControlMountValue; `none` where it returns nil.
unfoldable pub validate_control_mount_value : Str → VolumeMount → Option Message
validate_control_mount_value container_name mount =
    if not (str_eq mount.name snapshot_control_volume_name)
      || not (str_eq mount.mount_path snapshot_control_mount_path)
      || not (str_eq mount.sub_path container_name)
    then some (
        fmt (codes "container %q requires volume %q mounted at %s with subPath %q") (
          container_name ∷ snapshot_control_volume_name ∷ snapshot_control_mount_path
          ∷ container_name ∷ []))
    else if mount.read_only
        || is_some mount.recursive_read_only
        || not (str_eq mount.sub_path_expr [])
        || propagates mount.mount_propagation
    then some (
        fmt (codes "container %q has conflicting options on the snapshot control mount")
          (container_name ∷ []))
    else none

abbrev pub concerns_mount : VolumeMount → Bool
concerns_mount mount =
    str_eq mount.name snapshot_control_volume_name
    || str_eq mount.mount_path snapshot_control_mount_path

unfoldable pub has_valid_control_mount : Container → Result Bool
has_valid_control_mount container =
    at_most_one concerns_mount (validate_control_mount_value container.name)
      (fmt (codes "container %q has duplicate snapshot control mounts") (container.name ∷ [])) false
      container.volume_mounts

abbrev pub control_mount : Str → VolumeMount
control_mount container_name = record {
  name = snapshot_control_volume_name;
  mount_path = snapshot_control_mount_path;
  sub_path = container_name;
  read_only = false;
  recursive_read_only = none;
  sub_path_expr = [];
  mount_propagation = none;
}

unfoldable pub ensure_control_mount : Container → Result Container
ensure_control_mount container =
    add_unless container
      (record container {
        volume_mounts = container.volume_mounts ++ control_mount container.name ∷ [];
      })
      (has_valid_control_mount container)

unfoldable pub validate_control_mount : Container → Check
validate_control_mount container =
    require
      (fmt (codes "container %q is missing %s mounted at %s")
        (container.name ∷ snapshot_control_volume_name ∷ snapshot_control_mount_path ∷ []))
      (has_valid_control_mount container)

abbrev pub concerns_env : Str → EnvVar → Bool
concerns_env name env = str_eq env.name name

abbrev pub bad_env : Str → Str → EnvVar → Option Message
bad_env container_name name env =
    if not (str_eq env.value snapshot_control_mount_path) || is_some env.value_from
    then some (
        fmt (codes "container %q has conflicting %s environment variable")
          (container_name ∷ name ∷ []))
    else none

unfoldable pub has_valid_control_env : Container → Str → Result Bool
has_valid_control_env container name =
    at_most_one (concerns_env name) (bad_env container.name name)
      (fmt (codes "container %q has duplicate %s environment variables")
        (container.name ∷ name ∷ []))
      false container.env

abbrev pub control_env : Str → EnvVar
control_env name = record { name = name; value = snapshot_control_mount_path; value_from = none }

unfoldable pub ensure_control_env : Str → Container → Result Container
ensure_control_env name container =
    add_unless container (record container { env = container.env ++ control_env name ∷ [] })
      (has_valid_control_env container name)

-- Both names, the canonical one first.
unfoldable pub ensure_control_environment : Container → Result Container
ensure_control_environment container =
    ensure_control_env snapshot_control_dir_env container
    >>= ensure_control_env legacy_snapshot_control_dir_env

abbrev pub accepted : Result Bool → Check
accepted (ok _) = ok tt
accepted (refused e) = refused e

unfoldable pub validate_control_environment : Container → Check
validate_control_environment container =
    require
      (fmt (codes "container %q is missing %s environment variable")
        (container.name ∷ snapshot_control_dir_env ∷ []))
      (has_valid_control_env container snapshot_control_dir_env)
    >> accepted (has_valid_control_env container legacy_snapshot_control_dir_env)
