-- ===== src/PodContract/CuInterpose.antt =====
-- The opt-in of api/podcontract/cuinterpose.go and the launcher that a command must start with.
use snapshot.Prelude.{
  Str, Bool, true, false, not, ◌&&◌, ◌||◌, Option, none, some, List, [], ◌∷◌, ◌==◌, ◌+◌, length,
  str_eq, codes, join, trim_space, if◌then◌else◌,
}
use snapshot.Kube.Condition.{fmt}
use snapshot.PodContract.Types.{Result, ok, refused, Check, Container}
use snapshot.PodContract.Mappings.{lookup}

abbrev pub cu_interpose_annotation : Str
cu_interpose_annotation = codes "nvidia.com/snapshot-multi-gpu"

abbrev pub cu_interpose_mount_path : Str
cu_interpose_mount_path = codes "/tmp/snapshot-cuda"

abbrev pub enabled_by : Option Str → Result Bool
enabled_by none = ok false
enabled_by (some value) =
    if str_eq (trim_space value) (codes "enabled")
    then ok true
    else if str_eq (trim_space value) (codes "disabled")
    then ok false
    else refused (
        fmt (codes "annotation %s: expected enabled or disabled, got %q")
          (cu_interpose_annotation ∷ value ∷ []))

unfoldable pub parse_cu_interpose_annotation : List (Str × Str) → Result Bool
parse_cu_interpose_annotation annotations = enabled_by (lookup cu_interpose_annotation annotations)

unfoldable pub cu_interpose_launcher_prefix : List Str
cu_interpose_launcher_prefix =
    codes "/tmp/snapshot-cuda/cuinterpose-launch"
    ∷ codes "--library"
    ∷ codes "/tmp/snapshot-cuda/libcuinterpose.so"
    ∷ codes "--"
    ∷ []

-- `slices.Equal(command[:len(prefix)], prefix)`, false also where the command is shorter.
unfoldable pub has_prefix : List Str → List Str → Bool
has_prefix [] command = true
has_prefix (p ∷ ps) [] = false
has_prefix (p ∷ ps) (c ∷ cs) = str_eq c p && has_prefix ps cs

unfoldable pub validate_cu_interpose_launcher : Container → Check
validate_cu_interpose_launcher c =
    if not (has_prefix cu_interpose_launcher_prefix c.command)
      || length c.command + length c.args == length cu_interpose_launcher_prefix
    then refused (
        fmt
          (codes
            "container %q requests cuinterpose, so its command must start with %q followed by the workload in command or args")
          (c.name ∷ join (codes " ") cu_interpose_launcher_prefix ∷ []))
    else ok tt
