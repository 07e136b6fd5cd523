-- ===== src/PodContract/Examples.antt =====
-- A worker pod shaped for one restore, with the startup gate and the seccomp profile, and a PID.
use snapshot.Prelude.{
  ◌≡◌, ◌≢◌, ◌↔◌, refl, Str, true, none, some, List, [], ◌∷◌, codes, str_eq, contains, is_space,
  trim_left, trim_right, trim_space, arith, All, if◌then◌else◌,
}
use snapshot.PodContract.Types.{
  ok, Validation, ContainerMapping, Container, PodSpec, Options, RestorePod, Request,
}
use snapshot.PodContract.Scan.{at_most_one}
use snapshot.PodContract.Protocol.{parse_restore_complete, format_restore_complete}
use snapshot.PodContract.Mappings.{
  lookup, delete, store, is_label, validate_restore_from_snapshot_name,
  get_restore_from_snapshot_name, container_mappings_from_annotations, validate_entries,
  validate_container_mappings, normalize_request, format_container_mappings, is_wanted, all_wanted,
  same_container_mappings, restore_from_annotation,
}
use snapshot.PodContract.Parts.{
  control_volume, control_mount, control_env, snapshot_control_dir_env,
  legacy_snapshot_control_dir_env, has_valid_control_volume, has_valid_control_mount,
  has_valid_control_env, ensure_control_volume, ensure_control_mount, ensure_control_env,
  ensure_control_environment, validate_control_volume, validate_control_mount,
  validate_control_environment, validate_control_mount_value, is_empty_dir_volume_source,
}
use snapshot.PodContract.Policy.{
  canonical_restore_startup_probe, localhost_seccomp_profile, ensure_restore_startup_probe,
  same_texts, same_probe, validate_canonical_restore_startup_probe,
  matches_localhost_seccomp_profile, validate_container_seccomp_profile,
  ensure_container_seccomp_profile,
}
use snapshot.PodContract.Build.{
  find_container, at_container, ensure_container, ensure_destinations, ensure_restore_pod_spec,
  validate_destinations, validate_policy, ensure_restore_annotations, validate_restore_annotations,
  validate_minimum_restore_pod, validate_canonical_restore_pod, build,
}
use snapshot.PodContract.Files.{parse_restore_complete-format_restore_complete}
use snapshot.PodContract.Destinations.{ensure_restore_pod_spec-validates}
use snapshot.PodContract.OneToMany.{
  IsAllowed, AreDistinct, destinations, validate_container_mappings_iff,
}

abbrev worker : Str
worker = codes "worker"

abbrev profile : Str
profile = codes "profiles/block-iouring.json"

abbrev worker_container : Container
worker_container = record {
  name = worker;
  command = codes "serve" ∷ [];
  args = [];
  volume_mounts = [];
  env = [];
  startup_probe = none;
  readiness_probe = none;
  liveness_probe = none;
  security_context = none;
}

abbrev worker_spec : PodSpec
worker_spec = record {
  containers = worker_container ∷ [];
  init_containers = [];
  volumes = [];
  restart_policy = [];
  pod_seccomp = none;
}

abbrev to_worker : List ContainerMapping
to_worker = record { source = worker; destination = worker } ∷ []

abbrev gate_and_profile : Options
gate_and_profile = record { seccomp_profile = profile; enable_startup_gate = true }

abbrev shaped_container : Container
shaped_container = record {
  name = worker;
  command = codes "serve" ∷ [];
  args = [];
  volume_mounts = control_mount worker ∷ [];
  env = control_env snapshot_control_dir_env ∷ control_env legacy_snapshot_control_dir_env ∷ [];
  startup_probe = some canonical_restore_startup_probe;
  readiness_probe = none;
  liveness_probe = none;
  security_context =
      some (record { seccomp_profile = some (localhost_seccomp_profile profile); others = [] });
}

abbrev shaped_spec : PodSpec
shaped_spec = record {
  containers = shaped_container ∷ [];
  init_containers = [];
  volumes = control_volume ∷ [];
  restart_policy = [];
  pod_seccomp = none;
}

shapes : ensure_restore_pod_spec worker_spec to_worker gate_and_profile ≡ ok shaped_spec
unfolding ensure_restore_pod_spec ensure_control_volume has_valid_control_volume at_most_one
    ensure_destinations at_container ensure_container ensure_container_seccomp_profile
    ensure_control_mount has_valid_control_mount ensure_control_environment ensure_control_env
    has_valid_control_env ensure_restore_startup_probe str_eq
shapes = refl

ensure_restore_pod_spec-validates_example :
    (validate_control_volume shaped_spec ≡ ok tt)
    × (validate_destinations to_worker shaped_spec.containers ≡ ok tt)
    × (validate_policy gate_and_profile to_worker shaped_spec.containers ≡ ok tt)
ensure_restore_pod_spec-validates_example =
    ensure_restore_pod_spec-validates gate_and_profile worker_spec to_worker shapes

-- Names that are empty are refused, and no others.
abbrev empty_is_wrong : Str → List Str
empty_is_wrong name = if str_eq name [] then codes "empty" ∷ [] else []

abbrev sample_validation : Validation
sample_validation = record {
  is_dns1123_subdomain = empty_is_wrong;
  is_dns1123_label = empty_is_wrong;
}

abbrev worker_pod : RestorePod
worker_pod = record { annotations = []; spec = worker_spec }

abbrev restore_request : Request
restore_request = record {
  snapshot_name = codes " model ";
  source_container = worker;
  mappings = [];
}

abbrev shaped_pod : RestorePod
shaped_pod = record {
  annotations = (restore_from_annotation, codes "model") ∷ [];
  spec = shaped_spec;
}

builds : build sample_validation (some worker_pod) restore_request gate_and_profile ≡ ok shaped_pod
unfolding build normalize_request validate_restore_from_snapshot_name trim_space trim_left
    trim_right is_space str_eq validate_container_mappings validate_entries contains
    ensure_restore_annotations lookup store delete format_container_mappings ensure_restore_pod_spec
    ensure_control_volume has_valid_control_volume at_most_one ensure_destinations at_container
    ensure_container ensure_container_seccomp_profile ensure_control_mount has_valid_control_mount
    ensure_control_environment ensure_control_env has_valid_control_env ensure_restore_startup_probe
    validate_canonical_restore_pod validate_minimum_restore_pod validate_restore_annotations
    get_restore_from_snapshot_name container_mappings_from_annotations same_container_mappings
    all_wanted is_wanted validate_control_volume validate_destinations find_container
    validate_control_mount validate_control_environment validate_control_mount_value
    is_empty_dir_volume_source validate_policy validate_canonical_restore_startup_probe same_probe
    same_texts canonical_restore_startup_probe validate_container_seccomp_profile
    matches_localhost_seccomp_profile localhost_seccomp_profile
builds = refl

parse_restore_complete-format_restore_complete_example :
    parse_restore_complete (format_restore_complete 4217) ≡ ok 4217
parse_restore_complete-format_restore_complete_example =
    parse_restore_complete-format_restore_complete 4217 (omega arith) (omega arith)

abbrev to_two : List ContainerMapping
to_two =
    record { source = worker; destination = worker }
    ∷ record { source = worker; destination = codes "worker-b" }
    ∷ []

validate_container_mappings_iff_example :
    (validate_container_mappings sample_validation to_two worker ≡ ok tt) ↔ (
      (is_label sample_validation (trim_space worker) ≡ true)
      × (to_two ≢ [])
      × All (IsAllowed sample_validation (trim_space worker)) to_two
      × AreDistinct (destinations to_two))
validate_container_mappings_iff_example =
    validate_container_mappings_iff sample_validation worker to_two
