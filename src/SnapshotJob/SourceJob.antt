-- ===== src/SnapshotJob/SourceJob.antt =====
-- NewSourceJob and EnsureControlVolume of operator/internal/protocol: the agent's contract on a
-- source pod.
use snapshot.Prelude.{
  ℕ, Str, Bool, false, not, ◌||◌, Option, none, some, List, [], ◌∷◌, ◌++◌, str_eq, codes,
  if◌then◌else◌,
}
use snapshot.Kube.Condition.{Message, fmt, text}
use snapshot.PodContract.Types.{
  Result, ok, refused, ◌>>=◌, ◌>>◌, Check, Volume, VolumeMount, EnvVar, Probe, Container, PodSpec,
}
use snapshot.PodContract.Mappings.{
  lookup, store, is_nil, restore_from_annotation, restore_container_map_annotation,
}
use snapshot.PodContract.Parts.{
  is_some, snapshot_control_volume_name, snapshot_control_mount_path, snapshot_control_dir_env,
  legacy_snapshot_control_dir_env, control_volume,
}
use snapshot.SnapshotJob.Types.{PodTemplate, Job}

pub record SourceJobOptions : Type 0 where
  pub namespace : Str
  pub name : Str
  pub target_container : Str
  pub seccomp_profile : Str
  pub active_deadline_seconds : Option ℕ
  pub wrap_launch_job : Bool
  pub has_checkpoint_readiness_probe : Bool

unfoldable pub has_volume : Str → List Volume → Bool
has_volume name [] = false
has_volume name (v ∷ vs) = str_eq v.name name || has_volume name vs

unfoldable pub has_mount : Str → List VolumeMount → Bool
has_mount name [] = false
has_mount name (v ∷ vs) = str_eq v.name name || has_mount name vs

unfoldable pub has_env : Str → List EnvVar → Bool
has_env name [] = false
has_env name (e ∷ es) = str_eq e.name name || has_env name es

unfoldable pub ensure_env : Str → Str → List EnvVar → List EnvVar
ensure_env name value env =
    if has_env name env
    then env
    else env ++ record { name = name; value = value; value_from = none } ∷ []

abbrev pub control_mount : Str → VolumeMount
control_mount sub_path = record {
  name = snapshot_control_volume_name;
  mount_path = snapshot_control_mount_path;
  sub_path = sub_path;
  read_only = false;
  recursive_read_only = none;
  sub_path_expr = [];
  mount_propagation = none;
}

-- EnsureControlVolume, the part of the pod
unfoldable pub add_control_volume : List Volume → List Volume
add_control_volume volumes =
    if has_volume snapshot_control_volume_name volumes
    then volumes
    else volumes ++ control_volume ∷ []

-- EnsureControlVolume, the part of the container
unfoldable pub add_control_mount : Container → Container
add_control_mount c = record c {
  volume_mounts =
      if has_mount snapshot_control_volume_name c.volume_mounts
      then c.volume_mounts
      else c.volume_mounts ++ control_mount c.name ∷ [];
  env =
      ensure_env legacy_snapshot_control_dir_env snapshot_control_mount_path
        (ensure_env snapshot_control_dir_env snapshot_control_mount_path c.env);
}

unfoldable pub disable_sidecar_injection : List (Str × Str) → List (Str × Str)
disable_sidecar_injection annotations =
    store (codes "sidecar.istio.io/inject") (codes "false")
      (store (codes "linkerd.io/inject") (codes "disabled") annotations)

-- An empty profile is left out.
unfoldable pub ensure_localhost_seccomp_profile : PodSpec → Str → PodSpec
ensure_localhost_seccomp_profile spec profile = if str_eq profile [] then spec else record spec {
  pod_seccomp = some (record { kind = codes "Localhost"; localhost_profile = some profile });
}

abbrev persist_job_file_script : Str
persist_job_file_script =
    codes
      "set -eu\njob_file=\"$1\"\nshift\nif [ -z \"${CUDA_CHECKPOINT_JOB_FILE:-}\" ]; then\n    echo \"CUDA_CHECKPOINT_JOB_FILE is missing; cuda-checkpoint --launch-job requires NVIDIA driver 610 or newer\" >&2\n    exit 1\nfi\numask 077\ncat \"$CUDA_CHECKPOINT_JOB_FILE\" > \"$job_file\"\nexport CUDA_CHECKPOINT_JOB_FILE=\"$job_file\"\nexec \"$@\""

-- The command and the arguments.
unfoldable pub wrap_with_cuda_checkpoint_launch_job : List Str → List Str → List Str × List Str
wrap_with_cuda_checkpoint_launch_job command args = (
  codes "cuda-checkpoint" ∷ [],
  codes "--launch-job"
        ∷ codes "/bin/sh"
        ∷ codes "-c"
        ∷ persist_job_file_script
        ∷ codes "dynamo-cuda-checkpoint"
        ∷ codes "/snapshot-control/cuda-checkpoint-job"
        ∷ command
      ++ args,
)

abbrev pub ready_probe : Probe
ready_probe = record {
  exec_command = some (codes "cat" ∷ codes "/snapshot-control/ready-for-snapshot" ∷ []);
  others = [];
  timeout_seconds = 0;
  period_seconds = 1;
  failure_threshold = 0;
  success_threshold = 0;
}

abbrev pub wrapped : Container → Container
wrapped c =
    let (command, args) = wrap_with_cuda_checkpoint_launch_job c.command c.args in
    record c { command = command; args = args }

-- What NewSourceJob does to the target.
unfoldable pub shape_target : SourceJobOptions → Container → Result Container
shape_target opts c =
    let controlled = add_control_mount c in
    let probed : Container = record controlled {
      readiness_probe =
          if opts.has_checkpoint_readiness_probe
          then controlled.readiness_probe
          else some ready_probe;
      liveness_probe = none;
      startup_probe = none;
    } in
    if not opts.wrap_launch_job
    then ok probed
    else if is_nil probed.command
    then refused (
        text (
          codes
            "source job requires container.command when cuda-checkpoint launch-job wrapping is enabled"))
    else ok (wrapped probed)

-- The first container of the name, shaped; `none` where there is none.
unfoldable pub at_first :
    Str → (Container → Result Container) → Message → List Container → Result (List Container)
at_first name shape missing [] = refused missing
at_first name shape missing (c ∷ cs) =
    let shaped = (do c' ← shape c; ok (c' ∷ cs)) in
    let rest = (do cs' ← at_first name shape missing cs; ok (c ∷ cs')) in
    if str_eq c.name name then shaped else rest

unfoldable pub refuse_annotation : List (Str × Str) → Str → Check
refuse_annotation annotations annotation =
    if is_some (lookup annotation annotations)
    then refused (fmt (codes "source job pod template must not set %s") (annotation ∷ []))
    else ok tt

abbrev pub job_of : SourceJobOptions → PodTemplate → Job
job_of opts template = record {
  namespace = opts.namespace;
  name = opts.name;
  uid = [];
  controller = none;
  active_deadline_seconds = opts.active_deadline_seconds;
  backoff_limit = 0;
  template = template;
  ready = none;
  conditions = [];
}

abbrev pub no_container : Str → Message
no_container name =
    fmt (codes "source job pod template has no container named %q (from opts.TargetContainer)")
      (name ∷ [])

abbrev pub shape_containers : SourceJobOptions → List Container → Result (List Container)
shape_containers opts containers =
    if is_nil containers
    then refused (text (codes "source job requires at least one container"))
    else if str_eq opts.target_container []
    then refused (text (codes "source job pod template: opts.TargetContainer is required"))
    else at_first opts.target_container (shape_target opts) (no_container opts.target_container)
        containers

unfoldable pub new_source_job : PodTemplate → SourceJobOptions → Result Job
new_source_job template opts = do
  refuse_annotation template.annotations restore_from_annotation
  refuse_annotation template.annotations restore_container_map_annotation
  containers ← shape_containers opts template.spec.containers
  let spec =
      ensure_localhost_seccomp_profile (record template.spec { restart_policy = codes "Never" })
        opts.seccomp_profile
  ok (
      job_of opts (record template {
        annotations = disable_sidecar_injection template.annotations;
        spec = record spec { containers = containers; volumes = add_control_volume spec.volumes };
      }))
