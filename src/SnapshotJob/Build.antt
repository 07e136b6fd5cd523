-- ===== src/SnapshotJob/Build.antt =====
-- The source Job and the PodSnapshot that a SnapshotJob asks for: snapshotjob_job.go,
-- snapshotjob_validation.go, buildPodSnapshot, and ShapeCuInterposeCapture.
use snapshot.Prelude.{
  Str, Bool, true, false, not, ◌&&◌, ◌||◌, Option, none, some, List, [], ◌∷◌, ◌++◌, ◌==◌, length,
  str_eq, codes, join, itoa, if◌then◌else◌,
}
use snapshot.Kube.Condition.{fmt, text}
use snapshot.Kube.Objects.{Pod, PodSnapshot, ContainerSettings}
use snapshot.PodContract.Types.{
  Result, ok, refused, ◌>>=◌, ◌>>◌, Check, Validation, VolumeMount, EnvVar, Container,
  InitContainer, PodSpec,
}
use snapshot.PodContract.Mappings.{lookup, store, is_nil}
use snapshot.PodContract.Parts.{is_some}
use snapshot.PodContract.Build.{find_container}
use snapshot.PodContract.NonTarget.{
  non_target_artifact_containers_annotation, snapshot_job_uid_env, non_target_artifact_subdir_env,
  non_target_artifact_subdir, non_target_artifact_containers,
}
use snapshot.PodContract.CuInterpose.{
  cu_interpose_mount_path, cu_interpose_launcher_prefix, parse_cu_interpose_annotation,
}
use snapshot.PodSnapshot.Content.{copy_container_settings}
use snapshot.SnapshotJob.Types.{PodTemplate, Job, TemplateMetadata, SnapshotJob}
use snapshot.SnapshotJob.SourceJob.{SourceJobOptions, at_first, has_volume, new_source_job}

abbrev pub owner_label : Str
owner_label = codes "nvidia.com/snapshot-job"

abbrev pub owner_uid_label : Str
owner_uid_label = codes "nvidia.com/snapshot-job-uid"

-- The validators of apimachinery, each with the errors that it reports, and path.Clean.
pub record JobValidation : Type 0 where
  pub names : Validation
  pub is_label_value : Str → List Str
  pub validate_labels : List (Str × Str) → List Str
  pub validate_annotations : List (Str × Str) → List Str
  pub clean : Str → Str

abbrev one_target : List Str → Result Str
one_target (target ∷ []) = ok target
one_target targets = refused (
    fmt (codes "spec.podSnapshotTemplate.targetContainers must have exactly one entry, got %d")
      (itoa (length targets) ∷ []))

unfoldable pub snapshot_job_target_container : SnapshotJob → Result Str
snapshot_job_target_container sj = one_target sj.spec.pod_snapshot_template.target_containers

abbrev reserved : List (Str × Str) → Str → List Str
reserved labels label =
    if is_some (lookup label labels) then codes "label is controller-owned" ∷ [] else []

-- errs.ToAggregate
abbrev aggregate : List Str → Check
aggregate [] = ok tt
aggregate (e ∷ es) = refused (fmt (join (codes ", ") (e ∷ es)) [])

abbrev pub set_env : Str → Str → EnvVar
set_env name value = record { name = name; value = value; value_from = none }

-- The first variable of a container that the controller sets itself.
unfoldable pub controlled_env : List EnvVar → Option Str
controlled_env [] = none
controlled_env (e ∷ es) =
    let rest = controlled_env es in
    if str_eq e.name snapshot_job_uid_env || str_eq e.name non_target_artifact_subdir_env
    then some e.name
    else rest

abbrev with_contract : Str → Str → Container → Container
with_contract uid subdir c = record c {
  env = set_env snapshot_job_uid_env uid ∷ set_env non_target_artifact_subdir_env subdir ∷ c.env;
}

abbrev inject_unless : Str → Str → Str → Container → Option Str → Result Container
inject_unless name uid subdir c (some env) = refused (
    fmt (codes "non-target container %q sets controller-owned environment variable %s")
      (name ∷ env ∷ []))
inject_unless name uid subdir c none = ok (with_contract uid subdir c)

unfoldable pub inject_names : Str → Str → Str → List Str → List Container → Result (List Container)
inject_names target uid subdir [] containers = ok containers
inject_names target uid subdir (name ∷ names) containers =
    let rest = (do
      containers' ←
          at_first name (λ c. inject_unless name uid subdir c (controlled_env c.env))
            (fmt
              (codes
                "spec.nonTargetArtifacts.containers names missing regular non-target container %q")
              (name ∷ []))
            containers
      inject_names target uid subdir names containers') in
    if str_eq name target
    then refused (
        fmt (codes "spec.nonTargetArtifacts.containers must not name target container %q")
          (name ∷ []))
    else rest

-- The annotation that a policy sets; `none` where there is nothing to inject.
abbrev pub requested : Option (List Str) → List (Str × Str) → Result (Option (List (Str × Str)))
requested none annotations = ok (
    if is_some (lookup non_target_artifact_containers_annotation annotations)
    then some annotations
    else none)
requested (some containers) annotations =
    if is_some (lookup non_target_artifact_containers_annotation annotations)
    then refused (
        text
          (codes "spec.nonTargetArtifacts and the legacy container annotation cannot both be set"))
    else if is_nil containers
    then refused (text (codes "spec.nonTargetArtifacts.containers must not be empty"))
    else ok (
        some (
          store non_target_artifact_containers_annotation (join (codes ",") containers)
            annotations))

abbrev pub same_count : Option (List Str) → List Str → Check
same_count none names = ok tt
same_count (some containers) names =
    if length names == length containers
    then ok tt
    else refused (text (codes "spec.nonTargetArtifacts.containers contains duplicates"))

-- ShapeCuInterposeCapture; of the installer, the name.
abbrev cu_volume : Str
cu_volume = codes "snapshot-cuda"

abbrev installer_name : Str
installer_name = codes "snapshot-cuda-install"

abbrev cu_slash : Str
cu_slash = codes "/tmp/snapshot-cuda/"

abbrev cu_mount : VolumeMount
cu_mount = record {
  name = cu_volume;
  mount_path = cu_interpose_mount_path;
  sub_path = [];
  read_only = true;
  recursive_read_only = none;
  sub_path_expr = [];
  mount_propagation = none;
}

-- strings.HasPrefix
unfoldable pub starts_with : Str → Str → Bool
starts_with [] s = true
starts_with (p ∷ ps) [] = false
starts_with (p ∷ ps) (c ∷ cs) = p == c && starts_with ps cs

abbrev pub has_command : List Str → Bool
has_command [] = false
has_command (c ∷ cs) = not (str_eq c [])

unfoldable pub has_init_container : Str → List InitContainer → Bool
has_init_container name [] = false
has_init_container name (c ∷ cs) = str_eq c.name name || has_init_container name cs

unfoldable pub check_cu_interpose_reserved_names : PodSpec → Check
check_cu_interpose_reserved_names spec =
    if has_volume cu_volume spec.volumes
    then refused (fmt (codes "volume name %q is reserved for cuinterpose") (cu_volume ∷ []))
    else if is_some (find_container spec.containers installer_name)
        || has_init_container installer_name spec.init_containers
    then refused (fmt (codes "container name %q is reserved for cuinterpose") (installer_name ∷ []))
    else ok tt

-- hasCheckpointReadinessProbe
unfoldable pub has_checkpoint_readiness_probe : List ContainerSettings → Str → Bool
has_checkpoint_readiness_probe [] target = false
has_checkpoint_readiness_probe (c ∷ cs) target =
    let rest = has_checkpoint_readiness_probe cs target in
    if str_eq c.name target then c.probed else rest

module _ (v : JobValidation) where
  abbrev valid_metadata : Option TemplateMetadata → Check
  valid_metadata none = ok tt
  valid_metadata (some metadata) = aggregate (
      v.validate_labels metadata.labels
      ++ v.validate_annotations metadata.annotations
      ++ reserved metadata.labels owner_label
      ++ reserved metadata.labels owner_uid_label)

  unfoldable pub validate_pod_snapshot_template_metadata : SnapshotJob → Check
  validate_pod_snapshot_template_metadata sj = valid_metadata sj.spec.pod_snapshot_template.metadata

  abbrev pub inject_requested :
      PodTemplate → Option (List Str) → Str → Str → Option (List (Str × Str)) → Result PodTemplate
  inject_requested template policy target uid none = ok template
  inject_requested template policy target uid (some annotations) = do
    names ← non_target_artifact_containers v.names annotations
    same_count policy names
    subdir ← non_target_artifact_subdir v.names uid
    containers ← inject_names target uid subdir names template.spec.containers
    ok (record template {
      annotations = annotations;
      spec = record template.spec { containers = containers };
    })

  unfoldable pub inject_non_target_artifact_contract :
      PodTemplate → Option (List Str) → Str → Str → Result PodTemplate
  inject_non_target_artifact_contract template policy target uid = do
    annotations ← requested policy template.annotations
    inject_requested template policy target uid annotations

  abbrev pub owned : SnapshotJob → List (Str × Str) → List (Str × Str)
  owned sj labels = store owner_uid_label sj.uid (store owner_label sj.name labels)

  abbrev pub options_of : SnapshotJob → Str → SourceJobOptions
  options_of sj target = record {
    namespace = sj.namespace;
    name = sj.name;
    target_container = target;
    seccomp_profile = codes "profiles/block-iouring.json";
    active_deadline_seconds = sj.spec.active_deadline_seconds;
    wrap_launch_job = false;
    has_checkpoint_readiness_probe =
        has_checkpoint_readiness_probe sj.spec.pod_snapshot_template.containers target;
  }

  abbrev pub check_name : SnapshotJob → Check
  check_name sj =
      if is_nil (v.is_label_value sj.name)
      then ok tt
      else refused (
          fmt (codes "metadata.name %q is not a valid label value: %s")
            (sj.name ∷ join (codes "; ") (v.is_label_value sj.name) ∷ []))

  unfoldable pub build_source_job : SnapshotJob → Result Job
  build_source_job sj = do
    check_name sj
    validate_pod_snapshot_template_metadata sj
    target ← snapshot_job_target_container sj
    let template = record sj.spec.pod_template { labels = owned sj sj.spec.pod_template.labels }
    injected ←
        inject_non_target_artifact_contract template sj.spec.non_target_artifacts target sj.uid
    new_source_job injected (options_of sj target)

  abbrev pub labels_of : Option TemplateMetadata → List (Str × Str)
  labels_of none = []
  labels_of (some metadata) = metadata.labels

  abbrev pub annotations_of : Option TemplateMetadata → List (Str × Str)
  annotations_of none = []
  annotations_of (some metadata) = metadata.annotations

  abbrev non_target_annotation :
      Option (List Str) → Option Str → List (Str × Str) → List (Str × Str)
  non_target_annotation (some containers) legacy annotations =
      store non_target_artifact_containers_annotation (join (codes ",") containers) annotations
  non_target_annotation none (some legacy) annotations =
      store non_target_artifact_containers_annotation legacy annotations
  non_target_annotation none none annotations = annotations

  -- The labels and the annotations of the PodSnapshot.
  unfoldable pub pod_snapshot_template_metadata :
      SnapshotJob → Result (List (Str × Str) × List (Str × Str))
  pod_snapshot_template_metadata sj = do
    validate_pod_snapshot_template_metadata sj
    ok (
      owned sj (labels_of sj.spec.pod_snapshot_template.metadata),
      non_target_annotation sj.spec.non_target_artifacts
          (lookup non_target_artifact_containers_annotation sj.spec.pod_template.annotations)
          (annotations_of sj.spec.pod_snapshot_template.metadata),
    )

  unfoldable pub build_pod_snapshot : SnapshotJob → Pod → Result PodSnapshot
  build_pod_snapshot sj pod = do
    _ ← snapshot_job_target_container sj
    metadata ← pod_snapshot_template_metadata sj
    ok (record {
      namespace = sj.namespace;
      name = sj.name;
      uid = [];
      deleting = false;
      labels = metadata.0;
      annotations = metadata.1;
      finalizers = [];
      source = record {
        name = pod.name;
        uid = pod.uid;
        containers = sj.spec.pod_snapshot_template.target_containers;
      };
      containers = copy_container_settings sj.spec.pod_snapshot_template.containers;
      bound = none;
      conditions = [];
    })

  abbrev under : Str → VolumeMount → Bool
  under name mount =
      let path = v.clean mount.mount_path in
      str_eq mount.name cu_volume
      || (str_eq path cu_interpose_mount_path || starts_with cu_slash path)

  -- The first mount that is in the way.
  unfoldable pub conflicting_mount : Str → List VolumeMount → Option VolumeMount
  conflicting_mount name [] = none
  conflicting_mount name (mount ∷ mounts) =
      let rest = conflicting_mount name mounts in if under name mount then some mount else rest

  abbrev pub launched : Container → Container
  launched c = record c {
    command = cu_interpose_launcher_prefix ++ c.command;
    volume_mounts = c.volume_mounts ++ cu_mount ∷ [];
  }

  abbrev pub launched_unless : Container → Option VolumeMount → Result Container
  launched_unless c none = ok (launched c)
  launched_unless c (some mount) = refused (
      fmt (codes "container %q: mount %q at %q conflicts with cuinterpose delivery")
        (c.name ∷ mount.name ∷ mount.mount_path ∷ []))

  -- cuInterposeTarget, and what is done to the container that it returns.
  unfoldable pub shape_cu_interpose_target : Container → Result Container
  shape_cu_interpose_target c =
      if has_command c.command
      then launched_unless c (conflicting_mount c.name c.volume_mounts)
      else refused
          (fmt (codes "container %q: cuinterpose requires container.command") (c.name ∷ []))

  unfoldable pub shape_cu_interpose_capture : PodTemplate → Str → Result PodTemplate
  shape_cu_interpose_capture template target = do
    check_cu_interpose_reserved_names template.spec
    containers ←
        at_first target shape_cu_interpose_target
          (fmt (codes "cuinterpose target container %q not found") (target ∷ []))
          template.spec.containers
    ok (record template {
      spec = record template.spec {
        containers = containers;
        volumes =
            template.spec.volumes
            ++ record {
              name = cu_volume;
              volume_source = record { empty_dir = some []; others = [] };
            }
              ∷ [];
        init_containers =
            template.spec.init_containers
            ++ record { name = installer_name; is_sidecar = false } ∷ [];
      };
    })

  -- The Job to create: built, and shaped for cuinterpose where that is asked for.
  unfoldable pub desired_source_job : SnapshotJob → Result Job
  desired_source_job sj = do
    enabled ← parse_cu_interpose_annotation sj.spec.pod_template.annotations
    job ← build_source_job sj
    target ← snapshot_job_target_container sj
    let shaped = (do
      template ← shape_cu_interpose_capture job.template target
      ok (record job { template = template }))
    if enabled then shaped else ok job
