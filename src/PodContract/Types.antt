-- ===== src/PodContract/Types.antt =====
-- The fields of a pod that it reads or shapes.
use snapshot.Prelude.{ℕ, Str, Bool, Option, List}
pub use snapshot.Kube.Result.{Result, ok, refused, ◌>>=◌, ◌>>◌}

-- An error, or nil.
abbrev pub Check : Type 0
Check = Result Unit

-- The functions of k8s.io/apimachinery/pkg/util/validation, which list what is wrong with a name.
pub record Validation : Type 0 where
  pub is_dns1123_subdomain : Str → List Str
  pub is_dns1123_label : Str → List Str

pub record ContainerMapping : Type 0 where
  pub source : Str
  pub destination : Str

-- corev1.VolumeSource: emptyDir, with its settings, and the other members that are set.
pub record VolumeSource : Type 0 where
  pub empty_dir : Option Str
  pub others : List Str

pub record Volume : Type 0 where
  pub name : Str
  pub volume_source : VolumeSource

pub record VolumeMount : Type 0 where
  pub name : Str
  pub mount_path : Str
  pub sub_path : Str
  pub read_only : Bool
  pub recursive_read_only : Option Str
  pub sub_path_expr : Str
  pub mount_propagation : Option Str

-- corev1.EnvVar; valueFrom is only compared with nil.
pub record EnvVar : Type 0 where
  pub name : Str
  pub value : Str
  pub value_from : Option Str

-- corev1.Probe: exec, the other handlers that are set, and the numbers.
pub record Probe : Type 0 where
  pub exec_command : Option (List Str)
  pub others : List Str
  pub timeout_seconds : ℕ
  pub period_seconds : ℕ
  pub failure_threshold : ℕ
  pub success_threshold : ℕ

pub record SeccompProfile : Type 0 where
  pub kind : Str
  pub localhost_profile : Option Str

pub record SecurityContext : Type 0 where
  pub seccomp_profile : Option SeccompProfile
  -- the rest, which is only copied
  pub others : List Str

pub record Container : Type 0 where
  pub name : Str
  pub command : List Str
  pub args : List Str
  pub volume_mounts : List VolumeMount
  pub env : List EnvVar
  pub startup_probe : Option Probe
  pub readiness_probe : Option Probe
  pub liveness_probe : Option Probe
  pub security_context : Option SecurityContext

-- An init container; one whose restart policy is Always is a native sidecar.
pub record InitContainer : Type 0 where
  pub name : Str
  pub is_sidecar : Bool

pub record PodSpec : Type 0 where
  pub containers : List Container
  pub init_containers : List InitContainer
  pub volumes : List Volume
  pub restart_policy : Str
  pub pod_seccomp : Option SeccompProfile

-- corev1.Pod; a nil map of annotations reads as an empty one.
pub record RestorePod : Type 0 where
  pub annotations : List (Str × Str)
  pub spec : PodSpec

pub record Request : Type 0 where
  pub snapshot_name : Str
  pub source_container : Str
  pub mappings : List ContainerMapping

pub record Options : Type 0 where
  pub seccomp_profile : Str
  pub enable_startup_gate : Bool
