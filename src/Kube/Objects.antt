-- ===== src/Kube/Objects.antt =====
-- The fields that the controllers read and write, of the objects of api/v1alpha1 and of pods.
-- A time is a number of seconds, and 0 is the zero time; an empty text is an unset field.
use snapshot.Prelude.{ℕ, Str, Bool, Option, List}
use snapshot.Kube.Condition.{Condition}

pub record ObjectKey : Type 0 where
  pub namespace : Str
  pub name : Str

-- The errors of the API server that the code tells apart.
pub data ApiError : Type 0 where
  not_found already_exists : ApiError
  other_error : Str → ApiError

pub data Reply (A : Type 0) : Type 0 where
  found : A → Reply A
  error : ApiError → Reply A

pub data PodPhase : Type 0 where
  pod_pending pod_running pod_succeeded pod_failed pod_unknown : PodPhase

pub record ContainerStatus : Type 0 where
  pub name : Str
  pub ready : Bool
  -- State.Terminated.FinishedAt
  pub terminated : Option ℕ
  -- State.Terminated.ExitCode, 0 where it is not terminated
  pub exit_code : ℕ

pub record Pod : Type 0 where
  pub namespace : Str
  pub name : Str
  pub uid : Str
  pub node_name : Str
  pub phase : PodPhase
  pub deletion_timestamp : Option ℕ
  -- the UID of the controller among the ownerReferences
  pub controller : Option Str
  pub annotations : List (Str × Str)
  pub container_statuses : List ContainerStatus
  pub init_container_statuses : List ContainerStatus

-- ContainerSnapshotConfig, whose other settings these controllers only copy.
pub record ContainerSettings : Type 0 where
  pub name : Str
  -- CheckpointReadinessProbe is set
  pub probed : Bool
  pub settings : Str

pub record PodReference : Type 0 where
  pub name : Str
  pub uid : Str
  pub containers : List Str

pub record PodSnapshot : Type 0 where
  pub namespace : Str
  pub name : Str
  pub uid : Str
  pub deleting : Bool
  pub labels : List (Str × Str)
  pub annotations : List (Str × Str)
  pub finalizers : List Str
  pub source : PodReference
  pub containers : List ContainerSettings
  -- status.boundPodSnapshotContentName
  pub bound : Option Str
  pub conditions : List Condition

pub record PodSnapshotReference : Type 0 where
  pub namespace : Str
  pub name : Str
  pub uid : Str

pub record PodSnapshotContent : Type 0 where
  pub name : Str
  pub uid : Str
  pub deleting : Bool
  pub finalizers : List Str
  -- the label nvidia.com/snapshot-node
  pub node_label : Str
  pub snapshot_ref : PodSnapshotReference
  pub source : PodReference
  pub source_node : Str
  -- spec.storage.storeID
  pub storage : Option Str
  pub containers : List ContainerSettings
  pub conditions : List Condition
