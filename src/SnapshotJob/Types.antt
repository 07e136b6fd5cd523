-- ===== src/SnapshotJob/Types.antt =====
-- SnapshotJob, the fields of a batch/v1 Job that the reconciler reads, and what it observes.
use snapshot.Prelude.{ℕ, Str, Bool, Option, List}
use snapshot.Kube.Condition.{Status, Message, Condition}
use snapshot.Kube.Objects.{ContainerSettings, PodSnapshot}
use snapshot.PodContract.Types.{PodSpec}

pub record PodTemplate : Type 0 where
  pub labels : List (Str × Str)
  pub annotations : List (Str × Str)
  pub spec : PodSpec

-- batchv1.JobConditionType; the code asks for three of them.
pub data JobConditionType : Type 0 where
  job_complete job_failed job_failure_target job_suspended : JobConditionType

pub record JobCondition : Type 0 where
  pub kind : JobConditionType
  pub status : Status
  pub reason : Str
  pub message : Str

pub record Job : Type 0 where
  pub namespace : Str
  pub name : Str
  pub uid : Str
  -- the UID of the controller among the ownerReferences
  pub controller : Option Str
  pub active_deadline_seconds : Option ℕ
  pub backoff_limit : ℕ
  pub template : PodTemplate
  -- status.ready
  pub ready : Option ℕ
  pub conditions : List JobCondition

pub record TemplateMetadata : Type 0 where
  pub labels : List (Str × Str)
  pub annotations : List (Str × Str)

pub record PodSnapshotTemplate : Type 0 where
  pub metadata : Option TemplateMetadata
  pub target_containers : List Str
  pub containers : List ContainerSettings

pub record SnapshotJobSpec : Type 0 where
  pub pod_template : PodTemplate
  pub active_deadline_seconds : Option ℕ
  -- nonTargetArtifacts.containers
  pub non_target_artifacts : Option (List Str)
  pub pod_snapshot_template : PodSnapshotTemplate

-- An unset reference is the empty text.
pub record SnapshotJobStatus : Type 0 where
  pub source_job_uid : Str
  pub pod_snapshot_name : Str
  pub pod_snapshot_uid : Str
  pub started_at : Option ℕ
  pub completed_at : Option ℕ
  pub conditions : List Condition

pub record SnapshotJob : Type 0 where
  pub namespace : Str
  pub name : Str
  pub uid : Str
  pub deleting : Bool
  pub spec : SnapshotJobSpec
  pub status : SnapshotJobStatus

pub record SnapshotJobFailure : Type 0 where
  pub reason : Str
  pub cause : Message

pub record SnapshotJobObservation : Type 0 where
  pub job : Option Job
  pub pod_snapshot : Option PodSnapshot
  pub source_pod_missing : Bool
  pub source_job_finished : Bool
  pub failure : Option SnapshotJobFailure
