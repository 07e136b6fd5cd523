-- ===== src/Agent/Types.antt =====
-- What the capture controller of the agent reads, and its calls. `kill_running` stands for
-- killRunningContainers, whose errors are only logged.
use snapshot.Prelude.{ℕ, Str, Bool, Option, List}
use snapshot.Kube.Prog
use snapshot.Kube.Condition.{Message}
use snapshot.Kube.Objects.{ObjectKey, ApiError, Reply, Pod, PodSnapshotContent}
use snapshot.PodContract.Types.{Result, Container}
use snapshot.Agent.Failure.{CaptureError}

pub record PublishedContainerArtifact : Type 0 where
  pub container_name : Str
  pub artifact_handle : Str

pub record WorkOrder : Type 0 where
  pub content : PodSnapshotContent
  -- metadata.resourceVersion, which a write under an optimistic lock sends along
  pub resource_version : Str
  pub created : ℕ
  -- status.source, which the capture only records
  pub source : Option Str
  -- status.storage.artifacts
  pub artifacts : List PublishedContainerArtifact

pub record SourcePod : Type 0 where
  pub pod : Pod
  -- the label that marks it as eligible
  pub eligible : Option Str
  pub containers : List Container
  -- the names of the container statuses, and their IDs without the scheme
  pub container_ids : List (Str × Str)

pub record CheckpointParams : Type 0 where
  pub pod : SourcePod
  pub container_name : Str
  pub container_id : Str
  pub container_pid : ℕ
  pub content_uid : Str
  pub host_path : Str
  pub cu_interpose_requested : Bool
  pub store_id : Str

-- The Ready and Failed writes take an optimistic lock.
pub data PatchReply : Type 0 where
  patched conflict : PatchReply
  patch_error : ApiError → PatchReply

-- A dump that succeeded has the handle of its published artifact, if it is published.
pub data DumpReply : Type 0 where
  dumped : Option Str → DumpReply
  dump_failed : CaptureError → DumpReply

pub data Op : Type 0 where
  cached_content : Str → Op
  indexed_contents : Pod → Op
  delete_gate load_gate store_gate : Str → Op
  -- newCheckpointGate and its check; whether its probe announces that it waits
  new_gate : WorkOrder → SourcePod → Str → Op
  run_probe : Str → Op
  requeue_capture : Str → ℕ → Op
  resolve_artifact_path : Str → Str → Op
  get_content : Str → Op
  get_pod : ObjectKey → Op
  -- the content UID and the container in the manifest of a committed directory
  read_manifest read_source fetch_manifest : Str → Op
  patch_status : WorkOrder → Op
  add_label remove_label : SourcePod → Op
  emit_event : Str → Op
  kill_running : SourcePod → Op
  resolve_container : Str → Op
  check_staging_capacity : ℕ → Op
  checkpoint : CheckpointParams → Op

abbrev pub Ans : Op → Type 0
Ans (cached_content _) = Reply (Option WorkOrder)
Ans (indexed_contents _) = Reply (List WorkOrder)
Ans (delete_gate _) = Unit
Ans (load_gate _) = Bool
Ans (store_gate _) = Unit
Ans (new_gate _ _ _) = Result Bool
Ans (run_probe _) = Bool × Option ℕ
Ans (requeue_capture _ _) = Unit
Ans (resolve_artifact_path _ _) = Result Str
Ans (get_content _) = Reply WorkOrder
Ans (get_pod _) = Reply SourcePod
Ans (read_manifest _) = Option (Str × Str)
Ans (read_source _) = Option Str
Ans (fetch_manifest _) = Option Str
Ans (patch_status _) = PatchReply
Ans (add_label _) = Option ApiError
Ans (remove_label _) = Option ApiError
Ans (emit_event _) = Unit
Ans (kill_running _) = Unit
Ans (resolve_container _) = Result ℕ
Ans (check_staging_capacity _) = Option Message
Ans (checkpoint _) = DumpReply

-- The error that reconcileCapture returns, which the queue retries.
pub data Outcome : Type 0 where
  stop : Outcome
  retry : Str → Outcome

abbrev pub Action : Type 0 → Type 0
Action = Prog.Prog Op Ans
