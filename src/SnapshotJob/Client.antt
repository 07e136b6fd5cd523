-- ===== src/SnapshotJob/Client.antt =====
-- The calls of the SnapshotJob reconciler. `read_` and `list_read_` calls bypass the informer
-- cache (NonCacheReadClient).
use snapshot.Prelude.{ℕ, Str, Option, List}
use snapshot.Kube.Prog
use snapshot.Kube.Condition.{Message}
use snapshot.Kube.Objects.{ObjectKey, ApiError, Reply, Pod, PodSnapshot}
use snapshot.SnapshotJob.Types.{Job, SnapshotJob, SnapshotJobStatus}

pub data Op : Type 0 where
  get_snapshot_job : ObjectKey → Op
  get_job read_job : ObjectKey → Op
  create_job : Job → Op
  -- the deletion of a Job, on the condition that it has the UID, in the background
  delete_job : Job → Str → Op
  get_pod_snapshot read_pod_snapshot : ObjectKey → Op
  create_pod_snapshot : PodSnapshot → Op
  -- the pods with the label of the Job in its namespace
  list_pods list_read_pods : Job → Op
  patch_status : SnapshotJob → SnapshotJobStatus → Op
  -- Recorder.Event, with the reason
  record_event : SnapshotJob → Str → Op
  now : Op

-- A creation answers with the object as the API server stored it.
abbrev pub Ans : Op → Type 0
Ans (get_snapshot_job _) = Reply SnapshotJob
Ans (get_job _) = Reply Job
Ans (read_job _) = Reply Job
Ans (create_job _) = Reply Job
Ans (delete_job _ _) = Option ApiError
Ans (get_pod_snapshot _) = Reply PodSnapshot
Ans (read_pod_snapshot _) = Reply PodSnapshot
Ans (create_pod_snapshot _) = Reply PodSnapshot
Ans (list_pods _) = Reply (List Pod)
Ans (list_read_pods _) = Reply (List Pod)
Ans (patch_status _ _) = Option ApiError
Ans (record_event _ _) = Unit
Ans now = ℕ

-- What a part of a reconciliation returns: a value, an error that makes controller-runtime try
-- again, or an error that the code recognises.
pub data Flow (A : Type 0) : Type 0 where
  go : A → Flow A
  retry : Str → ApiError → Flow A
  broken : Message → Flow A

abbrev pub Action : Type 0 → Type 0
Action = Prog.Prog Op Ans

-- An end of Reconcile: nothing more, a requeue after some seconds, or an error.
pub data Outcome : Type 0 where
  stop : Outcome
  requeue_after : ℕ → Outcome
  retried : Str → ApiError → Outcome
  errored : Message → Outcome
