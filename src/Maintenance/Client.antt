-- ===== src/Maintenance/Client.antt =====
-- Work items, and the calls that a worker makes on the API server, the backend, the locker, the
-- queue and the recorder.
use snapshot.Prelude.{ℕ, Str, Bool, Option, List, [], codes}
use snapshot.Kube.Prog
use snapshot.Kube.Condition.{Message}
use snapshot.Kube.Objects.{ApiError, Reply, PodSnapshotContent}

abbrev pub artifact_cleanup_finalizer : Str
artifact_cleanup_finalizer = codes "nvidia.com/podsnapshotcontent-artifact-cleanup"

-- A mode that is none of the three constants is another text.
pub data Mode : Type 0 where
  mode_delete_content mode_sweep mode_non_target_sweep : Mode
  unknown_mode : Str → Mode

pub record WorkItemKey : Type 0 where
  pub mode : Mode
  pub name : Str
  pub uid : Str

unfoldable pub new_delete_content_key : Str → Str → WorkItemKey
new_delete_content_key name uid = record { mode = mode_delete_content; name = name; uid = uid }

unfoldable pub new_sweep_key : WorkItemKey
new_sweep_key = record { mode = mode_sweep; name = []; uid = [] }

unfoldable pub new_non_target_sweep_key : WorkItemKey
new_non_target_sweep_key = record { mode = mode_non_target_sweep; name = []; uid = [] }

-- coordination.Key
pub record LockKey : Type 0 where
  pub store_id : Str
  pub artifact_uid : Str

-- The metadata of one content in a list, and one page of the list.
pub record ObjectMeta : Type 0 where
  pub name : Str
  pub uid : Str
  pub deleting : Bool
  pub finalizers : List Str

pub record Page : Type 0 where
  pub resource_version : Str
  pub continue_token : Str
  pub items : List ObjectMeta

-- client.ListOptions, with the ResourceVersion of its raw options.
pub record ListOptions : Type 0 where
  pub limit : ℕ
  pub continue_from : Str
  pub resource_version : Str

-- How the calls of one attempt to list are answered, in the order in which they are made: each
-- answer depends on the options of its call. The attempt runs to its task's deadline: a call after
-- the last one meets the deadline's error.
abbrev pub Answers : Type 0
Answers = List (ListOptions → Reply Page)

-- What Backend.Delete returns: nil, ErrUnsafeArtifact, or another error.
pub data Deletion : Type 0 where
  deleted : Deletion
  unsafe_artifact delete_failed : Message → Deletion

pub data Op : Type 0 where
  get_content : Str → Op
  -- Patch with an optimistic lock
  patch_content : PodSnapshotContent → Op
  lock unlock : LockKey → Op
  delete_artifact : Str → Op
  -- Backend.Candidates
  candidates : Op
  -- The list calls, a list of answers for each attempt.
  list_contents : Op
  enqueue : WorkItemKey → Op
  record_event : PodSnapshotContent → Op

abbrev pub Ans : Op → Type 0
Ans (get_content _) = Reply PodSnapshotContent
Ans (patch_content _) = Option ApiError
Ans (lock _) = Unit
Ans (unlock _) = Unit
Ans (delete_artifact _) = Deletion
Ans candidates = Reply (List Str)
Ans list_contents = List Answers
Ans (enqueue _) = Unit
Ans (record_event _) = Unit

abbrev pub Action : Type 0 → Type 0
Action = Prog.Prog Op Ans

-- The error of a work item, or none: what went wrong, with its causes joined.
pub data ItemResult : Type 0 where
  succeeded : ItemResult
  api_failed : Str → ApiError → ItemResult
  failed : Message → ItemResult
  both_failed : ItemResult → ItemResult → ItemResult
