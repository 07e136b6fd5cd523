-- ===== src/PodSnapshot/Client.antt =====
-- The calls that the reconciler makes on the API server, the recorder and the clock. `read_`
-- calls bypass the informer cache (NonCacheReadClient).
use snapshot.Prelude.{ℕ, Str, Option, none, some}
use snapshot.Kube.Prog
use snapshot.Kube.Objects.{ObjectKey, ApiError, Reply, Pod, PodSnapshot, PodSnapshotContent}

pub data Op : Type 0 where
  get_snapshot : ObjectKey → Op
  update_snapshot update_status : PodSnapshot → Op
  get_content read_content delete_content : Str → Op
  create_content : PodSnapshotContent → Op
  get_pod read_pod : ObjectKey → Op
  -- Recorder.Event, with the reason
  record_event : PodSnapshot → Str → Op
  -- time.Now
  now : Op

-- The answer to a write is its error, if it has one.
abbrev pub Ans : Op → Type 0
Ans (get_snapshot _) = Reply PodSnapshot
Ans (update_snapshot _) = Option ApiError
Ans (update_status _) = Option ApiError
Ans (get_content _) = Reply PodSnapshotContent
Ans (read_content _) = Reply PodSnapshotContent
Ans (delete_content _) = Option ApiError
Ans (create_content _) = Option ApiError
Ans (get_pod _) = Reply Pod
Ans (read_pod _) = Reply Pod
Ans (record_event _ _) = Unit
Ans now = ℕ

-- ctrl.Result and the error: an end, a requeue after some seconds, or an error, which makes
-- controller-runtime try again, with the step that it happened in.
pub data Outcome : Type 0 where
  stop : Outcome
  requeue_after : ℕ → Outcome
  retry : Str → ApiError → Outcome

abbrev pub Action : Type 0 → Type 0
Action = Prog.Prog Op Ans

-- `if err := write; err != nil { return wrapped }`, and an end otherwise.
abbrev pub end_or_retry : Str → Option ApiError → Outcome
end_or_retry step e = elim e [ none ↦ stop | some err ↦ retry step err ]
