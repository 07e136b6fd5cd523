-- ===== src/SnapshotJob/Reason.antt =====
-- The reasons of a SnapshotJob's conditions, of snapshotjob_types.go.
use snapshot.Prelude.{Str, codes}

abbrev pub pod_pending : Str
pod_pending = codes "PodPending"

abbrev pub pod_ready : Str
pod_ready = codes "PodReady"

abbrev pub capture_in_progress : Str
capture_in_progress = codes "CaptureInProgress"

abbrev pub capture_completed : Str
capture_completed = codes "CaptureCompleted"

abbrev pub waiting_for_pod_completion : Str
waiting_for_pod_completion = codes "WaitingForPodCompletion"

abbrev pub job_completed : Str
job_completed = codes "JobCompleted"

abbrev pub no_failure : Str
no_failure = codes "NoFailure"

abbrev pub capture_failed : Str
capture_failed = codes "CaptureFailed"

abbrev pub pod_snapshot_failed : Str
pod_snapshot_failed = codes "PodSnapshotFailed"

abbrev pub job_failed : Str
job_failed = codes "JobFailed"

abbrev pub deadline_exceeded : Str
deadline_exceeded = codes "DeadlineExceeded"

abbrev pub source_completed_without_capture : Str
source_completed_without_capture = codes "SourceCompletedWithoutCapture"

abbrev pub pod_snapshot_name_conflict : Str
pod_snapshot_name_conflict = codes "PodSnapshotNameConflict"

abbrev pub pod_snapshot_deleted : Str
pod_snapshot_deleted = codes "PodSnapshotDeleted"

abbrev pub job_name_conflict : Str
job_name_conflict = codes "JobNameConflict"

abbrev pub job_deleted : Str
job_deleted = codes "JobDeleted"

abbrev pub invalid_spec : Str
invalid_spec = codes "InvalidSpec"
