-- ===== src/SnapshotJob/Terminal.antt =====
-- How a source Job, a capture and the helper containers have ended.
use snapshot.Prelude.{
  ℕ, Str, Bool, true, false, ◌&&◌, ◌||◌, Option, none, some, List, [], ◌∷◌, ◌==◌, str_eq, contains,
  codes, itoa, if◌then◌else◌,
}
use snapshot.Kube.Condition.{
  Status, is_true, text, fmt, Condition, Meta, ready, failed, is_status_condition_true,
}
use snapshot.Kube.Objects.{ContainerStatus, Pod, PodSnapshot}
use snapshot.PodContract.Types.{Container, InitContainer}
use snapshot.SnapshotJob.Types.{
  job_complete, job_failed, job_failure_target, JobCondition, Job, SnapshotJobFailure,
}
use snapshot.SnapshotJob.Reason

pub data SourceJobState : Type 0 where
  source_job_active source_job_complete : SourceJobState
  source_job_failed source_job_deadline_exceeded : SnapshotJobFailure → SourceJobState

abbrev pub failure_of : SourceJobState → Option SnapshotJobFailure
failure_of source_job_active = none
failure_of source_job_complete = none
failure_of (source_job_failed f) = some f
failure_of (source_job_deadline_exceeded f) = some f

abbrev pub is_set : Status → Bool
is_set is_true = true
is_set _ = false

abbrev pub is_complete : JobCondition → Bool
is_complete c = elim c.kind [ job_complete ↦ is_set c.status | _ ↦ false ]

abbrev pub is_job_failed : JobCondition → Bool
is_job_failed c = elim c.kind [ job_failed ↦ is_set c.status | _ ↦ false ]

abbrev pub is_failure_target : JobCondition → Bool
is_failure_target c = elim c.kind [ job_failure_target ↦ is_set c.status | _ ↦ false ]

abbrev pub is_deadline : JobCondition → Bool
is_deadline c = (is_job_failed c || is_failure_target c) && str_eq c.reason Reason.deadline_exceeded

-- The first condition of a kind, as each of the loops returns at.
unfoldable pub first : (JobCondition → Bool) → List JobCondition → Option JobCondition
first p [] = none
first p (c ∷ cs) = let rest = first p cs in if p c then some c else rest

abbrev deadline_failure : JobCondition → SnapshotJobFailure
deadline_failure c = record {
  reason = Reason.deadline_exceeded;
  cause = fmt (codes "source Job exceeded activeDeadlineSeconds: %s") (c.message ∷ []);
}

abbrev job_failure : JobCondition → SnapshotJobFailure
job_failure c = record {
  reason = Reason.job_failed;
  cause = fmt (codes "source Job failed: %s") (c.message ∷ []);
}

-- The loops in their order, the later ones only where the earlier found nothing.
abbrev pub or_else :
    Option JobCondition → (JobCondition → SourceJobState) → SourceJobState → SourceJobState
or_else none found rest = rest
or_else (some c) found rest = found c

unfoldable pub classify_source_job_terminal : Job → SourceJobState
classify_source_job_terminal job =
    or_else (first is_deadline job.conditions)
      (λ c. source_job_deadline_exceeded (deadline_failure c))
      (or_else (first is_job_failed job.conditions) (λ c. source_job_failed (job_failure c))
        (or_else (first is_failure_target job.conditions) (λ c. source_job_failed (job_failure c))
          (or_else (first is_complete job.conditions) (λ _. source_job_complete)
            source_job_active)))

abbrev pub capture_reason : Str → Str
capture_reason reason =
    if contains reason
      (codes "ContentConflict" ∷ codes "SourcePodNotFound" ∷ codes "StalePodReference" ∷ [])
    then Reason.pod_snapshot_failed
    else if str_eq reason Reason.source_completed_without_capture
    then Reason.source_completed_without_capture
    else Reason.capture_failed

abbrev capture_failure_of : Option Condition → SnapshotJobFailure
capture_failure_of none = record {
  reason = Reason.capture_failed;
  cause = text (codes "PodSnapshot Failed=True with no condition detail");
}
capture_failure_of (some c) = record { reason = capture_reason c.reason; cause = c.message }

module _ (m : Meta) where
  -- IsPodSnapshotSucceeded and IsPodSnapshotFailed
  unfoldable pub is_pod_snapshot_succeeded : PodSnapshot → Bool
  is_pod_snapshot_succeeded snap = is_status_condition_true m snap.conditions ready

  unfoldable pub is_pod_snapshot_failed : PodSnapshot → Bool
  is_pod_snapshot_failed snap = is_status_condition_true m snap.conditions failed

  unfoldable pub capture_failure_reason : PodSnapshot → SnapshotJobFailure
  capture_failure_reason snap = capture_failure_of (m.find snap.conditions failed)

  abbrev failed_capture : SourceJobState → PodSnapshot → SnapshotJobFailure
  failed_capture (source_job_deadline_exceeded f) snap = f
  failed_capture _ snap = capture_failure_reason snap

  unfoldable pub snapshot_job_terminal_failure :
      Job → Option PodSnapshot → Option SnapshotJobFailure
  snapshot_job_terminal_failure job none = failure_of (classify_source_job_terminal job)
  snapshot_job_terminal_failure job (some snap) =
      if is_pod_snapshot_failed snap
      then some (failed_capture (classify_source_job_terminal job) snap)
      else none

-- expectedHelperContainers
unfoldable pub expected_helpers : List Container → Str → List Str
expected_helpers [] target = []
expected_helpers (c ∷ cs) target =
    let rest = expected_helpers cs target in if str_eq c.name target then rest else c.name ∷ rest

unfoldable pub expected_sidecars : List InitContainer → List Str
expected_sidecars [] = []
expected_sidecars (c ∷ cs) =
    let rest = expected_sidecars cs in if c.is_sidecar then c.name ∷ rest else rest

-- containerTerminatedState: the exit code of the first entry of the name, if that has terminated.
abbrev exit_of : Option ℕ → ℕ → Option ℕ
exit_of none code = none
exit_of (some _) code = some code

unfoldable pub container_terminated_state : List ContainerStatus → Str → Option ℕ
container_terminated_state [] name = none
container_terminated_state (s ∷ statuses) name =
    let rest = container_terminated_state statuses name in
    if str_eq s.name name then exit_of s.terminated s.exit_code else rest

-- What classifyHelperPod and its caller return: a failure, still running, or neither.
pub data HelperVerdict : Type 0 where
  helpers_done helpers_running : HelperVerdict
  helpers_failed : SnapshotJobFailure → HelperVerdict

abbrev pub after_helper : Str → Option ℕ → HelperVerdict → HelperVerdict
after_helper name none rest = helpers_running
after_helper name (some code) rest =
    if code == 0
    then rest
    else helpers_failed (record {
      reason = Reason.job_failed;
      cause =
          fmt (codes "helper container %q exited with code %d after the checkpoint succeeded")
            (name ∷ itoa code ∷ []);
    })

abbrev pub after_sidecar : Option ℕ → HelperVerdict → HelperVerdict
after_sidecar none rest = helpers_running
after_sidecar (some _) rest = rest

unfoldable pub classify_sidecars : List ContainerStatus → List Str → HelperVerdict
classify_sidecars statuses [] = helpers_done
classify_sidecars statuses (name ∷ names) =
    after_sidecar (container_terminated_state statuses name) (classify_sidecars statuses names)

unfoldable pub classify_helper_pod : Pod → List Str → List Str → HelperVerdict
classify_helper_pod pod [] sidecars = classify_sidecars pod.init_container_statuses sidecars
classify_helper_pod pod (name ∷ helpers) sidecars =
    after_helper name (container_terminated_state pod.container_statuses name)
      (classify_helper_pod pod helpers sidecars)
