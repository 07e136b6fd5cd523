-- ===== src/SnapshotJob/Status.antt =====
-- deriveSnapshotJobStatus and its parts, at the time of the reconciliation.
use snapshot.Prelude.{
  ℕ, Str, Bool, true, false, Option, none, some, [], ◌∷◌, ltb, codes, if◌then◌else◌,
}
use snapshot.Kube.Condition.{
  ConditionType, running, captured, completed, failed, Status, is_true, is_false, Message, text,
  wrap, Condition, Meta, is_status_condition_true,
}
use snapshot.Kube.Objects.{PodSnapshot}
use snapshot.SnapshotJob.Types.{Job, SnapshotJobStatus, SnapshotJobFailure, SnapshotJobObservation}
use snapshot.SnapshotJob.Reason
use snapshot.SnapshotJob.Terminal.{
  SourceJobState, source_job_active, source_job_complete, source_job_failed,
  source_job_deadline_exceeded, classify_source_job_terminal, is_pod_snapshot_succeeded,
  is_pod_snapshot_failed, capture_failure_reason,
}

abbrev pub Next : Type 0
Next = SnapshotJobStatus

-- `t == nil` filled in.
abbrev pub or_now : Option ℕ → ℕ → Option ℕ
or_now none now = some now
or_now (some t) now = some t

-- `x == ""` filled in.
abbrev pub or_text : Str → Str → Str
or_text [] s = s
or_text (c ∷ r) s = c ∷ r

abbrev pub is_ready : Option ℕ → Bool
is_ready none = false
is_ready (some n) = ltb 0 n

abbrev pub stop_message : Message
stop_message =
    text (codes "the SnapshotJob failed terminally; the source Job is preserved for debugging")

module _ (m : Meta) where
  unfoldable pub set_condition : Next → ConditionType → Status → Str → Message → Next
  set_condition next kind status reason message = record next {
    conditions =
        (m.set next.conditions
          (record { kind = kind; status = status; reason = reason; message = message })).0;
  }

  abbrev pub is_on : Next → ConditionType → Bool
  is_on next kind = is_status_condition_true m next.conditions kind

  abbrev pub set_if_missing : Next → ConditionType → Str → Str → Option Condition → Next
  set_if_missing next kind reason message none =
      set_condition next kind is_false reason (text message)
  set_if_missing next kind reason message (some _) = next

  unfoldable pub initialize_condition : ConditionType → Str → Str → Next → Next
  initialize_condition kind reason message next =
      set_if_missing next kind reason message (m.find next.conditions kind)

  unfoldable pub initialize_conditions : Next → Next
  initialize_conditions next =
      initialize_condition failed Reason.no_failure (codes "no failure observed") (
        initialize_condition completed Reason.capture_in_progress
          (codes "waiting for the checkpoint to complete")
          (initialize_condition captured Reason.capture_in_progress
            (codes "waiting for the checkpoint to start")
            (initialize_condition running Reason.pod_pending
              (codes "waiting for the source pod to become ready") next)))

  abbrev pub running_without_job : Option SnapshotJobFailure → Next → Next
  running_without_job none next = next
  running_without_job (some f) next =
      set_condition next running is_false f.reason
        (wrap (text (codes "source pod is unavailable: ")) f.cause)

  abbrev pub running_by_readiness : Bool → Bool → Next → Next
  running_by_readiness true missing next =
      set_condition next running is_true Reason.pod_ready (text (codes "source pod is ready"))
  running_by_readiness false missing next = set_condition next running is_false Reason.pod_pending (
      text (
        if missing
        then codes "waiting for the source Job to create a pod"
        else codes "waiting for the source pod to become ready"))

  abbrev pub running_by_state : SourceJobState → Bool → Bool → Next → Next
  running_by_state source_job_active ready missing next = running_by_readiness ready missing next
  running_by_state source_job_complete ready missing next =
      set_condition next running is_false Reason.job_completed (text (codes "source Job completed"))
  running_by_state (source_job_failed f) ready missing next =
      set_condition next running is_false f.reason f.cause
  running_by_state (source_job_deadline_exceeded f) ready missing next =
      set_condition next running is_false f.reason f.cause

  abbrev pub mark_started : Bool → ℕ → Next → Next
  mark_started false now next = next
  mark_started true now next = record next { started_at = or_now next.started_at now }

  abbrev pub running_of : Option Job → SnapshotJobObservation → ℕ → Next → Next
  running_of none observed now next = running_without_job observed.failure next
  running_of (some job) observed now next =
      running_by_state (classify_source_job_terminal job) (is_ready job.ready)
        observed.source_pod_missing (mark_started (is_ready job.ready) now next)

  unfoldable pub derive_running_status : SnapshotJobObservation → ℕ → Next → Next
  derive_running_status observed now next = running_of observed.job observed now next

  abbrev pub or_failure : Option SnapshotJobFailure → SnapshotJobFailure → Option SnapshotJobFailure
  or_failure none f = some f
  or_failure (some g) f = some g

  abbrev pub close_captured : Option SnapshotJobFailure → Next → Next
  close_captured none next = next
  close_captured (some f) next =
      if is_on next captured
      then next
      else set_condition next captured is_false f.reason
          (wrap (text (codes "checkpoint did not complete: ")) f.cause)

  abbrev pub captured_of :
      Option PodSnapshot → Option SnapshotJobFailure → Next → Next × Option SnapshotJobFailure
  captured_of none failure next = (close_captured failure next, failure)
  captured_of (some snap) failure next =
      let bound : Next = record next {
        pod_snapshot_name = snap.name;
        pod_snapshot_uid = or_text next.pod_snapshot_uid snap.uid;
      } in
      let cause = capture_failure_reason m snap in
      if is_pod_snapshot_failed m snap
      then (
        set_condition bound captured is_false cause.reason cause.cause,
        or_failure failure cause,
      )
      else if is_pod_snapshot_succeeded m snap
      then (
        set_condition bound captured is_true Reason.capture_completed
            (text (codes "the target container's state is saved to the snapshot store")),
        failure,
      )
      else (
        set_condition bound captured is_false Reason.capture_in_progress
            (text (codes "waiting for the node agent to take the snapshot")),
        failure,
      )

  -- The new status, and the failure that the capture adds.
  unfoldable pub derive_captured_status :
      SnapshotJobObservation → Next → Next × Option SnapshotJobFailure
  derive_captured_status observed next = captured_of observed.pod_snapshot observed.failure next

  unfoldable pub derive_failure_status : SnapshotJobFailure → ℕ → Next → Next
  derive_failure_status f now next =
      let stopped =
        if is_on next running
        then set_condition next running is_false f.reason stop_message
        else next in
      let closed =
        if is_on stopped completed
        then stopped
        else set_condition stopped completed is_false f.reason
            (wrap (text (codes "the SnapshotJob failed before completing: ")) f.cause) in
      let marked = set_condition closed failed is_true f.reason f.cause in
      record marked { completed_at = or_now marked.completed_at now }

  abbrev pub is_captured : Option PodSnapshot → Bool
  is_captured none = false
  is_captured (some snap) = is_pod_snapshot_succeeded m snap

  -- By whether the capture has succeeded and the source Job is verified to have finished.
  abbrev pub completion_of : Bool → Bool → ℕ → Next → Next
  completion_of false finished now next = next
  completion_of true false now next =
      set_condition
        (set_condition next running is_false Reason.waiting_for_pod_completion
          (text (codes "snapshot taken; the source pod's remaining containers are finishing")))
        completed is_false Reason.waiting_for_pod_completion
        (text (codes "snapshot taken; waiting for the source pod's remaining containers to finish"))
  completion_of true true now next =
      let marked =
        set_condition
          (set_condition next running is_false Reason.job_completed
            (text (codes "source Job finished")))
          completed is_true Reason.job_completed
          (text
            (codes "snapshot taken and source workload finished; source Job cleanup initiated")) in
      record marked { completed_at = or_now marked.completed_at now }

  unfoldable pub derive_completion_status : SnapshotJobObservation → ℕ → Next → Next
  derive_completion_status observed now next =
      completion_of (is_captured observed.pod_snapshot) observed.source_job_finished now next

  abbrev pub job_uid : Option Job → Str
  job_uid none = []
  job_uid (some job) = job.uid

  abbrev pub derived :
      Next × Option SnapshotJobFailure → SnapshotJobObservation → ℕ → SnapshotJobStatus
  derived (next, some f) observed now = derive_failure_status f now next
  derived (next, none) observed now = derive_completion_status observed now next

  -- The status before the capture is looked at.
  unfoldable pub derive_source_status : SnapshotJobStatus → SnapshotJobObservation → ℕ → Next
  derive_source_status status observed now = derive_running_status observed now (
      initialize_conditions
        (record status { source_job_uid = or_text status.source_job_uid (job_uid observed.job) }))

  unfoldable pub derive_snapshot_job_status :
      SnapshotJobStatus → SnapshotJobObservation → ℕ → SnapshotJobStatus
  derive_snapshot_job_status status observed now =
      derived (derive_captured_status observed (derive_source_status status observed now)) observed
        now
