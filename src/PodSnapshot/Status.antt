-- ===== src/PodSnapshot/Status.antt =====
-- The conditions that the reconciler writes.
use snapshot.Prelude.{Str, Bool, false, ◌||◌, Option, none, some, codes, if◌then◌else◌}
use snapshot.Kube.Prog.{done, ask, ◌>>=◌, ◌>>◌}
use snapshot.Kube.Condition.{
  ConditionType, ready, failed, Status, is_true, is_false, Message, Condition, Meta,
  is_status_condition_true,
}
use snapshot.Kube.Objects.{PodSnapshot, PodSnapshotContent}
use snapshot.PodSnapshot.Client.{update_status, record_event, Outcome, stop, Action, end_or_retry}

-- cond.Reason and cond.Message of a condition that is known to be there. A nil dereference
-- would be a panic; `none` cannot be reached, since the test before found it True.
abbrev pub mirrored :
    Option Condition
    → (Str → Message → PodSnapshot × Bool)
    → PodSnapshot × Bool
    → PodSnapshot × Bool
mirrored none mark panicked = panicked
mirrored (some c) mark panicked = mark c.reason c.message

-- Writes the status only when a condition changed.
unfoldable pub write_if_changed : Str → PodSnapshot × Bool → Action Outcome
write_if_changed step (snap, changed) =
    if changed then (do e ← ask (update_status snap); done (end_or_retry step e)) else done stop

module _ (m : Meta) where
  unfoldable pub set_condition :
      PodSnapshot → ConditionType → Status → Str → Message → PodSnapshot × Bool
  set_condition snap kind status reason message =
      let (conditions, changed) =
        m.set snap.conditions
          (record { kind = kind; status = status; reason = reason; message = message }) in
      (record snap { conditions = conditions }, changed)

  unfoldable pub mark_ready : PodSnapshot → Str → Message → PodSnapshot × Bool
  mark_ready snap reason message =
      let (snap1, changed) = set_condition snap ready is_true reason message in
      let (snap2, changed2) = set_condition snap1 failed is_false reason message in
      (snap2, changed2 || changed)

  unfoldable pub mark_failed : PodSnapshot → Str → Message → PodSnapshot × Bool
  mark_failed snap reason message =
      let (snap1, changed) = set_condition snap failed is_true reason message in
      let (snap2, changed2) = set_condition snap1 ready is_false reason message in
      (snap2, changed2 || changed)

  unfoldable pub mark_pending : PodSnapshot → Str → Message → PodSnapshot × Bool
  mark_pending snap reason message = set_condition snap ready is_false reason message

  unfoldable pub record_pending_reason : PodSnapshot → Str → Message → Action Outcome
  record_pending_reason snap reason message =
      write_if_changed (codes "record pending reason") (mark_pending snap reason message)

  unfoldable pub fail_pod_snapshot : PodSnapshot → Str → Message → Action Outcome
  fail_pod_snapshot snap reason cause = do
    ask (record_event snap reason)
    e ← ask (update_status (mark_failed snap reason cause).0)
    done (end_or_retry (codes "mark snapshot failed") e)

  -- isPodSnapshotTerminal
  unfoldable pub is_pod_snapshot_terminal : PodSnapshot → Bool
  is_pod_snapshot_terminal snap = is_status_condition_true m snap.conditions failed

  -- IsPodSnapshotContentSucceeded and IsPodSnapshotContentFailed
  unfoldable pub is_content_succeeded : PodSnapshotContent → Bool
  is_content_succeeded content = is_status_condition_true m content.conditions ready

  unfoldable pub is_content_failed : PodSnapshotContent → Bool
  is_content_failed content = is_status_condition_true m content.conditions failed

  unfoldable pub mirrored_status : PodSnapshot → PodSnapshotContent → PodSnapshot × Bool
  mirrored_status snap content =
      if is_content_succeeded content
      then mirrored (m.find content.conditions ready) (mark_ready snap) (snap, false)
      else if is_content_failed content
      then mirrored (m.find content.conditions failed) (mark_failed snap) (snap, false)
      else mark_pending snap (codes "Pending")
          (Message.text (codes "Waiting for the node agent to take the snapshot"))

  unfoldable pub propagate_status : PodSnapshot → PodSnapshotContent → Action Outcome
  propagate_status snap content =
      write_if_changed (codes "update snapshot status") (mirrored_status snap content)
