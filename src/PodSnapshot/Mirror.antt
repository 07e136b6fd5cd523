-- ===== src/PodSnapshot/Mirror.antt =====
-- The bound path: the work order's result, and a source pod that turned terminal without one.
use snapshot.Prelude.{
  ℕ, Str, Bool, not, ◌||◌, Option, none, some, [], ◌∷◌, ltb, str_eq, codes, if◌then◌else◌,
}
use snapshot.Kube.Prog.{done, ask, ◌>>=◌}
use snapshot.Kube.Condition.{Message, fmt, Meta}
use snapshot.Kube.Objects.{
  Pod, PodSnapshot, PodSnapshotContent, Reply, found, error, not_found, ObjectKey,
}
use snapshot.PodSnapshot.Client.{
  get_content, read_content, get_pod, read_pod, now, Outcome, retry, requeue_after, Action,
}
use snapshot.PodSnapshot.Source.{
  key_text, pending_capture_source_failure, source_pod_terminal_grace_remaining,
  reason_source_pod_gone,
}
use snapshot.PodSnapshot.Status.{
  fail_pod_snapshot, propagate_status, is_content_succeeded, is_content_failed,
}
use snapshot.PodSnapshot.Content.{backlinks, conflict, content_conflict}

abbrev pub source_key : PodSnapshot → ObjectKey
source_key snap = record { namespace = snap.namespace; name = snap.source.name }

module _ (m : Meta) (snap : PodSnapshot) where
  abbrev pub is_terminal : PodSnapshotContent → Bool
  is_terminal content = is_content_succeeded m content || is_content_failed m content

  -- Waits out the grace window of a source that is gone.
  unfoldable pub wait_or_fail : Pod → Str → Message → ℕ → Action Outcome
  wait_or_fail pod reason cause at =
      let wait = source_pod_terminal_grace_remaining pod at in
      if ltb 0 wait then done (requeue_after wait) else fail_pod_snapshot m snap reason cause

  -- What remains once the authoritative pod and content are read and the content is pending.
  unfoldable pub fail_or_wait : Pod → Str → Message → Action Outcome
  fail_or_wait pod reason cause =
      if str_eq reason reason_source_pod_gone
      then (do at ← ask now; wait_or_fail pod reason cause at)
      else fail_pod_snapshot m snap reason cause

  unfoldable pub resolve_source_failure :
      PodSnapshotContent → Pod → Option (Str × Message) → Action Outcome
  resolve_source_failure content pod none = propagate_status m snap content
  resolve_source_failure content pod (some (reason, cause)) = fail_or_wait pod reason cause

  -- With the authoritative content at hand, still pending. A pod error other than "not found"
  -- has returned before.
  unfoldable pub resolve_with_pod : PodSnapshotContent → Reply Pod → Action Outcome
  resolve_with_pod content (found pod) =
      resolve_source_failure content pod (pending_capture_source_failure snap content pod)
  resolve_with_pod content (error _) = fail_pod_snapshot m snap (codes "SourcePodNotFound") (
      fmt (codes "source pod %q disappeared before checkpoint success or failure was recorded")
        (key_text snap.namespace snap.source.name ∷ []))

  -- readAuthoritativeBoundContent, and what follows from its result.
  unfoldable pub resolve_with_content : Reply Pod → Reply PodSnapshotContent → Action Outcome
  resolve_with_content pod (error err) =
      done (retry (codes "re-read pending PodSnapshotContent") err)
  resolve_with_content pod (found content) =
      if not (backlinks snap content)
      then fail_pod_snapshot m snap (codes "ContentConflict")
          (content_conflict (conflict snap content))
      else if is_terminal content
      then propagate_status m snap content
      else resolve_with_pod content pod

  -- readAuthoritativeSourcePod comes first.
  unfoldable pub after_read_pod : Str → Reply Pod → Action Outcome
  after_read_pod content_name (found pod) = do
    r ← ask (read_content content_name)
    resolve_with_content (found pod) r
  after_read_pod content_name (error not_found) = do
    r ← ask (read_content content_name)
    resolve_with_content (error not_found) r
  after_read_pod content_name (error err) =
      done (retry (codes "re-read source pod for pending capture") err)

  unfoldable pub confirm_pending_capture_terminal : PodSnapshotContent → Action Outcome
  confirm_pending_capture_terminal cached = do
    r ← ask (read_pod (source_key snap))
    after_read_pod cached.name r

  abbrev pub unless_failure : PodSnapshotContent → Option (Str × Message) → Action Outcome
  unless_failure cached none = propagate_status m snap cached
  unless_failure cached (some _) = confirm_pending_capture_terminal cached

  unfoldable pub with_cached_pod : PodSnapshotContent → Reply Pod → Action Outcome
  with_cached_pod cached (found pod) =
      unless_failure cached (pending_capture_source_failure snap cached pod)
  with_cached_pod cached (error not_found) = confirm_pending_capture_terminal cached
  with_cached_pod cached (error err) = done (retry (codes "get source pod for pending capture") err)

  unfoldable pub resolve_pending_bound_content : PodSnapshotContent → Action Outcome
  resolve_pending_bound_content cached = do
    r ← ask (get_pod (source_key snap))
    with_cached_pod cached r

  unfoldable pub mirror_content : Reply PodSnapshotContent → Action Outcome
  mirror_content (error err) = done (retry (codes "get bound PodSnapshotContent") err)
  mirror_content (found content) =
      if not (backlinks snap content)
      then fail_pod_snapshot m snap (codes "ContentConflict") (conflict snap content)
      else if is_terminal content
      then propagate_status m snap content
      else resolve_pending_bound_content content

  unfoldable pub mirror_bound_content : Str → Action Outcome
  mirror_bound_content bound_name = do r ← ask (get_content bound_name); mirror_content r
