-- ===== src/PodSnapshot/Content.antt =====
-- Creating, adopting and binding the PodSnapshotContent work order.
use snapshot.Prelude.{
  Str, Bool, false, not, ◌&&◌, Option, none, some, List, [], ◌∷◌, ◌++◌, str_eq, codes,
  if◌then◌else◌,
}
use snapshot.Kube.Prog.{done, ask, ◌>>=◌, ◌>>◌}
use snapshot.Kube.Condition.{Message, text, fmt, wrap, Meta}
use snapshot.Kube.Objects.{
  Pod, PodSnapshot, PodSnapshotContent, ContainerSettings, Reply, found, error, ApiError, not_found,
  already_exists,
}
use snapshot.PodSnapshot.Client.{
  get_content, create_content, update_status, record_event, get_pod, Outcome, retry, requeue_after,
  Action, end_or_retry,
}
use snapshot.PodSnapshot.Source.{
  validate_source_pod, Rejection, unscheduled, stale_pod_ref, container_ready, annotation,
}
use snapshot.PodSnapshot.Status.{fail_pod_snapshot, record_pending_reason}

-- The reconciler's settings; a store ID that is empty binds no store.
pub record PodSnapshotReconciler : Type 0 where
  pub test_failure_annotation : Str
  pub store_id : Str

abbrev pub artifact_cleanup_finalizer : Str
artifact_cleanup_finalizer = codes "nvidia.com/podsnapshotcontent-artifact-cleanup"

-- verifyContentBacklink, as the condition that it accepts.
unfoldable pub backlinks : PodSnapshot → PodSnapshotContent → Bool
backlinks snap content =
    let ref = content.snapshot_ref in
    str_eq ref.namespace snap.namespace
    && str_eq ref.name snap.name
    && not (str_eq ref.uid [])
    && str_eq ref.uid snap.uid

unfoldable pub conflict : PodSnapshot → PodSnapshotContent → Message
conflict snap content =
    let ref = content.snapshot_ref in
    fmt (codes "PodSnapshotContent %q is bound to %s/%s (uid %q), not %s/%s (uid %q)") (
      content.name ∷ ref.namespace ∷ ref.name ∷ ref.uid ∷ snap.namespace ∷ snap.name ∷ snap.uid
      ∷ [])

-- errContentConflict: %w: %v
abbrev pub content_conflict : Message → Message
content_conflict cause =
    wrap (text (codes "existing PodSnapshotContent belongs to another PodSnapshot")) cause

unfoldable pub pod_snapshot_content_name : PodSnapshot → Str
pod_snapshot_content_name snap = codes "podsnapshotcontent-" ++ snap.uid

abbrev storage_binding : Str → Option Str
storage_binding store_id = if str_eq store_id [] then none else some store_id

-- copyContainerSettings
unfoldable pub copy_container_settings : List ContainerSettings → List ContainerSettings
copy_container_settings [] = []
copy_container_settings (s ∷ settings) = s ∷ copy_container_settings settings

unfoldable pub build_pod_snapshot_content :
    PodSnapshotReconciler → PodSnapshot → Str → Pod → PodSnapshotContent
build_pod_snapshot_content sr snap content_name pod = record {
  name = content_name;
  uid = [];
  deleting = false;
  finalizers = artifact_cleanup_finalizer ∷ [];
  node_label = pod.node_name;
  snapshot_ref = record { namespace = snap.namespace; name = snap.name; uid = snap.uid };
  source = record { name = pod.name; uid = pod.uid; containers = snap.source.containers };
  source_node = pod.node_name;
  storage = storage_binding sr.store_id;
  containers = copy_container_settings snap.containers;
  conditions = [];
}

-- What ensurePodSnapshotContent returns: the content, a conflict, or an error to try again on.
pub data Ensured : Type 0 where
  ensured : PodSnapshotContent → Ensured
  conflicting : Message → Ensured
  not_ensured : Str → ApiError → Ensured

unfoldable pub adopt : PodSnapshot → Reply PodSnapshotContent → Ensured
adopt snap (error err) = not_ensured (codes "get existing PodSnapshotContent") err
adopt snap (found existing) =
    if backlinks snap existing
    then ensured existing
    else conflicting (content_conflict (conflict snap existing))

unfoldable pub after_create : PodSnapshot → PodSnapshotContent → Option ApiError → Action Ensured
after_create snap content none = done (ensured content)
after_create snap content (some already_exists) = do
  r ← ask (get_content content.name)
  done (adopt snap r)
after_create snap content (some err) = do
  ask (record_event snap (codes "SnapshotContentCreateFailed"))
  done (not_ensured (codes "create PodSnapshotContent") err)

unfoldable pub ensure_pod_snapshot_content :
    PodSnapshotReconciler → PodSnapshot → Str → Pod → Action Ensured
ensure_pod_snapshot_content sr snap content_name pod = do
  let content = build_pod_snapshot_content sr snap content_name pod
  e ← ask (create_content content)
  after_create snap content e

unfoldable pub bind_content : PodSnapshot → Str → Action Outcome
bind_content snap content_name = do
  e ← ask (update_status (record snap { bound = some content_name }))
  done (end_or_retry (codes "record bound PodSnapshotContent") e)

-- snap.Spec.Source.PodRef.Containers[0]; admission refuses a PodSnapshot with no container.
abbrev first_container : List Str → Str
first_container [] = []
first_container (c ∷ _) = c

unfoldable pub after_ensure : Meta → PodSnapshot → Ensured → Action Outcome
after_ensure m snap (ensured content) = bind_content snap content.name
after_ensure m snap (conflicting cause) = fail_pod_snapshot m snap (codes "ContentConflict") cause
after_ensure m snap (not_ensured step err) = done (retry step err)

module _ (m : Meta) (sr : PodSnapshotReconciler) (snap : PodSnapshot) where
  -- The test-only failure hook, and the creation of the work order behind it.
  unfoldable pub capture_validated : Pod → Action Outcome
  capture_validated pod =
      if not (str_eq sr.test_failure_annotation [])
        && str_eq (annotation pod.annotations sr.test_failure_annotation) (codes "true")
      then if container_ready pod.container_statuses (first_container snap.source.containers)
        then fail_pod_snapshot m snap (codes "TestCaptureFailure") (
            fmt (codes "test-only checkpoint failure requested by source pod annotation %q")
              (sr.test_failure_annotation ∷ []))
        else done (requeue_after 1)
      else (do
        r ← ensure_pod_snapshot_content sr snap (pod_snapshot_content_name snap) pod
        after_ensure m snap r)

  unfoldable pub after_validate : Pod → Option Rejection → Action Outcome
  after_validate pod none = capture_validated pod
  after_validate pod (some unscheduled) =
      record_pending_reason m snap (codes "SourcePodUnscheduled")
        (fmt (codes "waiting for source pod %q to be scheduled to a node") (pod.name ∷ []))
  after_validate pod (some (stale_pod_ref cause)) =
      fail_pod_snapshot m snap (codes "StalePodReference") cause

  unfoldable pub capture_from_pod : Reply Pod → Action Outcome
  capture_from_pod (error not_found) =
      fail_pod_snapshot m snap (codes "SourcePodNotFound")
        (fmt (codes "source pod %q no longer exists") (snap.source.name ∷ []))
  capture_from_pod (error err) = done (retry [] err)
  capture_from_pod (found pod) = after_validate pod (validate_source_pod snap pod)

  unfoldable pub capture_from_source_pod : Action Outcome
  capture_from_source_pod = do
    r ← ask (get_pod (record { namespace = snap.namespace; name = snap.source.name }))
    capture_from_pod r
