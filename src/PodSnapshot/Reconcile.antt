-- ===== src/PodSnapshot/Reconcile.antt =====
-- Reconcile, ensureFinalizer and handleDelete.
use snapshot.Prelude.{Str, Bool, true, false, Option, none, some, [], ◌∷◌, codes, if◌then◌else◌}
use snapshot.Kube.Prog.{done, ask, ◌>>=◌}
use snapshot.Kube.Condition.{Meta}
use snapshot.Kube.Finalizer.{ControllerUtil}
use snapshot.Kube.Objects.{
  PodSnapshot, PodSnapshotContent, Reply, found, error, ApiError, not_found, ObjectKey,
}
use snapshot.PodSnapshot.Client.{
  get_snapshot, update_snapshot, get_content, delete_content, Outcome, stop, retry, requeue_after,
  Action, end_or_retry,
}
use snapshot.PodSnapshot.Status.{is_pod_snapshot_terminal}
use snapshot.PodSnapshot.Content.{PodSnapshotReconciler, capture_from_source_pod}
use snapshot.PodSnapshot.Mirror.{mirror_bound_content}

abbrev pub pod_snapshot_finalizer : Str
pod_snapshot_finalizer = codes "nvidia.com/podsnapshotcontent-cleanup"

-- ptr.Deref(boundPodSnapshotContentName, ""), with the test that it is not empty.
abbrev pub bound_name : Option Str → Option Str
bound_name none = none
bound_name (some []) = none
bound_name (some (c ∷ s)) = some (c ∷ s)

abbrev pub is_real : Option ApiError → Bool
is_real none = false
is_real (some not_found) = false
is_real (some _) = true

abbrev pub real_error : Option ApiError → ApiError
real_error none = not_found
real_error (some err) = err

module _ (u : ControllerUtil) where
  unfoldable pub has_finalizer : PodSnapshot → Bool
  has_finalizer snap = u.contains_finalizer snap.finalizers pod_snapshot_finalizer

  unfoldable pub drop_finalizer : PodSnapshot → Action Outcome
  drop_finalizer snap = do
    e ← ask (
        update_snapshot
          (record snap { finalizers = u.remove_finalizer snap.finalizers pod_snapshot_finalizer }))
    done (end_or_retry (codes "remove snapshot finalizer") e)

  -- The content must be seen to be gone before the finalizer goes.
  unfoldable pub after_confirm : PodSnapshot → Reply PodSnapshotContent → Action Outcome
  after_confirm snap (found _) = done (requeue_after 1)
  after_confirm snap (error not_found) = drop_finalizer snap
  after_confirm snap (error err) = done (retry (codes "confirm PodSnapshotContent deleted") err)

  -- IgnoreNotFound of the deletion, and the check that the content is gone.
  unfoldable pub after_delete : PodSnapshot → Str → Option ApiError → Action Outcome
  after_delete snap content_name e =
      let confirm = (do r ← ask (get_content content_name); after_confirm snap r) in
      if is_real e then done (retry (codes "delete PodSnapshotContent") (real_error e)) else confirm

  unfoldable pub delete_bound : PodSnapshot → Option Str → Action Outcome
  delete_bound snap none = drop_finalizer snap
  delete_bound snap (some content_name) = do
    e ← ask (delete_content content_name)
    after_delete snap content_name e

  unfoldable pub handle_delete : PodSnapshot → Action Outcome
  handle_delete snap =
      if has_finalizer snap then delete_bound snap (bound_name snap.bound) else done stop

  unfoldable pub add_finalizer : PodSnapshot → Action Outcome
  add_finalizer snap = do
    e ← ask (
        update_snapshot
          (record snap { finalizers = u.add_finalizer snap.finalizers pod_snapshot_finalizer }))
    done (end_or_retry (codes "add snapshot finalizer") e)

module _ (m : Meta) (u : ControllerUtil) (sr : PodSnapshotReconciler) where
  unfoldable pub reconcile_active : PodSnapshot → Option Str → Action Outcome
  reconcile_active snap (some name) = mirror_bound_content m snap name
  reconcile_active snap none = capture_from_source_pod m sr snap

  unfoldable pub reconcile_found : PodSnapshot → Action Outcome
  reconcile_found snap =
      if snap.deleting
      then handle_delete u snap
      else if has_finalizer u snap
      then if is_pod_snapshot_terminal m snap
        then done stop
        else reconcile_active snap (bound_name snap.bound)
      else add_finalizer u snap

  unfoldable pub reconcile_reply : Reply PodSnapshot → Action Outcome
  reconcile_reply (found snap) = reconcile_found snap
  reconcile_reply (error not_found) = done stop
  reconcile_reply (error err) = done (retry [] err)

  unfoldable pub reconcile : ObjectKey → Action Outcome
  reconcile key = do r ← ask (get_snapshot key); reconcile_reply r
