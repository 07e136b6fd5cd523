-- ===== src/Maintenance/Process.antt =====
-- process.go, the dispatch of queue.go, and reconcileSnapshotContent.
use snapshot.Prelude.{
  ℕ, suc, Str, Bool, true, not, ◌&&◌, Option, none, some, List, [], ◌∷◌, ◌==◌, str_eq, codes,
  contains, if◌then◌else◌,
}
use snapshot.Kube.Prog.{done, ask, ◌>>=◌, ◌>>◌}
use snapshot.Kube.Condition.{Message, text}
use snapshot.Kube.Finalizer.{ControllerUtil}
use snapshot.Kube.Objects.{PodSnapshotContent, Reply, found, error, ApiError, not_found}
use snapshot.Kube.Result.{Result, ok, refused}
use snapshot.Maintenance.Client.{
  artifact_cleanup_finalizer, WorkItemKey, new_delete_content_key, LockKey, Deletion, deleted,
  unsafe_artifact, delete_failed, get_content, patch_content, lock, unlock, delete_artifact,
  candidates, list_contents, enqueue, record_event, Action, ItemResult, succeeded, api_failed,
  failed, both_failed,
}
use snapshot.Maintenance.Scan.{ContentScanResult, collect_content_scan_result}

-- The settings, and whether the registry has the configured backend.
pub record QueueConfig : Type 0 where
  pub store_id : Str
  pub batch_size : ℕ
  pub list_attempts : ℕ
  pub is_registered : Bool

abbrev no_backend : Message
no_backend = text (codes "no maintenance backend implementation registered for configured store")

-- coordination.RequireStoreMatch, as the condition that it accepts.
unfoldable pub require_store_match : Str → Str → Bool
require_store_match bound named =
    not (str_eq bound []) && not (str_eq named []) && str_eq bound named

abbrev bound_store : Option Str → Str
bound_store none = []
bound_store (some id) = id

unfoldable pub store_key : PodSnapshotContent → LockKey
store_key content = record { store_id = bound_store content.storage; artifact_uid = content.uid }

-- The key that a sweep locks.
unfoldable pub sweep_key : Str → LockKey
sweep_key uid = record { store_id = []; artifact_uid = uid }

-- The optional error of a write.
abbrev pub written : Str → Option ApiError → ItemResult
written step none = succeeded
written step (some err) = api_failed step err

module _ (u : ControllerUtil) (cfg : QueueConfig) where
  abbrev pub store_matches : Option Str → Bool
  store_matches none = true
  store_matches (some id) = require_store_match id cfg.store_id

  -- backendForContent, as the condition that there is one.
  unfoldable pub backend_for_content : PodSnapshotContent → Bool
  backend_for_content content = store_matches content.storage && cfg.is_registered

  unfoldable pub after_deletion : PodSnapshotContent → Deletion → Action ItemResult
  after_deletion content deleted = do
    e ← ask (
        patch_content (record content {
          finalizers = u.remove_finalizer content.finalizers artifact_cleanup_finalizer;
        }))
    ask (unlock (store_key content))
    done (written (codes "remove finalizer") e)
  after_deletion content (unsafe_artifact cause) = do
    ask (record_event content)
    ask (unlock (store_key content))
    done (failed cause)
  after_deletion content (delete_failed cause) = do
    ask (unlock (store_key content))
    done (failed cause)

  unfoldable pub clean_up : PodSnapshotContent → Action ItemResult
  clean_up content = do
    ask (lock (store_key content))
    d ← ask (delete_artifact content.uid)
    after_deletion content d

  -- The content is the one that the key names, it is being deleted, and it waits for the cleanup.
  unfoldable pub awaits_cleanup : WorkItemKey → PodSnapshotContent → Bool
  awaits_cleanup key content =
      str_eq content.uid key.uid
      && content.deleting
      && u.contains_finalizer content.finalizers artifact_cleanup_finalizer

  unfoldable pub process_found : WorkItemKey → Reply PodSnapshotContent → Action ItemResult
  process_found key (error not_found) = done succeeded
  process_found key (error err) = done (api_failed (codes "get PodSnapshotContent") err)
  process_found key (found content) =
      if awaits_cleanup key content
      then if backend_for_content content
        then clean_up content
        else done (failed (text (codes "maintenance for content: no backend of its store")))
      else done succeeded

  unfoldable pub process_delete_content : WorkItemKey → Action ItemResult
  process_delete_content key = do r ← ask (get_content key.name); process_found key r

  -- errors.Join of the errors of a sweep
  abbrev pub joined : ItemResult → Deletion → ItemResult
  joined errs deleted = errs
  joined errs (unsafe_artifact cause) = both_failed errs (failed cause)
  joined errs (delete_failed cause) = both_failed errs (failed cause)

  -- The loop over the candidates, with the number processed and the errors so far. A Go map is
  -- walked in any order: the list has the candidates in the order of the walk.
  unfoldable pub sweep_loop : List Str → ℕ → ItemResult → List Str → Action ItemResult
  sweep_loop existing processed errs [] = done errs
  sweep_loop existing processed errs (uid ∷ rest) =
      let next = sweep_loop existing processed errs rest in
      let reclaim = (do
        ask (lock (sweep_key uid))
        d ← ask (delete_artifact uid)
        ask (unlock (sweep_key uid))
        sweep_loop existing (suc processed) (joined errs d) rest) in
      if contains uid existing
      then next
      else if processed == cfg.batch_size
      then done errs
      else reclaim

  unfoldable pub enqueue_all : List WorkItemKey → Action ItemResult → Action ItemResult
  enqueue_all [] next = next
  enqueue_all (key ∷ keys) next = do
    ask (enqueue (new_delete_content_key key.name key.uid))
    enqueue_all keys next

  abbrev sweep_candidates : List Str → Reply (List Str) → Action ItemResult
  sweep_candidates existing (found uids) = sweep_loop existing 0 succeeded uids
  sweep_candidates existing (error err) = done (api_failed (codes "enumerate candidates") err)

  abbrev scan_failed : Reply (List Str) → Message → ItemResult
  scan_failed (found _) cause = failed cause
  scan_failed (error err) cause =
      both_failed (api_failed (codes "enumerate candidates") err) (failed cause)

  unfoldable pub after_scan : Reply (List Str) → Result ContentScanResult → Action ItemResult
  after_scan enumerated (refused cause) = done (scan_failed enumerated cause)
  after_scan enumerated (ok scan) =
      enqueue_all scan.pending_deletes (sweep_candidates scan.existing_uids enumerated)

  unfoldable pub enumerate_and_scan : Action ItemResult
  enumerate_and_scan = do
    enumerated ← ask candidates
    answers ← ask list_contents
    after_scan enumerated (collect_content_scan_result u cfg.list_attempts answers)

  unfoldable pub process_sweep : Action ItemResult
  process_sweep = if cfg.is_registered then enumerate_and_scan else done (failed no_backend)

  -- The patch that puts the cleanup finalizer on a content that lives without it, and the work
  -- item of one that is being deleted with it.
  unfoldable pub reconcile_content : PodSnapshotContent → Action ItemResult
  reconcile_content content =
      let has = u.contains_finalizer content.finalizers artifact_cleanup_finalizer in
      let guard = (do
        e ← ask (
            patch_content (record content {
              finalizers = u.add_finalizer content.finalizers artifact_cleanup_finalizer;
            }))
        done (written (codes "add finalizer") e)) in
      let schedule = (do
        ask (enqueue (new_delete_content_key content.name content.uid))
        done succeeded) in
      if content.deleting
      then if has then schedule else done succeeded
      else if has
      then done succeeded
      else guard

  abbrev reconcile_reply : Reply PodSnapshotContent → Action ItemResult
  reconcile_reply (found content) = reconcile_content content
  reconcile_reply (error not_found) = done succeeded
  reconcile_reply (error err) = done (api_failed [] err)

  unfoldable pub reconcile_snapshot_content : Str → Action ItemResult
  reconcile_snapshot_content name = do r ← ask (get_content name); reconcile_reply r
