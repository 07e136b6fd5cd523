-- ===== src/Maintenance/Cleanup.antt =====
-- A content's finalizer goes only after its artifacts.
use snapshot.Prelude.{
  ◌≡◌, refl, Str, Bool, true, false, not, ◌&&◌, Option, none, some, [], ◌∷◌, str_eq, str_eq_iff,
  arith,
}
use snapshot.Kube.Prog.{Trace, Holds, ends, calls, Holds-if}
use snapshot.Kube.Finalizer.{ControllerUtil}
use snapshot.Kube.Objects.{
  PodSnapshotContent, Reply, found, error, not_found, already_exists, other_error,
}
use snapshot.Maintenance.Client.{
  artifact_cleanup_finalizer, WorkItemKey, Deletion, deleted, unsafe_artifact, delete_failed, Op,
  Ans, get_content, patch_content, lock, delete_artifact, Action, ItemResult,
}
use snapshot.Maintenance.Process.{
  QueueConfig, require_store_match, store_matches, store_key, after_deletion, clean_up,
  awaits_cleanup, process_found, process_delete_content, backend_for_content,
}

abbrev pub AnyEnd : Trace Op Ans → ItemResult → Type 0
AnyEnd t r = Unit

-- The two halves of a conjunction.
both : (a b : Bool) → (a && b) ≡ true → (a ≡ true) × (b ≡ true)
both true b h = (refl, h)
both false b h = grind arith

module _ (u : ControllerUtil) (cfg : QueueConfig) (key : WorkItemKey) where
  -- The content is bound to this store, or to none.
  abbrev IsBoundHere : Option Str → Type 0
  IsBoundHere none = Unit
  IsBoundHere (some id) = id ≡ cfg.store_id

  -- The content is the one that the key means, it is being deleted, and its finalizer is on.
  abbrev Awaits : PodSnapshotContent → Type 0
  Awaits content =
      (content.uid ≡ key.uid)
      × (content.deleting ≡ true)
      × (u.contains_finalizer content.finalizers artifact_cleanup_finalizer ≡ true)

  awaits_cleanup-Awaits :
      (content : PodSnapshotContent) → awaits_cleanup u cfg key content ≡ true → Awaits content
  unfolding awaits_cleanup
  awaits_cleanup-Awaits content h =
      let (rest, guarded) = both (str_eq content.uid key.uid && content.deleting) _ h in
      let (same, deleting) = both (str_eq content.uid key.uid) _ rest in
      ((str_eq_iff content.uid key.uid).0 same, deleting, guarded)

  store_matches-IsBoundHere :
      (storage : Option Str) → store_matches u cfg storage ≡ true → IsBoundHere storage
  unfolding require_store_match
  store_matches-IsBoundHere none h = tt
  store_matches-IsBoundHere (some id) h =
      let (_, same) = both (not (str_eq id []) && not (str_eq cfg.store_id [])) _ h in
      (str_eq_iff id cfg.store_id).0 same

  backend_for_content-IsBoundHere :
      (content : PodSnapshotContent)
      → backend_for_content u cfg content ≡ true
      → IsBoundHere content.storage
  unfolding backend_for_content
  backend_for_content-IsBoundHere content h =
      store_matches-IsBoundHere content.storage (both (store_matches u cfg content.storage) _ h).0

  -- The content was read under the key's name, is the one of the key's UID, is being deleted with
  -- the finalizer on, is of this store, and is locked.
  pub data Claimed (content : PodSnapshotContent) : Trace Op Ans → Type 0 where
    claimed :
        {t : Trace Op Ans}
        → Awaits content
        → IsBoundHere content.storage
        → Claimed content
            ((lock (store_key content), tt) ∷ (get_content key.name, found content) ∷ t)

  -- The artifacts of a claimed content are gone.
  pub data Cleaned (content : PodSnapshotContent) : Trace Op Ans → Type 0 where
    cleaned :
        {t : Trace Op Ans}
        → Claimed content t
        → Cleaned content ((delete_artifact content.uid, deleted) ∷ t)

  -- Artifacts are deleted for the content that was claimed just before, and a patch comes right
  -- after their deletion and takes off the finalizer, and nothing else, of that content.
  abbrev pub CleansUpFirst : Trace Op Ans → Op → Type 0
  CleansUpFirst t (delete_artifact uid) =
      (content : PodSnapshotContent) × (uid ≡ content.uid) × Claimed content t
  CleansUpFirst t (patch_content patched) =
      (content : PodSnapshotContent) × Cleaned content t
      × (patched ≡ record content {
        finalizers = u.remove_finalizer content.finalizers artifact_cleanup_finalizer;
      })
  CleansUpFirst t _ = Unit

  abbrev Careful : Trace Op Ans → Action ItemResult → Type 0
  Careful t p = Holds CleansUpFirst AnyEnd t p

  after_deletion-Careful :
      (content : PodSnapshotContent) (d : Deletion) (t : Trace Op Ans)
      → Claimed content t
      → Careful ((delete_artifact content.uid, d) ∷ t) (after_deletion u cfg content d)
  unfolding after_deletion
  after_deletion-Careful content deleted t h =
      calls (content, cleaned h, refl) (λ e. calls tt (λ _. ends tt))
  after_deletion-Careful content (unsafe_artifact m) t h = calls tt (λ _. calls tt (λ _. ends tt))
  after_deletion-Careful content (delete_failed m) t h = calls tt (λ _. ends tt)

  clean_up-Careful :
      (content : PodSnapshotContent) (t : Trace Op Ans)
      → Awaits content
      → IsBoundHere content.storage
      → Careful ((get_content key.name, found content) ∷ t) (clean_up u cfg content)
  unfolding clean_up
  clean_up-Careful content t a b = calls tt (λ _.
      calls (content, refl, claimed a b) (λ d. after_deletion-Careful content d _ (claimed a b)))

  process_found-Careful :
      (r : Reply PodSnapshotContent) (t : Trace Op Ans)
      → Careful ((get_content key.name, r) ∷ t) (process_found u cfg key r)
  unfolding process_found
  process_found-Careful (error not_found) t = ends tt
  process_found-Careful (error already_exists) t = ends tt
  process_found-Careful (error (other_error x)) t = ends tt
  process_found-Careful (found content) t =
      Holds-if (awaits_cleanup u cfg key content)
        (λ a.
          Holds-if (backend_for_content u cfg content)
            (λ b.
              clean_up-Careful content t (awaits_cleanup-Awaits content a)
                (backend_for_content-IsBoundHere content b))
            (λ _. ends tt))
        (λ _. ends tt)

  -- Whatever the API server and the backend answer, a work item for one content deletes artifacts
  -- only of the content that it has just read under its key's name, if that has the key's UID, is
  -- being deleted with the finalizer on, is bound to this store or to none, and is locked; and it patches only that content, only
  -- to take the finalizer off, and only right after the artifacts were deleted without an error.
  pub process_delete_content-CleansUpFirst :
      Holds CleansUpFirst AnyEnd [] (process_delete_content u cfg key)
  unfolding process_delete_content
  process_delete_content-CleansUpFirst = calls tt (λ r. process_found-Careful r [])
