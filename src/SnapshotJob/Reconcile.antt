-- ===== src/SnapshotJob/Reconcile.antt =====
-- Reconcile of the SnapshotJob, and the source Job that it creates, accepts and deletes.
use snapshot.Prelude.{
  ℕ, Str, Bool, false, not, ◌&&◌, ◌||◌, Option, none, some, [], ◌∷◌, str_eq, codes, if◌then◌else◌,
}
use snapshot.Kube.Condition.{Message, fmt, Meta, completed, failed, is_status_condition_true}
use snapshot.Kube.Prog.{ask, done, ◌>>=◌, ◌>>◌}
use snapshot.Kube.Objects.{
  ObjectKey, ApiError, not_found, already_exists, other_error, Reply, found, error,
}
use snapshot.PodContract.Types.{Result, ok, refused}
use snapshot.SnapshotJob.Types.{
  Job, SnapshotJob, SnapshotJobStatus, SnapshotJobFailure, SnapshotJobObservation,
}
use snapshot.SnapshotJob.Reason
use snapshot.SnapshotJob.Client.{
  get_snapshot_job, get_job, read_job, create_job, delete_job, patch_status, record_event, now, go,
  retry, broken, Action, Outcome, stop, requeue_after, retried, errored,
}
use snapshot.SnapshotJob.Build.{JobValidation, desired_source_job}
use snapshot.SnapshotJob.Identity.{is_controlled_by, classify_existing_source_job}
use snapshot.SnapshotJob.Resources.{Observed, key_of, observing, reconcile_pod_snapshot_resources}
use snapshot.SnapshotJob.Status.{is_on, derive_snapshot_job_status}

abbrev nothing : SnapshotJobObservation
nothing = record {
  job = none;
  pod_snapshot = none;
  source_pod_missing = false;
  source_job_finished = false;
  failure = none;
}

abbrev pub terminal_observation : SnapshotJobFailure → Observed
terminal_observation f = go (record nothing { failure = some f }, none)

abbrev invalid_spec : Message → Observed
invalid_spec cause = terminal_observation (record { reason = Reason.invalid_spec; cause = cause })

unfoldable pub source_job_deleted_failure : SnapshotJob → SnapshotJobFailure
source_job_deleted_failure sj = record {
  reason = Reason.job_deleted;
  cause =
      fmt (codes "source Job %q (uid %q) no longer exists")
        (sj.name ∷ sj.status.source_job_uid ∷ []);
}

-- IgnoreNotFound
abbrev pub ignore_not_found : Str → ApiError → Outcome
ignore_not_found step not_found = stop
ignore_not_found step already_exists = retried step already_exists
ignore_not_found step (other_error e) = retried step (other_error e)

module _ (m : Meta) (v : JobValidation) where
  unfoldable pub reconcile_accepted_source_job : SnapshotJob → Job → Action Observed
  reconcile_accepted_source_job sj job =
      if str_eq sj.status.source_job_uid [] && not (str_eq job.uid [])
      then done (go (observing job, none))
      else reconcile_pod_snapshot_resources m v sj job

  abbrev pub accept_unless : SnapshotJob → Job → Option SnapshotJobFailure → Action Observed
  accept_unless sj job (some f) = done (terminal_observation f)
  accept_unless sj job none = reconcile_accepted_source_job sj job

  unfoldable pub reconcile_existing_source_job : SnapshotJob → Job → Action Observed
  reconcile_existing_source_job sj job =
      accept_unless sj job (classify_existing_source_job v sj job)

  abbrev pub observe_existing : SnapshotJob → Reply Job → Action Observed
  observe_existing sj (found job) = reconcile_existing_source_job sj job
  observe_existing sj (error e) =
      done (retry (codes "get existing source Job after AlreadyExists") e)

  abbrev pub after_job_creation : SnapshotJob → Reply Job → Action Observed
  after_job_creation sj (found job) = done (go (observing job, none))
  after_job_creation sj (error already_exists) = do
    reply ← ask (get_job (key_of sj))
    observe_existing sj reply
  after_job_creation sj (error e) = do
    ask (record_event sj (codes "SourceJobCreateFailed"))
    done (retry (codes "create source Job") e)

  -- With the SnapshotJob as its controller.
  unfoldable pub create_source_job : SnapshotJob → Job → Action Observed
  create_source_job sj desired = do
    reply ← ask (create_job (record desired { controller = some sj.uid }))
    after_job_creation sj reply

  abbrev pub create_desired : SnapshotJob → Result Job → Action Observed
  create_desired sj (refused cause) = done (invalid_spec cause)
  create_desired sj (ok job) = create_source_job sj job

  -- readAuthoritativeSourceJob and what follows it
  abbrev pub with_authoritative : SnapshotJob → Reply Job → Action Observed
  with_authoritative sj (found job) = reconcile_existing_source_job sj job
  with_authoritative sj (error not_found) =
      done (terminal_observation (source_job_deleted_failure sj))
  with_authoritative sj (error e) =
      done (retry (codes "confirm source Job after cached NotFound") e)

  abbrev pub has_source : SnapshotJob → Bool
  has_source sj = not (str_eq sj.status.source_job_uid [] && str_eq sj.status.pod_snapshot_name [])

  abbrev pub by_cached_job : SnapshotJob → Reply Job → Action Observed
  by_cached_job sj (found job) = reconcile_existing_source_job sj job
  by_cached_job sj (error not_found) =
      if has_source sj
      then (do reply ← ask (read_job (key_of sj)); with_authoritative sj reply)
      else create_desired sj (desired_source_job v sj)
  by_cached_job sj (error e) = done (retry (codes "get source Job") e)

  unfoldable pub reconcile_resources : SnapshotJob → Action Observed
  reconcile_resources sj = do reply ← ask (get_job (key_of sj)); by_cached_job sj reply

  abbrev pub is_ours : SnapshotJob → Job → Bool
  is_ours sj job = str_eq sj.status.source_job_uid [] || str_eq job.uid sj.status.source_job_uid

  abbrev pub after_job_deletion : Option ApiError → Outcome
  after_job_deletion none = stop
  after_job_deletion (some e) = ignore_not_found (codes "delete source Job") e

  abbrev pub delete_found : SnapshotJob → Reply Job → Action Outcome
  delete_found sj (error e) = done (ignore_not_found (codes "get source Job") e)
  delete_found sj (found job) =
      if not (is_controlled_by job.controller sj.uid)
      then done stop
      else if not (is_ours sj job)
      then (do ask (record_event sj Reason.job_name_conflict); done stop)
      else (do e ← ask (delete_job job job.uid); done (after_job_deletion e))

  unfoldable pub ensure_job_deleted : SnapshotJob → Action Outcome
  ensure_job_deleted sj = do reply ← ask (get_job (key_of sj)); delete_found sj reply

  abbrev pub is_snapshot_job_failed : SnapshotJob → Bool
  is_snapshot_job_failed sj = is_status_condition_true m sj.status.conditions failed

  abbrev pub is_snapshot_job_completed : SnapshotJob → Bool
  is_snapshot_job_completed sj = is_status_condition_true m sj.status.conditions completed

  -- apiequality.Semantic.DeepEqual of two statuses
  module _ (deep_equal : SnapshotJobStatus → SnapshotJobStatus → Bool) where
    unfoldable pub patch_snapshot_job_status :
        SnapshotJob → SnapshotJobStatus → Action (Option ApiError)
    patch_snapshot_job_status sj desired =
        if deep_equal sj.status desired then done none else ask (patch_status sj desired)

    abbrev pub outcome_of : Option ℕ → Outcome
    outcome_of none = stop
    outcome_of (some n) = requeue_after n

    abbrev pub after_patch :
        SnapshotJob → SnapshotJobStatus → Option ℕ → Option ApiError → Action Outcome
    after_patch sj desired wait (some e) = done (retried (codes "patch SnapshotJob status") e)
    after_patch sj desired wait none =
        if is_on m desired completed
        then ensure_job_deleted (record sj { status = desired })
        else done (outcome_of wait)

    abbrev pub report : SnapshotJob → Option SnapshotJobFailure → Action Unit
    report sj none = done tt
    report sj (some f) = ask (record_event sj f.reason)

    abbrev pub write_observed : SnapshotJob → Observed → Action Outcome
    write_observed sj (retry step e) = done (retried step e)
    write_observed sj (broken cause) = done (errored cause)
    write_observed sj (go (o, wait)) = do
      report sj o.failure
      t ← ask now
      let desired = derive_snapshot_job_status m sj.status o t
      e ← patch_snapshot_job_status sj desired
      after_patch sj desired wait e

    unfoldable pub reconcile_found : SnapshotJob → Action Outcome
    reconcile_found sj =
        if sj.deleting || is_snapshot_job_failed sj
        then done stop
        else if is_snapshot_job_completed sj
        then ensure_job_deleted sj
        else (do observed ← reconcile_resources sj; write_observed sj observed)

    abbrev by_reply : Reply SnapshotJob → Action Outcome
    by_reply (found sj) = reconcile_found sj
    by_reply (error e) = done (ignore_not_found (codes "get SnapshotJob") e)

    unfoldable pub reconcile : ObjectKey → Action Outcome
    reconcile key = do reply ← ask (get_snapshot_job key); by_reply reply
