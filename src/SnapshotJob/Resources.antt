-- ===== src/SnapshotJob/Resources.antt =====
-- reconcilePodSnapshotResources and what it calls: the capture of the source Job's pod.
use snapshot.Prelude.{
  ℕ, Str, Bool, true, false, not, ◌&&◌, Option, none, some, List, [], ◌∷◌, str_eq, codes,
  if◌then◌else◌,
}
use snapshot.Kube.Condition.{Message, text, fmt, wrap, Meta}
use snapshot.Kube.Prog.{ask, done, ◌>>=◌, ◌>>◌}
use snapshot.Kube.Objects.{
  ObjectKey, ApiError, not_found, already_exists, Reply, found, error, Pod, PodSnapshot,
}
use snapshot.PodContract.Types.{Result, ok, refused, Check}
use snapshot.SnapshotJob.Types.{Job, SnapshotJob, SnapshotJobFailure, SnapshotJobObservation}
use snapshot.SnapshotJob.Reason
use snapshot.SnapshotJob.Client.{
  get_pod_snapshot, read_pod_snapshot, create_pod_snapshot, list_pods, list_read_pods, record_event,
  Flow, go, retry, broken, Action,
}
use snapshot.SnapshotJob.Terminal.{
  SourceJobState, source_job_active, source_job_complete, source_job_failed,
  source_job_deadline_exceeded, classify_source_job_terminal, is_pod_snapshot_succeeded,
  snapshot_job_terminal_failure, expected_helpers, expected_sidecars, HelperVerdict, helpers_done,
  helpers_running, helpers_failed, classify_helper_pod,
}
use snapshot.SnapshotJob.Build.{JobValidation, snapshot_job_target_container, build_pod_snapshot}
use snapshot.SnapshotJob.Identity.{
  controlled_pod_for_job, validate_pod_snapshot_ownership, pod_snapshot_has_expected_identity,
}

abbrev pub Observed : Type 0
Observed = Flow (SnapshotJobObservation × Option ℕ)

abbrev pub observing : Job → SnapshotJobObservation
observing job = record {
  job = some job;
  pod_snapshot = none;
  source_pod_missing = false;
  source_job_finished = false;
  failure = none;
}

abbrev pub failing : SnapshotJobObservation → Str → Message → Observed
failing o reason cause =
    go (record o { failure = some (record { reason = reason; cause = cause }) }, none)

-- captureResolutionBackstop and sourcePodRequeueBackstop, in seconds
abbrev pub backstop : Option ℕ
backstop = some 30

abbrev pub key_of : SnapshotJob → ObjectKey
key_of sj = record { namespace = sj.namespace; name = sj.name }

-- What is found at the name of the PodSnapshot.
pub data Lookup : Type 0 where
  owned : PodSnapshot → Lookup
  missing : Lookup
  conflicting : Message → Lookup
  unreadable : ApiError → Lookup

abbrev pub by_ownership : PodSnapshot → Check → Lookup
by_ownership snap (ok _) = owned snap
by_ownership snap (refused cause) = conflicting cause

-- readOwnedPodSnapshot, from the reply
unfoldable pub read_owned_pod_snapshot : SnapshotJob → Reply PodSnapshot → Lookup
read_owned_pod_snapshot sj (found snap) =
    by_ownership snap (validate_pod_snapshot_ownership sj snap)
read_owned_pod_snapshot sj (error not_found) = missing
read_owned_pod_snapshot sj (error e) = unreadable e

abbrev pub authoritatively : SnapshotJob → Lookup → Lookup
authoritatively sj (conflicting cause) =
    conflicting
      (wrap (fmt (codes "authoritatively read recorded PodSnapshot %q: ") (sj.name ∷ [])) cause)
authoritatively sj (owned snap) = owned snap
authoritatively sj missing = missing
authoritatively sj (unreadable e) = unreadable e

unfoldable pub find_owned_pod_snapshot : SnapshotJob → Action Lookup
find_owned_pod_snapshot sj = do
  reply ← ask (get_pod_snapshot (key_of sj))
  done (read_owned_pod_snapshot sj reply)

unfoldable pub read_authoritative_owned_pod_snapshot : SnapshotJob → Action Lookup
read_authoritative_owned_pod_snapshot sj = do
  reply ← ask (read_pod_snapshot (key_of sj))
  done (authoritatively sj (read_owned_pod_snapshot sj reply))

abbrev pub pod_of : Job → Result (Option Pod) → Flow (Option Pod)
pod_of job (ok pod) = go pod
pod_of job (refused cause) = broken cause

-- findSourcePod, from the reply of the listing
unfoldable pub source_pod : Job → Reply (List Pod) → Flow (Option Pod)
source_pod job (error e) = retry (codes "list source pods") e
source_pod job (found pods) = pod_of job (controlled_pod_for_job pods job)

unfoldable pub find_source_pod : Job → Action (Flow (Option Pod))
find_source_pod job = do reply ← ask (list_pods job); done (source_pod job reply)

unfoldable pub read_source_pod : Job → Action (Flow (Option Pod))
read_source_pod job = do reply ← ask (list_read_pods job); done (source_pod job reply)

-- `if err != nil { return err }`
abbrev pub on_go : {A B : Type 0} → (A → Action (Flow B)) → Flow A → Action (Flow B)
on_go f (go a) = f a
on_go f (retry step e) = done (retry step e)
on_go f (broken cause) = done (broken cause)

module _ (m : Meta) (v : JobValidation) where
  abbrev pub conflict : Job → Message → Observed
  conflict job cause = failing (observing job) Reason.pod_snapshot_name_conflict cause

  abbrev pub with_capture : Job → PodSnapshot → Observed
  with_capture job snap = go (record (observing job) { pod_snapshot = some snap }, none)

  abbrev pub adopt_existing : SnapshotJob → Job → PodSnapshot → Lookup → Observed
  adopt_existing sj job desired missing = retry (codes "PodSnapshot already exists") already_exists
  adopt_existing sj job desired (unreadable e) = retry (codes "get existing PodSnapshot") e
  adopt_existing sj job desired (conflicting cause) = conflict job cause
  adopt_existing sj job desired (owned snap) =
      if pod_snapshot_has_expected_identity snap desired
      then with_capture job snap
      else conflict job (
          fmt (codes "PodSnapshot %q does not match the expected source identity")
            (desired.name ∷ []))

  unfoldable pub classify_existing_pod_snapshot : SnapshotJob → Job → PodSnapshot → Action Observed
  classify_existing_pod_snapshot sj job desired = do
    existing ← find_owned_pod_snapshot sj
    done (adopt_existing sj job desired existing)

  abbrev pub after_creation : SnapshotJob → Job → PodSnapshot → Reply PodSnapshot → Action Observed
  after_creation sj job desired (found snap) = done (with_capture job snap)
  after_creation sj job desired (error already_exists) =
      classify_existing_pod_snapshot sj job desired
  after_creation sj job desired (error e) = do
    ask (record_event sj (codes "PodSnapshotCreateFailed"))
    done (retry (codes "create PodSnapshot") e)

  abbrev pub create_built : SnapshotJob → Job → Result PodSnapshot → Action Observed
  create_built sj job (refused cause) = done (broken cause)
  create_built sj job (ok desired) = do
    reply ← ask (create_pod_snapshot desired)
    after_creation sj job desired reply

  abbrev pub create_for_pod : SnapshotJob → Job → Option Pod → Action Observed
  create_for_pod sj job none =
      done (go (record (observing job) { source_pod_missing = true }, backstop))
  create_for_pod sj job (some pod) = create_built sj job (build_pod_snapshot v sj pod)

  unfoldable pub create_pod_snapshot_for_source_job : SnapshotJob → Job → Action Observed
  create_pod_snapshot_for_source_job sj job = do
    pod ← find_source_pod job
    on_go (create_for_pod sj job) pod

  abbrev pub trusted : List Str → List Str → Option Pod → Bool
  trusted helpers sidecars none = false
  trusted helpers sidecars (some pod) = elim (classify_helper_pod pod helpers sidecars) [
    | helpers_running ↦ true
    | _ ↦ false
  ]

  abbrev pub helper_verdict : List Str → List Str → Option Pod → HelperVerdict
  helper_verdict helpers sidecars (some pod) = classify_helper_pod pod helpers sidecars
  helper_verdict helpers sidecars none = helpers_failed (record {
    reason = Reason.job_failed;
    cause = text (codes "source pod is gone before its helper containers could be verified");
  })

  -- findSourcePodConfirmed with the verdict on its pod
  abbrev pub confirm_helpers : Job → List Str → List Str → Option Pod → Action (Flow HelperVerdict)
  confirm_helpers job helpers sidecars cached =
      if trusted helpers sidecars cached
      then done (go (helper_verdict helpers sidecars cached))
      else (do
        pod ← read_source_pod job
        on_go (λ p. done (go (helper_verdict helpers sidecars p))) pod)

  abbrev pub check_helpers : Job → List Str → List Str → Action (Flow HelperVerdict)
  check_helpers job [] [] = done (go helpers_done)
  check_helpers job helpers sidecars = do
    cached ← find_source_pod job
    on_go (confirm_helpers job helpers sidecars) cached

  abbrev pub helpers_of : SnapshotJob → Job → Result Str → Action (Flow HelperVerdict)
  helpers_of sj job (refused cause) =
      done (go (helpers_failed (record { reason = Reason.invalid_spec; cause = cause })))
  helpers_of sj job (ok target) =
      check_helpers job (expected_helpers sj.spec.pod_template.spec.containers target)
        (expected_sidecars sj.spec.pod_template.spec.init_containers)

  unfoldable pub classify_helper_containers : SnapshotJob → Job → Action (Flow HelperVerdict)
  classify_helper_containers sj job = helpers_of sj job (snapshot_job_target_container sj)

  abbrev pub finished_by : SnapshotJobObservation → HelperVerdict → Observed
  finished_by o helpers_running = go (o, backstop)
  finished_by o (helpers_failed f) = go (record o { failure = some f }, none)
  finished_by o helpers_done = go (record o { source_job_finished = true }, none)

  abbrev pub captured_by_state :
      SnapshotJob → Job → SnapshotJobObservation → SourceJobState → Action Observed
  captured_by_state sj job o source_job_complete =
      done (go (record o { source_job_finished = true }, none))
  captured_by_state sj job o (source_job_deadline_exceeded f) =
      done (go (record o { failure = some f }, none))
  captured_by_state sj job o (source_job_failed f) = do
    verdict ← classify_helper_containers sj job
    on_go (λ x. done (finished_by o x)) verdict
  captured_by_state sj job o source_job_active = done (go (o, backstop))

  unfoldable pub reconcile_captured_source_job :
      SnapshotJob → Job → SnapshotJobObservation → Action Observed
  reconcile_captured_source_job sj job o =
      captured_by_state sj job o (classify_source_job_terminal job)

  abbrev pub waiting : SourceJobState → Option ℕ
  waiting source_job_active = none
  waiting _ = backstop

  abbrev pub by_failure :
      SnapshotJob → Job → PodSnapshot → Option SnapshotJobFailure → Action Observed
  by_failure sj job snap (some f) =
      done (go (record (observing job) { pod_snapshot = some snap; failure = some f }, none))
  by_failure sj job snap none =
      let o : SnapshotJobObservation = record (observing job) { pod_snapshot = some snap } in
      if is_pod_snapshot_succeeded m snap
      then reconcile_captured_source_job sj job o
      else done (go (o, waiting (classify_source_job_terminal job)))

  unfoldable pub observe_pod_snapshot : SnapshotJob → Job → PodSnapshot → Action Observed
  observe_pod_snapshot sj job snap =
      by_failure sj job snap (snapshot_job_terminal_failure m job (some snap))

  abbrev pub adoptable : PodSnapshot → Result PodSnapshot → Option SnapshotJobFailure
  adoptable snap (refused cause) = some (record { reason = Reason.invalid_spec; cause = cause })
  adoptable snap (ok desired) =
      if pod_snapshot_has_expected_identity snap desired
      then none
      else some (record {
        reason = Reason.pod_snapshot_name_conflict;
        cause =
            fmt
              (codes
                "existing PodSnapshot %q does not carry the immutable source identity expected for this SnapshotJob")
              (snap.name ∷ []);
      })

  -- validatePodSnapshotForAdoption, from the source pod
  unfoldable pub validate_pod_snapshot_for_adoption :
      SnapshotJob → PodSnapshot → Option Pod → Option SnapshotJobFailure
  validate_pod_snapshot_for_adoption sj snap none = some (record {
    reason = Reason.pod_snapshot_name_conflict;
    cause =
        fmt
          (codes "cannot safely adopt PodSnapshot %q because its source Pod is no longer available")
          (snap.name ∷ []);
  })
  validate_pod_snapshot_for_adoption sj snap (some pod) =
      adoptable snap (build_pod_snapshot v sj pod)

  abbrev pub observe_unless :
      SnapshotJob → Job → PodSnapshot → Option SnapshotJobFailure → Action Observed
  observe_unless sj job snap none = observe_pod_snapshot sj job snap
  observe_unless sj job snap (some f) =
      done (go (record (observing job) { failure = some f }, none))

  unfoldable pub with_pod_snapshot : SnapshotJob → Job → PodSnapshot → Action Observed
  with_pod_snapshot sj job snap =
      if str_eq sj.status.pod_snapshot_uid []
      then (do
        pod ← read_source_pod job
        on_go (λ p. observe_unless sj job snap (validate_pod_snapshot_for_adoption sj snap p)) pod)
      else observe_pod_snapshot sj job snap

  -- The Job is complete: the absence of a capture is confirmed.
  abbrev pub confirmed_absent : SnapshotJob → Job → Lookup → Action Observed
  confirmed_absent sj job missing = done (
      failing (observing job) Reason.source_completed_without_capture
        (text (codes "source Job completed before a PodSnapshot was created")))
  confirmed_absent sj job (conflicting cause) = done (conflict job cause)
  confirmed_absent sj job (unreadable e) = done (retry (codes "read PodSnapshot") e)
  confirmed_absent sj job (owned snap) = with_pod_snapshot sj job snap

  abbrev pub without_pod_snapshot : SnapshotJob → Job → SourceJobState → Action Observed
  without_pod_snapshot sj job (source_job_failed f) =
      done (go (record (observing job) { failure = some f }, none))
  without_pod_snapshot sj job (source_job_deadline_exceeded f) =
      done (go (record (observing job) { failure = some f }, none))
  without_pod_snapshot sj job source_job_active = create_pod_snapshot_for_source_job sj job
  without_pod_snapshot sj job source_job_complete = do
    snap ← read_authoritative_owned_pod_snapshot sj
    confirmed_absent sj job snap

  unfoldable pub by_lookup : SnapshotJob → Job → Lookup → Action Observed
  by_lookup sj job (conflicting cause) = done (conflict job cause)
  by_lookup sj job missing = without_pod_snapshot sj job (classify_source_job_terminal job)
  by_lookup sj job (unreadable e) = done (retry (codes "find owned PodSnapshot") e)
  by_lookup sj job (owned snap) = with_pod_snapshot sj job snap

  abbrev pub is_recorded : SnapshotJob → Bool
  is_recorded sj =
      not (str_eq sj.status.pod_snapshot_name [] && str_eq sj.status.pod_snapshot_uid [])

  -- The authoritative read of a capture that is recorded and was not in the cache.
  abbrev pub recorded_lookup : SnapshotJob → Job → Lookup → Action Observed
  recorded_lookup sj job missing = done (
      failing (observing job) Reason.pod_snapshot_deleted (
        fmt (codes "PodSnapshot %q (uid %q) no longer exists")
          (sj.status.pod_snapshot_name ∷ sj.status.pod_snapshot_uid ∷ [])))
  recorded_lookup sj job (owned snap) = by_lookup sj job (owned snap)
  recorded_lookup sj job (conflicting cause) = by_lookup sj job (conflicting cause)
  recorded_lookup sj job (unreadable e) = by_lookup sj job (unreadable e)

  abbrev pub after_cached : SnapshotJob → Job → Lookup → Action Observed
  after_cached sj job missing =
      if is_recorded sj
      then (do snap ← read_authoritative_owned_pod_snapshot sj; recorded_lookup sj job snap)
      else by_lookup sj job missing
  after_cached sj job (owned snap) = by_lookup sj job (owned snap)
  after_cached sj job (conflicting cause) = by_lookup sj job (conflicting cause)
  after_cached sj job (unreadable e) = by_lookup sj job (unreadable e)

  unfoldable pub reconcile_pod_snapshot_resources : SnapshotJob → Job → Action Observed
  reconcile_pod_snapshot_resources sj job = do
    snap ← find_owned_pod_snapshot sj
    after_cached sj job snap
