-- ===== src/Agent/Reconcile.antt =====
-- reconcileCapture itself: from the work order to the dump and its result. Of the messages, the
-- text of a dump's error and the reason of a container's exit are left out.
use snapshot.Prelude.{
  ℕ, Str, Bool, true, false, not, ◌&&◌, ◌||◌, Option, none, some, List, [], ◌∷◌, str_eq, codes,
  itoa, if◌then◌else◌,
}
use snapshot.Kube.Condition.{Message, text, fmt, Meta}
use snapshot.Kube.Prog.{ask, done, call, ◌>>=◌, ◌>>◌}
use snapshot.Kube.Objects.{ObjectKey, ApiError, not_found, Reply, found, error, ContainerStatus}
use snapshot.PodContract.Types.{Result, ok, refused}
use snapshot.Agent.Types.{
  WorkOrder, SourcePod, DumpReply, dumped, dump_failed, cached_content, indexed_contents,
  delete_gate, load_gate, store_gate, new_gate, run_probe, requeue_capture, resolve_artifact_path,
  get_pod, read_manifest, add_label, remove_label, emit_event, kill_running, resolve_container,
  check_staging_capacity, checkpoint, Outcome, stop, retry, Action,
}
use snapshot.Agent.Failure.{classify_capture_failure}
use snapshot.Agent.Capture.{
  single_target_container, classify_source_pod_identity, classify_source_pod_liveness,
  failed_checkpoint_container, container_id_for_name, preflight_cu_interpose, is_content_terminal,
  set_snapshot_content_failed, choose_active_content, mark_checkpoint_ready,
}

abbrev pub store_of : Option Str → Str
store_of none = []
store_of (some store_id) = store_id

abbrev pub pod_key : WorkOrder → ObjectKey
pod_key order = record {
  namespace = order.content.snapshot_ref.namespace;
  name = order.content.source.name;
}

-- artifactPresent, from the manifest of the directory
unfoldable pub artifact_present : Str → Str → Option (Str × Str) → Bool
artifact_present uid container none = false
artifact_present uid container (some (u, c)) = str_eq u uid && str_eq c container

-- By the label that the pod has.
abbrev pub label_unless : SourcePod → Option Str → Action (Option ApiError)
label_unless sp none = ask (add_label sp)
label_unless sp (some value) = if str_eq value (codes "true") then done none else ask (add_label sp)

unfoldable pub label_capture_eligible : SourcePod → Action (Option ApiError)
label_capture_eligible sp = label_unless sp sp.eligible

abbrev pub unlabel : SourcePod → Option Str → Action Unit
unlabel sp none = done tt
unlabel sp (some _) = do _ ← ask (remove_label sp); done tt

unfoldable pub remove_capture_eligible_label : SourcePod → Action Unit
remove_capture_eligible_label sp = unlabel sp sp.eligible

-- The node of the agent, and whether it can fetch a published manifest.
module _ (m : Meta) (node : Str) (fetches : Bool) where
  -- The capture of an order: its container, the path of its artifact and its source.
  module _ (order : WorkOrder) (container path : Str) where
    abbrev pub fail : Str → Message → Action Outcome
    fail reason cause = set_snapshot_content_failed m order reason cause

    abbrev pub recovered_or : Action Outcome → Option (Str × Str) → Action Outcome
    recovered_or rest manifest =
        if artifact_present order.content.uid container manifest
        then mark_checkpoint_ready m fetches order path [] none
        else rest

    -- recoverCommittedArtifact, and what follows where nothing was recovered
    abbrev pub recover_or : Option Str → Action Outcome → Action Outcome
    recover_or (some _) rest = rest
    recover_or none rest = call (read_manifest path) (recovered_or rest)

    abbrev pub fail_and_unlabel : SourcePod → Str → Message → Action Outcome
    fail_and_unlabel sp reason cause = do
      outcome ← fail reason cause
      remove_capture_eligible_label sp
      done outcome

    -- runCheckpoint, from the result of the attempt
    abbrev pub after_dump : DumpReply → Action Outcome
    after_dump (dump_failed err) =
        fail (classify_capture_failure err).reason (text (codes "the dump failed"))
    after_dump (dumped artifact) = mark_checkpoint_ready m fetches order path container artifact

    module _ (sp : SourcePod) (requested : Bool) where
      abbrev pub dump : Str → ℕ → Action Outcome
      dump container_id pid =
          call
            (checkpoint (record {
              pod = sp;
              container_name = container;
              container_id = container_id;
              container_pid = pid;
              content_uid = order.content.uid;
              host_path = path;
              cu_interpose_requested = requested;
              store_id = store_of order.content.storage;
            }))
            after_dump

      abbrev pub after_staging : Str → ℕ → Option Message → Action Outcome
      after_staging container_id pid (some cause) = fail (codes "ImageTooLarge") cause
      after_staging container_id pid none = dump container_id pid

      abbrev pub after_resolution : Str → Result ℕ → Action Outcome
      after_resolution container_id (refused cause) = fail (codes "ContainerNotResolved") cause
      after_resolution container_id (ok pid) =
          call (check_staging_capacity pid) (after_staging container_id pid)

      unfoldable pub capture_ready : Action Outcome
      capture_ready =
          let container_id = container_id_for_name sp.container_ids container in
          if str_eq container_id []
          then fail (codes "ContainerNotResolved")
              (fmt (codes "could not resolve container %q ID") (container ∷ []))
          else call (resolve_container container_id) (after_resolution container_id)

      abbrev pub after_probe : Bool × Option ℕ → Action Outcome
      after_probe (true, next) = call (delete_gate order.content.name) (λ _. capture_ready)
      after_probe (false, none) = done stop
      after_probe (false, some next) =
          call (requeue_capture order.content.name next) (λ _. done stop)

      unfoldable pub probe : Action Outcome
      probe = call (run_probe order.content.name) after_probe

      abbrev pub announce : Bool → Action Outcome
      announce false = call (store_gate order.content.name) (λ _. probe)
      announce true =
          call (emit_event (codes "WaitingForCheckpointReadiness"))
            (λ _. call (store_gate order.content.name) (λ _. probe))

      abbrev pub after_gate : Result Bool → Action Outcome
      after_gate (ok announces) = announce announces
      after_gate (refused cause) =
          call (emit_event (codes "InvalidCheckpointReadinessProbe"))
            (λ _. fail (codes "InvalidCheckpointReadinessProbe") cause)

      -- getCheckpointGate, and the probe of the gate
      unfoldable pub get_checkpoint_gate : Bool → Action Outcome
      get_checkpoint_gate true = probe
      get_checkpoint_gate false = call (new_gate order sp container) after_gate

      abbrev pub after_label : Option ApiError → Action Outcome
      after_label (some e) = done (retry (codes "mark source pod capture-eligible"))
      after_label none = call (load_gate order.content.name) get_checkpoint_gate

    abbrev pub after_preflight : SourcePod → Result Bool → Action Outcome
    after_preflight sp (refused cause) = fail (codes "CuInterposeMisconfigured") cause
    after_preflight sp (ok requested) = label_capture_eligible sp >>= after_label sp requested

    abbrev pub after_liveness : SourcePod → Option (Str × Message) → Action Outcome
    after_liveness sp (some (reason, cause)) = fail_and_unlabel sp reason cause
    after_liveness sp none = after_preflight sp (preflight_cu_interpose sp container)

    -- failCheckpointOnContainerExit, and what follows where none has failed
    abbrev pub after_exit : SourcePod → Option ContainerStatus → Action Outcome
    after_exit sp (some status) = call (emit_event (codes "CheckpointFailed")) (λ _.
        call (kill_running sp) (λ _. fail (codes "CheckpointContainerFailed") (
          fmt (codes "checkpoint container %q terminated with exit code %d")
            (status.name ∷ itoa status.exit_code ∷ []))))
    after_exit sp none = after_liveness sp (classify_source_pod_liveness sp.pod)

    abbrev pub after_owner : SourcePod → Reply (List WorkOrder) → Action Outcome
    after_owner sp (error e) = done (retry (codes "look up PodSnapshotContent by source pod"))
    after_owner sp (found orders) =
        if str_eq (choose_active_content m orders) order.content.name
        then after_exit sp (failed_checkpoint_container sp.pod.container_statuses)
        else done stop

    abbrev pub after_identity : SourcePod → Option (Str × Message) → Action Outcome
    after_identity sp (some (reason, cause)) = fail_and_unlabel sp reason cause
    after_identity sp none =
        recover_or order.content.storage (call (indexed_contents sp.pod) (after_owner sp))

    abbrev pub after_pod : Reply SourcePod → Action Outcome
    after_pod (error not_found) = recover_or order.content.storage (
        fail (codes "SourcePodNotFound")
          (fmt (codes "source pod %q not found") (order.content.source.name ∷ [])))
    after_pod (error e) = done (retry (codes "get source pod"))
    after_pod (found sp) = after_identity sp (classify_source_pod_identity order.content sp.pod)

  abbrev pub after_path : WorkOrder → Str → Result Str → Action Outcome
  after_path order container (refused cause) =
      set_snapshot_content_failed m order (codes "InvalidDestination") cause
  after_path order container (ok path) =
      call (get_pod (pod_key order)) (after_pod order container path)

  abbrev pub with_target : WorkOrder → Result Str → Action Outcome
  with_target order (refused cause) =
      set_snapshot_content_failed m order (codes "InvalidTargetContainer") cause
  with_target order (ok container) =
      call (resolve_artifact_path order.content.uid container) (after_path order container)

  unfoldable pub capture_order : WorkOrder → Action Outcome
  capture_order order =
      if str_eq order.content.uid []
      then set_snapshot_content_failed m order (codes "MissingContentUID")
          (fmt (codes "PodSnapshotContent %q has no UID") (order.content.name ∷ []))
      else with_target order (single_target_container order.content.source.containers)

  abbrev pub is_ignored : WorkOrder → Bool
  is_ignored order =
      not (str_eq order.content.source_node node)
      || (order.content.deleting || is_content_terminal m order)

  abbrev pub after_lookup : Str → Reply (Option WorkOrder) → Action Outcome
  after_lookup name (error e) =
      done (retry (codes "look up PodSnapshotContent in the informer cache"))
  after_lookup name (found none) = call (delete_gate name) (λ _. done stop)
  after_lookup name (found (some order)) =
      if is_ignored order then call (delete_gate name) (λ _. done stop) else capture_order order

  unfoldable pub reconcile_capture : Str → Action Outcome
  reconcile_capture name = call (cached_content name) (after_lookup name)
