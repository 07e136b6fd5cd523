-- ===== src/Agent/Capture.antt =====
-- reconcileCapture of podsnapshotcontent.go, and what it calls.
use snapshot.Prelude.{
  ℕ, zero, suc, Str, Bool, true, false, not, ◌&&◌, ◌||◌, Option, none, some, List, [], ◌∷◌, ◌==◌,
  ltb, length, str_eq, codes, itoa, trim_space, if◌then◌else◌,
}
use snapshot.Kube.Condition.{
  ConditionType, ready, failed, is_true, Message, text, fmt, Meta, is_status_condition_true,
}
use snapshot.Kube.Prog.{ask, done, call, ◌>>=◌}
use snapshot.Kube.Objects.{
  Reply, found, error, Pod, PodPhase, pod_failed, pod_succeeded, ContainerStatus,
  PodSnapshotContent,
}
use snapshot.PodContract.Types.{Result, ok, refused, Container}
use snapshot.PodContract.Build.{find_container}
use snapshot.PodContract.CuInterpose.{parse_cu_interpose_annotation, validate_cu_interpose_launcher}
use snapshot.Agent.Types.{
  PublishedContainerArtifact, WorkOrder, SourcePod, PatchReply, patched, conflict, patch_error,
  get_content, read_source, fetch_manifest, patch_status, Outcome, stop, retry, Action,
}

abbrev single : List Str → Result Str
single (name ∷ []) =
    if str_eq (trim_space name) []
    then refused (text (codes "source podRef container name must not be empty"))
    else ok name
single names = refused (
    fmt (codes "source podRef must reference exactly one container, got %d")
      (itoa (length names) ∷ []))

unfoldable pub single_target_container : List Str → Result Str
single_target_container names = single names

-- Go's order of strings, on code points.
unfoldable pub str_ltb : Str → Str → Bool
str_ltb [] [] = false
str_ltb [] (_ ∷ _) = true
str_ltb (_ ∷ _) [] = false
str_ltb (a ∷ s) (b ∷ t) = ltb a b || (a == b && str_ltb s t)

-- The reason why a live pod is not the pinned source, or cannot host a dump.
unfoldable pub classify_source_pod_identity : PodSnapshotContent → Pod → Option (Str × Message)
classify_source_pod_identity content pod =
    if not (str_eq content.source.uid []) && not (str_eq pod.uid content.source.uid)
    then some (
      codes "StalePodReference",
      fmt (codes "source pod %q UID %q does not match work order UID %q")
          (pod.name ∷ pod.uid ∷ content.source.uid ∷ []),
    )
    else none

abbrev is_over : PodPhase → Bool
is_over pod_failed = true
is_over pod_succeeded = true
is_over _ = false

abbrev is_some {ℓ} : {A : Type ℓ} → Option A → Bool
is_some none = false
is_some (some _) = true

unfoldable pub classify_source_pod_liveness : Pod → Option (Str × Message)
classify_source_pod_liveness pod =
    if is_some pod.deletion_timestamp || is_over pod.phase
    then some
        (codes "SourcePodGone", fmt (codes "source pod %q is no longer running") (pod.name ∷ []))
    else none

abbrev has_failed : ContainerStatus → Bool
has_failed status = is_some status.terminated && not (status.exit_code == 0)

unfoldable pub failed_checkpoint_container : List ContainerStatus → Option ContainerStatus
failed_checkpoint_container [] = none
failed_checkpoint_container (s ∷ statuses) =
    let rest = failed_checkpoint_container statuses in if has_failed s then some s else rest

unfoldable pub container_id_for_name : List (Str × Str) → Str → Str
container_id_for_name [] name = []
container_id_for_name ((n, id) ∷ ids) name =
    let rest = container_id_for_name ids name in if str_eq n name then id else rest

abbrev launched : Str → Option Container → Result Bool
launched target none =
    refused (fmt (codes "cuinterpose target container %q not found") (target ∷ []))
launched target (some c) = elim (validate_cu_interpose_launcher c) [
  | ok _ ↦ ok true
  | refused cause ↦ refused cause
]

abbrev if_requested : Result Bool → Result Bool → Result Bool
if_requested (ok true) rest = rest
if_requested (ok false) rest = ok false
if_requested (refused cause) rest = refused cause

unfoldable pub preflight_cu_interpose : SourcePod → Str → Result Bool
preflight_cu_interpose sp target =
    if_requested (parse_cu_interpose_annotation sp.pod.annotations)
      (launched target (find_container sp.containers target))

-- The artifact of the container is replaced, or added at the end.
unfoldable pub record_artifact :
    PublishedContainerArtifact → List PublishedContainerArtifact → List PublishedContainerArtifact
record_artifact recorded [] = recorded ∷ []
record_artifact recorded (a ∷ artifacts) =
    let rest = record_artifact recorded artifacts in
    if str_eq a.container_name recorded.container_name then recorded ∷ artifacts else a ∷ rest

abbrev or_before {ℓ} : {A : Type ℓ} → Option A → Option A → Option A
or_before none before = before
or_before (some a) before = some a

abbrev published :
    Str → Option Str → List PublishedContainerArtifact → List PublishedContainerArtifact
published name none artifacts = artifacts
published name (some handle) artifacts =
    record_artifact (record { container_name = name; artifact_handle = handle }) artifacts

module _ (m : Meta) where
  unfoldable pub is_content_ready : WorkOrder → Bool
  is_content_ready order = is_status_condition_true m order.content.conditions ready

  unfoldable pub is_content_failed : WorkOrder → Bool
  is_content_failed order = is_status_condition_true m order.content.conditions failed

  unfoldable pub is_content_terminal : WorkOrder → Bool
  is_content_terminal order = is_content_ready order || is_content_failed order

  abbrev with_condition : WorkOrder → ConditionType → Str → Message → WorkOrder
  with_condition order kind reason message = record order {
    content = record order.content {
      conditions =
          (m.set order.content.conditions
            (record { kind = kind; status = is_true; reason = reason; message = message })).0;
    };
  }

  -- setSnapshotContentSucceeded, up to the patch
  unfoldable pub succeeded : WorkOrder → Option Str → Str → Option Str → WorkOrder
  succeeded order source name artifact =
      record (with_condition order ready (codes "Captured")
        (text (codes "Checkpoint captured and verified"))) {
          source = or_before source order.source;
          artifacts = published name artifact order.artifacts;
        }

  -- setSnapshotContentFailed, up to the patch
  unfoldable pub marked_failed : WorkOrder → Str → Message → WorkOrder
  marked_failed order reason cause = with_condition order failed reason cause

  abbrev outcome_of : PatchReply → Outcome
  outcome_of patched = stop
  outcome_of conflict = retry (codes "the work order was written meanwhile")
  outcome_of (patch_error e) = retry (codes "patch PodSnapshotContent status")

  unfoldable pub set_snapshot_content_failed : WorkOrder → Str → Message → Action Outcome
  set_snapshot_content_failed order reason cause = do
    reply ← ask (patch_status (marked_failed order reason cause))
    done (outcome_of reply)

  -- chooseActiveContent: the oldest that is active, by name where the times are equal.
  abbrev pub is_active : WorkOrder → Bool
  is_active order = not (order.content.deleting || is_content_terminal order)

  abbrev pub comes_first : WorkOrder → WorkOrder → Bool
  comes_first order chosen =
      ltb order.created chosen.created
      || (order.created == chosen.created && str_ltb order.content.name chosen.content.name)

  abbrev pub better : WorkOrder → Option WorkOrder → Option WorkOrder
  better order none = some order
  better order (some chosen) = if comes_first order chosen then some order else some chosen

  unfoldable pub choose_from : Option WorkOrder → List WorkOrder → Option WorkOrder
  choose_from chosen [] = chosen
  choose_from chosen (order ∷ orders) =
      choose_from (if is_active order then better order chosen else chosen) orders

  abbrev pub name_of : Option WorkOrder → Str
  name_of none = []
  name_of (some order) = order.content.name

  unfoldable pub choose_active_content : List WorkOrder → Str
  choose_active_content orders = name_of (choose_from none orders)

  -- markCheckpointReadyWithSource, with the attempts that are left.
  abbrev pub after_ready : Str → (WorkOrder → Action Outcome) → Reply WorkOrder → Action Outcome
  after_ready name again (error e) = done (retry (codes "re-read PodSnapshotContent"))
  after_ready name again (found current) =
      if is_content_failed current
      then done stop
      else if is_content_ready current
      then done stop
      else again current

  abbrev pub after_ready_patch : Str → (WorkOrder → Action Outcome) → PatchReply → Action Outcome
  after_ready_patch name again patched = done stop
  after_ready_patch name again (patch_error e) =
      done (retry (codes "patch PodSnapshotContent status"))
  after_ready_patch name again conflict = do
    reply ← ask (get_content name)
    after_ready name again reply

  unfoldable pub mark_checkpoint_ready_with_source :
      ℕ → Str → Option Str → Str → Option Str → WorkOrder → Action Outcome
  mark_checkpoint_ready_with_source zero name source container artifact order =
      done (retry (codes "exceeded conflict retries"))
  mark_checkpoint_ready_with_source (suc n) name source container artifact order =
      call (patch_status (succeeded order source container artifact)) (
        after_ready_patch name
          (λ current. mark_checkpoint_ready_with_source n name source container artifact current))

  abbrev pub ready_status_conflict_limit : ℕ
  ready_status_conflict_limit = 8

  -- An unreadable source costs its values only; a manifest is fetched where that is configured.
  abbrev pub with_source : Bool → Str → Option Str → (Option Str → Action Outcome) → Action Outcome
  with_source fetches path none then_ = call (read_source path) then_
  with_source true path (some handle) then_ = call (fetch_manifest handle) then_
  with_source false path (some handle) then_ = then_ none

  unfoldable pub mark_checkpoint_ready : Bool → WorkOrder → Str → Str → Option Str → Action Outcome
  mark_checkpoint_ready fetches order path container artifact =
      with_source fetches path artifact (λ source.
        mark_checkpoint_ready_with_source ready_status_conflict_limit order.content.name source
          container artifact order)
