-- ===== src/PodSnapshot/Source.antt =====
-- What the reconciler reads off the source pod.
use snapshot.Prelude.{
  ℕ, ◌+◌, ◌-◌, Str, Bool, true, false, not, ◌&&◌, ◌||◌, Option, none, some, List, [], ◌∷◌, ◌++◌,
  ltb, ◌==◌, str_eq, codes, if◌then◌else◌,
}
use snapshot.Kube.Condition.{Message, text, fmt, wrap}
use snapshot.Kube.Objects.{
  Pod, PodPhase, pod_succeeded, pod_failed, ContainerStatus, PodSnapshot, PodSnapshotContent,
}

abbrev pub key_text : Str → Str → Str
key_text namespace name = namespace ++ (codes "/" ++ name)

-- The maximum loop of podTerminalTime over one list of statuses.
unfoldable pub latest_termination : ℕ → List ContainerStatus → ℕ
latest_termination latest [] = latest
latest_termination latest (s ∷ statuses) =
    latest_termination
      (elim s.terminated [ none ↦ latest | some at ↦ if ltb latest at then at else latest ])
      statuses

unfoldable pub pod_terminal_time : Pod → ℕ
unfolding latest_termination
pod_terminal_time pod =
    let latest =
      latest_termination (latest_termination 0 pod.container_statuses)
        pod.init_container_statuses in
    if latest == 0 then (elim pod.deletion_timestamp [ none ↦ 0 | some at ↦ at ]) else latest

-- sourcePodTerminalGrace, in seconds
abbrev pub source_pod_terminal_grace : ℕ
source_pod_terminal_grace = 300

-- What is left of the grace window. The source's duration may be negative, and is only asked
-- whether it is positive: that is 0 here.
unfoldable pub source_pod_terminal_grace_remaining : Pod → ℕ → ℕ
unfolding pod_terminal_time
source_pod_terminal_grace_remaining pod now =
    let terminal_at = pod_terminal_time pod in
    if terminal_at == 0 then 0 else source_pod_terminal_grace + terminal_at - now

abbrev pub reason_source_pod_gone : Str
reason_source_pod_gone = codes "SourcePodGone"

abbrev pub reason_stale : Str
reason_stale = codes "StalePodReference"

abbrev pub reason_completed : Str
reason_completed = codes "SourceCompletedWithoutCapture"

abbrev pub is_succeeded : PodPhase → Bool
is_succeeded pod_succeeded = true
is_succeeded _ = false

abbrev pub is_failed : PodPhase → Bool
is_failed pod_failed = true
is_failed _ = false

abbrev pub is_set : Option ℕ → Bool
is_set none = false
is_set (some _) = true

-- The UID that the capture wants: the pinned one, else the one that the content recorded.
abbrev pub wanted_uid : PodSnapshot → PodSnapshotContent → Str
wanted_uid snap content = if str_eq snap.source.uid [] then content.source.uid else snap.source.uid

-- `none` where the cause is nil.
unfoldable pub pending_capture_source_failure :
    PodSnapshot → PodSnapshotContent → Pod → Option (Str × Message)
pending_capture_source_failure snap content pod =
    let want = wanted_uid snap content in
    let key = key_text pod.namespace pod.name in
    if not (str_eq want []) && not (str_eq pod.uid want)
    then some (
      reason_stale,
      fmt (codes "source pod %q UID %q does not match the checkpointed pod UID %q")
          (key ∷ pod.uid ∷ want ∷ []),
    )
    else if is_succeeded pod.phase
    then some (
      reason_completed,
      fmt
          (codes
            "source pod %q completed before PodSnapshotContent %q reported checkpoint success or failure")
          (key ∷ content.name ∷ []),
    )
    else if is_failed pod.phase || is_set pod.deletion_timestamp
    then some (
      reason_source_pod_gone,
      fmt
          (codes
            "source pod %q became unavailable before PodSnapshotContent %q reported checkpoint success or failure")
          (key ∷ content.name ∷ []),
    )
    else none

-- The sentinels of validateSourcePod.
pub data Rejection : Type 0 where
  unscheduled : Rejection
  stale_pod_ref : Message → Rejection

unfoldable pub validate_source_pod : PodSnapshot → Pod → Option Rejection
validate_source_pod snap pod =
    let want = snap.source.uid in
    if not (str_eq want []) && not (str_eq pod.uid want)
    then some (
        stale_pod_ref (
          wrap (text (codes "source pod UID does not match the pinned PodSnapshot source"))
            (fmt (codes "live pod %q UID %q, want %q") (pod.name ∷ pod.uid ∷ want ∷ []))))
    else if str_eq pod.node_name []
    then some unscheduled
    else none

-- containerReady: the first status of that name decides.
unfoldable pub container_ready : List ContainerStatus → Str → Bool
container_ready [] name = false
container_ready (s ∷ statuses) name =
    if str_eq s.name name then s.ready else container_ready statuses name

-- pod.Annotations[key], which is empty where the key is absent.
unfoldable pub annotation : List (Str × Str) → Str → Str
annotation [] key = []
annotation ((k, v) ∷ rest) key = if str_eq k key then v else annotation rest key
