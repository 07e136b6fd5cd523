-- ===== src/SnapshotJob/Identity.antt =====
-- Which Jobs, pods and PodSnapshots belong to a SnapshotJob.
use snapshot.Prelude.{
  Str, Bool, true, false, not, ◌&&◌, Option, none, some, List, [], ◌∷◌, length, str_eq, codes, itoa,
  if◌then◌else◌,
}
use snapshot.Kube.Condition.{Message, fmt}
use snapshot.Kube.Objects.{Pod, PodSnapshot}
use snapshot.PodContract.Types.{Result, ok, refused, Check}
use snapshot.PodContract.Mappings.{lookup, or_empty}
use snapshot.PodContract.Build.{find_container}
use snapshot.SnapshotJob.Types.{Job, SnapshotJob, SnapshotJobFailure}
use snapshot.SnapshotJob.Reason
use snapshot.SnapshotJob.Build.{
  JobValidation, owner_label, owner_uid_label, snapshot_job_target_container, build_source_job,
}

-- metav1.IsControlledBy, by the UID of the controller.
unfoldable pub is_controlled_by : Option Str → Str → Bool
is_controlled_by none uid = false
is_controlled_by (some controller) uid = str_eq controller uid

unfoldable pub controlled_pods : List Pod → Job → List Pod
controlled_pods [] job = []
controlled_pods (pod ∷ pods) job =
    let rest = controlled_pods pods job in
    if is_controlled_by pod.controller job.uid then pod ∷ rest else rest

abbrev pub single : Job → List Pod → Result (Option Pod)
single job [] = ok none
single job (pod ∷ []) = ok (some pod)
single job (pod ∷ pods) = refused (
    fmt (codes "source Job %q controls %d pods; expected exactly one")
      (job.name ∷ itoa (length (pod ∷ pods)) ∷ []))

unfoldable pub controlled_pod_for_job : List Pod → Job → Result (Option Pod)
controlled_pod_for_job pods job = single job (controlled_pods pods job)

abbrev same_label : Str → List (Str × Str) → List (Str × Str) → Bool
same_label key actual desired =
    str_eq (or_empty (lookup key actual)) (or_empty (lookup key desired))

abbrev pub is_there {ℓ} : {A : Type ℓ} → Option A → Bool
is_there none = false
is_there (some _) = true

unfoldable pub source_job_has_expected_identity : Job → Job → Str → Bool
source_job_has_expected_identity desired actual target =
    (same_label owner_label actual.template.labels desired.template.labels
      && same_label owner_uid_label actual.template.labels desired.template.labels)
    && is_there (find_container actual.template.spec.containers target)

abbrev pub name_conflict : Message → Option SnapshotJobFailure
name_conflict cause = some (record { reason = Reason.job_name_conflict; cause = cause })

abbrev pub replaced : SnapshotJob → Job → Option SnapshotJobFailure
replaced sj job =
    if str_eq job.uid sj.status.source_job_uid
    then none
    else name_conflict (
        fmt (codes "source Job %q was replaced: found uid %q, expected %q")
          (job.name ∷ job.uid ∷ sj.status.source_job_uid ∷ []))

abbrev pub same_identity : Job → Result Job → Result Str → Option SnapshotJobFailure
same_identity job (refused cause) target =
    some (record { reason = Reason.invalid_spec; cause = cause })
same_identity job (ok desired) (refused cause) =
    some (record { reason = Reason.invalid_spec; cause = cause })
same_identity job (ok desired) (ok target) =
    if source_job_has_expected_identity desired job target
    then none
    else name_conflict (
        fmt
          (codes
            "existing source Job %q does not carry the immutable identity expected for this SnapshotJob")
          (job.name ∷ []))

-- The failure of a Job that may not be taken for the source Job.
unfoldable pub classify_existing_source_job :
    JobValidation → SnapshotJob → Job → Option SnapshotJobFailure
classify_existing_source_job v sj job =
    if not (is_controlled_by job.controller sj.uid)
    then name_conflict (
        fmt (codes "an object not controlled by this SnapshotJob already holds the name %q")
          (sj.name ∷ []))
    else if not (str_eq sj.status.source_job_uid [])
    then replaced sj job
    else same_identity job (build_source_job v sj) (snapshot_job_target_container sj)

abbrev carries : Str → Str → List (Str × Str) → Bool
carries key value labels = str_eq (or_empty (lookup key labels)) value

unfoldable pub pod_snapshot_belongs_to_snapshot_job : PodSnapshot → SnapshotJob → Bool
pod_snapshot_belongs_to_snapshot_job snap sj =
    carries owner_label sj.name snap.labels && carries owner_uid_label sj.uid snap.labels

abbrev pub replaced_message : SnapshotJob → PodSnapshot → Message
replaced_message sj snap =
    fmt (codes "PodSnapshot %q was replaced: found uid %q, expected %q")
      (snap.name ∷ snap.uid ∷ sj.status.pod_snapshot_uid ∷ [])

-- A refusal here is errPodSnapshotNameConflict.
unfoldable pub validate_pod_snapshot_ownership : SnapshotJob → PodSnapshot → Check
validate_pod_snapshot_ownership sj snap =
    if not (pod_snapshot_belongs_to_snapshot_job snap sj)
    then refused (
        fmt (codes "PodSnapshot %q belongs to a different SnapshotJob incarnation")
          (snap.name ∷ []))
    else if not (str_eq sj.status.pod_snapshot_uid [])
        && not (str_eq snap.uid sj.status.pod_snapshot_uid)
    then refused (replaced_message sj snap)
    else ok tt

unfoldable pub same_texts : List Str → List Str → Bool
same_texts [] [] = true
same_texts [] (_ ∷ _) = false
same_texts (_ ∷ _) [] = false
same_texts (s ∷ ss) (t ∷ ts) = str_eq s t && same_texts ss ts

unfoldable pub pod_snapshot_has_expected_identity : PodSnapshot → PodSnapshot → Bool
pod_snapshot_has_expected_identity actual desired =
    (str_eq actual.source.name desired.source.name && str_eq actual.source.uid desired.source.uid)
    && same_texts actual.source.containers desired.source.containers
