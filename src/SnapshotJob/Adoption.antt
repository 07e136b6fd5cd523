-- ===== src/SnapshotJob/Adoption.antt =====
-- A later reconciliation accepts what an earlier one created.
use snapshot.Prelude.{
  Str, ◌≡◌, refl, sym, ap, ◌∙◌, ◌⊎◌, inl, inr, ◌↔◌, Bool, true, false, not, ◌&&◌, Option, none,
  some, List, [], ◌∷◌, str_eq, str_eq_iff, str_eq_refl, if◌then◌else◌, Bool-cases, arith,
}
use snapshot.Kube.Result.{bind-ok, ok-injective}
use snapshot.Kube.Objects.{Pod, PodSnapshot}
use snapshot.PodContract.Types.{ok, refused, Check}
use snapshot.PodContract.Mappings.{lookup}
use snapshot.PodContract.Build.{find_container}
use snapshot.SnapshotJob.Types.{Job, SnapshotJob}
use snapshot.SnapshotJob.Build.{
  JobValidation, owned, snapshot_job_target_container, validate_pod_snapshot_template_metadata,
  pod_snapshot_template_metadata, build_pod_snapshot, desired_source_job, labels_of,
}
use snapshot.SnapshotJob.Identity.{
  replaced_message, is_controlled_by, is_there, source_job_has_expected_identity,
  classify_existing_source_job, validate_pod_snapshot_ownership,
  pod_snapshot_belongs_to_snapshot_job, pod_snapshot_has_expected_identity, same_texts,
}
use snapshot.SnapshotJob.Template.{
  owned-lookups, build_source_job-labels, desired_source_job-keeps, Keeps, Keeps-owner,
}

source_job_has_expected_identity-owned :
    (v : JobValidation) (sj : SnapshotJob) (base : List (Str × Str)) (built actual : Job)
    (target : Str)
    → built.template.labels ≡ owned v sj base
    → Keeps actual.template.labels built.template.labels
    → is_there (find_container actual.template.spec.containers target) ≡ true
    → source_job_has_expected_identity built actual target ≡ true
unfolding source_job_has_expected_identity
source_job_has_expected_identity-owned v sj base built actual target own keeps there =
    let (name, uid) =
      Keeps-owner v sj base built.template.labels actual.template.labels own keeps in
    let (name', uid') = owned-lookups v sj base in
    rw (name, uid, own, name', uid', there, str_eq_refl sj.name, str_eq_refl sj.uid) refl

is_controlled_by-own : (c : Option Str) (u : Str) → c ≡ some u → is_controlled_by c u ≡ true
unfolding is_controlled_by
is_controlled_by-own c u e = rw e (str_eq_refl u)

-- The Job that Reconcile asks for is accepted later under the control of the SnapshotJob, whatever
-- UID it is given, both before that is recorded and once it is: the stored Job may have other
-- labels on its template and other containers beside those that were asked for, as long as it
-- keeps these.
pub classify_existing_source_job-created :
    (v : JobValidation) (sj : SnapshotJob) (desired job : Job)
    → desired_source_job v sj ≡ ok desired
    → job.controller ≡ some sj.uid
    → Keeps job.template.labels desired.template.labels
    → ((name : Str)
        → is_there (find_container desired.template.spec.containers name) ≡ true
        → is_there (find_container job.template.spec.containers name) ≡ true)
    → (sj.status.source_job_uid ≡ []) ⊎ (job.uid ≡ sj.status.source_job_uid)
    → classify_existing_source_job v sj job ≡ none
unfolding classify_existing_source_job
classify_existing_source_job-created v sj desired job e controlled keeps has recorded =
    let (built, target, b, t, labels, there) = desired_source_job-keeps v sj desired e in
    let identity =
      source_job_has_expected_identity-owned v sj _ built job target
        (build_source_job-labels v sj built b)
        (λ key value h. keeps key value (ap (lookup key) labels ∙ h)) (has target there) in
    let own = is_controlled_by-own job.controller sj.uid controlled in
    elim (Bool-cases (str_eq sj.status.source_job_uid [])) [
      | inl u ↦ rw (own, u, b, t, identity) refl
      | inr u ↦ elim recorded [
        | inl unset ↦ ground (arith, (str_eq_iff _ _).1 unset, u)
        | inr r ↦ rw (own, u, (str_eq_iff _ _).1 r) refl
      ]
    ]

same_texts_refl : (ss : List Str) → same_texts ss ss ≡ true
unfolding same_texts
same_texts_refl [] = refl
same_texts_refl (s ∷ ss) = rw (str_eq_refl s) (same_texts_refl ss)

build_pod_snapshot-labels :
    (v : JobValidation) (sj : SnapshotJob) (pod : Pod) (desired : PodSnapshot)
    → build_pod_snapshot v sj pod ≡ ok desired
    → (base : List (Str × Str)) × (desired.labels ≡ owned v sj base)
unfolding build_pod_snapshot pod_snapshot_template_metadata
build_pod_snapshot-labels v sj pod desired e =
    let (_, _, e1) = bind-ok (snapshot_job_target_container sj) e in
    let (metadata, e2, e3) = bind-ok (pod_snapshot_template_metadata v sj) e1 in
    let (_, _, e4) = bind-ok (validate_pod_snapshot_template_metadata v sj) e2 in
    (
      labels_of v sj.spec.pod_snapshot_template.metadata,
      sym (ap (λ s. s.labels) (ok-injective e3)) ∙ ap (λ x. x.0) (sym (ok-injective e4)),
    )

build_pod_snapshot-source :
    (v : JobValidation) (sj : SnapshotJob) (pod : Pod) (desired : PodSnapshot)
    → build_pod_snapshot v sj pod ≡ ok desired
    → desired.source ≡ record {
      name = pod.name;
      uid = pod.uid;
      containers = sj.spec.pod_snapshot_template.target_containers;
    }
unfolding build_pod_snapshot
build_pod_snapshot-source v sj pod desired e =
    let (_, _, e1) = bind-ok (snapshot_job_target_container sj) e in
    let (_, _, e2) = bind-ok (pod_snapshot_template_metadata v sj) e1 in
    sym (ap (λ s. s.source) (ok-injective e2))

both_same : (a b c d : Str) → ((str_eq a b && str_eq c d) ≡ true) ↔ ((b ≡ a) × (d ≡ c))
both_same a b c d = elim (Bool-cases (str_eq a b)) [
  | inl e ↦ (
    λ h. (sym ((str_eq_iff a b).0 e), sym ((str_eq_iff c d).0 (rw e at h))),
    λ h. rw e ((str_eq_iff c d).1 (sym h.1)),
  )
  | inr e ↦ (
    λ h. let stuck : false ≡ true = rw e at h in grind arith,
    λ h. let same = (str_eq_iff a b).1 (sym h.0) in grind arith,
  )
]

and_true : (b : Bool) → (b && true) ≡ b
and_true true = refl
and_true false = refl

-- The PodSnapshot that Reconcile asks for from a pod pins the name and the UID of that pod. It
-- belongs to the SnapshotJob later, whatever UID it is given and whatever labels are added to it,
-- both before its UID is recorded and once it is. It has the identity of what is asked for from a
-- pod read later exactly where that pod has the name and the UID of the first.
pub build_pod_snapshot-belongs :
    (v : JobValidation) (sj : SnapshotJob) (pod later : Pod)
    (desired desired_later snap : PodSnapshot)
    → build_pod_snapshot v sj pod ≡ ok desired
    → build_pod_snapshot v sj later ≡ ok desired_later
    → Keeps snap.labels desired.labels
    → snap.source ≡ desired.source
    → (sj.status.pod_snapshot_uid ≡ []) ⊎ (snap.uid ≡ sj.status.pod_snapshot_uid)
    → (snap.source.name ≡ pod.name)
      × (snap.source.uid ≡ pod.uid)
      × (validate_pod_snapshot_ownership sj snap ≡ ok tt)
      × ((pod_snapshot_has_expected_identity snap desired_later ≡ true)
          ↔ ((later.name ≡ pod.name) × (later.uid ≡ pod.uid)))
unfolding validate_pod_snapshot_ownership pod_snapshot_belongs_to_snapshot_job
    pod_snapshot_has_expected_identity
build_pod_snapshot-belongs v sj pod later desired desired_later snap e e' labels source recorded =
    let (base, own) = build_pod_snapshot-labels v sj pod desired e in
    let (name, uid) = Keeps-owner v sj base desired.labels snap.labels own labels in
    let pinned = source ∙ build_pod_snapshot-source v sj pod desired e in
    (
      ap (λ s. s.name) pinned,
      ap (λ s. s.uid) pinned,
      rw (name, uid, str_eq_refl sj.name, str_eq_refl sj.uid)
          (replaced (str_eq sj.status.pod_snapshot_uid [])
            (str_eq snap.uid sj.status.pod_snapshot_uid) refl refl recorded),
      rw
          (
            pinned,
            build_pod_snapshot-source v sj later desired_later e',
            same_texts_refl sj.spec.pod_snapshot_template.target_containers,
            and_true (str_eq pod.name later.name && str_eq pod.uid later.uid),
          )
          (both_same pod.name later.name pod.uid later.uid),
    )
  where
    replaced :
        (a b : Bool)
        → str_eq sj.status.pod_snapshot_uid [] ≡ a
        → str_eq snap.uid sj.status.pod_snapshot_uid ≡ b
        → (sj.status.pod_snapshot_uid ≡ []) ⊎ (snap.uid ≡ sj.status.pod_snapshot_uid)
        → ◌≡◌ {A = Check}
            (if not a && not b then refused (replaced_message sj snap) else ok tt)
            (ok tt)
    replaced true b p q r = refl
    replaced false true p q r = refl
    replaced false false p q (inl r) = ground (arith, (str_eq_iff _ _).1 r, p)
    replaced false false p q (inr r) = ground (arith, (str_eq_iff _ _).1 r, q)
