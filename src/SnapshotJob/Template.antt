-- ===== src/SnapshotJob/Template.antt =====
-- The labels and the containers of the pod template of the Job that Reconcile asks for.
use snapshot.Prelude.{
  Str, ◌≡◌, refl, sym, ap, ◌∙◌, subst, inl, inr, true, false, not, Option, none, some, List, [],
  ◌∷◌, str_eq, str_eq_iff, str_eq_refl, if-cases, Bool-cases, arith,
}
use snapshot.Kube.Condition.{Message}
use snapshot.Kube.Result.{bind-ok, ok-injective, guard-ok}
use snapshot.PodContract.Types.{Result, ok, Container, VolumeMount}
use snapshot.PodContract.Mappings.{lookup, store, delete, is_nil}
use snapshot.PodContract.Build.{find_container}
use snapshot.PodContract.CuInterpose.{parse_cu_interpose_annotation}
use snapshot.PodContract.NonTarget.{non_target_artifact_containers, non_target_artifact_subdir}
use snapshot.SnapshotJob.Types.{Job, SnapshotJob, PodTemplate}
use snapshot.SnapshotJob.SourceJob.{
  SourceJobOptions, at_first, shape_target, shape_containers, new_source_job, refuse_annotation,
  add_control_mount,
}
use snapshot.SnapshotJob.Build.{
  JobValidation, owner_label, owner_uid_label, owned, snapshot_job_target_container,
  build_source_job, inject_non_target_artifact_contract, validate_pod_snapshot_template_metadata,
  inject_requested, requested, same_count, inject_names, check_name, desired_source_job,
  launched_unless, has_command, options_of, shape_cu_interpose_capture, shape_cu_interpose_target,
  check_cu_interpose_reserved_names,
}
use snapshot.SnapshotJob.Identity.{is_there}

lookup-store : (k v : Str) (entries : List (Str × Str)) → lookup k (store k v entries) ≡ some v
unfolding lookup store
lookup-store k v entries = rw (str_eq_refl k) refl

lookup-delete_ne :
    (k j : Str) (entries : List (Str × Str))
    → str_eq k j ≡ false
    → lookup j (delete k entries) ≡ lookup j entries
unfolding lookup delete
lookup-delete_ne k j [] h = refl
lookup-delete_ne k j ((x, v) ∷ entries) h = elim (Bool-cases (str_eq x k)) [
  | inl e ↦
      let same : x ≡ k = (str_eq_iff x k).0 e in
      rw (e, subst (λ y. str_eq y j ≡ false) (sym same) h) (lookup-delete_ne k j entries h)
  | inr e ↦ rw (e, lookup-delete_ne k j entries h) refl
]

lookup-store_ne :
    (k v j : Str) (entries : List (Str × Str))
    → str_eq k j ≡ false
    → lookup j (store k v entries) ≡ lookup j entries
unfolding lookup store
lookup-store_ne k v j entries h = rw (h, lookup-delete_ne k j entries h) refl

-- What find_container finds at the head, or further on.
head_is_there :
    (c : Container) (cs : List Container) (name : Str)
    → str_eq c.name name ≡ true
    → is_there (find_container (c ∷ cs) name) ≡ true
unfolding find_container
head_is_there c cs name e = rw e refl

tail_is_there :
    (c : Container) (cs : List Container) (name : Str)
    → str_eq c.name name ≡ false
    → is_there (find_container cs name) ≡ true
    → is_there (find_container (c ∷ cs) name) ≡ true
unfolding find_container
tail_is_there c cs name e h = rw e h

-- The container that is shaped is there afterwards, if the shape keeps its name.
at_first-is_there :
    (name : Str) (shape : Container → Result Container) (missing : Message) (cs : List Container)
    {cs' : List Container}
    → ((c c' : Container) → shape c ≡ ok c' → c'.name ≡ c.name)
    → at_first name shape missing cs ≡ ok cs'
    → is_there (find_container cs' name) ≡ true
unfolding at_first
at_first-is_there name shape missing [] keeps e = grind arith
at_first-is_there name shape missing (c ∷ cs) keeps e = elim (if-cases (str_eq c.name name) e) [
  | inl (b, e1) ↦
      let (c', e2, e3) = bind-ok (shape c) e1 in
      subst (λ x. is_there (find_container x name) ≡ true) (ok-injective e3)
        (head_is_there c' cs name (subst (λ x. str_eq x name ≡ true) (sym (keeps c c' e2)) b))
  | inr (b, e1) ↦
      let (cs1, e2, e3) = bind-ok (at_first name shape missing cs) e1 in
      subst (λ x. is_there (find_container x name) ≡ true) (ok-injective e3)
        (tail_is_there c cs1 name b (at_first-is_there name shape missing cs keeps e2))
]

shape_target-name :
    (opts : SourceJobOptions) (c c' : Container) → shape_target opts c ≡ ok c' → c'.name ≡ c.name
unfolding shape_target add_control_mount
shape_target-name opts c c' e = elim (if-cases (not opts.wrap_launch_job) e) [
  | inl (b, e1) ↦ sym (ap (λ x. x.name) (ok-injective e1))
  | inr (b, e1) ↦
      let (b', e2) = guard-ok (is_nil (add_control_mount c).command) _ _ e1 in
      sym (ap (λ x. x.name) (ok-injective e2))
]

launched_unless-name :
    (v : JobValidation) (c c' : Container) (conflict : Option VolumeMount)
    → launched_unless v c conflict ≡ ok c'
    → c'.name ≡ c.name
launched_unless-name v c c' none e = sym (ap (λ x. x.name) (ok-injective e))
launched_unless-name v c c' (some mount) e = grind arith

shape_cu_interpose_target-name :
    (v : JobValidation) (c c' : Container)
    → shape_cu_interpose_target v c ≡ ok c'
    → c'.name ≡ c.name
unfolding shape_cu_interpose_target
shape_cu_interpose_target-name v c c' e = elim (if-cases (has_command c.command) e) [
  | inl (b, e1) ↦ launched_unless-name v c c' _ e1
  | inr (b, e1) ↦ grind arith
]

shape_containers-is_there :
    (opts : SourceJobOptions) (cs : List Container) {cs' : List Container}
    → shape_containers opts cs ≡ ok cs'
    → is_there (find_container cs' opts.target_container) ≡ true
shape_containers-is_there opts cs e =
    let (_, e1) = guard-ok (is_nil cs) _ _ e in
    let (_, e2) = guard-ok (str_eq opts.target_container []) _ _ e1 in
    at_first-is_there opts.target_container (shape_target opts) _ cs (shape_target-name opts) e2

-- The Job that is built has the target.
new_source_job-is_there :
    (template : PodTemplate) (opts : SourceJobOptions) (job : Job)
    → new_source_job template opts ≡ ok job
    → is_there (find_container job.template.spec.containers opts.target_container) ≡ true
unfolding new_source_job
new_source_job-is_there template opts job e =
    let (_, _, e1) = bind-ok (refuse_annotation template.annotations _) e in
    let (_, _, e2) = bind-ok (refuse_annotation template.annotations _) e1 in
    let (cs, e3, e4) = bind-ok (shape_containers opts template.spec.containers) e2 in
    subst (λ x. is_there (find_container x.template.spec.containers opts.target_container) ≡ true)
      (ok-injective e4) (shape_containers-is_there opts template.spec.containers e3)

shape_cu_interpose_capture-keeps :
    (v : JobValidation) (template template' : PodTemplate) (target : Str)
    → shape_cu_interpose_capture v template target ≡ ok template'
    → (template'.labels ≡ template.labels)
      × (is_there (find_container template'.spec.containers target) ≡ true)
unfolding shape_cu_interpose_capture
shape_cu_interpose_capture-keeps v template template' target e =
    let (_, _, e1) = bind-ok (check_cu_interpose_reserved_names template.spec) e in
    let (cs, e2, e3) = bind-ok (at_first target (shape_cu_interpose_target v) _ _) e1 in
    (
      sym (ap (λ x. x.labels) (ok-injective e3)),
      subst (λ x. is_there (find_container x.spec.containers target) ≡ true) (ok-injective e3)
          (at_first-is_there target (shape_cu_interpose_target v) _ template.spec.containers
            (shape_cu_interpose_target-name v) e2),
    )

build_source_job-is_there :
    (v : JobValidation) (sj : SnapshotJob) (job : Job) (target : Str)
    → build_source_job v sj ≡ ok job
    → snapshot_job_target_container sj ≡ ok target
    → is_there (find_container job.template.spec.containers target) ≡ true
unfolding build_source_job
build_source_job-is_there v sj job target e t =
    let (_, _, e1) = bind-ok (check_name v sj) e in
    let (_, _, e2) = bind-ok (validate_pod_snapshot_template_metadata v sj) e1 in
    let (target', t', e3) = bind-ok (snapshot_job_target_container sj) e2 in
    let (injected, _, e4) = bind-ok (inject_non_target_artifact_contract v _ _ target' sj.uid) e3 in
    subst (λ x. is_there (find_container job.template.spec.containers x) ≡ true)
      (ok-injective (sym t' ∙ t))
      (new_source_job-is_there injected (options_of v sj target') job e4)

-- What is asked for has the labels of what is built, and the target.
pub desired_source_job-keeps :
    (v : JobValidation) (sj : SnapshotJob) (desired : Job)
    → desired_source_job v sj ≡ ok desired
    → (built : Job) × (target : Str) × (build_source_job v sj ≡ ok built)
      × (snapshot_job_target_container sj ≡ ok target)
      × (desired.template.labels ≡ built.template.labels)
      × (is_there (find_container desired.template.spec.containers target) ≡ true)
unfolding desired_source_job
desired_source_job-keeps v sj desired e =
    let (enabled, _, e1) =
      bind-ok (parse_cu_interpose_annotation sj.spec.pod_template.annotations) e in
    let (built, b, e2) = bind-ok (build_source_job v sj) e1 in
    let (target, t, e3) = bind-ok (snapshot_job_target_container sj) e2 in
    elim (if-cases enabled e3) [
      | inl (_, e4) ↦
          let (template, s, e5) = bind-ok (shape_cu_interpose_capture v built.template target) e4 in
          let (labels, there) =
            shape_cu_interpose_capture-keeps v built.template template target s in
          let same : template ≡ desired.template = ap (λ x. x.template) (ok-injective e5) in
          (
            built,
            target,
            b,
            t,
            ap (λ x. x.labels) (sym same) ∙ labels,
            subst (λ x. is_there (find_container x.spec.containers target) ≡ true) same there,
          )
      | inr (_, e4) ↦
          let same : built.template ≡ desired.template = ap (λ x. x.template) (ok-injective e4) in
          (
            built,
            target,
            b,
            t,
            ap (λ x. x.labels) (sym same),
            subst (λ x. is_there (find_container x.spec.containers target) ≡ true) same
                (build_source_job-is_there v sj built target b t),
          )
    ]

-- What is asked for carries the two labels that name the SnapshotJob.
pub owned-lookups :
    (v : JobValidation) (sj : SnapshotJob) (labels : List (Str × Str))
    → (lookup owner_label (owned v sj labels) ≡ some sj.name)
      × (lookup owner_uid_label (owned v sj labels) ≡ some sj.uid)
owned-lookups v sj labels = (
  lookup-store_ne owner_uid_label sj.uid owner_label (store owner_label sj.name labels)
        (unfold str_eq in refl)
      ∙ lookup-store owner_label sj.name labels,
  lookup-store owner_uid_label sj.uid (store owner_label sj.name labels),
)

inject_requested-labels :
    (v : JobValidation) (template : PodTemplate) (policy : Option (List Str)) (target uid : Str)
    (annotations : Option (List (Str × Str))) {result : PodTemplate}
    → inject_requested v template policy target uid annotations ≡ ok result
    → result.labels ≡ template.labels
inject_requested-labels v template policy target uid none e =
    sym (ap (λ t. t.labels) (ok-injective e))
inject_requested-labels v template policy target uid (some annotations) e =
    let (_, _, e1) = bind-ok (non_target_artifact_containers v.names annotations) e in
    let (_, _, e2) = bind-ok (same_count policy _) e1 in
    let (_, _, e3) = bind-ok (non_target_artifact_subdir v.names uid) e2 in
    let (_, _, e4) = bind-ok (inject_names target uid _ _ template.spec.containers) e3 in
    sym (ap (λ t. t.labels) (ok-injective e4))

inject_non_target_artifact_contract-labels :
    (v : JobValidation) (template : PodTemplate) (policy : Option (List Str)) (target uid : Str)
    {result : PodTemplate}
    → inject_non_target_artifact_contract v template policy target uid ≡ ok result
    → result.labels ≡ template.labels
unfolding inject_non_target_artifact_contract
inject_non_target_artifact_contract-labels v template policy target uid e =
    let (annotations, _, e1) = bind-ok (requested policy template.annotations) e in
    inject_requested-labels v template policy target uid annotations e1

new_source_job-labels :
    (template : PodTemplate) (opts : SourceJobOptions) (job : Job)
    → new_source_job template opts ≡ ok job
    → job.template.labels ≡ template.labels
unfolding new_source_job
new_source_job-labels template opts job e =
    let (_, _, e1) = bind-ok (refuse_annotation template.annotations _) e in
    let (_, _, e2) = bind-ok (refuse_annotation template.annotations _) e1 in
    let (_, _, e3) = bind-ok (shape_containers opts template.spec.containers) e2 in
    sym (ap (λ x. x.template.labels) (ok-injective e3))

pub build_source_job-labels :
    (v : JobValidation) (sj : SnapshotJob) (job : Job)
    → build_source_job v sj ≡ ok job
    → job.template.labels ≡ owned v sj sj.spec.pod_template.labels
unfolding build_source_job
build_source_job-labels v sj job e =
    let (_, _, e1) = bind-ok (check_name v sj) e in
    let (_, _, e2) = bind-ok (validate_pod_snapshot_template_metadata v sj) e1 in
    let (target, _, e3) = bind-ok (snapshot_job_target_container sj) e2 in
    let (injected, i, e4) = bind-ok (inject_non_target_artifact_contract v _ _ target sj.uid) e3 in
    new_source_job-labels injected (options_of v sj target) job e4
    ∙ inject_non_target_artifact_contract-labels v _ _ target sj.uid i

-- Labels that were asked for and that are kept, whatever else is added to them.
abbrev pub Keeps : List (Str × Str) → List (Str × Str) → Type 0
Keeps labels asked =
    (key value : Str) → lookup key asked ≡ some value → lookup key labels ≡ some value

pub Keeps-owner :
    (v : JobValidation) (sj : SnapshotJob) (base asked labels : List (Str × Str))
    → asked ≡ owned v sj base
    → Keeps labels asked
    → (lookup owner_label labels ≡ some sj.name) × (lookup owner_uid_label labels ≡ some sj.uid)
Keeps-owner v sj base asked labels own keeps =
    let (name, uid) = owned-lookups v sj base in
    (
      keeps owner_label sj.name (ap (lookup owner_label) own ∙ name),
      keeps owner_uid_label sj.uid (ap (lookup owner_uid_label) own ∙ uid),
    )
