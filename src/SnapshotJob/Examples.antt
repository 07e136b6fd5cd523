-- ===== src/SnapshotJob/Examples.antt =====
-- Concrete inputs of the SnapshotJob model, with the theorems applied to them.
use snapshot.Prelude.{◌≡◌, refl, inl, true, false, ◌||◌, none, some, [], ◌∷◌, str_eq, codes}
use snapshot.Kube.Prog.{Holds}
use snapshot.Kube.Condition.{captured, ready, is_true, text, is_status_condition_true}
use snapshot.Kube.Samples.{sample_meta, sample_meta_laws}
use snapshot.Kube.Objects.{Pod, pod_running, pod_succeeded, PodSnapshot}
use snapshot.PodContract.Types.{ok, Container}
use snapshot.PodContract.Mappings.{lookup, store, delete}
use snapshot.PodContract.Parts.{control_volume}
use snapshot.PodContract.CuInterpose.{parse_cu_interpose_annotation}
use snapshot.PodSnapshot.Content.{copy_container_settings}
use snapshot.SnapshotJob.Types.{
  job_complete, PodTemplate, Job, SnapshotJobStatus, SnapshotJob, SnapshotJobObservation,
}
use snapshot.SnapshotJob.Terminal.{
  is_deadline, is_job_failed, is_failure_target, is_complete, classify_source_job_terminal,
}
use snapshot.SnapshotJob.Precedence.{end_of, end_by, has, classify_source_job_terminal-end}
use snapshot.SnapshotJob.SourceJob.{
  control_mount, ready_probe, new_source_job, at_first, shape_target, add_control_mount,
  add_control_volume, has_volume, has_mount, has_env, ensure_env, disable_sidecar_injection,
  ensure_localhost_seccomp_profile, refuse_annotation,
}
use snapshot.SnapshotJob.Build.{
  JobValidation, set_env, build_source_job, desired_source_job, build_pod_snapshot,
  snapshot_job_target_container, validate_pod_snapshot_template_metadata,
  inject_non_target_artifact_contract, pod_snapshot_template_metadata,
  has_checkpoint_readiness_probe,
}
use snapshot.SnapshotJob.Identity.{
  classify_existing_source_job, validate_pod_snapshot_ownership, pod_snapshot_has_expected_identity,
}
use snapshot.SnapshotJob.Reconcile.{reconcile_found}
use snapshot.SnapshotJob.Status.{is_on, derive_snapshot_job_status}
use snapshot.SnapshotJob.Phases.{HasPhase, phase, derive_snapshot_job_status-HasPhase}
use snapshot.SnapshotJob.Capture.{
  captured_flag, derive_snapshot_job_status-captured, derive_snapshot_job_status-BindsOnce,
}
use snapshot.Prelude.{Str, inr, List, ◌↔◌, ◌++◌, Bool-cases, arith}
use snapshot.SnapshotJob.Adoption.{classify_existing_source_job-created, build_pod_snapshot-belongs}
use snapshot.SnapshotJob.Safety.{
  AnyEnd, Deletes, CreatesOwn, reconcile_found-DeletesFinished, reconcile_found-CreatesOwn,
}

abbrev main : Container
main = record {
  name = codes "main";
  command = codes "serve" ∷ [];
  args = [];
  volume_mounts = [];
  env = [];
  startup_probe = none;
  readiness_probe = none;
  liveness_probe = none;
  security_context = none;
}

abbrev template : PodTemplate
template = record {
  labels = [];
  annotations = [];
  spec = record {
    containers = main ∷ [];
    init_containers = [];
    volumes = [];
    restart_policy = [];
    pod_seccomp = none;
  };
}

abbrev fresh : SnapshotJobStatus
fresh = record {
  source_job_uid = [];
  pod_snapshot_name = [];
  pod_snapshot_uid = [];
  started_at = none;
  completed_at = none;
  conditions = [];
}

abbrev llama : SnapshotJob
llama = record {
  namespace = codes "ml";
  name = codes "llama";
  uid = codes "sj-1";
  deleting = false;
  spec = record {
    pod_template = template;
    active_deadline_seconds = some 600;
    non_target_artifacts = none;
    pod_snapshot_template = record {
      metadata = none;
      target_containers = codes "main" ∷ [];
      containers = [];
    };
  };
  status = fresh;
}

abbrev validation : JobValidation
validation = record {
  names = record { is_dns1123_subdomain = λ _. []; is_dns1123_label = λ _. [] };
  is_label_value = λ _. [];
  validate_labels = λ _. [];
  validate_annotations = λ _. [];
  clean = λ path. path;
}

abbrev complete_job : Job
complete_job = record {
  namespace = codes "ml";
  name = codes "llama";
  uid = codes "j-1";
  controller = some (codes "sj-1");
  active_deadline_seconds = some 600;
  backoff_limit = 0;
  template = template;
  ready = some 0;
  conditions = record { kind = job_complete; status = is_true; reason = []; message = [] } ∷ [];
}

abbrev taken : PodSnapshot
taken = record {
  namespace = codes "ml";
  name = codes "llama";
  uid = codes "ps-1";
  deleting = false;
  labels = [];
  annotations = [];
  finalizers = [];
  source = record { name = codes "llama-0"; uid = codes "p-1"; containers = codes "main" ∷ [] };
  containers = [];
  bound = none;
  conditions =
      record { kind = ready; status = is_true; reason = codes "Checkpointed"; message = text [] }
      ∷ [];
}

abbrev finished_observation : SnapshotJobObservation
finished_observation = record {
  job = some complete_job;
  pod_snapshot = some taken;
  source_pod_missing = false;
  source_job_finished = true;
  failure = none;
}

derive_snapshot_job_status-HasPhase_example :
    HasPhase sample_meta none 100
      (phase sample_meta finished_observation)
      (derive_snapshot_job_status sample_meta fresh finished_observation 100)
unfolding is_status_condition_true
derive_snapshot_job_status-HasPhase_example =
    derive_snapshot_job_status-HasPhase sample_meta sample_meta_laws fresh finished_observation 100
      (refl, refl)

derive_snapshot_job_status-captured_example :
    is_on sample_meta
      (derive_snapshot_job_status sample_meta fresh finished_observation 100)
      captured
    ≡ captured_flag sample_meta (some taken) (is_on sample_meta fresh captured)
derive_snapshot_job_status-captured_example =
    derive_snapshot_job_status-captured sample_meta sample_meta_laws fresh finished_observation 100

derive_snapshot_job_status-BindsOnce_example :
    let after = derive_snapshot_job_status sample_meta fresh finished_observation 100 in
    (after.source_job_uid ≡ codes "j-1") × (after.pod_snapshot_uid ≡ codes "ps-1")
derive_snapshot_job_status-BindsOnce_example =
    derive_snapshot_job_status-BindsOnce sample_meta fresh finished_observation 100

classify_source_job_terminal-end_example :
    end_of (classify_source_job_terminal complete_job)
    ≡ end_by
        (has is_deadline complete_job.conditions)
        (has is_job_failed complete_job.conditions || has is_failure_target complete_job.conditions)
        (has is_complete complete_job.conditions)
classify_source_job_terminal-end_example = classify_source_job_terminal-end complete_job

reconcile_found-DeletesFinished_example :
    Holds
      (Deletes sample_meta validation (λ _ _. false) llama)
      AnyEnd
      []
      (reconcile_found sample_meta validation (λ _ _. false) llama)
reconcile_found-DeletesFinished_example =
    reconcile_found-DeletesFinished sample_meta sample_meta_laws validation (λ _ _. false) llama

reconcile_found-CreatesOwn_example :
    Holds
      (CreatesOwn sample_meta validation llama)
      AnyEnd
      []
      (reconcile_found sample_meta validation (λ _ _. false) llama)
reconcile_found-CreatesOwn_example =
    reconcile_found-CreatesOwn sample_meta sample_meta_laws validation (λ _ _. false) llama

abbrev llama_pod : Pod
llama_pod = record {
  namespace = codes "ml";
  name = codes "llama-0";
  uid = codes "p-1";
  node_name = codes "node-a";
  phase = pod_running;
  deletion_timestamp = none;
  controller = some (codes "j-1");
  annotations = [];
  container_statuses = [];
  init_container_statuses = [];
}

abbrev desired_snapshot : PodSnapshot
desired_snapshot = record taken {
  uid = [];
  labels =
      (codes "nvidia.com/snapshot-job-uid", codes "sj-1")
      ∷ (codes "nvidia.com/snapshot-job", codes "llama")
      ∷ [];
  conditions = [];
}

abbrev stored_snapshot : PodSnapshot
stored_snapshot = record desired_snapshot { uid = codes "ps-1" }

-- The same pod, read once it has ended.
abbrev ended_pod : Pod
ended_pod = record llama_pod { phase = pod_succeeded }

build_pod_snapshot-belongs_example :
    (stored_snapshot.source.name ≡ llama_pod.name)
    × (stored_snapshot.source.uid ≡ llama_pod.uid)
    × (validate_pod_snapshot_ownership llama stored_snapshot ≡ ok tt)
    × ((pod_snapshot_has_expected_identity stored_snapshot desired_snapshot ≡ true)
        ↔ ((ended_pod.name ≡ llama_pod.name) × (ended_pod.uid ≡ llama_pod.uid)))
unfolding build_pod_snapshot snapshot_job_target_container pod_snapshot_template_metadata
    validate_pod_snapshot_template_metadata store delete lookup copy_container_settings str_eq
build_pod_snapshot-belongs_example =
    build_pod_snapshot-belongs validation llama llama_pod ended_pod desired_snapshot
      desired_snapshot stored_snapshot refl refl (λ key value h. h) refl (inl refl)

abbrev desired_job : Job
desired_job = record {
  namespace = codes "ml";
  name = codes "llama";
  uid = [];
  controller = none;
  active_deadline_seconds = some 600;
  backoff_limit = 0;
  template = record {
    labels = desired_snapshot.labels;
    annotations =
        (codes "sidecar.istio.io/inject", codes "false")
        ∷ (codes "linkerd.io/inject", codes "disabled")
        ∷ [];
    spec = record {
      containers =
          record main {
            volume_mounts = control_mount (codes "main") ∷ [];
            env =
                set_env (codes "SNAPSHOT_CONTROL_DIR") (codes "/snapshot-control")
                ∷ set_env (codes "DYN_SNAPSHOT_CONTROL_DIR") (codes "/snapshot-control")
                ∷ [];
            readiness_probe = some ready_probe;
          }
          ∷ [];
      init_containers = [];
      volumes = control_volume ∷ [];
      restart_policy = codes "Never";
      pod_seccomp = some (record {
        kind = codes "Localhost";
        localhost_profile = some (codes "profiles/block-iouring.json");
      });
    };
  };
  ready = none;
  conditions = [];
}

asks : desired_source_job validation llama ≡ ok desired_job
unfolding desired_source_job parse_cu_interpose_annotation build_source_job
    validate_pod_snapshot_template_metadata snapshot_job_target_container
    inject_non_target_artifact_contract new_source_job refuse_annotation at_first shape_target
    add_control_mount add_control_volume has_volume has_mount has_env ensure_env
    disable_sidecar_injection ensure_localhost_seccomp_profile has_checkpoint_readiness_probe store
    delete lookup str_eq
asks = refl

-- The Job as it is stored: the API server adds labels of its own to the template.
abbrev stored_job : Job
stored_job = record desired_job {
  uid = codes "j-1";
  controller = some (codes "sj-1");
  template = record desired_job.template {
    labels =
        desired_job.template.labels
        ++ (codes "batch.kubernetes.io/controller-uid", codes "j-1")
          ∷ (codes "batch.kubernetes.io/job-name", codes "llama")
          ∷ [];
  };
}

lookup-append :
    (xs ys : List (Str × Str)) (key value : Str)
    → lookup key xs ≡ some value
    → lookup key (xs ++ ys) ≡ some value
unfolding lookup
lookup-append [] ys key value h = grind arith
lookup-append ((k, v) ∷ xs) ys key value h = elim (Bool-cases (str_eq k key)) [
  | inl e ↦ rw e (rw e at h)
  | inr e ↦ rw e (lookup-append xs ys key value (rw e at h))
]

classify_existing_source_job-created_example :
    classify_existing_source_job validation llama stored_job ≡ none
classify_existing_source_job-created_example =
    classify_existing_source_job-created validation llama desired_job stored_job asks refl
      (lookup-append desired_job.template.labels _) (λ name h. h) (inl refl)
