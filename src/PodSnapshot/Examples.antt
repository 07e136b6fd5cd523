-- ===== src/PodSnapshot/Examples.antt =====
-- The reconciler on sample objects, and the theorems about it at them.
use snapshot.Prelude.{◌≡◌, refl, true, false, none, some, [], ◌∷◌, codes}
use snapshot.Kube.Prog.{done, Holds}
use snapshot.Kube.Condition.{ready, is_true, text, is_status_condition_true}
use snapshot.Kube.Objects.{PodSnapshot, PodSnapshotContent}
use snapshot.Kube.Samples.{sample_meta, sample_meta_laws, sample_util}
use snapshot.PodSnapshot.Client.{stop}
use snapshot.PodSnapshot.Status.{mirrored_status, propagate_status, is_pod_snapshot_terminal}
use snapshot.PodSnapshot.Content.{PodSnapshotReconciler, capture_from_source_pod}
use snapshot.PodSnapshot.Mirror.{mirror_bound_content}
use snapshot.PodSnapshot.Reconcile.{reconcile_found, pod_snapshot_finalizer}
use snapshot.PodSnapshot.Conditions.{IsCoherent}
use snapshot.PodSnapshot.Writes.{StatusWrites, AnyEnd, reconcile_found-IsCoherent}
use snapshot.PodSnapshot.Failure.{FailsOnEvidence, mirror_bound_content-FailsOnEvidence}
use snapshot.PodSnapshot.Cascade.{ReleasesWhenGone, reconcile_found-ReleasesWhenGone}
use snapshot.PodSnapshot.Binding.{BindsOwn, capture_from_source_pod-BindsOwn}
use snapshot.PodSnapshot.Settled.{propagate_status_idem}

abbrev snap : PodSnapshot
snap = record {
  namespace = codes "ml";
  name = codes "llama";
  uid = codes "s-1";
  deleting = false;
  labels = [];
  annotations = [];
  finalizers = pod_snapshot_finalizer ∷ [];
  source = record { name = codes "llama-0"; uid = codes "p-1"; containers = codes "main" ∷ [] };
  containers = [];
  bound = some (codes "podsnapshotcontent-s-1");
  conditions = [];
}

abbrev content : PodSnapshotContent
content = record {
  name = codes "podsnapshotcontent-s-1";
  uid = codes "c-1";
  deleting = false;
  finalizers = [];
  node_label = codes "node-a";
  snapshot_ref = record { namespace = codes "ml"; name = codes "llama"; uid = codes "s-1" };
  source = record { name = codes "llama-0"; uid = codes "p-1"; containers = codes "main" ∷ [] };
  source_node = codes "node-a";
  storage = none;
  containers = [];
  conditions =
      record { kind = ready; status = is_true; reason = codes "Checkpointed"; message = text [] }
      ∷ [];
}

abbrev settings : PodSnapshotReconciler
settings = record { test_failure_annotation = []; store_id = codes "store" }

reconcile_found-IsCoherent_example :
    Holds
      (StatusWrites (IsCoherent sample_meta))
      AnyEnd
      []
      (reconcile_found sample_meta sample_util settings snap)
unfolding is_status_condition_true
reconcile_found-IsCoherent_example =
    reconcile_found-IsCoherent sample_meta sample_meta_laws sample_util settings snap refl

mirror_bound_content-FailsOnEvidence_example :
    Holds
      (FailsOnEvidence sample_meta snap)
      AnyEnd
      []
      (mirror_bound_content sample_meta snap (codes "podsnapshotcontent-s-1"))
unfolding is_pod_snapshot_terminal is_status_condition_true
mirror_bound_content-FailsOnEvidence_example =
    mirror_bound_content-FailsOnEvidence sample_meta snap sample_meta_laws refl
      (codes "podsnapshotcontent-s-1")

abbrev deleted : PodSnapshot
deleted = record snap { deleting = true }

reconcile_found-ReleasesWhenGone_example :
    Holds
      (ReleasesWhenGone sample_util deleted)
      AnyEnd
      []
      (reconcile_found sample_meta sample_util settings deleted)
reconcile_found-ReleasesWhenGone_example =
    reconcile_found-ReleasesWhenGone sample_util deleted sample_meta settings refl

capture_from_source_pod-BindsOwn_example :
    Holds
      (BindsOwn sample_meta settings snap)
      AnyEnd
      []
      (capture_from_source_pod sample_meta settings snap)
capture_from_source_pod-BindsOwn_example =
    capture_from_source_pod-BindsOwn sample_meta settings snap (λ e. cc)

propagate_status_idem_example :
    propagate_status sample_meta (mirrored_status sample_meta snap content).0 content ≡ done stop
propagate_status_idem_example = propagate_status_idem sample_meta sample_meta_laws snap content
