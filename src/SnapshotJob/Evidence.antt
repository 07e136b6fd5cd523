-- ===== src/SnapshotJob/Evidence.antt =====
-- What the calls of a reconciliation show, for the writes that cannot be taken back.
use snapshot.Prelude.{Str, ◌≡◌, ◌⊎◌, inl, inr, true, some, List, [], ◌∷◌}
use mathlib.Core.List.{Mem, mem-cons_of_mem}
use snapshot.Kube.Prog.{Trace}
use snapshot.Kube.Condition.{Meta}
use snapshot.Kube.Objects.{found, error, not_found, Pod, PodSnapshot}
use snapshot.PodContract.Types.{ok}
use snapshot.SnapshotJob.Types.{Job, SnapshotJob, SnapshotJobObservation}
use snapshot.SnapshotJob.Client.{
  Op, Ans, get_job, read_job, get_pod_snapshot, read_pod_snapshot, list_pods, list_read_pods,
}
use snapshot.SnapshotJob.Terminal.{
  source_job_active, source_job_complete, classify_source_job_terminal, is_pod_snapshot_succeeded,
  expected_helpers, expected_sidecars, helpers_done, classify_helper_pod,
}
use snapshot.SnapshotJob.Precedence.{failed, end_of}
use snapshot.SnapshotJob.Build.{JobValidation, snapshot_job_target_container, desired_source_job}
use snapshot.SnapshotJob.Identity.{
  is_controlled_by, controlled_pod_for_job, validate_pod_snapshot_ownership,
}
use snapshot.SnapshotJob.Resources.{key_of}

-- A call was made and answered so.
abbrev pub Answered : (o : Op) → Ans o → Trace Op Ans → Type 0
Answered o x t = Mem {A = (o : Op) × Ans o} (o, x) t

module _ (m : Meta) (v : JobValidation) (sj : SnapshotJob) where
  -- A Job that was read at the name of the source Job, is controlled by the SnapshotJob, and has
  -- the UID that is recorded.
  pub record IsSourceJob (job : Job) (t : Trace Op Ans) : Type 0 where
    pub seen :
        Answered (get_job (key_of sj)) (found job) t ⊎ Answered (read_job (key_of sj)) (found job) t
    pub controlled : is_controlled_by job.controller sj.uid ≡ true
    pub recorded : job.uid ≡ sj.status.source_job_uid

  -- A Job that has completed, or that has failed where every container beside the target is
  -- verified on a pod that bypassed the cache, or where there is none.
  pub data HasFinished (job : Job) (t : Trace Op Ans) : Type 0 where
    by_completion : classify_source_job_terminal job ≡ source_job_complete → HasFinished job t
    alone :
        {target : Str}
        → end_of (classify_source_job_terminal job) ≡ failed
        → snapshot_job_target_container sj ≡ ok target
        → expected_helpers sj.spec.pod_template.spec.containers target ≡ []
        → expected_sidecars sj.spec.pod_template.spec.init_containers ≡ []
        → HasFinished job t
    by_helpers :
        {target : Str} {pods : List Pod} {pod : Pod}
        → end_of (classify_source_job_terminal job) ≡ failed
        → snapshot_job_target_container sj ≡ ok target
        → Answered (list_read_pods job) (found pods) t
        → controlled_pod_for_job pods job ≡ ok (some pod)
        → classify_helper_pod pod
            (expected_helpers sj.spec.pod_template.spec.containers target)
            (expected_sidecars sj.spec.pod_template.spec.init_containers)
          ≡ helpers_done
        → HasFinished job t

  -- A PodSnapshot that was read at the name of the SnapshotJob and belongs to it.
  pub record IsCapture (snap : PodSnapshot) (t : Trace Op Ans) : Type 0 where
    pub seen :
        Answered (get_pod_snapshot (key_of sj)) (found snap) t
        ⊎ Answered (read_pod_snapshot (key_of sj)) (found snap) t
    pub belongs : validate_pod_snapshot_ownership sj snap ≡ ok tt

  -- The observation of a source Job that has finished after its capture succeeded.
  pub record Finished (o : SnapshotJobObservation) (t : Trace Op Ans) : Type 0 where
    pub the_job : Job
    pub the_snapshot : PodSnapshot
    pub of_job : o.job ≡ some the_job
    pub of_snapshot : o.pod_snapshot ≡ some the_snapshot
    pub is_source : IsSourceJob the_job t
    pub is_capture : IsCapture the_snapshot t
    pub succeeded : is_pod_snapshot_succeeded m the_snapshot ≡ true
    pub has_finished : HasFinished the_job t

  -- A PodSnapshot is created for the only pod that an active source Job controls, with its UID.
  pub record IsPinned (snap : PodSnapshot) (t : Trace Op Ans) : Type 0 where
    pub the_job : Job
    pub the_pod : Pod
    pub the_pods : List Pod
    pub is_source : IsSourceJob the_job t
    pub is_active : classify_source_job_terminal the_job ≡ source_job_active
    pub listed : Answered (list_pods the_job) (found the_pods) t
    pub only : controlled_pod_for_job the_pods the_job ≡ ok (some the_pod)
    pub named : snap.name ≡ sj.name
    pub pinned : snap.source.uid ≡ the_pod.uid

  -- A Job is created where none is recorded and none is in the cache, as it is built, and with the
  -- SnapshotJob as its controller.
  pub record IsFresh (job : Job) (t : Trace Op Ans) : Type 0 where
    pub absent : Answered (get_job (key_of sj)) (error not_found) t
    pub unrecorded : sj.status.source_job_uid ≡ []
    pub built :
        (desired : Job) × (desired_source_job v sj ≡ ok desired)
        × (job ≡ record desired { controller = some sj.uid })

  module _ (t : Trace Op Ans) (o : Op) (x : Ans o) where
    pub grow-IsSourceJob : {job : Job} → IsSourceJob job t → IsSourceJob job ((o, x) ∷ t)
    grow-IsSourceJob h = record {
      seen = elim h.seen [ inl s ↦ inl (mem-cons_of_mem _ s) | inr s ↦ inr (mem-cons_of_mem _ s) ];
      controlled = h.controlled;
      recorded = h.recorded;
    }

    pub grow-IsCapture : {snap : PodSnapshot} → IsCapture snap t → IsCapture snap ((o, x) ∷ t)
    grow-IsCapture h = record {
      seen = elim h.seen [ inl s ↦ inl (mem-cons_of_mem _ s) | inr s ↦ inr (mem-cons_of_mem _ s) ];
      belongs = h.belongs;
    }

    pub grow-HasFinished : {job : Job} → HasFinished job t → HasFinished job ((o, x) ∷ t)
    grow-HasFinished (by_completion e) = by_completion e
    grow-HasFinished (alone e a b c) = alone e a b c
    grow-HasFinished (by_helpers e a s b c) = by_helpers e a (mem-cons_of_mem _ s) b c

    pub grow-Finished : {ob : SnapshotJobObservation} → Finished ob t → Finished ob ((o, x) ∷ t)
    grow-Finished h = record {
      the_job = h.the_job;
      the_snapshot = h.the_snapshot;
      of_job = h.of_job;
      of_snapshot = h.of_snapshot;
      is_source = grow-IsSourceJob h.is_source;
      is_capture = grow-IsCapture h.is_capture;
      succeeded = h.succeeded;
      has_finished = grow-HasFinished h.has_finished;
    }
