-- ===== src/SnapshotJob/Resolve.antt =====
-- The ways in which the capture of an accepted source Job is resolved.
use snapshot.Prelude.{Str, ◌≡◌, refl, Option, none, some, List, [], ◌∷◌, str_eq}
use snapshot.Kube.Prog.{Trace, ends, calls, Holds-if}
use snapshot.Kube.Condition.{Meta}
use snapshot.Kube.Objects.{Reply, Pod, PodSnapshot}
use snapshot.SnapshotJob.Types.{Job, SnapshotJob, SnapshotJobFailure}
use snapshot.SnapshotJob.Client.{Op, Ans, list_read_pods, Action}
use snapshot.SnapshotJob.Terminal.{
  SourceJobState, source_job_active, source_job_complete, source_job_failed,
  source_job_deadline_exceeded, classify_source_job_terminal,
}
use snapshot.SnapshotJob.Build.{JobValidation}
use snapshot.SnapshotJob.Evidence.{IsSourceJob, IsCapture, grow-IsSourceJob, grow-IsCapture}
use snapshot.SnapshotJob.Resources.{
  Observed, Lookup, owned, missing, conflicting, unreadable, read_owned_pod_snapshot,
  find_owned_pod_snapshot, read_authoritative_owned_pod_snapshot, read_source_pod,
  validate_pod_snapshot_for_adoption, observe_unless, with_pod_snapshot, confirmed_absent,
  without_pod_snapshot, by_lookup, is_recorded, recorded_lookup, after_cached,
  reconcile_pod_snapshot_resources,
}
use snapshot.SnapshotJob.Finish.{source_pod-Holds, observe_pod_snapshot-Fit}
use snapshot.SnapshotJob.Children.{
  Fine, no_finish, LookupFits, cached-LookupFits, read-LookupFits,
  create_pod_snapshot_for_source_job-Fine,
}

module _ (m : Meta) (v : JobValidation) (sj : SnapshotJob)
    (Deletes : Trace Op Ans → Job → Str → Type 0) (job : Job) where
  abbrev Ok : Trace Op Ans → Action Observed → Type 0
  Ok t p = Fine m v sj Deletes t p

  with_pod_snapshot-Ok :
      (snap : PodSnapshot) (t : Trace Op Ans)
      → IsSourceJob m v sj job t
      → IsCapture m v sj snap t
      → Ok t (with_pod_snapshot m v sj job snap)
  unfolding with_pod_snapshot read_source_pod
  with_pod_snapshot-Ok snap t j c =
      Holds-if (str_eq sj.status.pod_snapshot_uid [])
        (λ _. calls tt (λ reply.
          source_pod-Holds m v sj Deletes job _ reply (λ _ _. tt) (λ _. tt)
            (λ pods p _ _. adopted reply (validate_pod_snapshot_for_adoption m v sj snap p))))
        (λ _. observe_pod_snapshot-Fit m v sj Deletes job snap t j c)
    where
      adopted :
          (reply : Reply (List Pod)) (f : Option SnapshotJobFailure)
          → Ok ((list_read_pods job, reply) ∷ t) (observe_unless m v sj job snap f)
      adopted reply (some f) = ends (no_finish m v sj Deletes)
      adopted reply none =
          observe_pod_snapshot-Fit m v sj Deletes job snap _ (grow-IsSourceJob m v sj t _ reply j)
            (grow-IsCapture m v sj t _ reply c)

  by_lookup-Ok :
      (l : Lookup) (t : Trace Op Ans)
      → IsSourceJob m v sj job t
      → LookupFits m v sj Deletes t l
      → Ok t (by_lookup m v sj job l)
  unfolding by_lookup read_authoritative_owned_pod_snapshot
  by_lookup-Ok (owned snap) t j c = with_pod_snapshot-Ok snap t j c
  by_lookup-Ok (conflicting cause) t j c = ends (no_finish m v sj Deletes)
  by_lookup-Ok (unreadable e) t j c = ends tt
  by_lookup-Ok missing t j c = by_state (classify_source_job_terminal job) refl
    where
      absent :
          (l : Lookup) (s : Trace Op Ans)
          → IsSourceJob m v sj job s
          → LookupFits m v sj Deletes s l
          → Ok s (confirmed_absent m v sj job l)
      absent missing s j c = ends (no_finish m v sj Deletes)
      absent (conflicting cause) s j c = ends (no_finish m v sj Deletes)
      absent (unreadable e) s j c = ends tt
      absent (owned snap) s j c = with_pod_snapshot-Ok snap s j c

      by_state :
          (x : SourceJobState)
          → classify_source_job_terminal job ≡ x
          → Ok t (without_pod_snapshot m v sj job x)
      by_state (source_job_failed f) e = ends (no_finish m v sj Deletes)
      by_state (source_job_deadline_exceeded f) e = ends (no_finish m v sj Deletes)
      by_state source_job_active e =
          create_pod_snapshot_for_source_job-Fine m v sj Deletes job t j e
      by_state source_job_complete e = calls tt (λ reply.
          absent _ _ (grow-IsSourceJob m v sj t _ reply j) (read-LookupFits m v sj Deletes reply t))

  after_cached-Ok :
      (l : Lookup) (t : Trace Op Ans)
      → IsSourceJob m v sj job t
      → LookupFits m v sj Deletes t l
      → Ok t (after_cached m v sj job l)
  unfolding read_authoritative_owned_pod_snapshot
  after_cached-Ok (owned snap) t j c = by_lookup-Ok (owned snap) t j c
  after_cached-Ok (conflicting cause) t j c = by_lookup-Ok (conflicting cause) t j c
  after_cached-Ok (unreadable e) t j c = by_lookup-Ok (unreadable e) t j c
  after_cached-Ok missing t j c =
      Holds-if (is_recorded m v sj)
        (λ _. calls tt (λ reply.
          recorded _ _ (grow-IsSourceJob m v sj t _ reply j)
            (read-LookupFits m v sj Deletes reply t)))
        (λ _. by_lookup-Ok missing t j tt)
    where
      recorded :
          (l : Lookup) (s : Trace Op Ans)
          → IsSourceJob m v sj job s
          → LookupFits m v sj Deletes s l
          → Ok s (recorded_lookup m v sj job l)
      recorded missing s j c = ends (no_finish m v sj Deletes)
      recorded (owned snap) s j c = by_lookup-Ok (owned snap) s j c
      recorded (conflicting cause) s j c = by_lookup-Ok (conflicting cause) s j c
      recorded (unreadable e) s j c = by_lookup-Ok (unreadable e) s j c

  pub reconcile_pod_snapshot_resources-Ok :
      (t : Trace Op Ans)
      → IsSourceJob m v sj job t
      → Ok t (reconcile_pod_snapshot_resources m v sj job)
  unfolding reconcile_pod_snapshot_resources find_owned_pod_snapshot
  reconcile_pod_snapshot_resources-Ok t j = calls tt (λ reply.
      after_cached-Ok (read_owned_pod_snapshot sj reply) _ (grow-IsSourceJob m v sj t _ reply j)
        (cached-LookupFits m v sj Deletes reply t))
