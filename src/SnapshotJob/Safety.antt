-- ===== src/SnapshotJob/Safety.antt =====
-- The writes of Reconcile that cannot be taken back: the deletion of the source Job, and what is
-- created.
use snapshot.Prelude.{
  ℕ, Str, ◌≡◌, refl, sym, ◌∙◌, subst, ◌⊎◌, inl, inr, Bool, true, false, not, ◌&&◌, ◌||◌, Option,
  none, some, [], ◌∷◌, str_eq, str_eq_iff, if◌then◌else◌, Bool-cases, arith,
}
use mathlib.Core.List.{mem-cons_self, mem-cons_of_mem}
use snapshot.Kube.Prog.{Trace, Holds, ends, calls, Holds-if, Holds-bind, Holds-mono, ◌>>=◌}
use snapshot.Kube.Condition.{Meta, MetaLaws, completed, failed}
use snapshot.Kube.Objects.{Reply, found, error, ApiError, PodSnapshot}
use snapshot.SnapshotJob.Types.{
  Job, SnapshotJob, SnapshotJobStatus, SnapshotJobFailure, SnapshotJobObservation,
}
use snapshot.SnapshotJob.Client.{
  Op, Ans, get_job, create_job, delete_job, create_pod_snapshot, patch_status, go, retry, broken,
  Action, Outcome,
}
use snapshot.SnapshotJob.Terminal.{is_pod_snapshot_succeeded, is_pod_snapshot_failed}
use snapshot.SnapshotJob.Status.{is_on, derive_snapshot_job_status}
use snapshot.SnapshotJob.Phases.{
  Phase, ongoing, finished, broken, is_finished, is_broken, phase_of, phase, IsOpen,
  derive_snapshot_job_status-HasPhase,
}
use snapshot.SnapshotJob.Build.{JobValidation}
use snapshot.SnapshotJob.Identity.{is_controlled_by}
use snapshot.SnapshotJob.Evidence.{Answered, Finished, IsPinned, IsFresh, grow-Finished}
use snapshot.SnapshotJob.Resources.{Observed, key_of}
use snapshot.SnapshotJob.Reconcile.{
  is_ours, delete_found, ensure_job_deleted, is_snapshot_job_failed, is_snapshot_job_completed,
  patch_snapshot_job_status, after_patch, report, write_observed, reconcile_found,
}
use snapshot.SnapshotJob.Finish.{Permitted, Fits}
use snapshot.SnapshotJob.Accept.{reconcile_resources-Ok}

or_false : (a b : Bool) → (a || b) ≡ false → (a ≡ false) × (b ≡ false)
or_false true b e = grind arith
or_false false b e = (refl, e)

abbrev pub AnyEnd : Trace Op Ans → Outcome → Type 0
AnyEnd t o = Unit

module _ (m : Meta) (v : JobValidation) (deep_equal : SnapshotJobStatus → SnapshotJobStatus → Bool)
    (sj : SnapshotJob) where
  -- A status that Reconcile derived from the observation of a source Job that has finished, and
  -- that is stored: it was patched, or it is the one that was read.
  pub record IsReached (status : SnapshotJobStatus) (t : Trace Op Ans) : Type 0 where
    pub observed : SnapshotJobObservation
    pub time : ℕ
    pub is_derived : status ≡ derive_snapshot_job_status m sj.status observed time
    pub has_finished : Finished m v sj observed t
    pub is_stored : (deep_equal sj.status status ≡ true) ⊎ Answered (patch_status sj status) none t

  -- The source Job is deleted on a status that has Completed and not Failed, that was read or is
  -- reached; it is the Job that was just read, controlled by the SnapshotJob, and with the UID
  -- that the status records, if it records one; and only if it still has that UID.
  pub record MayDelete (t : Trace Op Ans) (job : Job) (uid : Str) : Type 0 where
    pub status : SnapshotJobStatus
    pub alive : sj.deleting ≡ false
    pub is_completed : is_on m status completed ≡ true
    pub not_failed : is_on m status failed ≡ false
    pub is_known : (status ≡ sj.status) ⊎ IsReached status t
    pub seen : Answered (get_job (key_of sj)) (found job) t
    pub controlled : is_controlled_by job.controller sj.uid ≡ true
    pub recorded : (status.source_job_uid ≡ []) ⊎ (job.uid ≡ status.source_job_uid)
    pub conditional : uid ≡ job.uid

  abbrev pub Deletes : Trace Op Ans → Op → Type 0
  Deletes t (delete_job job uid) = MayDelete t job uid
  Deletes t _ = Unit

module _ (m : Meta) (v : JobValidation) (sj : SnapshotJob) where
  abbrev pub CreatesOwn : Trace Op Ans → Op → Type 0
  CreatesOwn t (create_job job) = IsFresh m v sj job t
  CreatesOwn t (create_pod_snapshot snap) = IsPinned m v sj snap t
  CreatesOwn t _ = Unit

module _ (m : Meta) (laws : MetaLaws m) (v : JobValidation)
    (deep_equal : SnapshotJobStatus → SnapshotJobStatus → Bool) (sj : SnapshotJob) where
  abbrev Safe : Trace Op Ans → Action Outcome → Type 0
  Safe t p = Holds (Permitted m v sj (MayDelete m v deep_equal sj)) AnyEnd t p

  grow-IsReached :
      {status : SnapshotJobStatus} (t : Trace Op Ans) (o : Op) (x : Ans o)
      → IsReached m v deep_equal sj status t
      → IsReached m v deep_equal sj status ((o, x) ∷ t)
  grow-IsReached t o x h = record {
    observed = h.observed;
    time = h.time;
    is_derived = h.is_derived;
    has_finished = grow-Finished m v sj t o x h.has_finished;
    is_stored = elim h.is_stored [ inl e ↦ inl e | inr s ↦ inr (mem-cons_of_mem _ s) ];
  }

  ours :
      (status : SnapshotJobStatus) (job : Job)
      → (str_eq status.source_job_uid [] || str_eq job.uid status.source_job_uid) ≡ true
      → (status.source_job_uid ≡ []) ⊎ (job.uid ≡ status.source_job_uid)
  ours status job e = elim (Bool-cases (str_eq status.source_job_uid [])) [
    | inl u ↦ inl ((str_eq_iff _ _).0 u)
    | inr u ↦ inr ((str_eq_iff _ _).0 (ground (arith, e, u)))
  ]

  -- The conditions under which a status ends in the deletion of the Job.
  ensure_job_deleted-Safe :
      (status : SnapshotJobStatus) (t : Trace Op Ans)
      → sj.deleting ≡ false
      → is_on m status completed ≡ true
      → is_on m status failed ≡ false
      → (status ≡ sj.status) ⊎ IsReached m v deep_equal sj status t
      → Safe t (ensure_job_deleted m v (record sj { status = status }))
  unfolding ensure_job_deleted
  ensure_job_deleted-Safe status t a c f known = calls tt by_reply
    where
      by_reply :
          (r : Reply Job)
          → Safe ((get_job (key_of sj), r) ∷ t) (delete_found m v (record sj { status = status }) r)
      by_reply (error e) = ends tt
      by_reply (found job) =
          Holds-if (not (is_controlled_by job.controller sj.uid)) (λ _. ends tt)
            (λ h.
              Holds-if (not (is_ours m v (record sj { status = status }) job))
                (λ _. calls tt (λ _. ends tt))
                (λ g.
                  calls
                    (record {
                      status = status;
                      alive = a;
                      is_completed = c;
                      not_failed = f;
                      is_known = elim known [
                        | inl e ↦ inl e
                        | inr r ↦ inr (grow-IsReached t _ (found job) r)
                      ];
                      seen = mem-cons_self;
                      controlled = ground (arith, h);
                      recorded = ours status job (ground (arith, g));
                      conditional = refl;
                    })
                    (λ _. ends tt)))

  IsFinished-done :
      (f : Option SnapshotJobFailure) (snap : Option PodSnapshot) (done : Bool)
      → is_finished (phase_of m f snap done) ≡ true
      → done ≡ true
  IsFinished-done f snap true e = refl
  IsFinished-done (some f) snap false e = grind arith
  IsFinished-done none none false e = grind arith
  IsFinished-done none (some snap) false e =
      never (is_pod_snapshot_failed m snap) (is_pod_snapshot_succeeded m snap) e
    where
      never :
          (x y : Bool)
          → is_finished (if x then broken else if y && false then finished else ongoing) ≡ true
          → false ≡ true
      never true y e = e
      never false true e = e
      never false false e = e

  abbrev Done : SnapshotJobObservation → Trace Op Ans → Type 0
  Done o t = o.source_job_finished ≡ true → Finished m v sj o t

  grow-Done :
      (o : SnapshotJobObservation) (t : Trace Op Ans) (p : Op) (x : Ans p)
      → Done o t
      → Done o ((p, x) ∷ t)
  grow-Done o t p x h e = grow-Finished m v sj t p x (h e)

  module _ (o : SnapshotJobObservation) (wait : Option ℕ) (time : ℕ) (alive : sj.deleting ≡ false)
      (undecided : IsOpen m sj.status) where
    abbrev desired : SnapshotJobStatus
    desired = derive_snapshot_job_status m sj.status o time

    -- Completed on the derived status means that the observation has finished.
    after_patch-Safe :
        (e : Option ApiError) (t : Trace Op Ans)
        → Done o t
        → (e ≡ none
            → (deep_equal sj.status desired ≡ true) ⊎ Answered (patch_status sj desired) none t)
        → Safe t (after_patch m v deep_equal sj desired wait e)
    after_patch-Safe (some e) t h stored = ends tt
    after_patch-Safe none t h stored =
        Holds-if (is_on m desired completed)
          (λ c.
            let has = derive_snapshot_job_status-HasPhase m laws sj.status o time undecided in
            let fin : is_finished (phase m o) ≡ true = sym has.completed_flag ∙ c in
            ensure_job_deleted-Safe desired t alive c (has.failed_flag ∙ not_broken (phase m o) fin)
              (inr (record {
                observed = o;
                time = time;
                is_derived = refl;
                has_finished =
                    h (IsFinished-done o.failure o.pod_snapshot o.source_job_finished fin);
                is_stored = stored refl;
              })))
          (λ _. ends tt)
      where
        not_broken : (p : Phase) → is_finished p ≡ true → is_broken p ≡ false
        not_broken finished e = refl
        not_broken ongoing e = refl
        not_broken broken e = sym e

    patch_snapshot_job_status-Safe :
        (t : Trace Op Ans)
        → Done o t
        → Safe t (
            patch_snapshot_job_status m v deep_equal sj desired >>= λ e.
            after_patch m v deep_equal sj desired wait e)
    unfolding patch_snapshot_job_status
    patch_snapshot_job_status-Safe t h = elim (Bool-cases (deep_equal sj.status desired)) [
      | inl b ↦ rw b (after_patch-Safe none t h (λ _. inl b))
      | inr b ↦ rw b (
          calls tt (λ e. after_patch-Safe e _ (grow-Done o t _ e h) (λ n. inr (
            subst (λ x. Answered (patch_status sj desired) x ((patch_status sj desired, e) ∷ t)) n
              mem-cons_self))))
    ]

  report-Safe :
      (o : SnapshotJobObservation) (f : Option SnapshotJobFailure) (p : Action Outcome)
      → ((s : Trace Op Ans) → Done o s → Safe s p)
      → (t : Trace Op Ans) → Done o t
      → Safe t (report m v deep_equal sj f >>= λ _. p)
  report-Safe o none p h t g = h t g
  report-Safe o (some f) p h t g = calls tt (λ x. h _ (grow-Done o t _ x g))

  -- What follows the observation: nothing is deleted before Completed is stored.
  write_observed-Safe :
      (r : Observed) (t : Trace Op Ans)
      → sj.deleting ≡ false
      → IsOpen m sj.status
      → Fits m v sj (MayDelete m v deep_equal sj) t r
      → Safe t (write_observed m v deep_equal sj r)
  write_observed-Safe (retry step e) t a h fits = ends tt
  write_observed-Safe (broken cause) t a h fits = ends tt
  write_observed-Safe (go (o, wait)) t a h fits =
      report-Safe o o.failure _
        (λ s g.
          calls tt
            (λ time. patch_snapshot_job_status-Safe o wait time a h _ (grow-Done o s _ time g)))
        t fits

  reconcile_found-Safe : Safe [] (reconcile_found m v deep_equal sj)
  unfolding reconcile_found
  reconcile_found-Safe =
      Holds-if (sj.deleting || is_snapshot_job_failed m v sj) (λ _. ends tt)
        (λ h.
          let (alive, not_failed) = or_false sj.deleting (is_snapshot_job_failed m v sj) h in
          Holds-if (is_snapshot_job_completed m v sj)
            (λ c. ensure_job_deleted-Safe sj.status [] alive c not_failed (inl refl))
            (λ c.
              Holds-bind (λ _. Unit) (λ _ _ _ _. tt) tt
                (reconcile_resources-Ok m v sj (MayDelete m v deep_equal sj))
                (λ s r _ fits. write_observed-Safe r s alive (c, not_failed) fits)))

  -- Reconcile deletes a Job only on a status with Completed and without Failed, that was read, or
  -- that it derived from the observation of a finished source Job and then patched, or found equal
  -- to the one that was read. What was
  -- deleted is the Job that it just read, controlled by the SnapshotJob, with the UID that the
  -- status records if it records one, and only if it still has that UID. A finished source Job
  -- has a PodSnapshot that was read, belongs to the SnapshotJob and succeeded; it has completed,
  -- or it has failed and every container beside the target is verified on a pod read past the
  -- cache, or there is none.
  pub reconcile_found-DeletesFinished :
      Holds (Deletes m v deep_equal sj) AnyEnd [] (reconcile_found m v deep_equal sj)
  reconcile_found-DeletesFinished = Holds-mono allowed reconcile_found-Safe
    where
      allowed :
          (t : Trace Op Ans) (o : Op)
          → Permitted m v sj (MayDelete m v deep_equal sj) t o
          → Deletes m v deep_equal sj t o
      allowed t (delete_job job uid) h = h
      allowed t _ h = tt

  -- Reconcile creates a Job only where none is recorded and none was found, as it is built and
  -- with the SnapshotJob as its controller; it creates a PodSnapshot only under the name of the
  -- SnapshotJob and with the UID of the one pod that was listed under the control of a Job that
  -- was read, is active and controlled by the SnapshotJob, and has the recorded UID.
  pub reconcile_found-CreatesOwn :
      Holds (CreatesOwn m v sj) AnyEnd [] (reconcile_found m v deep_equal sj)
  reconcile_found-CreatesOwn = Holds-mono allowed reconcile_found-Safe
    where
      allowed :
          (t : Trace Op Ans) (o : Op)
          → Permitted m v sj (MayDelete m v deep_equal sj) t o
          → CreatesOwn m v sj t o
      allowed t (create_job job) h = h
      allowed t (create_pod_snapshot snap) h = h
      allowed t _ h = tt
