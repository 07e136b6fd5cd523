-- ===== src/SnapshotJob/Children.antt =====
-- The PodSnapshot that is created or adopted for the pod of the source Job.
use snapshot.Prelude.{
  Str, ◌≡◌, refl, sym, ap, subst, inl, inr, true, false, Option, none, some, List, ◌∷◌, Bool-cases,
}
use mathlib.Core.List.{mem-cons_self}
use snapshot.Kube.Prog.{Trace, ends, calls, done}
use snapshot.Kube.Condition.{Meta}
use snapshot.Kube.Result.{bind-ok, ok-injective}
use snapshot.Kube.Objects.{
  Reply, found, error, not_found, already_exists, other_error, Pod, PodSnapshot,
}
use snapshot.PodContract.Types.{Result, ok, refused, Check}
use snapshot.SnapshotJob.Types.{Job, SnapshotJob}
use snapshot.SnapshotJob.Client.{Op, Ans, get_pod_snapshot, read_pod_snapshot, list_pods, Action}
use snapshot.SnapshotJob.Terminal.{source_job_active, classify_source_job_terminal}
use snapshot.SnapshotJob.Build.{
  JobValidation, snapshot_job_target_container, pod_snapshot_template_metadata, build_pod_snapshot,
}
use snapshot.SnapshotJob.Identity.{
  controlled_pod_for_job, validate_pod_snapshot_ownership, pod_snapshot_has_expected_identity,
}
use snapshot.SnapshotJob.Evidence.{Answered, IsSourceJob, IsCapture, grow-IsSourceJob}
use snapshot.SnapshotJob.Resources.{
  Observed, key_of, Lookup, owned, missing, conflicting, unreadable, by_ownership, authoritatively,
  read_owned_pod_snapshot, find_owned_pod_snapshot, find_source_pod, adopt_existing,
  classify_existing_pod_snapshot, after_creation, create_built, create_for_pod,
  create_pod_snapshot_for_source_job,
}
use snapshot.SnapshotJob.Finish.{Fit, unfinished, source_pod-Holds}

-- What was built for a pod is named for the SnapshotJob and pins the pod.
build_pod_snapshot-pins :
    (v : JobValidation) (sj : SnapshotJob) (pod : Pod) (snap : PodSnapshot)
    → build_pod_snapshot v sj pod ≡ ok snap
    → (snap.name ≡ sj.name) × (snap.source.uid ≡ pod.uid)
unfolding build_pod_snapshot
build_pod_snapshot-pins v sj pod snap e =
    let (_, _, e1) = bind-ok (snapshot_job_target_container sj) e in
    let (_, _, e2) = bind-ok (pod_snapshot_template_metadata v sj) e1 in
    let same = ok-injective e2 in (sym (ap (λ s. s.name) same), sym (ap (λ s. s.source.uid) same))

module _ (m : Meta) (v : JobValidation) (sj : SnapshotJob)
    (Deletes : Trace Op Ans → Job → Str → Type 0) where
  abbrev pub Fine : Trace Op Ans → Action Observed → Type 0
  Fine t p = Fit m v sj Deletes t p

  abbrev pub no_finish : {X : Type 0} → false ≡ true → X
  no_finish = unfinished m v sj Deletes

  -- What is found is read and belongs to the SnapshotJob.
  abbrev pub LookupFits : Trace Op Ans → Lookup → Type 0
  LookupFits t (owned snap) = IsCapture m v sj snap t
  LookupFits t _ = Unit

  by_ownership-LookupFits :
      (snap : PodSnapshot) (t : Trace Op Ans)
      → (validate_pod_snapshot_ownership sj snap ≡ ok tt → IsCapture m v sj snap t)
      → LookupFits t (by_ownership snap (validate_pod_snapshot_ownership sj snap))
  by_ownership-LookupFits snap t h = by_check (validate_pod_snapshot_ownership sj snap) refl
    where
      by_check :
          (x : Check)
          → validate_pod_snapshot_ownership sj snap ≡ x
          → LookupFits t (by_ownership snap x)
      by_check (ok tt) e = h e
      by_check (refused cause) e = tt

  pub cached-LookupFits :
      (reply : Reply PodSnapshot) (t : Trace Op Ans)
      → LookupFits ((get_pod_snapshot (key_of sj), reply) ∷ t) (read_owned_pod_snapshot sj reply)
  unfolding read_owned_pod_snapshot
  cached-LookupFits (found snap) t =
      by_ownership-LookupFits snap _ (λ e. record { seen = inl mem-cons_self; belongs = e })
  cached-LookupFits (error not_found) t = tt
  cached-LookupFits (error already_exists) t = tt
  cached-LookupFits (error (other_error s)) t = tt

  pub read-LookupFits :
      (reply : Reply PodSnapshot) (t : Trace Op Ans)
      → LookupFits
          ((read_pod_snapshot (key_of sj), reply) ∷ t)
          (authoritatively sj (read_owned_pod_snapshot sj reply))
  unfolding read_owned_pod_snapshot
  read-LookupFits (error not_found) t = tt
  read-LookupFits (error already_exists) t = tt
  read-LookupFits (error (other_error s)) t = tt
  read-LookupFits (found snap) t = by_check (validate_pod_snapshot_ownership sj snap) refl
    where
      by_check :
          (x : Check)
          → validate_pod_snapshot_ownership sj snap ≡ x
          → LookupFits
              ((read_pod_snapshot (key_of sj), found snap) ∷ t)
              (authoritatively sj (by_ownership snap x))
      by_check (ok tt) e = record { seen = inr mem-cons_self; belongs = e }
      by_check (refused cause) e = tt

  adopt_existing-Fine :
      (job : Job) (desired : PodSnapshot) (t : Trace Op Ans) (l : Lookup)
      → Fine t (done (adopt_existing m v sj job desired l))
  adopt_existing-Fine job desired t missing = ends tt
  adopt_existing-Fine job desired t (unreadable e) = ends tt
  adopt_existing-Fine job desired t (conflicting cause) = ends no_finish
  adopt_existing-Fine job desired t (owned snap) =
      elim (Bool-cases (pod_snapshot_has_expected_identity snap desired)) [
        | inl e ↦ rw e (ends no_finish)
        | inr e ↦ rw e (ends no_finish)
      ]

  after_creation-Fine :
      (job : Job) (desired : PodSnapshot) (t : Trace Op Ans) (reply : Reply PodSnapshot)
      → Fine t (after_creation m v sj job desired reply)
  unfolding classify_existing_pod_snapshot find_owned_pod_snapshot
  after_creation-Fine job desired t (found snap) = ends no_finish
  after_creation-Fine job desired t (error already_exists) =
      calls tt (λ reply. adopt_existing-Fine job desired _ (read_owned_pod_snapshot sj reply))
  after_creation-Fine job desired t (error not_found) = calls tt (λ _. ends tt)
  after_creation-Fine job desired t (error (other_error s)) = calls tt (λ _. ends tt)

  -- A creation is for the only pod of an active Job.
  pub create_pod_snapshot_for_source_job-Fine :
      (job : Job) (t : Trace Op Ans)
      → IsSourceJob m v sj job t
      → classify_source_job_terminal job ≡ source_job_active
      → Fine t (create_pod_snapshot_for_source_job m v sj job)
  unfolding create_pod_snapshot_for_source_job find_source_pod
  create_pod_snapshot_for_source_job-Fine job t j active =
      calls tt
        (λ reply. source_pod-Holds m v sj Deletes job _ reply (λ _ _. tt) (λ _. tt) (by_pod reply))
    where
      by_pod :
          (reply : Reply (List Pod)) (pods : List Pod) (p : Option Pod)
          → reply ≡ found pods
          → controlled_pod_for_job pods job ≡ ok p
          → Fine ((list_pods job, reply) ∷ t) (create_for_pod m v sj job p)
      by_pod reply pods none r e = ends no_finish
      by_pod reply pods (some pod) r e = by_build (build_pod_snapshot v sj pod) refl
        where
          by_build :
              (x : Result PodSnapshot)
              → build_pod_snapshot v sj pod ≡ x
              → Fine ((list_pods job, reply) ∷ t) (create_built m v sj job x)
          by_build (refused cause) b = ends tt
          by_build (ok snap) b =
              let (named, pinned) = build_pod_snapshot-pins v sj pod snap b in
              calls
                (record {
                  the_job = job;
                  the_pod = pod;
                  the_pods = pods;
                  is_source = grow-IsSourceJob m v sj t _ reply j;
                  is_active = active;
                  listed =
                      subst (λ x. Answered (list_pods job) x ((list_pods job, reply) ∷ t)) r
                        mem-cons_self;
                  only = e;
                  named = named;
                  pinned = pinned;
                })
                (λ answer. after_creation-Fine job snap _ answer)
