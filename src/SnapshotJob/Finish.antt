-- ===== src/SnapshotJob/Finish.antt =====
-- What stands behind an observation that the source Job has finished.
use snapshot.Prelude.{
  Str, ◌≡◌, refl, sym, ap, subst, true, false, Option, none, some, List, [], ◌∷◌, arith,
}
use mathlib.Core.List.{mem-cons_self}
use snapshot.Kube.Prog.{Trace, Holds, ends, calls, Holds-if, Holds-bind, done}
use snapshot.Kube.Condition.{Meta, Message}
use snapshot.Kube.Objects.{Reply, found, error, ApiError, Pod, PodSnapshot}
use snapshot.PodContract.Types.{Result, ok, refused}
use snapshot.SnapshotJob.Types.{Job, SnapshotJob, SnapshotJobFailure, SnapshotJobObservation}
use snapshot.SnapshotJob.Client.{
  Op, Ans, create_job, delete_job, create_pod_snapshot, list_read_pods, Flow, go, retry, broken,
  Action,
}
use snapshot.SnapshotJob.Terminal.{
  SourceJobState, source_job_active, source_job_complete, source_job_failed,
  source_job_deadline_exceeded, classify_source_job_terminal, is_pod_snapshot_succeeded,
  snapshot_job_terminal_failure, expected_helpers, expected_sidecars, HelperVerdict, helpers_done,
  helpers_running, helpers_failed, classify_helper_pod,
}
use snapshot.SnapshotJob.Precedence.{failed, end_of}
use snapshot.SnapshotJob.Build.{JobValidation, snapshot_job_target_container}
use snapshot.SnapshotJob.Identity.{controlled_pod_for_job}
use snapshot.SnapshotJob.Evidence.{
  Answered, IsSourceJob, HasFinished, by_completion, alone, by_helpers, IsCapture, Finished,
  IsPinned, IsFresh, grow-IsSourceJob, grow-IsCapture,
}
use snapshot.SnapshotJob.Resources.{
  Observed, observing, find_source_pod, read_source_pod, source_pod, pod_of, on_go, trusted,
  helper_verdict, confirm_helpers, check_helpers, helpers_of, classify_helper_containers,
  finished_by, captured_by_state, reconcile_captured_source_job, by_failure, observe_pod_snapshot,
}

module _ (m : Meta) (v : JobValidation) (sj : SnapshotJob)
    (Deletes : Trace Op Ans → Job → Str → Type 0) where
  -- The writes that need a reason.
  abbrev pub Permitted : Trace Op Ans → Op → Type 0
  Permitted t (create_pod_snapshot snap) = IsPinned m v sj snap t
  Permitted t (create_job job) = IsFresh m v sj job t
  Permitted t (delete_job job uid) = Deletes t job uid
  Permitted t _ = Unit

  abbrev pub Fits : Trace Op Ans → Observed → Type 0
  Fits t (go (o, wait)) = o.source_job_finished ≡ true → Finished m v sj o t
  Fits t (retry _ _) = Unit
  Fits t (broken _) = Unit

  abbrev pub Fit : Trace Op Ans → Action Observed → Type 0
  Fit t p = Holds Permitted Fits t p

  abbrev VerdictFits : Job → Trace Op Ans → Flow HelperVerdict → Type 0
  VerdictFits job t (go helpers_done) = HasFinished m v sj job t
  VerdictFits job t (go _) = Unit
  VerdictFits job t (retry _ _) = Unit
  VerdictFits job t (broken _) = Unit

  pub unfinished : {X : Type 0} → false ≡ true → X
  unfinished e = grind arith

  -- A listing of pods, where errors end well.
  pub source_pod-Holds :
      {B : Type 0} {E : Trace Op Ans → Flow B → Type 0} {t : Trace Op Ans} (job : Job)
      (f : Option Pod → Action (Flow B)) (reply : Reply (List Pod))
      → ((step : Str) (e : ApiError) → E t (retry step e))
      → ((cause : Message) → E t (broken cause))
      → ((pods : List Pod) (p : Option Pod)
          → reply ≡ found pods
          → controlled_pod_for_job pods job ≡ ok p
          → Holds Permitted E t (f p))
      → Holds Permitted E t (on_go f (source_pod job reply))
  unfolding source_pod
  source_pod-Holds job f (error e) r b h = ends (r _ e)
  source_pod-Holds {E = E} {t = t} job f (found pods) r b h =
      by_pod (controlled_pod_for_job pods job) refl
    where
      by_pod :
          (x : Result (Option Pod))
          → controlled_pod_for_job pods job ≡ x
          → Holds Permitted E t (on_go f (pod_of job x))
      by_pod (ok p) e = h pods p refl e
      by_pod (refused cause) e = ends (b cause)

  module _ (job : Job) (target : Str)
      (is_failed : end_of (classify_source_job_terminal job) ≡ failed)
      (is_target : snapshot_job_target_container sj ≡ ok target) where
    abbrev helpers : List Str
    helpers = expected_helpers sj.spec.pod_template.spec.containers target

    abbrev sidecars : List Str
    sidecars = expected_sidecars sj.spec.pod_template.spec.init_containers

    -- A cached pod is trusted only for helpers that still run.
    trusted-VerdictFits :
        (cached : Option Pod) (t : Trace Op Ans)
        → trusted m v helpers sidecars cached ≡ true
        → VerdictFits job t (go (helper_verdict m v helpers sidecars cached))
    trusted-VerdictFits none t e = tt
    trusted-VerdictFits (some pod) t e = by_verdict (classify_helper_pod pod helpers sidecars) e
      where
        by_verdict :
            (x : HelperVerdict)
            → elim x [ helpers_running ↦ true | _ ↦ false ] ≡ true
            → VerdictFits job t (go x)
        by_verdict helpers_done e = unfinished e
        by_verdict helpers_running e = tt
        by_verdict (helpers_failed f) e = tt

    read-VerdictFits :
        (pods : List Pod) (p : Option Pod) (t : Trace Op Ans)
        → Answered (list_read_pods job) (found pods) t
        → controlled_pod_for_job pods job ≡ ok p
        → VerdictFits job t (go (helper_verdict m v helpers sidecars p))
    read-VerdictFits pods none t seen e = tt
    read-VerdictFits pods (some pod) t seen e =
        by_verdict (classify_helper_pod pod helpers sidecars) refl
      where
        by_verdict :
            (x : HelperVerdict)
            → classify_helper_pod pod helpers sidecars ≡ x
            → VerdictFits job t (go x)
        by_verdict helpers_done e' = by_helpers is_failed is_target seen e e'
        by_verdict helpers_running e' = tt
        by_verdict (helpers_failed f) e' = tt

    confirm_helpers-VerdictFits :
        (cached : Option Pod) (t : Trace Op Ans)
        → Holds Permitted (VerdictFits job) t (confirm_helpers m v job helpers sidecars cached)
    unfolding read_source_pod
    confirm_helpers-VerdictFits cached t =
        Holds-if (trusted m v helpers sidecars cached) (λ e. ends (trusted-VerdictFits cached t e))
          (λ _. calls tt (λ reply.
            source_pod-Holds job _ reply (λ _ _. tt) (λ _. tt)
              (λ pods p r e. ends (read-VerdictFits pods p _ (seen reply pods r) e))))
      where
        seen :
            (reply : Reply (List Pod)) (pods : List Pod)
            → reply ≡ found pods
            → Answered (list_read_pods job) (found pods) ((list_read_pods job, reply) ∷ t)
        seen reply pods r =
            subst (λ x. Answered (list_read_pods job) x ((list_read_pods job, reply) ∷ t)) r
              mem-cons_self

    check_helpers-VerdictFits :
        (hs ss : List Str) (t : Trace Op Ans)
        → helpers ≡ hs
        → sidecars ≡ ss
        → Holds Permitted (VerdictFits job) t (check_helpers m v job hs ss)
    unfolding find_source_pod
    check_helpers-VerdictFits [] [] t h s = ends (alone is_failed is_target h s)
    check_helpers-VerdictFits [] (c ∷ cs) t h s =
        rw (sym h, sym s)
          (calls tt (λ reply.
            source_pod-Holds job _ reply (λ _ _. tt) (λ _. tt)
              (λ pods p r e. confirm_helpers-VerdictFits p _)))
    check_helpers-VerdictFits (c ∷ cs) ss t h s =
        rw (sym h, sym s)
          (calls tt (λ reply.
            source_pod-Holds job _ reply (λ _ _. tt) (λ _. tt)
              (λ pods p r e. confirm_helpers-VerdictFits p _)))

  classify_helper_containers-VerdictFits :
      (job : Job) (t : Trace Op Ans)
      → end_of (classify_source_job_terminal job) ≡ failed
      → Holds Permitted (VerdictFits job) t (classify_helper_containers m v sj job)
  unfolding classify_helper_containers
  classify_helper_containers-VerdictFits job t is_failed =
      by_target (snapshot_job_target_container sj) refl
    where
      by_target :
          (x : Result Str)
          → snapshot_job_target_container sj ≡ x
          → Holds Permitted (VerdictFits job) t (helpers_of m v sj job x)
      by_target (refused cause) e = ends tt
      by_target (ok target) e = check_helpers-VerdictFits job target is_failed e _ _ t refl refl

  -- The source Job, and its capture.
  abbrev Known : Job → PodSnapshot → Trace Op Ans → Type 0
  Known job snap t = IsSourceJob m v sj job t × IsCapture m v sj snap t

  grow-Known :
      {job : Job} {snap : PodSnapshot} (t : Trace Op Ans) (o : Op) (x : Ans o)
      → Known job snap t
      → Known job snap ((o, x) ∷ t)
  grow-Known t o x (j, c) = (grow-IsSourceJob m v sj t o x j, grow-IsCapture m v sj t o x c)

  abbrev observing_both : Job → PodSnapshot → SnapshotJobObservation
  observing_both job snap = record (observing job) { pod_snapshot = some snap }

  observing_both-Finished :
      (job : Job) (snap : PodSnapshot) (o : SnapshotJobObservation) (t : Trace Op Ans)
      → o.job ≡ some job
      → o.pod_snapshot ≡ some snap
      → Known job snap t
      → is_pod_snapshot_succeeded m snap ≡ true
      → HasFinished m v sj job t
      → Finished m v sj o t
  observing_both-Finished job snap o t a b (j, c) d e = record {
    the_job = job;
    the_snapshot = snap;
    of_job = a;
    of_snapshot = b;
    is_source = j;
    is_capture = c;
    succeeded = d;
    has_finished = e;
  }

  reconcile_captured_source_job-Fit :
      (job : Job) (snap : PodSnapshot) (t : Trace Op Ans)
      → Known job snap t
      → is_pod_snapshot_succeeded m snap ≡ true
      → Fit t (reconcile_captured_source_job m v sj job (observing_both job snap))
  unfolding reconcile_captured_source_job
  reconcile_captured_source_job-Fit job snap t known d =
      by_state (classify_source_job_terminal job) refl
    where
      o : SnapshotJobObservation
      o = observing_both job snap

      by_verdict :
          (s : Trace Op Ans) (x : Flow HelperVerdict)
          → Known job snap s
          → VerdictFits job s x
          → Fit s (on_go (λ y. done (finished_by m v o y)) x)
      by_verdict s (go helpers_done) k h =
          ends (λ _. observing_both-Finished job snap _ s refl refl k d h)
      by_verdict s (go helpers_running) k h = ends unfinished
      by_verdict s (go (helpers_failed f)) k h = ends unfinished
      by_verdict s (retry step e) k h = ends tt
      by_verdict s (broken cause) k h = ends tt

      by_state :
          (x : SourceJobState)
          → classify_source_job_terminal job ≡ x
          → Fit t (captured_by_state m v sj job o x)
      by_state source_job_complete e =
          ends (λ _. observing_both-Finished job snap _ t refl refl known d (by_completion e))
      by_state (source_job_deadline_exceeded f) e = ends unfinished
      by_state (source_job_failed f) e =
          Holds-bind (Known job snap) grow-Known known
            (classify_helper_containers-VerdictFits job t (ap end_of e)) by_verdict
      by_state source_job_active e = ends unfinished

  pub observe_pod_snapshot-Fit :
      (job : Job) (snap : PodSnapshot) (t : Trace Op Ans)
      → IsSourceJob m v sj job t
      → IsCapture m v sj snap t
      → Fit t (observe_pod_snapshot m v sj job snap)
  unfolding observe_pod_snapshot
  observe_pod_snapshot-Fit job snap t j c =
      by_cause (snapshot_job_terminal_failure m job (some snap))
    where
      by_cause : (f : Option SnapshotJobFailure) → Fit t (by_failure m v sj job snap f)
      by_cause (some f) = ends unfinished
      by_cause none =
          Holds-if (is_pod_snapshot_succeeded m snap)
            (λ d. reconcile_captured_source_job-Fit job snap t (j, c) d) (λ _. ends unfinished)
