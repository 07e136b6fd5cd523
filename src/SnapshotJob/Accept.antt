-- ===== src/SnapshotJob/Accept.antt =====
-- The source Job that is created or accepted.
use snapshot.Prelude.{
  Str, ◌≡◌, refl, ◌⊎◌, inl, inr, Bool, true, false, not, ◌&&◌, Option, none, some, [], ◌∷◌, str_eq,
  str_eq_iff, if◌then◌else◌, arith,
}
use mathlib.Core.List.{mem-cons_self}
use snapshot.Kube.Prog.{Trace, ends, calls, Holds-if}
use snapshot.Kube.Condition.{Meta}
use snapshot.Kube.Objects.{Reply, found, error, not_found, already_exists, other_error}
use snapshot.PodContract.Types.{Result, ok, refused}
use snapshot.SnapshotJob.Types.{Job, SnapshotJob, SnapshotJobFailure}
use snapshot.SnapshotJob.Client.{Op, Ans, get_job, read_job, Action}
use snapshot.SnapshotJob.Build.{JobValidation, desired_source_job}
use snapshot.SnapshotJob.Identity.{is_controlled_by, classify_existing_source_job}
use snapshot.SnapshotJob.Evidence.{Answered}
use snapshot.SnapshotJob.Resources.{Observed, key_of}
use snapshot.SnapshotJob.Reconcile.{
  reconcile_accepted_source_job, accept_unless, reconcile_existing_source_job, observe_existing,
  after_job_creation, create_source_job, create_desired, with_authoritative, has_source,
  by_cached_job, reconcile_resources,
}
use snapshot.SnapshotJob.Children.{Fine, no_finish}
use snapshot.SnapshotJob.Resolve.{reconcile_pod_snapshot_resources-Ok}

not_refused :
    {A : Type 0} (b : Bool) (x : A) (rest : Option A)
    → (if not b then some x else rest) ≡ none
    → (b ≡ true) × (rest ≡ none)
not_refused true x rest e = (refl, e)
not_refused false x rest e = grind arith

either_none :
    {A : Type 0} (b : Bool) (x y : Option A)
    → (if not b then x else y) ≡ none
    → (b ≡ true) ⊎ (x ≡ none)
either_none true x y e = inl refl
either_none false x y e = inr e

none_only : {A : Type 0} (b : Bool) (x : A) → (if b then none else some x) ≡ none → b ≡ true
none_only true x e = refl
none_only false x e = grind arith

both_unset : (s u : Str) → (str_eq s [] && not (str_eq u [])) ≡ false → s ≡ [] → u ≡ s
unfolding str_eq
both_unset [] [] h e = refl
both_unset [] (c ∷ u) h e = grind arith
both_unset (c ∷ s) u h e = grind arith

-- A Job that is not refused is controlled by the SnapshotJob, and it is the recorded one where
-- one is recorded.
classify_existing_source_job-accepts :
    (v : JobValidation) (sj : SnapshotJob) (job : Job)
    → classify_existing_source_job v sj job ≡ none
    → (is_controlled_by job.controller sj.uid ≡ true)
      × ((sj.status.source_job_uid ≡ []) ⊎ (job.uid ≡ sj.status.source_job_uid))
unfolding classify_existing_source_job
classify_existing_source_job-accepts v sj job e =
    let (c, e1) = not_refused (is_controlled_by job.controller sj.uid) _ _ e in
    (
      c,
      elim (either_none (str_eq sj.status.source_job_uid []) _ _ e1) [
        | inl u ↦ inl ((str_eq_iff _ _).0 u)
        | inr r ↦ inr ((str_eq_iff _ _).0 (none_only _ _ r))
      ],
    )

module _ (m : Meta) (v : JobValidation) (sj : SnapshotJob)
    (Deletes : Trace Op Ans → Job → Str → Type 0) where
  abbrev Ok : Trace Op Ans → Action Observed → Type 0
  Ok t p = Fine m v sj Deletes t p

  abbrev Seen : Job → Trace Op Ans → Type 0
  Seen job t =
      Answered (get_job (key_of sj)) (found job) t ⊎ Answered (read_job (key_of sj)) (found job) t

  -- A Job goes on to its capture only once its UID is recorded.
  reconcile_accepted_source_job-Ok :
      (job : Job) (t : Trace Op Ans)
      → Seen job t
      → is_controlled_by job.controller sj.uid ≡ true
      → (sj.status.source_job_uid ≡ []) ⊎ (job.uid ≡ sj.status.source_job_uid)
      → Ok t (reconcile_accepted_source_job m v sj job)
  unfolding reconcile_accepted_source_job
  reconcile_accepted_source_job-Ok job t seen c u =
      Holds-if (str_eq sj.status.source_job_uid [] && not (str_eq job.uid []))
        (λ _. ends (no_finish m v sj Deletes))
        (λ bound.
          reconcile_pod_snapshot_resources-Ok m v sj Deletes job t
            (record { seen = seen; controlled = c; recorded = recorded bound u }))
    where
      recorded :
          (str_eq sj.status.source_job_uid [] && not (str_eq job.uid [])) ≡ false
          → (sj.status.source_job_uid ≡ []) ⊎ (job.uid ≡ sj.status.source_job_uid)
          → job.uid ≡ sj.status.source_job_uid
      recorded b (inr same) = same
      recorded b (inl unset) = both_unset sj.status.source_job_uid job.uid b unset

  reconcile_existing_source_job-Ok :
      (job : Job) (t : Trace Op Ans) → Seen job t → Ok t (reconcile_existing_source_job m v sj job)
  unfolding reconcile_existing_source_job
  reconcile_existing_source_job-Ok job t seen =
      by_class (classify_existing_source_job v sj job) refl
    where
      by_class :
          (f : Option SnapshotJobFailure)
          → classify_existing_source_job v sj job ≡ f
          → Ok t (accept_unless m v sj job f)
      by_class (some f) e = ends (no_finish m v sj Deletes)
      by_class none e =
          let (c, u) = classify_existing_source_job-accepts v sj job e in
          reconcile_accepted_source_job-Ok job t seen c u

  after_job_creation-Ok :
      (reply : Reply Job) (t : Trace Op Ans) → Ok t (after_job_creation m v sj reply)
  after_job_creation-Ok (found job) t = ends (no_finish m v sj Deletes)
  after_job_creation-Ok (error already_exists) t = calls tt existing
    where
      existing : (r : Reply Job) → Ok ((get_job (key_of sj), r) ∷ t) (observe_existing m v sj r)
      existing (found job) = reconcile_existing_source_job-Ok job _ (inl mem-cons_self)
      existing (error e) = ends tt
  after_job_creation-Ok (error not_found) t = calls tt (λ _. ends tt)
  after_job_creation-Ok (error (other_error s)) t = calls tt (λ _. ends tt)

  create_desired-Ok :
      (t : Trace Op Ans)
      → Answered (get_job (key_of sj)) (error not_found) t
      → sj.status.source_job_uid ≡ []
      → Ok t (create_desired m v sj (desired_source_job v sj))
  unfolding create_source_job
  create_desired-Ok t seen unset = by_build (desired_source_job v sj) refl
    where
      by_build : (x : Result Job) → desired_source_job v sj ≡ x → Ok t (create_desired m v sj x)
      by_build (refused cause) e = ends (no_finish m v sj Deletes)
      by_build (ok job) e =
          calls (record { absent = seen; unrecorded = unset; built = (job, e, refl) })
            (λ reply. after_job_creation-Ok reply _)

  pub reconcile_resources-Ok : Ok [] (reconcile_resources m v sj)
  unfolding reconcile_resources
  reconcile_resources-Ok = calls tt by_reply
    where
      with_read :
          (r : Reply Job) (t : Trace Op Ans)
          → Ok ((read_job (key_of sj), r) ∷ t) (with_authoritative m v sj r)
      with_read (found job) t = reconcile_existing_source_job-Ok job _ (inr mem-cons_self)
      with_read (error not_found) t = ends (no_finish m v sj Deletes)
      with_read (error already_exists) t = ends tt
      with_read (error (other_error s)) t = ends tt

      unset :
          (b c : Bool)
          → str_eq sj.status.source_job_uid [] ≡ b
          → not (b && c) ≡ false
          → sj.status.source_job_uid ≡ []
      unset true c e h = (str_eq_iff _ _).0 e
      unset false c e h = grind arith

      by_reply : (r : Reply Job) → Ok ((get_job (key_of sj), r) ∷ []) (by_cached_job m v sj r)
      by_reply (found job) = reconcile_existing_source_job-Ok job _ (inl mem-cons_self)
      by_reply (error already_exists) = ends tt
      by_reply (error (other_error s)) = ends tt
      by_reply (error not_found) =
          Holds-if (has_source m v sj) (λ _. calls tt (λ r. with_read r _))
            (λ h.
              create_desired-Ok _ mem-cons_self
                (unset (str_eq sj.status.source_job_uid []) _ refl h))
