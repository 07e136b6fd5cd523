-- ===== src/SnapshotJob/Capture.antt =====
-- What the derivation makes of the capture, and the identities it binds.
use snapshot.Prelude.{
  ℕ, Str, ◌≡◌, refl, sym, ap, ◌∙◌, inl, inr, Bool, true, false, not, ◌&&◌, Option, none, some, [],
  ◌∷◌, if◌then◌else◌, Bool-cases,
}
use snapshot.Kube.Condition.{
  ConditionType, captured, running, completed, failed, Status, is_true, is_false, Message, Meta,
  MetaLaws,
}
use snapshot.Kube.Samples.{kind_eq}
use snapshot.Kube.Objects.{PodSnapshot}
use snapshot.SnapshotJob.Types.{SnapshotJobStatus, SnapshotJobFailure, SnapshotJobObservation}
use snapshot.SnapshotJob.Terminal.{is_pod_snapshot_succeeded, is_pod_snapshot_failed}
use snapshot.SnapshotJob.Status.{
  Next, or_text, stop_message, set_condition, is_on, derive_captured_status, captured_of,
  derive_failure_status, derive_completion_status, completion_of, is_captured, derived, job_uid,
  derive_snapshot_job_status,
}
use snapshot.SnapshotJob.Frame.{bound, derive_snapshot_job_status-part, derive_source_status-part}
use snapshot.SnapshotJob.Flags.{set_condition-is_on}
use snapshot.SnapshotJob.Phases.{derive_source_status-is_on}

module _ (m : Meta) where
  -- The flag that a capture gives: what it was where no PodSnapshot was observed.
  abbrev pub captured_flag : Option PodSnapshot → Bool → Bool
  captured_flag none before = before
  captured_flag (some snap) before =
      not (is_pod_snapshot_failed m snap) && is_pod_snapshot_succeeded m snap

  abbrev pub snapshot_uid : Option PodSnapshot → Str
  snapshot_uid none = []
  snapshot_uid (some snap) = snap.uid

  or_text-nil : (s : Str) → or_text s [] ≡ s
  or_text-nil [] = refl
  or_text-nil (c ∷ s) = refl

  bound-pod_snapshot_uid :
      (snap : Option PodSnapshot) (n : Next)
      → (bound snap n).pod_snapshot_uid ≡ or_text n.pod_snapshot_uid (snapshot_uid snap)
  bound-pod_snapshot_uid none n = sym (or_text-nil n.pod_snapshot_uid)
  bound-pod_snapshot_uid (some snap) n = refl

  bound-source_job_uid :
      (snap : Option PodSnapshot) (n : Next) → (bound snap n).source_job_uid ≡ n.source_job_uid
  bound-source_job_uid none n = refl
  bound-source_job_uid (some snap) n = refl

  -- The UIDs of the source Job and of the PodSnapshot are bound once: a status that has one
  -- keeps it, whatever is observed, and one that has none takes that of the object observed.
  pub derive_snapshot_job_status-BindsOnce :
      (status : SnapshotJobStatus) (o : SnapshotJobObservation) (now : ℕ)
      → let after = derive_snapshot_job_status m status o now in
        (after.source_job_uid ≡ or_text status.source_job_uid (job_uid m o.job))
        × (after.pod_snapshot_uid ≡ or_text status.pod_snapshot_uid (snapshot_uid o.pod_snapshot))
  derive_snapshot_job_status-BindsOnce status o now = (
    derive_snapshot_job_status-part (λ n. n.source_job_uid) (λ n cs. refl) (λ n t. refl) m
          (λ n t. refl) status o now
        ∙ bound-source_job_uid o.pod_snapshot _
        ∙ derive_source_status-part (λ n. n.source_job_uid) (λ n cs. refl) (λ n t. refl) m status o
            now,
    derive_snapshot_job_status-part (λ n. n.pod_snapshot_uid) (λ n cs. refl) (λ n t. refl) m
          (λ n t. refl) status o now
        ∙ bound-pod_snapshot_uid o.pod_snapshot _
        ∙ ap (λ u. or_text u (snapshot_uid o.pod_snapshot))
            (derive_source_status-part (λ n. n.pod_snapshot_uid) (λ n cs. refl) (λ n t. refl) m
              status o now),
  )

module _ (m : Meta) (laws : MetaLaws m) where
  set_other-is_on :
      (n : Next) (k : ConditionType) (st : Status) (r : Str) (msg : Message)
      → kind_eq k captured ≡ false
      → is_on m (set_condition m n k st r msg) captured ≡ is_on m n captured
  set_other-is_on n k st r msg h = set_condition-is_on m laws n k st r msg captured ∙ rw h refl

  derive_failure_status-captured :
      (f : SnapshotJobFailure) (now : ℕ) (n : Next)
      → is_on m (derive_failure_status m f now n) captured ≡ is_on m n captured
  unfolding derive_failure_status
  derive_failure_status-captured f now n = elim (Bool-cases (is_on m n running)) [
    | inl r ↦
        let s = set_condition m n running is_false f.reason stop_message in
        rw r (closing s _ ∙ set_other-is_on n running _ _ _ refl)
    | inr r ↦ rw r (closing n _)
  ]
    where
      unless :
          (b : Bool) (s : Next) (cause : Message)
          → is_on m (if b then s else set_condition m s completed is_false f.reason cause) captured
            ≡ is_on m s captured
      unless true s cause = refl
      unless false s cause = set_other-is_on s completed _ _ _ refl

      closing :
          (s : Next) (cause : Message)
          → is_on m
              (set_condition m
                (if is_on m s completed
                  then s
                  else set_condition m s completed is_false f.reason cause)
                failed
                is_true
                f.reason
                f.cause)
              captured
            ≡ is_on m s captured
      closing s cause =
          set_other-is_on
            (if is_on m s completed then s else set_condition m s completed is_false f.reason cause)
            failed _ _ _ refl
          ∙ unless (is_on m s completed) s cause

  derive_completion_status-captured :
      (o : SnapshotJobObservation) (now : ℕ) (n : Next)
      → is_on m (derive_completion_status m o now n) captured ≡ is_on m n captured
  unfolding derive_completion_status
  derive_completion_status-captured o now n =
      by_flags (is_captured m o.pod_snapshot) o.source_job_finished
    where
      by_flags :
          (b done : Bool) → is_on m (completion_of m b done now n) captured ≡ is_on m n captured
      by_flags false done = refl
      by_flags true false =
          set_other-is_on (set_condition m n running _ _ _) completed _ _ _ refl
          ∙ set_other-is_on n running _ _ _ refl
      by_flags true true =
          set_other-is_on (set_condition m n running _ _ _) completed _ _ _ refl
          ∙ set_other-is_on n running _ _ _ refl

  derived-captured :
      (c : Next × Option SnapshotJobFailure) (o : SnapshotJobObservation) (now : ℕ)
      → is_on m (derived m c o now) captured ≡ is_on m (c.0) captured
  derived-captured (n, none) o now = derive_completion_status-captured o now n
  derived-captured (n, some f) o now = derive_failure_status-captured f now n

  captured_of-captured :
      (snap : Option PodSnapshot) (f : Option SnapshotJobFailure) (n : Next)
      → is_on m ((captured_of m snap f n).0) captured ≡ captured_flag m snap (is_on m n captured)
  captured_of-captured none none n = refl
  captured_of-captured none (some f) n = elim (Bool-cases (is_on m n captured)) [
    | inl e ↦ rw e e
    | inr e ↦ rw e (set_condition-is_on m laws n captured _ _ _ captured)
  ]
  captured_of-captured (some snap) f n = elim (Bool-cases (is_pod_snapshot_failed m snap)) [
    | inl a ↦ rw a (set_condition-is_on m laws _ captured _ _ _ captured)
    | inr a ↦ elim (Bool-cases (is_pod_snapshot_succeeded m snap)) [
      | inl b ↦ rw (a, b) (set_condition-is_on m laws _ captured _ _ _ captured)
      | inr b ↦ rw (a, b) (set_condition-is_on m laws _ captured _ _ _ captured)
    ]
  ]

  -- Captured is True after a derivation exactly where the observed PodSnapshot has succeeded and
  -- not failed; where none is observed it is what it was, whatever failed.
  pub derive_snapshot_job_status-captured :
      (status : SnapshotJobStatus) (o : SnapshotJobObservation) (now : ℕ)
      → is_on m (derive_snapshot_job_status m status o now) captured
        ≡ captured_flag m o.pod_snapshot (is_on m status captured)
  unfolding derive_snapshot_job_status derive_captured_status
  derive_snapshot_job_status-captured status o now =
      derived-captured (captured_of m o.pod_snapshot o.failure _) o now
      ∙ captured_of-captured o.pod_snapshot o.failure _
      ∙ ap (captured_flag m o.pod_snapshot)
          (derive_source_status-is_on m laws status o now captured refl)
