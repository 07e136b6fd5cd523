-- ===== src/SnapshotJob/Frame.antt =====
-- What the parts of the derivation leave as it was in the status.
use snapshot.Prelude.{
  ℕ, Str, ◌≡◌, refl, ◌∙◌, inl, inr, Bool, true, false, Option, none, some, List, if◌then◌else◌,
  Bool-cases,
}
use snapshot.Kube.Condition.{ConditionType, captured, Status, Message, Condition, Meta}
use snapshot.Kube.Objects.{PodSnapshot}
use snapshot.SnapshotJob.Types.{Job, SnapshotJobStatus, SnapshotJobFailure, SnapshotJobObservation}
use snapshot.SnapshotJob.Terminal.{
  SourceJobState, source_job_active, source_job_complete, source_job_failed,
  source_job_deadline_exceeded, classify_source_job_terminal, is_pod_snapshot_failed,
  is_pod_snapshot_succeeded,
}
use snapshot.SnapshotJob.Status.{
  Next, or_text, set_condition, is_on, set_if_missing, initialize_condition, initialize_conditions,
  derive_running_status, running_of, running_by_state, running_by_readiness, running_without_job,
  mark_started, derive_captured_status, captured_of, derive_failure_status,
  derive_completion_status, completion_of, is_captured, derived, job_uid, derive_source_status,
  derive_snapshot_job_status,
}

-- What the capture leaves, up to the PodSnapshot that it binds.
abbrev pub bound : Option PodSnapshot → Next → Next
bound none n = n
bound (some snap) n = record n {
  pod_snapshot_name = snap.name;
  pod_snapshot_uid = or_text n.pod_snapshot_uid snap.uid;
}

-- A part of the status that neither the conditions nor the start time belong to.
module _ {A : Type 0} (part : Next → A)
    (of_conditions : (n : Next) (cs : List Condition)
      → part (record n { conditions = cs }) ≡ part n)
    (of_start : (n : Next) (t : Option ℕ) → part (record n { started_at = t }) ≡ part n)
    (m : Meta) where
  pub set_condition-part :
      (n : Next) (k : ConditionType) (st : Status) (r : Str) (msg : Message)
      → part (set_condition m n k st r msg) ≡ part n
  unfolding set_condition
  set_condition-part n k st r msg = of_conditions n _

  initialize_condition-part :
      (k : ConditionType) (r s : Str) (n : Next) → part (initialize_condition m k r s n) ≡ part n
  unfolding initialize_condition
  initialize_condition-part k r s n = by_find (m.find n.conditions k)
    where
      by_find : (c : Option Condition) → part (set_if_missing m n k r s c) ≡ part n
      by_find none = set_condition-part n _ _ _ _
      by_find (some c) = refl

  initialize_conditions-part : (n : Next) → part (initialize_conditions m n) ≡ part n
  unfolding initialize_conditions
  initialize_conditions-part n = simp initialize_condition-part

  derive_running_status-part :
      (o : SnapshotJobObservation) (now : ℕ) (n : Next)
      → part (derive_running_status m o now n) ≡ part n
  unfolding derive_running_status
  derive_running_status-part o now n = by_job o.job
    where
      by_failure : (f : Option SnapshotJobFailure) → part (running_without_job m f n) ≡ part n
      by_failure none = refl
      by_failure (some f) = set_condition-part n _ _ _ _

      started : (b : Bool) → part (mark_started m b now n) ≡ part n
      started true = of_start n _
      started false = refl

      by_readiness :
          (n : Next) (b missing : Bool) → part (running_by_readiness m b missing n) ≡ part n
      by_readiness n true missing = set_condition-part n _ _ _ _
      by_readiness n false missing = set_condition-part n _ _ _ _

      by_state :
          (n : Next) (s : SourceJobState) (b missing : Bool)
          → part (running_by_state m s b missing n) ≡ part n
      by_state n source_job_active b missing = by_readiness n b missing
      by_state n source_job_complete b missing = set_condition-part n _ _ _ _
      by_state n (source_job_failed f) b missing = set_condition-part n _ _ _ _
      by_state n (source_job_deadline_exceeded f) b missing = set_condition-part n _ _ _ _

      by_job : (job : Option Job) → part (running_of m job o now n) ≡ part n
      by_job none = by_failure o.failure
      by_job (some job) =
          by_state _ (classify_source_job_terminal job) _ o.source_pod_missing ∙ started _

  pub derive_source_status-part :
      (status : SnapshotJobStatus) (o : SnapshotJobObservation) (now : ℕ)
      → part (derive_source_status m status o now)
        ≡ part (record status { source_job_uid = or_text status.source_job_uid (job_uid m o.job) })
  unfolding derive_source_status
  derive_source_status-part status o now =
      derive_running_status-part o now _ ∙ initialize_conditions-part _

  set_unless-part :
      (b : Bool) (n : Next) (k : ConditionType) (st : Status) (r : Str) (msg : Message)
      → part (if b then n else set_condition m n k st r msg) ≡ part n
  set_unless-part true n k st r msg = refl
  set_unless-part false n k st r msg = set_condition-part n _ _ _ _

  set_when-part :
      (b : Bool) (n : Next) (k : ConditionType) (st : Status) (r : Str) (msg : Message)
      → part (if b then set_condition m n k st r msg else n) ≡ part n
  set_when-part false n k st r msg = refl
  set_when-part true n k st r msg = set_condition-part n _ _ _ _

  pub captured_of-part :
      (snap : Option PodSnapshot) (f : Option SnapshotJobFailure) (n : Next)
      → part ((captured_of m snap f n).0) ≡ part (bound snap n)
  captured_of-part none none n = refl
  captured_of-part none (some f) n = set_unless-part (is_on m n captured) n _ _ _ _
  captured_of-part (some snap) f n = elim (Bool-cases (is_pod_snapshot_failed m snap)) [
    | inl a ↦ rw a (set_condition-part (bound (some snap) n) _ _ _ _)
    | inr a ↦ elim (Bool-cases (is_pod_snapshot_succeeded m snap)) [
      | inl b ↦ rw (a, b) (set_condition-part (bound (some snap) n) _ _ _ _)
      | inr b ↦ rw (a, b) (set_condition-part (bound (some snap) n) _ _ _ _)
    ]
  ]

  -- A part that the end time does not belong to either is left as the capture has it.
  module _
      (of_end : (n : Next) (t : Option ℕ) → part (record n { completed_at = t }) ≡ part n) where
    derive_failure_status-part :
        (f : SnapshotJobFailure) (now : ℕ) (n : Next)
        → part (derive_failure_status m f now n) ≡ part n
    unfolding derive_failure_status
    derive_failure_status-part f now n =
        of_end _ _
        ∙ set_condition-part _ _ _ _ _
        ∙ set_unless-part _ _ _ _ _ _
        ∙ set_when-part _ _ _ _ _ _

    derive_completion_status-part :
        (o : SnapshotJobObservation) (now : ℕ) (n : Next)
        → part (derive_completion_status m o now n) ≡ part n
    unfolding derive_completion_status
    derive_completion_status-part o now n =
        by_flags (is_captured m o.pod_snapshot) o.source_job_finished
      where
        by_flags : (b done : Bool) → part (completion_of m b done now n) ≡ part n
        by_flags false done = refl
        by_flags true false = set_condition-part _ _ _ _ _ ∙ set_condition-part _ _ _ _ _
        by_flags true true =
            of_end _ _ ∙ set_condition-part _ _ _ _ _ ∙ set_condition-part _ _ _ _ _

    pub derived-part :
        (c : Next × Option SnapshotJobFailure) (o : SnapshotJobObservation) (now : ℕ)
        → part (derived m c o now) ≡ part (c.0)
    derived-part (n, none) o now = derive_completion_status-part o now n
    derived-part (n, some f) o now = derive_failure_status-part f now n

    -- The whole derivation leaves what is neither a condition nor a time as the bindings do.
    pub derive_snapshot_job_status-part :
        (status : SnapshotJobStatus) (o : SnapshotJobObservation) (now : ℕ)
        → part (derive_snapshot_job_status m status o now)
          ≡ part (bound o.pod_snapshot (derive_source_status m status o now))
    unfolding derive_snapshot_job_status derive_captured_status
    derive_snapshot_job_status-part status o now =
        derived-part (captured_of m o.pod_snapshot o.failure _) o now
        ∙ captured_of-part o.pod_snapshot o.failure _
