-- ===== src/SnapshotJob/Flags.antt =====
-- Which conditions are True after a part of the derivation.
use snapshot.Prelude.{
  ℕ, Str, ◌≡◌, ◌≢◌, refl, sym, ap, ◌∙◌, inl, inr, Bool, true, false, Option, none, some,
  if◌then◌else◌, Bool-cases, Option-cases, arith,
}
use snapshot.Kube.Condition.{
  ConditionType, running, Status, is_true, is_false, is_unknown, Message, text, Condition, Meta,
  MetaLaws, is_status_condition_true, holds_true,
}
use snapshot.Kube.Samples.{kind_eq, kind_eq_sound, kind_eq_refl}
use snapshot.SnapshotJob.Types.{Job, SnapshotJobFailure, SnapshotJobObservation}
use snapshot.SnapshotJob.Terminal.{
  is_set, SourceJobState, source_job_active, source_job_complete, source_job_failed,
  source_job_deadline_exceeded, classify_source_job_terminal,
}
use snapshot.SnapshotJob.Status.{
  Next, set_condition, is_on, initialize_condition, initialize_conditions, derive_running_status,
  running_of, running_by_state, running_by_readiness, running_without_job, mark_started,
}

holds_true-is_set :
    (m : Meta) (k : ConditionType) (st : Status) (r : Str) (msg : Message)
    → holds_true m (some (record { kind = k; status = st; reason = r; message = msg })) ≡ is_set st
holds_true-is_set m k is_true r msg = refl
holds_true-is_set m k is_false r msg = refl
holds_true-is_set m k is_unknown r msg = refl

kind_ne : (k j : ConditionType) → kind_eq k j ≡ false → j ≢ k
kind_ne k j h e = ground (arith, kind_eq_refl k, ap (kind_eq k) e)

module _ (m : Meta) (laws : MetaLaws m) where
  -- A condition that is set has its new status, and every other one what it had.
  pub set_condition-is_on :
      (n : Next) (k : ConditionType) (st : Status) (r : Str) (msg : Message) (j : ConditionType)
      → is_on m (set_condition m n k st r msg) j ≡ (if kind_eq k j then is_set st else is_on m n j)
  unfolding set_condition is_status_condition_true
  set_condition-is_on n k st r msg j =
      let c : Condition = record { kind = k; status = st; reason = r; message = msg } in
      elim (Bool-cases (kind_eq k j)) [
        | inl e ↦ rw e (
            ap (λ x. holds_true m (m.find (m.set n.conditions c).0 x)) (sym (kind_eq_sound k j e))
            ∙ ap (holds_true m) (laws.find-set_self n.conditions c)
            ∙ holds_true-is_set m k st r msg)
        | inr e ↦ rw e (ap (holds_true m) (laws.find-set_ne n.conditions c j (kind_ne k j e)))
      ]

  -- A default changes no flag: it is False, and so is a condition that is missing.
  initialize_condition-is_on :
      (k : ConditionType) (r s : Str) (n : Next) (j : ConditionType)
      → is_on m (initialize_condition m k r s n) j ≡ is_on m n j
  unfolding initialize_condition is_status_condition_true
  initialize_condition-is_on k r s n j = elim (Option-cases (m.find n.conditions k)) [
    | inl e ↦ rw e (set_condition-is_on n k is_false r (text s) j ∙ missing (kind_eq k j) e refl)
    | inr (c, e) ↦ rw e refl
  ]
    where
      missing :
          (b : Bool)
          → m.find n.conditions k ≡ none
          → kind_eq k j ≡ b
          → (if b then false else is_on m n j) ≡ is_on m n j
      missing true e h =
          sym (ap (holds_true m) e)
          ∙ ap (λ x. holds_true m (m.find n.conditions x)) (kind_eq_sound k j h)
      missing false e h = refl

  pub initialize_conditions-is_on :
      (n : Next) (j : ConditionType) → is_on m (initialize_conditions m n) j ≡ is_on m n j
  unfolding initialize_conditions
  initialize_conditions-is_on n j = simp initialize_condition-is_on

  -- Only the Running condition depends on the source Job.
  pub derive_running_status-is_on :
      (o : SnapshotJobObservation) (now : ℕ) (n : Next) (j : ConditionType)
      → kind_eq running j ≡ false
      → is_on m (derive_running_status m o now n) j ≡ is_on m n j
  unfolding derive_running_status
  derive_running_status-is_on o now n j h = by_job o.job
    where
      other :
          (n : Next) (st : Status) (r : Str) (msg : Message)
          → is_on m (set_condition m n running st r msg) j ≡ is_on m n j
      other n st r msg = set_condition-is_on n running st r msg j ∙ rw h refl

      by_failure :
          (f : Option SnapshotJobFailure) → is_on m (running_without_job m f n) j ≡ is_on m n j
      by_failure none = refl
      by_failure (some f) = other n is_false _ _

      started : (b : Bool) → is_on m (mark_started m b now n) j ≡ is_on m n j
      started true = refl
      started false = refl

      ready_flag :
          (n : Next) (b missing : Bool)
          → is_on m (running_by_readiness m b missing n) j ≡ is_on m n j
      ready_flag n true missing = other n is_true _ _
      ready_flag n false missing = other n is_false _ _

      by_state :
          (n : Next) (s : SourceJobState) (b missing : Bool)
          → is_on m (running_by_state m s b missing n) j ≡ is_on m n j
      by_state n source_job_active b missing = ready_flag n b missing
      by_state n source_job_complete b missing = other n is_false _ _
      by_state n (source_job_failed f) b missing = other n is_false _ _
      by_state n (source_job_deadline_exceeded f) b missing = other n is_false _ _

      by_job : (job : Option Job) → is_on m (running_of m job o now n) j ≡ is_on m n j
      by_job none = by_failure o.failure
      by_job (some job) =
          by_state _ (classify_source_job_terminal job) _ o.source_pod_missing ∙ started _
