-- ===== src/SnapshotJob/Phases.antt =====
-- The status that is derived, against the phase that the observation stands for.
use snapshot.Prelude.{
  ℕ, Str, ◌≡◌, ◌≢◌, refl, sym, ap, subst, ◌∙◌, inl, inr, Bool, true, false, ◌&&◌, Option, none,
  some, if◌then◌else◌, Bool-cases, arith,
}
use snapshot.Kube.Condition.{
  ConditionType, running, captured, completed, failed, Status, is_true, is_false, Message, Meta,
  MetaLaws,
}
use snapshot.Kube.Samples.{kind_eq}
use snapshot.Kube.Objects.{PodSnapshot}
use snapshot.SnapshotJob.Types.{SnapshotJobStatus, SnapshotJobFailure, SnapshotJobObservation}
use snapshot.SnapshotJob.Terminal.{is_pod_snapshot_succeeded, is_pod_snapshot_failed}
use snapshot.SnapshotJob.Status.{
  Next, set_condition, is_on, derive_captured_status, captured_of, derive_failure_status,
  derive_completion_status, derive_source_status, derive_snapshot_job_status, derived, or_now,
  or_text, stop_message, is_captured, completion_of,
}
use snapshot.SnapshotJob.Frame.{derive_source_status-part}
use snapshot.SnapshotJob.Flags.{
  set_condition-is_on, initialize_conditions-is_on, derive_running_status-is_on,
}

pub data Phase : Type 0 where
  ongoing finished broken : Phase

abbrev pub is_finished : Phase → Bool
is_finished finished = true
is_finished _ = false

abbrev pub is_broken : Phase → Bool
is_broken broken = true
is_broken _ = false

module _ (m : Meta) where
  -- Any failure breaks a SnapshotJob, and so does a capture that failed; it is finished when the
  -- capture has succeeded and the source Job is verified to have finished.
  abbrev pub phase_of : Option SnapshotJobFailure → Option PodSnapshot → Bool → Phase
  phase_of (some f) snap done = broken
  phase_of none none done = ongoing
  phase_of none (some snap) done =
      if is_pod_snapshot_failed m snap
      then broken
      else if is_pod_snapshot_succeeded m snap && done
      then finished
      else ongoing

  abbrev pub phase : SnapshotJobObservation → Phase
  phase o = phase_of o.failure o.pod_snapshot o.source_job_finished

-- A status in which nothing is final.
abbrev pub IsOpen : Meta → Next → Type 0
IsOpen m n = (is_on m n completed ≡ false) × (is_on m n failed ≡ false)

-- The flags of a status of the phase, and its completion time, from the one before.
pub record HasPhase (m : Meta) (before : Option ℕ) (now : ℕ) (p : Phase) (after : Next)
    : Type 0 where
  pub failed_flag : is_on m after failed ≡ is_broken p
  pub completed_flag : is_on m after completed ≡ is_finished p
  pub stopped : p ≢ ongoing → is_on m after running ≡ false
  pub ended_at : after.completed_at ≡ elim p [ ongoing ↦ before | _ ↦ or_now before now ]

module _ (m : Meta) (laws : MetaLaws m) where
  mark_failed-HasPhase :
      (f : SnapshotJobFailure) (now : ℕ) (before : Option ℕ) (n : Next) (cause why : Message)
      → n.completed_at ≡ before
      → is_on m n running ≡ false
      → let marked =
          set_condition m
            (set_condition m n completed is_false f.reason cause)
            failed
            is_true
            f.reason
            why in
        HasPhase m before now broken
          (record marked { completed_at = or_now marked.completed_at now })
  mark_failed-HasPhase f now before n cause why same r = record {
    failed_flag = simp (set_condition-is_on m laws);
    completed_flag = simp (set_condition-is_on m laws);
    stopped = λ _. simp (set_condition-is_on m laws, r);
    ended_at = unfold set_condition in ap (λ t. or_now t now) same;
  }

  derive_failure_status-HasPhase :
      (f : SnapshotJobFailure) (now : ℕ) (n : Next)
      → IsOpen m n
      → HasPhase m n.completed_at now broken (derive_failure_status m f now n)
  unfolding derive_failure_status
  derive_failure_status-HasPhase f now n (c, e) = elim (Bool-cases (is_on m n running)) [
    | inl r ↦
        let s = set_condition m n running is_false f.reason stop_message in
        let open_still : is_on m s completed ≡ false = simp (set_condition-is_on m laws, c) in
        rw (r, open_still)
          (mark_failed-HasPhase f now n.completed_at s _ _ (unfold set_condition in refl)
            (simp (set_condition-is_on m laws)))
    | inr r ↦ rw (r, c) (mark_failed-HasPhase f now n.completed_at n _ _ refl r)
  ]

  derive_completion_status-HasPhase :
      (o : SnapshotJobObservation) (now : ℕ) (n : Next)
      → IsOpen m n
      → HasPhase m n.completed_at now
          (if is_captured m o.pod_snapshot && o.source_job_finished then finished else ongoing)
          (derive_completion_status m o now n)
  unfolding derive_completion_status
  derive_completion_status-HasPhase o now n (c, e) =
      by_flags (is_captured m o.pod_snapshot) o.source_job_finished
    where
      waits : HasPhase m n.completed_at now ongoing n
      waits = record {
        failed_flag = e;
        completed_flag = c;
        stopped = λ h. grind arith;
        ended_at = refl;
      }

      by_flags :
          (cap fin : Bool)
          → HasPhase m n.completed_at now
              (if cap && fin then finished else ongoing)
              (completion_of m cap fin now n)
      by_flags false fin = waits
      by_flags true false = record {
        failed_flag = simp (set_condition-is_on m laws, e);
        completed_flag = simp (set_condition-is_on m laws);
        stopped = λ h. grind arith;
        ended_at = unfold set_condition in refl;
      }
      by_flags true true = record {
        failed_flag = simp (set_condition-is_on m laws, e);
        completed_flag = simp (set_condition-is_on m laws);
        stopped = λ _. simp (set_condition-is_on m laws);
        ended_at = unfold set_condition in refl;
      }

  -- A Captured condition that is set changes neither what is open nor when it ended.
  set_captured-IsOpen :
      (n : Next) (st : Status) (r : Str) (msg : Message)
      → IsOpen m n
      → IsOpen m (set_condition m n captured st r msg)
  set_captured-IsOpen n st r msg (c, e) =
      (simp (set_condition-is_on m laws, c), simp (set_condition-is_on m laws, e))

  set_captured-completed_at :
      (n : Next) (st : Status) (r : Str) (msg : Message)
      → (set_condition m n captured st r msg).completed_at ≡ n.completed_at
  unfolding set_condition
  set_captured-completed_at n st r msg = refl

  -- The status after the capture was looked at, and the phase that the failure and the
  -- completion then lead to.
  failed_of :
      (f : SnapshotJobFailure) (now : ℕ) (ended : Option ℕ) (n : Next)
      → n.completed_at ≡ ended
      → IsOpen m n
      → HasPhase m ended now broken (derive_failure_status m f now n)
  failed_of f now ended n p h =
      subst (λ x. HasPhase m x now broken (derive_failure_status m f now n)) p
        (derive_failure_status-HasPhase f now n h)

  completed_of :
      (snap : Option PodSnapshot) (o : SnapshotJobObservation) (now : ℕ) (ended : Option ℕ)
      (n : Next)
      → snap ≡ o.pod_snapshot
      → n.completed_at ≡ ended
      → IsOpen m n
      → HasPhase m ended now
          (if is_captured m snap && o.source_job_finished then finished else ongoing)
          (derive_completion_status m o now n)
  completed_of snap o now ended n p q h =
      subst
        (λ x.
          HasPhase m ended now
            (if is_captured m x && o.source_job_finished then finished else ongoing)
            (derive_completion_status m o now n))
        (sym p)
        (subst
          (λ x.
            HasPhase m x now
              (if is_captured m o.pod_snapshot && o.source_job_finished then finished else ongoing)
              (derive_completion_status m o now n))
          q (derive_completion_status-HasPhase o now n h))

  abbrev bound_to : PodSnapshot → Next → Status → Str → Message → Next
  bound_to snap n st r msg =
      set_condition m
        (record n {
          pod_snapshot_name = snap.name;
          pod_snapshot_uid = or_text n.pod_snapshot_uid snap.uid;
        })
        captured st r msg

  bound_failed :
      (snap : PodSnapshot) (f : SnapshotJobFailure) (now : ℕ) (n : Next) (st : Status) (r : Str)
      (msg : Message)
      → IsOpen m n
      → HasPhase m n.completed_at now broken
          (derive_failure_status m f now (bound_to snap n st r msg))
  bound_failed snap f now n st r msg h =
      failed_of f now n.completed_at _ (set_captured-completed_at _ _ _ _)
        (set_captured-IsOpen _ _ _ _ h)

  bound_completed :
      (snap : PodSnapshot) (o : SnapshotJobObservation) (now : ℕ) (n : Next) (st : Status) (r : Str)
      (msg : Message) (done : Bool)
      → is_pod_snapshot_succeeded m snap ≡ done
      → some snap ≡ o.pod_snapshot
      → IsOpen m n
      → HasPhase m n.completed_at now
          (if done && o.source_job_finished then finished else ongoing)
          (derive_completion_status m o now (bound_to snap n st r msg))
  bound_completed snap o now n st r msg done e p h =
      subst
        (λ x.
          HasPhase m n.completed_at now (if x && o.source_job_finished then finished else ongoing)
            (derive_completion_status m o now (bound_to snap n st r msg)))
        e
        (completed_of (some snap) o now n.completed_at _ p (set_captured-completed_at _ _ _ _)
          (set_captured-IsOpen _ _ _ _ h))

  derived-HasPhase :
      (snap : Option PodSnapshot) (f : Option SnapshotJobFailure) (o : SnapshotJobObservation)
      (now : ℕ) (n : Next)
      → snap ≡ o.pod_snapshot
      → IsOpen m n
      → HasPhase m n.completed_at now
          (phase_of m f snap o.source_job_finished)
          (derived m (captured_of m snap f n) o now)
  derived-HasPhase none none o now n p h = completed_of none o now n.completed_at n p refl h
  derived-HasPhase none (some f) o now n p h = elim (Bool-cases (is_on m n captured)) [
    | inl e ↦ rw e (failed_of f now n.completed_at n refl h)
    | inr e ↦ rw e (
        failed_of f now n.completed_at _ (set_captured-completed_at n _ _ _)
          (set_captured-IsOpen n _ _ _ h))
  ]
  derived-HasPhase (some snap) (some f) o now n p h =
      elim (Bool-cases (is_pod_snapshot_failed m snap)) [
        | inl a ↦ rw a (bound_failed snap f now n _ _ _ h)
        | inr a ↦ elim (Bool-cases (is_pod_snapshot_succeeded m snap)) [
          | inl b ↦ rw (a, b) (bound_failed snap f now n _ _ _ h)
          | inr b ↦ rw (a, b) (bound_failed snap f now n _ _ _ h)
        ]
      ]
  derived-HasPhase (some snap) none o now n p h =
      elim (Bool-cases (is_pod_snapshot_failed m snap)) [
        | inl a ↦ rw a (bound_failed snap _ now n _ _ _ h)
        | inr a ↦ elim (Bool-cases (is_pod_snapshot_succeeded m snap)) [
          | inl b ↦ rw (a, b) (bound_completed snap o now n _ _ _ _ b p h)
          | inr b ↦ rw (a, b) (bound_completed snap o now n _ _ _ _ b p h)
        ]
      ]

  pub derive_source_status-is_on :
      (status : SnapshotJobStatus) (o : SnapshotJobObservation) (now : ℕ) (j : ConditionType)
      → kind_eq running j ≡ false
      → is_on m (derive_source_status m status o now) j ≡ is_on m status j
  unfolding derive_source_status
  derive_source_status-is_on status o now j h =
      derive_running_status-is_on m laws o now _ j h ∙ initialize_conditions-is_on m laws _ j

  -- Where nothing is final yet, the status derived from an observation is the one of its phase:
  -- Failed is True exactly where the observation has a failure, its own or that of the capture,
  -- Completed exactly where there is none, the capture has succeeded and the source Job has
  -- finished; Running is not True in either of these, and the time of completion is set exactly
  -- then.
  pub derive_snapshot_job_status-HasPhase :
      (status : SnapshotJobStatus) (o : SnapshotJobObservation) (now : ℕ)
      → IsOpen m status
      → HasPhase m status.completed_at now (phase m o) (derive_snapshot_job_status m status o now)
  unfolding derive_snapshot_job_status derive_captured_status
  derive_snapshot_job_status-HasPhase status o now (c, e) =
      subst (λ t. HasPhase m t now (phase m o) (derive_snapshot_job_status m status o now))
        (derive_source_status-part (λ n. n.completed_at) (λ n cs. refl) (λ n t. refl) m status o
          now)
        (derived-HasPhase o.pod_snapshot o.failure o now (derive_source_status m status o now) refl
          (
            derive_source_status-is_on status o now completed refl ∙ c,
            derive_source_status-is_on status o now failed refl ∙ e,
          ))
