-- ===== src/SnapshotJob/Precedence.antt =====
-- Which of several conditions of a Job decides how it has ended.
use snapshot.Prelude.{
  ◌≡◌, refl, ap, ◌∙◌, inl, inr, Bool, true, false, ◌||◌, Option, none, some, List, [], ◌∷◌,
  if◌then◌else◌, Bool-cases,
}
use snapshot.SnapshotJob.Types.{JobCondition, Job}
use snapshot.SnapshotJob.Terminal.{
  SourceJobState, source_job_active, source_job_complete, source_job_failed,
  source_job_deadline_exceeded, is_complete, is_job_failed, is_failure_target, is_deadline, first,
  or_else, classify_source_job_terminal,
}

pub data End : Type 0 where
  active complete failed deadline : End

abbrev pub end_of : SourceJobState → End
end_of source_job_active = active
end_of source_job_complete = complete
end_of (source_job_failed f) = failed
end_of (source_job_deadline_exceeded f) = deadline

-- Whether a condition of the Job is of a kind, wherever it stands.
unfoldable pub has : (JobCondition → Bool) → List JobCondition → Bool
has p [] = false
has p (c ∷ cs) = p c || has p cs

-- The precedence that the code is meant to have, by the conditions that the Job has.
abbrev pub end_by : Bool → Bool → Bool → End
end_by late broke done =
    if late then deadline else if broke then failed else if done then complete else active

abbrev found : Option JobCondition → Bool
found none = false
found (some c) = true

first-has : (p : JobCondition → Bool) (cs : List JobCondition) → found (first p cs) ≡ has p cs
unfolding first has
first-has p [] = refl
first-has p (c ∷ cs) = elim (Bool-cases (p c)) [ inl e ↦ rw e refl | inr e ↦ rw e (first-has p cs) ]

or_else-end_of :
    (o : Option JobCondition) (f : JobCondition → SourceJobState) (rest : SourceJobState) (e : End)
    → ((c : JobCondition) → end_of (f c) ≡ e)
    → end_of (or_else o f rest) ≡ (if found o then e else end_of rest)
or_else-end_of none f rest e h = refl
or_else-end_of (some c) f rest e h = h c

-- How a Job is taken to have ended depends on which conditions it has and not on their order: a
-- deadline that passed outranks a failure, a failure or its announcement outranks a completion,
-- and a Job with none of these is active.
pub classify_source_job_terminal-end :
    (job : Job)
    → end_of (classify_source_job_terminal job)
      ≡ end_by
          (has is_deadline job.conditions)
          (has is_job_failed job.conditions || has is_failure_target job.conditions)
          (has is_complete job.conditions)
unfolding classify_source_job_terminal
classify_source_job_terminal-end job =
    let cs = job.conditions in
    or_else-end_of (first is_deadline cs) _ _ deadline (λ c. refl)
    ∙ ap (λ e. if found (first is_deadline cs) then deadline else e)
        (or_else-end_of (first is_job_failed cs) _ _ failed (λ c. refl)
          ∙ ap (λ e. if found (first is_job_failed cs) then failed else e)
              (or_else-end_of (first is_failure_target cs) _ _ failed (λ c. refl)
                ∙ ap (λ e. if found (first is_failure_target cs) then failed else e)
                    (or_else-end_of (first is_complete cs) _ _ complete (λ c. refl))))
    ∙ rw
        (
          first-has is_deadline cs,
          first-has is_job_failed cs,
          first-has is_failure_target cs,
          first-has is_complete cs,
        )
        (by_flags (has is_deadline cs) (has is_job_failed cs) (has is_failure_target cs)
          (has is_complete cs))
  where
    by_flags :
        (l f t d : Bool)
        → (if l
            then deadline
            else if f
            then failed
            else if t
            then failed
            else if d
            then complete
            else active)
          ≡ end_by l (f || t) d
    by_flags true f t d = refl
    by_flags false true t d = refl
    by_flags false false true d = refl
    by_flags false false false d = refl
