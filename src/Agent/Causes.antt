-- ===== src/Agent/Causes.antt =====
-- A cleanup that failed beside a capture does not decide why the capture failed.
use snapshot.Prelude.{
  ℕ, zero, suc, ◌≡◌, refl, ap, ◌∙◌, true, false, List, [], ◌∷◌, codes, if◌then◌else◌, All,
}
use snapshot.Agent.Failure.{
  is_cleanup_failure, CaptureError, wrapped, joined, Parts, part, cause_from, first_cause,
  capture_cause, exceeds_deadline, failure_code, failure_of_code, classify_capture_failure,
  for_good,
}

-- Some parts in front of others.
abbrev pub after_cleanups : List CaptureError → Parts → Parts
after_cleanups [] parts = parts
after_cleanups (e ∷ es) parts = part e (after_cleanups es parts)

abbrev pub AreCleanups : List CaptureError → Type 0
AreCleanups es = All (λ e. is_cleanup_failure e ≡ true) es

abbrev pub wrapped_times : ℕ → CaptureError → CaptureError
wrapped_times zero e = e
wrapped_times (suc n) e = wrapped (wrapped_times n e)

first_cause-after_cleanups :
    (err e : CaptureError) (es : List CaptureError) (parts : Parts)
    → AreCleanups es
    → is_cleanup_failure e ≡ false
    → first_cause err (after_cleanups es (part e parts)) ≡ capture_cause e
unfolding first_cause capture_cause
first_cause-after_cleanups err e [] parts h own = rw own refl
first_cause-after_cleanups err e (c ∷ es) parts h own =
    rw h.0 (first_cause-after_cleanups err e es parts h.1 own)

cause_from-wrapped_times :
    (err e : CaptureError) (n : ℕ) → cause_from err (wrapped_times n e) ≡ cause_from err e
unfolding cause_from
cause_from-wrapped_times err e zero = refl
cause_from-wrapped_times err e (suc n) = cause_from-wrapped_times err e n

joined_cause :
    (err e : CaptureError) (es : List CaptureError) (parts : Parts)
    → AreCleanups es
    → is_cleanup_failure e ≡ false
    → cause_from err (joined (after_cleanups es (part e parts))) ≡ capture_cause e
unfolding cause_from
joined_cause err e es parts h own = first_cause-after_cleanups err e es parts h own

-- Where an error, wrapped any number of times, joins parts of which the first have a failed cleanup
-- in them, at whatever depth, and the next has none, the failure is the one of that next part,
-- whatever follows it.
pub classify_capture_failure-after_cleanups :
    (n : ℕ) (es : List CaptureError) (e : CaptureError) (parts : Parts)
    → AreCleanups es
    → is_cleanup_failure e ≡ false
    → classify_capture_failure (wrapped_times n (joined (after_cleanups es (part e parts))))
      ≡ classify_capture_failure e
unfolding classify_capture_failure capture_cause
classify_capture_failure-after_cleanups n es e parts h own =
    let whole = wrapped_times n (joined (after_cleanups es (part e parts))) in
    ap
      (λ c.
        if exceeds_deadline c
        then for_good (codes "CheckpointTimeout")
        else failure_of_code (failure_code c))
      (cause_from-wrapped_times whole (joined (after_cleanups es (part e parts))) n
        ∙ joined_cause whole e es parts h own)
