-- ===== src/Agent/Failure.antt =====
-- capture_failure.go: why an attempt failed, from its error alone.
use snapshot.Prelude.{Str, Bool, true, false, ◌||◌, Option, none, some, codes, if◌then◌else◌}

-- pagebroker.Failure
pub data FailureCode : Type 0 where
  insufficient_storage storage_error internal_error unavailable storage_unavailable : FailureCode
  transaction_not_found transaction_expired invalid_request transaction_conflict : FailureCode
  store_mismatch access_denied unsupported_artifact artifact_corrupt other_code : FailureCode

-- An error that wraps none, as far as the code tells them apart.
pub data Cause : Type 0 where
  deadline_exceeded other_cause : Cause
  broker_failure : FailureCode → Cause

mutual
  pub data CaptureError : Type 0 where
    plain : Cause → CaptureError
    wrapped : CaptureError → CaptureError
    -- executor.CleanupFailure, which wraps too
    cleanup : CaptureError → CaptureError
    joined : Parts → CaptureError

  -- The parts of a joined error.
  pub data Parts : Type 0 where
    no_parts : Parts
    part : CaptureError → Parts → Parts

pub record CaptureFailure : Type 0 where
  pub reason : Str
  pub retryable : Bool

-- executor.IsCleanupFailure: errors.As looks through everything that is wrapped and joined.
unfoldable mutual
  pub is_cleanup_failure : CaptureError → Bool
  is_cleanup_failure (plain c) = false
  is_cleanup_failure (wrapped e) = is_cleanup_failure e
  is_cleanup_failure (cleanup e) = true
  is_cleanup_failure (joined parts) = has_cleanup_failure parts

  pub has_cleanup_failure : Parts → Bool
  has_cleanup_failure no_parts = false
  has_cleanup_failure (part e parts) = is_cleanup_failure e || has_cleanup_failure parts

-- The loop of captureCause on the error `current`, and its inner loop; `err` is the error that
-- the function was called with.
unfoldable mutual
  pub cause_from : CaptureError → CaptureError → CaptureError
  cause_from err (plain c) = err
  cause_from err (wrapped current) = cause_from err current
  cause_from err (cleanup current) = cause_from err current
  cause_from err (joined parts) = first_cause err parts

  pub first_cause : CaptureError → Parts → CaptureError
  first_cause err no_parts = err
  first_cause err (part e parts) =
      let rest = first_cause err parts in
      let found = cause_from e e in if is_cleanup_failure e then rest else found

unfoldable pub capture_cause : CaptureError → CaptureError
capture_cause err = cause_from err err

abbrev is_deadline_exceeded : Cause → Bool
is_deadline_exceeded deadline_exceeded = true
is_deadline_exceeded _ = false

-- errors.Is with context.DeadlineExceeded
unfoldable mutual
  pub exceeds_deadline : CaptureError → Bool
  exceeds_deadline (plain c) = is_deadline_exceeded c
  exceeds_deadline (wrapped e) = exceeds_deadline e
  exceeds_deadline (cleanup e) = exceeds_deadline e
  exceeds_deadline (joined parts) = any_exceeds parts

  pub any_exceeds : Parts → Bool
  any_exceeds no_parts = false
  any_exceeds (part e parts) = exceeds_deadline e || any_exceeds parts

abbrev code_of : Cause → Option FailureCode
code_of (broker_failure code) = some code
code_of _ = none

abbrev or_code : Option FailureCode → Option FailureCode → Option FailureCode
or_code none other = other
or_code (some code) other = some code

-- errors.As with pagebroker.FailureError
unfoldable mutual
  pub failure_code : CaptureError → Option FailureCode
  failure_code (plain c) = code_of c
  failure_code (wrapped e) = failure_code e
  failure_code (cleanup e) = failure_code e
  failure_code (joined parts) = first_code parts

  pub first_code : Parts → Option FailureCode
  first_code no_parts = none
  first_code (part e parts) = or_code (failure_code e) (first_code parts)

abbrev checkpoint_failed : Bool → CaptureFailure
checkpoint_failed retryable = record { reason = codes "CheckpointFailed"; retryable = retryable }

abbrev pub for_good : Str → CaptureFailure
for_good reason = record { reason = reason; retryable = false }

unfoldable pub failure_of_code : Option FailureCode → CaptureFailure
failure_of_code none = checkpoint_failed false
failure_of_code (some insufficient_storage) = record {
  reason = codes "StagingUnavailable";
  retryable = true;
}
failure_of_code (some storage_error) = checkpoint_failed true
failure_of_code (some internal_error) = checkpoint_failed true
failure_of_code (some unavailable) = checkpoint_failed true
failure_of_code (some storage_unavailable) = checkpoint_failed true
failure_of_code (some transaction_not_found) = for_good (codes "StagedDataLost")
failure_of_code (some transaction_expired) = for_good (codes "StagedDataLost")
failure_of_code (some invalid_request) = for_good (codes "BrokerRejected")
failure_of_code (some transaction_conflict) = for_good (codes "BrokerRejected")
failure_of_code (some store_mismatch) = for_good (codes "BrokerRejected")
failure_of_code (some access_denied) = for_good (codes "BrokerRejected")
failure_of_code (some unsupported_artifact) = for_good (codes "BrokerRejected")
failure_of_code (some artifact_corrupt) = for_good (codes "BrokerRejected")
failure_of_code (some other_code) = checkpoint_failed false

unfoldable pub classify_capture_failure : CaptureError → CaptureFailure
classify_capture_failure err =
    let cause = capture_cause err in
    if exceeds_deadline cause
    then for_good (codes "CheckpointTimeout")
    else failure_of_code (failure_code cause)
