-- ===== src/PodContract/Protocol.antt =====
-- The restore-complete file of protocol.go, and the outcome of restore_status.go.
use snapshot.Prelude.{
  ℕ, Str, Bool, true, false, Option, none, some, List, [], ◌∷◌, ◌++◌, ◌==◌, ltb, str_eq, codes, cut,
  trim_space, itoa, atoi_digits, contains, cons_head, if◌then◌else◌,
}
use snapshot.Kube.Condition.{fmt, Status, is_true, is_false, is_unknown}
use snapshot.PodContract.Types.{Result, ok, refused, ◌>>=◌}

abbrev pub restore_complete_file : Str
restore_complete_file = codes "restore-complete"

abbrev pub restore_failed_file : Str
restore_failed_file = codes "restore-failed"

abbrev pub restore_proxy_binary_name : Str
restore_proxy_binary_name = codes "snapshot-restore-proxy"

abbrev pub cuda_job_file_name : Str
cuda_job_file_name = codes "cuda-checkpoint-job"

abbrev pub restore_complete_pid_key : Str
restore_complete_pid_key = codes "pid"

unfoldable pub is_reserved_control_file : Str → Bool
is_reserved_control_file name = contains name (
    restore_complete_file ∷ restore_failed_file ∷ restore_proxy_binary_name ∷ cuda_job_file_name
    ∷ [])

-- FormatRestoreComplete
unfoldable pub format_restore_complete : ℕ → Str
format_restore_complete pid = restore_complete_pid_key ++ b'=' ∷ (itoa pid ++ 10 ∷ [])

-- strings.Lines: each line with its newline.
unfoldable pub lines : Str → List Str
lines [] = []
lines (c ∷ s) = let rest = lines s in if c == 10 then (c ∷ []) ∷ rest else cons_head c rest

-- strconv.Atoi followed by the test that the number is positive: `none` where either fails. A
-- number with a minus sign fails one of the two.
abbrev positive : Option ℕ → Option ℕ
positive none = none
positive (some n) = if ltb 0 n then some n else none

unfoldable pub positive_atoi : Str → Option ℕ
positive_atoi [] = none
positive_atoi (c ∷ s) =
    if c == b'-' then none else positive (atoi_digits (if c == b'+' then s else c ∷ s))

-- One line, with the PID read so far, 0 for none.
abbrev pub read_pid : ℕ → Str → Str → Result ℕ
read_pid pid key value =
    if ltb 0 pid
    then refused (fmt (codes "duplicate %s key %q") (restore_complete_file ∷ key ∷ []))
    else elim (positive_atoi value) [
      | none ↦ refused (fmt (codes "invalid %s %s %q") (restore_complete_file ∷ key ∷ value ∷ []))
      | some n ↦ ok n
    ]

abbrev pub read_pair : ℕ → Str → Option (Str × Str) → Result ℕ
read_pair pid line none =
    refused
      (fmt (codes "invalid %s line %q: expected key=value") (restore_complete_file ∷ line ∷ []))
read_pair pid line (some (key, value)) =
    if str_eq key restore_complete_pid_key then read_pid pid key value else ok pid

unfoldable pub parse_line : ℕ → Str → Result ℕ
parse_line pid line = if str_eq line [] then ok pid else read_pair pid line (cut b'=' line)

unfoldable pub parse_lines : ℕ → List Str → Result ℕ
parse_lines pid [] = ok pid
parse_lines pid (line ∷ rest) = parse_line pid (trim_space line) >>= λ pid'. parse_lines pid' rest

abbrev pub require_pid : ℕ → Result ℕ
require_pid pid =
    if pid == 0
    then refused
        (fmt (codes "%s has no %s") (restore_complete_file ∷ restore_complete_pid_key ∷ []))
    else ok pid

-- ParseRestoreComplete
unfoldable pub parse_restore_complete : Str → Result ℕ
parse_restore_complete content = parse_lines 0 (lines content) >>= require_pid

pub data RestoreOutcome : Type 0 where
  outcome_unknown outcome_pending outcome_succeeded outcome_failed outcome_partially_succeeded :
      RestoreOutcome

unfoldable pub terminal : RestoreOutcome → Bool
terminal outcome_succeeded = true
terminal outcome_failed = true
terminal outcome_partially_succeeded = true
terminal _ = false

-- corev1.PodCondition
pub record PodCondition : Type 0 where
  pub kind : Str
  pub status : Status
  pub reason : Str

abbrev pub restored_condition : Str
restored_condition = codes "nvidia.com/Restored"

abbrev pub restore_reason_in_progress : Str
restore_reason_in_progress = codes "RestoreInProgress"

abbrev pub restore_reason_succeeded : Str
restore_reason_succeeded = codes "RestoreSucceeded"

abbrev pub restore_reason_failed : Str
restore_reason_failed = codes "RestoreFailed"

abbrev pub restore_reason_partially_succeeded : Str
restore_reason_partially_succeeded = codes "RestorePartiallySucceeded"

abbrev pub restore_reason_incompatible : Str
restore_reason_incompatible = codes "RestoreIncompatible"

unfoldable pub outcome_of_reason : Str → RestoreOutcome
outcome_of_reason reason =
    if contains reason (restore_reason_failed ∷ restore_reason_incompatible ∷ [])
    then outcome_failed
    else if str_eq reason restore_reason_partially_succeeded
    then outcome_partially_succeeded
    else if str_eq reason restore_reason_in_progress
    then outcome_pending
    else outcome_unknown

abbrev pub outcome_of : Status → Str → RestoreOutcome
outcome_of is_true reason = outcome_succeeded
outcome_of is_false reason = outcome_of_reason reason
outcome_of is_unknown reason = outcome_unknown

unfoldable pub classify_restore_outcome : List PodCondition → RestoreOutcome
classify_restore_outcome [] = outcome_pending
classify_restore_outcome (c ∷ cs) =
    let rest = classify_restore_outcome cs in
    if str_eq c.kind restored_condition then outcome_of c.status c.reason else rest
