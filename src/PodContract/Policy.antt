-- ===== src/PodContract/Policy.antt =====
-- The optional parts: the startup gate and the seccomp profile.
use snapshot.Prelude.{
  ℕ, Str, Bool, true, false, ◌&&◌, ◌==◌, Option, none, some, List, [], ◌∷◌, ◌++◌, str_eq, codes,
  if◌then◌else◌,
}
use snapshot.Kube.Condition.{fmt}
use snapshot.PodContract.Types.{
  Result, ok, refused, ◌>>◌, Check, Probe, SeccompProfile, SecurityContext, Container,
}
use snapshot.PodContract.Parts.{snapshot_control_mount_path}
use snapshot.PodContract.Protocol.{restore_complete_file}

-- 30 minutes at a second each
abbrev pub restore_startup_failure_threshold : ℕ
restore_startup_failure_threshold = 1800

-- path.Join of two clean parts.
unfoldable pub canonical_restore_startup_probe : Probe
canonical_restore_startup_probe = record {
  exec_command =
      some (codes "cat" ∷ (snapshot_control_mount_path ++ b'/' ∷ restore_complete_file) ∷ []);
  others = [];
  timeout_seconds = 1;
  period_seconds = 1;
  failure_threshold = restore_startup_failure_threshold;
  success_threshold = 1;
}

unfoldable pub ensure_restore_startup_probe : Container → Container
ensure_restore_startup_probe container = record container {
  startup_probe = some canonical_restore_startup_probe;
}

unfoldable pub same_texts : List Str → List Str → Bool
same_texts [] [] = true
same_texts (s ∷ ss) (t ∷ ts) = str_eq s t && same_texts ss ts
same_texts _ _ = false

abbrev same_command : Option (List Str) → Option (List Str) → Bool
same_command none none = true
same_command (some a) (some b) = same_texts a b
same_command _ _ = false

-- reflect.DeepEqual of two probes
unfoldable pub same_probe : Option Probe → Option Probe → Bool
same_probe none none = true
same_probe (some p) (some q) =
    same_command p.exec_command q.exec_command
    && same_texts p.others q.others
    && p.timeout_seconds == q.timeout_seconds
    && p.period_seconds == q.period_seconds
    && p.failure_threshold == q.failure_threshold
    && p.success_threshold == q.success_threshold
same_probe _ _ = false

unfoldable pub validate_canonical_restore_startup_probe : Container → Check
validate_canonical_restore_startup_probe container =
    if same_probe container.startup_probe (some canonical_restore_startup_probe)
    then ok tt
    else refused
        (fmt (codes "container %q has a conflicting restore startup gate") (container.name ∷ []))

abbrev localhost : Str
localhost = codes "Localhost"

unfoldable pub localhost_seccomp_profile : Str → SeccompProfile
localhost_seccomp_profile profile = record { kind = localhost; localhost_profile = some profile }

abbrev names_profile : Option Str → Str → Bool
names_profile none expected = false
names_profile (some p) expected = str_eq p expected

unfoldable pub matches_localhost_seccomp_profile : Option SeccompProfile → Str → Bool
matches_localhost_seccomp_profile none expected = false
matches_localhost_seccomp_profile (some profile) expected =
    str_eq profile.kind localhost && names_profile profile.localhost_profile expected

abbrev profile_of : Option SecurityContext → Option SeccompProfile
profile_of none = none
profile_of (some c) = c.seccomp_profile

unfoldable pub validate_container_seccomp_profile : Container → Str → Check
validate_container_seccomp_profile container expected =
    if str_eq expected []
    then ok tt
    else if matches_localhost_seccomp_profile (profile_of container.security_context) expected
    then ok tt
    else refused (
        fmt (codes "container %q must use localhost seccomp profile %q")
          (container.name ∷ expected ∷ []))

abbrev pub or_new : Option SecurityContext → SecurityContext
or_new none = record { seccomp_profile = none; others = [] }
or_new (some c) = c

abbrev pub set_profile :
    Container → SecurityContext → Str → Option SeccompProfile → Result Container
set_profile container context expected none = ok (record container {
  security_context =
      some (record context { seccomp_profile = some (localhost_seccomp_profile expected) });
})
set_profile container context expected (some _) = do
  validate_container_seccomp_profile container expected
  ok container

unfoldable pub ensure_container_seccomp_profile : Str → Container → Result Container
ensure_container_seccomp_profile expected container =
    let context = or_new container.security_context in
    let set = set_profile container context expected context.seccomp_profile in
    if str_eq expected [] then ok container else set
