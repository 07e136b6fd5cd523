-- ===== src/PodContract/Accepts.antt =====
-- Shaping the destinations of a pod, one after the other.
use snapshot.Prelude.{
  ℕ, if◌then◌else◌, ◌≡◌, refl, ap, ◌∙◌, subst, Str, Bool, true, false, Option, none, some, [], ◌∷◌,
  str_eq, str_eq_refl, arith,
}
use snapshot.Kube.Result.{bind-ok, ok-injective}
use snapshot.PodContract.Types.{ok, Container, Options, SecurityContext, SeccompProfile}
use snapshot.PodContract.Parts.{
  has_valid_control_mount, has_valid_control_env, snapshot_control_dir_env,
  legacy_snapshot_control_dir_env, ensure_control_mount, ensure_control_environment,
}
use snapshot.PodContract.Policy.{
  set_profile, or_new, ensure_container_seccomp_profile, validate_container_seccomp_profile,
  ensure_restore_startup_probe, validate_canonical_restore_startup_probe, same_probe, same_texts,
  canonical_restore_startup_probe, matches_localhost_seccomp_profile, localhost_seccomp_profile,
}
use snapshot.PodContract.Build.{ensure_container}
use snapshot.PodContract.Shape.{
  ensure_control_mount-has_valid_control_mount, ensure_control_environment-has_valid_control_env,
}

-- The container satisfies every check.
pub record IsShaped (options : Options) (c : Container) : Type 0 where
  pub mounted : has_valid_control_mount c ≡ ok true
  pub directed : has_valid_control_env c snapshot_control_dir_env ≡ ok true
  pub legacy : has_valid_control_env c legacy_snapshot_control_dir_env ≡ ok true
  pub confined : validate_container_seccomp_profile c options.seccomp_profile ≡ ok tt
  pub gated :
      options.enable_startup_gate ≡ true → validate_canonical_restore_startup_probe c ≡ ok tt

localhost-matches :
    (expected : Str)
    → matches_localhost_seccomp_profile (some (localhost_seccomp_profile expected)) expected ≡ true
unfolding matches_localhost_seccomp_profile localhost_seccomp_profile str_eq
localhost-matches expected = str_eq_refl expected

-- The profile is in force, and nothing but the security context has changed.
abbrev IsConfined : Str → Container → Container → Type 0
IsConfined expected c c' =
    (context : Option SecurityContext) × (record c { security_context = context } ≡ c')
    × (validate_container_seccomp_profile (record c { security_context = context }) expected
        ≡ ok tt)

set_profile-IsConfined :
    (x : ℕ) (s : Str) (c : Container) (context : SecurityContext) (p : Option SeccompProfile)
    {c' : Container}
    → set_profile c context (x ∷ s) p ≡ ok c'
    → IsConfined (x ∷ s) c c'
unfolding validate_container_seccomp_profile str_eq
set_profile-IsConfined x s c context none e =
    (_, ok-injective e, rw (localhost-matches (x ∷ s)) refl)
set_profile-IsConfined x s c context (some p) e =
    let (_, valid, same) = bind-ok (validate_container_seccomp_profile c (x ∷ s)) e in
    (c.security_context, ok-injective same, valid)

ensure_container_seccomp_profile-IsConfined :
    (expected : Str) (c : Container) {c' : Container}
    → ensure_container_seccomp_profile expected c ≡ ok c'
    → IsConfined expected c c'
unfolding ensure_container_seccomp_profile validate_container_seccomp_profile str_eq
ensure_container_seccomp_profile-IsConfined [] c e = (c.security_context, ok-injective e, refl)
ensure_container_seccomp_profile-IsConfined (x ∷ s) c e =
    set_profile-IsConfined x s c (or_new c.security_context) _ e

gate-accepts :
    (c : Container)
    → validate_canonical_restore_startup_probe (ensure_restore_startup_probe c) ≡ ok tt
unfolding validate_canonical_restore_startup_probe ensure_restore_startup_probe same_probe
    canonical_restore_startup_probe same_texts str_eq
gate-accepts c = refl

-- The gate changes the startup probe only.
gate-IsShaped :
    (options : Options) (b : Bool) (c : Container)
    → options.enable_startup_gate ≡ b
    → has_valid_control_mount c ≡ ok true
    → has_valid_control_env c snapshot_control_dir_env ≡ ok true
    → has_valid_control_env c legacy_snapshot_control_dir_env ≡ ok true
    → validate_container_seccomp_profile c options.seccomp_profile ≡ ok tt
    → ((if b then ensure_restore_startup_probe c else c).name ≡ c.name)
      × IsShaped options (if b then ensure_restore_startup_probe c else c)
unfolding ensure_restore_startup_probe has_valid_control_mount has_valid_control_env
    validate_container_seccomp_profile
gate-IsShaped options true c e m d l s = (
  refl,
  record { mounted = m; directed = d; legacy = l; confined = s; gated = λ _. gate-accepts c },
)
gate-IsShaped options false c e m d l s = (
  refl,
  record { mounted = m; directed = d; legacy = l; confined = s; gated = λ on. grind arith },
)

pub ensure_container-IsShaped :
    (options : Options) (c : Container) {c' : Container}
    → ensure_container options c ≡ ok c'
    → (c'.name ≡ c.name) × IsShaped options c'
unfolding ensure_container has_valid_control_mount has_valid_control_env
    validate_container_seccomp_profile
ensure_container-IsShaped options c e =
    let (c1, e1, f1) = bind-ok (ensure_container_seccomp_profile options.seccomp_profile c) e in
    let (c2, e2, f2) = bind-ok (ensure_control_mount c1) f1 in
    let (c3, e3, f3) = bind-ok (ensure_control_environment c2) f2 in
    let (context, p1, confined) =
      ensure_container_seccomp_profile-IsConfined options.seccomp_profile c e1 in
    let (mounts, p2, mounted) =
      ensure_control_mount-has_valid_control_mount (record c { security_context = context })
        (ap ensure_control_mount p1 ∙ e2) in
    let (env, p3, directed, legacy) =
      ensure_control_environment-has_valid_control_env
        (record c { security_context = context; volume_mounts = mounts })
        (ap ensure_control_environment p2 ∙ e3) in
    subst (λ x. (x.name ≡ c.name) × IsShaped options x)
      (ap (λ x. if options.enable_startup_gate then ensure_restore_startup_probe x else x) p3
        ∙ ok-injective f3)
      (gate-IsShaped options options.enable_startup_gate
        (record c { security_context = context; volume_mounts = mounts; env = env }) refl mounted
        directed legacy confined)
