-- ===== src/PodContract/Shape.antt =====
-- What shaping one container leaves: every part that the checks look for.
use snapshot.Prelude.{
  ◌≡◌, refl, sym, ap, ◌∙◌, inl, inr, ◌⊎◌, Str, Bool, true, false, none, List, str_eq, str_eq_refl,
  arith,
}
use snapshot.Kube.Result.{bind-ok}
use snapshot.PodContract.Types.{Result, ok, refused, Container, PodSpec, VolumeMount, EnvVar}
use snapshot.PodContract.Scan.{at_most_one-append, at_most_one-other}
use snapshot.PodContract.Parts.{
  add_unless, concerns_volume, bad_volume, concerns_mount, bad_env, control_volume, control_mount,
  control_env, has_valid_control_volume, has_valid_control_mount, has_valid_control_env,
  ensure_control_volume, ensure_control_mount, ensure_control_env, ensure_control_environment,
  snapshot_control_dir_env, legacy_snapshot_control_dir_env, validate_control_mount_value,
  is_empty_dir_volume_source,
}

-- Either the thing was there, or it was added.
pub add_unless-cases {ℓ} :
    {A : Type ℓ} (a b : A) (q : Result Bool) {r : A}
    → add_unless a b q ≡ ok r
    → ((q ≡ ok true) × (a ≡ r)) ⊎ ((q ≡ ok false) × (b ≡ r))
add_unless-cases a b (ok true) h = inl (refl, cc)
add_unless-cases a b (ok false) h = inr (refl, cc)
add_unless-cases a b (refused e) h = grind arith

control_volume_concerns : concerns_volume control_volume ≡ true
unfolding str_eq
control_volume_concerns = refl

control_volume_good : bad_volume control_volume ≡ none
unfolding is_empty_dir_volume_source
control_volume_good = refl

control_mount_concerns : (name : Str) → concerns_mount (control_mount name) ≡ true
unfolding str_eq
control_mount_concerns name = refl

control_env_good : (container name : Str) → bad_env container name (control_env name) ≡ none
unfolding str_eq
control_env_good container name = refl

control_mount_good : (name : Str) → validate_control_mount_value name (control_mount name) ≡ none
unfolding validate_control_mount_value str_eq
control_mount_good name = rw (str_eq_refl name) refl

pub ensure_control_volume-has_valid_control_volume :
    (spec : PodSpec) {spec' : PodSpec}
    → ensure_control_volume spec ≡ ok spec'
    → has_valid_control_volume spec' ≡ ok true
unfolding ensure_control_volume has_valid_control_volume
ensure_control_volume-has_valid_control_volume spec e = elim (add_unless-cases _ _ _ e) [
  | inl (there, same) ↦ ap has_valid_control_volume (sym same) ∙ there
  | inr (missing, added) ↦
      ap has_valid_control_volume (sym added)
      ∙ at_most_one-append _ _ _ control_volume control_volume_concerns control_volume_good
          spec.volumes missing
]

-- The control mount is there, and nothing else has changed.
pub ensure_control_mount-has_valid_control_mount :
    (c : Container) {c' : Container}
    → ensure_control_mount c ≡ ok c'
    → (mounts : List VolumeMount) × (record c { volume_mounts = mounts } ≡ c')
      × (has_valid_control_mount (record c { volume_mounts = mounts }) ≡ ok true)
unfolding ensure_control_mount has_valid_control_mount
ensure_control_mount-has_valid_control_mount c e = elim (add_unless-cases _ _ _ e) [
  | inl (there, same) ↦ (c.volume_mounts, same, there)
  | inr (missing, added) ↦ (
    _,
    added,
    at_most_one-append _ _ _ (control_mount c.name) (control_mount_concerns c.name)
        (control_mount_good c.name) c.volume_mounts missing,
  )
]

-- The variable is there, any other is as before, and nothing else has changed.
ensure_control_env-has_valid_control_env :
    (name : Str) (c : Container) {c' : Container}
    → ensure_control_env name c ≡ ok c'
    → (env : List EnvVar) × (record c { env = env } ≡ c')
      × (has_valid_control_env (record c { env = env }) name ≡ ok true)
      × ((other : Str)
          → str_eq name other ≡ false
          → has_valid_control_env (record c { env = env }) other ≡ has_valid_control_env c other)
unfolding ensure_control_env has_valid_control_env
ensure_control_env-has_valid_control_env name c e = elim (add_unless-cases _ _ _ e) [
  | inl (there, same) ↦ (c.env, same, there, λ other ne. refl)
  | inr (missing, added) ↦ (
    _,
    added,
    at_most_one-append _ _ _ (control_env name) (str_eq_refl name) (control_env_good c.name name)
        c.env missing,
    λ other ne. at_most_one-other _ _ _ (control_env name) ne false c.env,
  )
]

pub ensure_control_environment-has_valid_control_env :
    (c : Container) {c' : Container}
    → ensure_control_environment c ≡ ok c'
    → (env : List EnvVar) × (record c { env = env } ≡ c')
      × (has_valid_control_env (record c { env = env }) snapshot_control_dir_env ≡ ok true)
      × (has_valid_control_env (record c { env = env }) legacy_snapshot_control_dir_env ≡ ok true)
unfolding ensure_control_environment
ensure_control_environment-has_valid_control_env c e =
    let (c1, e1, e2) = bind-ok (ensure_control_env snapshot_control_dir_env c) e in
    let (env1, q1, v1, _) =
      ensure_control_env-has_valid_control_env snapshot_control_dir_env c e1 in
    let (env2, q2, v2, keeps) =
      ensure_control_env-has_valid_control_env legacy_snapshot_control_dir_env
        (record c { env = env1 })
        (ap (ensure_control_env legacy_snapshot_control_dir_env) q1 ∙ e2) in
    (env2, q2, keeps snapshot_control_dir_env (unfold str_eq in refl) ∙ v1, v2)
