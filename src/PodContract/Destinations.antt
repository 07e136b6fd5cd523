-- ===== src/PodContract/Destinations.antt =====
-- Every destination of a shaped pod passes the checks that follow the shaping.
use snapshot.Prelude.{
  ◌≡◌, refl, sym, ap, ◌∙◌, subst, inl, inr, Str, Bool, true, false, some, List, [], ◌∷◌, str_eq,
  Bool-cases, All, if◌then◌else◌, if-cases, arith,
}
use snapshot.Kube.Result.{bind-ok, ok-injective}
use snapshot.PodContract.Types.{ok, ◌>>◌, Check, ContainerMapping, Container, PodSpec, Options}
use snapshot.PodContract.Parts.{
  validate_control_mount, validate_control_environment, validate_control_volume,
  ensure_control_volume, has_valid_control_volume,
}
use snapshot.PodContract.Build.{
  find_container, at_container, ensure_container, ensure_destinations, ensure_restore_pod_spec,
  validate_destinations, validate_policy, validate_found, validate_found_policy,
}
use snapshot.PodContract.Shape.{ensure_control_volume-has_valid_control_volume}
use snapshot.PodContract.Accepts.{IsShaped, ensure_container-IsShaped}

-- The two checks of the policy loop, the first where it is asked for.
both-Ok :
    (b : Bool) {first second : Check}
    → (b ≡ true → first ≡ ok tt)
    → second ≡ ok tt
    → (if b then first >> second else second) ≡ ok tt
both-Ok true h k = rw (h refl, k) refl
both-Ok false h k = k

module _ (c : Container) (cs : List Container) (name : Str) where
  find_container-here : str_eq c.name name ≡ true → find_container (c ∷ cs) name ≡ some c
  unfolding find_container
  find_container-here h = rw h refl

  find_container-later :
      str_eq c.name name ≡ false → find_container (c ∷ cs) name ≡ find_container cs name
  unfolding find_container
  find_container-later h = rw h refl

module _ (options : Options) where
  -- The first container of the name is there, and satisfies every check.
  abbrev IsShapedAt : List Container → Str → Type 0
  IsShapedAt cs name = (c : Container) × (find_container cs name ≡ some c) × IsShaped options c

  -- A container that is replaced by a shaped one of its name.
  replace-IsShapedAt :
      (c c' : Container) (cs : List Container) (other : Str)
      → c'.name ≡ c.name
      → IsShaped options c'
      → IsShapedAt (c ∷ cs) other
      → IsShapedAt (c' ∷ cs) other
  replace-IsShapedAt c c' cs other p shaped (d, found, h) =
      elim (Bool-cases (str_eq c.name other)) [
        | inl here ↦
            (c', find_container-here c' cs other (ap (λ n. str_eq n other) p ∙ here), shaped)
        | inr later ↦ (
          d,
          find_container-later c' cs other (ap (λ n. str_eq n other) p ∙ later)
              ∙ sym (find_container-later c cs other later)
              ∙ found,
          h,
        )
      ]

  -- Whatever stands behind a container of another name.
  cons-IsShapedAt :
      (c : Container) (cs : List Container) (other : Str)
      → str_eq c.name other ≡ false
      → IsShapedAt cs other
      → IsShapedAt (c ∷ cs) other
  cons-IsShapedAt c cs other ne (d, found, h) = (d, find_container-later c cs other ne ∙ found, h)

  keep-IsShapedAt :
      (c : Container) (cs cs' : List Container) (other : Str)
      → (IsShapedAt cs other → IsShapedAt cs' other)
      → IsShapedAt (c ∷ cs) other
      → IsShapedAt (c ∷ cs') other
  keep-IsShapedAt c cs cs' other keeps (d, found, h) = elim (Bool-cases (str_eq c.name other)) [
    | inl here ↦ (
      d,
      find_container-here c cs' other here ∙ sym (find_container-here c cs other here) ∙ found,
      h,
    )
    | inr later ↦
        cons-IsShapedAt c cs' other later
          (keeps (d, sym (find_container-later c cs other later) ∙ found, h))
  ]

  -- What shaping the container of one name leaves.
  abbrev IsShapedBy : Str → List Container → List Container → Type 0
  IsShapedBy name cs cs' =
      IsShapedAt cs' name × ((other : Str) → IsShapedAt cs other → IsShapedAt cs' other)

  at_container-IsShapedBy :
      (name : Str) (cs : List Container) {cs' : List Container}
      → at_container name (ensure_container options) cs ≡ ok cs'
      → IsShapedBy name cs cs'
  unfolding at_container
  at_container-IsShapedBy name [] e = grind arith
  at_container-IsShapedBy name (c ∷ cs) e = elim (if-cases (str_eq c.name name) e) [
    | inl (here, e1) ↦
        let (c', shape, same) = bind-ok (ensure_container options c) e1 in
        let (p, shaped) = ensure_container-IsShaped options c shape in
        subst (IsShapedBy name (c ∷ cs)) (ok-injective same) (
          (c', find_container-here c' cs name (ap (λ n. str_eq n name) p ∙ here), shaped),
          λ other. replace-IsShapedAt c c' cs other p shaped,
        )
    | inr (later, e1) ↦
        let (rest, shape, same) = bind-ok (at_container name (ensure_container options) cs) e1 in
        let (there, keeps) = at_container-IsShapedBy name cs shape in
        subst (IsShapedBy name (c ∷ cs)) (ok-injective same) (
          cons-IsShapedAt c rest name later there,
          λ other. keep-IsShapedAt c cs rest other (keeps other),
        )
  ]

  ensure_destinations-IsShapedAt :
      (mappings : List ContainerMapping) (cs : List Container) {cs' : List Container}
      → ensure_destinations options mappings cs ≡ ok cs'
      → All (λ m. IsShapedAt cs' m.destination) mappings
        × ((other : Str) → IsShapedAt cs other → IsShapedAt cs' other)
  unfolding ensure_destinations
  ensure_destinations-IsShapedAt [] cs e =
      (tt, λ other h. subst (λ x. IsShapedAt x other) (ok-injective e) h)
  ensure_destinations-IsShapedAt (m ∷ mappings) cs e =
      let (cs1, e1, e2) = bind-ok (at_container m.destination (ensure_container options) cs) e in
      let (there, keeps1) = at_container-IsShapedBy m.destination cs e1 in
      let (all, keeps) = ensure_destinations-IsShapedAt mappings cs1 e2 in
      ((keeps m.destination there, all), λ other h. keeps other (keeps1 other h))

  validate_found-IsShaped :
      (name : Str) (c : Container)
      → IsShaped options c
      → (validate_found name (some c) ≡ ok tt) × (validate_found_policy options (some c) ≡ ok tt)
  unfolding validate_control_mount validate_control_environment
  validate_found-IsShaped name c h = (
    rw (h.mounted, h.directed, h.legacy) refl,
    both-Ok options.enable_startup_gate h.gated h.confined,
  )

  validate-IsShapedAt :
      (mappings : List ContainerMapping) (cs : List Container)
      → All (λ m. IsShapedAt cs m.destination) mappings
      → (validate_destinations mappings cs ≡ ok tt) × (validate_policy options mappings cs ≡ ok tt)
  unfolding validate_destinations validate_policy
  validate-IsShapedAt [] cs h = (refl, refl)
  validate-IsShapedAt (m ∷ mappings) cs ((c, found, shaped), all) =
      let (d, p) = validate_found-IsShaped m.destination c shaped in
      let (ds, ps) = validate-IsShapedAt mappings cs all in
      (rw (found, d, ds) refl, rw (found, p, ps) refl)

  -- Where the shaping of a pod's spec succeeds, its result passes every check that follows: the
  -- control volume, the mounts and the environment of every destination, and, as the options ask,
  -- the startup gate and the seccomp profile. So of Build's final validation only the annotations
  -- can fail.
  pub ensure_restore_pod_spec-validates :
      (spec : PodSpec) (mappings : List ContainerMapping) {spec' : PodSpec}
      → ensure_restore_pod_spec spec mappings options ≡ ok spec'
      → (validate_control_volume spec' ≡ ok tt)
        × (validate_destinations mappings spec'.containers ≡ ok tt)
        × (validate_policy options mappings spec'.containers ≡ ok tt)
  unfolding ensure_restore_pod_spec validate_control_volume has_valid_control_volume
  ensure_restore_pod_spec-validates spec mappings e =
      let (spec1, volume, e1) = bind-ok (ensure_control_volume spec) e in
      let (cs, shape, same) = bind-ok (ensure_destinations options mappings spec1.containers) e1 in
      let (all, _) = ensure_destinations-IsShapedAt mappings spec1.containers shape in
      let (minimum, policy) = validate-IsShapedAt mappings cs all in
      subst
        (λ s.
          (validate_control_volume s ≡ ok tt)
          × (validate_destinations mappings s.containers ≡ ok tt)
          × (validate_policy options mappings s.containers ≡ ok tt))
        (ok-injective same)
        (rw (ensure_control_volume-has_valid_control_volume spec volume) refl, minimum, policy)
