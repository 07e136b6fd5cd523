-- ===== src/PodContract/Build.antt =====
-- Build and Validate of restore_pod.go.
use snapshot.Prelude.{Str, Option, none, some, List, [], ◌∷◌, str_eq, codes, if◌then◌else◌}
use snapshot.Kube.Condition.{Message, fmt, wrap, text}
use snapshot.PodContract.Types.{
  Result, ok, refused, ◌>>=◌, ◌>>◌, Check, Validation, ContainerMapping, Container, PodSpec,
  RestorePod, Request, Options,
}
use snapshot.PodContract.Mappings.{
  lookup, delete, store, restore_from_annotation, restore_container_map_annotation,
  validate_restore_from_snapshot_name, get_restore_from_snapshot_name,
  container_mappings_from_annotations, validate_container_mappings, normalize_request,
  format_container_mappings, same_container_mappings,
}
use snapshot.PodContract.Parts.{
  ensure_control_volume, validate_control_volume, ensure_control_mount, validate_control_mount,
  ensure_control_environment, validate_control_environment,
}
use snapshot.PodContract.Policy.{
  ensure_restore_startup_probe, validate_canonical_restore_startup_probe,
  ensure_container_seccomp_profile, validate_container_seccomp_profile,
}

abbrev no_destination : Str → Message
no_destination name = fmt (codes "restore pod has no destination container named %q") (name ∷ [])

unfoldable pub find_container : List Container → Str → Option Container
find_container [] name = none
find_container (c ∷ cs) name =
    let rest = find_container cs name in if str_eq c.name name then some c else rest

-- What the code does through the pointer that findContainer returns: the first container of the
-- name is replaced, and a missing one is refused.
unfoldable pub at_container :
    Str → (Container → Result Container) → List Container → Result (List Container)
at_container name shape [] = refused (no_destination name)
at_container name shape (c ∷ cs) =
    let shaped = (do c' ← shape c; ok (c' ∷ cs)) in
    let rest = (do cs' ← at_container name shape cs; ok (c ∷ cs')) in
    if str_eq c.name name then shaped else rest

unfoldable pub ensure_container : Options → Container → Result Container
ensure_container options container = do
  c1 ← ensure_container_seccomp_profile options.seccomp_profile container
  c2 ← ensure_control_mount c1
  c3 ← ensure_control_environment c2
  ok (if options.enable_startup_gate then ensure_restore_startup_probe c3 else c3)

unfoldable pub ensure_destinations :
    Options → List ContainerMapping → List Container → Result (List Container)
ensure_destinations options [] cs = ok cs
ensure_destinations options (m ∷ mappings) cs =
    at_container m.destination (ensure_container options) cs
    >>= ensure_destinations options mappings

unfoldable pub ensure_restore_pod_spec : PodSpec → List ContainerMapping → Options → Result PodSpec
ensure_restore_pod_spec spec mappings options = do
  spec1 ← ensure_control_volume spec
  cs ← ensure_destinations options mappings spec1.containers
  ok (record spec1 { containers = cs })

abbrev pub validate_found : Str → Option Container → Check
validate_found name none = refused (no_destination name)
validate_found name (some c) = validate_control_mount c >> validate_control_environment c

unfoldable pub validate_destinations : List ContainerMapping → List Container → Check
validate_destinations [] cs = ok tt
validate_destinations (m ∷ mappings) cs =
    validate_found m.destination (find_container cs m.destination)
    >> validate_destinations mappings cs

-- The policy loop. A missing container would be a nil dereference, which is a panic; `none` cannot
-- be reached, since the minimum was validated before.
abbrev pub validate_found_policy : Options → Option Container → Check
validate_found_policy options none = refused (text (codes "nil pointer dereference"))
validate_found_policy options (some c) =
    let seccomp = validate_container_seccomp_profile c options.seccomp_profile in
    if options.enable_startup_gate
    then validate_canonical_restore_startup_probe c >> seccomp
    else seccomp

unfoldable pub validate_policy : Options → List ContainerMapping → List Container → Check
validate_policy options [] cs = ok tt
validate_policy options (m ∷ mappings) cs =
    validate_found_policy options (find_container cs m.destination)
    >> validate_policy options mappings cs

module _ (v : Validation) where
  -- The conflict that an annotation which is there already may be.
  abbrev check_name : Request → Option Str → Check
  check_name request none = ok tt
  check_name request (some existing) = do
    resolved ← validate_restore_from_snapshot_name v existing
    if str_eq resolved request.snapshot_name
        then ok tt
        else refused (
            fmt (codes "%s names %q, conflicting with requested PodSnapshot %q")
              (restore_from_annotation ∷ resolved ∷ request.snapshot_name ∷ []))

  abbrev check_mappings : Request → List (Str × Str) → Option Str → Check
  check_mappings request annotations none = ok tt
  check_mappings request annotations (some _) = do
    existing ← container_mappings_from_annotations annotations request.source_container
    validate_container_mappings v existing request.source_container
    if same_container_mappings existing request.mappings
        then ok tt
        else refused (
            fmt (codes "%s conflicts with requested restore mappings")
              (restore_container_map_annotation ∷ []))

  -- Deleting a key that is not there does nothing.
  abbrev set_mappings : Option Str → List (Str × Str) → List (Str × Str)
  set_mappings none annotations = delete restore_container_map_annotation annotations
  set_mappings (some formatted) annotations =
      store restore_container_map_annotation formatted annotations

  unfoldable pub ensure_restore_annotations : List (Str × Str) → Request → Result (List (Str × Str))
  ensure_restore_annotations annotations request = do
    check_name request (lookup restore_from_annotation annotations)
    let named = store restore_from_annotation request.snapshot_name annotations
    check_mappings request named (lookup restore_container_map_annotation named)
    ok (set_mappings (format_container_mappings request.mappings) named)

  abbrev expect_name : Request → Str → Check
  expect_name request resolved =
      if str_eq resolved request.snapshot_name
      then ok tt
      else refused (
          fmt (codes "%s names %q, expected %q")
            (restore_from_annotation ∷ resolved ∷ request.snapshot_name ∷ []))

  abbrev expect_mappings : Request → List ContainerMapping → Check
  expect_mappings request annotated =
      if same_container_mappings annotated request.mappings
      then ok tt
      else refused (
          fmt (codes "%s does not match the requested restore mappings")
            (restore_container_map_annotation ∷ []))

  unfoldable pub validate_restore_annotations : List (Str × Str) → Request → Check
  validate_restore_annotations annotations request = do
    resolved ← get_restore_from_snapshot_name v annotations
    expect_name request resolved
    annotated ← container_mappings_from_annotations annotations request.source_container
    validate_container_mappings v annotated request.source_container
    expect_mappings request annotated

  unfoldable pub validate_minimum_restore_pod : RestorePod → Request → Check
  validate_minimum_restore_pod pod request = do
    validate_restore_annotations pod.annotations request
    validate_control_volume pod.spec
    validate_destinations request.mappings pod.spec.containers

  unfoldable pub validate_canonical_restore_pod : RestorePod → Request → Options → Check
  validate_canonical_restore_pod pod request options = do
    validate_minimum_restore_pod pod request
    validate_policy options request.mappings pod.spec.containers

  -- Validate
  unfoldable pub validate : Option RestorePod → Request → Check
  validate pod request = do
    normalized ← normalize_request v request
    elim pod [
      | none ↦ refused (text (codes "restore pod is nil"))
      | some p ↦ validate_minimum_restore_pod p normalized
    ]

  abbrev pub shaped_check : Check → Check
  shaped_check (ok _) = ok tt
  shaped_check (refused e) = refused (wrap (text (codes "validate shaped restore pod")) e)

  abbrev pub check_result : Request → Options → RestorePod → Result RestorePod
  check_result request options result = do
    shaped_check (validate_canonical_restore_pod result request options)
    ok result

  abbrev build_pod : Request → Options → RestorePod → Result RestorePod
  build_pod request options pod = do
    annotations ← ensure_restore_annotations pod.annotations request
    spec ← ensure_restore_pod_spec pod.spec request.mappings options
    check_result request options (record { annotations = annotations; spec = spec })

  -- Build
  unfoldable pub build : Option RestorePod → Request → Options → Result RestorePod
  build none request options = refused (text (codes "restore pod is nil"))
  build (some pod) request options = do
    normalized ← normalize_request v request
    build_pod normalized options pod
