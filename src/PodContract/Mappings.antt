-- ===== src/PodContract/Mappings.antt =====
-- The annotations of protocol.go and restore_pod.go: the snapshot's name and the container mapping.
use snapshot.Prelude.{
  Str, Bool, true, false, not, ◌&&◌, ◌||◌, Option, none, some, List, [], ◌∷◌, ◌++◌, ◌==◌, length,
  map, str_eq, codes, split, join, trim_space, contains, if◌then◌else◌,
}
use snapshot.Kube.Condition.{fmt, text}
use snapshot.PodContract.Types.{
  Result, ok, refused, ◌>>=◌, ◌>>◌, Check, Validation, ContainerMapping, Request,
}
use snapshot.Compat.Devices.{sort_strings}

abbrev pub restore_from_annotation : Str
restore_from_annotation = codes "nvidia.com/restore-from"

abbrev pub restore_container_map_annotation : Str
restore_container_map_annotation = codes "nvidia.com/restore-container-map"

-- A map as a list of pairs, the first of a key counting.
unfoldable pub lookup : Str → List (Str × Str) → Option Str
lookup key [] = none
lookup key ((k, v) ∷ entries) =
    let rest = lookup key entries in if str_eq k key then some v else rest

unfoldable pub delete : Str → List (Str × Str) → List (Str × Str)
delete key [] = []
delete key ((k, v) ∷ entries) =
    let rest = delete key entries in if str_eq k key then rest else (k, v) ∷ rest

unfoldable pub store : Str → Str → List (Str × Str) → List (Str × Str)
store key value entries = (key, value) ∷ delete key entries

-- m[key], the empty text for a missing key
abbrev pub or_empty : Option Str → Str
or_empty none = []
or_empty (some v) = v

abbrev pub is_nil {ℓ} : {A : Type ℓ} → List A → Bool
is_nil [] = true
is_nil (_ ∷ _) = false

module _ (v : Validation) where
  unfoldable pub validate_restore_from_snapshot_name : Str → Result Str
  validate_restore_from_snapshot_name value =
      let snapshot_name = trim_space value in
      if str_eq snapshot_name []
      then refused (fmt (codes "%s must name a PodSnapshot") (restore_from_annotation ∷ []))
      else if not (is_nil (v.is_dns1123_subdomain snapshot_name))
      then refused (
          fmt (codes "%s value %q is not a valid PodSnapshot name: %s") (
            restore_from_annotation
            ∷ snapshot_name
            ∷ join (codes "; ") (v.is_dns1123_subdomain snapshot_name)
            ∷ []))
      else ok snapshot_name

  -- GetRestoreFromSnapshotName
  unfoldable pub get_restore_from_snapshot_name : List (Str × Str) → Result Str
  get_restore_from_snapshot_name annotations =
      validate_restore_from_snapshot_name (or_empty (lookup restore_from_annotation annotations))

-- One entry of the annotation, its pair split at every "=".
abbrev parse_pair : Str → List Str → Result ContainerMapping
parse_pair part (source ∷ destination ∷ []) =
    ok (record { source = trim_space source; destination = trim_space destination })
parse_pair part _ = refused (
    fmt (codes "invalid %s entry %q: expected source=destination")
      (restore_container_map_annotation ∷ trim_space part ∷ []))

unfoldable pub parse_mappings : List Str → Result (List ContainerMapping)
parse_mappings [] = ok []
parse_mappings (part ∷ parts) = do
  m ← parse_pair part (split b'=' part)
  ms ← parse_mappings parts
  ok (m ∷ ms)

abbrev parse_annotation : Option Str → Str → Result (List ContainerMapping)
parse_annotation none captured =
    ok (record { source = trim_space captured; destination = trim_space captured } ∷ [])
parse_annotation (some raw) captured = parse_mappings (split b',' (trim_space raw))

unfoldable pub container_mappings_from_annotations :
    List (Str × Str) → Str → Result (List ContainerMapping)
container_mappings_from_annotations annotations captured_source =
    parse_annotation (lookup restore_container_map_annotation annotations) captured_source

module _ (v : Validation) where
  abbrev pub is_label : Str → Bool
  is_label name = is_nil (v.is_dns1123_label name)

  -- The loop, with the destinations seen so far.
  unfoldable pub validate_entries : Str → List Str → List ContainerMapping → Check
  validate_entries captured seen [] = ok tt
  validate_entries captured seen (m ∷ mappings) =
      let rest = validate_entries captured (m.destination ∷ seen) mappings in
      if not (is_label m.source)
      then refused (
          fmt (codes "invalid restore source container %q: %s")
            (m.source ∷ join (codes "; ") (v.is_dns1123_label m.source) ∷ []))
      else if not (is_label m.destination)
      then refused (
          fmt (codes "invalid restore destination container %q: %s")
            (m.destination ∷ join (codes "; ") (v.is_dns1123_label m.destination) ∷ []))
      else if not (str_eq m.source captured)
      then refused (
          fmt (codes "restore source container %q does not match captured container %q")
            (m.source ∷ captured ∷ []))
      else if contains m.destination seen
      then refused (fmt (codes "duplicate restore destination container %q") (m.destination ∷ []))
      else rest

  unfoldable pub validate_container_mappings : List ContainerMapping → Str → Check
  validate_container_mappings mappings captured_source =
      let captured = trim_space captured_source in
      if not (is_label captured)
      then refused (
          fmt (codes "captured source container %q is invalid: %s")
            (captured ∷ join (codes "; ") (v.is_dns1123_label captured) ∷ []))
      else if is_nil mappings
      then refused (text (codes "restore container mapping must contain at least one destination"))
      else validate_entries captured [] mappings

  abbrev or_same_name : Str → List ContainerMapping → List ContainerMapping
  or_same_name source [] = record { source = source; destination = source } ∷ []
  or_same_name source (m ∷ mappings) = m ∷ mappings

  unfoldable pub normalize_request : Request → Result Request
  normalize_request request = do
    snapshot_name ← validate_restore_from_snapshot_name v request.snapshot_name
    let source = trim_space request.source_container
    let mappings = or_same_name source request.mappings
    validate_container_mappings mappings source
    ok (record { snapshot_name = snapshot_name; source_container = source; mappings = mappings })

abbrev render : ContainerMapping → Str
render m = m.source ++ b'=' ∷ m.destination

abbrev same_name : List ContainerMapping → Bool
same_name (m ∷ []) = str_eq m.source m.destination
same_name _ = false

-- formatContainerMappings; `none` where no annotation is needed.
unfoldable pub format_container_mappings : List ContainerMapping → Option Str
format_container_mappings mappings =
    if same_name mappings
    then none
    else some (join (codes ",") (sort_strings (map render mappings)))

unfoldable pub is_wanted : ContainerMapping → List ContainerMapping → Bool
is_wanted m [] = false
is_wanted m (w ∷ ws) =
    str_eq m.source w.source && str_eq m.destination w.destination || is_wanted m ws

unfoldable pub all_wanted : List ContainerMapping → List ContainerMapping → Bool
all_wanted [] right = true
all_wanted (m ∷ left) right = is_wanted m right && all_wanted left right

-- sameContainerMappings
unfoldable pub same_container_mappings : List ContainerMapping → List ContainerMapping → Bool
same_container_mappings left right = length left == length right && all_wanted left right
