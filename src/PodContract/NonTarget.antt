-- ===== src/PodContract/NonTarget.antt =====
-- The annotation of non_target_artifacts.go and the directory of one SnapshotJob attempt.
use snapshot.Prelude.{
  Str, not, ◌||◌, Option, none, some, List, [], ◌∷◌, ◌++◌, str_eq, codes, split, trim_space,
  contains, if◌then◌else◌,
}
use snapshot.Kube.Condition.{fmt}
use snapshot.PodContract.Types.{Result, ok, refused, ◌>>=◌, Validation}
use snapshot.PodContract.Mappings.{lookup, is_nil}

abbrev pub non_target_artifact_containers_annotation : Str
non_target_artifact_containers_annotation =
    codes "nvidia.com/snapshot-non-target-artifact-containers"

abbrev pub snapshot_job_uid_env : Str
snapshot_job_uid_env = codes "SNAPSHOT_JOB_UID"

abbrev pub non_target_artifact_subdir_env : Str
non_target_artifact_subdir_env = codes "SNAPSHOT_NON_TARGET_ARTIFACT_SUBDIR"

module _ (v : Validation) where
  -- path.Join of the directory and a UID that names one element is the two with a slash between.
  unfoldable pub non_target_artifact_subdir : Str → Result Str
  non_target_artifact_subdir uid =
      if (str_eq uid [] || str_eq uid (codes "."))
        || (str_eq uid (codes "..") || not (is_nil (v.is_dns1123_subdomain uid)))
      then refused (fmt (codes "invalid SnapshotJob UID for non-target artifacts: %q") (uid ∷ []))
      else ok (codes "non-target-artifacts/" ++ uid)

  -- The loop over the parts, with the names that were seen so far.
  unfoldable pub parse_names : List Str → List Str → Result (List Str)
  parse_names seen [] = ok []
  parse_names seen (part ∷ parts) =
      let name = trim_space part in
      let rest = (do names ← parse_names (name ∷ seen) parts; ok (name ∷ names)) in
      if not (is_nil (v.is_dns1123_label name))
      then refused (
          fmt (codes "%s contains invalid container name %q")
            (non_target_artifact_containers_annotation ∷ name ∷ []))
      else if contains name seen
      then refused (
          fmt (codes "%s repeats container %q")
            (non_target_artifact_containers_annotation ∷ name ∷ []))
      else rest

  abbrev pub names_of : Option Str → Result (List Str)
  names_of none = ok []
  names_of (some raw) = parse_names [] (split 44 raw)

  unfoldable pub non_target_artifact_containers : List (Str × Str) → Result (List Str)
  non_target_artifact_containers annotations =
      names_of (lookup non_target_artifact_containers_annotation annotations)
