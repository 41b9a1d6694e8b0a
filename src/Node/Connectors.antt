-- ===== src/Node/Connectors.antt =====
-- The connector of a staged volume, kept in a file beside the staging path (pkg/iscsi/nodeserver.go).
use Prim.Native.String
use csi_driver_for_windows_s.Prelude.{
  Bool, true, ◌&&◌, not, String, Option, none, some, List, [], ◌∷◌, if◌then◌else◌,
}
use csi_driver_for_windows_s.Text.{to_lower, contains}
use csi_driver_for_windows_s.Filepath.{clean, dir, base, join_path}
use csi_driver_for_windows_s.Iscsilib.{Connector}
use csi_driver_for_windows_s.Exec.{internal, pure, fail}
use csi_driver_for_windows_s.Node.Host.{
  Host, HostError, NodeExec, with_reply, try_call, get_connector_from_file, read_file, remove_file,
}

unfoldable pub stage_connector_file : String → String
unfolding clean dir base join_path
stage_connector_file staging =
    let path = clean staging in
    join_path (dir path ∷ String.◌++◌ "." (String.◌++◌ (base path) ".connector.json") ∷ [])

unfoldable pub legacy_stage_connector_file : String → String
unfolding join_path
legacy_stage_connector_file staging = join_path (staging ∷ "connector.json" ∷ [])

-- The paths that are tried.
abbrev pub connector_files : String → (include_legacy : Bool) → List String
connector_files staging include_legacy =
    stage_connector_file staging
    ∷ (if include_legacy then legacy_stage_connector_file staging ∷ [] else [])

-- `isMissingMountTargetDevice`
unfoldable pub is_missing_mount_target_device : HostError → Bool
unfolding to_lower contains
is_missing_mount_target_device e =
    contains (to_lower e.text) "mounttargetdevice" && contains (to_lower e.text) "not found"

-- How a search for a connector ends: `missing` stands for an error that wraps `os.ErrNotExist`.
pub data Found : Type 0 where
  found : Connector → (path : String) → Found
  missing broken : Found

-- `readPersistedConnector` behind the reading; `decode` is the package `encoding/json`.
unfoldable pub persisted : (decode : String → Option Connector) (path text : String) → Found
persisted decode path text = elim (decode text) [
  | none ↦ broken
  | some conn ↦ elim conn.mount_target_device [ none ↦ broken | some _ ↦ found conn path ]
]

module _ {S : Type 0} (h : Host S) where
  -- The loop of `getConnectorFromStaging`
  unfoldable pub first_connector : List String → NodeExec S Found
  unfolding try_call
  first_connector [] = pure missing
  first_connector (path ∷ paths) =
      with_reply h (get_connector_from_file path) (λ conn. pure (found conn path))
        λ e. if e.wraps_not_exist then first_connector paths else pure broken

  unfoldable pub get_connector_from_staging : String → (include_legacy : Bool) → NodeExec S Found
  unfolding first_connector stage_connector_file legacy_stage_connector_file
  get_connector_from_staging staging include_legacy =
      first_connector (connector_files staging include_legacy)

  module _ (decode : String → Option Connector) where
    -- The loop of `getCleanupConnectorFromStaging`
    unfoldable pub first_cleanup_connector : List String → NodeExec S Found
    unfolding try_call persisted is_missing_mount_target_device
    first_cleanup_connector [] = pure missing
    first_cleanup_connector (path ∷ paths) =
        with_reply h (get_connector_from_file path) (λ conn. pure (found conn path))
          λ e.
            if e.wraps_not_exist
            then first_cleanup_connector paths
            else if not (is_missing_mount_target_device e)
            then pure broken
            else with_reply h (read_file path) (λ text. pure (persisted decode path text))
                λ e'. if e'.wraps_not_exist then first_cleanup_connector paths else pure broken

    unfoldable pub get_cleanup_connector_from_staging :
        String → (include_legacy : Bool) → NodeExec S Found
    unfolding first_cleanup_connector stage_connector_file legacy_stage_connector_file
    get_cleanup_connector_from_staging staging include_legacy =
        first_cleanup_connector (connector_files staging include_legacy)

  -- The loop of `removeStagingConnectorFiles`
  unfoldable pub remove_all : List String → NodeExec S (Unit {0})
  unfolding try_call
  remove_all [] = pure tt
  remove_all (path ∷ paths) =
      with_reply h (remove_file path) (λ _. remove_all paths)
        λ e. if e.not_exist then remove_all paths else fail internal

  -- `removeStagingConnectorFiles`, behind a return with `codes.Internal`
  unfoldable pub remove_staging_connector_files : String → NodeExec S (Unit {0})
  unfolding remove_all stage_connector_file legacy_stage_connector_file
  remove_staging_connector_files staging = remove_all (connector_files staging true)
