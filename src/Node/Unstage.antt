-- ===== src/Node/Unstage.antt =====
-- `NodeUnstageVolume` and `NodeUnpublishVolume` of pkg/iscsi/nodeserver.go
pub mod Order
use csi_driver_for_windows_s.Prelude.{
  Bool, true, false, ◌&&◌, not, String, ◌==◌, Option, none, some, Result, ok, err, if◌then◌else◌,
}
use csi_driver_for_windows_s.Exec.{invalid_argument, internal, pure, fail, stop_if, ◌>>=◌, ◌>>◌}
use csi_driver_for_windows_s.Iscsilib.{Connector}
use csi_driver_for_windows_s.Node.Host.{
  Host, HostError, MountPoint, NodeExec, is_failure, with_reply, try_call, make_call,
  is_likely_not_mount_point, unmount, cleanup_mount_point, disconnect, disconnect_volume,
}
use csi_driver_for_windows_s.Node.Connectors.{
  Found, found, missing, broken, get_cleanup_connector_from_staging, remove_staging_connector_files,
}

abbrev is_none : Option HostError → Bool
is_none none = true
is_none (some e) = false

module _ {S : Type 0} (h : Host S) where
  -- `mount.CleanupMountPoint`, whose error for a missing path is no failure
  unfoldable pub clean_up : String → NodeExec S (Unit {0})
  unfolding try_call
  clean_up path =
      with_reply h (cleanup_mount_point path) (λ _. pure tt)
        (λ e. stop_if (not e.not_exist) internal)

  -- The connector of a search, none where there is no file.
  connector_of : Found → NodeExec S (Option Connector)
  connector_of (found conn path) = pure (some conn)
  connector_of missing = pure none
  connector_of broken = fail internal

  -- The staging path is unmounted where it is mounted.
  unmount_staged : String → NodeExec S (Unit {0})
  unfolding make_call
  unmount_staged staging = do
    point ← make_call h (is_likely_not_mount_point staging)
    stop_if (is_failure point.error) internal
    if is_none point.error && not point.not_mounted then make_call h (unmount staging) else pure tt

  log_out : String → Option Connector → NodeExec S (Unit {0})
  unfolding make_call remove_staging_connector_files
  log_out staging none = pure tt
  log_out staging (some conn) = do
    make_call h (disconnect_volume conn)
    make_call h (disconnect conn)
    remove_staging_connector_files h staging

  module _ (decode : String → Option Connector) where
    -- A search in the second place, where the first search found nothing.
    search_again : String → Option Connector → NodeExec S (Option Connector)
    unfolding get_cleanup_connector_from_staging connector_of
    search_again staging (some conn) = pure (some conn)
    search_again staging none =
        get_cleanup_connector_from_staging h decode staging true >>= connector_of

    pub unstage : String → NodeExec S (Unit {0})
    unfolding get_cleanup_connector_from_staging connector_of unmount_staged search_again log_out
        clean_up
    unstage staging = do
      first ← get_cleanup_connector_from_staging h decode staging false
      early ← connector_of first
      unmount_staged staging
      conn ← search_again staging early
      log_out staging conn
      clean_up staging

    pub node_unstage_volume : (volume_id staging : String) → NodeExec S (Unit {0})
    unfolding unstage
    node_unstage_volume volume_id staging = do
      stop_if (volume_id == "") invalid_argument
      stop_if (staging == "") invalid_argument
      unstage staging

  pub node_unpublish_volume : (volume_id target_path : String) → NodeExec S (Unit {0})
  unfolding clean_up
  node_unpublish_volume volume_id target_path = do
    stop_if (volume_id == "") invalid_argument
    stop_if (target_path == "") invalid_argument
    clean_up target_path
