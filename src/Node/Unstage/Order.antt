-- ===== src/Node/Unstage/Order.antt =====
-- The order in which `NodeUnstageVolume` takes a volume away (pkg/iscsi/nodeserver.go).
use csi_driver_for_windows_s.Prelude.{
  ℕ, arith, true, false, String, ◌==◌, not, Option, none, some, List, [], ◌∷◌,
}
use csi_driver_for_windows_s.Exec.{invalid_argument, internal}
use csi_driver_for_windows_s.Exec.Order.{
  Rises, Rises-pure, Rises-fail, Rises-if, Rises-stop_if, Rises-bind,
}
use csi_driver_for_windows_s.Iscsilib.{Connector}
use csi_driver_for_windows_s.Node.Host.{
  Host, HostCall, is_failure, unmount, disconnect_volume, disconnect, remove_file,
  cleanup_mount_point, get_connector_from_file, read_file, is_likely_not_mount_point,
}
use csi_driver_for_windows_s.Node.Connectors.{
  Found, found, missing, broken, connector_files, is_missing_mount_target_device, persisted,
  first_cleanup_connector, get_cleanup_connector_from_staging, remove_all,
  remove_staging_connector_files,
}
use csi_driver_for_windows_s.Node.Traces.{Rises-with_reply, Rises-make_call}
use csi_driver_for_windows_s.Node.Unstage.{
  clean_up, connector_of, unmount_staged, log_out, search_again, unstage, node_unstage_volume,
}

-- The steps of the removal; the other calls only ask.
pub removal_phase : HostCall → Option ℕ
removal_phase (unmount path) = some 1
removal_phase (disconnect_volume conn) = some 2
removal_phase (disconnect conn) = some 3
removal_phase (remove_file path) = some 4
removal_phase (cleanup_mount_point path) = some 5
removal_phase _ = none

module _ {S : Type 0} (h : Host S) where
  clean_up-Rises : (path : String) → Rises removal_phase 4 5 (clean_up h path)
  unfolding clean_up removal_phase
  clean_up-Rises path =
      Rises-with_reply h removal_phase 4 5 (cleanup_mount_point path) (omega arith)
        (λ _. Rises-pure tt (omega arith))
        (λ e. Rises-stop_if (not e.not_exist) internal (omega arith))

  connector_of-Rises : (p : ℕ) (f : Found) → Rises removal_phase p p (connector_of h f)
  unfolding connector_of
  connector_of-Rises p (found conn path) = Rises-pure (some conn) (omega arith)
  connector_of-Rises p missing = Rises-pure none (omega arith)
  connector_of-Rises p broken = Rises-fail internal (omega arith)

  unmount_staged-Rises : (staging : String) → Rises removal_phase 0 1 (unmount_staged h staging)
  unfolding unmount_staged removal_phase
  unmount_staged-Rises staging =
      Rises-bind 0 0 1 (omega arith)
        (Rises-make_call h removal_phase 0 0 (is_likely_not_mount_point staging) (omega arith))
        λ point.
          Rises-bind 0 0 1 (omega arith)
            (Rises-stop_if (is_failure point.error) internal (omega arith))
            λ _.
              Rises-if _ (Rises-make_call h removal_phase 0 1 (unmount staging) (omega arith))
                (Rises-pure tt (omega arith))

  remove_all-Rises : (paths : List String) → Rises removal_phase 4 4 (remove_all h paths)
  unfolding remove_all removal_phase
  remove_all-Rises [] = Rises-pure tt (omega arith)
  remove_all-Rises (path ∷ paths) =
      let rest = remove_all-Rises paths in
      Rises-with_reply h removal_phase 4 4 (remove_file path) (omega arith) (λ _. rest)
        λ e. Rises-if e.not_exist rest (Rises-fail internal (omega arith))

  log_out-Rises :
      (staging : String) (conn : Option Connector)
      → Rises removal_phase 1 4 (log_out h staging conn)
  unfolding log_out removal_phase remove_staging_connector_files
  log_out-Rises staging none = Rises-pure tt (omega arith)
  log_out-Rises staging (some conn) =
      Rises-bind 1 2 4 (omega arith)
        (Rises-make_call h removal_phase 1 2 (disconnect_volume conn) (omega arith))
        λ _.
          Rises-bind 2 4 4 (omega arith)
            (Rises-make_call h removal_phase 2 4 (disconnect conn) (omega arith))
            λ _. remove_all-Rises (connector_files staging true)

  module _ (decode : String → Option Connector) where
    first_cleanup_connector-Rises :
        (p : ℕ) (paths : List String)
        → Rises removal_phase p p (first_cleanup_connector h decode paths)
    unfolding first_cleanup_connector removal_phase
    first_cleanup_connector-Rises p [] = Rises-pure missing (omega arith)
    first_cleanup_connector-Rises p (path ∷ paths) =
        let rest = first_cleanup_connector-Rises p paths in
        Rises-with_reply h removal_phase p p (get_connector_from_file path) (omega arith)
          (λ conn. Rises-pure (found conn path) (omega arith))
          λ e. Rises-if e.wraps_not_exist rest (
            Rises-if (not (is_missing_mount_target_device e)) (Rises-pure broken (omega arith)) (
              Rises-with_reply h removal_phase p p (read_file path) (omega arith)
                (λ text. Rises-pure (persisted decode path text) (omega arith))
                λ e'. Rises-if e'.wraps_not_exist rest (Rises-pure broken (omega arith))))

    search_again-Rises :
        (staging : String) (conn : Option Connector)
        → Rises removal_phase 1 1 (search_again h decode staging conn)
    unfolding search_again get_cleanup_connector_from_staging
    search_again-Rises staging (some conn) = Rises-pure (some conn) (omega arith)
    search_again-Rises staging none =
        Rises-bind 1 1 1 (omega arith)
          (first_cleanup_connector-Rises 1 (connector_files staging true)) (connector_of-Rises 1)

    unstage-Rises : (staging : String) → Rises removal_phase 0 5 (unstage h decode staging)
    unfolding unstage get_cleanup_connector_from_staging
    unstage-Rises staging =
        Rises-bind 0 0 5 (omega arith)
          (first_cleanup_connector-Rises 0 (connector_files staging false))
          λ first. Rises-bind 0 0 5 (omega arith) (connector_of-Rises 0 first) λ early.
            Rises-bind 0 1 5 (omega arith) (unmount_staged-Rises staging) λ _.
              Rises-bind 1 1 5 (omega arith) (search_again-Rises staging early) λ conn.
                Rises-bind 1 4 5 (omega arith) (log_out-Rises staging conn)
                  λ _. clean_up-Rises staging

    -- `NodeUnstageVolume` takes a volume away in this order, whether it succeeds or fails: the staging
    -- path is unmounted, the device is removed, the session is closed, the connector files are removed,
    -- and the staging path is cleaned up.
    pub node_unstage_volume-Rises :
        (volume_id staging : String)
        → Rises removal_phase 0 5 (node_unstage_volume h decode volume_id staging)
    unfolding node_unstage_volume
    node_unstage_volume-Rises volume_id staging =
        Rises-bind 0 0 5 (omega arith)
          (Rises-stop_if (volume_id == "") invalid_argument (omega arith))
          λ _.
            Rises-bind 0 0 5 (omega arith)
              (Rises-stop_if (staging == "") invalid_argument (omega arith))
              λ _. unstage-Rises staging
