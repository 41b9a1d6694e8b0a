-- ===== src/Node/Stage.antt =====
-- `NodeStageVolume` of pkg/iscsi/nodeserver.go
pub mod Secrets
pub mod Steps
pub mod Success
use csi_driver_for_windows_s.Prelude.{
  Bool, true, false, ◌||◌, ◌&&◌, not, String, ◌==◌, none, List, [], ◌∷◌, Result, ok, err,
  with_error, if◌then◌else◌,
}
use csi_driver_for_windows_s.Filepath.{dir}
use csi_driver_for_windows_s.VolumeId.{UrlPackage}
use csi_driver_for_windows_s.VolumeId.Scheme.{Protocol}
use csi_driver_for_windows_s.Driver.{is_file_share}
use csi_driver_for_windows_s.Exec.{
  invalid_argument, internal, pure, fail, lift, stop_if, ◌>>=◌, ◌>>◌,
}
use csi_driver_for_windows_s.Iscsilib.{Connector}
use csi_driver_for_windows_s.Controller.Ids.{to_int32}
use csi_driver_for_windows_s.Node.Host.{
  Host, HostError, NodeExec, MountPoint, Connected, is_failure, with_reply, try_call, make_call,
  make_dir_all, is_likely_not_mount_point, connect, disconnect, disconnect_volume, persist,
}
use csi_driver_for_windows_s.Node.Options.{
  Access, no_access, block, mounted, split_sensitive_mount_options, mount_prepared,
  format_and_mount_prepared,
}
use csi_driver_for_windows_s.Node.Contexts.{publish_protocol}
use csi_driver_for_windows_s.Node.Waits.{
  is_ok, wait_for_staged_filesystem_ready, staged_filesystem_ready_wait,
}
use csi_driver_for_windows_s.Node.Connectors.{stage_connector_file}
use csi_driver_for_windows_s.Node.Requests.{NodeStageVolumeRequest, StageParameters, parse_stage}
use csi_driver_for_windows_s.Node.ShareOptions.{ShareMount, share_mount}

-- The connector that is built for a request.
abbrev pub connector_for : NodeStageVolumeRequest → StageParameters → Connector
connector_for req p = record {
  volume_name = req.volume_id;
  target_iqn = p.connection.iqn;
  target_portals = p.connection.portal ∷ [];
  lun = to_int32 p.connection.lun;
  auth_type = p.chap.auth_type;
  discovery_secrets = p.chap.discovery;
  session_secrets = p.chap.session;
  interface = p.interface;
  mount_target_device = none;
  devices = [];
  retry_count = 60;
  check_interval = 2;
  do_discovery = true;
  do_chap_discovery = p.chap.chap_discovery;
}

-- `req.GetVolumeCapability().GetBlock() != nil`
abbrev pub is_block : Access → Bool
is_block block = true
is_block _ = false

module _ {S : Type 0} (h : Host S) where
  -- `IsLikelyNotMountPoint` and the check of its error
  unfoldable pub check_mount_point : String → NodeExec S Bool
  unfolding make_call
  check_mount_point path = make_call h (is_likely_not_mount_point path) >>= λ point.
      stop_if (is_failure point.error) internal >> pure point.not_mounted

  pub connected : Connector → NodeExec S Connected
  unfolding make_call
  connected conn =
      make_call h (connect conn) >>= λ done. stop_if (done.device == "") internal >> pure done

  -- `conn.Persist`, with the disconnection where it fails
  pub keep_connector : Connector → String → NodeExec S (Unit {0})
  unfolding try_call
  keep_connector conn file =
      with_reply h (persist conn file) (λ _. pure tt)
        λ _. do try_call h (disconnect_volume conn); try_call h (disconnect conn); fail internal

  -- The part of `NodeStageVolume` for a file system, from the check of the staging path on.
  pub mount_staged : String → StageParameters → String → NodeExec S (Unit {0})
  unfolding check_mount_point make_call format_and_mount_prepared wait_for_staged_filesystem_ready
      split_sensitive_mount_options
  mount_staged staging p device = do
    not_mounted ← check_mount_point staging
    make_call h (make_dir_all staging)
    let options = split_sensitive_mount_options p.mount_options
    if not_mounted
        then format_and_mount_prepared h device staging p.fs_type options.normal options.sensitive
        else pure tt
    wait_for_staged_filesystem_ready h staging options.normal staged_filesystem_ready_wait

  -- The part for an iSCSI volume, with the parameters that were read.
  pub stage_iscsi : NodeStageVolumeRequest → Access → StageParameters → NodeExec S (Unit {0})
  unfolding connected make_call keep_connector mount_staged stage_connector_file dir
  stage_iscsi req capability p = do
    done ← connected (connector_for req p)
    let file = stage_connector_file req.staging_target_path
    make_call h (make_dir_all (dir file))
    keep_connector done.connector file
    if is_block capability
        then make_call h (make_dir_all req.staging_target_path)
        else mount_staged req.staging_target_path p done.device

  -- The part of `stageFileShareVolume` behind the computation of the options.
  mount_share : String → ShareMount → NodeExec S (Unit {0})
  unfolding make_call check_mount_point mount_prepared
  mount_share staging m = do
    make_call h (make_dir_all staging)
    not_mounted ← check_mount_point staging
    if not_mounted
        then mount_prepared h m.from.source staging m.from.fs_type m.options.normal
            m.options.sensitive
        else pure tt

  pub stage_file_share_volume :
      UrlPackage → NodeStageVolumeRequest → Access → Protocol → NodeExec S (Unit {0})
  unfolding mount_share share_mount
  stage_file_share_volume u req capability proto = do
    stop_if (is_block capability) invalid_argument
    m ← lift (share_mount u req capability proto)
    mount_share req.staging_target_path m

  unfoldable pub node_stage_volume : UrlPackage → NodeStageVolumeRequest → NodeExec S (Unit {0})
  unfolding stage_iscsi parse_stage stage_file_share_volume publish_protocol
  node_stage_volume u req = do
    stop_if (req.volume_id == "") invalid_argument
    stop_if (req.staging_target_path == "") invalid_argument
    capability ← lift (with_error invalid_argument req.capability)
    let proto = publish_protocol req.publish_context req.volume_context req.volume_id
    if is_file_share proto
        then stage_file_share_volume u req capability proto
        else lift (parse_stage u req capability) >>= λ p. stage_iscsi req capability p
