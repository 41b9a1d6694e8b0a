-- ===== src/Node/Publish.antt =====
-- `NodePublishVolume` of pkg/iscsi/nodeserver.go
pub mod Secrets
use Prim.Native.String
use csi_driver_for_windows_s.Prelude.{
  Bool, true, false, ◌&&◌, not, String, ◌==◌, Option, none, some, List, [], ◌∷◌, ◌++◌, with_error,
  if◌then◌else◌,
}
use csi_driver_for_windows_s.Strconv.{format_int}
use csi_driver_for_windows_s.Filepath.{join_path}
use csi_driver_for_windows_s.VolumeId.{UrlPackage}
use csi_driver_for_windows_s.Driver.{is_file_share}
use csi_driver_for_windows_s.Exec.{
  invalid_argument, internal, pure, fail, lift, stop_if, ◌>>=◌, ◌>>◌,
}
use csi_driver_for_windows_s.Iscsilib.{Connector, Device, get_path}
use csi_driver_for_windows_s.Node.Host.{
  Host, HostError, NodeExec, MountPoint, make_call, make_dir_all, is_likely_not_mount_point,
}
use csi_driver_for_windows_s.Node.Options.{
  Access, SplitOptions, split_sensitive_mount_options, mount_prepared, format_and_mount_prepared,
}
use csi_driver_for_windows_s.Node.Contexts.{Connection, publish_protocol}
use csi_driver_for_windows_s.Node.Waits.{wait_for_path, node_publish_device_wait, ensure_file}
use csi_driver_for_windows_s.Node.Connectors.{
  Found, found, missing, broken, get_connector_from_staging,
}
use csi_driver_for_windows_s.Node.Requests.{
  NodePublishVolumeRequest, PublishParameters, parse_publish,
}
use csi_driver_for_windows_s.Node.Stage.{is_block}

-- `[]string{"bind"}`, with `ro` for a volume that is read only
abbrev pub bind_options : (readonly : Bool) → List String
bind_options readonly = "bind" ∷ (if readonly then "ro" ∷ [] else [])

-- `/dev/disk/by-path/ip-…-iscsi-…-lun-…`
unfoldable pub device_by_path : Connection → String
unfolding join_path format_int
device_by_path c = join_path (
    "/dev/disk/by-path"
    ∷ String.◌++◌ "ip-" (
        String.◌++◌ c.portal
          (String.◌++◌ "-iscsi-" (String.◌++◌ c.iqn (String.◌++◌ "-lun-" (format_int c.lun)))))
    ∷ [])

-- `err != nil || conn == nil || conn.MountTargetDevice == nil` leaves no device.
abbrev device_of : Found → Option Device
device_of (found conn path) = conn.mount_target_device
device_of missing = none
device_of broken = none

-- `merr == nil && notMnt`
abbrev is_unmounted : MountPoint → Bool
is_unmounted point = elim point.error [ none ↦ point.not_mounted | some e ↦ false ]

module _ {S : Type 0} (h : Host S) where
  -- A bind mount, with the options split as everywhere.
  unfoldable pub bind_mount : (source target : String) (readonly : Bool) → NodeExec S (Unit {0})
  unfolding mount_prepared split_sensitive_mount_options
  bind_mount source target readonly =
      let options = split_sensitive_mount_options (bind_options readonly) in
      mount_prepared h source target "" options.normal options.sensitive

  -- A share is mounted with the options as they are.
  publish_share : NodePublishVolumeRequest → Access → NodeExec S (Unit {0})
  unfolding make_call mount_prepared
  publish_share req capability = do
    stop_if (is_block capability) invalid_argument
    stop_if (req.staging_target_path == "") invalid_argument
    make_call h (make_dir_all req.target_path)
    mount_prepared h req.staging_target_path req.target_path "" (bind_options req.readonly) []

  -- The path of a device, or the one under /dev/disk/by-path once it is there.
  block_device : Connection → Option Device → NodeExec S String
  unfolding wait_for_path device_by_path get_path
  block_device c (some device) = pure (get_path device)
  block_device c none =
      wait_for_path h (device_by_path c) node_publish_device_wait >> pure (device_by_path c)

  publish_block : NodePublishVolumeRequest → Connection → NodeExec S (Unit {0})
  unfolding get_connector_from_staging block_device ensure_file bind_mount
  publish_block req c = do
    stop_if (req.staging_target_path == "") invalid_argument
    conn ← get_connector_from_staging h req.staging_target_path true
    device ← block_device c (device_of conn)
    ensure_file h req.target_path
    bind_mount device req.target_path req.readonly

  -- A connector without a device, which the reading of its file rules out, would be a nil dereference.
  or_internal : Option Device → NodeExec S Device
  or_internal (some device) = pure device
  or_internal none = fail internal

  recovery_device : Found → NodeExec S Device
  unfolding or_internal
  recovery_device conn = or_internal (device_of conn)

  recovered_path : Connection → String → NodeExec S String
  unfolding wait_for_path device_by_path
  recovered_path c path =
      if path == ""
      then wait_for_path h (device_by_path c) node_publish_device_wait >> pure (device_by_path c)
      else pure path

  -- A staging path that is no longer mounted is mounted again.
  recover : String → PublishParameters → NodeExec S (Unit {0})
  unfolding get_connector_from_staging recovery_device recovered_path get_path
      format_and_mount_prepared split_sensitive_mount_options
  recover staging p = do
    conn ← get_connector_from_staging h staging true
    device ← recovery_device conn
    path ← recovered_path p.connection (get_path device)
    let options = split_sensitive_mount_options p.mount_options
    format_and_mount_prepared h path staging p.fs_type options.normal options.sensitive

  publish_mounted : NodePublishVolumeRequest → PublishParameters → NodeExec S (Unit {0})
  unfolding make_call recover bind_mount
  publish_mounted req p = do
    stop_if (req.staging_target_path == "") invalid_argument
    point ← make_call h (is_likely_not_mount_point req.staging_target_path)
    if is_unmounted point then recover req.staging_target_path p else pure tt
    make_call h (make_dir_all req.target_path)
    bind_mount req.staging_target_path req.target_path req.readonly

  publish_iscsi_on_node :
      NodePublishVolumeRequest → Access → PublishParameters → NodeExec S (Unit {0})
  unfolding publish_block publish_mounted
  publish_iscsi_on_node req capability p =
      if is_block capability then publish_block req p.connection else publish_mounted req p

  pub node_publish_volume : UrlPackage → NodePublishVolumeRequest → NodeExec S (Unit {0})
  unfolding publish_share publish_iscsi_on_node parse_publish publish_protocol
  node_publish_volume u req = do
    stop_if (req.volume_id == "") invalid_argument
    stop_if (req.target_path == "") invalid_argument
    capability ← lift (with_error invalid_argument req.capability)
    if is_file_share (publish_protocol req.publish_context req.volume_context req.volume_id)
        then publish_share req capability
        else lift (parse_publish u req capability) >>= λ p. publish_iscsi_on_node req capability p
