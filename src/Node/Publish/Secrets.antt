-- ===== src/Node/Publish/Secrets.antt =====
-- The mounts of `NodePublishVolume` hide sensitive options (pkg/iscsi/nodeserver.go).
use csi_driver_for_windows_s.Prelude.{
  refl, Bool, true, false, String, ◌==◌, Option, none, some, List, [], ◌∷◌, err, with_error, All,
}
use csi_driver_for_windows_s.VolumeId.{UrlPackage}
use csi_driver_for_windows_s.Driver.{is_file_share}
use csi_driver_for_windows_s.Exec.{internal, invalid_argument, pure, ◌>>◌}
use csi_driver_for_windows_s.Exec.Trace.{
  MakesOnly, MakesOnly-lift, MakesOnly-pure, MakesOnly-if, MakesOnly-stop_if, MakesOnly-bind,
}
use csi_driver_for_windows_s.Iscsilib.{Device, get_path}
use csi_driver_for_windows_s.Node.Host.{
  Host, HostCall, make_call, is_likely_not_mount_point, make_dir_all, get_connector_from_file,
}
use csi_driver_for_windows_s.Node.Traces.{MakesOnly-with_reply, MakesOnly-make_call}
use csi_driver_for_windows_s.Node.Options.{
  Access, is_sensitive_mount_option, split_sensitive_mount_options,
}
use csi_driver_for_windows_s.Node.Options.Secrets.{
  is_sensitive-IsNormal, IsNormal, HidesSecrets, split_sensitive_mount_options-IsNormal,
  mount_prepared-HidesSecrets, format_and_mount_prepared-HidesSecrets,
}
use csi_driver_for_windows_s.Node.Contexts.{Connection, publish_protocol}
use csi_driver_for_windows_s.Node.Waits.{wait_for_path, node_publish_device_wait}
use csi_driver_for_windows_s.Node.Waits.Effects.{
  WorksOnFiles-HidesSecrets, wait_for_path-MakesOnly, ensure_file-MakesOnly,
}
use csi_driver_for_windows_s.Node.Connectors.{
  Found, found, missing, broken, connector_files, first_connector, get_connector_from_staging,
}
use csi_driver_for_windows_s.Node.Requests.{
  NodePublishVolumeRequest, PublishParameters, parse_publish,
}
use csi_driver_for_windows_s.Node.Stage.{is_block}
use csi_driver_for_windows_s.Node.Publish.{
  bind_options, device_by_path, device_of, is_unmounted, bind_mount, publish_share, block_device,
  publish_block, or_internal, recovery_device, recovered_path, recover, publish_mounted,
  publish_iscsi_on_node, node_publish_volume,
}

bind_options-IsNormal : (readonly : Bool) → All IsNormal (bind_options readonly)
unfolding is_sensitive_mount_option
bind_options-IsNormal true =
    (is_sensitive-IsNormal "bind" refl, (is_sensitive-IsNormal "ro" refl, tt))
bind_options-IsNormal false = (is_sensitive-IsNormal "bind" refl, tt)

module _ {S : Type 0} (h : Host S) where
  hides : (c : HostCall) → HidesSecrets c → MakesOnly HidesSecrets (make_call h c)
  hides = MakesOnly-make_call h HidesSecrets

  bind_mount-HidesSecrets :
      (source target : String) (readonly : Bool)
      → MakesOnly HidesSecrets (bind_mount h source target readonly)
  unfolding bind_mount
  bind_mount-HidesSecrets source target readonly =
      let options = split_sensitive_mount_options (bind_options readonly) in
      mount_prepared-HidesSecrets h source target "" options.normal options.sensitive
        (split_sensitive_mount_options-IsNormal (bind_options readonly))

  publish_share-HidesSecrets :
      (req : NodePublishVolumeRequest) (capability : Access)
      → MakesOnly HidesSecrets (publish_share h req capability)
  unfolding publish_share HidesSecrets
  publish_share-HidesSecrets req capability =
      MakesOnly-bind (MakesOnly-stop_if (is_block capability) invalid_argument) λ _.
        MakesOnly-bind (MakesOnly-stop_if (req.staging_target_path == "") invalid_argument) λ _.
          MakesOnly-bind (hides (make_dir_all req.target_path) tt) λ _.
            mount_prepared-HidesSecrets h req.staging_target_path req.target_path ""
              (bind_options req.readonly) [] (bind_options-IsNormal req.readonly)

  first_connector-HidesSecrets :
      (paths : List String) → MakesOnly HidesSecrets (first_connector h paths)
  unfolding first_connector HidesSecrets
  first_connector-HidesSecrets [] = MakesOnly-pure missing
  first_connector-HidesSecrets (path ∷ paths) =
      let rest = first_connector-HidesSecrets paths in
      MakesOnly-with_reply h HidesSecrets (get_connector_from_file path) tt
        (λ conn. MakesOnly-pure (found conn path))
        λ e. MakesOnly-if e.wraps_not_exist (λ _. rest) (λ _. MakesOnly-pure broken)

  search-HidesSecrets :
      (staging : String) (legacy : Bool)
      → MakesOnly HidesSecrets (get_connector_from_staging h staging legacy)
  unfolding get_connector_from_staging
  search-HidesSecrets staging legacy = first_connector-HidesSecrets (connector_files staging legacy)

  waited :
      (c : Connection)
      → MakesOnly HidesSecrets
          (wait_for_path h (device_by_path c) node_publish_device_wait >> pure (device_by_path c))
  waited c =
      MakesOnly-bind
        (wait_for_path-MakesOnly h HidesSecrets WorksOnFiles-HidesSecrets (device_by_path c)
          node_publish_device_wait)
        λ _. MakesOnly-pure (device_by_path c)

  block_device-HidesSecrets :
      (c : Connection) (device : Option Device) → MakesOnly HidesSecrets (block_device h c device)
  unfolding block_device
  block_device-HidesSecrets c none = waited c
  block_device-HidesSecrets c (some device) = MakesOnly-pure (get_path device)

  publish_block-HidesSecrets :
      (req : NodePublishVolumeRequest) (c : Connection)
      → MakesOnly HidesSecrets (publish_block h req c)
  unfolding publish_block
  publish_block-HidesSecrets req c =
      MakesOnly-bind (MakesOnly-stop_if (req.staging_target_path == "") invalid_argument) λ _.
        MakesOnly-bind (search-HidesSecrets req.staging_target_path true) λ conn.
          MakesOnly-bind (block_device-HidesSecrets c (device_of conn)) λ device.
            MakesOnly-bind
              (ensure_file-MakesOnly h HidesSecrets WorksOnFiles-HidesSecrets req.target_path)
              λ _. bind_mount-HidesSecrets device req.target_path req.readonly

  or_internal-HidesSecrets :
      (device : Option Device) → MakesOnly HidesSecrets (or_internal h device)
  unfolding or_internal
  or_internal-HidesSecrets none = MakesOnly-lift (err internal)
  or_internal-HidesSecrets (some device) = MakesOnly-pure device

  recovery_device-HidesSecrets : (f : Found) → MakesOnly HidesSecrets (recovery_device h f)
  unfolding recovery_device
  recovery_device-HidesSecrets f = or_internal-HidesSecrets (device_of f)

  recovered_path-HidesSecrets :
      (c : Connection) (path : String) → MakesOnly HidesSecrets (recovered_path h c path)
  unfolding recovered_path
  recovered_path-HidesSecrets c path =
      MakesOnly-if (path == "") (λ _. waited c) (λ _. MakesOnly-pure path)

  recover-HidesSecrets :
      (staging : String) (p : PublishParameters) → MakesOnly HidesSecrets (recover h staging p)
  unfolding recover
  recover-HidesSecrets staging p =
      let options = split_sensitive_mount_options p.mount_options in
      MakesOnly-bind (search-HidesSecrets staging true) λ conn.
        MakesOnly-bind (recovery_device-HidesSecrets conn) λ device.
          MakesOnly-bind (recovered_path-HidesSecrets p.connection (get_path device)) λ path.
            format_and_mount_prepared-HidesSecrets h path staging p.fs_type options.normal
              options.sensitive (split_sensitive_mount_options-IsNormal p.mount_options)

  publish_mounted-HidesSecrets :
      (req : NodePublishVolumeRequest) (p : PublishParameters)
      → MakesOnly HidesSecrets (publish_mounted h req p)
  unfolding publish_mounted HidesSecrets
  publish_mounted-HidesSecrets req p =
      MakesOnly-bind (MakesOnly-stop_if (req.staging_target_path == "") invalid_argument) λ _.
        MakesOnly-bind (hides (is_likely_not_mount_point req.staging_target_path) tt) λ point.
          MakesOnly-bind
            (MakesOnly-if (is_unmounted point) (λ _. recover-HidesSecrets req.staging_target_path p)
              (λ _. MakesOnly-pure tt))
            λ _.
              MakesOnly-bind (hides (make_dir_all req.target_path) tt)
                λ _. bind_mount-HidesSecrets req.staging_target_path req.target_path req.readonly

  -- No mount that `NodePublishVolume` makes, nor the mount by which it recovers a staging path, passes a
  -- sensitive option among the normal options.
  pub node_publish_volume-HidesSecrets :
      (u : UrlPackage) (req : NodePublishVolumeRequest)
      → MakesOnly HidesSecrets (node_publish_volume h u req)
  unfolding node_publish_volume publish_iscsi_on_node
  node_publish_volume-HidesSecrets u req =
      MakesOnly-bind (MakesOnly-stop_if (req.volume_id == "") invalid_argument) λ _.
        MakesOnly-bind (MakesOnly-stop_if (req.target_path == "") invalid_argument) λ _.
          MakesOnly-bind (MakesOnly-lift (with_error invalid_argument req.capability)) λ capability.
            MakesOnly-if
              (is_file_share
                (publish_protocol req.publish_context req.volume_context req.volume_id))
              (λ _. publish_share-HidesSecrets req capability)
              (λ _. MakesOnly-bind (MakesOnly-lift (parse_publish u req capability)) λ p.
                MakesOnly-if (is_block capability)
                  (λ _. publish_block-HidesSecrets req p.connection)
                  (λ _. publish_mounted-HidesSecrets req p))
