-- ===== src/Driver/Modes.antt =====
-- The access modes that a driver advertises (pkg/iscsi/driver.go) are those that the controller
-- accepts (pkg/iscsi/controllerserver.go).
use csi_driver_for_windows_s.Prelude.{◌≡◌, arith, Bool, true, false, String, any}
use csi_driver_for_windows_s.Driver.{
  AccessMode, unknown, single_node_writer, single_node_reader_only, multi_node_reader_only,
  multi_node_single_writer, multi_node_multi_writer, single_node_single_writer,
  single_node_multi_writer, Driver, new_named_protocol_driver_with_share_backend,
}
use csi_driver_for_windows_s.VolumeId.Scheme.{Protocol}
use csi_driver_for_windows_s.Controller.Ids.{supports_access_mode_for_protocol}

same_mode : AccessMode → AccessMode → Bool
same_mode unknown unknown = true
same_mode single_node_writer single_node_writer = true
same_mode single_node_reader_only single_node_reader_only = true
same_mode multi_node_reader_only multi_node_reader_only = true
same_mode multi_node_single_writer multi_node_single_writer = true
same_mode multi_node_multi_writer multi_node_multi_writer = true
same_mode single_node_single_writer single_node_single_writer = true
same_mode single_node_multi_writer single_node_multi_writer = true
same_mode _ _ = false

-- Whether the driver advertises a mode.
pub advertises : Driver → AccessMode → Bool
advertises d mode = any (same_mode mode) d.access_modes

-- For a volume of the driver's own protocol the controller accepts the modes that the driver
-- advertises, and no other.
pub supports_access_mode-advertises :
    (name : String) (p : Protocol) (backend node_id endpoint : String) (mode : AccessMode)
    → supports_access_mode_for_protocol
        (new_named_protocol_driver_with_share_backend name p backend node_id endpoint)
        mode
        p
      ≡ advertises
          (new_named_protocol_driver_with_share_backend name p backend node_id endpoint)
          mode
unfolding supports_access_mode_for_protocol advertises same_mode
    new_named_protocol_driver_with_share_backend
supports_access_mode-advertises name p backend node_id endpoint mode = ground arith
