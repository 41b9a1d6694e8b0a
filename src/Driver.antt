-- ===== src/Driver.antt =====
-- pkg/iscsi/driver.go: the driver's record, its names and modes, and what it says that it can do
pub mod Modes
use Prim.Native.String
use csi_driver_for_windows_s.Prelude.{
  Bool, true, false, ◌||◌, ◌&&◌, String, ◌==◌, List, [], ◌∷◌, ◌++◌, Result, ok, err, Option, none,
  some, if◌then◌else◌, to_option,
}
use csi_driver_for_windows_s.Text.{trim_space, to_lower}
use csi_driver_for_windows_s.VolumeId.Scheme.{Protocol, iscsi, nfs, smb, unset, other}

-- `DriverMode`; a driver that has not been run has the empty one.
pub data DriverMode : Type 0 where
  no_mode controller node : DriverMode

-- The access modes of the CSI specification.
pub data AccessMode : Type 0 where
  unknown single_node_writer single_node_reader_only multi_node_reader_only : AccessMode
  multi_node_single_writer multi_node_multi_writer : AccessMode
  single_node_single_writer single_node_multi_writer : AccessMode

-- The controller capabilities of the CSI specification that the driver advertises.
pub data ControllerCapability : Type 0 where
  create_delete_volume publish_unpublish_volume get_capacity expand_volume : ControllerCapability
  get_volume create_delete_snapshot list_snapshots : ControllerCapability

pub record Driver : Type 0 where
  pub name : String
  pub protocol : Protocol
  pub file_share_backend : String
  pub mode : DriverMode
  pub node_id : String
  pub version : String
  pub endpoint : String
  pub access_modes : List AccessMode
  pub capabilities : List ControllerCapability

abbrev pub driver_name : String
driver_name = "windows-storage.csi.windows.microsoft.com"

abbrev pub driver_version : String
driver_version = "0.1.0"

abbrev pub directory_backend : String
directory_backend = "directory"

abbrev pub vhdx_backend : String
vhdx_backend = "vhdx"

unfoldable pub parse_driver_mode : String → Option DriverMode
unfolding to_lower trim_space
parse_driver_mode value =
    let mode = to_lower (trim_space value) in
    if mode == "controller" then some controller else if mode == "node" then some node else none

-- `protocol == "" || protocol == ProtocolNFS || protocol == ProtocolSMB`
abbrev pub is_shared_or_unset : Protocol → Bool
is_shared_or_unset unset = true
is_shared_or_unset nfs = true
is_shared_or_unset smb = true
is_shared_or_unset _ = false

-- `protocol == ProtocolNFS || protocol == ProtocolSMB`
abbrev pub is_file_share : Protocol → Bool
is_file_share nfs = true
is_file_share smb = true
is_file_share _ = false

abbrev is_iscsi_or_unset : Protocol → Bool
is_iscsi_or_unset unset = true
is_iscsi_or_unset iscsi = true
is_iscsi_or_unset _ = false

abbrev single_node_modes : List AccessMode
single_node_modes = single_node_writer ∷ single_node_single_writer ∷ single_node_multi_writer ∷ []

abbrev multi_node_modes : List AccessMode
multi_node_modes = multi_node_reader_only ∷ multi_node_single_writer ∷ multi_node_multi_writer ∷ []

abbrev base_capabilities : List ControllerCapability
base_capabilities =
    create_delete_volume ∷ publish_unpublish_volume ∷ get_capacity ∷ expand_volume ∷ get_volume ∷ []

-- `newNamedProtocolDriverWithShareBackend`
unfoldable pub new_named_protocol_driver_with_share_backend :
    String → Protocol → String → String → String → Driver
new_named_protocol_driver_with_share_backend name protocol file_share_backend node_id endpoint =
    let snapshots = is_iscsi_or_unset protocol || file_share_backend == vhdx_backend in
    record {
      name = name;
      protocol = protocol;
      file_share_backend = file_share_backend;
      mode = no_mode;
      node_id = node_id;
      version = driver_version;
      endpoint = endpoint;
      access_modes =
          single_node_modes ++ (if is_shared_or_unset protocol then multi_node_modes else []);
      capabilities =
          (base_capabilities ++ (if snapshots then create_delete_snapshot ∷ [] else []))
          ++ (if snapshots then list_snapshots ∷ [] else []);
    }

-- `newNamedProtocolDriver`
unfoldable pub new_named_protocol_driver : String → Protocol → String → String → Driver
unfolding new_named_protocol_driver_with_share_backend
new_named_protocol_driver name protocol node_id endpoint =
    new_named_protocol_driver_with_share_backend name protocol
      (if is_file_share protocol then directory_backend else "") node_id endpoint

-- `driverConfigForName`: the protocol and the share backend of a driver name.
unfoldable pub driver_config_for_name : String → Option (Protocol × String)
unfolding trim_space
driver_config_for_name name = if trim_space name == driver_name then some (unset, "") else none

-- `NewNamedDriver`; an unknown name makes an iSCSI driver.
unfoldable pub new_named_driver : String → String → String → Driver
unfolding driver_config_for_name new_named_protocol_driver_with_share_backend
new_named_driver name node_id endpoint = elim (driver_config_for_name name) [
  | none ↦ new_named_protocol_driver_with_share_backend name iscsi "" node_id endpoint
  | some (protocol, backend) ↦
      new_named_protocol_driver_with_share_backend name protocol backend node_id endpoint
]

-- `NewDriver`
unfoldable pub new_driver : String → String → Driver
unfolding new_named_driver
new_driver node_id endpoint = new_named_driver driver_name node_id endpoint

-- `driverNameForProtocol`
driver_name_for_protocol : Protocol → Option String
driver_name_for_protocol iscsi = some driver_name
driver_name_for_protocol nfs = some driver_name
driver_name_for_protocol smb = some driver_name
driver_name_for_protocol _ = none

-- `NewProtocolDriver`; an unknown protocol becomes iSCSI.
unfoldable pub new_protocol_driver : Protocol → String → String → Driver
unfolding driver_name_for_protocol new_named_protocol_driver
new_protocol_driver protocol node_id endpoint = elim (driver_name_for_protocol protocol) [
  | none ↦ new_named_protocol_driver driver_name iscsi node_id endpoint
  | some name ↦ new_named_protocol_driver name protocol node_id endpoint
]
