-- ===== src/Examples.antt =====
-- Concrete arguments for the code of pkg/iscsi: a URL package for IDs without escapes, an encoding of
-- the legacy identifiers, a backend, a driver and requests. The children apply the theorems to them.
pub mod Clusters
pub mod Nodes
pub mod Initiators
pub mod Elections
pub mod Deletes
pub mod Ids
pub mod Creates
pub mod Params
pub mod Publishes
pub mod Queries
use Prim.Native.String
use csi_driver_for_windows_s.Prelude.{
  ℕ, suc, Bool, true, false, String, ◌==◌, ℤ, pos, Option, none, some, StringMap, List, [], ◌∷◌,
  if◌then◌else◌,
}
use csi_driver_for_windows_s.Text.{cut, split, is_char}
use csi_driver_for_windows_s.VolumeId.{Url, UrlPackage}
use csi_driver_for_windows_s.VolumeId.Scheme.{Protocol, iscsi, unset}
use csi_driver_for_windows_s.Driver.{Driver, AccessMode, new_driver, single_node_writer}
use csi_driver_for_windows_s.Backend.{
  Call, Reply, Backend, FoundVolume, FoundShare, SnapshotInfo, VolumeInfo, zero_volume_info,
  ensure_target, configure_target_chap, create_virtual_disk, map_disk_to_target,
  unmap_disk_from_target, delete_virtual_disk, lookup_target_name_by_iqn, delete_target,
  get_volume_by_name, allow_initiator, deny_initiator, get_directory_free_capacity, create_snapshot,
  delete_snapshot, list_snapshots, export_snapshot_as_virtual_disk, resize_virtual_disk,
  get_volume_info, get_target_initiators, create_nfs_share, get_nfs_share, delete_nfs_share,
  create_smb_share, get_smb_share, delete_smb_share, resize_file_share,
  restore_snapshot_as_file_share, mount_file_share_virtual_disk, unmount_file_share_virtual_disk,
}
use csi_driver_for_windows_s.Backend.Exec.{World}
use csi_driver_for_windows_s.Controller.Ids.{IdCodec, VolId, SnapId}
use csi_driver_for_windows_s.Controller.Params.{CapacityRange}
use csi_driver_for_windows_s.Controller.Messages.{
  CreateVolumeRequest, ControllerPublishVolumeRequest,
}

abbrev pub pair_of : String → String × String
unfolding cut
pair_of text = elim (cut text "=") [ none ↦ (text, "") | some parts ↦ parts ]

abbrev pub pairs_of : List String → StringMap
pairs_of [] = []
pairs_of (text ∷ rest) = pair_of text ∷ pairs_of rest

abbrev pub url_of : String → StringMap → Url
unfolding cut
url_of text query = elim (cut text "/") [
  | none ↦ record { host = text; path = ""; query = query }
  | some (host, path) ↦ record { host = host; path = String.◌++◌ "/" path; query = query }
]

-- `url.Parse` for a URI without escapes.
abbrev pub parse_plain : String → Option Url
unfolding cut split
parse_plain id = elim (cut id "://") [
  | none ↦ none
  | some (scheme, rest) ↦ elim (cut rest "?") [
    | none ↦ some (url_of rest [])
    | some (text, query) ↦ some (url_of text (pairs_of (split (is_char b'&') query)))
  ]
]

abbrev pub plain_url : UrlPackage
plain_url = record {
  parse = parse_plain;
  encode_query = λ query. "";
  path_escape = λ segment. segment;
  path_unescape = λ segment. some segment;
}

abbrev pub example_ids : IdCodec
example_ids = record {
  url = plain_url;
  encode_vol_id = λ id. id.volume_name;
  decode_vol_id = λ id. none;
  encode_snap_id = λ id. id.snapshot_id;
  decode_snap_id = λ id. some (record { snapshot_id = id; original_path = "C:\\disks\\data.vhdx" });
}

abbrev pub snapshot_1 : SnapshotInfo
snapshot_1 = record {
  snapshot_id = "{1}";
  original_path = "C:\\disks\\data.vhdx";
  source_volume = "C:";
  description = "";
  created_at = pos 1;
  size_bytes = pos 5;
  ready_to_use = true;
}

abbrev pub found_volume : FoundVolume
found_volume = record {
  exists = true;
  vhdx_path = "C:\\disks\\data.vhdx";
  size_bytes = pos 1073741824;
  target_name = "data";
  target_iqn = "iqn.1991-05.com.microsoft:data";
  lun = pos 0;
}

-- A backend that does what it is told, and counts the calls.
abbrev pub answer : (c : Call) → Reply c
answer (ensure_target _ _) = "iqn.1991-05.com.microsoft:data"
answer (configure_target_chap _ _) = tt
answer (create_virtual_disk _ _ size) = ("C:\\disks\\data.vhdx", size)
answer (map_disk_to_target _ _) = pos 0
answer (unmap_disk_from_target _ _) = tt
answer (delete_virtual_disk _) = tt
answer (lookup_target_name_by_iqn _) = "data"
answer (delete_target _) = tt
answer (get_volume_by_name _ _) = found_volume
answer (allow_initiator _ _) = tt
answer (deny_initiator _ _) = tt
answer (get_directory_free_capacity _) = pos 1099511627776
answer (create_snapshot _ _) = snapshot_1
answer (delete_snapshot _) = tt
answer (list_snapshots _) = snapshot_1 ∷ []
answer (export_snapshot_as_virtual_disk _) = "C:\\disks\\copy.vhdx"
answer (resize_virtual_disk _ size) = size
answer (get_volume_info _) = zero_volume_info
answer (get_target_initiators _) = []
answer (create_nfs_share _ _ _ _ _) = zero_volume_info
answer (get_nfs_share _ _) = record { exists = false; info = zero_volume_info }
answer (delete_nfs_share _ _) = tt
answer (create_smb_share _ _ _ _ _ _ _) = zero_volume_info
answer (get_smb_share _ _) = record { exists = false; info = zero_volume_info }
answer (delete_smb_share _ _) = tt
answer (resize_file_share _ size) = size
answer (restore_snapshot_as_file_share _ _) = tt
answer (mount_file_share_virtual_disk _ _) = tt
answer (unmount_file_share_virtual_disk _ _) = tt

abbrev pub willing : Backend ℕ
willing = record { perform = λ c s. (some (answer c), suc s) }

abbrev pub start : World ℕ
start = record { state = 0; trace = [] }

abbrev pub example_driver : Driver
unfolding new_driver
example_driver = new_driver "node" "unix:///csi.sock"

abbrev pub data_id : String
data_id =
    "iscsi://10.0.0.5:3260/iqn.1991-05.com.microsoft:data/lun/0?targetName=data&vhdxPath=C:\\disks\\data.vhdx"

abbrev pub create_request : CreateVolumeRequest
create_request = record {
  name = "data";
  capacity_range = none;
  capabilities = single_node_writer ∷ [];
  parameters = ("targetPortal", "10.0.0.5:3260") ∷ ("vhdxParentPath", "C:\\disks") ∷ [];
  secrets = [];
  content_source = none;
}

abbrev pub publish_request : ControllerPublishVolumeRequest
publish_request = record {
  volume_id = data_id;
  node_id = "iqn.1993-08.org.debian:01:node";
  access_mode = single_node_writer;
  secrets = [];
}
