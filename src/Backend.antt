-- ===== src/Backend.antt =====
-- The interface `Backend` of pkg/iscsi/driver.go and its data. Each method is a constructor of `Call`;
-- `Reply` is the type of its result beside the error.
pub mod Exec
use csi_driver_for_windows_s.Prelude.{
  ℕ, Bool, true, false, ℤ, pos, String, List, [], Option, none, some, ◌==◌, not, ◌||◌,
}
use csi_driver_for_windows_s.Text.{trim_space}
use csi_driver_for_windows_s.VolumeId.Scheme.{Protocol, unset}

-- The struct `TargetChapOptions`.
pub record TargetChapOptions : Type 0 where
  pub chap_user : String
  pub chap_secret : String
  pub reverse_chap_user : String
  pub reverse_chap_secret : String

abbrev pub no_chap : TargetChapOptions
no_chap = record {
  chap_user = "";
  chap_secret = "";
  reverse_chap_user = "";
  reverse_chap_secret = "";
}

-- `(o TargetChapOptions) Enabled`
unfoldable pub enabled : TargetChapOptions → Bool
enabled o =
    not (trim_space o.chap_user == "")
    || not (trim_space o.chap_secret == "")
    || not (trim_space o.reverse_chap_user == "")
    || not (trim_space o.reverse_chap_secret == "")

-- The struct `NfsShareOptions`; a nil pointer is `none`.
pub record NfsShareOptions : Type 0 where
  pub client_type : String
  pub permission : String
  pub allow_root_access : Option Bool
  pub authentication : List String
  pub mount_authentication : String
  pub anonymous_uid : Option ℤ
  pub anonymous_gid : Option ℤ
  pub language_encoding : String
  pub enable_anonymous_access : Option Bool
  pub enable_unmapped_access : Option Bool

-- The struct `SmbShareOptions`.
pub record SmbShareOptions : Type 0 where
  pub no_access : List String
  pub description : String
  pub encrypt_data : Option Bool
  pub compress_data : Option Bool
  pub continuously_available : Option Bool
  pub caching_mode : String
  pub folder_enumeration_mode : String
  pub concurrent_user_limit : ℕ

-- The values that `VolumeInfo.LUN`, of type `any`, may hold: nil, an integer of the types that
-- `normalizeLUN` reads, a pointer to one, or something else. A `float64` is given by its integer part.
pub data AnyLun : Type 0 where
  nil other : AnyLun
  int int32 int64 float64 : ℤ → AnyLun
  int32_pointer int_pointer : Option ℤ → AnyLun

-- The struct `SnapshotInfo`; `created_at` counts nanoseconds.
pub record SnapshotInfo : Type 0 where
  pub snapshot_id : String
  pub original_path : String
  pub source_volume : String
  pub description : String
  pub created_at : ℤ
  pub size_bytes : ℤ
  pub ready_to_use : Bool

-- The struct `VolumeInfo`.
pub record VolumeInfo : Type 0 where
  pub volume_name : String
  pub protocol : Protocol
  pub target_portal : String
  pub target_name : String
  pub target_iqn : String
  pub lun : AnyLun
  pub vhdx_path : String
  pub share_path : String
  pub nfs_server : String
  pub nfs_export_path : String
  pub smb_server : String
  pub smb_share_name : String
  pub capacity_bytes : ℤ
  pub created_at : ℤ
  pub size_bytes : ℤ
  pub targets : List String

-- `VolumeInfo{}`
abbrev pub zero_volume_info : VolumeInfo
zero_volume_info = record {
  volume_name = "";
  protocol = unset;
  target_portal = "";
  target_name = "";
  target_iqn = "";
  lun = nil;
  vhdx_path = "";
  share_path = "";
  nfs_server = "";
  nfs_export_path = "";
  smb_server = "";
  smb_share_name = "";
  capacity_bytes = pos 0;
  created_at = pos 0;
  size_bytes = pos 0;
  targets = [];
}

-- The results of `GetVolumeByName`.
pub record FoundVolume : Type 0 where
  pub exists : Bool
  pub vhdx_path : String
  pub size_bytes : ℤ
  pub target_name : String
  pub target_iqn : String
  pub lun : ℤ

-- The results of `GetNfsShare` and `GetSmbShare`.
pub record FoundShare : Type 0 where
  pub exists : Bool
  pub info : VolumeInfo

pub data Call : Type 0 where
  ensure_target : (target_name target_iqn : String) → Call
  configure_target_chap : (target_name : String) → TargetChapOptions → Call
  create_virtual_disk : (name parent_dir : String) (size_bytes : ℤ) → Call
  map_disk_to_target : (target_name vhdx_path : String) → Call
  unmap_disk_from_target : (target_name vhdx_path : String) → Call
  delete_virtual_disk : (vhdx_path : String) → Call
  lookup_target_name_by_iqn : (target_iqn : String) → Call
  delete_target : (target_name : String) → Call
  get_volume_by_name : (name parent_dir : String) → Call
  allow_initiator : (target_name initiator_iqn : String) → Call
  deny_initiator : (target_name initiator_iqn : String) → Call
  get_directory_free_capacity : (parent_dir : String) → Call
  create_snapshot : (vhdx_path description : String) → Call
  delete_snapshot : (snapshot_id : String) → Call
  list_snapshots : (vhdx_path : String) → Call
  export_snapshot_as_virtual_disk : (snapshot_id : String) → Call
  resize_virtual_disk : (vhdx_path : String) (new_size_bytes : ℤ) → Call
  get_volume_info : (vhdx_path : String) → Call
  get_target_initiators : (target_name : String) → Call
  create_nfs_share :
      (name parent_dir : String) (size_bytes : ℤ) (clients : List String) → NfsShareOptions → Call
  get_nfs_share : (name parent_dir : String) → Call
  delete_nfs_share : (name path : String) → Call
  create_smb_share :
      (name parent_dir : String) (size_bytes : ℤ)
      (full_access change_access read_access : List String)
      → SmbShareOptions
      → Call
  get_smb_share : (name parent_dir : String) → Call
  delete_smb_share : (name path : String) → Call
  resize_file_share : (path : String) (new_size_bytes : ℤ) → Call
  restore_snapshot_as_file_share : (snapshot_id destination_path : String) → Call
  mount_file_share_virtual_disk : (vhdx_path mount_path : String) → Call
  unmount_file_share_virtual_disk : (vhdx_path mount_path : String) → Call

abbrev pub Reply : Call → Type 0
Reply (ensure_target _ _) = String
Reply (create_virtual_disk _ _ _) = String × ℤ
Reply (map_disk_to_target _ _) = ℤ
Reply (lookup_target_name_by_iqn _) = String
Reply (get_volume_by_name _ _) = FoundVolume
Reply (get_directory_free_capacity _) = ℤ
Reply (create_snapshot _ _) = SnapshotInfo
Reply (list_snapshots _) = List SnapshotInfo
Reply (export_snapshot_as_virtual_disk _) = String
Reply (resize_virtual_disk _ _) = ℤ
Reply (get_volume_info _) = VolumeInfo
Reply (get_target_initiators _) = List String
Reply (create_nfs_share _ _ _ _ _) = VolumeInfo
Reply (get_nfs_share _ _) = FoundShare
Reply (create_smb_share _ _ _ _ _ _ _) = VolumeInfo
Reply (get_smb_share _ _) = FoundShare
Reply (resize_file_share _ _) = ℤ
Reply _ = Unit

-- A backend over a state of its own. `none` is an error, which may come with a change of the state.
pub record Backend (S : Type 0) : Type 0 where
  pub perform : (c : Call) → S → Option (Reply c) × S

-- The calls that take something away: data, a share, a mapping or an access.
unfoldable pub removes : Call → Bool
removes (unmap_disk_from_target target_name path) = true
removes (delete_virtual_disk path) = true
removes (delete_target target_name) = true
removes (deny_initiator target_name initiator) = true
removes (delete_snapshot id) = true
removes (delete_nfs_share name path) = true
removes (delete_smb_share name path) = true
removes (unmount_file_share_virtual_disk path mount_path) = true
removes _ = false

-- The calls that only ask.
unfoldable pub asks : Call → Bool
asks (lookup_target_name_by_iqn target_iqn) = true
asks (get_volume_by_name name dir) = true
asks (get_directory_free_capacity dir) = true
asks (list_snapshots path) = true
asks (get_volume_info path) = true
asks (get_target_initiators target_name) = true
asks (get_nfs_share name dir) = true
asks (get_smb_share name dir) = true
asks _ = false
