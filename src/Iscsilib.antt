-- ===== src/Iscsilib.antt =====
-- The data of the iSCSI initiator library: pkg/iscsilib/iscsi.go and iscsiadm.go
pub mod Commands
pub mod Admin
pub mod Sessions
pub mod Multipath
pub mod Disconnect
pub mod Connect
use csi_driver_for_windows_s.Prelude.{
  ℕ, Bool, String, ◌==◌, ℤ, Option, List, [], ◌∷◌, if◌then◌else◌,
}
use csi_driver_for_windows_s.Filepath.{join_path}

-- The struct `Device`, with its field `Children` of the same type.
mutual
  pub data Device : Type 0 where
    scsi_device : (name hctl : String) (children : Devices) (type transport size : String) → Device

  pub data Devices : Type 0 where
    leaf : Devices
    child : Device → Devices → Devices

-- The struct `Secrets`.
pub record Secrets : Type 0 where
  pub secrets_type : String
  pub user_name : String
  pub password : String
  pub user_name_in : String
  pub password_in : String

-- `Secrets{}`
abbrev pub no_secrets : Secrets
no_secrets = record {
  secrets_type = "";
  user_name = "";
  password = "";
  user_name_in = "";
  password_in = "";
}

-- The struct `Connector`; a nil pointer is `none`.
pub record Connector : Type 0 where
  pub volume_name : String
  pub target_iqn : String
  pub target_portals : List String
  pub lun : ℤ
  pub auth_type : String
  pub discovery_secrets : Secrets
  pub session_secrets : Secrets
  pub interface : String
  pub mount_target_device : Option Device
  pub devices : List Device
  pub retry_count : ℕ
  pub check_interval : ℕ
  pub do_discovery : Bool
  pub do_chap_discovery : Bool

-- `(d *Device) GetPath`
unfoldable pub get_path : Device → String
unfolding join_path
get_path (scsi_device name _ _ type _ _) =
    if type == "mpath"
    then join_path ("/dev/mapper" ∷ name ∷ [])
    else join_path ("/dev" ∷ name ∷ [])
