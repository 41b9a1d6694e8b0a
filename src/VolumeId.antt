-- ===== src/VolumeId.antt =====
-- pkg/iscsi/volumeid.go: the URI that names a volume, and its validation. The package net/url is an
-- argument, `UrlPackage`.
pub mod Scheme
pub mod Segments
pub mod Decode
pub mod Encode
pub mod Selector
pub mod Complete
use csi_driver_for_windows_s.Prelude.{
  Bool, true, false, ◌&&◌, ◌||◌, not, String, ◌==◌, ℤ, pos, ltb_ℤ, Option, none, some, StringMap,
  Result, ok, err, reject_if, ◌>>◌, ◌>>=◌, if◌then◌else◌,
}
use csi_driver_for_windows_s.Text.{trim_space}
use Scheme.{Protocol, iscsi, nfs, smb, VolumeIdError}

-- The struct `VolumeID`.
pub record VolumeId : Type 0 where
  pub name : String
  pub protocol : Protocol
  pub share_backend : String
  pub share_path : String
  pub target_portal : String
  pub target_name : String
  pub target_iqn : String
  pub lun : ℤ
  pub vhdx_path : String
  pub nfs_server : String
  pub nfs_export_path : String
  pub nfs_authentication : String
  pub nfs_mount_authentication : String
  pub smb_server : String
  pub smb_share_name : String
  pub capacity_bytes : ℤ
  pub name_specified : Bool
  pub lun_specified : Bool

-- `&VolumeID{Protocol: protocol}`
abbrev pub empty_volume_id : Protocol → VolumeId
empty_volume_id protocol = record {
  name = "";
  protocol = protocol;
  share_backend = "";
  share_path = "";
  target_portal = "";
  target_name = "";
  target_iqn = "";
  lun = pos 0;
  vhdx_path = "";
  nfs_server = "";
  nfs_export_path = "";
  nfs_authentication = "";
  nfs_mount_authentication = "";
  smb_server = "";
  smb_share_name = "";
  capacity_bytes = pos 0;
  name_specified = false;
  lun_specified = false;
}

abbrev pub is_blank : String → Bool
is_blank s = trim_space s == ""

-- The part of `Validate` behind its `switch`.
validate_protocol : Protocol → VolumeId → Result VolumeIdError (Unit {0})
validate_protocol iscsi v = do
  reject_if (is_blank v.target_portal) VolumeIdError.target_portal_required
  reject_if (is_blank v.target_iqn) VolumeIdError.target_iqn_required
  reject_if (not v.lun_specified) VolumeIdError.lun_required
validate_protocol nfs v = do
  reject_if (is_blank v.nfs_server) VolumeIdError.nfs_server_required
  reject_if (is_blank v.nfs_export_path || trim_space v.nfs_export_path == "/")
      VolumeIdError.nfs_export_path_required
validate_protocol smb v = do
  reject_if (is_blank v.smb_server) VolumeIdError.smb_server_required
  reject_if (is_blank v.smb_share_name) VolumeIdError.smb_share_name_required
validate_protocol _ v = err VolumeIdError.unknown_protocol

-- `(v *VolumeID) Validate`, for a `v` that is not nil.
unfoldable pub validate : VolumeId → Result VolumeIdError (Unit {0})
unfolding validate_protocol
validate v = do
  reject_if (v.name_specified && is_blank v.name) VolumeIdError.name_required
  reject_if (ltb_ℤ v.capacity_bytes (pos 0)) VolumeIdError.negative_capacity
  validate_protocol v.protocol v

-- The struct `url.URL`, as far as the driver reads it. `query` holds the pairs of `URL.Query` in
-- their order, so that `Get` is the first value of a key.
pub record Url : Type 0 where
  pub host : String
  pub path : String
  pub query : StringMap

-- The functions of net/url; an error is `none`.
pub record UrlPackage : Type 0 where
  pub parse : String → Option Url
  pub encode_query : StringMap → String
  pub path_escape : String → String
  pub path_unescape : String → Option String
