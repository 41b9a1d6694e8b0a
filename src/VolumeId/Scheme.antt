-- ===== src/VolumeId/Scheme.antt =====
-- `Protocol`, and `ParseProtocolFromVolumeID` of pkg/iscsi/volumeid.go
use csi_driver_for_windows_s.Prelude.{
  Bool, String, ◌==◌, Result, ok, err, reject_if, ◌>>◌, ◌>>=◌, if◌then◌else◌, with_error,
}
use csi_driver_for_windows_s.Text.{trim_space, contains_func, is_char, cut, has_prefix}

-- The Go type is a string: `unset` is the empty one, and `other` any but these four.
pub data Protocol : Type 0 where
  iscsi nfs smb unset : Protocol
  other : String → Protocol

unfoldable pub protocol_of : String → Protocol
protocol_of s =
    if s == "iscsi"
    then iscsi
    else if s == "nfs"
    then nfs
    else if s == "smb"
    then smb
    else if s == ""
    then unset
    else other s

abbrev pub protocol_name : Protocol → String
protocol_name iscsi = "iscsi"
protocol_name nfs = "nfs"
protocol_name smb = "smb"
protocol_name unset = ""
protocol_name (other s) = s

-- The errors of volumeid.go, one for each message.
pub data VolumeIdError : Type 0 where
  empty_volume_id invalid_volume_id missing_scheme invalid_scheme unknown_protocol : VolumeIdError
  invalid_url invalid_capacity negative_capacity invalid_lun name_required : VolumeIdError
  target_portal_required target_iqn_required lun_required : VolumeIdError
  nfs_server_required nfs_export_path_required : VolumeIdError
  smb_server_required smb_share_name_required : VolumeIdError

abbrev pub has_nul : String → Bool
has_nul s = contains_func (is_char 0) s

-- `switch proto := Protocol(id[:sep])`
known_protocol : Protocol → Result VolumeIdError Protocol
known_protocol iscsi = ok iscsi
known_protocol nfs = ok nfs
known_protocol smb = ok smb
known_protocol _ = err unknown_protocol

-- The scheme and the text behind `://`.
protocol_of_parts : String × String → Result VolumeIdError Protocol
unfolding known_protocol protocol_of has_prefix
protocol_of_parts (scheme, rest) = do
  reject_if (scheme == "") missing_scheme
  reject_if (rest == "") invalid_volume_id
  if has_prefix rest "/" then ok unset else known_protocol (protocol_of scheme)

unfoldable pub parse_protocol_from_volume_id : String → Result VolumeIdError Protocol
unfolding protocol_of_parts trim_space contains_func cut
parse_protocol_from_volume_id id = do
  reject_if (trim_space id == "") missing_scheme
  reject_if (has_nul id) invalid_volume_id
  parts ← with_error invalid_scheme (cut id "://")
  protocol_of_parts parts
