-- ===== src/VolumeId/Encode.antt =====
-- `EncodeVolumeID`, `shouldEncodeLUN` and `buildURI` of pkg/iscsi/volumeid.go
use Prim.Native.String
use csi_driver_for_windows_s.Prelude.{
  Bool, true, ◌||◌, not, String, ◌==◌, ℤ, is_zero, StringMap, List, [], ◌∷◌, ◌++◌, if◌then◌else◌,
}
use csi_driver_for_windows_s.Text.{trim_space, join}
use csi_driver_for_windows_s.Strconv.{format_int}
use csi_driver_for_windows_s.VolumeId.{VolumeId, UrlPackage}
use csi_driver_for_windows_s.VolumeId.Scheme.{Protocol, iscsi, nfs, smb, protocol_name}
use csi_driver_for_windows_s.VolumeId.Segments.{path_segments}

-- `if value != "" { q.Set(key, value) }`; the keys of one URI are distinct.
abbrev set_non_empty : String → String → StringMap → StringMap
set_non_empty key value q = if value == "" then q else q ++ (key, value) ∷ []

abbrev set_capacity : ℤ → StringMap → StringMap
set_capacity capacity q =
    if is_zero capacity then q else q ++ ("capacityBytes", format_int capacity) ∷ []

base_query : VolumeId → StringMap
unfolding format_int
base_query v = set_non_empty "targetName" v.target_name (
    set_non_empty "sharePath" v.share_path (
      set_non_empty "shareBackend" v.share_backend (
        set_non_empty "vhdxPath" v.vhdx_path
          (set_capacity v.capacity_bytes (("name", v.name) ∷ [])))))

unfoldable pub should_encode_lun : VolumeId → Bool
should_encode_lun v =
    if not (is_zero v.lun) then true else not (v.vhdx_path == "") || not (is_zero v.capacity_bytes)

module _ (u : UrlPackage) where
  escape_segments : List String → List String
  escape_segments [] = []
  escape_segments (segment ∷ rest) =
      let escaped = escape_segments rest in
      if trim_space segment == "" then escaped else u.path_escape (trim_space segment) ∷ escaped

  abbrev with_path : List String → String → String
  with_path [] uri = uri
  with_path (part ∷ parts) uri = String.◌++◌ uri (String.◌++◌ "/" (join "/" (part ∷ parts)))

  abbrev with_query : String → String → String
  with_query encoded uri = if encoded == "" then uri else String.◌++◌ uri (String.◌++◌ "?" encoded)

  build_uri : Protocol → String → List String → StringMap → String
  unfolding escape_segments trim_space join
  build_uri protocol host segments q = with_query (u.encode_query q) (
      with_path (escape_segments segments)
        (String.◌++◌ (protocol_name protocol) (String.◌++◌ "://" host)))

  encode_protocol : Protocol → VolumeId → StringMap → String
  unfolding build_uri should_encode_lun path_segments format_int
  encode_protocol iscsi v q =
      build_uri iscsi (trim_space v.target_portal)
        (trim_space v.target_iqn
          ∷ (if should_encode_lun v then "lun" ∷ format_int v.lun ∷ [] else []))
        q
  encode_protocol nfs v q =
      let portal = trim_space v.target_portal in
      let host = if portal == "" then trim_space v.nfs_server else portal in
      let q' = if portal == "" then q else q ++ ("targetPortal", v.target_portal) ∷ [] in
      build_uri nfs host (path_segments u.path_unescape v.nfs_export_path) (
        set_non_empty "nfsMountAuthentication" v.nfs_mount_authentication (
          set_non_empty "nfsAuthentication" v.nfs_authentication
            (set_non_empty "nfsServer" v.nfs_server q')))
  encode_protocol smb v q =
      build_uri smb (trim_space v.smb_server) (trim_space v.smb_share_name ∷ [])
        (set_non_empty "smbServer" v.smb_server q)
  encode_protocol proto v q = build_uri proto "" [] q

  -- `EncodeVolumeID`, for a `v` that is not nil.
  unfoldable pub encode_volume_id : VolumeId → String
  unfolding base_query encode_protocol
  encode_volume_id v = encode_protocol v.protocol v (base_query v)
