-- ===== src/VolumeId/Decode.antt =====
-- `DecodeVolumeID` and `ValidateVolumeID` of pkg/iscsi/volumeid.go
pub mod Agreement
use Prim.Native.String
use csi_driver_for_windows_s.Prelude.{
  Bool, true, false, ◌&&◌, ◌||◌, not, String, ◌==◌, ℤ, pos, ltb_ℤ, Option, none, some, StringMap,
  List, [], ◌∷◌, Result, ok, err, reject_if, with_error, ◌>>◌, ◌>>=◌, if◌then◌else◌, lookup, index,
}
use csi_driver_for_windows_s.Text.{trim_space, contains_func, cut}
use csi_driver_for_windows_s.Strconv.{parse_int}
use csi_driver_for_windows_s.VolumeId.{VolumeId, empty_volume_id, validate, Url, UrlPackage}
use csi_driver_for_windows_s.VolumeId.Scheme.{
  Protocol, iscsi, nfs, smb, unset, other, VolumeIdError, has_nul, protocol_of,
  parse_protocol_from_volume_id,
}
use csi_driver_for_windows_s.VolumeId.Segments.{path_segments, default_port, host_only}

abbrev V : Type 0 → Type 0
V A = Result VolumeIdError A

-- `id[:strings.Index(id, "://")]`
scheme_before : String → Protocol
scheme_before id = elim (cut id "://") [ none ↦ unset | some (scheme, rest) ↦ protocol_of scheme ]

-- The protocol that the scheme names where `ParseProtocolFromVolumeID` leaves it open.
effective_protocol : String → Protocol → Protocol
effective_protocol id unset = scheme_before id
effective_protocol id proto = proto

decode_name : Option String → VolumeId → VolumeId
decode_name none out = out
decode_name (some name) out = record out { name = name; name_specified = true }

decode_capacity : String → V ℤ
decode_capacity raw = if trim_space raw == "" then ok (pos 0) else do
  capacity ← with_error VolumeIdError.invalid_capacity (parse_int (trim_space raw))
  reject_if (ltb_ℤ capacity (pos 0)) VolumeIdError.negative_capacity
  ok capacity

-- The loop over the segments behind the IQN: the first `lun` that has a segment behind it.
find_lun : List String → Option String
find_lun [] = none
find_lun (part ∷ []) = none
find_lun (part ∷ (next ∷ rest)) = if part == "lun" then some next else find_lun (next ∷ rest)

decode_lun : Option String → VolumeId → V VolumeId
decode_lun none out = ok out
decode_lun (some text) out = do
  lun ← with_error VolumeIdError.invalid_lun (parse_int text)
  ok (record out { lun = lun; lun_specified = true })

decode_iscsi_path : List String → VolumeId → V VolumeId
decode_iscsi_path [] out = ok out
decode_iscsi_path (iqn ∷ parts) out = decode_lun (find_lun parts) (record out { target_iqn = iqn })

head_or_empty : List String → String
head_or_empty [] = ""
head_or_empty (part ∷ parts) = part

-- What the query gives every protocol.
query_fields : Protocol → Url → ℤ → VolumeId
query_fields proto url capacity =
    decode_name (lookup "name" url.query) (record (empty_volume_id proto) {
      capacity_bytes = capacity;
      vhdx_path = index "vhdxPath" url.query;
      share_backend = index "shareBackend" url.query;
      share_path = index "sharePath" url.query;
      target_name = index "targetName" url.query;
    })

module _ (u : UrlPackage) where
  -- The `switch proto`.
  decode_protocol : Protocol → Url → VolumeId → V VolumeId
  decode_protocol iscsi url out =
      decode_iscsi_path (path_segments u.path_unescape url.path)
        (record out { target_portal = default_port url.host "3260" })
  decode_protocol nfs url out =
      let server = index "nfsServer" url.query in
      ok (record out {
        target_portal = index "targetPortal" url.query;
        nfs_server = if server == "" then host_only url.host else server;
        nfs_authentication = index "nfsAuthentication" url.query;
        nfs_mount_authentication = index "nfsMountAuthentication" url.query;
        nfs_export_path = url.path;
      })
  decode_protocol smb url out =
      let server = index "smbServer" url.query in
      ok (record out {
        smb_server = if server == "" then host_only url.host else server;
        smb_share_name = head_or_empty (path_segments u.path_unescape url.path);
      })
  decode_protocol _ url out = ok out

  decode_query : Protocol → Url → V VolumeId
  decode_query proto url = do
    capacity ← decode_capacity (index "capacityBytes" url.query)
    ok (query_fields proto url capacity)

  -- From the call of `url.Parse` on.
  pub decode_parsed : String → Protocol → V VolumeId
  decode_parsed id proto = do
    url ← with_error VolumeIdError.invalid_url (u.parse id)
    queried ← decode_query proto url
    out ← decode_protocol proto url queried
    validate out
    ok out

  pub decode_volume_id : String → V VolumeId
  decode_volume_id id = do
    reject_if (trim_space id == "") VolumeIdError.empty_volume_id
    reject_if (has_nul id) VolumeIdError.invalid_volume_id
    parsed ← parse_protocol_from_volume_id id
    decode_parsed id (effective_protocol id parsed)

  pub validate_volume_id : String → V (Unit {0})
  validate_volume_id id = do
    reject_if (trim_space id == "") VolumeIdError.empty_volume_id
    reject_if (has_nul id) VolumeIdError.invalid_volume_id
    decoded ← decode_volume_id id
    ok tt

-- What a run of the decoder opens.
unfoldable pub decoder : Unit {0}
unfolding decode_volume_id decode_parsed decode_query query_fields decode_protocol
    effective_protocol decode_name decode_capacity decode_iscsi_path decode_lun find_lun
    head_or_empty scheme_before validate parse_protocol_from_volume_id protocol_of path_segments
    default_port host_only index lookup
decoder = tt
