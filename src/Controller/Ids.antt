-- ===== src/Controller/Ids.antt =====
-- Volume and snapshot identifiers and volume contexts (pkg/iscsi/controllerserver.go). The legacy
-- identifiers are JSON in base64: these two encodings are an argument, `IdCodec`.
use Prim.Native.String
use csi_driver_for_windows_s.Prelude.{
  ◌-◌, ◌%◌, ◌^◌, ltb, negsuc, Bool, true, false, not, String, ◌==◌, ℤ, pos, ltb_ℤ, Option, none,
  some, StringMap, List, [], ◌∷◌, ◌++◌, Result, ok, err, if◌then◌else◌,
}
use csi_driver_for_windows_s.Text.{trim_space, join}
use csi_driver_for_windows_s.Strconv.{format_int}
use csi_driver_for_windows_s.Net.{split_host_port, join_host_port}
use csi_driver_for_windows_s.Driver.{
  AccessMode, unknown, single_node_writer, single_node_reader_only, single_node_single_writer,
  single_node_multi_writer, Driver, vhdx_backend, is_shared_or_unset, is_file_share,
}
use csi_driver_for_windows_s.VolumeId.{VolumeId, empty_volume_id, UrlPackage}
use csi_driver_for_windows_s.VolumeId.Scheme.{Protocol, iscsi, nfs, smb, unset, VolumeIdError}
use csi_driver_for_windows_s.VolumeId.Decode.{decode_volume_id}
use csi_driver_for_windows_s.Backend.{
  Backend, VolumeInfo, NfsShareOptions, lookup_target_name_by_iqn, AnyLun, int, int32, int64,
  float64, int32_pointer, int_pointer,
}
use csi_driver_for_windows_s.Backend.Exec.{Exec, pure, invoke, ◌>>=◌}
use csi_driver_for_windows_s.Controller.Params.{get_string_param}

-- The struct `volID`.
pub record VolId : Type 0 where
  pub volume_name : String
  pub target_portal : String
  pub target_name : String
  pub target_iqn : String
  pub lun : ℤ
  pub vhdx_path : String
  pub size_bytes : ℤ

-- The struct `snapID`.
pub record SnapId : Type 0 where
  pub snapshot_id : String
  pub original_path : String

-- `encodeVolID`, `decodeVolID`, `encodeSnapID` and `decodeSnapID`, and net/url.
pub record IdCodec : Type 0 where
  pub url : UrlPackage
  pub encode_vol_id : VolId → String
  pub decode_vol_id : String → Option VolId
  pub encode_snap_id : SnapId → String
  pub decode_snap_id : String → Option SnapId

-- The results of `decodeAnyVolumeID`.
pub record AnyVolumeId : Type 0 where
  pub decoded : VolumeId
  pub legacy : VolId

-- Go's conversion `int32(n)`: the lowest 32 bits, as a signed number.
unfoldable pub to_int32 : ℤ → ℤ
to_int32 (pos n) = let m = n % 2 ^ 32 in if ltb m (2 ^ 31) then pos m else negsuc (2 ^ 32 - m - 1)
to_int32 (negsuc n) =
    let m = n % 2 ^ 32 in if ltb m (2 ^ 31) then negsuc m else pos (2 ^ 32 - m - 1)

-- The legacy form of an ID that was decoded from a URI.
unfoldable pub legacy_of : VolumeId → VolId
unfolding to_int32
legacy_of v = record {
  volume_name = v.name;
  target_portal = v.target_portal;
  target_name = v.target_name;
  target_iqn = v.target_iqn;
  lun = to_int32 v.lun;
  vhdx_path = v.vhdx_path;
  size_bytes = v.capacity_bytes;
}

-- A legacy ID names an iSCSI volume.
abbrev pub of_legacy : VolId → VolumeId
of_legacy id = record (empty_volume_id iscsi) {
  name = id.volume_name;
  target_portal = id.target_portal;
  target_name = id.target_name;
  target_iqn = id.target_iqn;
  lun = id.lun;
  vhdx_path = id.vhdx_path;
  capacity_bytes = id.size_bytes;
}

any_of_legacy : Option VolId → Option AnyVolumeId
any_of_legacy none = none
any_of_legacy (some id) = some (record { decoded = of_legacy id; legacy = id })

any_of : Result VolumeIdError VolumeId → Option VolId → Option AnyVolumeId
unfolding any_of_legacy
any_of (ok v) legacy = some (record { decoded = v; legacy = legacy_of v })
any_of (err e) legacy = any_of_legacy legacy

-- `decodeAnyVolumeID`: the URI form, and else the legacy form.
unfoldable pub decode_any_volume_id : IdCodec → String → Option AnyVolumeId
unfolding any_of legacy_of
decode_any_volume_id ids id = any_of (decode_volume_id ids.url id) (ids.decode_vol_id id)

unfoldable pub first_non_empty : List String → String
unfolding trim_space
first_non_empty [] = ""
first_non_empty (value ∷ rest) = if trim_space value == "" then first_non_empty rest else value

-- `targetNameFromVolID`
unfoldable pub target_name_from_vol_id : VolId → String
unfolding first_non_empty
target_name_from_vol_id id = first_non_empty (id.target_name ∷ id.target_iqn ∷ [])

module _ {S : Type 0} (b : Backend S) where
  unfoldable pub looked_up : String → Exec S String
  unfolding invoke trim_space
  looked_up target_iqn = do
    found ← invoke b (lookup_target_name_by_iqn target_iqn)
    pure (trim_space found)

  -- `deleteTargetNameForVolume`
  unfoldable pub delete_target_name_for_volume : VolId → Exec S String
  unfolding looked_up trim_space
  delete_target_name_for_volume id =
      if not (trim_space id.target_name == "")
      then pure (trim_space id.target_name)
      else if trim_space id.target_iqn == ""
      then pure ""
      else looked_up (trim_space id.target_iqn)

-- `targetPortalAddress`
unfoldable pub target_portal_address : String → ℤ → String
unfolding trim_space split_host_port join_host_port format_int
target_portal_address target_portal portal_port =
    let portal = trim_space target_portal in
    if portal == "" then "" else elim (split_host_port portal) [
      | some parts ↦ portal
      | none ↦ join_host_port portal (format_int portal_port)
    ]

-- `iscsiTargetForVolume`: the target's name and the IQN that is asked for.
unfoldable pub iscsi_target_for_volume : StringMap → String → String × String
iscsi_target_for_volume params vol_name = elim (get_string_param params "iqnPrefix") [
  | none ↦ (vol_name, "")
  | some prefix ↦ let iqn = String.◌++◌ prefix (String.◌++◌ ":" vol_name) in (iqn, iqn)
]

-- `withIscsiVolumeContextParams`; the context has no `iface` yet.
unfoldable pub with_iscsi_volume_context_params : StringMap → StringMap → StringMap
with_iscsi_volume_context_params context params = elim (get_string_param params "iface") [
  | none ↦ context
  | some iface ↦ context ++ ("iface", iface) ∷ []
]

abbrev entry_if : Bool → String → String → StringMap
entry_if b key value = if b then (key, value) ∷ [] else []

context_for : Protocol → VolumeId → StringMap
unfolding trim_space format_int
context_for nfs v =
    (("protocol", "nfs")
      ∷ ("server", v.nfs_server)
      ∷ ("nfsServer", v.nfs_server)
      ∷ ("exportPath", v.nfs_export_path)
      ∷ ("nfsExportPath", v.nfs_export_path)
      ∷ [])
    ++ (entry_if (not (v.nfs_authentication == "")) "nfsAuthentication" v.nfs_authentication
        ++ entry_if (not (v.nfs_mount_authentication == "")) "nfsMountAuthentication"
            v.nfs_mount_authentication)
context_for smb v =
    ("protocol", "smb")
    ∷ ("server", v.smb_server)
    ∷ ("smbServer", v.smb_server)
    ∷ ("share", v.smb_share_name)
    ∷ ("smbShareName", v.smb_share_name)
    ∷ []
context_for _ v =
    (("targetPortal", v.target_portal) ∷ ("iqn", v.target_iqn) ∷ ("lun", format_int v.lun) ∷ [])
    ++ entry_if (not (trim_space v.target_name == "")) "targetName" v.target_name

-- `volumeContextForVolumeID`
unfoldable pub volume_context_for_volume_id : VolumeId → StringMap
unfolding context_for
volume_context_for_volume_id v = context_for v.protocol v

with_share : Protocol → VolumeInfo → VolumeId → VolumeId
with_share nfs info vid = record vid {
  nfs_server = info.nfs_server;
  nfs_export_path = info.nfs_export_path;
}
with_share smb info vid = record vid {
  smb_server = info.smb_server;
  smb_share_name = info.smb_share_name;
}
with_share _ info vid = vid

-- `fileShareVolumeID`
unfoldable pub file_share_volume_id : String → Protocol → String → VolumeInfo → ℤ → VolumeId
unfolding with_share
file_share_volume_id name protocol backend info capacity_bytes =
    record (with_share protocol info (record (empty_volume_id protocol) {
      name = name;
      share_backend = backend;
      capacity_bytes = capacity_bytes;
    })) {
      vhdx_path = info.vhdx_path;
      share_path = if backend == vhdx_backend then info.share_path else info.vhdx_path;
    }

nfs_options_on : Protocol → NfsShareOptions → VolumeId → VolumeId
unfolding join
nfs_options_on nfs opts vid =
    let auth = join "," opts.authentication in
    record vid {
      nfs_authentication = elim opts.authentication [
        | [] ↦ vid.nfs_authentication
        | flavor ∷ rest ↦ auth
      ];
      nfs_mount_authentication =
          if opts.mount_authentication == ""
          then vid.nfs_mount_authentication
          else opts.mount_authentication;
    }
nfs_options_on _ opts vid = vid

-- `applyNfsOptionsToVolumeID`
unfoldable pub apply_nfs_options_to_volume_id : VolumeId → NfsShareOptions → VolumeId
unfolding nfs_options_on
apply_nfs_options_to_volume_id vid opts = nfs_options_on vid.protocol opts vid

-- `supportsAccessModeForProtocol`
unfoldable pub supports_access_mode_for_protocol : Driver → AccessMode → Protocol → Bool
supports_access_mode_for_protocol d single_node_writer protocol = true
supports_access_mode_for_protocol d single_node_single_writer protocol = true
supports_access_mode_for_protocol d single_node_multi_writer protocol = true
supports_access_mode_for_protocol d unknown protocol = false
supports_access_mode_for_protocol d single_node_reader_only protocol = false
supports_access_mode_for_protocol d _ unset = is_shared_or_unset d.protocol
supports_access_mode_for_protocol d _ protocol = is_file_share protocol

unfoldable pub max_int64 : ℤ → ℤ → ℤ
max_int64 a b = if ltb_ℤ b a then a else b

-- `normalizeLUN` of pkg/iscsi/volumeid.go
unfoldable pub normalize_lun : AnyLun → Option ℤ
normalize_lun (int v) = some v
normalize_lun (int32 v) = some v
normalize_lun (int64 v) = some v
normalize_lun (float64 v) = some v
normalize_lun (int32_pointer p) = p
normalize_lun (int_pointer p) = p
normalize_lun _ = none

-- `volumeInfoLUNString` of pkg/iscsi/volumeid.go
unfoldable pub volume_info_lun_string : AnyLun → String
unfolding normalize_lun format_int
volume_info_lun_string lun = elim (normalize_lun lun) [ none ↦ "" | some v ↦ format_int v ]
