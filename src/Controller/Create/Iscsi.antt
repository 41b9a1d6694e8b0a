-- ===== src/Controller/Create/Iscsi.antt =====
-- The iSCSI part of `CreateVolume` (pkg/iscsi/controllerserver.go).
pub mod Answers
pub mod Attachment
pub mod Existing
pub mod Keeps
pub mod Plan
pub mod Retry
use Prim.Native.String
use csi_driver_for_windows_s.Prelude.{
  Bool, true, false, ◌&&◌, not, String, ◌==◌, ℤ, pos, ltb_ℤ, leb_ℤ, is_positive, Option, none, some,
  StringMap, List, [], ◌∷◌, ◌++◌, Result, ok, err, if◌then◌else◌, with_error, reject_if,
}
use csi_driver_for_windows_s.Prelude
use csi_driver_for_windows_s.Strconv.{parse_int, format_int}
use csi_driver_for_windows_s.Net.{split_host_port}
use csi_driver_for_windows_s.Backend.{
  Backend, FoundVolume, VolumeInfo, zero_volume_info, ensure_target, map_disk_to_target,
  create_virtual_disk, get_volume_by_name, get_volume_info, export_snapshot_as_virtual_disk,
}
use csi_driver_for_windows_s.Backend.Exec.{
  Code, invalid_argument, already_exists, internal, Exec, pure, lift, stop_if, attempt, invoke,
  ◌>>=◌, ◌>>◌,
}
use csi_driver_for_windows_s.Controller.Params.{
  get_string_param, string_param, parse_tcp_port_param, required_bytes_from_range,
}
use csi_driver_for_windows_s.Controller.Paths.{
  validate_target_portal, validate_windows_path_param, validate_iqn_prefix,
  validate_iscsi_target_name,
}
use csi_driver_for_windows_s.Controller.Chap.{configure_target_chap_from_secrets}
use csi_driver_for_windows_s.Controller.Ids.{
  IdCodec, VolId, SnapId, first_non_empty, target_portal_address, iscsi_target_for_volume,
  with_iscsi_volume_context_params,
}
use csi_driver_for_windows_s.Controller.Messages.{
  CreateVolumeRequest, Volume, snapshot_source, ContentSource,
}
use Plan.{IscsiPlan, iscsi_plan}

abbrev value_or {ℓ} : {A : Type ℓ} → A → Option A → A
value_or default none = default
value_or default (some a) = a

-- The response for an iSCSI volume; `extra` are further entries of its context.
pub iscsi_volume : IdCodec → CreateVolumeRequest → VolId → StringMap → Option ContentSource → Volume
iscsi_volume ids req id extra source = record {
  volume_id = ids.encode_vol_id id;
  capacity_bytes = id.size_bytes;
  volume_context =
      with_iscsi_volume_context_params
        (("targetPortal", id.target_portal)
          ∷ ("iqn", id.target_iqn)
          ∷ ("lun", format_int id.lun)
          ∷ extra)
        req.parameters;
  content_source = source;
}

module _ {S : Type 0} (b : Backend S) (ids : IdCodec) (req : CreateVolumeRequest)
    (plan : IscsiPlan) where
  pub made_vol_id : String → String → ℤ → String → ℤ → VolId
  made_vol_id target_name iqn lun path size = record {
    volume_name = req.name;
    target_portal = plan.portal;
    target_name = target_name;
    target_iqn = iqn;
    lun = lun;
    vhdx_path = path;
    size_bytes = size;
  }

  -- `EnsureTarget`, and the check of its answer.
  ensured_target : String → String → Exec S String
  ensured_target target_name requested_iqn = do
    iqn ← invoke b (ensure_target target_name requested_iqn)
    stop_if (iqn == "") internal
    pure iqn

  -- The target of a disk that has just been made, its credentials and its mapping.
  pub attach_disk : String → Exec S (String × ℤ)
  attach_disk path = do
    iqn ← ensured_target plan.target_name plan.requested_iqn
    configure_target_chap_from_secrets b plan.target_name req.secrets
    lun ← invoke b (map_disk_to_target plan.target_name path)
    pure (iqn, lun)

  -- The branch "Create from snapshot".
  create_iscsi_from_snapshot : String → Exec S Volume
  create_iscsi_from_snapshot snapshot_id = do
    sid ← lift (with_error invalid_argument (ids.decode_snap_id snapshot_id))
    path ← invoke b (export_snapshot_as_virtual_disk sid.snapshot_id)
    (iqn, lun) ← attach_disk path
    found ← attempt b (get_volume_info path)
    let size = (value_or zero_volume_info found).size_bytes
    let id = made_vol_id plan.target_name iqn lun path size
    pure (iscsi_volume ids req id (("source", "snapshot") ∷ []) req.content_source)

  -- `size > 0 && existingSize > 0 && size > existingSize`
  pub is_smaller : FoundVolume → Bool
  is_smaller found =
      is_positive plan.size && is_positive found.size_bytes && ltb_ℤ found.size_bytes plan.size

  -- The LUN of a disk that exists, which is mapped if it is not.
  existing_lun : String → FoundVolume → Exec S ℤ
  existing_lun target_name found =
      if ltb_ℤ found.lun (pos 0)
      then invoke b (map_disk_to_target target_name found.vhdx_path)
      else pure found.lun

  -- The branch for a volume that exists.
  pub create_iscsi_existing : FoundVolume → Exec S Volume
  create_iscsi_existing found = do
    stop_if (is_smaller found) already_exists
    let target_name = if found.target_name == "" then plan.target_name else found.target_name
    iqn ← ensured_target target_name (first_non_empty (found.target_iqn ∷ plan.requested_iqn ∷ []))
    lun ← existing_lun target_name found
    let id = made_vol_id target_name iqn lun found.vhdx_path found.size_bytes
    pure (iscsi_volume ids req id [] none)

  -- The branch "Create new VHDX and map it".
  pub create_iscsi_new : Exec S Volume
  create_iscsi_new = do
    (path, actual) ← invoke b (create_virtual_disk req.name plan.parent_dir plan.size)
    (iqn, lun) ← attach_disk path
    pure (iscsi_volume ids req (made_vol_id plan.target_name iqn lun path actual) [] none)

  pub create_iscsi_by_name : Exec S Volume
  create_iscsi_by_name = do
    found ← invoke b (get_volume_by_name req.name plan.parent_dir)
    if found.exists then create_iscsi_existing found else create_iscsi_new

  run_iscsi_plan : Option String → Exec S Volume
  run_iscsi_plan none = create_iscsi_by_name
  run_iscsi_plan (some snapshot_id) = create_iscsi_from_snapshot snapshot_id

-- `CreateVolume` behind the dispatch on the protocol.
pub create_iscsi_volume : {S : Type 0} → Backend S → IdCodec → CreateVolumeRequest → Exec S Volume
create_iscsi_volume b ids req = do
  plan ← lift (iscsi_plan req)
  run_iscsi_plan b ids req plan (snapshot_source req.content_source)

-- What a run of these functions opens.
unfoldable pub iscsi_creation : Unit {0}
unfolding iscsi_volume made_vol_id ensured_target attach_disk create_iscsi_from_snapshot is_smaller
    existing_lun create_iscsi_existing create_iscsi_new create_iscsi_by_name run_iscsi_plan
    create_iscsi_volume
iscsi_creation = tt
