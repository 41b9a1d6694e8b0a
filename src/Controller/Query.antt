-- ===== src/Controller/Query.antt =====
-- `ControllerExpandVolume`, `ControllerGetVolume`, `GetCapacity`, `ValidateVolumeCapabilities` and
-- `ListVolumes` of pkg/iscsi/controllerserver.go
pub mod Resize
pub mod Effects
use csi_driver_for_windows_s.Prelude.{
  Bool, true, false, ◌||◌, not, String, ◌==◌, ℤ, pos, is_positive, Option, none, some, List, [],
  ◌∷◌, if◌then◌else◌, with_error, Result, ok, err, StringMap,
}
use csi_driver_for_windows_s.Driver.{
  Driver, AccessMode, ControllerCapability, vhdx_backend, is_file_share,
}
use csi_driver_for_windows_s.VolumeId.{VolumeId}
use csi_driver_for_windows_s.VolumeId.Scheme.{Protocol}
use csi_driver_for_windows_s.Backend.{
  Backend, VolumeInfo, resize_virtual_disk, resize_file_share, mount_file_share_virtual_disk,
  get_volume_info, get_target_initiators, get_directory_free_capacity,
}
use csi_driver_for_windows_s.Backend.Exec.{
  Code, invalid_argument, not_found, Exec, pure, lift, stop_if, attempt, invoke, ◌>>=◌, ◌>>◌,
}
use csi_driver_for_windows_s.Controller.Params.{
  CapacityRange, string_param, protocol_from_params, file_share_backend_from_params,
}
use csi_driver_for_windows_s.Controller.Paths.{validate_windows_path_param}
use csi_driver_for_windows_s.Controller.Ids.{
  IdCodec, VolId, AnyVolumeId, decode_any_volume_id, target_name_from_vol_id,
  volume_context_for_volume_id, volume_info_lun_string,
}
use csi_driver_for_windows_s.Controller.Messages.{Volume, ExpandResponse, GetVolumeResponse}
use csi_driver_for_windows_s.Controller.Create.{supports_all}

abbrev expanded : Bool → ℤ → ExpandResponse
expanded node_expansion actual = record {
  capacity_bytes = actual;
  node_expansion_required = node_expansion;
}

abbrev initiators_or_none : Option (List String) → List String
initiators_or_none none = []
initiators_or_none (some initiators) = initiators

-- What `GetCapacity` reads of the parameters: the directory to ask about.
capacity_dir : Driver → StringMap → Result Code (Bool × String)
capacity_dir d params = elim (protocol_from_params d params) [
  | err e ↦ err e
  | ok protocol ↦
      let share_dir = string_param params "shareParentPath" in
      let vhdx_dir = string_param params "vhdxParentPath" in
      if is_file_share protocol
      then elim (file_share_backend_from_params d params) [
        | err e ↦ err e
        | ok backend ↦
            if backend == vhdx_backend then ok (false, vhdx_dir) else ok (true, share_dir)
      ]
      else ok (false, vhdx_dir)
]

module _ {S : Type 0} (b : Backend S) (ids : IdCodec) where
  expand_share : VolumeId → ℤ → Exec S ExpandResponse
  expand_share v want = do
    stop_if (v.vhdx_path == "") invalid_argument
    if v.share_backend == vhdx_backend
        then (do
          actual ← invoke b (resize_virtual_disk v.vhdx_path want)
          invoke b (mount_file_share_virtual_disk v.vhdx_path v.share_path)
          pure (expanded false actual))
        else (do
          actual ← invoke b (resize_file_share v.vhdx_path want)
          pure (expanded false actual))

  expand_iscsi : VolId → ℤ → Exec S ExpandResponse
  expand_iscsi id want = do
    actual ← invoke b (resize_virtual_disk id.vhdx_path want)
    pure (expanded true actual)

  pub controller_expand_volume : String → Option CapacityRange → Exec S ExpandResponse
  controller_expand_volume volume_id range = do
    stop_if (volume_id == "") invalid_argument
    wanted ← lift (with_error invalid_argument range)
    v ← lift (with_error not_found (decode_any_volume_id ids volume_id))
    stop_if (not (is_positive wanted.required_bytes)) invalid_argument
    if is_file_share v.decoded.protocol
        then expand_share v.decoded wanted.required_bytes
        else expand_iscsi v.legacy wanted.required_bytes

  get_iscsi : String → VolId → Exec S GetVolumeResponse
  get_iscsi volume_id id = do
    info ← invoke b (get_volume_info id.vhdx_path)
    stop_if (info.vhdx_path == "") not_found
    published ← attempt b (get_target_initiators (target_name_from_vol_id id))
    pure (record {
      volume = record {
        volume_id = volume_id;
        capacity_bytes = info.size_bytes;
        volume_context =
            ("vhdxPath", id.vhdx_path)
            ∷ ("iqn", id.target_iqn)
            ∷ ("lun", volume_info_lun_string info.lun)
            ∷ [];
        content_source = none;
      };
      published_node_ids = initiators_or_none published;
      abnormal = false;
    })

  get_share_volume : String → VolumeId → GetVolumeResponse
  get_share_volume volume_id v = record {
    volume = record {
      volume_id = volume_id;
      capacity_bytes = v.capacity_bytes;
      volume_context = volume_context_for_volume_id v;
      content_source = none;
    };
    published_node_ids = [];
    abnormal = false;
  }

  pub controller_get_volume : String → Exec S GetVolumeResponse
  controller_get_volume volume_id = do
    stop_if (volume_id == "") invalid_argument
    v ← lift (with_error not_found (decode_any_volume_id ids volume_id))
    if is_file_share v.decoded.protocol
        then pure (get_share_volume volume_id v.decoded)
        else get_iscsi volume_id v.legacy

  pub get_capacity : Driver → StringMap → Exec S ℤ
  get_capacity d params = do
    (share_required, parent_dir) ← lift (capacity_dir d params)
    lift (validate_windows_path_param (string_param params "shareParentPath") share_required)
    lift (validate_windows_path_param (string_param params "vhdxParentPath") false)
    invoke b (get_directory_free_capacity parent_dir)

  abbrev is_none : List AccessMode → Bool
  is_none [] = true
  is_none (mode ∷ modes) = false

  -- The answer says whether the capabilities are confirmed.
  pub validate_volume_capabilities : Driver → String → List AccessMode → Exec S Bool
  validate_volume_capabilities d volume_id modes = do
    stop_if (volume_id == "" || is_none modes) invalid_argument
    v ← lift (with_error not_found (decode_any_volume_id ids volume_id))
    pure (supports_all d v.decoded.protocol modes)

  -- The entries of `ListVolumesResponse`: none.
  pub list_volumes : Exec S (List Volume)
  list_volumes = pure []

-- `ControllerGetCapabilities`
pub controller_get_capabilities : Driver → List ControllerCapability
controller_get_capabilities d = d.capabilities
