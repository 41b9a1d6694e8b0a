-- ===== src/Controller/Query/Effects.antt =====
-- The calls that are asked for information only ask the backend (pkg/iscsi/controllerserver.go).
use csi_driver_for_windows_s.Prelude.{refl, false, String, StringMap, with_error}
use csi_driver_for_windows_s.Driver.{Driver, is_file_share}
use csi_driver_for_windows_s.Backend.{
  Backend, asks, get_volume_info, get_target_initiators, get_directory_free_capacity,
}
use csi_driver_for_windows_s.Backend.Exec.{not_found}
use csi_driver_for_windows_s.Backend.Exec.Trace.{
  MakesOnly, MakesOnly-lift, MakesOnly-pure, MakesOnly-if, MakesOnly-bind, MakesOnly-stop_if,
}
use csi_driver_for_windows_s.Backend.Exec.Keeps.{Asks, asked, asked_anyway}
use csi_driver_for_windows_s.Controller.Params.{string_param}
use csi_driver_for_windows_s.Controller.Paths.{validate_windows_path_param}
use csi_driver_for_windows_s.Controller.Ids.{
  IdCodec, VolId, decode_any_volume_id, target_name_from_vol_id,
}
use csi_driver_for_windows_s.Controller.Query.{
  capacity_dir, get_iscsi, controller_get_volume, get_capacity,
}

module _ {S : Type 0} (b : Backend S) (ids : IdCodec) where
  get_iscsi-Asks : (volume_id : String) (id : VolId) → MakesOnly Asks (get_iscsi b ids volume_id id)
  unfolding get_iscsi asks
  get_iscsi-Asks volume_id id = MakesOnly-bind (asked b (get_volume_info id.vhdx_path) refl) λ info.
      MakesOnly-bind (MakesOnly-stop_if _ _) λ _.
        MakesOnly-bind (asked_anyway b (get_target_initiators (target_name_from_vol_id id)) refl)
          λ _. MakesOnly-pure _

  -- `ControllerGetVolume` only asks the backend.
  pub controller_get_volume-Asks :
      (volume_id : String) → MakesOnly Asks (controller_get_volume b ids volume_id)
  unfolding controller_get_volume
  controller_get_volume-Asks volume_id = MakesOnly-bind (MakesOnly-stop_if _ _) λ _.
      MakesOnly-bind (MakesOnly-lift (with_error not_found (decode_any_volume_id ids volume_id)))
        λ v.
          MakesOnly-if (is_file_share v.decoded.protocol) (λ _. MakesOnly-pure _)
            (λ _. get_iscsi-Asks volume_id v.legacy)

  -- `GetCapacity` only asks the backend.
  pub get_capacity-Asks :
      (d : Driver) (params : StringMap) → MakesOnly Asks (get_capacity b ids d params)
  unfolding get_capacity asks
  get_capacity-Asks d params = MakesOnly-bind (MakesOnly-lift (capacity_dir d params)) λ dir.
      MakesOnly-bind
        (MakesOnly-lift (validate_windows_path_param (string_param params "shareParentPath") dir.0))
        λ _.
          MakesOnly-bind
            (MakesOnly-lift
              (validate_windows_path_param (string_param params "vhdxParentPath") false))
            λ _. asked b (get_directory_free_capacity dir.1) refl
