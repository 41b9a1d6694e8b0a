-- ===== src/Controller/Publish.antt =====
-- `ControllerPublishVolume` and `ControllerUnpublishVolume` of pkg/iscsi/controllerserver.go
pub mod Success
pub mod Access
use csi_driver_for_windows_s.Prelude.{
  Bool, true, false, ◌||◌, not, String, ◌==◌, Option, none, some, StringMap, List, [], ◌∷◌,
  if◌then◌else◌, with_error,
}
use csi_driver_for_windows_s.Text.{has_prefix}
use csi_driver_for_windows_s.Strconv.{format_int}
use csi_driver_for_windows_s.Driver.{Driver, is_file_share}
use csi_driver_for_windows_s.Backend.{Backend, allow_initiator, deny_initiator}
use csi_driver_for_windows_s.Backend.Exec.{
  Code, invalid_argument, not_found, failed_precondition, Exec, pure, lift, stop_if, invoke, ◌>>=◌,
  ◌>>◌,
}
use csi_driver_for_windows_s.Controller.Chap.{configure_target_chap_from_secrets}
use csi_driver_for_windows_s.Controller.Ids.{
  IdCodec, VolId, AnyVolumeId, decode_any_volume_id, target_name_from_vol_id,
  volume_context_for_volume_id, supports_access_mode_for_protocol,
}
use csi_driver_for_windows_s.Controller.Messages.{ControllerPublishVolumeRequest}

-- The context that is published for an iSCSI volume.
abbrev pub iscsi_publish_context : VolId → StringMap
iscsi_publish_context id =
    ("targetPortal", id.target_portal) ∷ ("iqn", id.target_iqn) ∷ ("lun", format_int id.lun) ∷ []

module _ {S : Type 0} (b : Backend S) where
  publish_iscsi : ControllerPublishVolumeRequest → VolId → Exec S StringMap
  publish_iscsi req id = do
    stop_if (not (has_prefix req.node_id "iqn.")) invalid_argument
    let target_name = target_name_from_vol_id id
    stop_if (target_name == "" || id.target_iqn == "") invalid_argument
    configure_target_chap_from_secrets b target_name req.secrets
    invoke b (allow_initiator target_name req.node_id)
    pure (iscsi_publish_context id)

  publish_decoded : Driver → ControllerPublishVolumeRequest → AnyVolumeId → Exec S StringMap
  publish_decoded d req v = do
    stop_if (not (supports_access_mode_for_protocol d req.access_mode v.decoded.protocol))
        failed_precondition
    if is_file_share v.decoded.protocol
        then pure (volume_context_for_volume_id v.decoded)
        else publish_iscsi req v.legacy

  -- The answer is the publish context. The two IDs are asked for one by one.
  pub controller_publish_volume :
      IdCodec → Driver → ControllerPublishVolumeRequest → Exec S StringMap
  controller_publish_volume ids d req = do
    stop_if (req.volume_id == "") invalid_argument
    stop_if (req.node_id == "") invalid_argument
    v ← lift (with_error not_found (decode_any_volume_id ids req.volume_id))
    publish_decoded d req v

  unpublish_iscsi : String → VolId → Exec S (Unit {0})
  unpublish_iscsi node_id id =
      let target_name = target_name_from_vol_id id in
      if target_name == "" then pure tt else invoke b (deny_initiator target_name node_id)

  -- An ID that cannot be decoded is detached already.
  unpublish_any : String → Option AnyVolumeId → Exec S (Unit {0})
  unpublish_any node_id none = pure tt
  unpublish_any node_id (some v) =
      if is_file_share v.decoded.protocol then pure tt else unpublish_iscsi node_id v.legacy

  pub controller_unpublish_volume : IdCodec → (volume_id node_id : String) → Exec S (Unit {0})
  controller_unpublish_volume ids volume_id node_id = do
    stop_if (volume_id == "") invalid_argument
    stop_if (node_id == "") invalid_argument
    unpublish_any node_id (decode_any_volume_id ids volume_id)

-- What a run of these functions opens.
unfoldable pub publishing : Unit {0}
unfolding publish_iscsi publish_decoded controller_publish_volume unpublish_iscsi unpublish_any
    controller_unpublish_volume
publishing = tt
