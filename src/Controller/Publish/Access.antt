-- ===== src/Controller/Publish/Access.antt =====
-- The access that `ControllerPublishVolume` gives and `ControllerUnpublishVolume` takes
-- (pkg/iscsi/controllerserver.go).
use csi_driver_for_windows_s.Prelude.{
  ◌≡◌, refl, sym, ap, ◌∙◌, Bool, true, false, ◌||◌, not, String, ◌==◌, some, ok, with_error-eq-ok,
}
use mathlib.Core.Path.{subst⁻¹}
use csi_driver_for_windows_s.Exec.Success.{stop_if-ok}
use csi_driver_for_windows_s.Text.{has_prefix}
use csi_driver_for_windows_s.Driver.{Driver, is_file_share}
use csi_driver_for_windows_s.Backend.{
  Call, Backend, allow_initiator, deny_initiator, configure_target_chap,
}
use csi_driver_for_windows_s.Backend.Exec.{
  invalid_argument, failed_precondition, internal, World, stop_if, invoke, ◌>>◌, ◌▷◌,
}
use csi_driver_for_windows_s.Backend.Exec.Trace.{
  MakesOnly, MakesOnly-pure, MakesOnly-if, MakesOnly-invoke, MakesOnly-bind, MakesOnly-stop_if,
  MakesOnly-behind,
}
use csi_driver_for_windows_s.Controller.Chap.Effects.{MakesOnly-configure_target_chap_from_secrets}
use csi_driver_for_windows_s.Controller.Ids.{
  IdCodec, VolId, AnyVolumeId, decode_any_volume_id, target_name_from_vol_id,
  supports_access_mode_for_protocol,
}
use csi_driver_for_windows_s.Controller.Messages.{ControllerPublishVolumeRequest}
use csi_driver_for_windows_s.Controller.Publish.{
  iscsi_publish_context, publish_iscsi, publish_decoded, controller_publish_volume, unpublish_iscsi,
  unpublish_any, controller_unpublish_volume,
}

-- A call that prepares a target for a node with an IQN, or lets this node in.
pub Grants : VolId → (node_id : String) → Call → Type 0
Grants id node_id (allow_initiator target_name initiator) =
    (target_name ≡ target_name_from_vol_id id)
    × (initiator ≡ node_id)
    × (has_prefix node_id "iqn." ≡ true)
Grants id node_id (configure_target_chap target_name options) =
    (target_name ≡ target_name_from_vol_id id) × (has_prefix node_id "iqn." ≡ true)
Grants id node_id _ = ⊥

pub not-false : (t : Bool) → not t ≡ false → t ≡ true
not-false true h = refl
not-false false h = cc

-- The one call between two worlds denies the node the volume's target, and the backend answered it.
pub record IsPutOut {S : Type 0} (b : Backend S) (id : VolId) (node_id : String) (w w' : World S)
    : Type 0 where
  pub is_answered :
      (b.perform (deny_initiator (target_name_from_vol_id id) node_id) w.state).0 ≡ some tt
  pub calls : w'.trace ≡ w.trace ▷ deny_initiator (target_name_from_vol_id id) node_id
  pub is_last :
      w'.state ≡ (b.perform (deny_initiator (target_name_from_vol_id id) node_id) w.state).1

module _ {S : Type 0} (b : Backend S) where
  publish_iscsi-Grants :
      (req : ControllerPublishVolumeRequest) (id : VolId)
      → MakesOnly (Grants id req.node_id) (publish_iscsi b req id)
  unfolding publish_iscsi Grants
  publish_iscsi-Grants req id =
      MakesOnly-behind (not (has_prefix req.node_id "iqn.")) invalid_argument λ h.
        MakesOnly-bind
          (MakesOnly-stop_if (target_name_from_vol_id id == "" || id.target_iqn == "")
            invalid_argument)
          λ _.
            MakesOnly-bind
              (MakesOnly-configure_target_chap_from_secrets b (target_name_from_vol_id id)
                req.secrets (λ o. (refl, not-false (has_prefix req.node_id "iqn.") h)))
              λ _.
                MakesOnly-bind
                  (MakesOnly-invoke b (allow_initiator (target_name_from_vol_id id) req.node_id)
                    (refl, refl, not-false (has_prefix req.node_id "iqn.") h))
                  λ _. MakesOnly-pure (iscsi_publish_context id)

  publish_decoded-Grants :
      (d : Driver) (req : ControllerPublishVolumeRequest) (v : AnyVolumeId)
      → MakesOnly (Grants v.legacy req.node_id) (publish_decoded b d req v)
  unfolding publish_decoded
  publish_decoded-Grants d req v =
      MakesOnly-bind
        (MakesOnly-stop_if
          (not (supports_access_mode_for_protocol d req.access_mode v.decoded.protocol))
          failed_precondition)
        λ _.
          MakesOnly-if (is_file_share v.decoded.protocol) (λ _. MakesOnly-pure _)
            (λ _. publish_iscsi-Grants req v.legacy)

  -- `ControllerPublishVolume` only calls the backend for a node ID that starts with "iqn.", and then
  -- only to set the credentials of the volume's target and to let this node in.
  pub controller_publish_volume-Grants :
      (ids : IdCodec) (d : Driver) (req : ControllerPublishVolumeRequest) (v : AnyVolumeId)
      → decode_any_volume_id ids req.volume_id ≡ some v
      → MakesOnly (Grants v.legacy req.node_id) (controller_publish_volume b ids d req)
  unfolding controller_publish_volume
  controller_publish_volume-Grants ids d req v h =
      MakesOnly-bind (MakesOnly-stop_if (req.volume_id == "") invalid_argument) λ _.
        MakesOnly-bind (MakesOnly-stop_if (req.node_id == "") invalid_argument)
          λ _. rw h (publish_decoded-Grants d req v)

  unpublish_iscsi-IsPutOut :
      (node_id : String) (id : VolId) (w : World S)
      → (target_name_from_vol_id id == "") ≡ false
      → (unpublish_iscsi b node_id id w).0 ≡ ok tt
      → IsPutOut b id node_id w (unpublish_iscsi b node_id id w).1
  unfolding unpublish_iscsi invoke
  unpublish_iscsi-IsPutOut node_id id w named =
      let c = deny_initiator (target_name_from_vol_id id) node_id in
      rw named (λ done. record {
        is_answered = with_error-eq-ok internal (b.perform c w.state).0 done;
        calls = refl;
        is_last = refl;
      })

  unpublish-iscsi :
      (ids : IdCodec) (volume_id node_id : String) (v : AnyVolumeId) (w : World S)
      → decode_any_volume_id ids volume_id ≡ some v
      → is_file_share v.decoded.protocol ≡ false
      → (controller_unpublish_volume b ids volume_id node_id w).0 ≡ ok tt
      → controller_unpublish_volume b ids volume_id node_id w ≡ unpublish_iscsi b node_id v.legacy w
  unfolding controller_unpublish_volume unpublish_any
  unpublish-iscsi ids volume_id node_id v w decoded is_iscsi done =
      let rest = unpublish_any b node_id (decode_any_volume_id ids volume_id) in
      let (_, e1) =
        stop_if-ok (volume_id == "") invalid_argument
          (stop_if (node_id == "") invalid_argument >> rest) w done in
      let (_, e2) =
        stop_if-ok (node_id == "") invalid_argument rest w (sym (ap (λ x. x.0) e1) ∙ done) in
      e1 ∙ e2 ∙ rw decoded (rw is_iscsi refl)

  -- If `ControllerUnpublishVolume` succeeds for an iSCSI volume with a target, then it made one call, which
  -- the backend answered: the node is denied the target that `ControllerPublishVolume` lets it in to.
  pub controller_unpublish_volume-IsPutOut :
      (ids : IdCodec) (volume_id node_id : String) (v : AnyVolumeId) (w : World S)
      → decode_any_volume_id ids volume_id ≡ some v
      → is_file_share v.decoded.protocol ≡ false
      → (target_name_from_vol_id v.legacy == "") ≡ false
      → (controller_unpublish_volume b ids volume_id node_id w).0 ≡ ok tt
      → IsPutOut b v.legacy node_id w (controller_unpublish_volume b ids volume_id node_id w).1
  controller_unpublish_volume-IsPutOut ids volume_id node_id v w decoded is_iscsi named done =
      let e = unpublish-iscsi ids volume_id node_id v w decoded is_iscsi done in
      subst⁻¹ (λ x. IsPutOut b v.legacy node_id w x.1) e
        (unpublish_iscsi-IsPutOut node_id v.legacy w named (sym (ap (λ x. x.0) e) ∙ done))
