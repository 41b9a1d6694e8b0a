-- ===== src/Controller/Publish/Success.antt =====
-- How a successful `ControllerPublishVolume` ends (pkg/iscsi/controllerserver.go).
use csi_driver_for_windows_s.Prelude.{
  ◌≡◌, refl, sym, ap, ◌∙◌, true, false, ◌||◌, not, String, ◌==◌, some, StringMap, List, ◌++◌,
  if◌then◌else◌, with_error, ok, ok_eq, with_error-eq-ok,
}
use csi_driver_for_windows_s.Text.{has_prefix}
use csi_driver_for_windows_s.Driver.{Driver, is_file_share}
use csi_driver_for_windows_s.Backend.{Call, Backend, allow_initiator}
use csi_driver_for_windows_s.Backend.Exec.{
  internal, invalid_argument, not_found, failed_precondition, World, Exec, pure, lift, stop_if,
  invoke, ◌>>=◌, ◌>>◌, ◌▷◌,
}
use csi_driver_for_windows_s.Exec.Success.{>>=-ok, stop_if-ok}
use csi_driver_for_windows_s.Controller.Chap.{configure_target_chap_from_secrets}
use csi_driver_for_windows_s.Controller.Chap.Effects.{MakesOnly-configure_target_chap_from_secrets}
use csi_driver_for_windows_s.Controller.Ids.{
  IdCodec, VolId, AnyVolumeId, decode_any_volume_id, target_name_from_vol_id,
  volume_context_for_volume_id, supports_access_mode_for_protocol,
}
use csi_driver_for_windows_s.Controller.Messages.{ControllerPublishVolumeRequest}
use csi_driver_for_windows_s.Controller.Publish.{
  iscsi_publish_context, publish_iscsi, publish_decoded, controller_publish_volume,
}
use csi_driver_for_windows_s.Controller.Publish.Access.{not-false}

-- How a successful publication of an iSCSI volume ends.
pub record LetsIn {S : Type 0} (b : Backend S) (id : VolId) (node_id : String) (w w' : World S)
    : Type 0 where
  pub has_iqn : has_prefix node_id "iqn." ≡ true
  pub before : List Call
  pub asked_in : S
  pub is_let_in :
      (b.perform (allow_initiator (target_name_from_vol_id id) node_id) asked_in).0 ≡ some tt
  pub is_last :
      w'.state ≡ (b.perform (allow_initiator (target_name_from_vol_id id) node_id) asked_in).1
  pub ends : w'.trace ≡ (w.trace ++ before) ▷ allow_initiator (target_name_from_vol_id id) node_id

module _ {S : Type 0} (b : Backend S) (req : ControllerPublishVolumeRequest) (id : VolId) where
  -- The last two steps.
  let_in : Exec S StringMap
  let_in = invoke b (allow_initiator (target_name_from_vol_id id) req.node_id) >>= λ _.
      pure (iscsi_publish_context id)

  let_in-ok :
      (w : World S) (context : StringMap)
      → (let_in w).0 ≡ ok context
      → (context ≡ iscsi_publish_context id)
        × ((b.perform (allow_initiator (target_name_from_vol_id id) req.node_id) w.state).0
            ≡ some tt)
        × ((let_in w).1.state
            ≡ (b.perform (allow_initiator (target_name_from_vol_id id) req.node_id) w.state).1)
        × ((let_in w).1.trace ≡ w.trace ▷ allow_initiator (target_name_from_vol_id id) req.node_id)
  unfolding let_in invoke
  let_in-ok w context h =
      let c = allow_initiator (target_name_from_vol_id id) req.node_id in
      let (a, r, e) = >>=-ok (invoke b c) (λ _. pure (iscsi_publish_context id)) w h in
      (
        sym (ok_eq (sym (ap (λ x. x.0) e) ∙ h)),
        with_error-eq-ok internal (b.perform c w.state).0 r,
        ap (λ x. x.1.state) e,
        ap (λ x. x.1.trace) e,
      )

  publish_iscsi-LetsIn :
      (w : World S) (context : StringMap)
      → (publish_iscsi b req id w).0 ≡ ok context
      → (context ≡ iscsi_publish_context id)
        × LetsIn b id req.node_id w (publish_iscsi b req id w).1
  unfolding publish_iscsi let_in
  publish_iscsi-LetsIn w context h =
      let target_name = target_name_from_vol_id id in
      let chap = configure_target_chap_from_secrets b target_name req.secrets in
      let (p, e1) =
        stop_if-ok (not (has_prefix req.node_id "iqn.")) invalid_argument
          (stop_if (target_name == "" || id.target_iqn == "") invalid_argument
            >> (chap >>= λ _. let_in))
          w h in
      let (q, e2) =
        stop_if-ok (target_name == "" || id.target_iqn == "") invalid_argument
          (chap >>= λ _. let_in) w (sym (ap (λ x. x.0) e1) ∙ h) in
      let (a, r, e3) = >>=-ok chap (λ _. let_in) w (sym (ap (λ x. x.0) (e1 ∙ e2)) ∙ h) in
      let e = e1 ∙ e2 ∙ e3 in
      let (shown, allowed, final, last) =
        let_in-ok (chap w).1 context (sym (ap (λ x. x.0) e) ∙ h) in
      let (before, t, _) =
        (MakesOnly-configure_target_chap_from_secrets {P = λ _. Unit {0}} b target_name req.secrets
            (λ _. tt)).at
          w in
      (
        shown,
        record {
          has_iqn = not-false (has_prefix req.node_id "iqn.") p;
          before = before;
          asked_in = (chap w).1.state;
          is_let_in = allowed;
          is_last = ap (λ x. x.1.state) e ∙ final;
          ends =
              ap (λ x. x.1.trace) e
              ∙ last
              ∙ ap (λ l. l ▷ allow_initiator target_name req.node_id) t;
        },
      )

module _ {S : Type 0} (b : Backend S) (ids : IdCodec) (d : Driver)
    (req : ControllerPublishVolumeRequest) (v : AnyVolumeId)
    (decoded : decode_any_volume_id ids req.volume_id ≡ some v)
    (is_iscsi : is_file_share v.decoded.protocol ≡ false) where
  publish_decoded-iscsi :
      (w : World S) {context : StringMap}
      → (publish_decoded b d req v w).0 ≡ ok context
      → publish_decoded b d req v w ≡ publish_iscsi b req v.legacy w
  unfolding publish_decoded
  publish_decoded-iscsi w h =
      let rest =
        (if is_file_share v.decoded.protocol
          then pure (volume_context_for_volume_id v.decoded)
          else publish_iscsi b req v.legacy) in
      let (p, e) =
        stop_if-ok (not (supports_access_mode_for_protocol d req.access_mode v.decoded.protocol))
          failed_precondition rest w h in
      e
      ∙ ap
          (λ t.
            (if t
                then pure (volume_context_for_volume_id v.decoded)
                else publish_iscsi b req v.legacy)
              w)
          is_iscsi

  published-decoded :
      (w : World S)
      → (lift (with_error not_found (decode_any_volume_id ids req.volume_id)) >>= λ u.
            publish_decoded b d req u)
          w
        ≡ publish_decoded b d req v w
  published-decoded w = rw decoded refl

  publish-iscsi :
      (w : World S) {context : StringMap}
      → (controller_publish_volume b ids d req w).0 ≡ ok context
      → controller_publish_volume b ids d req w ≡ publish_iscsi b req v.legacy w
  unfolding controller_publish_volume
  publish-iscsi w h =
      let rest =
        (lift (with_error not_found (decode_any_volume_id ids req.volume_id)) >>= λ u.
        publish_decoded b d req u) in
      let (p, e1) =
        stop_if-ok (req.volume_id == "") invalid_argument
          (stop_if (req.node_id == "") invalid_argument >> rest) w h in
      let (q, e2) =
        stop_if-ok (req.node_id == "") invalid_argument rest w (sym (ap (λ x. x.0) e1) ∙ h) in
      let e = e1 ∙ e2 ∙ published-decoded w in
      e ∙ publish_decoded-iscsi w (sym (ap (λ x. x.0) e) ∙ h)

  -- If `ControllerPublishVolume` of an iSCSI volume succeeds, then its last call let the node in to the
  -- target, without an error of the backend, the node ID starts with "iqn.", and the answer is the portal, the IQN and the LUN of the volume ID.
  pub controller_publish_volume-LetsIn :
      (w : World S) (context : StringMap)
      → (controller_publish_volume b ids d req w).0 ≡ ok context
      → (context ≡ iscsi_publish_context v.legacy)
        × LetsIn b v.legacy req.node_id w (controller_publish_volume b ids d req w).1
  controller_publish_volume-LetsIn w context h =
      let e = publish-iscsi w h in
      let (shown, r) = publish_iscsi-LetsIn b req v.legacy w context (sym (ap (λ x. x.0) e) ∙ h) in
      (
        shown,
        record {
          has_iqn = r.has_iqn;
          before = r.before;
          asked_in = r.asked_in;
          is_let_in = r.is_let_in;
          is_last = ap (λ x. x.1.state) e ∙ r.is_last;
          ends = ap (λ x. x.1.trace) e ∙ r.ends;
        },
      )
