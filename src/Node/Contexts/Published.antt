-- ===== src/Node/Contexts/Published.antt =====
-- The node reads what the controller published for an iSCSI volume (pkg/iscsi/controllerserver.go and
-- pkg/iscsi/nodeserver.go).
use csi_driver_for_windows_s.Prelude.{
  ◌^◌, ◌<◌, ◌≡◌, refl, ap, ◌∙◌, arith, false, String, ◌==◌, ℤ, pos, pos_part, ◌≤ℤ◌, Option, none,
  some, List, [], ◌∷◌, StringMap, ok, lookup,
}
use csi_driver_for_windows_s.Text.{trim_space}
use csi_driver_for_windows_s.Strconv.{format_int}
use csi_driver_for_windows_s.Strconv.Decimal.{parse_int-format_int}
use csi_driver_for_windows_s.Strconv.Plain.{
  format_int-HasNoSpace, format_int_given, trim_space_plain,
}
use csi_driver_for_windows_s.VolumeId.{UrlPackage}
use csi_driver_for_windows_s.VolumeId.Scheme.{iscsi}
use csi_driver_for_windows_s.Driver.{Driver, is_file_share}
use csi_driver_for_windows_s.Backend.{Backend}
use csi_driver_for_windows_s.Backend.Exec.{World}
use csi_driver_for_windows_s.Controller.Ids.{IdCodec, VolId, AnyVolumeId, decode_any_volume_id}
use csi_driver_for_windows_s.Controller.Messages.{ControllerPublishVolumeRequest}
use csi_driver_for_windows_s.Controller.Paths.{validate_target_portal}
use csi_driver_for_windows_s.Controller.Publish.{iscsi_publish_context, controller_publish_volume}
use csi_driver_for_windows_s.Controller.Publish.Success.{controller_publish_volume-LetsIn}
use csi_driver_for_windows_s.Node.Options.{get_str}
use csi_driver_for_windows_s.Node.Contexts.{
  read_lun, first_value, first_context_value_for_keys, connection_from, add_context,
  volume_context_from_volume_id, iscsi_connection_from_contexts,
}

-- The volume ID names a portal, an IQN and a LUN that a node can use as they stand.
pub record IsReachable (id : VolId) : Type 0 where
  pub portal_trimmed : trim_space id.target_portal ≡ id.target_portal
  pub portal_given : (id.target_portal == "") ≡ false
  pub portal_valid : validate_target_portal id.target_portal ≡ ok tt
  pub iqn_trimmed : trim_space id.target_iqn ≡ id.target_iqn
  pub iqn_given : (id.target_iqn == "") ≡ false
  pub lun_from_zero : pos 0 ≤ℤ id.lun
  pub lun_in_range : pos_part id.lun < 2 ^ 63

-- A context that holds a trimmed text under a key.
get_str_given :
    (m : StringMap) (key value : String)
    → lookup key m ≡ some value
    → trim_space value ≡ value
    → (value == "") ≡ false
    → get_str m key ≡ some value
unfolding get_str
get_str_given m key value l t g = rw (l, get_str) (rw (t, g) refl)

first_value-given :
    (key : String) (keys : List String) (ctx : StringMap) (value : String)
    → get_str ctx key ≡ some value
    → first_value (key ∷ keys) ctx ≡ some value
unfolding first_value
first_value-given key keys ctx value h = ground arith

first_given :
    (keys : List String) (ctx : StringMap) (contexts : List StringMap) (value : String)
    → first_value keys ctx ≡ some value
    → first_context_value_for_keys keys (ctx ∷ contexts) ≡ value
unfolding first_context_value_for_keys
first_given keys ctx contexts value h = ground arith

read_lun-format_int :
    (lun : ℤ) → pos 0 ≤ℤ lun → pos_part lun < 2 ^ 63 → read_lun (format_int lun) ≡ ok lun
read_lun-format_int lun h k = rw (parse_int-format_int lun k (ground arith)) (ground arith)

add_context-∷ :
    (ctx : StringMap) (contexts : List StringMap) (o : Option StringMap)
    → add_context (ctx ∷ contexts) o ≡ ctx ∷ add_context contexts o
add_context-∷ ctx contexts none = refl
add_context-∷ ctx contexts (some c) = refl

module _ (id : VolId) (r : IsReachable id) (contexts : List StringMap) where
  published-portal :
      first_context_value_for_keys
        ("targetPortal" ∷ "portal" ∷ [])
        (iscsi_publish_context id ∷ contexts)
      ≡ id.target_portal
  unfolding lookup
  published-portal =
      first_given ("targetPortal" ∷ "portal" ∷ []) (iscsi_publish_context id) contexts
        id.target_portal
        (first_value-given "targetPortal" _ (iscsi_publish_context id) id.target_portal (
          get_str_given (iscsi_publish_context id) "targetPortal" id.target_portal refl
            r.portal_trimmed r.portal_given))

  published-iqn :
      first_context_value_for_keys
        ("iqn" ∷ "targetIQN" ∷ "targetIqn" ∷ [])
        (iscsi_publish_context id ∷ contexts)
      ≡ id.target_iqn
  unfolding lookup
  published-iqn =
      first_given ("iqn" ∷ "targetIQN" ∷ "targetIqn" ∷ []) (iscsi_publish_context id) contexts
        id.target_iqn
        (first_value-given "iqn" _ (iscsi_publish_context id) id.target_iqn (
          get_str_given (iscsi_publish_context id) "iqn" id.target_iqn refl r.iqn_trimmed
            r.iqn_given))

  published-lun :
      first_context_value_for_keys ("lun" ∷ "LUN" ∷ []) (iscsi_publish_context id ∷ contexts)
      ≡ format_int id.lun
  unfolding lookup
  published-lun =
      first_given ("lun" ∷ "LUN" ∷ []) (iscsi_publish_context id) contexts (format_int id.lun) (
        first_value-given "lun" _ (iscsi_publish_context id) (format_int id.lun) (
          get_str_given (iscsi_publish_context id) "lun" (format_int id.lun) refl
            (trim_space_plain _ (format_int-HasNoSpace id.lun)) (format_int_given id.lun)))

  connection_from-published :
      connection_from (iscsi_publish_context id ∷ contexts)
      ≡ ok (record { portal = id.target_portal; iqn = id.target_iqn; lun = id.lun })
  unfolding connection_from
  connection_from-published =
      rw
        (
          published-portal,
          r.portal_given,
          r.portal_valid,
          published-iqn,
          r.iqn_given,
          published-lun,
          format_int_given id.lun,
          read_lun-format_int id.lun r.lun_from_zero r.lun_in_range,
        )
        refl

module _ {S : Type 0} (b : Backend S) (ids : IdCodec) (d : Driver)
    (req : ControllerPublishVolumeRequest) (v : AnyVolumeId)
    (decoded : decode_any_volume_id ids req.volume_id ≡ some v)
    (is_iscsi : is_file_share v.decoded.protocol ≡ false) (reachable : IsReachable v.legacy) where
  -- From the context that a successful `ControllerPublishVolume` returns for an iSCSI volume, a node
  -- reads the portal, the IQN and the LUN of the volume ID, whatever volume context and volume ID come
  -- with it, if the portal is a valid one, portal and IQN are trimmed and not empty, and the LUN is not
  -- negative and fits an `int64`.
  pub published-connection :
      (w : World S) (context : StringMap)
      → (controller_publish_volume b ids d req w).0 ≡ ok context
      → (u : UrlPackage) (volume_id : String) (volume_context : StringMap)
      → iscsi_connection_from_contexts u volume_id (context ∷ volume_context ∷ [])
        ≡ ok (record {
          portal = v.legacy.target_portal;
          iqn = v.legacy.target_iqn;
          lun = v.legacy.lun;
        })
  unfolding iscsi_connection_from_contexts
  published-connection w context h u volume_id volume_context =
      let (shown, _) =
        controller_publish_volume-LetsIn b ids d req v decoded is_iscsi w context h in
      let own = volume_context_from_volume_id u volume_id iscsi in
      ap (λ c. connection_from (add_context (c ∷ volume_context ∷ []) own)) shown
      ∙ ap connection_from
          (add_context-∷ (iscsi_publish_context v.legacy) (volume_context ∷ []) own)
      ∙ connection_from-published v.legacy reachable (add_context (volume_context ∷ []) own)
