-- ===== src/Kubernetes/Attacher/Answers.antt =====
-- What the attacher (pkg/iscsi/internal_kubernetes.go) works with: the attachment, the secrets and the ID of
-- the node are those that the cluster answers.
use csi_driver_for_windows_s.Prelude.{
  ◌≡◌, refl, sym, ap, ◌∙◌, arith, ◌⊎◌, inl, inr, Bool-cases, true, false, String, ◌==◌, Option,
  none, some, List, [], ◌∷◌, ◌++◌, StringMap, ok, if◌then◌else◌,
}
use csi_driver_for_windows_s.Text.{trim_space}
use csi_driver_for_windows_s.Exec.{unknown, stop_if}
use csi_driver_for_windows_s.Exec.Trace.{Yields, Yields-bind, Yields-bind_yielded, Yields-pure}
use csi_driver_for_windows_s.Backend.{Backend}
use csi_driver_for_windows_s.Driver.{Driver}
use csi_driver_for_windows_s.Controller.Ids.{IdCodec}
use csi_driver_for_windows_s.Kubernetes.Objects.{
  VolumeAttachment, NodeDriver, CsiNode, SecretReference,
}
use csi_driver_for_windows_s.Kubernetes.Cluster.{
  Cluster, get_volume_attachment, get_secret, cached_csi_node,
}
use csi_driver_for_windows_s.Kubernetes.Strings.{has_string}
use csi_driver_for_windows_s.Kubernetes.Secrets.{secret_data_from_ref}
use csi_driver_for_windows_s.Kubernetes.Attacher.{
  va_protection_finalizer, id_unless_empty, node_id_for, protected,
  csi_node_id_for_volume_attachment, update_va_finalizers,
}
use csi_driver_for_windows_s.Kubernetes.Traces.{IsReply, Yields-request}

-- One of the drivers has this name and this ID, which is not blank.
unfoldable pub HasNodeId : (driver_name : String) → List NodeDriver → (node_id : String) → Type 0
HasNodeId driver_name [] node_id = ⊥
HasNodeId driver_name (driver ∷ drivers) node_id =
    (((driver.name == driver_name) ≡ true)
      × (node_id ≡ trim_space driver.node_id)
      × ((node_id == "") ≡ false))
    ⊎ HasNodeId driver_name drivers node_id

module _ {S : Type 0} (k : Cluster S) where
  -- The ID that the node of an attachment has for the driver.
  pub record IsNodeId (driver_name : String) (va : VolumeAttachment) (node_id : String)
      : Type 0 where
    pub node : CsiNode
    pub is_reply : IsReply k (cached_csi_node (trim_space va.node_name)) node
    pub has_id : HasNodeId driver_name node.drivers node_id

  -- The attachment itself, which is protected, or what the cluster answers for it.
  abbrev pub IsLatest : VolumeAttachment → VolumeAttachment → Type 0
  IsLatest va latest =
      ((latest ≡ va) × (has_string va.finalizers va_protection_finalizer ≡ true))
      ⊎ IsReply k (get_volume_attachment va.name) latest

  -- The secrets that a reference names: none, where it names none.
  unfoldable pub AreSecrets : Option SecretReference → StringMap → Type 0
  AreSecrets none secrets = secrets ≡ []
  AreSecrets (some ref) secrets =
      (((trim_space ref.name == "") ≡ true) × (secrets ≡ []))
      ⊎ IsReply k (get_secret ref.namespace ref.name) secrets

  pub secret_data_from_ref-AreSecrets :
      (o : Option SecretReference) → Yields (AreSecrets o) (secret_data_from_ref k o)
  unfolding secret_data_from_ref AreSecrets
  secret_data_from_ref-AreSecrets none = Yields-pure [] refl
  secret_data_from_ref-AreSecrets (some ref) = elim (Bool-cases (trim_space ref.name == "")) [
    | inl h ↦ rw h (Yields-pure [] (inl (h, refl)))
    | inr h ↦ rw h (record {
      yield = λ w a e. inr ((Yields-request k (get_secret ref.namespace ref.name)).yield w a e);
    })
  ]

id_unless_empty-ok :
    (text : String) {node_id : String}
    → id_unless_empty text ≡ ok node_id
    → (node_id ≡ text) × ((node_id == "") ≡ false)
id_unless_empty-ok text e = ground arith

node_id_for-HasNodeId :
    (driver_name : String) (drivers : List NodeDriver) {node_id : String}
    → node_id_for driver_name drivers ≡ ok node_id
    → HasNodeId driver_name drivers node_id
unfolding node_id_for HasNodeId
node_id_for-HasNodeId driver_name [] e = cc
node_id_for-HasNodeId driver_name (driver ∷ drivers) e =
    elim (Bool-cases (driver.name == driver_name)) [
      | inl h ↦
          let (same, ne) = id_unless_empty-ok (trim_space driver.node_id) (
            ap
              (λ t.
                if t
                then id_unless_empty (trim_space driver.node_id)
                else node_id_for driver_name drivers)
              (sym h)
            ∙ e) in
          inl (h, same, ne)
      | inr h ↦ inr (
          node_id_for-HasNodeId driver_name drivers (
            ap
              (λ t.
                if t
                then id_unless_empty (trim_space driver.node_id)
                else node_id_for driver_name drivers)
              (sym h)
            ∙ e))
    ]

module _ {S : Type 0} (k : Cluster S) (b : Backend S) (ids : IdCodec) (d : Driver) where
  pub csi_id_for-IsNodeId :
      (va : VolumeAttachment)
      → Yields (IsNodeId k d.name va) (csi_node_id_for_volume_attachment k b ids d va)
  unfolding csi_node_id_for_volume_attachment
  csi_id_for-IsNodeId va =
      let c = cached_csi_node (trim_space va.node_name) in
      Yields-bind (stop_if (trim_space va.node_name == "") unknown) λ _.
        Yields-bind_yielded (IsReply k c) (Yields-request k c) λ node r. record {
          yield = λ w node_id e. record {
            node = node;
            is_reply = r;
            has_id = node_id_for-HasNodeId d.name node.drivers e;
          };
        }

  pub protected-IsLatest : (va : VolumeAttachment) → Yields (IsLatest k va) (protected k b ids d va)
  unfolding protected
  protected-IsLatest va = elim (Bool-cases (has_string va.finalizers va_protection_finalizer)) [
    | inl h ↦ rw h (Yields-pure va (inl (refl, h)))
    | inr h ↦ rw h (
        Yields-bind
          (update_va_finalizers k b ids d va (va.finalizers ++ va_protection_finalizer ∷ []))
          (λ _. record {
            yield = λ w a e. inr ((Yields-request k (get_volume_attachment va.name)).yield w a e);
          }))
  ]
