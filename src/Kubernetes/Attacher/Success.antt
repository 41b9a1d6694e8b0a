-- ===== src/Kubernetes/Attacher/Success.antt =====
-- What the attacher (pkg/iscsi/internal_kubernetes.go) has done when it succeeds.
use mathlib.Core.Path.{subst⁻¹}
use csi_driver_for_windows_s.Prelude.{
  ◌≡◌, ap, ◌∙◌, refl, sym, true, false, not, String, ◌==◌, some, StringMap, ok, if◌then◌else◌,
}
use csi_driver_for_windows_s.Exec.{World, pure, ◌>>=◌, ◌▷◌}
use csi_driver_for_windows_s.Exec.Success.{>>=-ok, Reaches, Reaches-bind_yielded, Reaches-else}
use csi_driver_for_windows_s.Backend.{Backend}
use csi_driver_for_windows_s.Driver.{Driver}
use csi_driver_for_windows_s.Controller.Ids.{IdCodec}
use csi_driver_for_windows_s.Controller.Publish.{
  controller_publish_volume, controller_unpublish_volume,
}
use csi_driver_for_windows_s.Kubernetes.Objects.{PersistentVolume, CsiSource, VolumeAttachment}
use csi_driver_for_windows_s.Kubernetes.Cluster.{
  Cluster, ClusterCall, api, on_backend, update_attachment_status, update_volume_attachment,
  cached_persistent_volume, try_request,
}
use csi_driver_for_windows_s.Kubernetes.Strings.{has_string, remove_string, unique_strings}
use csi_driver_for_windows_s.Kubernetes.Attacher.{
  va_protection_finalizer, as_attached, publish_request, attach, detach,
  csi_node_id_for_volume_attachment, unprotect_attachment, update_va_finalizers, attach_or_detach,
  reconcile_volume_attachment,
}
use csi_driver_for_windows_s.Kubernetes.Traces.{request-trace, IsReply, Yields-request}
use csi_driver_for_windows_s.Kubernetes.Events.{attached_volume}
use csi_driver_for_windows_s.Kubernetes.Attacher.Answers.{
  IsNodeId, IsLatest, AreSecrets, csi_id_for-IsNodeId,
}

-- The attachment without its protection.
abbrev pub unprotected_attachment : VolumeAttachment → VolumeAttachment
unprotected_attachment va = record va {
  finalizers = unique_strings (remove_string va.finalizers va_protection_finalizer);
}

module _ {S : Type 0} (k : Cluster S) (b : Backend S) (ids : IdCodec) (d : Driver) where
  -- The volume was published to the node of the attachment, with the secrets of the volume, and then the
  -- attachment was marked, with the context that the publication returned.
  pub record IsAttached (va : VolumeAttachment) (pv : PersistentVolume) (csi : CsiSource)
      (out : World ClusterCall S) : Type 0 where
    pub latest : VolumeAttachment
    pub is_latest : IsLatest k va latest
    pub node_id : String
    pub is_node_id : IsNodeId k d.name latest node_id
    pub secrets : StringMap
    pub are_secrets : AreSecrets k csi.controller_publish_secret secrets
    pub context : StringMap
    pub before : World ClusterCall S
    pub is_published :
        (on_backend
          (controller_publish_volume b ids d (publish_request pv csi node_id secrets))
          before).0
        ≡ ok context
    pub is_marked :
        out.trace
        ≡ (on_backend
            (controller_publish_volume b ids d (publish_request pv csi node_id secrets))
            before).1.trace
          ▷ api (update_attachment_status (as_attached latest context))
    pub is_accepted : IsReply k (update_attachment_status (as_attached latest context)) tt

  -- The node of the attachment was denied the volume, and then the protection was taken off.
  pub record IsDetached (va : VolumeAttachment) (csi : CsiSource) (out : World ClusterCall S)
      : Type 0 where
    pub node_id : String
    pub is_node_id : IsNodeId k d.name va node_id
    pub before : World ClusterCall S
    pub is_unpublished :
        (on_backend (controller_unpublish_volume b ids csi.volume_handle node_id) before).0 ≡ ok tt
    pub is_released :
        out.trace
        ≡ (on_backend (controller_unpublish_volume b ids csi.volume_handle node_id) before).1.trace
          ▷ api (update_volume_attachment (unprotected_attachment va))
    pub is_accepted : IsReply k (update_volume_attachment (unprotected_attachment va)) tt

  released :
      (va : VolumeAttachment) (csi : CsiSource) (node_id : String)
      → IsNodeId k d.name va node_id
      → Reaches (IsDetached va csi) (
          on_backend (controller_unpublish_volume b ids csi.volume_handle node_id) >>= λ _.
          unprotect_attachment k b ids d va)
  unfolding unprotect_attachment update_va_finalizers
  released va csi node_id n = record {
    reach = λ w a done.
        let unpublish = on_backend (controller_unpublish_volume b ids csi.volume_handle node_id) in
        let (_, r, e) = >>=-ok unpublish (λ _. unprotect_attachment k b ids d va) w done in
        record {
          node_id = node_id;
          is_node_id = n;
          before = w;
          is_unpublished = r;
          is_released = ap (λ x. x.1.trace) e ∙ request-trace k _ (unpublish w).1;
          is_accepted =
              (Yields-request k (update_volume_attachment (unprotected_attachment va))).yield
                (unpublish w).1 a (sym (ap (λ x. x.0) e) ∙ done);
        };
  }

  detach-Reaches :
      (va : VolumeAttachment) (csi : CsiSource)
      → has_string va.finalizers va_protection_finalizer ≡ true
      → Reaches (IsDetached va csi) (detach k b ids d va csi)
  unfolding detach
  detach-Reaches va csi is_protected =
      Reaches-else (not (has_string va.finalizers va_protection_finalizer)) (pure tt)
        (ap not is_protected)
        (Reaches-bind_yielded (IsNodeId k d.name va)
          (csi_node_id_for_volume_attachment k b ids d va) (csi_id_for-IsNodeId k b ids d va)
          (λ node_id n. released va csi node_id n))

module _ {S : Type 0} (k : Cluster S) (b : Backend S) (ids : IdCodec) (d : Driver)
    (va : VolumeAttachment) (pv : PersistentVolume) (csi : CsiSource) where
  -- The cluster knows the volume that the attachment names, and it is one of the driver.
  pub record IsKnown (w : World ClusterCall S) : Type 0 where
    pub is_named : (attached_volume va == "") ≡ false
    pub is_cached : (k.answer (cached_persistent_volume (attached_volume va)) w.state).0 ≡ ok pv
    pub has_source : pv.csi ≡ some csi
    pub is_own : (csi.driver == d.name) ≡ true

  -- The world behind the search for the volume.
  searched : World ClusterCall S → World ClusterCall S
  searched w = (try_request k (cached_persistent_volume (attached_volume va)) w).1

  reconcile-known :
      (w : World ClusterCall S)
      → IsKnown w
      → reconcile_volume_attachment k b ids d va w
        ≡ (if va.deleting then detach k b ids d va csi else attach k b ids d va pv csi) (searched w)
  unfolding reconcile_volume_attachment attach_or_detach try_request searched
  reconcile-known w known =
      rw (known.is_named, known.is_cached, known.has_source, known.is_own) refl

  -- If the attacher succeeds with an attachment that is going away and is protected, and whose volume the
  -- cluster still knows as one of the driver, then its last call, which the cluster
  -- accepts, takes the protection off. Right before,
  -- `ControllerUnpublishVolume` succeeded for the handle of the volume and the ID that the attachment's node
  -- has for the driver.
  pub reconcile_volume_attachment-IsDetached :
      (w : World ClusterCall S)
      → IsKnown w
      → va.deleting ≡ true
      → has_string va.finalizers va_protection_finalizer ≡ true
      → (reconcile_volume_attachment k b ids d va w).0 ≡ ok tt
      → IsDetached k b ids d va csi (reconcile_volume_attachment k b ids d va w).1
  reconcile_volume_attachment-IsDetached w known goes is_protected done =
      let e : reconcile_volume_attachment k b ids d va w ≡ detach k b ids d va csi (searched w) =
        reconcile-known w known
        ∙ ap (λ t. (if t then detach k b ids d va csi else attach k b ids d va pv csi) (searched w))
            goes in
      subst⁻¹ (λ x. IsDetached k b ids d va csi x.1) e
        ((detach-Reaches k b ids d va csi is_protected).reach (searched w) tt
          (sym (ap (λ x. x.0) e) ∙ done))
