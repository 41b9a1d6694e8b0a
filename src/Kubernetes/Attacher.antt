-- ===== src/Kubernetes/Attacher.antt =====
-- The attacher of pkg/iscsi/internal_kubernetes.go: it publishes the volume of an attachment to its node,
-- and takes that back
pub mod Answers
pub mod Success
use Prim.Native.String
use csi_driver_for_windows_s.Prelude.{
  Bool, true, false, not, ◌||◌, ◌&&◌, String, ◌==◌, Option, none, some, List, [], ◌∷◌, ◌++◌,
  StringMap, Result, ok, err, if◌then◌else◌,
}
use csi_driver_for_windows_s.Text.{trim_space}
use csi_driver_for_windows_s.Exec.{Code, unknown, pure, fail, lift, stop_if, ◌>>=◌, ◌>>◌}
use csi_driver_for_windows_s.Backend.{Backend}
use csi_driver_for_windows_s.Driver.{Driver}
use csi_driver_for_windows_s.Controller.Ids.{IdCodec}
use csi_driver_for_windows_s.Controller.Messages.{ControllerPublishVolumeRequest}
use csi_driver_for_windows_s.Controller.Publish.{
  controller_publish_volume, controller_unpublish_volume,
}
use csi_driver_for_windows_s.Kubernetes.Objects.{
  PersistentVolume, CsiSource, VolumeAttachment, NodeDriver,
}
use csi_driver_for_windows_s.Kubernetes.Cluster.{
  ApiError, object_not_found, Cluster, ClusterExec, with_answer, accept_missing, try_request,
  request, on_backend, get_volume_attachment, update_volume_attachment, update_attachment_status,
  cached_persistent_volume, cached_volume_attachment, cached_csi_node,
}
use csi_driver_for_windows_s.Kubernetes.Strings.{has_string, remove_string, unique_strings}
use csi_driver_for_windows_s.Kubernetes.Secrets.{secret_data_from_ref}
use csi_driver_for_windows_s.Kubernetes.Capabilities.{volume_capability_for_pv}
use csi_driver_for_windows_s.Kubernetes.Events.{attached_volume}

-- `vaProtectionFinalizer`
abbrev pub va_protection_finalizer : String
va_protection_finalizer = "windows-storage.csi.windows.microsoft.com/volumeattachment-protection"

abbrev id_unless_empty : (node_id : String) → Result Code String
id_unless_empty node_id = if node_id == "" then err unknown else ok node_id

-- The ID that a node has for the driver: the loop of `csiNodeIDForVolumeAttachment`.
unfoldable pub node_id_for : (driver_name : String) → List NodeDriver → Result Code String
unfolding trim_space
node_id_for driver_name [] = err unknown
node_id_for driver_name (driver ∷ drivers) =
    let rest = node_id_for driver_name drivers in
    if driver.name == driver_name then id_unless_empty (trim_space driver.node_id) else rest

-- The attachment that is written when the volume has been published.
abbrev pub as_attached : VolumeAttachment → StringMap → VolumeAttachment
as_attached va context = record va { attached = true; attachment_metadata = context }

unfoldable pub publish_request :
    PersistentVolume
    → CsiSource
    → (node_id : String) → (secrets : StringMap) → ControllerPublishVolumeRequest
unfolding volume_capability_for_pv
publish_request pv csi node_id secrets = record {
  volume_id = csi.volume_handle;
  node_id = node_id;
  access_mode = (volume_capability_for_pv pv).access_mode;
  secrets = secrets;
}

module _ {S : Type 0} (k : Cluster S) (b : Backend S) (ids : IdCodec) (d : Driver) where
  -- `updateVAFinalizers`
  unfoldable pub update_va_finalizers : VolumeAttachment → List String → ClusterExec S (Unit {0})
  unfolding request unique_strings
  update_va_finalizers va finalizers =
      request k (update_volume_attachment (record va { finalizers = unique_strings finalizers }))

  -- `csiNodeIDForVolumeAttachment`
  unfoldable pub csi_node_id_for_volume_attachment : VolumeAttachment → ClusterExec S String
  unfolding request node_id_for trim_space
  csi_node_id_for_volume_attachment va = do
    stop_if (trim_space va.node_name == "") unknown
    node ← request k (cached_csi_node (trim_space va.node_name))
    lift (node_id_for d.name node.drivers)

  -- The protection of an attachment that goes away is taken off.
  unprotect_attachment : VolumeAttachment → ClusterExec S (Unit {0})
  unfolding update_va_finalizers remove_string
  unprotect_attachment va =
      update_va_finalizers va (remove_string va.finalizers va_protection_finalizer)

  -- The part for an attachment that is being deleted.
  unfoldable pub detach : VolumeAttachment → CsiSource → ClusterExec S (Unit {0})
  unfolding csi_node_id_for_volume_attachment on_backend unprotect_attachment has_string
  detach va csi = if not (has_string va.finalizers va_protection_finalizer) then pure tt else do
    node_id ← csi_node_id_for_volume_attachment va
    on_backend (controller_unpublish_volume b ids csi.volume_handle node_id)
    unprotect_attachment va

  -- The attachment as it is protected: with the finalizer set and read again where it had none.
  pub protected : VolumeAttachment → ClusterExec S VolumeAttachment
  unfolding update_va_finalizers request has_string
  protected va = if has_string va.finalizers va_protection_finalizer then pure va else do
    update_va_finalizers va (va.finalizers ++ va_protection_finalizer ∷ [])
    request k (get_volume_attachment va.name)

  -- The part for an attachment that stays.
  unfoldable pub attach : VolumeAttachment → PersistentVolume → CsiSource → ClusterExec S (Unit {0})
  unfolding protected secret_data_from_ref csi_node_id_for_volume_attachment on_backend request
      publish_request
  attach va pv csi = if va.attached then pure tt else do
    latest ← protected va
    secrets ← secret_data_from_ref k csi.controller_publish_secret
    node_id ← csi_node_id_for_volume_attachment latest
    context ←
        on_backend (controller_publish_volume b ids d (publish_request pv csi node_id secrets))
    request k (update_attachment_status (as_attached latest context))

  attach_or_detach :
      VolumeAttachment → PersistentVolume → Option CsiSource → ClusterExec S (Unit {0})
  unfolding attach detach
  attach_or_detach va pv none = pure tt
  attach_or_detach va pv (some csi) =
      if not (csi.driver == d.name)
      then pure tt
      else if va.deleting
      then detach va csi
      else attach va pv csi

  -- The volume is gone.
  release_attachment : VolumeAttachment → ClusterExec S (Unit {0})
  unfolding unprotect_attachment has_string
  release_attachment va =
      if va.deleting && has_string va.finalizers va_protection_finalizer
      then unprotect_attachment va
      else pure tt

  after_lookup : VolumeAttachment → ApiError → ClusterExec S (Unit {0})
  unfolding release_attachment
  after_lookup va object_not_found = release_attachment va
  after_lookup va _ = fail unknown

  -- `reconcileVolumeAttachment`
  unfoldable pub reconcile_volume_attachment : VolumeAttachment → ClusterExec S (Unit {0})
  unfolding try_request attach_or_detach after_lookup trim_space
  reconcile_volume_attachment va =
      if attached_volume va == ""
      then pure tt
      else with_answer k (cached_persistent_volume (attached_volume va))
          (λ pv. attach_or_detach va pv pv.csi) (after_lookup va)

  reconcile_own_attachment : VolumeAttachment → ClusterExec S (Unit {0})
  unfolding reconcile_volume_attachment
  reconcile_own_attachment va =
      if va.attacher == d.name then reconcile_volume_attachment va else pure tt

  -- `reconcileInternalAttacher`
  unfoldable pub reconcile_internal_attacher : (key : String) → ClusterExec S (Unit {0})
  unfolding try_request reconcile_own_attachment trim_space
  reconcile_internal_attacher key =
      let va_name = trim_space key in
      if va_name == ""
      then pure tt
      else with_answer k (cached_volume_attachment va_name) reconcile_own_attachment accept_missing

-- What a run of `attach` or `detach` opens.
unfoldable pub attaching : Unit {0}
unfolding attach detach protected unprotect_attachment update_va_finalizers
    csi_node_id_for_volume_attachment node_id_for publish_request volume_capability_for_pv
    has_string trim_space
attaching = tt
