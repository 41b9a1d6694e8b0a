-- ===== src/Kubernetes/Provisioner.antt =====
-- The provisioner of pkg/iscsi/internal_kubernetes.go: it makes a volume for a claim, and takes a volume
-- away that is released
pub mod Deletion
pub mod Attached
pub mod Rollback
pub mod Cloning
pub mod Keys
use Prim.Native.String
use csi_driver_for_windows_s.Prelude.{
  Bool, true, false, not, ◌||◌, ◌&&◌, String, ◌==◌, Option, none, some, List, [], ◌∷◌, any, ok, pos,
  StringMap, with_error, if◌then◌else◌,
}
use csi_driver_for_windows_s.Text.{trim_space, has_prefix, trim_prefix}
use csi_driver_for_windows_s.Exec.{unknown, pure, fail, lift, stop_if, ◌>>=◌, ◌>>◌}
use csi_driver_for_windows_s.Backend.{Backend}
use csi_driver_for_windows_s.Driver.{Driver, AccessMode}
use csi_driver_for_windows_s.Controller.Ids.{IdCodec}
use csi_driver_for_windows_s.Controller.Messages.{ContentSource, CreateVolumeRequest, Volume}
use csi_driver_for_windows_s.Controller.Params.{CapacityRange}
use csi_driver_for_windows_s.Controller.Create.{create_volume}
use csi_driver_for_windows_s.Controller.Delete.{delete_volume}
use csi_driver_for_windows_s.Kubernetes.Objects.{
  PersistentVolume, PersistentVolumeClaim, StorageClass, CsiSource, VolumeAttachment, VolumePhase,
  volume_released, BindingMode, wait_for_first_consumer,
}
use csi_driver_for_windows_s.Kubernetes.Cluster.{
  ApiError, object_not_found, object_already_exists, other_error, Cluster, ClusterExec,
  accept_missing, with_answer, try_request, request, on_backend, ignoring, get_storage_class,
  get_persistent_volume, create_persistent_volume, update_persistent_volume,
  delete_persistent_volume, cached_persistent_volume, cached_persistent_volume_claim,
  cached_volume_attachments,
}
use csi_driver_for_windows_s.Kubernetes.Strings.{has_string, remove_string, unique_strings}
use csi_driver_for_windows_s.Kubernetes.Secrets.{secret_data_for_operation}
use csi_driver_for_windows_s.Kubernetes.Capabilities.{VolumeCapability, volume_capabilities_for_pvc}
use csi_driver_for_windows_s.Kubernetes.Claims.{
  pv_protection_finalizer, persistent_volume_name_for_claim, storage_class_name_for_pvc,
  requested_storage_bytes, create_volume_parameters, volume_content_source_for_pvc,
  is_reclaim_delete, template_names, persistent_volume_for_claim,
}
use csi_driver_for_windows_s.Kubernetes.Events.{
  CacheKeys, attached_volume, pv_key_prefix, pvc_key_prefix,
}

-- `sc.VolumeBindingMode != nil && … == WaitForFirstConsumer`, without a selected node
waits_for_node : StorageClass → PersistentVolumeClaim → Bool
unfolding trim_space
waits_for_node sc pvc = elim sc.binding_mode [
  | some wait_for_first_consumer ↦ trim_space pvc.selected_node == ""
  | _ ↦ false
]

access_modes_of : List VolumeCapability → List AccessMode
access_modes_of [] = []
access_modes_of (capability ∷ rest) = capability.access_mode ∷ access_modes_of rest

-- The request for the volume of a claim.
unfoldable pub create_request :
    PersistentVolumeClaim
    → StorageClass
    → (pv_name : String) → StringMap
    → Option ContentSource
    → CreateVolumeRequest
unfolding requested_storage_bytes volume_capabilities_for_pvc access_modes_of
    create_volume_parameters
create_request pvc sc pv_name secrets source = record {
  name = pv_name;
  capacity_range =
      some (record { required_bytes = requested_storage_bytes pvc; limit_bytes = pos 0 });
  capabilities = access_modes_of (volume_capabilities_for_pvc pvc sc);
  parameters = create_volume_parameters sc.parameters;
  secrets = secrets;
  content_source = source;
}

abbrev pub is_released : VolumePhase → Bool
is_released volume_released = true
is_released _ = false

abbrev is_some : Option String → Bool
is_some none = false
is_some (some name) = true

-- A volume attachment of the driver that names the volume.
abbrev pub attaches : (driver_name pv_name : String) → VolumeAttachment → Bool
attaches driver_name pv_name va =
    va.attacher == driver_name && is_some va.volume && attached_volume va == pv_name

module _ {S : Type 0} (k : Cluster S) (b : Backend S) (ids : IdCodec) (d : Driver) where
  -- `updatePVFinalizers`
  unfoldable pub update_pv_finalizers : PersistentVolume → List String → ClusterExec S (Unit {0})
  unfolding request unique_strings
  update_pv_finalizers pv finalizers =
      request k (update_persistent_volume (record pv { finalizers = unique_strings finalizers }))

  -- The end of `reconcilePersistentVolumeClaim`: the backend's volume is taken back where its object
  -- cannot be made, and the error is that of the object.
  unfoldable pub roll_back : (volume_id : String) → ClusterExec S (Unit {0})
  unfolding on_backend ignoring
  roll_back volume_id =
      if volume_id == ""
      then fail unknown
      else ignoring (on_backend (delete_volume b ids volume_id)) >> fail unknown

  after_refusal : (volume_id : String) → ApiError → ClusterExec S (Unit {0})
  unfolding roll_back
  after_refusal volume_id object_already_exists = pure tt
  after_refusal volume_id _ = roll_back volume_id

  unfoldable pub publish_volume : PersistentVolume → (volume_id : String) → ClusterExec S (Unit {0})
  unfolding try_request after_refusal
  publish_volume pv volume_id =
      with_answer k (create_persistent_volume pv) (λ _. pure tt) (after_refusal volume_id)

  unfoldable pub make_volume :
      PersistentVolumeClaim → StorageClass → (pv_name : String) → ClusterExec S (Unit {0})
  unfolding secret_data_for_operation volume_content_source_for_pvc on_backend create_request
      publish_volume persistent_volume_for_claim
  make_volume pvc sc pv_name = do
    secrets ← secret_data_for_operation k sc.parameters "provisioner" (template_names pvc pv_name)
    source ← volume_content_source_for_pvc k d.name pvc
    volume ← on_backend (create_volume b ids d (create_request pvc sc pv_name secrets source))
    publish_volume (persistent_volume_for_claim d.name pvc sc pv_name volume) volume.volume_id

  after_search :
      PersistentVolumeClaim
      → StorageClass
      → (pv_name : String) → ApiError
      → ClusterExec S (Unit {0})
  unfolding make_volume
  after_search pvc sc pv_name object_not_found = make_volume pvc sc pv_name
  after_search pvc sc pv_name _ = fail unknown

  -- A volume is made where none has the name.
  provision : PersistentVolumeClaim → StorageClass → ClusterExec S (Unit {0})
  unfolding try_request after_search persistent_volume_name_for_claim
  provision pvc sc =
      let pv_name = persistent_volume_name_for_claim pvc in
      with_answer k (get_persistent_volume pv_name) (λ _. pure tt) (after_search pvc sc pv_name)

  provision_class : PersistentVolumeClaim → (class_name : String) → ClusterExec S (Unit {0})
  unfolding request provision waits_for_node
  provision_class pvc class_name = do
    sc ← request k (get_storage_class class_name)
    if not (sc.provisioner == d.name) || waits_for_node sc pvc then pure tt else provision pvc sc

  -- `reconcilePersistentVolumeClaim`
  unfoldable pub reconcile_persistent_volume_claim :
      PersistentVolumeClaim → ClusterExec S (Unit {0})
  unfolding provision_class storage_class_name_for_pvc
  reconcile_persistent_volume_claim pvc =
      let class_name = storage_class_name_for_pvc pvc in
      if pvc.deleting || not (pvc.volume_name == "") || class_name == ""
      then pure tt
      else provision_class pvc class_name

  -- `volumeAttachmentExistsForPV`
  unfoldable pub volume_attachment_exists_for_pv : (pv_name : String) → ClusterExec S Bool
  unfolding request
  volume_attachment_exists_for_pv pv_name =
      request k cached_volume_attachments >>= λ vas. pure (any (attaches d.name pv_name) vas)

  -- The protection of a volume is taken off where it is on.
  unprotect : PersistentVolume → ClusterExec S (Unit {0})
  unfolding update_pv_finalizers has_string remove_string
  unprotect pv =
      if has_string pv.finalizers pv_protection_finalizer
      then update_pv_finalizers pv (remove_string pv.finalizers pv_protection_finalizer)
      else pure tt

  delete_object : (pv_name : String) → ClusterExec S (Unit {0})
  unfolding try_request
  delete_object pv_name =
      with_answer k (delete_persistent_volume pv_name) (λ _. pure tt) accept_missing

  delete_backend_volume : PersistentVolume → (volume_id : String) → ClusterExec S (Unit {0})
  unfolding on_backend unprotect delete_object
  delete_backend_volume pv volume_id = do
    on_backend (delete_volume b ids volume_id)
    unprotect pv
    if pv.deleting then pure tt else delete_object pv.name

  -- A volume whose policy is to be deleted.
  delete_unattached : PersistentVolume → (volume_id : String) → ClusterExec S (Unit {0})
  unfolding volume_attachment_exists_for_pv delete_backend_volume
  delete_unattached pv volume_id = do
    stop_if (volume_id == "") unknown
    has_attachment ← volume_attachment_exists_for_pv pv.name
    if has_attachment then pure tt else delete_backend_volume pv volume_id

  delete_own : PersistentVolume → CsiSource → ClusterExec S (Unit {0})
  unfolding delete_unattached unprotect
  delete_own pv csi =
      if not (pv.deleting || is_released pv.phase)
      then pure tt
      else if is_reclaim_delete pv.reclaim_policy
      then delete_unattached pv csi.volume_handle
      else if pv.deleting
      then unprotect pv
      else pure tt

  delete_source : PersistentVolume → Option CsiSource → ClusterExec S (Unit {0})
  unfolding delete_own
  delete_source pv none = pure tt
  delete_source pv (some csi) = if csi.driver == d.name then delete_own pv csi else pure tt

  -- `reconcilePersistentVolumeDeletion`
  unfoldable pub reconcile_persistent_volume_deletion : PersistentVolume → ClusterExec S (Unit {0})
  unfolding delete_source
  reconcile_persistent_volume_deletion pv = delete_source pv pv.csi

  reconcile_pv_key : (pv_name : String) → ClusterExec S (Unit {0})
  unfolding try_request reconcile_persistent_volume_deletion
  reconcile_pv_key pv_name =
      if pv_name == ""
      then pure tt
      else with_answer k (cached_persistent_volume pv_name) reconcile_persistent_volume_deletion
          accept_missing

  pub reconcile_pvc_key : (namespace name : String) → ClusterExec S (Unit {0})
  unfolding try_request reconcile_persistent_volume_claim
  reconcile_pvc_key namespace name =
      with_answer k (cached_persistent_volume_claim namespace name)
        reconcile_persistent_volume_claim accept_missing

  -- `reconcileInternalProvisioner`
  unfoldable pub reconcile_internal_provisioner :
      CacheKeys → (key : String) → ClusterExec S (Unit {0})
  unfolding reconcile_pv_key reconcile_pvc_key trim_space trim_prefix has_prefix
  reconcile_internal_provisioner keys key =
      if has_prefix key pv_key_prefix
      then reconcile_pv_key (trim_space (trim_prefix key pv_key_prefix))
      else if has_prefix key pvc_key_prefix
      then (do
        (namespace, name) ←
            lift (with_error unknown (keys.split_key (trim_prefix key pvc_key_prefix)))
        reconcile_pvc_key namespace name)
      else fail unknown
