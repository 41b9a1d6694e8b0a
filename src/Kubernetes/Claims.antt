-- ===== src/Kubernetes/Claims.antt =====
-- What the provisioner makes of a claim (pkg/iscsi/internal_kubernetes.go)
pub mod Agreement
pub mod Cloning
use Prim.Native.String
use csi_driver_for_windows_s.Prelude.{
  Bool, true, false, not, ◌||◌, ◌&&◌, String, ◌==◌, ℤ, pos, Option, none, some, List, [], ◌∷◌,
  StringMap, if◌then◌else◌,
}
use csi_driver_for_windows_s.Text.{trim_space, has_prefix}
use csi_driver_for_windows_s.Exec.{unknown, pure, fail, stop_if, ◌>>=◌, ◌>>◌}
use csi_driver_for_windows_s.Controller.Messages.{ContentSource, other_source, Volume}
use csi_driver_for_windows_s.Kubernetes.Objects.{
  PersistentVolume, PersistentVolumeClaim, StorageClass, CsiSource, DataSource, VolumeMode,
  filesystem_volume, ReclaimPolicy, reclaim_delete, no_phase,
}
use csi_driver_for_windows_s.Kubernetes.Cluster.{
  Cluster, ClusterExec, request, get_persistent_volume, get_persistent_volume_claim,
}
use csi_driver_for_windows_s.Kubernetes.Secrets.{
  TemplateNames, csi_param_prefix, secret_ref_for_operation,
}
use csi_driver_for_windows_s.Kubernetes.Capabilities.{fs_type_for_storage_class}

-- `pvProtectionFinalizer`
abbrev pub pv_protection_finalizer : String
pv_protection_finalizer = "windows-storage.csi.windows.microsoft.com/pv-protection"

-- `persistentVolumeNameForClaim`
unfoldable pub persistent_volume_name_for_claim : PersistentVolumeClaim → String
persistent_volume_name_for_claim pvc = String.◌++◌ "pvc-" pvc.uid

-- `storageClassNameForPVC`
unfoldable pub storage_class_name_for_pvc : PersistentVolumeClaim → String
unfolding trim_space
storage_class_name_for_pvc pvc = elim pvc.storage_class_name [
  | none ↦ ""
  | some name ↦ trim_space name
]

-- `requestedStorageBytes`
unfoldable pub requested_storage_bytes : PersistentVolumeClaim → ℤ
requested_storage_bytes pvc = elim pvc.requests [ none ↦ pos 0 | some bytes ↦ bytes ]

-- `createVolumeParameters`
unfoldable pub create_volume_parameters : StringMap → StringMap
unfolding has_prefix
create_volume_parameters [] = []
create_volume_parameters ((key, value) ∷ params) =
    let rest = create_volume_parameters params in
    if has_prefix key csi_param_prefix then rest else (key, value) ∷ rest

-- `pvcDataSourceRef`
unfoldable pub pvc_data_source_ref : PersistentVolumeClaim → Option DataSource
pvc_data_source_ref pvc = elim pvc.data_source_ref [
  | some ref ↦ some ref
  | none ↦ elim pvc.data_source [
    | none ↦ none
    | some source ↦ some (record source { namespace = none })
  ]
]

abbrev trimmed : Option String → String
trimmed none = ""
trimmed (some value) = trim_space value

-- The namespace of a source, the claim's own where it has none.
pub source_namespace : PersistentVolumeClaim → DataSource → String
unfolding trim_space
source_namespace pvc ref =
    let own = trimmed ref.namespace in if own == "" then pvc.namespace else own

-- `sourcePV.Spec.CSI != nil && ….Driver == driverName`, with a handle
is_own_volume : (driver_name : String) → Option CsiSource → Bool
unfolding trim_space
is_own_volume driver_name none = false
is_own_volume driver_name (some csi) =
    csi.driver == driver_name && not (trim_space csi.volume_handle == "")

module _ {S : Type 0} (k : Cluster S) where
  -- The volume of a claim that is the source of another one.
  pub claim_as_source : (driver_name namespace name : String) → ClusterExec S (Option ContentSource)
  unfolding request is_own_volume
  claim_as_source driver_name namespace name = do
    source ← request k (get_persistent_volume_claim namespace name)
    stop_if (trim_space source.volume_name == "") unknown
    pv ← request k (get_persistent_volume source.volume_name)
    stop_if (not (is_own_volume driver_name pv.csi)) unknown
    pure (some other_source)

  -- A source that has a name.
  unfoldable pub named_source :
      (driver_name : String)
      → PersistentVolumeClaim
      → DataSource
      → ClusterExec S (Option ContentSource)
  unfolding claim_as_source source_namespace
  named_source driver_name pvc ref = do
    let namespace = source_namespace pvc ref
    stop_if (not (namespace == pvc.namespace)) unknown
    if trimmed ref.api_group == "" && trim_space ref.kind == "PersistentVolumeClaim"
        then claim_as_source driver_name namespace ref.name
        else fail unknown

  pub source_of_reference :
      (driver_name : String)
      → PersistentVolumeClaim
      → Option DataSource
      → ClusterExec S (Option ContentSource)
  unfolding named_source
  source_of_reference driver_name pvc none = pure none
  source_of_reference driver_name pvc (some ref) =
      if trim_space ref.name == "" then pure none else named_source driver_name pvc ref

  -- `volumeContentSourceForPVC`. A volume as source is what the controller sees as `other_source`.
  unfoldable pub volume_content_source_for_pvc :
      (driver_name : String) → PersistentVolumeClaim → ClusterExec S (Option ContentSource)
  unfolding source_of_reference pvc_data_source_ref
  volume_content_source_for_pvc driver_name pvc =
      source_of_reference driver_name pvc (pvc_data_source_ref pvc)

-- `reclaimPolicyForStorageClass`
unfoldable pub reclaim_policy_for_storage_class : StorageClass → ReclaimPolicy
reclaim_policy_for_storage_class sc = elim sc.reclaim_policy [
  | none ↦ reclaim_delete
  | some policy ↦ policy
]

abbrev pub is_reclaim_delete : ReclaimPolicy → Bool
is_reclaim_delete reclaim_delete = true
is_reclaim_delete _ = false

volume_mode_or_filesystem : Option VolumeMode → VolumeMode
volume_mode_or_filesystem none = filesystem_volume
volume_mode_or_filesystem (some mode) = mode

-- The CSI part of the volume that is made for a claim.
csi_source_for : String → StorageClass → TemplateNames → Volume → CsiSource
unfolding fs_type_for_storage_class secret_ref_for_operation
csi_source_for driver_name sc names volume = record {
  driver = driver_name;
  volume_handle = volume.volume_id;
  fs_type = fs_type_for_storage_class sc;
  volume_attributes = volume.volume_context;
  controller_publish_secret = secret_ref_for_operation sc.parameters "controller-publish" names;
  node_stage_secret = secret_ref_for_operation sc.parameters "node-stage" names;
  node_publish_secret = secret_ref_for_operation sc.parameters "node-publish" names;
  controller_expand_secret = secret_ref_for_operation sc.parameters "controller-expand" names;
}

abbrev pub template_names : PersistentVolumeClaim → (pv_name : String) → TemplateNames
template_names pvc pv_name = record {
  pvc_namespace = pvc.namespace;
  pvc_name = pvc.name;
  pv_name = pv_name;
}

-- `persistentVolumeForClaim`
unfoldable pub persistent_volume_for_claim :
    (driver_name : String)
    → PersistentVolumeClaim
    → StorageClass
    → (pv_name : String) → Volume
    → PersistentVolume
unfolding csi_source_for reclaim_policy_for_storage_class volume_mode_or_filesystem
persistent_volume_for_claim driver_name pvc sc pv_name volume = record {
  name = pv_name;
  finalizers =
      if is_reclaim_delete (reclaim_policy_for_storage_class sc)
      then pv_protection_finalizer ∷ []
      else [];
  deleting = false;
  phase = no_phase;
  capacity = volume.capacity_bytes;
  access_modes = pvc.access_modes;
  reclaim_policy = reclaim_policy_for_storage_class sc;
  storage_class_name = sc.name;
  mount_options = sc.mount_options;
  volume_mode = some (volume_mode_or_filesystem pvc.volume_mode);
  claim = some (record { namespace = pvc.namespace; name = pvc.name; uid = pvc.uid });
  csi = some (csi_source_for driver_name sc (template_names pvc pv_name) volume);
}
