-- ===== src/Kubernetes/Objects.antt =====
-- The objects of Kubernetes, with the fields that pkg/iscsi/internal_kubernetes.go reads or fills. Each
-- is a struct of k8s.io/api. A nil pointer is `none`, a `DeletionTimestamp` is given by whether it is set.
use csi_driver_for_windows_s.Prelude.{String, Bool, ℤ, Option, List, StringMap}

-- `PersistentVolumeAccessMode`
pub data ClaimMode : Type 0 where
  read_write_once read_only_many read_write_many read_write_once_pod : ClaimMode

-- `PersistentVolumeMode`
pub data VolumeMode : Type 0 where
  filesystem_volume block_volume : VolumeMode

-- `PersistentVolumeReclaimPolicy`
pub data ReclaimPolicy : Type 0 where
  reclaim_retain reclaim_delete reclaim_recycle : ReclaimPolicy

-- `PersistentVolumePhase`; a volume that was not yet looked at has none.
pub data VolumePhase : Type 0 where
  no_phase volume_pending volume_available volume_bound volume_released volume_failed : VolumePhase

-- `VolumeBindingMode`
pub data BindingMode : Type 0 where
  bind_immediate wait_for_first_consumer : BindingMode

pub record SecretReference : Type 0 where
  pub name : String
  pub namespace : String

-- `TypedObjectReference`; a `TypedLocalObjectReference` has no namespace.
pub record DataSource : Type 0 where
  pub api_group : Option String
  pub kind : String
  pub name : String
  pub namespace : Option String

-- `requests` is the value of the request for storage, `selected_node` the annotation, empty if missing.
pub record PersistentVolumeClaim : Type 0 where
  pub namespace : String
  pub name : String
  pub uid : String
  pub deleting : Bool
  pub selected_node : String
  pub volume_name : String
  pub storage_class_name : Option String
  pub volume_mode : Option VolumeMode
  pub access_modes : List ClaimMode
  pub requests : Option ℤ
  pub data_source : Option DataSource
  pub data_source_ref : Option DataSource

pub record StorageClass : Type 0 where
  pub name : String
  pub provisioner : String
  pub parameters : StringMap
  pub reclaim_policy : Option ReclaimPolicy
  pub mount_options : List String
  pub binding_mode : Option BindingMode

-- `CSIPersistentVolumeSource`
pub record CsiSource : Type 0 where
  pub driver : String
  pub volume_handle : String
  pub fs_type : String
  pub volume_attributes : StringMap
  pub controller_publish_secret : Option SecretReference
  pub node_stage_secret : Option SecretReference
  pub node_publish_secret : Option SecretReference
  pub controller_expand_secret : Option SecretReference

-- `ObjectReference` to a claim
pub record ClaimReference : Type 0 where
  pub namespace : String
  pub name : String
  pub uid : String

pub record PersistentVolume : Type 0 where
  pub name : String
  pub finalizers : List String
  pub deleting : Bool
  pub phase : VolumePhase
  pub capacity : ℤ
  pub access_modes : List ClaimMode
  pub reclaim_policy : ReclaimPolicy
  pub storage_class_name : String
  pub mount_options : List String
  pub volume_mode : Option VolumeMode
  pub claim : Option ClaimReference
  pub csi : Option CsiSource

-- `volume` is the name of the persistent volume that is attached.
pub record VolumeAttachment : Type 0 where
  pub name : String
  pub finalizers : List String
  pub deleting : Bool
  pub attacher : String
  pub node_name : String
  pub volume : Option String
  pub attached : Bool
  pub attachment_metadata : StringMap

-- `CSINodeDriver`
pub record NodeDriver : Type 0 where
  pub name : String
  pub node_id : String

pub record CsiNode : Type 0 where
  pub name : String
  pub drivers : List NodeDriver
