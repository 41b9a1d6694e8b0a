-- ===== src/Kubernetes/Events.antt =====
-- The keys that events put into the queues of the provisioner and of the attacher
-- (pkg/iscsi/internal_kubernetes.go)
use Prim.Native.String
use csi_driver_for_windows_s.Prelude.{
  ◌&&◌, String, ◌==◌, Option, none, some, List, [], ◌∷◌, if◌then◌else◌,
}
use csi_driver_for_windows_s.Text.{trim_space}
use csi_driver_for_windows_s.Kubernetes.Objects.{
  PersistentVolume, PersistentVolumeClaim, VolumeAttachment, CsiNode,
}

-- `cache.MetaNamespaceKeyFunc` and `cache.SplitMetaNamespaceKey` of client-go
pub record CacheKeys : Type 0 where
  pub meta_key : (namespace name : String) → Option String
  pub split_key : String → Option (String × String)

-- What a handler of events is given: an object, the last known one of a deleted object, or another value.
pub data EventObject (A : Type 0) : Type 0 where
  object tombstone : A → EventObject A
  other_value : EventObject A

-- `persistentVolumeFromEventObject` and the like
abbrev pub from_event_object : {A : Type 0} → EventObject A → Option A
from_event_object (object a) = some a
from_event_object (tombstone a) = some a
from_event_object other_value = none

abbrev pub pv_key_prefix : String
pv_key_prefix = "pv/"

abbrev pub pvc_key_prefix : String
pvc_key_prefix = "pvc/"

abbrev key_unless_empty : (prefix name : String) → List String
key_unless_empty prefix name = if name == "" then [] else String.◌++◌ prefix name ∷ []

-- `enqueueProvisionerPV`
unfoldable pub provisioner_pv_keys : EventObject PersistentVolume → List String
provisioner_pv_keys event = elim (from_event_object event) [
  | none ↦ []
  | some pv ↦ key_unless_empty pv_key_prefix pv.name
]

-- `enqueueProvisionerPVC`
unfoldable pub provisioner_pvc_keys : CacheKeys → EventObject PersistentVolumeClaim → List String
provisioner_pvc_keys keys event = elim (from_event_object event) [
  | none ↦ []
  | some pvc ↦ elim (keys.meta_key pvc.namespace pvc.name) [
    | none ↦ []
    | some key ↦ String.◌++◌ pvc_key_prefix key ∷ []
  ]
]

abbrev pub attached_volume : VolumeAttachment → String
attached_volume va = elim va.volume [ none ↦ "" | some name ↦ trim_space name ]

-- `enqueueProvisionerPVForVolumeAttachment`
unfoldable pub provisioner_attachment_keys :
    (driver_name : String) → EventObject VolumeAttachment → List String
unfolding trim_space
provisioner_attachment_keys driver_name event = elim (from_event_object event) [
  | none ↦ []
  | some va ↦
      if va.attacher == driver_name then key_unless_empty pv_key_prefix (attached_volume va) else []
]

-- `enqueueAttacherVolumeAttachment`
unfoldable pub attacher_keys : (driver_name : String) → EventObject VolumeAttachment → List String
attacher_keys driver_name event = elim (from_event_object event) [
  | none ↦ []
  | some va ↦ if va.attacher == driver_name then key_unless_empty "" va.name else []
]

attachments_of_node : (driver_name node_name : String) → List VolumeAttachment → List String
attachments_of_node driver_name node_name [] = []
attachments_of_node driver_name node_name (va ∷ vas) =
    let rest = attachments_of_node driver_name node_name vas in
    if va.attacher == driver_name && va.node_name == node_name then va.name ∷ rest else rest

-- `enqueueAttacherVolumeAttachmentsForCSINode`, with the cached attachments, none where they cannot be
-- listed
unfoldable pub attacher_node_keys :
    (driver_name : String) → Option (List VolumeAttachment) → EventObject CsiNode → List String
unfolding attachments_of_node
attacher_node_keys driver_name cached event = elim (from_event_object event) [
  | none ↦ []
  | some node ↦ elim cached [
    | none ↦ []
    | some vas ↦ if node.name == "" then [] else attachments_of_node driver_name node.name vas
  ]
]
