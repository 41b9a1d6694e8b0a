-- ===== src/Kubernetes/Capabilities.antt =====
-- The capability of a claim and of a volume: `volumeCapability` of pkg/iscsi/internal_kubernetes.go
use csi_driver_for_windows_s.Prelude.{String, Option, none, some, List, [], ◌∷◌, String}
use csi_driver_for_windows_s.Driver.{
  AccessMode, single_node_writer, multi_node_reader_only, multi_node_multi_writer,
  single_node_single_writer,
}
use csi_driver_for_windows_s.Node.Options.{Access, block, mounted}
use csi_driver_for_windows_s.Kubernetes.Objects.{
  ClaimMode, read_only_many, read_write_many, read_write_once_pod, VolumeMode, block_volume,
  PersistentVolume, PersistentVolumeClaim, StorageClass, CsiSource,
}
use csi_driver_for_windows_s.Kubernetes.Strings.{first_param}

-- `csi.VolumeCapability`
pub record VolumeCapability : Type 0 where
  pub access_mode : AccessMode
  pub access_type : Access

-- The switch on the first access mode.
unfoldable pub csi_access_mode : List ClaimMode → AccessMode
csi_access_mode (read_only_many ∷ modes) = multi_node_reader_only
csi_access_mode (read_write_many ∷ modes) = multi_node_multi_writer
csi_access_mode (read_write_once_pod ∷ modes) = single_node_single_writer
csi_access_mode _ = single_node_writer

unfoldable pub access_type_for :
    Option VolumeMode → (fs_type : String) (mount_options : List String) → Access
access_type_for (some block_volume) fs_type mount_options = block
access_type_for _ fs_type mount_options = mounted fs_type mount_options

-- `volumeCapability`
unfoldable pub volume_capability :
    Option VolumeMode
    → List ClaimMode
    → (fs_type : String) (mount_options : List String) → VolumeCapability
unfolding csi_access_mode access_type_for
volume_capability mode access_modes fs_type mount_options = record {
  access_mode = csi_access_mode access_modes;
  access_type = access_type_for mode fs_type mount_options;
}

-- `fsTypeForStorageClass`
unfoldable pub fs_type_for_storage_class : StorageClass → String
unfolding first_param
fs_type_for_storage_class sc =
    first_param sc.parameters ("csi.storage.k8s.io/fstype" ∷ "fsType" ∷ "fstype" ∷ [])

-- `volumeCapabilitiesForPVC`
unfoldable pub volume_capabilities_for_pvc :
    PersistentVolumeClaim → StorageClass → List VolumeCapability
unfolding volume_capability fs_type_for_storage_class
volume_capabilities_for_pvc pvc sc =
    volume_capability pvc.volume_mode pvc.access_modes (fs_type_for_storage_class sc)
      sc.mount_options
    ∷ []

unfoldable pub csi_fs_type : Option CsiSource → String
csi_fs_type none = ""
csi_fs_type (some csi) = csi.fs_type

-- `volumeCapabilityForPV`
unfoldable pub volume_capability_for_pv : PersistentVolume → VolumeCapability
unfolding volume_capability csi_fs_type
volume_capability_for_pv pv =
    volume_capability pv.volume_mode pv.access_modes (csi_fs_type pv.csi) pv.mount_options
