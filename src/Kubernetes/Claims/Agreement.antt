-- ===== src/Kubernetes/Claims/Agreement.antt =====
-- The capability of a claim and that of the volume that is made for it (pkg/iscsi/internal_kubernetes.go)
use csi_driver_for_windows_s.Prelude.{String, ◌≡◌, refl, ap, List, [], ◌∷◌, Option, none, some}
use csi_driver_for_windows_s.Controller.Messages.{Volume}
use csi_driver_for_windows_s.Kubernetes.Objects.{
  PersistentVolumeClaim, StorageClass, VolumeMode, filesystem_volume, block_volume,
}
use csi_driver_for_windows_s.Kubernetes.Claims.{
  persistent_volume_for_claim, volume_mode_or_filesystem, csi_source_for,
}
use csi_driver_for_windows_s.Kubernetes.Capabilities.{
  access_type_for, csi_access_mode, csi_fs_type, fs_type_for_storage_class, volume_capability,
  volume_capabilities_for_pvc, volume_capability_for_pv,
}

access_type-mode :
    (mode : Option VolumeMode) (fs_type : String) (mount_options : List String)
    → access_type_for (some (volume_mode_or_filesystem mode)) fs_type mount_options
      ≡ access_type_for mode fs_type mount_options
unfolding access_type_for volume_mode_or_filesystem
access_type-mode none fs_type mount_options = refl
access_type-mode (some filesystem_volume) fs_type mount_options = refl
access_type-mode (some block_volume) fs_type mount_options = refl

-- The capability with which the attacher publishes the volume of a claim is the one with which the
-- provisioner made it: access mode, block or file system, file system type and mount options.
pub volume_capability_for_pv-claim :
    (driver_name : String) (pvc : PersistentVolumeClaim) (sc : StorageClass) (pv_name : String)
    (volume : Volume)
    → volume_capability_for_pv (persistent_volume_for_claim driver_name pvc sc pv_name volume) ∷ []
      ≡ volume_capabilities_for_pvc pvc sc
unfolding volume_capability_for_pv volume_capabilities_for_pvc persistent_volume_for_claim
    volume_capability csi_fs_type csi_source_for
volume_capability_for_pv-claim driver_name pvc sc pv_name volume =
    ap (λ a. record { access_mode = csi_access_mode pvc.access_modes; access_type = a } ∷ [])
      (access_type-mode pvc.volume_mode (fs_type_for_storage_class sc) sc.mount_options)
