-- ===== src/Controller/Delete.antt =====
-- `DeleteVolume` of pkg/iscsi/controllerserver.go
pub mod Order
pub mod Scope
use csi_driver_for_windows_s.Prelude.{
  Bool, true, false, ◌&&◌, not, String, ◌==◌, Option, none, some, List, [], ◌∷◌, if◌then◌else◌,
}
use csi_driver_for_windows_s.Driver.{vhdx_backend}
use csi_driver_for_windows_s.VolumeId.{VolumeId}
use csi_driver_for_windows_s.VolumeId.Scheme.{Protocol, nfs, smb}
use csi_driver_for_windows_s.Backend.{
  Backend, unmount_file_share_virtual_disk, delete_virtual_disk, delete_nfs_share, delete_smb_share,
  unmap_disk_from_target, delete_target,
}
use csi_driver_for_windows_s.Backend.Exec.{
  Code, invalid_argument, Exec, pure, stop_if, invoke, ◌>>=◌, ◌>>◌,
}
use csi_driver_for_windows_s.Controller.Ids.{
  IdCodec, VolId, AnyVolumeId, decode_any_volume_id, first_non_empty, target_name_from_vol_id,
  delete_target_name_for_volume,
}

-- The path that names a share.
abbrev share_path_of : VolumeId → String
share_path_of v = first_non_empty (v.share_path ∷ v.vhdx_path ∷ [])

module _ {S : Type 0} (b : Backend S) where
  -- The disk behind a share.
  delete_share_disk : VolumeId → Exec S (Unit {0})
  delete_share_disk v =
      if v.share_backend == vhdx_backend && not (v.vhdx_path == "")
      then (do
        invoke b (unmount_file_share_virtual_disk v.vhdx_path (share_path_of v))
        invoke b (delete_virtual_disk v.vhdx_path))
      else pure tt

  unmap_disk : VolId → Exec S (Unit {0})
  unmap_disk id =
      let target_name = target_name_from_vol_id id in
      if not (target_name == "") && not (id.vhdx_path == "")
      then invoke b (unmap_disk_from_target target_name id.vhdx_path)
      else pure tt

  delete_named_target : String → Exec S (Unit {0})
  delete_named_target target_name =
      if target_name == "" then pure tt else invoke b (delete_target target_name)

  delete_disk_and_target : VolId → Exec S (Unit {0})
  delete_disk_and_target id = if id.vhdx_path == "" then pure tt else (do
    target_name ← delete_target_name_for_volume b id
    invoke b (delete_virtual_disk id.vhdx_path)
    delete_named_target target_name)

  delete_decoded : Protocol → AnyVolumeId → Exec S (Unit {0})
  delete_decoded nfs v = do
    delete_share_disk v.decoded
    invoke b (delete_nfs_share v.decoded.name (share_path_of v.decoded))
  delete_decoded smb v = do
    delete_share_disk v.decoded
    invoke b (delete_smb_share v.decoded.name (share_path_of v.decoded))
  delete_decoded _ v = do unmap_disk v.legacy; delete_disk_and_target v.legacy

  -- An ID that cannot be decoded is deleted already.
  delete_any : Option AnyVolumeId → Exec S (Unit {0})
  delete_any none = pure tt
  delete_any (some v) = delete_decoded v.decoded.protocol v

  pub delete_volume : IdCodec → String → Exec S (Unit {0})
  delete_volume ids volume_id = do
    stop_if (volume_id == "") invalid_argument
    delete_any (decode_any_volume_id ids volume_id)

-- What a run of `delete_volume` opens.
unfoldable pub deleting : Unit {0}
unfolding delete_volume delete_any delete_decoded delete_disk_and_target delete_named_target
    unmap_disk delete_share_disk invoke target_name_from_vol_id delete_target_name_for_volume
    first_non_empty
deleting = tt
