-- ===== src/Controller/Create/Shares/Keeps.antt =====
-- Creating a volume on a file share (pkg/iscsi/controllerserver.go) takes nothing away.
use csi_driver_for_windows_s.Prelude.{refl, String, ◌==◌, ℤ, Option, none, some, index, with_error}
use csi_driver_for_windows_s.Driver.{Driver, vhdx_backend}
use csi_driver_for_windows_s.Backend.{
  Backend, removes, FoundVolume, VolumeInfo, get_nfs_share, create_nfs_share, get_smb_share,
  create_smb_share, create_virtual_disk, get_volume_by_name, get_volume_info,
  export_snapshot_as_virtual_disk, mount_file_share_virtual_disk,
}
use csi_driver_for_windows_s.Backend.Exec.Trace.{
  MakesOnly, MakesOnly-lift, MakesOnly-pure, MakesOnly-if, MakesOnly-attempt, MakesOnly-bind,
  MakesOnly-stop_if,
}
use csi_driver_for_windows_s.Backend.Exec.Keeps.{Keeps, kept}
use csi_driver_for_windows_s.Controller.Params.{split_csv_param}
use csi_driver_for_windows_s.Controller.Ids.{IdCodec}
use csi_driver_for_windows_s.Controller.Messages.{CreateVolumeRequest, snapshot_source}
use csi_driver_for_windows_s.Controller.Create.Shares.Plan.{
  ShareOptions, nfs_options, smb_options, SharePlan, share_plan, nfs_plan_options, smb_plan_options,
}
use csi_driver_for_windows_s.Controller.Create.Shares.{
  get_share, create_share, found_or_created, create_directory_share, backing_disk, new_vhdx_share,
  existing_vhdx_share, create_vhdx_share, run_share_plan, create_nfs_volume, create_smb_volume,
}

module _ {S : Type 0} (b : Backend S) (ids : IdCodec) (req : CreateVolumeRequest)
    (plan : SharePlan) where
  get_share-Keeps : (o : ShareOptions) → MakesOnly Keeps (get_share b ids req plan o)
  unfolding get_share removes
  get_share-Keeps (nfs_options o) = kept b (get_nfs_share req.name plan.parent_dir) refl
  get_share-Keeps (smb_options o) = kept b (get_smb_share req.name plan.parent_dir) refl

  create_share-Keeps :
      (o : ShareOptions) (size : ℤ) → MakesOnly Keeps (create_share b ids req plan o size)
  unfolding create_share removes
  create_share-Keeps (nfs_options o) size =
      kept b
        (create_nfs_share req.name plan.parent_dir size
          (split_csv_param (index "nfsClientName" req.parameters)) o)
        refl
  create_share-Keeps (smb_options o) size =
      kept b
        (create_smb_share req.name plan.parent_dir size
          (split_csv_param (index "smbFullAccess" req.parameters))
          (split_csv_param (index "smbChangeAccess" req.parameters))
          (split_csv_param (index "smbReadAccess" req.parameters)) o)
        refl

  create_directory_share-Keeps : MakesOnly Keeps (create_directory_share b ids req plan)
  unfolding create_directory_share found_or_created
  create_directory_share-Keeps = MakesOnly-bind (MakesOnly-stop_if _ _) λ _.
      MakesOnly-bind (get_share-Keeps plan.options) λ found.
        MakesOnly-bind
          (MakesOnly-if found.exists (λ _. MakesOnly-pure found.info)
            (λ _. create_share-Keeps plan.options plan.size))
          λ info. MakesOnly-pure _

  backing_disk-Keeps :
      (disk : FoundVolume) (dir : String) (source : Option String)
      → MakesOnly Keeps (backing_disk b ids req plan disk dir source)
  unfolding backing_disk removes
  backing_disk-Keeps disk dir (some id) =
      MakesOnly-bind (MakesOnly-lift (with_error _ (ids.decode_snap_id id))) λ sid.
        MakesOnly-bind (kept b (export_snapshot_as_virtual_disk sid.snapshot_id) refl) λ path.
          MakesOnly-bind (MakesOnly-attempt b (get_volume_info path) refl) λ info. MakesOnly-pure _
  backing_disk-Keeps disk dir none =
      MakesOnly-if (disk.vhdx_path == "")
        (λ _. kept b (create_virtual_disk req.name dir plan.size) refl) (λ _. MakesOnly-pure _)

  new_vhdx_share-Keeps :
      (disk : FoundVolume) (dir path : String)
      → MakesOnly Keeps (new_vhdx_share b ids req plan disk dir path)
  unfolding new_vhdx_share removes
  new_vhdx_share-Keeps disk dir path =
      MakesOnly-bind (backing_disk-Keeps disk dir (snapshot_source req.content_source)) λ made.
        MakesOnly-bind (kept b (mount_file_share_virtual_disk made.0 path) refl)
          λ _. MakesOnly-bind (create_share-Keeps plan.options _) λ info. MakesOnly-pure _

  existing_vhdx_share-Keeps :
      (disk : FoundVolume) (info : VolumeInfo) (joined : String)
      → MakesOnly Keeps (existing_vhdx_share b ids req plan disk info joined)
  unfolding existing_vhdx_share removes
  existing_vhdx_share-Keeps disk info joined =
      MakesOnly-bind (MakesOnly-stop_if (disk.vhdx_path == "") _) λ _.
        MakesOnly-bind (kept b (mount_file_share_virtual_disk disk.vhdx_path _) refl)
          λ _. MakesOnly-pure _

  create_vhdx_share-Keeps : MakesOnly Keeps (create_vhdx_share b ids req plan)
  unfolding create_vhdx_share removes
  create_vhdx_share-Keeps = MakesOnly-bind (MakesOnly-lift _) λ _.
      MakesOnly-bind (get_share-Keeps plan.options) λ found.
        MakesOnly-bind (kept b (get_volume_by_name req.name _) refl) λ disk.
          MakesOnly-bind
            (MakesOnly-if found.exists (λ _. existing_vhdx_share-Keeps disk found.info _)
              (λ _. new_vhdx_share-Keeps disk _ _))
            λ info. MakesOnly-pure _

  run_share_plan-Keeps : MakesOnly Keeps (run_share_plan b ids req plan)
  unfolding run_share_plan
  run_share_plan-Keeps =
      MakesOnly-if (plan.share_backend == vhdx_backend) (λ _. create_vhdx_share-Keeps)
        (λ _. create_directory_share-Keeps)

module _ {S : Type 0} (b : Backend S) (ids : IdCodec) (d : Driver) (req : CreateVolumeRequest) where
  pub create_nfs_volume-Keeps : MakesOnly Keeps (create_nfs_volume b ids d req)
  unfolding create_nfs_volume
  create_nfs_volume-Keeps =
      MakesOnly-bind (MakesOnly-lift (share_plan d nfs_plan_options req))
        (λ plan. run_share_plan-Keeps b ids req plan)

  pub create_smb_volume-Keeps : MakesOnly Keeps (create_smb_volume b ids d req)
  unfolding create_smb_volume
  create_smb_volume-Keeps =
      MakesOnly-bind (MakesOnly-lift (share_plan d smb_plan_options req))
        (λ plan. run_share_plan-Keeps b ids req plan)
