-- ===== src/Controller/Create/Shares.antt =====
-- `createNfsVolume`, `createVHDXBackedNfsVolume` and their SMB counterparts
-- (pkg/iscsi/controllerserver.go). The four functions differ in the calls that get and make a share
-- and in the response, which are the fields of `ShareKind`.
pub mod Keeps
pub mod Plan
use Prim.Native.String
use csi_driver_for_windows_s.Prelude.{
  Bool, true, false, ◌&&◌, not, String, ◌==◌, ℤ, pos, Option, none, some, StringMap, index, List,
  [], ◌∷◌, Result, ok, err, if◌then◌else◌, with_error,
}
use csi_driver_for_windows_s.Driver.{Driver, vhdx_backend}
use csi_driver_for_windows_s.VolumeId.{VolumeId, empty_volume_id}
use csi_driver_for_windows_s.VolumeId.Encode.{encode_volume_id}
use csi_driver_for_windows_s.VolumeId.Scheme.{Protocol, nfs, smb}
use csi_driver_for_windows_s.Backend.{
  Backend, FoundVolume, FoundShare, VolumeInfo, NfsShareOptions, SmbShareOptions, get_nfs_share,
  create_nfs_share, get_smb_share, create_smb_share, create_virtual_disk, get_volume_by_name,
  get_volume_info, export_snapshot_as_virtual_disk, mount_file_share_virtual_disk,
}
use csi_driver_for_windows_s.Backend.Exec.{
  Code, invalid_argument, failed_precondition, internal, Exec, pure, lift, stop_if, attempt, invoke,
  ◌>>=◌, ◌>>◌,
}
use csi_driver_for_windows_s.Controller.Params.{
  get_string_param, string_param, required_bytes_from_range, split_csv_param,
  file_share_backend_from_params,
}
use csi_driver_for_windows_s.Controller.Paths.{validate_windows_path_param, join_windows_path}
use csi_driver_for_windows_s.Controller.Nfs.{nfs_options_from_params}
use csi_driver_for_windows_s.Controller.Smb.{smb_options_from_params}
use csi_driver_for_windows_s.Controller.Ids.{
  IdCodec, SnapId, first_non_empty, file_share_volume_id, apply_nfs_options_to_volume_id,
  volume_context_for_volume_id, max_int64,
}
use csi_driver_for_windows_s.Controller.Messages.{
  CreateVolumeRequest, Volume, snapshot_source, ContentSource,
}
use Plan.{
  ShareOptions, nfs_options, smb_options, SharePlan, nfs_plan_options, smb_plan_options, share_plan,
}

-- `if nfsServer != "" { info.NfsServer = nfsServer }`, and so for SMB.
with_server : ShareOptions → String → VolumeInfo → VolumeInfo
with_server (nfs_options o) server info =
    if server == "" then info else record info { nfs_server = server }
with_server (smb_options o) server info =
    if server == "" then info else record info { smb_server = server }

-- The volume ID of a share and the one that its context is made of.
share_ids : ShareOptions → String → String → VolumeInfo → ℤ → VolumeId × VolumeId
share_ids (nfs_options o) name backend info capacity =
    let id =
      apply_nfs_options_to_volume_id (file_share_volume_id name nfs backend info capacity) o in
    (id, id)
share_ids (smb_options o) name backend info capacity = (
  file_share_volume_id name smb backend info capacity,
  record (empty_volume_id smb) {
    smb_server = info.smb_server;
    smb_share_name = info.smb_share_name;
  },
)

module _ {S : Type 0} (b : Backend S) (ids : IdCodec) (req : CreateVolumeRequest)
    (plan : SharePlan) where
  -- `GetNfsShare` and `GetSmbShare`
  get_share : ShareOptions → Exec S FoundShare
  get_share (nfs_options o) = invoke b (get_nfs_share req.name plan.parent_dir)
  get_share (smb_options o) = invoke b (get_smb_share req.name plan.parent_dir)

  -- `CreateNfsShare` and `CreateSmbShare`
  create_share : ShareOptions → ℤ → Exec S VolumeInfo
  create_share (nfs_options o) size = invoke b (
      create_nfs_share req.name plan.parent_dir size
        (split_csv_param (index "nfsClientName" req.parameters)) o)
  create_share (smb_options o) size = invoke b (
      create_smb_share req.name plan.parent_dir size
        (split_csv_param (index "smbFullAccess" req.parameters))
        (split_csv_param (index "smbChangeAccess" req.parameters))
        (split_csv_param (index "smbReadAccess" req.parameters)) o)

  -- The response.
  share_volume : String → VolumeInfo → Volume
  share_volume backend found =
      let info = with_server plan.options plan.server found in
      let capacity = max_int64 info.capacity_bytes plan.size in
      let (id, shown) = share_ids plan.options req.name backend info capacity in
      record {
        volume_id = encode_volume_id ids.url id;
        capacity_bytes = capacity;
        volume_context = volume_context_for_volume_id shown;
        content_source = req.content_source;
      }

  found_or_created : FoundShare → Exec S VolumeInfo
  found_or_created found =
      if found.exists then pure found.info else create_share plan.options plan.size

  is_restore : Option String → Bool
  is_restore none = false
  is_restore (some snapshot_id) = true

  -- A share of a directory.
  create_directory_share : Exec S Volume
  create_directory_share = do
    stop_if (is_restore (snapshot_source req.content_source)) invalid_argument
    found ← get_share plan.options
    info ← found_or_created found
    pure (share_volume plan.share_backend info)

  -- The disk behind a new share: exported from a snapshot, found, or made.
  backing_disk : FoundVolume → String → Option String → Exec S (String × ℤ)
  backing_disk disk vhdx_dir (some snapshot_id) = do
    sid ← lift (with_error invalid_argument (ids.decode_snap_id snapshot_id))
    path ← invoke b (export_snapshot_as_virtual_disk sid.snapshot_id)
    info ← attempt b (get_volume_info path)
    pure (path, elim info [ none ↦ disk.size_bytes | some i ↦ i.size_bytes ])
  backing_disk disk vhdx_dir none =
      if disk.vhdx_path == ""
      then invoke b (create_virtual_disk req.name vhdx_dir plan.size)
      else pure (disk.vhdx_path, disk.size_bytes)

  new_vhdx_share : FoundVolume → String → String → Exec S VolumeInfo
  new_vhdx_share disk vhdx_dir share_path = do
    (path, actual) ← backing_disk disk vhdx_dir (snapshot_source req.content_source)
    invoke b (mount_file_share_virtual_disk path share_path)
    info ← create_share plan.options (max_int64 plan.size actual)
    pure (record info {
      vhdx_path = path;
      share_path = share_path;
      size_bytes = actual;
      capacity_bytes = max_int64 info.capacity_bytes actual;
    })

  existing_vhdx_share : FoundVolume → VolumeInfo → String → Exec S VolumeInfo
  existing_vhdx_share disk info joined = do
    let share_path = first_non_empty (info.share_path ∷ info.vhdx_path ∷ joined ∷ [])
    stop_if (disk.vhdx_path == "") failed_precondition
    invoke b (mount_file_share_virtual_disk disk.vhdx_path share_path)
    pure (record info {
      vhdx_path = disk.vhdx_path;
      share_path = share_path;
      size_bytes = disk.size_bytes;
      capacity_bytes = max_int64 info.capacity_bytes disk.size_bytes;
    })

  -- `createVHDXBackedNfsVolume` and `createVHDXBackedSmbVolume`
  create_vhdx_share : Exec S Volume
  create_vhdx_share = do
    let vhdx_dir = string_param req.parameters "vhdxParentPath"
    lift (validate_windows_path_param vhdx_dir false)
    let share_path = join_windows_path plan.parent_dir req.name
    found ← get_share plan.options
    disk ← invoke b (get_volume_by_name req.name vhdx_dir)
    info ←
        (if found.exists
          then existing_vhdx_share disk found.info share_path
          else new_vhdx_share disk vhdx_dir share_path)
    pure (share_volume vhdx_backend info)

  run_share_plan : Exec S Volume
  run_share_plan =
      if plan.share_backend == vhdx_backend then create_vhdx_share else create_directory_share

module _ {S : Type 0} (b : Backend S) (ids : IdCodec) (d : Driver) (req : CreateVolumeRequest) where
  -- `createNfsVolume`
  pub create_nfs_volume : Exec S Volume
  create_nfs_volume = do
    plan ← lift (share_plan d nfs_plan_options req)
    run_share_plan b ids req plan

  -- `createSmbVolume`
  pub create_smb_volume : Exec S Volume
  create_smb_volume = do
    plan ← lift (share_plan d smb_plan_options req)
    run_share_plan b ids req plan
