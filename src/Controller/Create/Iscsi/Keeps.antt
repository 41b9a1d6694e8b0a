-- ===== src/Controller/Create/Iscsi/Keeps.antt =====
-- Creating an iSCSI volume (pkg/iscsi/controllerserver.go) takes nothing away.
use csi_driver_for_windows_s.Prelude.{refl, String, ◌==◌, pos, ltb_ℤ, Option, none, some}
use csi_driver_for_windows_s.Backend.{
  Backend, removes, FoundVolume, ensure_target, map_disk_to_target, create_virtual_disk,
  get_volume_by_name, get_volume_info, export_snapshot_as_virtual_disk,
}
use csi_driver_for_windows_s.Backend.Exec.Trace.{
  MakesOnly, MakesOnly-lift, MakesOnly-pure, MakesOnly-if, MakesOnly-attempt, MakesOnly-bind,
  MakesOnly-stop_if,
}
use csi_driver_for_windows_s.Backend.Exec.Keeps.{Keeps, kept}
use csi_driver_for_windows_s.Controller.Chap.Effects.{MakesOnly-configure_target_chap_from_secrets}
use csi_driver_for_windows_s.Controller.Ids.{IdCodec}
use csi_driver_for_windows_s.Controller.Messages.{CreateVolumeRequest, snapshot_source}
use csi_driver_for_windows_s.Controller.Create.Iscsi.Plan.{IscsiPlan, iscsi_plan}
use csi_driver_for_windows_s.Controller.Create.Iscsi.{
  ensured_target, attach_disk, create_iscsi_from_snapshot, existing_lun, create_iscsi_existing,
  create_iscsi_new, create_iscsi_by_name, run_iscsi_plan, create_iscsi_volume,
}

module _ {S : Type 0} (b : Backend S) (ids : IdCodec) (req : CreateVolumeRequest)
    (plan : IscsiPlan) where
  ensured_target-Keeps :
      (name iqn : String) → MakesOnly Keeps (ensured_target b ids req plan name iqn)
  unfolding ensured_target removes
  ensured_target-Keeps name iqn =
      MakesOnly-bind (kept b (ensure_target name iqn) refl)
        (λ iqn. MakesOnly-bind (MakesOnly-stop_if (iqn == "") _) (λ _. MakesOnly-pure iqn))

  attach_disk-Keeps : (path : String) → MakesOnly Keeps (attach_disk b ids req plan path)
  unfolding attach_disk removes
  attach_disk-Keeps path =
      MakesOnly-bind (ensured_target-Keeps plan.target_name plan.requested_iqn) λ iqn.
        MakesOnly-bind
          (MakesOnly-configure_target_chap_from_secrets b plan.target_name req.secrets (λ o. refl))
          λ _.
            MakesOnly-bind (kept b (map_disk_to_target plan.target_name path) refl)
              λ lun. MakesOnly-pure (iqn, lun)

  create_iscsi_from_snapshot-Keeps :
      (id : String) → MakesOnly Keeps (create_iscsi_from_snapshot b ids req plan id)
  unfolding create_iscsi_from_snapshot removes
  create_iscsi_from_snapshot-Keeps id = MakesOnly-bind (MakesOnly-lift _) λ sid.
      MakesOnly-bind (kept b (export_snapshot_as_virtual_disk sid.snapshot_id) refl) λ path.
        MakesOnly-bind (attach_disk-Keeps path) λ attached.
          MakesOnly-bind (MakesOnly-attempt b (get_volume_info path) refl) λ found. MakesOnly-pure _

  existing_lun-Keeps :
      (name : String) (found : FoundVolume)
      → MakesOnly Keeps (existing_lun b ids req plan name found)
  unfolding existing_lun removes
  existing_lun-Keeps name found =
      MakesOnly-if (ltb_ℤ found.lun (pos 0))
        (λ _. kept b (map_disk_to_target name found.vhdx_path) refl) (λ _. MakesOnly-pure found.lun)

  create_iscsi_existing-Keeps :
      (found : FoundVolume) → MakesOnly Keeps (create_iscsi_existing b ids req plan found)
  unfolding create_iscsi_existing
  create_iscsi_existing-Keeps found = MakesOnly-bind (MakesOnly-stop_if _ _) λ _.
      MakesOnly-bind (ensured_target-Keeps _ _)
        λ iqn. MakesOnly-bind (existing_lun-Keeps _ found) λ lun. MakesOnly-pure _

  create_iscsi_new-Keeps : MakesOnly Keeps (create_iscsi_new b ids req plan)
  unfolding create_iscsi_new removes
  create_iscsi_new-Keeps =
      MakesOnly-bind (kept b (create_virtual_disk req.name plan.parent_dir plan.size) refl)
        λ disk. MakesOnly-bind (attach_disk-Keeps disk.0) λ attached. MakesOnly-pure _

  create_iscsi_by_name-Keeps : MakesOnly Keeps (create_iscsi_by_name b ids req plan)
  unfolding create_iscsi_by_name removes
  create_iscsi_by_name-Keeps =
      MakesOnly-bind (kept b (get_volume_by_name req.name plan.parent_dir) refl) λ found.
        MakesOnly-if found.exists (λ _. create_iscsi_existing-Keeps found)
          (λ _. create_iscsi_new-Keeps)

  run_iscsi_plan-Keeps :
      (source : Option String) → MakesOnly Keeps (run_iscsi_plan b ids req plan source)
  unfolding run_iscsi_plan
  run_iscsi_plan-Keeps none = create_iscsi_by_name-Keeps
  run_iscsi_plan-Keeps (some id) = create_iscsi_from_snapshot-Keeps id

pub create_iscsi_volume-Keeps :
    {S : Type 0} (b : Backend S) (ids : IdCodec) (req : CreateVolumeRequest)
    → MakesOnly Keeps (create_iscsi_volume b ids req)
unfolding create_iscsi_volume
create_iscsi_volume-Keeps b ids req =
    MakesOnly-bind (MakesOnly-lift (iscsi_plan req))
      (λ plan. run_iscsi_plan-Keeps b ids req plan (snapshot_source req.content_source))
