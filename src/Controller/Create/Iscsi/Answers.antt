-- ===== src/Controller/Create/Iscsi/Answers.antt =====
-- The answers of `CreateVolume` for an iSCSI volume (pkg/iscsi/controllerserver.go).
use csi_driver_for_windows_s.Prelude.{
  ◌≡◌, refl, sym, ap, ◌∙◌, true, false, String, ◌==◌, ℤ, pos, ltb_ℤ, none, some, [], ok, arith,
  with_error-eq-ok, ok_eq,
}
use csi_driver_for_windows_s.Text.{trim_space}
use csi_driver_for_windows_s.Backend.{
  Backend, FoundVolume, get_volume_by_name, ensure_target, create_virtual_disk,
}
use csi_driver_for_windows_s.Backend.Exec.{World, Exec, internal, pure, invoke, ◌>>=◌}
use csi_driver_for_windows_s.Exec.Success.{>>=-ok}
use csi_driver_for_windows_s.Controller.Ids.{IdCodec, first_non_empty}
use csi_driver_for_windows_s.Controller.Messages.{CreateVolumeRequest, Volume}
use csi_driver_for_windows_s.Controller.Create.Iscsi.Plan.{IscsiPlan}
use csi_driver_for_windows_s.Controller.Create.Iscsi.{
  iscsi_volume, made_vol_id, ensured_target, attach_disk, is_smaller, existing_lun,
  create_iscsi_existing, create_iscsi_new, create_iscsi_by_name,
}
use csi_driver_for_windows_s.Controller.Create.Iscsi.Existing.{searched, by_name-existing}

-- A volume that the backend knows with its target and its mapping.
pub record IsMapped (found : FoundVolume) : Type 0 where
  pub exists : found.exists ≡ true
  pub named : (found.target_name == "") ≡ false
  pub target : (trim_space found.target_iqn == "") ≡ false
  pub filled : (found.target_iqn == "") ≡ false
  pub mapped : ltb_ℤ found.lun (pos 0) ≡ false

module _ {S : Type 0} (b : Backend S) (ids : IdCodec) (req : CreateVolumeRequest) (plan : IscsiPlan)
    (found : FoundVolume) where
  -- The answer that describes the volume as it was found.
  unfoldable pub as_found : Volume
  as_found =
      iscsi_volume ids req
        (made_vol_id b ids req plan found.target_name found.target_iqn found.lun found.vhdx_path
          found.size_bytes)
        [] none

  ensured-found :
      (w : World S)
      → IsMapped found
      → (b.perform (ensure_target found.target_name found.target_iqn) w.state).0
        ≡ some found.target_iqn
      → (ensured_target b ids req plan found.target_name found.target_iqn w).0 ≡ ok found.target_iqn
  unfolding ensured_target invoke
  ensured-found w m h = rw h (rw m.filled refl)

  existing-as_found :
      (w : World S)
      → is_smaller b ids req plan found ≡ false
      → (found.target_name == "") ≡ false
      → (trim_space found.target_iqn == "") ≡ false
      → ltb_ℤ found.lun (pos 0) ≡ false
      → (ensured_target b ids req plan found.target_name found.target_iqn w).0 ≡ ok found.target_iqn
      → (create_iscsi_existing b ids req plan found w).0 ≡ ok as_found
  unfolding create_iscsi_existing existing_lun first_non_empty as_found
  existing-as_found w s n t l e = ground arith

  -- A request for a volume that exists and is mapped is answered by what the backend found: its target,
  -- its LUN, its path and its size, if it is not too small and ensuring its target leaves the IQN as it is.
  pub create_iscsi_by_name-as_found :
      (w : World S)
      → IsMapped found
      → is_smaller b ids req plan found ≡ false
      → (b.perform (get_volume_by_name req.name plan.parent_dir) w.state).0 ≡ some found
      → (b.perform
          (ensure_target found.target_name found.target_iqn)
          (searched b ids req plan w).state).0
        ≡ some found.target_iqn
      → (create_iscsi_by_name b ids req plan w).0 ≡ ok as_found
  create_iscsi_by_name-as_found w m s answer ensured =
      ap (λ x. x.0) (by_name-existing b ids req plan found w answer m.exists)
      ∙ existing-as_found (searched b ids req plan w) s m.named m.target m.mapped
          (ensured-found (searched b ids req plan w) m ensured)

-- The answer for a new volume, and the parts of it that the backend chose.
pub record IsMade {S : Type 0} (b : Backend S) (ids : IdCodec) (req : CreateVolumeRequest)
    (plan : IscsiPlan) (w : World S) (out : Volume) : Type 0 where
  pub path : String
  pub size : ℤ
  pub iqn : String
  pub lun : ℤ
  pub disk :
      (b.perform (create_virtual_disk req.name plan.parent_dir plan.size) w.state).0
      ≡ some (path, size)
  pub answer :
      out
      ≡ iscsi_volume ids req (made_vol_id b ids req plan plan.target_name iqn lun path size) [] none

module _ {S : Type 0} (b : Backend S) (ids : IdCodec) (req : CreateVolumeRequest)
    (plan : IscsiPlan) where
  -- A volume that is made anew has the path and the size that the backend gave its disk, in the answer
  -- and in the volume ID, and the name of the target that was asked for.
  pub create_iscsi_new-IsMade :
      (w : World S) (out : Volume)
      → (create_iscsi_new b ids req plan w).0 ≡ ok out
      → IsMade b ids req plan w out
  unfolding create_iscsi_new invoke
  create_iscsi_new-IsMade w out h =
      let c = create_virtual_disk req.name plan.parent_dir plan.size in
      let answer : String × ℤ → String × ℤ → Exec S Volume = λ disk attached. pure (
        iscsi_volume ids req
          (made_vol_id b ids req plan plan.target_name attached.0 attached.1 disk.0 disk.1) []
          none) in
      let (disk, r1, e1) =
        >>=-ok (invoke b c) (λ disk. attach_disk b ids req plan disk.0 >>= answer disk) w h in
      let (attached, r2, e2) =
        >>=-ok (attach_disk b ids req plan disk.0) (answer disk) (invoke b c w).1
          (sym (ap (λ x. x.0) e1) ∙ h) in
      record {
        path = disk.0;
        size = disk.1;
        iqn = attached.0;
        lun = attached.1;
        disk = with_error-eq-ok internal (b.perform c w.state).0 r1;
        answer = ok_eq (sym h ∙ ap (λ x. x.0) (e1 ∙ e2));
      }
