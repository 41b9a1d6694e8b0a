-- ===== src/Controller/Create/Iscsi/Retry.antt =====
-- A request for an iSCSI volume that is repeated (pkg/iscsi/controllerserver.go).
use csi_driver_for_windows_s.Prelude.{
  ◌≡◌, sym, ap, ◌∙◌, false, String, ◌==◌, ℤ, Option, none, some, [], ok, with_error-eq-ok, ok_eq,
}
use csi_driver_for_windows_s.Backend.{
  Backend, FoundVolume, get_volume_by_name, ensure_target, create_virtual_disk, map_disk_to_target,
}
use csi_driver_for_windows_s.Backend.Exec.{
  World, Exec, internal, pure, stop_if, invoke, ◌>>=◌, ◌>>◌,
}
use csi_driver_for_windows_s.Controller.Chap.{configure_target_chap_from_secrets}
use csi_driver_for_windows_s.Exec.Success.{>>=-ok, stop_if-ok}
use csi_driver_for_windows_s.Controller.Ids.{IdCodec}
use csi_driver_for_windows_s.Controller.Messages.{CreateVolumeRequest, Volume}
use csi_driver_for_windows_s.Controller.Create.Iscsi.Plan.{IscsiPlan}
use csi_driver_for_windows_s.Controller.Create.Iscsi.{
  iscsi_volume, made_vol_id, ensured_target, attach_disk, is_smaller, create_iscsi_new,
  create_iscsi_by_name,
}
use csi_driver_for_windows_s.Controller.Create.Iscsi.Existing.{searched}
use csi_driver_for_windows_s.Controller.Create.Iscsi.Answers.{
  IsMapped, as_found, create_iscsi_by_name-as_found,
}

some_eq : {A : Type 0} {a c : A} → Path (Option A) (some a) (some c) → a ≡ c
some_eq h = cc

module _ {S : Type 0} (b : Backend S) (ids : IdCodec) (req : CreateVolumeRequest)
    (plan : IscsiPlan) where
  ensured_target-iqn :
      (w : World S) (iqn : String) {answered : String}
      → (ensured_target b ids req plan plan.target_name plan.requested_iqn w).0 ≡ ok iqn
      → (b.perform (ensure_target plan.target_name plan.requested_iqn) w.state).0 ≡ some answered
      → iqn ≡ answered
  unfolding ensured_target invoke
  ensured_target-iqn w iqn done h =
      let c = ensure_target plan.target_name plan.requested_iqn in
      let (given, r, e1) = >>=-ok (invoke b c) (λ i. stop_if (i == "") internal >> pure i) w done in
      let (_, e2) =
        stop_if-ok (given == "") internal (pure given) (invoke b c w).1
          (sym (ap (λ x. x.0) e1) ∙ done) in
      ok_eq (sym done ∙ ap (λ x. x.0) (e1 ∙ e2))
      ∙ some_eq (sym (with_error-eq-ok internal (b.perform c w.state).0 r) ∙ h)

  -- The world behind the new disk, and the one behind its target and the credentials.
  pub with_disk : World S → World S
  unfolding invoke
  with_disk w = (invoke b (create_virtual_disk req.name plan.parent_dir plan.size) w).1

  pub with_credentials : World S → World S
  unfolding ensured_target
  with_credentials w =
      (configure_target_chap_from_secrets b plan.target_name req.secrets
        (ensured_target b ids req plan plan.target_name plan.requested_iqn (with_disk w)).1).1

  -- The volume as it is found has what the backend answered when it was made in the world `w`: the path and
  -- the size of the disk, the target that was asked for, its IQN, and the LUN of the mapping.
  pub record Remembers (w : World S) (found : FoundVolume) : Type 0 where
    pub disk :
        (b.perform (create_virtual_disk req.name plan.parent_dir plan.size) w.state).0
        ≡ some (found.vhdx_path, found.size_bytes)
    pub name : found.target_name ≡ plan.target_name
    pub iqn :
        (b.perform (ensure_target plan.target_name plan.requested_iqn) (with_disk w).state).0
        ≡ some found.target_iqn
    pub lun :
        (b.perform
          (map_disk_to_target plan.target_name found.vhdx_path)
          (with_credentials w).state).0
        ≡ some found.lun

  attach_disk-found :
      (w : World S) (found : FoundVolume) (attached : String × ℤ)
      → Remembers w found
      → (attach_disk b ids req plan found.vhdx_path (with_disk w)).0 ≡ ok attached
      → attached ≡ (found.target_iqn, found.lun)
  unfolding attach_disk with_credentials ensured_target invoke
  attach_disk-found w found attached kept done =
      let target = ensured_target b ids req plan plan.target_name plan.requested_iqn in
      let chap = configure_target_chap_from_secrets b plan.target_name req.secrets in
      let map = map_disk_to_target plan.target_name found.vhdx_path in
      let last : String → Exec S (String × ℤ) = λ iqn. invoke b map >>= λ lun. pure (iqn, lun) in
      let (iqn, r1, e1) = >>=-ok target (λ iqn. chap >>= λ _. last iqn) (with_disk w) done in
      let (_, r2, e2) =
        >>=-ok chap (λ _. last iqn) (target (with_disk w)).1 (sym (ap (λ x. x.0) e1) ∙ done) in
      let (lun, r3, e3) =
        >>=-ok (invoke b map) (λ lun. pure (iqn, lun)) (with_credentials w)
          (sym (ap (λ x. x.0) (e1 ∙ e2)) ∙ done) in
      let same_lun : lun ≡ found.lun = some_eq (
        sym (with_error-eq-ok internal (b.perform map (with_credentials w).state).0 r3)
        ∙ kept.lun) in
      let same_iqn : iqn ≡ found.target_iqn = ensured_target-iqn (with_disk w) iqn r1 kept.iqn in
      ok_eq (sym done ∙ ap (λ x. x.0) (e1 ∙ e2 ∙ e3))
      ∙ ap (λ i. (i, lun)) same_iqn
      ∙ ap (λ l. (found.target_iqn, l)) same_lun

  create_iscsi_new-found :
      (w : World S) (out : Volume) (found : FoundVolume)
      → (create_iscsi_new b ids req plan w).0 ≡ ok out
      → Remembers w found
      → out ≡ as_found b ids req plan found
  unfolding create_iscsi_new with_disk invoke as_found
  create_iscsi_new-found w out found done kept =
      let c = create_virtual_disk req.name plan.parent_dir plan.size in
      let answer : String × ℤ → String × ℤ → Volume = λ disk attached.
        iscsi_volume ids req
          (made_vol_id b ids req plan plan.target_name attached.0 attached.1 disk.0 disk.1) []
          none in
      let rest : String × ℤ → Exec S Volume =
        λ disk. attach_disk b ids req plan disk.0 >>= λ attached. pure (answer disk attached) in
      let found_disk : String × ℤ = (found.vhdx_path, found.size_bytes) in
      let (disk, r1, e1) = >>=-ok (invoke b c) rest w done in
      let same : disk ≡ found_disk =
        some_eq (sym (with_error-eq-ok internal (b.perform c w.state).0 r1) ∙ kept.disk) in
      let e2 : (create_iscsi_new b ids req plan w).0 ≡ (rest found_disk (with_disk w)).0 =
        ap (λ x. x.0) e1 ∙ ap (λ x. (rest x (with_disk w)).0) same in
      let (attached, r3, e3) =
        >>=-ok (attach_disk b ids req plan found.vhdx_path)
          (λ attached. pure (answer found_disk attached)) (with_disk w) (sym e2 ∙ done) in
      ok_eq (sym done ∙ e2 ∙ ap (λ x. x.0) e3)
      ∙ ap (answer found_disk) (attach_disk-found w found attached kept r3)
      ∙ ap
          (λ name.
            iscsi_volume ids req
              (made_vol_id b ids req plan name found.target_iqn found.lun found.vhdx_path
                found.size_bytes)
              [] none)
          (sym kept.name)

  -- A request that is repeated gets the answer of the first, which made the volume, if the backend now finds
  -- the volume mapped, with the path, size, target, IQN and LUN that it gave when the volume was made, not
  -- too small, and ensuring its target leaves the IQN as it is.
  pub create_iscsi_by_name-retry :
      (w w' : World S) (first : Volume) (found : FoundVolume)
      → (create_iscsi_new b ids req plan w).0 ≡ ok first
      → Remembers w found
      → IsMapped found
      → is_smaller b ids req plan found ≡ false
      → (b.perform (get_volume_by_name req.name plan.parent_dir) w'.state).0 ≡ some found
      → (b.perform
          (ensure_target found.target_name found.target_iqn)
          (searched b ids req plan w').state).0
        ≡ some found.target_iqn
      → (create_iscsi_by_name b ids req plan w').0 ≡ ok first
  create_iscsi_by_name-retry w w' first found done kept m s answer ensured =
      create_iscsi_by_name-as_found b ids req plan found w' m s answer ensured
      ∙ ap ok (sym (create_iscsi_new-found w first found done kept))
