-- ===== src/Controller/Create/Iscsi/Existing.antt =====
-- `CreateVolume` for an iSCSI volume that exists (pkg/iscsi/controllerserver.go).
use csi_driver_for_windows_s.Prelude.{
  true-not-false, ◌≡◌, refl, sym, ap, ◌∙◌, arith, true, false, StringMap, err, pos, ◌<ℤ◌,
  Bool-cases, ◌⊎◌, inl, inr,
}
use csi_driver_for_windows_s.Backend.{Backend, FoundVolume, get_volume_by_name}
use csi_driver_for_windows_s.Backend.Exec.{World, already_exists, invoke, ◌▷◌}
use csi_driver_for_windows_s.Prelude.{some}
use csi_driver_for_windows_s.Controller.Ids.{IdCodec}
use csi_driver_for_windows_s.Controller.Messages.{CreateVolumeRequest}
use csi_driver_for_windows_s.Controller.Create.Iscsi.Plan.{IscsiPlan}
use csi_driver_for_windows_s.Controller.Create.Iscsi.{
  is_smaller, ensured_target, existing_lun, made_vol_id, iscsi_volume, create_iscsi_existing,
  create_iscsi_by_name,
}

module _ {S : Type 0} (b : Backend S) (ids : IdCodec) (req : CreateVolumeRequest)
    (plan : IscsiPlan) where
  -- The world behind the search for the volume.
  pub searched : World S → World S
  unfolding invoke
  searched w = (invoke b (get_volume_by_name req.name plan.parent_dir) w).1

  pub by_name-existing :
      (found : FoundVolume) (w : World S)
      → (b.perform (get_volume_by_name req.name plan.parent_dir) w.state).0 ≡ some found
      → found.exists ≡ true
      → create_iscsi_by_name b ids req plan w
        ≡ create_iscsi_existing b ids req plan found (searched w)
  unfolding create_iscsi_by_name invoke searched
  by_name-existing found w h e = rw h (rw e refl)

  -- The volume and the request have sizes, and that of the volume is the smaller one.
  pub IsSmaller : FoundVolume → Type 0
  IsSmaller found =
      (pos 0 <ℤ plan.size) × (pos 0 <ℤ found.size_bytes) × (found.size_bytes <ℤ plan.size)

  IsSmaller-is_smaller :
      (found : FoundVolume) → IsSmaller found → is_smaller b ids req plan found ≡ true
  unfolding IsSmaller is_smaller
  IsSmaller-is_smaller found h = ground arith

  is_smaller-IsSmaller :
      (found : FoundVolume) → is_smaller b ids req plan found ≡ true → IsSmaller found
  unfolding IsSmaller is_smaller
  is_smaller-IsSmaller found h = ground arith

  smaller-refused :
      (found : FoundVolume) (w : World S)
      → is_smaller b ids req plan found ≡ true
      → create_iscsi_existing b ids req plan found w ≡ (err already_exists, w)
  unfolding create_iscsi_existing
  smaller-refused found w h = rw h refl

  larger-accepted :
      (found : FoundVolume) (w : World S)
      → is_smaller b ids req plan found ≡ false
      → ¬ ((create_iscsi_existing b ids req plan found w).0 ≡ err already_exists)
  unfolding create_iscsi_existing ensured_target existing_lun invoke
  larger-accepted found w h e = ground arith

  -- Where the search finds a volume: either both sizes are positive and that of the volume is below the one
  -- that is asked for, the request is refused with the code of a volume that exists, and nothing is called
  -- but the search; or this is not so, and the request is not refused with this code.
  pub create_iscsi_by_name-IsSmaller :
      (found : FoundVolume) (w : World S)
      → (b.perform (get_volume_by_name req.name plan.parent_dir) w.state).0 ≡ some found
      → found.exists ≡ true
      → (IsSmaller found
          × ((create_iscsi_by_name b ids req plan w).0 ≡ err already_exists)
          × ((create_iscsi_by_name b ids req plan w).1.trace
              ≡ w.trace ▷ get_volume_by_name req.name plan.parent_dir))
        ⊎ (¬ (IsSmaller found) × ¬ ((create_iscsi_by_name b ids req plan w).0 ≡ err already_exists))
  unfolding searched invoke
  create_iscsi_by_name-IsSmaller found w h e =
      let same = by_name-existing found w h e in
      elim (Bool-cases (is_smaller b ids req plan found)) [
        | inl t ↦
            let p = same ∙ smaller-refused found (searched w) t in
            inl (is_smaller-IsSmaller found t, ap (λ x. x.0) p, ap (λ x. x.1.trace) p)
        | inr f ↦ inr (
          (λ smaller. true-not-false (sym (IsSmaller-is_smaller found smaller) ∙ f)),
          (λ refused. larger-accepted found (searched w) f (sym (ap (λ x. x.0) same) ∙ refused)),
        )
      ]

module _ {S : Type 0} (b : Backend S) (ids : IdCodec) (req : CreateVolumeRequest)
    (plan : IscsiPlan) where
  existing-secrets :
      (secrets : StringMap) (found : FoundVolume) (w : World S)
      → create_iscsi_existing b ids (record req { secrets = secrets }) plan found w
        ≡ create_iscsi_existing b ids req plan found w
  unfolding create_iscsi_existing is_smaller ensured_target existing_lun made_vol_id iscsi_volume
  existing-secrets secrets found w = refl

  -- Where a volume of the name exists, the secrets of the request make no difference: neither to the
  -- calls that are made, and so to the credentials of the target, nor to the answer.
  pub create_iscsi_by_name-secrets :
      (secrets : StringMap) (found : FoundVolume) (w : World S)
      → (b.perform (get_volume_by_name req.name plan.parent_dir) w.state).0 ≡ some found
      → found.exists ≡ true
      → create_iscsi_by_name b ids (record req { secrets = secrets }) plan w
        ≡ create_iscsi_by_name b ids req plan w
  unfolding searched invoke
  create_iscsi_by_name-secrets secrets found w h e =
      by_name-existing b ids (record req { secrets = secrets }) plan found w h e
      ∙ existing-secrets secrets found (searched b ids req plan w)
      ∙ sym (by_name-existing b ids req plan found w h e)
