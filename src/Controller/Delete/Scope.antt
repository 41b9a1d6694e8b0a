-- ===== src/Controller/Delete/Scope.antt =====
-- `DeleteVolume` (pkg/iscsi/controllerserver.go) touches nothing but what the volume ID names.
use csi_driver_for_windows_s.Prelude.{
  ◌≡◌, refl, ◌⊎◌, inl, inr, true, false, not, String, ◌==◌, Option, none, some, Bool-cases,
}
use csi_driver_for_windows_s.Text.{trim_space}
use csi_driver_for_windows_s.VolumeId.Scheme.{Protocol, iscsi, nfs, smb, unset, other}
use csi_driver_for_windows_s.Backend.{
  Call, Backend, unmount_file_share_virtual_disk, delete_virtual_disk, delete_nfs_share,
  delete_smb_share, unmap_disk_from_target, delete_target, lookup_target_name_by_iqn,
}
use csi_driver_for_windows_s.Backend.Exec.{invalid_argument, invoke, ◌>>=◌}
use csi_driver_for_windows_s.Backend.Exec.Trace.{
  MakesOnly-bind_yielded, Yields, Yields-pure, Yields-if, Yields-bind_yielded, Yields-invoke,
  IsAnswer, MakesOnly, MakesOnly-map, MakesOnly-pure, MakesOnly-if, MakesOnly-stop_if,
  MakesOnly-invoke, MakesOnly-bind,
}
use csi_driver_for_windows_s.Controller.Ids.{
  IdCodec, AnyVolumeId, decode_any_volume_id, target_name_from_vol_id,
  delete_target_name_for_volume, looked_up,
}
use csi_driver_for_windows_s.Controller.Delete.{
  share_path_of, delete_share_disk, unmap_disk, delete_named_target, delete_disk_and_target,
  delete_decoded, delete_any, delete_volume,
}

-- The target of a volume: the one that the ID names, or, where it names none, one that the backend gave
-- as the target of the ID's IQN.
pub data IsTargetOf {S : Type 0} (b : Backend S) (v : AnyVolumeId) (name : String) : Type 0 where
  is_named :
      (trim_space v.legacy.target_name == "") ≡ false
      → name ≡ trim_space v.legacy.target_name
      → IsTargetOf b v name
  is_found :
      (trim_space v.legacy.target_name == "") ≡ true
      → (answer : String)
      → IsAnswer b (lookup_target_name_by_iqn (trim_space v.legacy.target_iqn)) answer
      → name ≡ trim_space answer
      → IsTargetOf b v name

-- A call that deletes or detaches a part of the volume, or looks up its target.
pub IsPartOf : {S : Type 0} → Backend S → AnyVolumeId → Call → Type 0
IsPartOf b v (unmount_file_share_virtual_disk path mount_path) =
    (path ≡ v.decoded.vhdx_path) × (mount_path ≡ share_path_of v.decoded)
IsPartOf b v (delete_virtual_disk path) = (path ≡ v.decoded.vhdx_path) ⊎ (path ≡ v.legacy.vhdx_path)
IsPartOf b v (delete_nfs_share name path) =
    (name ≡ v.decoded.name) × (path ≡ share_path_of v.decoded)
IsPartOf b v (delete_smb_share name path) =
    (name ≡ v.decoded.name) × (path ≡ share_path_of v.decoded)
IsPartOf b v (unmap_disk_from_target target_name path) =
    (target_name ≡ target_name_from_vol_id v.legacy) × (path ≡ v.legacy.vhdx_path)
IsPartOf b v (lookup_target_name_by_iqn target_iqn) = target_iqn ≡ trim_space v.legacy.target_iqn
IsPartOf b v (delete_target target_name) = IsTargetOf b v target_name
IsPartOf b v _ = ⊥

module _ {S : Type 0} (b : Backend S) (v : AnyVolumeId) where
  own : (c : Call) → IsPartOf b v c → MakesOnly (IsPartOf b v) (invoke b c)
  own = MakesOnly-invoke b

  delete_share_disk-IsPartOf : MakesOnly (IsPartOf b v) (delete_share_disk b v.decoded)
  unfolding delete_share_disk IsPartOf
  delete_share_disk-IsPartOf =
      MakesOnly-if _
        (λ _.
          MakesOnly-bind
            (own (unmount_file_share_virtual_disk v.decoded.vhdx_path (share_path_of v.decoded))
              (refl, refl))
            (λ _. own (delete_virtual_disk v.decoded.vhdx_path) (inl refl)))
        (λ _. MakesOnly-pure tt)

  unmap_disk-IsPartOf : MakesOnly (IsPartOf b v) (unmap_disk b v.legacy)
  unfolding unmap_disk IsPartOf
  unmap_disk-IsPartOf =
      MakesOnly-if _
        (λ _.
          own (unmap_disk_from_target (target_name_from_vol_id v.legacy) v.legacy.vhdx_path)
            (refl, refl))
        (λ _. MakesOnly-pure tt)

  delete_named_target-IsPartOf :
      (name : String)
      → ((name == "") ≡ true) ⊎ IsTargetOf b v name
      → MakesOnly (IsPartOf b v) (delete_named_target b name)
  unfolding delete_named_target IsPartOf
  delete_named_target-IsPartOf name (inl h) = rw h (MakesOnly-pure tt)
  delete_named_target-IsPartOf name (inr h) =
      MakesOnly-if _ (λ _. MakesOnly-pure tt) (λ _. own (delete_target name) h)

  disk_then_target :
      (name : String)
      → ((name == "") ≡ true) ⊎ IsTargetOf b v name
      → MakesOnly
          (IsPartOf b v)
          (invoke b (delete_virtual_disk v.legacy.vhdx_path) >>= λ _. delete_named_target b name)
  unfolding IsPartOf
  disk_then_target name h =
      MakesOnly-bind (own (delete_virtual_disk v.legacy.vhdx_path) (inr refl))
        (λ _. delete_named_target-IsPartOf name h)

  looked_up-IsPartOf : MakesOnly (IsPartOf b v) (looked_up b (trim_space v.legacy.target_iqn))
  unfolding looked_up IsPartOf
  looked_up-IsPartOf =
      MakesOnly-bind (own (lookup_target_name_by_iqn (trim_space v.legacy.target_iqn)) refl)
        (λ found. MakesOnly-pure (trim_space found))

  target_name-IsPartOf : MakesOnly (IsPartOf b v) (delete_target_name_for_volume b v.legacy)
  unfolding delete_target_name_for_volume
  target_name-IsPartOf =
      MakesOnly-if (not (trim_space v.legacy.target_name == ""))
        (λ _. MakesOnly-pure (trim_space v.legacy.target_name))
        (λ _.
          MakesOnly-if (trim_space v.legacy.target_iqn == "") (λ _. MakesOnly-pure "")
            (λ _. looked_up-IsPartOf))

  -- No name, or that of the volume's target.
  abbrev IsNameFor : String → Type 0
  IsNameFor name = ((name == "") ≡ true) ⊎ IsTargetOf b v name

  looked_up-IsNameFor :
      (trim_space v.legacy.target_name == "") ≡ true
      → Yields IsNameFor (looked_up b (trim_space v.legacy.target_iqn))
  unfolding looked_up
  looked_up-IsNameFor unnamed =
      let c = lookup_target_name_by_iqn (trim_space v.legacy.target_iqn) in
      Yields-bind_yielded (IsAnswer b c) (Yields-invoke b c)
        λ answer h. Yields-pure (trim_space answer) (inr (is_found unnamed answer h refl))

  target_name-IsNameFor : Yields IsNameFor (delete_target_name_for_volume b v.legacy)
  unfolding delete_target_name_for_volume
  target_name-IsNameFor = elim (Bool-cases (trim_space v.legacy.target_name == "")) [
    | inl h ↦ rw h (
        Yields-if (trim_space v.legacy.target_iqn == "") (Yields-pure "" (inl refl))
          (looked_up-IsNameFor h))
    | inr h ↦ rw h (Yields-pure (trim_space v.legacy.target_name) (inr (is_named h refl)))
  ]

  delete_disk_and_target-IsPartOf : MakesOnly (IsPartOf b v) (delete_disk_and_target b v.legacy)
  unfolding delete_disk_and_target
  delete_disk_and_target-IsPartOf =
      MakesOnly-if _ (λ _. MakesOnly-pure tt)
        (λ _.
          MakesOnly-bind_yielded IsNameFor target_name-IsPartOf target_name-IsNameFor
            disk_then_target)

  delete_decoded-IsPartOf : (p : Protocol) → MakesOnly (IsPartOf b v) (delete_decoded b p v)
  unfolding delete_decoded IsPartOf
  delete_decoded-IsPartOf nfs =
      MakesOnly-bind delete_share_disk-IsPartOf
        (λ _. own (delete_nfs_share v.decoded.name (share_path_of v.decoded)) (refl, refl))
  delete_decoded-IsPartOf smb =
      MakesOnly-bind delete_share_disk-IsPartOf
        (λ _. own (delete_smb_share v.decoded.name (share_path_of v.decoded)) (refl, refl))
  delete_decoded-IsPartOf iscsi =
      MakesOnly-bind unmap_disk-IsPartOf (λ _. delete_disk_and_target-IsPartOf)
  delete_decoded-IsPartOf unset =
      MakesOnly-bind unmap_disk-IsPartOf (λ _. delete_disk_and_target-IsPartOf)
  delete_decoded-IsPartOf (other s) =
      MakesOnly-bind unmap_disk-IsPartOf (λ _. delete_disk_and_target-IsPartOf)

-- Whatever the backend answers, each call of `DeleteVolume` for a decoded volume ID is about a disk or a
-- share that this ID names, or about its target: the one that the ID names, or, where it names none, the
-- one that the backend answered to a look-up of its IQN.
pub delete_volume-IsPartOf :
    {S : Type 0} (b : Backend S) (ids : IdCodec) (id : String) (v : AnyVolumeId)
    → decode_any_volume_id ids id ≡ some v
    → MakesOnly (IsPartOf b v) (delete_volume b ids id)
unfolding delete_volume delete_any
delete_volume-IsPartOf b ids id v h =
    MakesOnly-bind (MakesOnly-stop_if (id == "") _)
      (λ _. rw h (delete_decoded-IsPartOf b v v.decoded.protocol))

module _ {S : Type 0} (b : Backend S) (ids : IdCodec) where
  delete_any-calls : (o : Option AnyVolumeId) → MakesOnly (λ c. Unit {0}) (delete_any b o)
  unfolding delete_any
  delete_any-calls none = MakesOnly-pure tt
  delete_any-calls (some v) =
      MakesOnly-map (λ c p. tt) (delete_decoded-IsPartOf b v v.decoded.protocol)

  -- The calls of `DeleteVolume` stand behind those that were made before.
  pub delete_volume-calls :
      (volume_id : String) → MakesOnly (λ c. Unit {0}) (delete_volume b ids volume_id)
  unfolding delete_volume
  delete_volume-calls volume_id =
      MakesOnly-bind (MakesOnly-stop_if (volume_id == "") invalid_argument)
        (λ _. delete_any-calls (decode_any_volume_id ids volume_id))
