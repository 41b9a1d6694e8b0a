-- ===== src/Controller/Delete/Order.antt =====
-- `DeleteVolume` (pkg/iscsi/controllerserver.go) works through a fixed list of calls, in their order.
use mathlib.Core.Path.{subst⁻¹}
use csi_driver_for_windows_s.Prelude.{
  ◌≡◌, sym, ap, ◌∙◌, arith, false, ◌&&◌, not, String, ◌==◌, some, List, [], ◌∷◌, ◌++◌,
  if◌then◌else◌, Result, ok, err,
}
use csi_driver_for_windows_s.Text.{trim_space}
use csi_driver_for_windows_s.Driver.{vhdx_backend}
use csi_driver_for_windows_s.VolumeId.{VolumeId}
use csi_driver_for_windows_s.VolumeId.Scheme.{Protocol, iscsi, nfs, smb, unset, other}
use csi_driver_for_windows_s.Backend.{
  Call, Backend, unmount_file_share_virtual_disk, delete_virtual_disk, delete_nfs_share,
  delete_smb_share, unmap_disk_from_target, delete_target,
}
use csi_driver_for_windows_s.Backend.Exec.{Code, internal, ◌▷◌, World, invoke, ◌>>=◌}
use csi_driver_for_windows_s.Backend.Exec.Plan.{
  Ran, AreAnswered, FailsAt, all_made, stopped_at, run_all-Ran, run_all, run_all->>=, run_all-if,
  continue-pure,
}
use csi_driver_for_windows_s.Controller.Ids.{
  IdCodec, VolId, AnyVolumeId, decode_any_volume_id, target_name_from_vol_id,
  delete_target_name_for_volume,
}
use csi_driver_for_windows_s.Controller.Delete.{
  share_path_of, delete_share_disk, unmap_disk, delete_named_target, delete_disk_and_target,
  delete_decoded, delete_any, delete_volume,
}

share_disk_calls : VolumeId → List Call
share_disk_calls v =
    if v.share_backend == vhdx_backend && not (v.vhdx_path == "")
    then unmount_file_share_virtual_disk v.vhdx_path (share_path_of v)
      ∷ delete_virtual_disk v.vhdx_path
      ∷ []
    else []

unmap_calls : VolId → List Call
unmap_calls id =
    if not (target_name_from_vol_id id == "") && not (id.vhdx_path == "")
    then unmap_disk_from_target (target_name_from_vol_id id) id.vhdx_path ∷ []
    else []

disk_calls : VolId → List Call
disk_calls id =
    if id.vhdx_path == ""
    then []
    else delete_virtual_disk id.vhdx_path ∷ delete_target (trim_space id.target_name) ∷ []

-- The calls that delete a volume whose target is named: a share's disk before the share, and a disk's
-- mapping before the disk and the disk before its target.
pub deletion : Protocol → AnyVolumeId → List Call
deletion nfs v =
    share_disk_calls v.decoded ++ delete_nfs_share v.decoded.name (share_path_of v.decoded) ∷ []
deletion smb v =
    share_disk_calls v.decoded ++ delete_smb_share v.decoded.name (share_path_of v.decoded) ∷ []
deletion _ v = unmap_calls v.legacy ++ disk_calls v.legacy

-- A share has no target, and that of a disk is named.
unfoldable pub KnowsTarget : Protocol → AnyVolumeId → Type 0
KnowsTarget nfs v = Unit
KnowsTarget smb v = Unit
KnowsTarget _ v = (trim_space v.legacy.target_name == "") ≡ false

module _ {S : Type 0} (b : Backend S) where
  delete_share_disk-run_all :
      (v : VolumeId) (w : World S) → delete_share_disk b v w ≡ run_all b (share_disk_calls v) w
  unfolding delete_share_disk share_disk_calls run_all invoke
  delete_share_disk-run_all v w =
      run_all-if b (v.share_backend == vhdx_backend && not (v.vhdx_path == "")) _
        (unmount_file_share_virtual_disk v.vhdx_path (share_path_of v)
          ∷ delete_virtual_disk v.vhdx_path
          ∷ [])
        w (ground arith)

  unmap_disk-run_all : (id : VolId) (w : World S) → unmap_disk b id w ≡ run_all b (unmap_calls id) w
  unfolding unmap_disk unmap_calls run_all invoke
  unmap_disk-run_all id w =
      run_all-if b (not (target_name_from_vol_id id == "") && not (id.vhdx_path == "")) _
        (unmap_disk_from_target (target_name_from_vol_id id) id.vhdx_path ∷ []) w
        (sym (continue-pure _ _))

  delete_disk_and_target-run_all :
      (id : VolId)
      → (trim_space id.target_name == "") ≡ false
      → (w : World S) → delete_disk_and_target b id w ≡ run_all b (disk_calls id) w
  unfolding delete_disk_and_target delete_target_name_for_volume delete_named_target disk_calls
      run_all invoke
  delete_disk_and_target-run_all id h w = ground arith

  delete_iscsi-run_all :
      (v : AnyVolumeId)
      → (trim_space v.legacy.target_name == "") ≡ false
      → (w : World S)
      → (unmap_disk b v.legacy >>= λ _. delete_disk_and_target b v.legacy) w
        ≡ run_all b (unmap_calls v.legacy ++ disk_calls v.legacy) w
  delete_iscsi-run_all v known w =
      run_all->>= b (unmap_disk b v.legacy) (delete_disk_and_target b v.legacy)
        (unmap_calls v.legacy) (disk_calls v.legacy) w (unmap_disk-run_all v.legacy w)
        (delete_disk_and_target-run_all v.legacy known)

  delete_decoded-run_all :
      (p : Protocol) (v : AnyVolumeId)
      → KnowsTarget p v
      → (w : World S) → delete_decoded b p v w ≡ run_all b (deletion p v) w
  unfolding delete_decoded deletion run_all invoke KnowsTarget
  delete_decoded-run_all nfs v known w =
      let c = delete_nfs_share v.decoded.name (share_path_of v.decoded) in
      run_all->>= b (delete_share_disk b v.decoded) (invoke b c) (share_disk_calls v.decoded)
        (c ∷ []) w (delete_share_disk-run_all v.decoded w) (λ w'. sym (continue-pure _ _))
  delete_decoded-run_all smb v known w =
      let c = delete_smb_share v.decoded.name (share_path_of v.decoded) in
      run_all->>= b (delete_share_disk b v.decoded) (invoke b c) (share_disk_calls v.decoded)
        (c ∷ []) w (delete_share_disk-run_all v.decoded w) (λ w'. sym (continue-pure _ _))
  delete_decoded-run_all iscsi v known w = delete_iscsi-run_all v known w
  delete_decoded-run_all unset v known w = delete_iscsi-run_all v known w
  delete_decoded-run_all (other s) v known w = delete_iscsi-run_all v known w

  delete_volume-run_all :
      (ids : IdCodec) (id : String) (v : AnyVolumeId) (w : World S)
      → (id == "") ≡ false
      → decode_any_volume_id ids id ≡ some v
      → KnowsTarget v.decoded.protocol v
      → delete_volume b ids id w ≡ run_all b (deletion v.decoded.protocol v) w
  unfolding delete_volume delete_any
  delete_volume-run_all ids id v w ne h known =
      rw ne (rw h (delete_decoded-run_all v.decoded.protocol v known w))

-- How a handler ends that works through a list of calls: all are made, or those up to the first that
-- fails.
pub data EndsBy {S : Type 0} (b : Backend S) (calls : List Call) (w : World S)
    (run : Result Code (Unit {0}) × World S) : Type 0 where
  succeeds :
      run.0 ≡ ok tt
      → AreAnswered b calls w.state run.1.state
      → run.1.trace ≡ w.trace ++ calls
      → EndsBy b calls w run
  fails :
      (before : List Call) (c : Call) (after : List Call)
      → calls ≡ before ++ c ∷ after
      → run.0 ≡ err internal
      → FailsAt b before c w.state run.1.state
      → run.1.trace ≡ (w.trace ++ before) ▷ c
      → EndsBy b calls w run

Ran-EndsBy :
    {S : Type 0} (b : Backend S) (calls : List Call) (w : World S)
    (run : Result Code (Unit {0}) × World S)
    → run ≡ run_all b calls w
    → Ran b calls w
    → EndsBy b calls w run
Ran-EndsBy b calls w run e (all_made r q t) =
    succeeds (ap (λ x. x.0) e ∙ r) (subst⁻¹ (λ x. AreAnswered b calls w.state x.1.state) e q)
      (ap (λ x. x.1.trace) e ∙ t)
Ran-EndsBy b calls w run e (stopped_at before c after h r q t) =
    fails before c after h (ap (λ x. x.0) e ∙ r)
      (subst⁻¹ (λ x. FailsAt b before c w.state x.1.state) e q) (ap (λ x. x.1.trace) e ∙ t)

-- Where the volume ID is that of a share or names the target, `DeleteVolume` works through the calls of `deletion` in their
-- order: the disk of a share is unmounted and deleted before the share, and a disk is unmapped and
-- deleted before its target. Either it succeeds, and the backend answered all calls, or it fails with an
-- internal error, and its last call is the first one that the backend fails at.
pub delete_volume-EndsBy :
    {S : Type 0} (b : Backend S) (ids : IdCodec) (id : String) (v : AnyVolumeId) (w : World S)
    → (id == "") ≡ false
    → decode_any_volume_id ids id ≡ some v
    → KnowsTarget v.decoded.protocol v
    → EndsBy b (deletion v.decoded.protocol v) w (delete_volume b ids id w)
delete_volume-EndsBy b ids id v w ne h known =
    let calls = deletion v.decoded.protocol v in
    Ran-EndsBy b calls w (delete_volume b ids id w) (delete_volume-run_all b ids id v w ne h known)
      (run_all-Ran b calls w)
