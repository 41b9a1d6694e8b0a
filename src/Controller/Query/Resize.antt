-- ===== src/Controller/Query/Resize.antt =====
-- What `ControllerExpandVolume` (pkg/iscsi/controllerserver.go) resizes.
use csi_driver_for_windows_s.Prelude.{
  ◌≡◌, refl, ◌⊎◌, inl, inr, true, false, not, String, ◌==◌, ℤ, is_positive, some,
}
use csi_driver_for_windows_s.Driver.{vhdx_backend, is_file_share}
use csi_driver_for_windows_s.Backend.{
  Call, Backend, resize_virtual_disk, resize_file_share, mount_file_share_virtual_disk,
}
use csi_driver_for_windows_s.Backend.Exec.{invalid_argument}
use csi_driver_for_windows_s.Backend.Exec.Trace.{
  MakesOnly, MakesOnly-pure, MakesOnly-if, MakesOnly-invoke, MakesOnly-bind, MakesOnly-stop_if,
  MakesOnly-behind,
}
use csi_driver_for_windows_s.Controller.Params.{CapacityRange}
use csi_driver_for_windows_s.Controller.Ids.{IdCodec, AnyVolumeId, decode_any_volume_id}
use csi_driver_for_windows_s.Controller.Query.{
  expanded, expand_share, expand_iscsi, controller_expand_volume,
}

-- A call that gives the volume the size, which is positive, or that mounts its disk again.
pub Resizes : AnyVolumeId → ℤ → Call → Type 0
Resizes v size (resize_virtual_disk path new_size) =
    ((path ≡ v.decoded.vhdx_path) ⊎ (path ≡ v.legacy.vhdx_path))
    × (new_size ≡ size)
    × (is_positive size ≡ true)
Resizes v size (resize_file_share path new_size) =
    (path ≡ v.decoded.vhdx_path) × (new_size ≡ size) × (is_positive size ≡ true)
Resizes v size (mount_file_share_virtual_disk path mount_path) =
    (path ≡ v.decoded.vhdx_path) × (mount_path ≡ v.decoded.share_path)
Resizes v size _ = ⊥

not-false : (t : _) → not t ≡ false → t ≡ true
not-false true h = refl
not-false false h = cc

module _ {S : Type 0} (b : Backend S) (ids : IdCodec) (v : AnyVolumeId) (size : ℤ)
    (positive : is_positive size ≡ true) where
  expand_share-Resizes : MakesOnly (Resizes v size) (expand_share b ids v.decoded size)
  unfolding expand_share Resizes
  expand_share-Resizes =
      MakesOnly-bind (MakesOnly-stop_if (v.decoded.vhdx_path == "") invalid_argument) λ _.
        MakesOnly-if (v.decoded.share_backend == vhdx_backend)
          (λ _.
            MakesOnly-bind
              (MakesOnly-invoke b (resize_virtual_disk v.decoded.vhdx_path size)
                (inl refl, refl, positive))
              λ actual.
                MakesOnly-bind
                  (MakesOnly-invoke b
                    (mount_file_share_virtual_disk v.decoded.vhdx_path v.decoded.share_path)
                    (refl, refl))
                  λ _. MakesOnly-pure (expanded false actual))
          (λ _.
            MakesOnly-bind
              (MakesOnly-invoke b (resize_file_share v.decoded.vhdx_path size)
                (refl, refl, positive))
              λ actual. MakesOnly-pure (expanded false actual))

  expand_iscsi-Resizes : MakesOnly (Resizes v size) (expand_iscsi b ids v.legacy size)
  unfolding expand_iscsi Resizes
  expand_iscsi-Resizes =
      MakesOnly-bind
        (MakesOnly-invoke b (resize_virtual_disk v.legacy.vhdx_path size)
          (inr refl, refl, positive))
        λ actual. MakesOnly-pure (expanded true actual)

-- `ControllerExpandVolume` only resizes the volume that the ID names, to the size that is required, and
-- only if this is positive; beside that it mounts the disk of a share where it belongs.
pub controller_expand_volume-Resizes :
    {S : Type 0} (b : Backend S) (ids : IdCodec) (id : String) (range : CapacityRange)
    (v : AnyVolumeId)
    → decode_any_volume_id ids id ≡ some v
    → MakesOnly (Resizes v range.required_bytes) (controller_expand_volume b ids id (some range))
unfolding controller_expand_volume
controller_expand_volume-Resizes b ids id range v h =
    MakesOnly-bind (MakesOnly-stop_if (id == "") invalid_argument) λ _. rw h (
      MakesOnly-behind (not (is_positive range.required_bytes)) invalid_argument λ p.
        MakesOnly-if (is_file_share v.decoded.protocol)
          (λ _.
            expand_share-Resizes b ids v range.required_bytes
              (not-false (is_positive range.required_bytes) p))
          (λ _.
            expand_iscsi-Resizes b ids v range.required_bytes
              (not-false (is_positive range.required_bytes) p)))
