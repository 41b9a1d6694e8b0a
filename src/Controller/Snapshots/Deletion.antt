-- ===== src/Controller/Snapshots/Deletion.antt =====
-- `DeleteSnapshot` (pkg/iscsi/controllerserver.go) and the errors of the backend.
use csi_driver_for_windows_s.Prelude.{◌≡◌, refl, false, String, ◌==◌, none, some, ok}
use csi_driver_for_windows_s.Backend.{Backend}
use csi_driver_for_windows_s.Backend.Exec.{World, attempt}
use csi_driver_for_windows_s.Controller.Ids.{IdCodec}
use csi_driver_for_windows_s.Controller.Snapshots.{delete_decoded_snapshot, delete_snapshot}

delete_decoded_snapshot-ok :
    {S : Type 0} (b : Backend S) (ids : IdCodec) (sid : _) (w : World S)
    → (delete_decoded_snapshot b ids sid w).0 ≡ ok tt
unfolding delete_decoded_snapshot attempt
delete_decoded_snapshot-ok b ids none w = refl
delete_decoded_snapshot-ok b ids (some sid) w = refl

-- `DeleteSnapshot` succeeds for each identifier but the empty one, even if the backend fails to delete
-- the snapshot.
pub delete_snapshot-ok :
    {S : Type 0} (b : Backend S) (ids : IdCodec) (id : String) (w : World S)
    → (id == "") ≡ false
    → (delete_snapshot b ids id w).0 ≡ ok tt
unfolding delete_snapshot
delete_snapshot-ok b ids id w h = rw h (delete_decoded_snapshot-ok b ids (ids.decode_snap_id id) w)
