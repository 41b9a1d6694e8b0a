-- ===== src/Controller/Snapshots/Lookup.antt =====
-- `ListSnapshots` with a snapshot identifier (pkg/iscsi/controllerserver.go).
use csi_driver_for_windows_s.Prelude.{
  ◌≡◌, refl, inl, inr, true, false, String, ◌==◌, some, List, [], ◌∷◌, map, All, ok, Bool-cases,
}
use csi_driver_for_windows_s.Text.{equal_fold}
use csi_driver_for_windows_s.Driver.{Driver}
use csi_driver_for_windows_s.Backend.{
  Backend, SnapshotInfo, list_snapshots as backend_list_snapshots,
}
use csi_driver_for_windows_s.Backend.Exec.{World, invoke}
use csi_driver_for_windows_s.Controller.Ids.{IdCodec, SnapId}
use csi_driver_for_windows_s.Controller.Snapshots.{
  first_with, list_by_id, selected, cannot_list, list_snapshots, snapshot_entry,
}

-- The snapshot of an identifier: found, or none of the backend's has the identifier.
pub data IsFirst (id : String) (all : List SnapshotInfo) (selection : List SnapshotInfo)
    : Type 0 where
  found :
      (s : SnapshotInfo)
      → selection ≡ s ∷ []
      → equal_fold s.snapshot_id id ≡ true
      → IsFirst id all selection
  missing :
      selection ≡ [] → All (λ s. equal_fold s.snapshot_id id ≡ false) all → IsFirst id all selection

IsFirst-∷ :
    (id : String) (s : SnapshotInfo) (all : List SnapshotInfo) {selection : List SnapshotInfo}
    → equal_fold s.snapshot_id id ≡ false
    → IsFirst id all selection
    → IsFirst id (s ∷ all) selection
IsFirst-∷ id s all h (found t e k) = found t e k
IsFirst-∷ id s all h (missing e k) = missing e (h, k)

first_with-IsFirst : (id : String) (all : List SnapshotInfo) → IsFirst id all (first_with id all)
unfolding first_with
first_with-IsFirst id [] = missing refl tt
first_with-IsFirst id (s ∷ all) =
    let later = first_with-IsFirst id all in
    elim (Bool-cases (equal_fold s.snapshot_id id)) [
      | inl h ↦ found s (rw h refl) h
      | inr h ↦ rw h (IsFirst-∷ id s all h later)
    ]

module _ {S : Type 0} (b : Backend S) (ids : IdCodec) where
  list_snapshots-first :
      (d : Driver) (id source : String) (sid : SnapId) (all : List SnapshotInfo) (w : World S)
      → cannot_list b ids d ≡ false
      → (id == "") ≡ false
      → ids.decode_snap_id id ≡ some sid
      → (b.perform (backend_list_snapshots sid.original_path) w.state).0 ≡ some all
      → (list_snapshots b ids d id source w).0
        ≡ ok (map (snapshot_entry ids) (first_with sid.snapshot_id all))
  unfolding list_snapshots selected list_by_id invoke
  list_snapshots-first d id source sid all w c ne h answer = rw c (rw ne (rw h (rw answer refl)))

  -- `ListSnapshots` with a snapshot identifier returns one entry, for a snapshot that the backend lists
  -- under this identifier, or no entry if the backend lists none under it.
  pub list_snapshots-IsFirst :
      (d : Driver) (id source : String) (sid : SnapId) (all : List SnapshotInfo) (w : World S)
      → cannot_list b ids d ≡ false
      → (id == "") ≡ false
      → ids.decode_snap_id id ≡ some sid
      → (b.perform (backend_list_snapshots sid.original_path) w.state).0 ≡ some all
      → (selection : List SnapshotInfo) × IsFirst sid.snapshot_id all selection
        × ((list_snapshots b ids d id source w).0 ≡ ok (map (snapshot_entry ids) selection))
  list_snapshots-IsFirst d id source sid all w c ne h answer = (
    first_with sid.snapshot_id all,
    first_with-IsFirst sid.snapshot_id all,
    list_snapshots-first d id source sid all w c ne h answer,
  )
