-- ===== src/Controller/Snapshots.antt =====
-- `CreateSnapshot`, `DeleteSnapshot` and `ListSnapshots` of pkg/iscsi/controllerserver.go
pub mod Lookup
pub mod Deletion
pub mod Results
use csi_driver_for_windows_s.Prelude.{
  Bool, true, false, ◌&&◌, not, String, ◌==◌, Option, none, some, List, [], ◌∷◌, map, if◌then◌else◌,
  with_error,
}
use csi_driver_for_windows_s.Text.{trim_space, equal_fold}
use csi_driver_for_windows_s.Driver.{Driver, vhdx_backend, is_file_share}
use csi_driver_for_windows_s.VolumeId.{VolumeId}
use csi_driver_for_windows_s.VolumeId.Scheme.{Protocol, iscsi, unset}
use csi_driver_for_windows_s.Backend.{
  Backend, SnapshotInfo, create_snapshot as backend_create_snapshot,
  delete_snapshot as backend_delete_snapshot, list_snapshots as backend_list_snapshots,
}
use csi_driver_for_windows_s.Backend.Exec.{
  Code, invalid_argument, not_found, failed_precondition, unimplemented, Exec, pure, lift, stop_if,
  attempt, invoke, ◌>>=◌, ◌>>◌,
}
use csi_driver_for_windows_s.Controller.Ids.{IdCodec, SnapId, AnyVolumeId, decode_any_volume_id}
use csi_driver_for_windows_s.Controller.Messages.{SnapshotEntry}

-- A share of a directory has no snapshots.
abbrev pub lacks_snapshots : VolumeId → Bool
lacks_snapshots v = is_file_share v.protocol && not (v.share_backend == vhdx_backend)

abbrev pub source_path_of : AnyVolumeId → String
source_path_of v = if v.decoded.vhdx_path == "" then v.legacy.vhdx_path else v.decoded.vhdx_path

-- The identifier of a snapshot for the orchestrator.
abbrev pub entry_id : IdCodec → SnapshotInfo → String
entry_id ids s =
    ids.encode_snap_id (record { snapshot_id = s.snapshot_id; original_path = s.original_path })

-- An entry of `ListSnapshotsResponse`, which has no source volume.
abbrev pub snapshot_entry : IdCodec → SnapshotInfo → SnapshotEntry
snapshot_entry ids s = record {
  snapshot_id = entry_id ids s;
  source_volume_id = "";
  created_at = s.created_at;
  size_bytes = s.size_bytes;
  ready_to_use = true;
}

-- The first snapshot with the identifier, as a list.
first_with : String → List SnapshotInfo → List SnapshotInfo
first_with id [] = []
first_with id (s ∷ rest) = if equal_fold s.snapshot_id id then s ∷ [] else first_with id rest

module _ {S : Type 0} (b : Backend S) (ids : IdCodec) where
  -- The checks of a source volume that `CreateSnapshot` and `ListSnapshots` share.
  snapshot_source_path : String → Exec S String
  snapshot_source_path source_volume_id = do
    v ← lift (with_error not_found (decode_any_volume_id ids source_volume_id))
    stop_if (lacks_snapshots v.decoded) failed_precondition
    stop_if (source_path_of v == "") invalid_argument
    pure (source_path_of v)

  pub create_snapshot : (source_volume_id name : String) → Exec S SnapshotEntry
  create_snapshot source_volume_id name = do
    stop_if (source_volume_id == "") invalid_argument
    path ← snapshot_source_path source_volume_id
    snap ← invoke b (backend_create_snapshot path (trim_space name))
    pure (record (snapshot_entry ids snap) { source_volume_id = source_volume_id })

  -- An error of the backend is only logged.
  delete_decoded_snapshot : Option SnapId → Exec S (Unit {0})
  delete_decoded_snapshot none = pure tt
  delete_decoded_snapshot (some sid) = do
    attempt b (backend_delete_snapshot sid.snapshot_id)
    pure tt

  pub delete_snapshot : String → Exec S (Unit {0})
  delete_snapshot snapshot_id = do
    stop_if (snapshot_id == "") invalid_argument
    delete_decoded_snapshot (ids.decode_snap_id snapshot_id)

  list_by_id : String → Exec S (List SnapshotInfo)
  list_by_id snapshot_id = do
    sid ← lift (with_error not_found (ids.decode_snap_id snapshot_id))
    found ← invoke b (backend_list_snapshots sid.original_path)
    pure (first_with sid.snapshot_id found)

  list_by_source : String → Exec S (List SnapshotInfo)
  list_by_source source_volume_id = do
    path ← snapshot_source_path source_volume_id
    invoke b (backend_list_snapshots path)

  -- Without a filter the list is empty.
  selected : (snapshot_id source_volume_id : String) → Exec S (List SnapshotInfo)
  selected snapshot_id source_volume_id =
      if not (snapshot_id == "")
      then list_by_id snapshot_id
      else if not (source_volume_id == "")
      then list_by_source source_volume_id
      else pure []

  -- The driver is one for directory shares.
  abbrev pub cannot_list : Driver → Bool
  cannot_list d = elim d.protocol [
    | unset ↦ false
    | iscsi ↦ false
    | _ ↦ not (d.file_share_backend == vhdx_backend)
  ]

  pub list_snapshots :
      Driver → (snapshot_id source_volume_id : String) → Exec S (List SnapshotEntry)
  list_snapshots d snapshot_id source_volume_id = do
    stop_if (cannot_list d) unimplemented
    snaps ← selected snapshot_id source_volume_id
    pure (map (snapshot_entry ids) snaps)
