-- ===== src/Controller/Snapshots/Results.antt =====
-- What `ListSnapshots` (pkg/iscsi/controllerserver.go) calls and returns.
use csi_driver_for_windows_s.Prelude.{refl, not, String, ◌==◌, [], with_error}
use csi_driver_for_windows_s.Driver.{Driver}
use csi_driver_for_windows_s.Backend.{Backend, asks, list_snapshots as backend_list_snapshots}
use csi_driver_for_windows_s.Backend.Exec.{not_found, failed_precondition, invalid_argument}
use csi_driver_for_windows_s.Backend.Exec.Trace.{
  MakesOnly, MakesOnly-lift, MakesOnly-pure, MakesOnly-if, MakesOnly-bind, MakesOnly-stop_if,
}
use csi_driver_for_windows_s.Backend.Exec.Keeps.{Asks, asked}
use csi_driver_for_windows_s.Controller.Ids.{IdCodec, decode_any_volume_id}
use csi_driver_for_windows_s.Controller.Snapshots.{
  lacks_snapshots, source_path_of, snapshot_source_path, list_by_id, list_by_source, selected,
  list_snapshots,
}

module _ {S : Type 0} (b : Backend S) (ids : IdCodec) where
  snapshot_source_path-Asks : (id : String) → MakesOnly Asks (snapshot_source_path b ids id)
  unfolding snapshot_source_path
  snapshot_source_path-Asks id =
      MakesOnly-bind (MakesOnly-lift (with_error not_found (decode_any_volume_id ids id))) λ v.
        MakesOnly-bind (MakesOnly-stop_if (lacks_snapshots v.decoded) failed_precondition) λ _.
          MakesOnly-bind (MakesOnly-stop_if (source_path_of v == "") invalid_argument)
            λ _. MakesOnly-pure (source_path_of v)

  list_by_id-Asks : (id : String) → MakesOnly Asks (list_by_id b ids id)
  unfolding list_by_id asks
  list_by_id-Asks id =
      MakesOnly-bind (MakesOnly-lift (with_error not_found (ids.decode_snap_id id))) λ sid.
        MakesOnly-bind (asked b (backend_list_snapshots sid.original_path) refl)
          λ found. MakesOnly-pure _

  list_by_source-Asks : (id : String) → MakesOnly Asks (list_by_source b ids id)
  unfolding list_by_source asks
  list_by_source-Asks id =
      MakesOnly-bind (snapshot_source_path-Asks id)
        λ path. asked b (backend_list_snapshots path) refl

  selected-Asks : (id source : String) → MakesOnly Asks (selected b ids id source)
  unfolding selected
  selected-Asks id source =
      MakesOnly-if (not (id == "")) (λ _. list_by_id-Asks id)
        (λ _.
          MakesOnly-if (not (source == "")) (λ _. list_by_source-Asks source)
            (λ _. MakesOnly-pure []))

  -- `ListSnapshots` only asks the backend.
  pub list_snapshots-Asks :
      (d : Driver) (id source : String) → MakesOnly Asks (list_snapshots b ids d id source)
  unfolding list_snapshots
  list_snapshots-Asks d id source =
      MakesOnly-bind (MakesOnly-stop_if _ _)
        λ _. MakesOnly-bind (selected-Asks id source) λ snaps. MakesOnly-pure _
