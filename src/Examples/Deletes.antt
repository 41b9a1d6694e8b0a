-- ===== src/Examples/Deletes.antt =====
-- Examples of deletions.
use csi_driver_for_windows_s.Prelude.{◌≡◌, refl, false, ok, ◌==◌}
use csi_driver_for_windows_s.Text.{trim_space}
use csi_driver_for_windows_s.VolumeId.Scheme.{iscsi}
use csi_driver_for_windows_s.Backend.Exec.Trace.{MakesOnly}
use csi_driver_for_windows_s.Controller.Delete.{delete_volume}
use csi_driver_for_windows_s.Controller.Delete.Order.{
  EndsBy, KnowsTarget, deletion, delete_volume-EndsBy,
}
use csi_driver_for_windows_s.Controller.Delete.Scope.{IsPartOf, delete_volume-IsPartOf}
use csi_driver_for_windows_s.Controller.Snapshots.{delete_snapshot}
use csi_driver_for_windows_s.Controller.Snapshots.Deletion.{delete_snapshot-ok}
use csi_driver_for_windows_s.Examples.{example_ids, data_id, willing, start}
use csi_driver_for_windows_s.Examples.Ids.{data_any, any_data}

data_named : (data_id == "") ≡ false
data_named = refl

target_named : KnowsTarget data_any.decoded.protocol data_any
unfolding KnowsTarget trim_space
target_named = refl

delete_volume-EndsBy_example :
    EndsBy willing (deletion iscsi data_any) start (delete_volume willing example_ids data_id start)
delete_volume-EndsBy_example =
    delete_volume-EndsBy willing example_ids data_id data_any start data_named any_data target_named

delete_volume-IsPartOf_example :
    MakesOnly (IsPartOf willing data_any) (delete_volume willing example_ids data_id)
delete_volume-IsPartOf_example =
    delete_volume-IsPartOf willing example_ids data_id data_any any_data

delete_snapshot-ok_example : (delete_snapshot willing example_ids "{1}" start).0 ≡ ok tt
delete_snapshot-ok_example = delete_snapshot-ok willing example_ids "{1}" start refl
