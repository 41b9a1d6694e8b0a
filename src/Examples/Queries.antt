-- ===== src/Examples/Queries.antt =====
-- Examples of questions, lists and resizing.
use csi_driver_for_windows_s.Prelude.{pos, some}
use csi_driver_for_windows_s.Backend.Exec.Trace.{MakesOnly}
use csi_driver_for_windows_s.Controller.Params.{CapacityRange}
use csi_driver_for_windows_s.Controller.Query.{controller_expand_volume}
use csi_driver_for_windows_s.Controller.Query.Resize.{Resizes, controller_expand_volume-Resizes}
use csi_driver_for_windows_s.Examples.{example_ids, data_id, willing}
use csi_driver_for_windows_s.Examples.Ids.{data_any, any_data}

abbrev two_gib : CapacityRange
two_gib = record { required_bytes = pos 2147483648; limit_bytes = pos 0 }

controller_expand_volume-Resizes_example :
    MakesOnly
      (Resizes data_any (pos 2147483648))
      (controller_expand_volume willing example_ids data_id (some two_gib))
controller_expand_volume-Resizes_example =
    controller_expand_volume-Resizes willing example_ids data_id two_gib data_any any_data
