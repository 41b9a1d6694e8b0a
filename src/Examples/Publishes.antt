-- ===== src/Examples/Publishes.antt =====
-- Examples of publications.
use csi_driver_for_windows_s.Backend.{enabled}
use csi_driver_for_windows_s.Controller.Ids.{supports_access_mode_for_protocol}
use csi_driver_for_windows_s.Strconv.{parse_int}
use csi_driver_for_windows_s.Controller.Ids.{decode_any_volume_id}
use csi_driver_for_windows_s.Prelude.{◌≡◌, refl, false, ok, ◌==◌}
use csi_driver_for_windows_s.Backend.Exec.{invoke}
use csi_driver_for_windows_s.Backend.Exec.Trace.{MakesOnly}
use csi_driver_for_windows_s.Controller.Chap.{chap}
use csi_driver_for_windows_s.VolumeId.Decode.{decoder}
use csi_driver_for_windows_s.Controller.Ids.{target_name_from_vol_id}
use csi_driver_for_windows_s.Controller.Publish.{
  publishing, controller_publish_volume, controller_unpublish_volume, iscsi_publish_context,
}
use csi_driver_for_windows_s.Controller.Publish.Access.{
  Grants, controller_publish_volume-Grants, IsPutOut, controller_unpublish_volume-IsPutOut,
}
use csi_driver_for_windows_s.Controller.Publish.Success.{LetsIn, controller_publish_volume-LetsIn}
use csi_driver_for_windows_s.Examples.{
  example_ids, example_driver, publish_request, data_id, willing, start,
}
use csi_driver_for_windows_s.Examples.Ids.{data_any, any_data}

controller_publish_volume-Grants_example :
    MakesOnly
      (Grants data_any.legacy publish_request.node_id)
      (controller_publish_volume willing example_ids example_driver publish_request)
controller_publish_volume-Grants_example =
    controller_publish_volume-Grants willing example_ids example_driver publish_request data_any
      any_data

pub published :
    (controller_publish_volume willing example_ids example_driver publish_request start).0
    ≡ ok (iscsi_publish_context data_any.legacy)
unfolding publishing chap decoder decode_any_volume_id parse_int supports_access_mode_for_protocol
    target_name_from_vol_id enabled invoke
published = refl

controller_publish_volume-LetsIn_example :
    (iscsi_publish_context data_any.legacy ≡ iscsi_publish_context data_any.legacy)
    × LetsIn willing data_any.legacy publish_request.node_id start
        (controller_publish_volume willing example_ids example_driver publish_request start).1
controller_publish_volume-LetsIn_example =
    controller_publish_volume-LetsIn willing example_ids example_driver publish_request data_any
      any_data refl start (iscsi_publish_context data_any.legacy) published

target_named : (target_name_from_vol_id data_any.legacy == "") ≡ false
unfolding target_name_from_vol_id
target_named = refl

put_out :
    (controller_unpublish_volume willing example_ids data_id "iqn.1993-08.org.debian:01:node"
      start).0
    ≡ ok tt
unfolding publishing decoder decode_any_volume_id parse_int target_name_from_vol_id invoke
put_out = refl

controller_unpublish_volume-IsPutOut_example :
    IsPutOut willing data_any.legacy "iqn.1993-08.org.debian:01:node" start
      (controller_unpublish_volume willing example_ids data_id "iqn.1993-08.org.debian:01:node"
        start).1
controller_unpublish_volume-IsPutOut_example =
    controller_unpublish_volume-IsPutOut willing example_ids data_id
      "iqn.1993-08.org.debian:01:node" data_any start any_data refl target_named put_out
