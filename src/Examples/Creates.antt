-- ===== src/Examples/Creates.antt =====
-- Examples of new volumes.
use csi_driver_for_windows_s.Backend.{enabled}
use csi_driver_for_windows_s.Prelude.{index}
use csi_driver_for_windows_s.Text.{trim_space}
use csi_driver_for_windows_s.Backend.Exec.{invoke}
use csi_driver_for_windows_s.Prelude.{◌≡◌, refl, ok, err, [], ◌∷◌, pos, ℤ, StringMap}
use csi_driver_for_windows_s.Backend.{get_volume_by_name}
use csi_driver_for_windows_s.Backend.Exec.{already_exists, ◌▷◌}
use csi_driver_for_windows_s.Backend.Exec.Trace.{MakesOnly}
use csi_driver_for_windows_s.Backend.Exec.Keeps.{Keeps}
use csi_driver_for_windows_s.Controller.Create.{create_volume}
use csi_driver_for_windows_s.Controller.Create.Keeps.{create_volume-Keeps}
use csi_driver_for_windows_s.Controller.Create.Iscsi.{
  iscsi_creation, is_smaller, create_iscsi_by_name,
}
use csi_driver_for_windows_s.Controller.Create.Iscsi.Plan.{IscsiPlan}
use csi_driver_for_windows_s.Controller.Create.Iscsi.Answers.{IsMapped}
use csi_driver_for_windows_s.Controller.Create.Iscsi.Retry.{Remembers, create_iscsi_by_name-retry}
use csi_driver_for_windows_s.Controller.Messages.{Volume, CreateVolumeRequest}
use csi_driver_for_windows_s.Prelude.{none, false, ◌⊎◌}
use csi_driver_for_windows_s.Controller.Create.Iscsi.{iscsi_volume, made_vol_id, create_iscsi_new}
use csi_driver_for_windows_s.Controller.Create.Iscsi.Existing.{
  IsSmaller, create_iscsi_by_name-secrets, create_iscsi_by_name-IsSmaller,
}
use csi_driver_for_windows_s.Controller.Params.{parameters}
use csi_driver_for_windows_s.Controller.Chap.{chap}
use csi_driver_for_windows_s.Examples.{
  example_ids, example_driver, create_request, willing, start, found_volume,
}

create_volume-Keeps_example :
    MakesOnly Keeps (create_volume willing example_ids example_driver create_request)
create_volume-Keeps_example = create_volume-Keeps willing example_ids example_driver create_request

abbrev plan_of : ℤ → IscsiPlan
plan_of size = record {
  portal = "10.0.0.5:3260";
  parent_dir = "C:\\disks";
  size = size;
  target_name = "data";
  requested_iqn = "";
}

abbrev chap_secrets : StringMap
chap_secrets =
    ("node.session.auth.username", "user") ∷ ("node.session.auth.password", "secret-of-14-b") ∷ []

abbrev chap_request : CreateVolumeRequest
chap_request = record create_request { secrets = chap_secrets }

create_iscsi_by_name-secrets_example :
    create_iscsi_by_name willing example_ids
      (record create_request { secrets = chap_secrets })
      (plan_of (pos 1073741824))
      start
    ≡ create_iscsi_by_name willing example_ids create_request (plan_of (pos 1073741824)) start
create_iscsi_by_name-secrets_example =
    create_iscsi_by_name-secrets willing example_ids create_request (plan_of (pos 1073741824))
      chap_secrets found_volume start refl refl

abbrev two_gib : IscsiPlan
two_gib = plan_of (pos 2147483648)

create_iscsi_by_name-IsSmaller_example :
    (IsSmaller willing example_ids create_request two_gib found_volume
      × ((create_iscsi_by_name willing example_ids create_request two_gib start).0
          ≡ err already_exists)
      × ((create_iscsi_by_name willing example_ids create_request two_gib start).1.trace
          ≡ [] ▷ get_volume_by_name "data" "C:\\disks"))
    ⊎ (¬ (IsSmaller willing example_ids create_request two_gib found_volume)
        × ¬ (
            (create_iscsi_by_name willing example_ids create_request two_gib start).0
            ≡ err already_exists))
create_iscsi_by_name-IsSmaller_example =
    create_iscsi_by_name-IsSmaller willing example_ids create_request two_gib found_volume start
      refl refl

abbrev one_gib : IscsiPlan
one_gib = plan_of (pos 1073741824)

abbrev new_volume : Volume
new_volume =
    iscsi_volume example_ids create_request
      (made_vol_id willing example_ids create_request one_gib "data"
        "iqn.1991-05.com.microsoft:data" (pos 0) "C:\\disks\\data.vhdx" (pos 1073741824))
      [] none

newly_made : (create_iscsi_new willing example_ids create_request one_gib start).0 ≡ ok new_volume
unfolding iscsi_creation chap parameters invoke trim_space index enabled
newly_made = refl

found_volume-IsMapped : IsMapped found_volume
unfolding trim_space
found_volume-IsMapped = record {
  exists = refl;
  named = refl;
  target = refl;
  filled = refl;
  mapped = refl;
}

not_smaller : is_smaller willing example_ids create_request one_gib found_volume ≡ false
unfolding iscsi_creation
not_smaller = refl

remembered : Remembers willing example_ids create_request one_gib start found_volume
unfolding iscsi_creation chap parameters invoke trim_space index enabled
remembered = record { disk = refl; name = refl; iqn = refl; lun = refl }

create_iscsi_by_name-retry_example :
    (create_iscsi_by_name willing example_ids create_request one_gib start).0 ≡ ok new_volume
create_iscsi_by_name-retry_example =
    create_iscsi_by_name-retry willing example_ids create_request one_gib start start new_volume
      found_volume newly_made remembered found_volume-IsMapped not_smaller refl refl
