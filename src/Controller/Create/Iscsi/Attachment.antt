-- ===== src/Controller/Create/Iscsi/Attachment.antt =====
-- The order in which `CreateVolume` sets up the target of a new iSCSI disk (pkg/iscsi/controllerserver.go).
use csi_driver_for_windows_s.Prelude.{◌≡◌, String, StringMap, ℤ, ◌++◌, ok}
use csi_driver_for_windows_s.Backend.{Backend, TargetChapOptions, ensure_target, map_disk_to_target}
use csi_driver_for_windows_s.Backend.Exec.{World, Exec, pure, invoke, ◌>>=◌, ◌▷◌}
use csi_driver_for_windows_s.Controller.Chap.{target_chap_options_from_secrets}
use csi_driver_for_windows_s.Controller.Chap.Effects.{credentials_calls}
use csi_driver_for_windows_s.Controller.Ids.{IdCodec}
use csi_driver_for_windows_s.Controller.Messages.{CreateVolumeRequest}
use csi_driver_for_windows_s.Controller.Create.Iscsi.Plan.{IscsiPlan}

-- The calls between two worlds: the target, the credentials that the secrets hold, if they hold any, and at
-- last the mapping of the disk.
pub record Attaches {S : Type 0} (plan : IscsiPlan) (secrets : StringMap) (path : String)
    (w w' : World S) : Type 0 where
  pub options : TargetChapOptions
  pub are_read : target_chap_options_from_secrets secrets ≡ ok options
  pub calls :
      w'.trace
      ≡ ((w.trace ▷ ensure_target plan.target_name plan.requested_iqn)
          ++ credentials_calls plan.target_name options)
        ▷ map_disk_to_target plan.target_name path

module _ {S : Type 0} (b : Backend S) (ids : IdCodec) (req : CreateVolumeRequest)
    (plan : IscsiPlan) where
  -- The last two steps.
  mapped : String → String → Exec S (String × ℤ)
  mapped path iqn = invoke b (map_disk_to_target plan.target_name path) >>= λ lun. pure (iqn, lun)
