-- ===== src/Controller/Create/Iscsi/Plan.antt =====
-- The checks of an iSCSI `CreateVolume`, which come before the first call of the backend
-- (pkg/iscsi/controllerserver.go).
use csi_driver_for_windows_s.Prelude.{
  Bool, false, ◌&&◌, not, String, ℤ, pos, leb_ℤ, Option, none, some, Result, ok, with_error,
  reject_if, ◌>>=◌, ◌>>◌,
}
use csi_driver_for_windows_s.Strconv.{parse_int}
use csi_driver_for_windows_s.Net.{split_host_port}
use csi_driver_for_windows_s.Backend.Exec.{Code, invalid_argument}
use csi_driver_for_windows_s.Controller.Params.{
  get_string_param, string_param, parse_tcp_port_param, required_bytes_from_range,
}
use csi_driver_for_windows_s.Controller.Paths.{
  validate_target_portal, validate_windows_path_param, validate_iqn_prefix,
  validate_iscsi_target_name,
}
use csi_driver_for_windows_s.Controller.Ids.{target_portal_address, iscsi_target_for_volume}
use csi_driver_for_windows_s.Controller.Messages.{CreateVolumeRequest}

abbrev eq_ℤ : ℤ → ℤ → Bool
eq_ℤ a b = leb_ℤ a b && leb_ℤ b a

-- What the parameters of a request come to, once they have passed the checks.
pub record IscsiPlan : Type 0 where
  pub portal : String
  pub parent_dir : String
  pub size : ℤ
  pub target_name : String
  pub requested_iqn : String

-- A port in the portal must be the `portalPort` that is given.
ports_agree : Option String → ℤ → Option (String × String) → Result Code (Unit {0})
ports_agree none port split = ok tt
ports_agree (some given) port none = ok tt
ports_agree (some given) port (some (host, text)) =
    with_error invalid_argument (parse_int text) >>= λ portal_port.
    reject_if (not (eq_ℤ port portal_port)) invalid_argument

prefix_valid : Option String → Result Code (Unit {0})
prefix_valid none = ok tt
prefix_valid (some prefix) = validate_iqn_prefix prefix

-- The checks that come before the first call of the backend.
pub iscsi_plan : CreateVolumeRequest → Result Code IscsiPlan
iscsi_plan req = do
  let params = req.parameters
  portal ← with_error invalid_argument (get_string_param params "targetPortal")
  validate_target_portal portal
  port ← parse_tcp_port_param params "portalPort" (pos 3260)
  ports_agree (get_string_param params "portalPort") port (split_host_port portal)
  let parent_dir = string_param params "vhdxParentPath"
  validate_windows_path_param parent_dir false
  prefix_valid (get_string_param params "iqnPrefix")
  size ← required_bytes_from_range req.capacity_range 1
  let (target_name, requested_iqn) = iscsi_target_for_volume params req.name
  validate_iscsi_target_name target_name
  ok (record {
    portal = target_portal_address portal port;
    parent_dir = parent_dir;
    size = size;
    target_name = target_name;
    requested_iqn = requested_iqn;
  })
