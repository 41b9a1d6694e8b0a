-- ===== src/Controller/Create/Shares/Plan.antt =====
-- The checks of a `CreateVolume` for a file share, which come before the first call of the backend
-- (pkg/iscsi/controllerserver.go).
use csi_driver_for_windows_s.Prelude.{
  true, String, ℤ, StringMap, Result, ok, with_error, ◌>>=◌, ◌>>◌,
}
use csi_driver_for_windows_s.Driver.{Driver}
use csi_driver_for_windows_s.VolumeId.Scheme.{Protocol, nfs, smb}
use csi_driver_for_windows_s.Backend.{NfsShareOptions, SmbShareOptions}
use csi_driver_for_windows_s.Backend.Exec.{Code, invalid_argument}
use csi_driver_for_windows_s.Controller.Params.{
  get_string_param, string_param, required_bytes_from_range, file_share_backend_from_params,
}
use csi_driver_for_windows_s.Controller.Paths.{validate_windows_path_param}
use csi_driver_for_windows_s.Controller.Nfs.{nfs_options_from_params}
use csi_driver_for_windows_s.Controller.Smb.{smb_options_from_params}
use csi_driver_for_windows_s.Controller.Messages.{CreateVolumeRequest}

-- The options of a share, by its protocol.
pub data ShareOptions : Type 0 where
  nfs_options : NfsShareOptions → ShareOptions
  smb_options : SmbShareOptions → ShareOptions

-- The arguments of `createVHDXBacked…Volume`, which `create…Volume` reads.
pub record SharePlan : Type 0 where
  pub parent_dir : String
  pub share_backend : String
  pub server : String
  pub options : ShareOptions
  pub size : ℤ

abbrev protocol_of_options : ShareOptions → Protocol
protocol_of_options (nfs_options o) = nfs
protocol_of_options (smb_options o) = smb

pub nfs_plan_options : StringMap → Result Code (String × ShareOptions)
nfs_plan_options params =
    nfs_options_from_params params >>= λ o. ok (string_param params "nfsServer", nfs_options o)

pub smb_plan_options : StringMap → Result Code (String × ShareOptions)
smb_plan_options params =
    smb_options_from_params params >>= λ o. ok (string_param params "smbServer", smb_options o)

-- The checks that come before the first call of the backend.
pub share_plan :
    Driver
    → (StringMap → Result Code (String × ShareOptions))
    → CreateVolumeRequest
    → Result Code SharePlan
share_plan d read_options req = do
  let params = req.parameters
  parent_dir ← with_error invalid_argument (get_string_param params "shareParentPath")
  validate_windows_path_param parent_dir true
  share_backend ← file_share_backend_from_params d params
  (server, options) ← read_options params
  size ← required_bytes_from_range req.capacity_range 1
  ok (record {
    parent_dir = parent_dir;
    share_backend = share_backend;
    server = server;
    options = options;
    size = size;
  })
