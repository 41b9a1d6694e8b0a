-- ===== src/Controller/Create.antt =====
-- `CreateVolume` of pkg/iscsi/controllerserver.go
pub mod Sources
pub mod Iscsi
pub mod Keeps
pub mod Shares
use csi_driver_for_windows_s.Prelude.{Bool, not, String, ◌==◌, List, [], ◌∷◌, all, true, false}
use csi_driver_for_windows_s.Driver.{Driver, AccessMode}
use csi_driver_for_windows_s.VolumeId.Scheme.{Protocol, iscsi, nfs, smb}
use csi_driver_for_windows_s.Backend.{Backend}
use csi_driver_for_windows_s.Backend.Exec.{
  Code, invalid_argument, Exec, pure, lift, stop_if, ◌>>=◌, ◌>>◌,
}
use csi_driver_for_windows_s.Controller.Params.{protocol_from_params}
use csi_driver_for_windows_s.Controller.Ids.{IdCodec, supports_access_mode_for_protocol}
use csi_driver_for_windows_s.Controller.Messages.{CreateVolumeRequest, Volume, is_other_source}
use Iscsi.{create_iscsi_volume}
use Shares.{create_nfs_volume, create_smb_volume}

abbrev is_none : List AccessMode → Bool
is_none [] = true
is_none (mode ∷ modes) = false

-- The loop over the capabilities of a request.
unfoldable pub supports_all : Driver → Protocol → List AccessMode → Bool
supports_all d protocol modes =
    all (λ mode. supports_access_mode_for_protocol d mode protocol) modes

module _ {S : Type 0} (b : Backend S) (ids : IdCodec) (d : Driver) where
  create_for : Protocol → CreateVolumeRequest → Exec S Volume
  create_for nfs req = create_nfs_volume b ids d req
  create_for smb req = create_smb_volume b ids d req
  create_for _ req = create_iscsi_volume b ids req

  pub create_volume : CreateVolumeRequest → Exec S Volume
  create_volume req = do
    stop_if (req.name == "") invalid_argument
    stop_if (is_none req.capabilities) invalid_argument
    protocol ← lift (protocol_from_params d req.parameters)
    stop_if (not (supports_all d protocol req.capabilities)) invalid_argument
    stop_if (is_other_source req.content_source) invalid_argument
    create_for protocol req
