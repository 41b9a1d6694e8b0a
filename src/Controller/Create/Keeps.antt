-- ===== src/Controller/Create/Keeps.antt =====
-- `CreateVolume` (pkg/iscsi/controllerserver.go) takes nothing away.
use csi_driver_for_windows_s.Prelude.{not, ◌==◌}
use csi_driver_for_windows_s.Driver.{Driver}
use csi_driver_for_windows_s.VolumeId.Scheme.{Protocol, iscsi, nfs, smb, unset, other}
use csi_driver_for_windows_s.Backend.{Backend}
use csi_driver_for_windows_s.Backend.Exec.{invalid_argument}
use csi_driver_for_windows_s.Backend.Exec.Trace.{
  MakesOnly, MakesOnly-lift, MakesOnly-bind, MakesOnly-stop_if,
}
use csi_driver_for_windows_s.Backend.Exec.Keeps.{Keeps}
use csi_driver_for_windows_s.Controller.Params.{protocol_from_params}
use csi_driver_for_windows_s.Controller.Ids.{IdCodec}
use csi_driver_for_windows_s.Controller.Messages.{CreateVolumeRequest, is_other_source}
use csi_driver_for_windows_s.Controller.Create.{create_for, create_volume, supports_all}
use csi_driver_for_windows_s.Controller.Create.Iscsi.Keeps.{create_iscsi_volume-Keeps}
use csi_driver_for_windows_s.Controller.Create.Shares.Keeps.{
  create_nfs_volume-Keeps, create_smb_volume-Keeps,
}

module _ {S : Type 0} (b : Backend S) (ids : IdCodec) (d : Driver) where
  create_for-Keeps :
      (p : Protocol) (req : CreateVolumeRequest) → MakesOnly Keeps (create_for b ids d p req)
  unfolding create_for
  create_for-Keeps nfs req = create_nfs_volume-Keeps b ids d req
  create_for-Keeps smb req = create_smb_volume-Keeps b ids d req
  create_for-Keeps iscsi req = create_iscsi_volume-Keeps b ids req
  create_for-Keeps unset req = create_iscsi_volume-Keeps b ids req
  create_for-Keeps (other s) req = create_iscsi_volume-Keeps b ids req

  -- Whatever the request holds and the backend answers, no call of `CreateVolume` deletes a disk, a
  -- share, a target or a snapshot, unmaps or unmounts a disk, or takes access away.
  pub create_volume-Keeps :
      (req : CreateVolumeRequest) → MakesOnly Keeps (create_volume b ids d req)
  unfolding create_volume
  create_volume-Keeps req = MakesOnly-bind (MakesOnly-stop_if (req.name == "") _) λ _.
      MakesOnly-bind (MakesOnly-stop_if _ _) λ _.
        MakesOnly-bind (MakesOnly-lift (protocol_from_params d req.parameters)) λ protocol.
          MakesOnly-bind
            (MakesOnly-stop_if (not (supports_all d protocol req.capabilities)) invalid_argument)
            λ _.
              MakesOnly-bind
                (MakesOnly-stop_if (is_other_source req.content_source) invalid_argument)
                λ _. create_for-Keeps protocol req
