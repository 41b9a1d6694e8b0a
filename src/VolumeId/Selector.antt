-- ===== src/VolumeId/Selector.antt =====
-- `BackendSelector` and the validation of the share descriptions of pkg/iscsi/volumeid.go
use csi_driver_for_windows_s.Prelude.{Option, Result, err, with_error}
use csi_driver_for_windows_s.VolumeId.Scheme.{Protocol, iscsi, nfs, smb}

pub data SelectError : Type 0 where
  unknown_protocol not_configured : SelectError

-- The interface `SelectableBackend`: a backend is known by the protocol that it answers with.
pub record BackendSelector : Type 0 where
  pub iscsi_backend : Option Protocol
  pub nfs_backend : Option Protocol
  pub smb_backend : Option Protocol

unfoldable pub select : BackendSelector → Protocol → Result SelectError Protocol
select s iscsi = with_error SelectError.not_configured s.iscsi_backend
select s nfs = with_error SelectError.not_configured s.nfs_backend
select s smb = with_error SelectError.not_configured s.smb_backend
select s _ = err SelectError.unknown_protocol
