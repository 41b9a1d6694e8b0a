-- ===== src/Controller/Params/Choice.antt =====
-- The protocol that `protocolFromParams` (pkg/iscsi/controllerserver.go) chooses for a driver.
use csi_driver_for_windows_s.Prelude.{
  ◌≡◌, refl, sym, ap, ◌⊎◌, inl, inr, ◌>>=◌, ok_eq, arith, eq_iff, StringMap, Result, ok, reject_if,
}
use csi_driver_for_windows_s.Driver.{Driver}
use csi_driver_for_windows_s.VolumeId.Scheme.{
  Protocol, iscsi, nfs, smb, unset, other, protocol_name,
}
use csi_driver_for_windows_s.Backend.Exec.{Code, invalid_argument}
use csi_driver_for_windows_s.Controller.Params.{conflicts, known, protocol_from_params}

-- A driver without a protocol of its own may serve each, another only its own.
abbrev pub Serves : Driver → Protocol → Type 0
Serves d p = (protocol_name d.protocol ≡ "") ⊎ (protocol_name p ≡ protocol_name d.protocol)

unasked-Serves :
    (own : Protocol) (p : Protocol)
    → Path (Result Code Protocol) (elim own [ unset ↦ ok iscsi | q ↦ ok q ]) (ok p)
    → (protocol_name own ≡ "") ⊎ (protocol_name p ≡ protocol_name own)
unasked-Serves unset p h = inl refl
unasked-Serves iscsi p h = inr (ap protocol_name (sym (ok_eq h)))
unasked-Serves nfs p h = inr (ap protocol_name (sym (ok_eq h)))
unasked-Serves smb p h = inr (ap protocol_name (sym (ok_eq h)))
unasked-Serves (other s) p h = inr (ap protocol_name (sym (ok_eq h)))

asked-Serves :
    (d : Driver) (asked p : Protocol)
    → (reject_if (conflicts d asked) invalid_argument >>= λ _. ok asked) ≡ ok p
    → Serves d p
unfolding conflicts
asked-Serves d asked p h = grind (arith, eq_iff)

known-Serves : (d : Driver) (asked p : Protocol) → known d asked ≡ ok p → Serves d p
unfolding known
known-Serves d unset p h = unasked-Serves d.protocol p h
known-Serves d (other s) p h = cc
known-Serves d iscsi p h = asked-Serves d iscsi p h
known-Serves d nfs p h = asked-Serves d nfs p h
known-Serves d smb p h = asked-Serves d smb p h

-- The protocol of a new volume is the driver's own, if it has one.
pub protocol_from_params-Serves :
    (d : Driver) (params : StringMap) (p : Protocol)
    → protocol_from_params d params ≡ ok p
    → Serves d p
unfolding protocol_from_params
protocol_from_params-Serves d params p h = known-Serves d _ p h
