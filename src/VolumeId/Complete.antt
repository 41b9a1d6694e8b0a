-- ===== src/VolumeId/Complete.antt =====
-- What `Validate` establishes of a volume ID (pkg/iscsi/volumeid.go).
use csi_driver_for_windows_s.Prelude.{
  ◌≡◌, ◌⊎◌, arith, true, false, ◌&&◌, ◌==◌, pos, ◌≤ℤ◌, ltb_ℤ, ok,
}
use csi_driver_for_windows_s.Text.{trim_space}
use csi_driver_for_windows_s.VolumeId.{VolumeId, is_blank, validate, validate_protocol}
use csi_driver_for_windows_s.VolumeId.Scheme.{Protocol, iscsi, nfs, smb, unset, other}

-- The fields that a protocol cannot do without.
abbrev pub HasFields : Protocol → VolumeId → Type 0
HasFields iscsi v =
    (is_blank v.target_portal ≡ false) × (is_blank v.target_iqn ≡ false) × (v.lun_specified ≡ true)
HasFields nfs v =
    (is_blank v.nfs_server ≡ false)
    × (is_blank v.nfs_export_path ≡ false)
    × ((trim_space v.nfs_export_path == "/") ≡ false)
HasFields smb v = (is_blank v.smb_server ≡ false) × (is_blank v.smb_share_name ≡ false)
HasFields _ v = ⊥

pub record IsComplete (v : VolumeId) : Type 0 where
  pub named : (v.name_specified ≡ false) ⊎ (is_blank v.name ≡ false)
  pub capacity : pos 0 ≤ℤ v.capacity_bytes
  pub fields : HasFields v.protocol v

validate_protocol-HasFields :
    (p : Protocol) (v : VolumeId) → validate_protocol p v ≡ ok tt → HasFields p v
unfolding validate_protocol
validate_protocol-HasFields iscsi v h = ground arith
validate_protocol-HasFields nfs v h = ground arith
validate_protocol-HasFields smb v h = ground arith
validate_protocol-HasFields unset v h = cc
validate_protocol-HasFields (other s) v h = cc

validate_parts :
    (v : VolumeId)
    → validate v ≡ ok tt
    → ((v.name_specified && is_blank v.name) ≡ false)
      × (ltb_ℤ v.capacity_bytes (pos 0) ≡ false)
      × (validate_protocol v.protocol v ≡ ok tt)
unfolding validate
validate_parts v h = ground arith

pub validate-IsComplete : (v : VolumeId) → validate v ≡ ok tt → IsComplete v
validate-IsComplete v h =
    let (named, capacity, fields) = validate_parts v h in
    record {
      named = ground arith;
      capacity = ground arith;
      fields = validate_protocol-HasFields v.protocol v fields;
    }
