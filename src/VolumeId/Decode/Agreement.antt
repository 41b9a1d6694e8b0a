-- ===== src/VolumeId/Decode/Agreement.antt =====
-- `DecodeVolumeID` agrees with `ParseProtocolFromVolumeID`, `Validate` and `ValidateVolumeID`.
use csi_driver_for_windows_s.Prelude.{
  ℤ, ◌≡◌, refl, ◌≢◌, arith, String, Option, none, some, ok, lookup, ◌>>=◌, List, [], ◌∷◌,
}
use csi_driver_for_windows_s.VolumeId.{VolumeId, UrlPackage, Url, validate}
use csi_driver_for_windows_s.VolumeId.Complete.{IsComplete, validate-IsComplete}
use csi_driver_for_windows_s.VolumeId.Scheme.{
  Protocol, iscsi, nfs, smb, unset, other, parse_protocol_from_volume_id,
}
use csi_driver_for_windows_s.VolumeId.Segments.{path_segments, default_port}
use csi_driver_for_windows_s.VolumeId.Decode.{
  decode_volume_id, validate_volume_id, decode_query, query_fields, decode_parsed, decode_protocol,
  effective_protocol, decode_lun, find_lun, decode_iscsi_path, decode_name,
}

protocol-decode_name : (o : Option String) (v : VolumeId) → (decode_name o v).protocol ≡ v.protocol
unfolding decode_name
protocol-decode_name none v = refl
protocol-decode_name (some name) v = refl

protocol-query_fields :
    (p : Protocol) (url : Url) (capacity : ℤ) → (query_fields p url capacity).protocol ≡ p
unfolding query_fields
protocol-query_fields p url capacity = protocol-decode_name (lookup "name" url.query) _

protocol-decode_lun :
    (o : Option String) (out : VolumeId) {v : VolumeId}
    → decode_lun o out ≡ ok v
    → v.protocol ≡ out.protocol
unfolding decode_lun
protocol-decode_lun none out h = cc
protocol-decode_lun (some text) out h = ground arith

protocol-decode_iscsi_path :
    (parts : List String) (out : VolumeId) {v : VolumeId}
    → decode_iscsi_path parts out ≡ ok v
    → v.protocol ≡ out.protocol
unfolding decode_iscsi_path
protocol-decode_iscsi_path [] out h = cc
protocol-decode_iscsi_path (iqn ∷ parts) out h = protocol-decode_lun (find_lun parts) _ h

module _ (u : UrlPackage) where
  protocol-decode_protocol :
      (p : Protocol) (url : Url) (out : VolumeId) {v : VolumeId}
      → decode_protocol u p url out ≡ ok v
      → v.protocol ≡ out.protocol
  unfolding decode_protocol
  protocol-decode_protocol iscsi url out h =
      protocol-decode_iscsi_path (path_segments u.path_unescape url.path)
        (record out { target_portal = default_port url.host "3260" }) h
  protocol-decode_protocol nfs url out h = ground arith
  protocol-decode_protocol smb url out h = ground arith
  protocol-decode_protocol unset url out h = cc
  protocol-decode_protocol (other s) url out h = cc

  protocol-decode_query :
      (p : Protocol) (url : Url) {v : VolumeId} → decode_query u p url ≡ ok v → v.protocol ≡ p
  unfolding decode_query
  protocol-decode_query p url h = grind (arith, protocol-query_fields)

  decode_parsed-valid :
      (id : String) (p : Protocol) {v : VolumeId} → decode_parsed u id p ≡ ok v → validate v ≡ ok tt
  unfolding decode_parsed
  decode_parsed-valid id p h = ground arith

  protocol-decode_parsed :
      (id : String) (p : Protocol) {v : VolumeId} → decode_parsed u id p ≡ ok v → v.protocol ≡ p
  unfolding decode_parsed
  protocol-decode_parsed id p h = grind (arith, protocol-decode_query, protocol-decode_protocol)

  -- A volume ID that `DecodeVolumeID` accepts has one of the three protocols and the fields that the
  -- protocol needs, its capacity is not negative, and its name is not blank if it is given.
  pub decode_volume_id-IsComplete :
      (id : String) (v : VolumeId) → decode_volume_id u id ≡ ok v → IsComplete v
  unfolding decode_volume_id
  decode_volume_id-IsComplete id v h = validate-IsComplete v (grind (arith, decode_parsed-valid))

  -- `DecodeVolumeID` gives a volume the protocol that `ParseProtocolFromVolumeID` reads from the same
  -- ID, unless the latter leaves it open.
  pub protocol-decode_volume_id :
      (id : String) (v : VolumeId) (p : Protocol)
      → decode_volume_id u id ≡ ok v
      → parse_protocol_from_volume_id id ≡ ok p
      → p ≢ unset
      → v.protocol ≡ p
  unfolding decode_volume_id effective_protocol
  protocol-decode_volume_id id v p h e ne = grind (arith, protocol-decode_parsed)

  -- `ValidateVolumeID` succeeds where `DecodeVolumeID` does, and otherwise returns the same error.
  pub validate_volume_id-decode_volume_id :
      (id : String) → validate_volume_id u id ≡ (decode_volume_id u id >>= λ _. ok tt)
  unfolding validate_volume_id decode_volume_id
  validate_volume_id-decode_volume_id id = ground arith
