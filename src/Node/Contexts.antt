-- ===== src/Node/Contexts.antt =====
-- What the node service reads of publish contexts, volume contexts and volume IDs
-- (pkg/iscsi/nodeserver.go).
pub mod Published
use Prim.Native.String
use csi_driver_for_windows_s.Prelude.{
  Bool, true, false, ◌||◌, not, String, ◌==◌, ℤ, pos, ltb_ℤ, Option, none, some, List, [], ◌∷◌,
  ◌++◌, StringMap, Result, ok, err, ◌>>=◌, ◌>>◌, reject_if, with_error, if◌then◌else◌, index,
}
use csi_driver_for_windows_s.Text.{trim_space, to_lower}
use csi_driver_for_windows_s.Strconv.{parse_int}
use csi_driver_for_windows_s.VolumeId.{VolumeId, UrlPackage}
use csi_driver_for_windows_s.VolumeId.Scheme.{
  Protocol, iscsi, nfs, smb, unset, VolumeIdError, protocol_of, protocol_name,
  parse_protocol_from_volume_id,
}
use csi_driver_for_windows_s.VolumeId.Decode.{decode_volume_id}
use csi_driver_for_windows_s.Exec.{Code, invalid_argument}
use csi_driver_for_windows_s.Controller.Ids.{volume_context_for_volume_id}
use csi_driver_for_windows_s.Controller.Nfs.{
  normalize_nfs_authentication, normalize_nfs_authentication_flavor,
  preferred_nfs_mount_authentication,
}
use csi_driver_for_windows_s.Controller.Paths.{validate_target_portal}
use csi_driver_for_windows_s.Node.Options.{get_str}

-- `firstContextValue`
unfoldable pub first_context_value : String → List StringMap → String
unfolding get_str
first_context_value key [] = ""
first_context_value key (ctx ∷ contexts) = elim (get_str ctx key) [
  | none ↦ first_context_value key contexts
  | some value ↦ value
]

-- The inner loop of `firstContextValueForKeys`; with `firstSecretValue` over the secrets.
unfoldable pub first_value : List String → StringMap → Option String
unfolding get_str
first_value [] ctx = none
first_value (key ∷ keys) ctx = elim (get_str ctx key) [
  | none ↦ first_value keys ctx
  | some value ↦ some value
]

unfoldable pub first_context_value_for_keys : List String → List StringMap → String
unfolding first_value
first_context_value_for_keys keys [] = ""
first_context_value_for_keys keys (ctx ∷ contexts) = elim (first_value keys ctx) [
  | none ↦ first_context_value_for_keys keys contexts
  | some value ↦ value
]

-- The loop of `protocolFromContext`: only `nfs` and `smb` count.
choose_protocol : Protocol → Protocol → Protocol
choose_protocol nfs rest = nfs
choose_protocol smb rest = smb
choose_protocol _ rest = rest

unfoldable pub protocol_from_context : List StringMap → Protocol
unfolding choose_protocol protocol_of trim_space to_lower index
protocol_from_context [] = unset
protocol_from_context (ctx ∷ contexts) =
    choose_protocol (protocol_of (to_lower (trim_space (index "protocol" ctx))))
      (protocol_from_context contexts)

-- What `publishProtocol` makes of the scheme of the volume ID.
protocol_from_id : Result VolumeIdError Protocol → Protocol
protocol_from_id (ok nfs) = nfs
protocol_from_id (ok smb) = smb
protocol_from_id _ = iscsi

-- `publishProtocol`
unfoldable pub publish_protocol :
    (publish_context volume_context : StringMap) (volume_id : String) → Protocol
unfolding choose_protocol protocol_from_context protocol_from_id parse_protocol_from_volume_id
publish_protocol publish_context volume_context volume_id =
    choose_protocol (protocol_from_context (publish_context ∷ volume_context ∷ []))
      (protocol_from_id (parse_protocol_from_volume_id volume_id))

-- `nfsMountAuthenticationFromContext`
unfoldable pub nfs_mount_authentication_from_context : List StringMap → Result Code String
unfolding first_context_value
nfs_mount_authentication_from_context contexts =
    let value = first_context_value "nfsMountAuthentication" contexts in
    let spelled = first_context_value "nfsAuthentication" contexts in
    let raw = if spelled == "" then first_context_value "nfsauthentication" contexts else spelled in
    if value == ""
    then (normalize_nfs_authentication raw >>= λ auth. ok (preferred_nfs_mount_authentication auth))
    else normalize_nfs_authentication_flavor value

-- What an iSCSI volume is reached by.
pub record Connection : Type 0 where
  pub portal : String
  pub iqn : String
  pub lun : ℤ

-- `strconv.Atoi` and the check behind it
abbrev pub read_lun : String → Result Code ℤ
read_lun text = do
  lun ← with_error invalid_argument (parse_int text)
  reject_if (ltb_ℤ lun (pos 0)) invalid_argument
  ok lun

-- `iscsiConnectionFromContexts` over contexts to which that of the volume ID has been added.
unfoldable pub connection_from : List StringMap → Result Code Connection
unfolding first_context_value_for_keys
connection_from contexts = do
  let portal = first_context_value_for_keys ("targetPortal" ∷ "portal" ∷ []) contexts
  reject_if (portal == "") invalid_argument
  validate_target_portal portal
  let iqn = first_context_value_for_keys ("iqn" ∷ "targetIQN" ∷ "targetIqn" ∷ []) contexts
  reject_if (iqn == "") invalid_argument
  let lun_text = first_context_value_for_keys ("lun" ∷ "LUN" ∷ []) contexts
  reject_if (lun_text == "") invalid_argument
  lun ← read_lun lun_text
  ok (record { portal = portal; iqn = iqn; lun = lun })

-- The context of a decoded volume ID, if it has the protocol.
abbrev pub context_if : Protocol → Result VolumeIdError VolumeId → Option StringMap
context_if proto (err e) = none
context_if proto (ok decoded) =
    if protocol_name decoded.protocol == protocol_name proto
    then some (volume_context_for_volume_id decoded)
    else none

-- A nil context and an empty one hold nothing.
abbrev pub context_or_empty : Option StringMap → StringMap
context_or_empty none = []
context_or_empty (some ctx) = ctx

-- `if ctx != nil { contexts = append(contexts, ctx) }`
abbrev pub add_context : List StringMap → Option StringMap → List StringMap
add_context contexts none = contexts
add_context contexts (some ctx) = contexts ++ ctx ∷ []

module _ (u : UrlPackage) where
  -- `volumeContextFromVolumeID`
  unfoldable pub volume_context_from_volume_id : String → Protocol → Option StringMap
  unfolding volume_context_for_volume_id
  volume_context_from_volume_id volume_id proto = context_if proto (decode_volume_id u volume_id)

  -- `iscsiConnectionFromContexts`
  unfoldable pub iscsi_connection_from_contexts : String → List StringMap → Result Code Connection
  unfolding connection_from volume_context_from_volume_id
  iscsi_connection_from_contexts volume_id contexts =
      connection_from (add_context contexts (volume_context_from_volume_id volume_id iscsi))
