-- ===== src/Node/ShareOptions.antt =====
-- The source and the options of the mount of an NFS or SMB volume: the first part of
-- `stageFileShareVolume` of pkg/iscsi/nodeserver.go
pub mod Secrets
use Prim.Native.String
use csi_driver_for_windows_s.Prelude.{
  Bool, true, false, ◌||◌, String, ◌==◌, Option, none, some, List, [], ◌∷◌, ◌++◌, StringMap, Result,
  ok, ◌>>=◌, ◌>>◌, reject_if, if◌then◌else◌,
}
use csi_driver_for_windows_s.Strconv.{parse_bool}
use csi_driver_for_windows_s.VolumeId.{UrlPackage}
use csi_driver_for_windows_s.VolumeId.Scheme.{Protocol, nfs, smb}
use csi_driver_for_windows_s.Exec.{Code, invalid_argument}
use csi_driver_for_windows_s.Node.Options.{
  Access, SplitOptions, get_str, mount_options_from_capability, mount_options_from_context,
  split_sensitive_mount_options, append_option_if_missing,
}
use csi_driver_for_windows_s.Node.Contexts.{
  first_value, first_context_value_for_keys, nfs_mount_authentication_from_context,
  context_or_empty, volume_context_from_volume_id,
}
use csi_driver_for_windows_s.Node.Requests.{NodeStageVolumeRequest}

-- Where a share is mounted from, and its file system type.
pub record ShareSource : Type 0 where
  pub source : String
  pub fs_type : String

-- The first `switch proto`, over the contexts in their order.
unfoldable pub share_source : Protocol → List StringMap → Result Code ShareSource
unfolding first_context_value_for_keys
share_source nfs contexts = do
  let server = first_context_value_for_keys ("nfsServer" ∷ "server" ∷ []) contexts
  let export_path = first_context_value_for_keys ("nfsExportPath" ∷ "exportPath" ∷ []) contexts
  reject_if (server == "" || export_path == "") invalid_argument
  ok (record { source = String.◌++◌ server (String.◌++◌ ":" export_path); fs_type = "nfs" })
share_source smb contexts = do
  let server = first_context_value_for_keys ("smbServer" ∷ "server" ∷ []) contexts
  let share = first_context_value_for_keys ("smbShareName" ∷ "share" ∷ []) contexts
  reject_if (server == "" || share == "") invalid_argument
  ok (record {
    source = String.◌++◌ "//" (String.◌++◌ server (String.◌++◌ "/" share));
    fs_type = "cifs";
  })
share_source _ contexts = ok (record { source = ""; fs_type = "" })

-- `if value, ok := …; ok { opts = appendOptionIfMissing(opts, prefix, prefix+value) }`
abbrev pub append_given : List String → String → Option String → List String
append_given opts prefix none = opts
append_given opts prefix (some value) =
    append_option_if_missing opts prefix (String.◌++◌ prefix value)

-- `strconv.ParseBool(seal); err == nil && enabled`
abbrev append_seal : List String → Option String → List String
append_seal opts none = opts
append_seal opts (some seal) = elim (parse_bool seal) [
  | some true ↦ append_option_if_missing opts "seal" "seal"
  | _ ↦ opts
]

nfs_options_for : StringMap → String → List String → List String
unfolding append_option_if_missing get_str
nfs_options_for volume_context authentication opts =
    let versioned = append_given opts "vers=" (get_str volume_context "nfsVersion") in
    if authentication == ""
    then versioned
    else append_option_if_missing versioned "sec=" (String.◌++◌ "sec=" authentication)

smb_options_for : (volume_context secrets : StringMap) → List String → List String
unfolding append_option_if_missing get_str first_value
smb_options_for volume_context secrets opts =
    let versioned = append_given opts "vers=" (get_str volume_context "smbVersion") in
    let named =
      append_given versioned "username=" (first_value ("smbUsername" ∷ "username" ∷ []) secrets) in
    let in_domain =
      append_given named "domain=" (first_value ("smbDomain" ∷ "domain" ∷ []) secrets) in
    append_seal in_domain (get_str volume_context "smbSeal")

-- The sensitive options that are made of the secrets.
unfoldable pub secret_options : Protocol → StringMap → List String
unfolding append_option_if_missing first_value
secret_options smb secrets =
    append_given [] "password=" (first_value ("smbPassword" ∷ "password" ∷ []) secrets)
secret_options _ secrets = []

-- The second `switch proto`. The contexts are those of the authentication, in their order.
share_options :
    Protocol → NodeStageVolumeRequest → List StringMap → List String → Result Code (List String)
unfolding nfs_options_for smb_options_for nfs_mount_authentication_from_context
share_options nfs req contexts opts = do
  authentication ← nfs_mount_authentication_from_context contexts
  ok (nfs_options_for req.volume_context authentication opts)
share_options smb req contexts opts = ok (smb_options_for req.volume_context req.secrets opts)
share_options _ req contexts opts = ok opts

-- How a share is mounted.
pub record ShareMount : Type 0 where
  pub from : ShareSource
  pub options : SplitOptions

-- The sensitive options found among the others come first.
abbrev pub with_secrets : SplitOptions → List String → SplitOptions
with_secrets options secrets = record options { sensitive = options.sensitive ++ secrets }

unfoldable pub share_mount :
    UrlPackage → NodeStageVolumeRequest → Access → Protocol → Result Code ShareMount
unfolding share_source share_options secret_options split_sensitive_mount_options
    mount_options_from_capability mount_options_from_context volume_context_from_volume_id
share_mount u req capability proto = do
  let id_context = context_or_empty (volume_context_from_volume_id u req.volume_id proto)
  from ← share_source proto (req.publish_context ∷ req.volume_context ∷ id_context ∷ [])
  opts ←
      share_options proto req (req.volume_context ∷ req.publish_context ∷ id_context ∷ [])
        (mount_options_from_capability capability ++ mount_options_from_context req.volume_context)
  ok (record {
    from = from;
    options = with_secrets (split_sensitive_mount_options opts) (secret_options proto req.secrets);
  })
