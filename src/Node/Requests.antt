-- ===== src/Node/Requests.antt =====
-- The requests of the CSI node service, and what `NodeStageVolume` and `NodePublishVolume` read of them
-- (pkg/iscsi/nodeserver.go).
use csi_driver_for_windows_s.Prelude.{
  Bool, true, false, String, ◌==◌, Option, none, some, List, [], ◌∷◌, ◌++◌, StringMap, Result, ok,
  ◌>>=◌, ◌>>◌, if◌then◌else◌, index,
}
use csi_driver_for_windows_s.Text.{trim_space}
use csi_driver_for_windows_s.VolumeId.{UrlPackage}
use csi_driver_for_windows_s.Exec.{Code}
use csi_driver_for_windows_s.Iscsilib.{Secrets, no_secrets}
use csi_driver_for_windows_s.Controller.Chap.{validate_chap_secrets}
use csi_driver_for_windows_s.Node.Options.{
  Access, get_str, fs_type_from_capability, mount_options_from_capability,
  mount_options_from_context,
}
use csi_driver_for_windows_s.Node.Contexts.{Connection, iscsi_connection_from_contexts}

-- A missing capability is `none`.
pub record NodeStageVolumeRequest : Type 0 where
  pub volume_id : String
  pub staging_target_path : String
  pub capability : Option Access
  pub publish_context : StringMap
  pub volume_context : StringMap
  pub secrets : StringMap

pub record NodePublishVolumeRequest : Type 0 where
  pub volume_id : String
  pub staging_target_path : String
  pub target_path : String
  pub capability : Option Access
  pub publish_context : StringMap
  pub volume_context : StringMap
  pub readonly : Bool

-- The two kinds of credentials, with `doChapDisc` and `authType`.
pub record ChapSecrets : Type 0 where
  pub discovery : Secrets
  pub session : Secrets
  pub chap_discovery : Bool
  pub auth_type : String

-- The credentials under a prefix such as `node.session.auth.`, if a user is given.
chap_section : StringMap → (username password username_in password_in : String) → Option Secrets
unfolding trim_space index
chap_section secrets username password username_in password_in =
    let user = trim_space (index username secrets) in
    if user == ""
    then none
    else some (record {
      secrets_type = "chap";
      user_name = user;
      password = trim_space (index password secrets);
      user_name_in = trim_space (index username_in secrets);
      password_in = trim_space (index password_in secrets);
    })

abbrev or_no_secrets : Option Secrets → Secrets
or_no_secrets none = no_secrets
or_no_secrets (some s) = s

abbrev is_given : Option Secrets → Bool
is_given none = false
is_given (some s) = true

unfoldable pub parse_chap_secrets : StringMap → Result Code ChapSecrets
unfolding chap_section
parse_chap_secrets secrets = do
  validate_chap_secrets secrets
  let discovery =
      chap_section secrets "discovery.sendtargets.auth.username"
        "discovery.sendtargets.auth.password" "discovery.sendtargets.auth.username_in"
        "discovery.sendtargets.auth.password_in"
  let session =
      chap_section secrets "node.session.auth.username" "node.session.auth.password"
        "node.session.auth.username_in" "node.session.auth.password_in"
  ok (record {
    discovery = or_no_secrets discovery;
    session = or_no_secrets session;
    chap_discovery = is_given discovery;
    auth_type = if is_given session then "chap" else "";
  })

-- `v, ok := getStr(ctx, key); ok`, with a value in its place
abbrev pub get_str_or : StringMap → String → String → String
get_str_or m key fallback = elim (get_str m key) [ none ↦ fallback | some value ↦ value ]

-- The file system type: of the capability, else of the volume context, else `ext4`.
unfoldable pub chosen_fs_type : Access → StringMap → String
unfolding fs_type_from_capability get_str
chosen_fs_type capability volume_context =
    let own = fs_type_from_capability capability in
    if own == "" then get_str_or volume_context "fsType" "ext4" else own

unfoldable pub chosen_mount_options : Access → StringMap → List String
unfolding mount_options_from_capability mount_options_from_context
chosen_mount_options capability volume_context =
    mount_options_from_capability capability ++ mount_options_from_context volume_context

-- The results of `parseStage`.
pub record StageParameters : Type 0 where
  pub connection : Connection
  pub fs_type : String
  pub mount_options : List String
  pub interface : String
  pub chap : ChapSecrets

-- The results of `parsePublish`, but `req.GetReadonly()`.
pub record PublishParameters : Type 0 where
  pub connection : Connection
  pub fs_type : String
  pub mount_options : List String

module _ (u : UrlPackage) where
  unfoldable pub parse_stage : NodeStageVolumeRequest → Access → Result Code StageParameters
  unfolding iscsi_connection_from_contexts parse_chap_secrets chosen_fs_type chosen_mount_options
      get_str
  parse_stage req capability = do
    connection ←
        iscsi_connection_from_contexts u req.volume_id
          (req.publish_context ∷ req.volume_context ∷ [])
    chap ← parse_chap_secrets req.secrets
    ok (record {
      connection = connection;
      fs_type = chosen_fs_type capability req.volume_context;
      mount_options = chosen_mount_options capability req.volume_context;
      interface = get_str_or req.volume_context "iface" "default";
      chap = chap;
    })

  unfoldable pub parse_publish : NodePublishVolumeRequest → Access → Result Code PublishParameters
  unfolding iscsi_connection_from_contexts chosen_fs_type chosen_mount_options
  parse_publish req capability = do
    connection ←
        iscsi_connection_from_contexts u req.volume_id
          (req.publish_context ∷ req.volume_context ∷ [])
    ok (record {
      connection = connection;
      fs_type = chosen_fs_type capability req.volume_context;
      mount_options = chosen_mount_options capability req.volume_context;
    })
