-- ===== src/Controller/Chap.antt =====
-- CHAP credentials in the secrets of a request (pkg/iscsi/controllerserver.go).
pub mod Bounds
pub mod Effects
use csi_driver_for_windows_s.Prelude.{
  Bool, true, false, ◌||◌, ◌&&◌, not, String, len, ◌==◌, ltb, StringMap, index, Result, ok, err,
  reject_if, ◌>>=◌, ◌>>◌, if◌then◌else◌,
}
use csi_driver_for_windows_s.Text.{trim_space, contains_func}
use csi_driver_for_windows_s.Text.Chars.{is_space, is_control}
use csi_driver_for_windows_s.Backend.{
  Backend, TargetChapOptions, no_chap, enabled, configure_target_chap,
}
use csi_driver_for_windows_s.Backend.Exec
use csi_driver_for_windows_s.Backend.Exec.{Code, invalid_argument, Exec, pure, lift, invoke}

pub validate_secret_printable : String → Result Code (Unit {0})
validate_secret_printable value = reject_if (contains_func is_control value) invalid_argument

-- The lengths are `chapSecretMinLength` and `chapSecretMaxLength`, in bytes.
pub validate_chap_secret_value : String → Result Code (Unit {0})
validate_chap_secret_value value = do
  validate_secret_printable value
  reject_if (ltb (len value) 12 || ltb 16 (len value)) invalid_argument

pub validate_chap_username_value : String → Result Code (Unit {0})
validate_chap_username_value value = do
  validate_secret_printable value
  reject_if (ltb 223 (len value)) invalid_argument
  reject_if (contains_func is_space value) invalid_argument

-- The results of `validateChapCredentialPair`.
pub record Credentials : Type 0 where
  pub user : String
  pub password : String
  pub configured : Bool

pub validate_chap_credential_pair : StringMap → String → String → Result Code Credentials
validate_chap_credential_pair secrets user_key password_key =
    let user = trim_space (index user_key secrets) in
    let password = trim_space (index password_key secrets) in
    if user == "" && password == ""
    then ok (record { user = ""; password = ""; configured = false })
    else do
      reject_if (user == "" || password == "") invalid_argument
      validate_chap_username_value user
      validate_chap_secret_value password
      ok (record { user = user; password = password; configured = true })

pub validate_chap_secrets : StringMap → Result Code (Unit {0})
validate_chap_secrets secrets = do
  discovery ←
      validate_chap_credential_pair secrets "discovery.sendtargets.auth.username"
        "discovery.sendtargets.auth.password"
  discovery_in ←
      validate_chap_credential_pair secrets "discovery.sendtargets.auth.username_in"
        "discovery.sendtargets.auth.password_in"
  reject_if (discovery_in.configured && not discovery.configured) invalid_argument
  session ←
      validate_chap_credential_pair secrets "node.session.auth.username"
        "node.session.auth.password"
  session_in ←
      validate_chap_credential_pair secrets "node.session.auth.username_in"
        "node.session.auth.password_in"
  reject_if (session_in.configured && not session.configured) invalid_argument

-- The part of `targetChapOptionsFromSecrets` that sets the forward credentials.
forward_options : String → String → Result Code TargetChapOptions
forward_options user secret =
    if not (user == "") || not (secret == "")
    then (do
      reject_if (user == "" || secret == "") invalid_argument
      ok (record no_chap { chap_user = user; chap_secret = secret }))
    else ok no_chap

reverse_options : String → String → TargetChapOptions → Result Code TargetChapOptions
reverse_options user secret opts =
    if not (user == "") || not (secret == "")
    then (do
      reject_if (user == "" || secret == "") invalid_argument
      reject_if (opts.chap_user == "") invalid_argument
      ok (record opts { reverse_chap_user = user; reverse_chap_secret = secret }))
    else ok opts

pub target_chap_options_from_secrets : StringMap → Result Code TargetChapOptions
target_chap_options_from_secrets secrets = do
  validate_chap_secrets secrets
  opts ←
      forward_options (trim_space (index "node.session.auth.username" secrets))
        (trim_space (index "node.session.auth.password" secrets))
  reverse_options (trim_space (index "node.session.auth.username_in" secrets))
      (trim_space (index "node.session.auth.password_in" secrets)) opts

module _ {S : Type 0} (b : Backend S) where
  apply_chap : String → TargetChapOptions → Exec S (Unit {0})
  apply_chap target_name opts =
      if enabled opts then invoke b (configure_target_chap target_name opts) else pure tt

  pub configure_target_chap_from_secrets : String → StringMap → Exec S (Unit {0})
  configure_target_chap_from_secrets target_name secrets =
      Exec.◌>>=◌ (lift (target_chap_options_from_secrets secrets))
        λ opts. apply_chap target_name opts

-- What a run of these functions opens.
unfoldable pub chap : Unit {0}
unfolding validate_secret_printable validate_chap_secret_value validate_chap_username_value
    validate_chap_credential_pair validate_chap_secrets forward_options reverse_options
    target_chap_options_from_secrets apply_chap configure_target_chap_from_secrets
chap = tt
