-- ===== src/Controller/Chap/Bounds.antt =====
-- What the checks of CHAP credentials (pkg/iscsi/controllerserver.go) let pass.
use csi_driver_for_windows_s.Prelude.{◌≡◌, arith, ◌≤◌, len, true, false, String, StringMap, ok}
use csi_driver_for_windows_s.Text.{contains_func}
use csi_driver_for_windows_s.Text.Chars.{is_space, is_control}
use csi_driver_for_windows_s.Controller.Chap.{
  validate_secret_printable, validate_chap_secret_value, validate_chap_username_value, Credentials,
  validate_chap_credential_pair,
}

-- A name and a secret that Windows accepts.
pub record AreUsable (user secret : String) : Type 0 where
  pub user_printable : contains_func is_control user ≡ false
  pub user_solid : contains_func is_space user ≡ false
  pub user_length : len user ≤ 223
  pub secret_printable : contains_func is_control secret ≡ false
  pub secret_at_least : 12 ≤ len secret
  pub secret_at_most : len secret ≤ 16

secret_bounds :
    (value : String)
    → validate_chap_secret_value value ≡ ok tt
    → (contains_func is_control value ≡ false) × (12 ≤ len value) × (len value ≤ 16)
unfolding validate_chap_secret_value validate_secret_printable
secret_bounds value h = ground arith

username_bounds :
    (value : String)
    → validate_chap_username_value value ≡ ok tt
    → (contains_func is_control value ≡ false)
      × (contains_func is_space value ≡ false)
      × (len value ≤ 223)
unfolding validate_chap_username_value validate_secret_printable
username_bounds value h = ground arith

pair_parts :
    (secrets : StringMap) (user_key password_key : String) (c : Credentials)
    → validate_chap_credential_pair secrets user_key password_key ≡ ok c
    → c.configured ≡ true
    → (validate_chap_username_value c.user ≡ ok tt)
      × (validate_chap_secret_value c.password ≡ ok tt)
unfolding validate_chap_credential_pair
pair_parts secrets user_key password_key c h e = grind arith

-- A pair of credentials that `validateChapCredentialPair` accepts and takes for configured has a user
-- name of at most 223 bytes without space, and a secret of 12 to 16 bytes; both are printable.
pub validate_chap_credential_pair-AreUsable :
    (secrets : StringMap) (user_key password_key : String) (c : Credentials)
    → validate_chap_credential_pair secrets user_key password_key ≡ ok c
    → c.configured ≡ true
    → AreUsable c.user c.password
validate_chap_credential_pair-AreUsable secrets user_key password_key c h e =
    let (u, s) = pair_parts secrets user_key password_key c h e in
    let (up, us, ul) = username_bounds c.user u in
    let (sp, sl, su) = secret_bounds c.password s in
    record {
      user_printable = up;
      user_solid = us;
      user_length = ul;
      secret_printable = sp;
      secret_at_least = sl;
      secret_at_most = su;
    }
