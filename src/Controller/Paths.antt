-- ===== src/Controller/Paths.antt =====
-- The checks of Windows paths, target portals and iSCSI names (pkg/iscsi/controllerserver.go).
pub mod Segments
use Prim.Native.String
use Prim.Native.Char.{len_utf8}
use csi_driver_for_windows_s.Prelude.{
  ℕ, suc, ◌+◌, Bool, true, false, ◌||◌, ◌&&◌, not, Char, String, len, ◌==◌, ltb, leb, nat_eq, ℤ,
  Option, none, some, List, [], ◌∷◌, length, Result, ok, err, reject_if, with_error, ◌>>=◌, ◌>>◌,
  if◌then◌else◌,
}
use csi_driver_for_windows_s.Text.{
  trim_space, trim_left, trim_right, contains, contains_func, has_prefix, has_suffix, trim_prefix,
  replace_char, remove_char, is_char, is_slash, fields_func, cut, to_lower,
}
use csi_driver_for_windows_s.Text.Chars.{is_space, is_control, is_digit, is_ascii_alpha}
use csi_driver_for_windows_s.Strconv.{parse_int}
use csi_driver_for_windows_s.Net.{has_char, split_host_port}
use csi_driver_for_windows_s.Net.Ip.{is_ip}
use csi_driver_for_windows_s.Backend.Exec.{Code, invalid_argument}
use csi_driver_for_windows_s.Controller.Params.{validate_tcp_port}

-- `X:\` or `X:/` at the head of a path.
is_drive_path : String → Bool
is_drive_path (String.◌∷◌ drive (String.◌∷◌ colon (String.◌∷◌ slash rest))) =
    is_ascii_alpha drive && is_char b':' colon && is_slash slash
is_drive_path _ = false

two_named : List String → Bool
two_named (server ∷ (share ∷ rest)) = not (trim_space server == "") && not (trim_space share == "")
two_named _ = false

-- `\\server\share`, with either slash.
is_unc_path : String → Bool
is_unc_path path =
    (has_prefix path "\\\\" || has_prefix path "//")
    && two_named (fields_func is_slash (trim_left is_slash path))

pub is_windows_absolute_path : String → Bool
is_windows_absolute_path path =
    let trimmed = trim_prefix path "\\\\?\\" in is_drive_path trimmed || is_unc_path trimmed

is_reserved : Char → Bool
is_reserved c =
    is_char b'<' c
    || is_char b'>' c
    || is_char b'"' c
    || is_char b'|' c
    || is_char b'?' c
    || is_char b'*' c

-- The loop of `hasInvalidWindowsPathChar` from the byte position `i` on; a colon may stand at
-- position 1.
has_invalid_from : ℕ → String → Bool
has_invalid_from i String.[] = false
has_invalid_from i (String.◌∷◌ c s) =
    is_control c
    || is_reserved c
    || (is_char b':' c && not (nat_eq i 1))
    || has_invalid_from (i + len_utf8 c) s

pub has_invalid_windows_path_char : String → Bool
has_invalid_windows_path_char path = has_invalid_from 0 path

-- `strings.ReplaceAll(path, "/", "\\")` without the prefix `\\?\`
pub normalized_path : String → String
normalized_path path = trim_prefix (replace_char b'/' "\\" path) "\\\\?\\"

pub has_parent_segment : String → Bool
has_parent_segment path = contains path "\\..\\" || has_suffix path "\\.." || has_prefix path "..\\"

-- `validateWindowsPathParam`
pub validate_windows_path_param : String → Bool → Result Code (Unit {0})
validate_windows_path_param value required =
    let path = trim_space value in
    if path == "" then reject_if required invalid_argument else do
      reject_if (not (is_windows_absolute_path path)) invalid_argument
      reject_if (has_parent_segment (normalized_path path)) invalid_argument
      reject_if (has_invalid_windows_path_char (normalized_path path)) invalid_argument

pub join_windows_path : String → String → String
join_windows_path parent child =
    let dir = trim_right is_slash (trim_space parent) in
    let file = trim_left is_slash (trim_space child) in
    if dir == "" then file else if file == "" then dir else String.◌++◌ dir (String.◌∷◌ "\\" file)

-- The checks of a portal that splits into a host and a port.
check_host_port : String × String → Result Code (Unit {0})
check_host_port (host, port_text) = do
  reject_if (trim_space host == "") invalid_argument
  port ← with_error invalid_argument (parse_int port_text)
  validate_tcp_port port

pub validate_target_portal : String → Result Code (Unit {0})
validate_target_portal value = do
  let portal = trim_space value
  reject_if (portal == "") invalid_argument
  reject_if (contains portal "://" || contains_func is_slash portal) invalid_argument
  reject_if (contains_func is_space portal) invalid_argument
  elim (split_host_port portal) [
    | none ↦ reject_if (has_char b':' portal && not (is_ip portal)) invalid_argument
    | some parts ↦ check_host_port parts
  ]

is_alphanumeric : Char → Bool
is_alphanumeric c = is_ascii_alpha c || is_digit c

drop_matching : List (Char → Bool) → String → Option String
drop_matching [] s = some s
drop_matching (p ∷ ps) String.[] = none
drop_matching (p ∷ ps) (String.◌∷◌ c s) = if p c then drop_matching ps s else none

-- The head of the pattern `^iqn\.[0-9]{4}-[0-9]{2}\.[A-Za-z0-9][A-Za-z0-9.-]*$`.
abbrev iqn_head : List (Char → Bool)
iqn_head =
    is_char b'i'
    ∷ is_char b'q'
    ∷ is_char b'n'
    ∷ is_char b'.'
    ∷ is_digit
    ∷ is_digit
    ∷ is_digit
    ∷ is_digit
    ∷ is_char b'-'
    ∷ is_digit
    ∷ is_digit
    ∷ is_char b'.'
    ∷ is_alphanumeric
    ∷ []

matches_iqn_prefix : String → Bool
matches_iqn_prefix s = elim (drop_matching iqn_head s) [
  | none ↦ false
  | some rest ↦
      not (contains_func (λ c. not (is_alphanumeric c || is_char b'.' c || is_char b'-' c)) rest)
]

pub validate_iqn_prefix : String → Result Code (Unit {0})
validate_iqn_prefix prefix =
    let value = trim_space prefix in
    if value == ""
    then ok tt
    else reject_if
        (contains_func is_space value || has_char b':' value || not (matches_iqn_prefix value))
        invalid_argument

pub validate_iqn_value : String → Result Code (Unit {0})
validate_iqn_value value = do
  let iqn = trim_space value
  reject_if (iqn == "") invalid_argument
  (prefix, suffix) ← with_error invalid_argument (cut iqn ":")
  reject_if (trim_space suffix == "") invalid_argument
  validate_iqn_prefix prefix
  reject_if
      (contains_func is_space suffix
        || contains_func is_slash suffix
        || has_invalid_windows_path_char (remove_char b':' suffix))
      invalid_argument

pub validate_iscsi_target_name : String → Result Code (Unit {0})
validate_iscsi_target_name name = do
  let value = trim_space name
  reject_if (value == "") invalid_argument
  reject_if (ltb 223 (len value)) invalid_argument
  if has_prefix (to_lower value) "iqn."
      then validate_iqn_value value
      else reject_if
          (contains_func is_space value
            || has_invalid_windows_path_char value
            || contains_func is_slash value)
          invalid_argument

-- What a run of these checks opens.
unfoldable pub path_checks : Unit {0}
unfolding is_drive_path two_named is_unc_path is_windows_absolute_path is_reserved has_invalid_from
    has_invalid_windows_path_char normalized_path has_parent_segment validate_windows_path_param
    join_windows_path check_host_port validate_target_portal is_alphanumeric drop_matching
    matches_iqn_prefix validate_iqn_prefix validate_iqn_value validate_iscsi_target_name
path_checks = tt
