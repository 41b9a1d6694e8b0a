-- ===== src/Node/Options.antt =====
-- Mount options of the node service (pkg/iscsi/nodeserver.go).
pub mod Secrets
use csi_driver_for_windows_s.Prelude.{
  Bool, true, false, ◌&&◌, not, String, ◌==◌, Option, none, some, List, [], ◌∷◌, ◌++◌, StringMap,
  if◌then◌else◌, any, lookup,
}
use csi_driver_for_windows_s.Text.{trim_space, to_lower, cut, has_prefix, split, is_char}
use csi_driver_for_windows_s.Strconv.{one_of}
use csi_driver_for_windows_s.Node.Host.{
  Host, NodeExec, make_call, mount, mount_sensitive, format_and_mount, format_and_mount_sensitive,
}

-- The kinds of access of a `csi.VolumeCapability`.
pub data Access : Type 0 where
  no_access block : Access
  mounted : (fs_type : String) (mount_flags : List String) → Access

-- `getStr`, with its second result in an `Option`
unfoldable pub get_str : StringMap → String → Option String
unfolding lookup trim_space
get_str m key = elim (lookup key m) [
  | none ↦ none
  | some v ↦ if trim_space v == "" then none else some (trim_space v)
]

-- The loop `opt = strings.TrimSpace(opt); if opt != "" { opts = append(opts, opt) }`.
unfoldable pub trimmed_options : List String → List String
unfolding trim_space
trimmed_options [] = []
trimmed_options (opt ∷ opts) =
    let rest = trimmed_options opts in if trim_space opt == "" then rest else trim_space opt ∷ rest

unfoldable pub fs_type_from_capability : Access → String
unfolding trim_space
fs_type_from_capability (mounted fs_type flags) = trim_space fs_type
fs_type_from_capability _ = ""

unfoldable pub mount_options_from_capability : Access → List String
unfolding trimmed_options
mount_options_from_capability (mounted fs_type flags) = trimmed_options flags
mount_options_from_capability _ = []

unfoldable pub append_mount_options : List String → String → List String
unfolding trimmed_options split
append_mount_options opts raw = opts ++ trimmed_options (split (is_char b',') raw)

unfoldable pub mount_options_from_context : StringMap → List String
unfolding get_str append_mount_options
mount_options_from_context vc = elim (get_str vc "mountOptions") [
  | none ↦ []
  | some raw ↦ append_mount_options [] raw
]

-- `switch strings.TrimSpace(key)`
abbrev pub is_secret_key : String → Bool
is_secret_key key =
    one_of ("password" ∷ "pass" ∷ "credentials" ∷ "credential" ∷ []) (trim_space key)

unfoldable pub is_sensitive_mount_option : String → Bool
unfolding trim_space to_lower cut
is_sensitive_mount_option opt = elim (cut (to_lower (trim_space opt)) "=") [
  | none ↦ false
  | some (key, value) ↦ is_secret_key key
]

-- The normal options and the sensitive ones.
pub record SplitOptions : Type 0 where
  pub normal : List String
  pub sensitive : List String

-- The loop of `splitSensitiveMountOptions`, with one option put in front of what is left.
abbrev pub put_option : Bool → String → SplitOptions → SplitOptions
put_option true opt rest = record rest { sensitive = opt ∷ rest.sensitive }
put_option false opt rest = record rest { normal = opt ∷ rest.normal }

unfoldable pub split_sensitive_mount_options : List String → SplitOptions
unfolding is_sensitive_mount_option trim_space
split_sensitive_mount_options [] = record { normal = []; sensitive = [] }
split_sensitive_mount_options (opt ∷ opts) =
    let rest = split_sensitive_mount_options opts in
    let trimmed = trim_space opt in
    if trimmed == "" then rest else put_option (is_sensitive_mount_option trimmed) trimmed rest

unfoldable pub mount_options_read_only : List String → Bool
unfolding trim_space to_lower
mount_options_read_only opts =
    any (λ opt. one_of ("ro" ∷ "readonly" ∷ []) (to_lower (trim_space opt))) opts

unfoldable pub append_option_if_missing : List String → String → String → List String
unfolding to_lower has_prefix
append_option_if_missing opts prefix value =
    if value == ""
    then opts
    else if not (prefix == "") && any (λ opt. has_prefix (to_lower opt) (to_lower prefix)) opts
    then opts
    else opts ++ value ∷ []

module _ {S : Type 0} (h : Host S) where
  -- `mountPrepared`, behind `if err != nil { return … codes.Internal }`
  unfoldable pub mount_prepared :
      (source target fs_type : String) (options sensitive : List String) → NodeExec S (Unit {0})
  unfolding make_call
  mount_prepared source target fs_type options [] =
      make_call h (mount source target fs_type options)
  mount_prepared source target fs_type options (secret ∷ secrets) =
      make_call h (mount_sensitive source target fs_type options (secret ∷ secrets))

  -- `formatAndMountPrepared`, likewise
  unfoldable pub format_and_mount_prepared :
      (source target fs_type : String) (options sensitive : List String) → NodeExec S (Unit {0})
  unfolding make_call
  format_and_mount_prepared source target fs_type options [] =
      make_call h (format_and_mount source target fs_type options)
  format_and_mount_prepared source target fs_type options (secret ∷ secrets) =
      make_call h (format_and_mount_sensitive source target fs_type options (secret ∷ secrets))
