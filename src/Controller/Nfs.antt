-- ===== src/Controller/Nfs.antt =====
-- The NFS parameters of a storage class (pkg/iscsi/controllerserver.go).
pub mod Flavors
use csi_driver_for_windows_s.Prelude.{
  ℕ, Bool, true, false, ◌||◌, not, String, ◌==◌, ltb, Option, none, some, StringMap, index, List,
  [], ◌∷◌, ◌++◌, Result, ok, err, reject_if, with_error, ◌>>=◌, ◌>>◌, if◌then◌else◌, any,
}
use csi_driver_for_windows_s.Text.{trim_space, to_lower}
use csi_driver_for_windows_s.Strconv.{one_of, parse_bool}
use csi_driver_for_windows_s.Backend.{NfsShareOptions}
use csi_driver_for_windows_s.Backend.Exec.{Code, invalid_argument}
use csi_driver_for_windows_s.Controller.Params.{
  get_string_param, parse_bool_param, parse_int_param, split_csv_param,
}

-- `strings.ToLower(strings.TrimSpace(value))`
abbrev pub word : String → String
word value = to_lower (trim_space value)

pub normalize_nfs_permission : String → Result Code String
normalize_nfs_permission value =
    if one_of ("" ∷ "rw" ∷ "readwrite" ∷ "read-write" ∷ []) (word value)
    then ok "readwrite"
    else if one_of ("ro" ∷ "readonly" ∷ "read-only" ∷ []) (word value)
    then ok "readonly"
    else err invalid_argument

pub normalize_nfs_authentication_flavor : String → Result Code String
normalize_nfs_authentication_flavor value =
    if word value == "sys"
    then ok "sys"
    else if one_of ("krb5" ∷ "kerberos" ∷ []) (word value)
    then ok "krb5"
    else if one_of ("krb5i" ∷ "kerberos-integrity" ∷ []) (word value)
    then ok "krb5i"
    else if one_of ("krb5p" ∷ "kerberos-privacy" ∷ []) (word value)
    then ok "krb5p"
    else err invalid_argument

-- The loop of `normalizeNfsAuthentication`. `seen` is the set of the values in `auth`.
collect_flavors : List String → List String → Result Code (List String)
collect_flavors auth [] = ok auth
collect_flavors auth (raw ∷ rest) = do
  flavor ← normalize_nfs_authentication_flavor raw
  collect_flavors (if one_of auth flavor then auth else auth ++ flavor ∷ []) rest

-- A nil slice and an empty one are the same list.
pub normalize_nfs_authentication : String → Result Code (List String)
normalize_nfs_authentication value = collect_flavors [] (split_csv_param value)

-- The last checks of `nfsKerberosAuthentication`.
kerberos_flavor : String → Result Code (List String × String)
kerberos_flavor value = do
  flavor ← normalize_nfs_authentication_flavor value
  reject_if (flavor == "sys") invalid_argument
  ok (flavor ∷ [], flavor)

pub nfs_kerberos_authentication : String → Result Code (List String × String)
nfs_kerberos_authentication value =
    if trim_space value == "" then ok ([], "") else elim (parse_bool (trim_space value)) [
      | some false ↦ ok ([], "")
      | some true ↦ ok ("krb5" ∷ [], "krb5")
      | none ↦ kerberos_flavor (trim_space value)
    ]

-- The map `rank`; 0 where a value is missing.
abbrev pub rank : String → ℕ
rank value =
    if value == "sys"
    then 1
    else if value == "krb5"
    then 2
    else if value == "krb5i"
    then 3
    else if value == "krb5p"
    then 4
    else 0

prefer : String → List String → String
prefer best [] = best
prefer best (value ∷ rest) = prefer (if ltb (rank best) (rank value) then value else best) rest

pub preferred_nfs_mount_authentication : List String → String
preferred_nfs_mount_authentication auth = prefer "" auth

pub nfs_authentication_param : StringMap → String
nfs_authentication_param params = elim (get_string_param params "nfsAuthentication") [
  | some v ↦ v
  | none ↦ elim (get_string_param params "nfsauthentication") [ some v ↦ v | none ↦ "" ]
]

pub normalize_nfs_client_type : String → Result Code String
normalize_nfs_client_type value =
    if one_of ("" ∷ "host" ∷ []) (word value)
    then ok "host"
    else if one_of ("clientgroup" ∷ "client-group" ∷ []) (word value)
    then ok "clientgroup"
    else if one_of ("netgroup" ∷ "net-group" ∷ []) (word value)
    then ok "netgroup"
    else err invalid_argument

requested_mount : Option String → Result Code String
requested_mount none = ok ""
requested_mount (some v) = normalize_nfs_authentication_flavor v

-- Without an authentication list both values come from `nfsKerberos`.
with_kerberos : String → List String → String → Result Code (List String × String)
with_kerberos kerberos [] mount = nfs_kerberos_authentication kerberos
with_kerberos kerberos (flavor ∷ rest) mount = ok (flavor ∷ rest, mount)

-- The flavours of the share, and the one that is asked for to mount it.
nfs_authentications : StringMap → Result Code (List String × String)
nfs_authentications params = do
  listed ← normalize_nfs_authentication (nfs_authentication_param params)
  mount ← requested_mount (get_string_param params "nfsMountAuthentication")
  with_kerberos (index "nfsKerberos" params) listed mount

pub nfs_options_from_params : StringMap → Result Code NfsShareOptions
nfs_options_from_params params = do
  allow_root ← parse_bool_param params "nfsAllowRootAccess"
  anonymous ← parse_bool_param params "nfsEnableAnonymousAccess"
  unmapped ← parse_bool_param params "nfsEnableUnmappedAccess"
  uid ← parse_int_param params "nfsAnonymousUid"
  gid ← parse_int_param params "nfsAnonymousGid"
  permission ← normalize_nfs_permission (index "nfsPermission" params)
  (authentication, mount) ← nfs_authentications params
  client_type ← normalize_nfs_client_type (index "nfsClientType" params)
  ok (record {
    client_type = client_type;
    permission = permission;
    allow_root_access = allow_root;
    authentication = authentication;
    mount_authentication =
        if mount == "" then preferred_nfs_mount_authentication authentication else mount;
    anonymous_uid = uid;
    anonymous_gid = gid;
    language_encoding = trim_space (index "nfsLanguageEncoding" params);
    enable_anonymous_access = anonymous;
    enable_unmapped_access = unmapped;
  })

-- What a run of these functions opens.
unfoldable pub nfs_options : Unit {0}
unfolding normalize_nfs_permission normalize_nfs_authentication_flavor collect_flavors
    normalize_nfs_authentication kerberos_flavor nfs_kerberos_authentication prefer
    preferred_nfs_mount_authentication nfs_authentication_param normalize_nfs_client_type
    requested_mount with_kerberos nfs_authentications nfs_options_from_params
nfs_options = tt
