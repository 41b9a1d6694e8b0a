-- ===== src/Controller/Params.antt =====
-- The parameters of a storage class, read and checked (pkg/iscsi/controllerserver.go).
pub mod Choice
pub mod Capacity
use Prim.Native.String
use csi_driver_for_windows_s.Prelude.{
  ℕ, ◌*◌, ◌^◌, Bool, true, false, ◌||◌, ◌&&◌, not, String, ◌==◌, ℤ, pos, ltb_ℤ, is_positive, Option,
  none, some, StringMap, lookup, index, List, [], ◌∷◌, ◌++◌, Result, ok, err, reject_if, with_error,
  ◌>>=◌, ◌>>◌, if◌then◌else◌,
}
use csi_driver_for_windows_s.Text.{trim_space, to_lower, split, non_empty, is_char}
use csi_driver_for_windows_s.Strconv.{one_of, parse_int, parse_uint}
use csi_driver_for_windows_s.Driver.{Driver, directory_backend, vhdx_backend}
use csi_driver_for_windows_s.VolumeId.Scheme.{
  Protocol, iscsi, nfs, smb, unset, other, protocol_of, protocol_name,
}
use csi_driver_for_windows_s.Backend.Exec.{Code, invalid_argument}

-- The text of a parameter if it is there and not blank, without the space around it.
keep_value : String → Option String
keep_value v = if v == "" then none else some v

pub get_string_param : StringMap → String → Option String
get_string_param params key = elim (lookup key params) [
  | none ↦ none
  | some v ↦ keep_value (trim_space v)
]

-- `v, _ := getStringParam(params, key)`: the trimmed text, empty where the key is missing.
pub string_param : StringMap → String → String
string_param params key = trim_space (index key params)

-- The struct `csi.CapacityRange`.
pub record CapacityRange : Type 0 where
  pub required_bytes : ℤ
  pub limit_bytes : ℤ

abbrev at_least : ℤ → ℤ → ℤ
at_least low size = if ltb_ℤ size low then low else size

range_bytes : ℤ → ℤ → ℤ → Result Code ℤ
range_bytes low req lim =
    if is_positive req && is_positive lim
    then if ltb_ℤ lim req then err invalid_argument else ok (at_least low req)
    else if is_positive req
    then ok (at_least low req)
    else if is_positive lim
    then ok (at_least low lim)
    else ok low

-- `requiredBytesFromRange` with a minimum in GiB.
pub required_bytes_from_range : Option CapacityRange → ℕ → Result Code ℤ
required_bytes_from_range none min_gib = ok (pos (min_gib * 2 ^ 30))
required_bytes_from_range (some range) min_gib =
    range_bytes (pos (min_gib * 2 ^ 30)) range.required_bytes range.limit_bytes

-- The words for a Boolean.
read_bool : String → Result Code Bool
read_bool raw =
    let word = to_lower raw in
    if one_of ("1" ∷ "true" ∷ "yes" ∷ "y" ∷ "on" ∷ []) word
    then ok true
    else if one_of ("0" ∷ "false" ∷ "no" ∷ "n" ∷ "off" ∷ []) word
    then ok false
    else err invalid_argument

-- A parameter that may be missing.
abbrev optional {ℓ} :
    {A : Type ℓ} → (String → Result Code A) → Option String → Result Code (Option A)
optional read none = ok none
optional read (some raw) = do value ← read raw; ok (some value)

pub parse_bool_param : StringMap → String → Result Code (Option Bool)
parse_bool_param params key = optional read_bool (get_string_param params key)

pub parse_int_param : StringMap → String → Result Code (Option ℤ)
parse_int_param params key =
    optional (λ raw. with_error invalid_argument (parse_int raw)) (get_string_param params key)

pub parse_uint32_param : StringMap → String → Result Code ℕ
parse_uint32_param params key = elim (get_string_param params key) [
  | none ↦ ok 0
  | some raw ↦ with_error invalid_argument (parse_uint 32 raw)
]

unfoldable pub validate_tcp_port : ℤ → Result Code (Unit {0})
validate_tcp_port port = reject_if (ltb_ℤ port (pos 1) || ltb_ℤ (pos 65535) port) invalid_argument

checked_port : ℤ → Result Code ℤ
checked_port port = do validate_tcp_port port; ok port

pub parse_tcp_port_param : StringMap → String → ℤ → Result Code ℤ
parse_tcp_port_param params key fallback = elim (get_string_param params key) [
  | none ↦ checked_port fallback
  | some raw ↦ do port ← with_error invalid_argument (parse_int raw); checked_port port
]

trim_all : List String → List String
trim_all [] = []
trim_all (part ∷ parts) = trim_space part ∷ trim_all parts

-- `splitCSVParam` of pkg/iscsi/backend_fileshare.go
pub split_csv_param : String → List String
split_csv_param value = non_empty (trim_all (split (is_char b',') value))

-- The share backend that is asked for, or the default.
requested_backend : String → Option String → String
requested_backend default_backend none = default_backend
requested_backend default_backend (some raw) = to_lower raw

pub file_share_backend_from_params : Driver → StringMap → Result Code String
file_share_backend_from_params d params = do
  let own = d.file_share_backend
  let default_backend = if own == "" then directory_backend else own
  let backend = requested_backend default_backend (get_string_param params "shareBackend")
  reject_if (not (backend == directory_backend || backend == vhdx_backend)) invalid_argument
  reject_if (not (own == "") && not (backend == own)) invalid_argument
  ok backend

-- `cs.Driver.protocol != "" && protocol != cs.Driver.protocol`, for a known protocol.
pub conflicts : Driver → Protocol → Bool
conflicts d protocol =
    let own = protocol_name d.protocol in not (own == "") && not (own == protocol_name protocol)

known : Driver → Protocol → Result Code Protocol
known d (other s) = err invalid_argument
known d unset = elim d.protocol [ unset ↦ ok iscsi | own ↦ ok own ]
known d protocol = do reject_if (conflicts d protocol) invalid_argument; ok protocol

pub protocol_from_params : Driver → StringMap → Result Code Protocol
protocol_from_params d params =
    known d (protocol_of (to_lower (trim_space (index "protocol" params))))

-- What a run of these functions opens.
unfoldable pub parameters : Unit {0}
unfolding keep_value get_string_param string_param range_bytes required_bytes_from_range read_bool
    parse_bool_param parse_int_param parse_uint32_param validate_tcp_port checked_port
    parse_tcp_port_param trim_all split_csv_param requested_backend file_share_backend_from_params
    conflicts known protocol_from_params
parameters = tt
