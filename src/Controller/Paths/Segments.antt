-- ===== src/Controller/Paths/Segments.antt =====
-- What `validateWindowsPathParam` and `validateTargetPortal` (pkg/iscsi/controllerserver.go) let pass.
use Prim.Native.String
use Prim.Native.Char.{len_utf8}
use csi_driver_for_windows_s.Prelude.{
  true-not-false, ◌≡◌, refl, sym, ap, ◌∙◌, ◌&&◌, Bool-cases, inl, inr, ◌⊎◌, arith, ℕ, ◌+◌, Bool,
  true, false, ◌||◌, Char, String, ◌==◌, ℤ, pos, ◌≤ℤ◌, some, ok, reject_if-eq-ok, with_error,
  with_error-eq-ok, ◌>>=◌, >>=-eq-ok,
}
use csi_driver_for_windows_s.Text.{
  trim_space, contains_func, contains, has_suffix, has_prefix, trim_prefix, is_char,
}
use csi_driver_for_windows_s.Text.Cut.{contains-append, has_suffix-append, has_prefix-append}
use csi_driver_for_windows_s.Text.Chars.{is_control, is_ascii_alpha}
use csi_driver_for_windows_s.Strconv.{parse_int}
use csi_driver_for_windows_s.Net.{split_host_port}
use csi_driver_for_windows_s.Backend.Exec.{invalid_argument}
use csi_driver_for_windows_s.Controller.Params.{validate_tcp_port}
use csi_driver_for_windows_s.Controller.Paths.{
  is_drive_path, is_unc_path, is_windows_absolute_path, is_reserved, has_invalid_from,
  has_invalid_windows_path_char, normalized_path, has_parent_segment, validate_windows_path_param,
  check_host_port, validate_target_portal,
}

-- A character that no Windows path may hold.
pub is_forbidden : Char → Bool
is_forbidden c = is_control c || is_reserved c

contains_forbidden :
    (i : ℕ) (path : String)
    → has_invalid_from i path ≡ false
    → contains_func is_forbidden path ≡ false
unfolding has_invalid_from contains_func is_forbidden
contains_forbidden i String.[] h = refl
contains_forbidden i (String.◌∷◌ c path) h = grind (arith, contains_forbidden (i + len_utf8 c) path)

path_parts :
    (value : String) (required : Bool)
    → validate_windows_path_param value required ≡ ok tt
    → (trim_space value == "") ≡ false
    → (is_windows_absolute_path (trim_space value) ≡ true)
      × (has_parent_segment (normalized_path (trim_space value)) ≡ false)
      × (has_invalid_windows_path_char (normalized_path (trim_space value)) ≡ false)
unfolding validate_windows_path_param
path_parts value required h ne = ground arith

blank_parts :
    (value : String) (required : Bool)
    → validate_windows_path_param value required ≡ ok tt
    → (trim_space value == "") ≡ true
    → required ≡ false
unfolding validate_windows_path_param
blank_parts value required h blank = ground arith

-- A path that begins with a drive and a slash, or with two slashes of one kind.
pub data IsRooted (path : String) : Type 0 where
  is_on_drive :
      (drive colon slash : Char) (rest : String)
      → is_ascii_alpha drive ≡ true
      → is_char b':' colon ≡ true
      → is_char b'/' slash || is_char b'\\' slash ≡ true
      → path ≡ String.◌∷◌ drive (String.◌∷◌ colon (String.◌∷◌ slash rest))
      → IsRooted path
  is_unc : has_prefix path "\\\\" || has_prefix path "//" ≡ true → IsRooted path

-- A path with a segment `..` that has a neighbour.
pub data HasParent (path : String) : Type 0 where
  in_the_middle :
      (before after : String)
      → path ≡ String.◌++◌ before (String.◌++◌ "\\..\\" after)
      → HasParent path
  at_the_end : (before : String) → path ≡ String.◌++◌ before "\\.." → HasParent path
  at_the_front : (after : String) → path ≡ String.◌++◌ "..\\" after → HasParent path

no_parts : (p q r : Bool) → (p || q || r) ≡ false → (p ≡ false) × (q ≡ false) × (r ≡ false)
no_parts p q r h = ground arith

no_parent : (path : String) → has_parent_segment path ≡ false → ¬ (HasParent path)
unfolding has_parent_segment
no_parent path h (in_the_middle before after e) =
    let (p, _, _) =
      no_parts (contains path "\\..\\") (has_suffix path "\\..") (has_prefix path "..\\") h in
    true-not-false
      (sym (contains-append before "\\..\\" after) ∙ ap (λ t. contains t "\\..\\") (sym e) ∙ p)
no_parent path h (at_the_end before e) =
    let (_, p, _) =
      no_parts (contains path "\\..\\") (has_suffix path "\\..") (has_prefix path "..\\") h in
    true-not-false
      (sym (has_suffix-append before "\\..") ∙ ap (λ t. has_suffix t "\\..") (sym e) ∙ p)
no_parent path h (at_the_front after e) =
    let (_, _, p) =
      no_parts (contains path "\\..\\") (has_suffix path "\\..") (has_prefix path "..\\") h in
    true-not-false
      (sym (has_prefix-append "..\\" after) ∙ ap (λ t. has_prefix t "..\\") (sym e) ∙ p)

and_parts : (p q : Bool) → (p && q) ≡ true → (p ≡ true) × (q ≡ true)
and_parts p q h = ground arith

or_cases : (p q : Bool) → (p || q) ≡ true → (p ≡ true) ⊎ (q ≡ true)
or_cases true q h = inl refl
or_cases false q h = inr h

drive-IsRooted : (path : String) → is_drive_path path ≡ true → IsRooted path
unfolding is_drive_path
drive-IsRooted (String.◌∷◌ drive (String.◌∷◌ colon (String.◌∷◌ slash rest))) h =
    let (first, third) = and_parts _ _ h in
    let (letter, second) = and_parts _ _ first in
    is_on_drive drive colon slash rest letter second third refl
drive-IsRooted String.[] h = cc
drive-IsRooted (String.◌∷◌ drive String.[]) h = cc
drive-IsRooted (String.◌∷◌ drive (String.◌∷◌ colon String.[])) h = cc

absolute-IsRooted :
    (path : String) → is_windows_absolute_path path ≡ true → IsRooted (trim_prefix path "\\\\?\\")
unfolding is_windows_absolute_path is_unc_path
absolute-IsRooted path h = elim (or_cases _ _ h) [
  | inl d ↦ drive-IsRooted (trim_prefix path "\\\\?\\") d
  | inr u ↦ is_unc ((and_parts _ _ u).0)
]

-- A path with the backslash in place of each slash, and without the prefix for long paths, that has no
-- segment `..` beside another one, and no character that is forbidden.
pub record IsSafe (path : String) : Type 0 where
  pub is_rooted : IsRooted (trim_prefix path "\\\\?\\")
  pub no_parent : ¬ (HasParent (normalized_path path))
  pub no_forbidden : contains_func is_forbidden (normalized_path path) ≡ false

-- A path parameter that is accepted is blank, and then not required, or, without white space around it, it
-- has these properties. Behind the prefix for long paths it begins with a drive or with two slashes. With
-- backslashes and without that prefix, it has neither a segment `..` beside another one nor a control
-- character nor one of `<>"|?*`.
pub validate_windows_path_param-IsSafe :
    (value : String) (required : Bool)
    → validate_windows_path_param value required ≡ ok tt
    → ((trim_space value == "") ≡ true × (required ≡ false)) ⊎ IsSafe (trim_space value)
unfolding validate_windows_path_param has_invalid_windows_path_char
validate_windows_path_param-IsSafe value required h = elim (Bool-cases (trim_space value == "")) [
  | inl blank ↦ inl (blank, blank_parts value required h blank)
  | inr given ↦
      let (absolute, parent, invalid) = path_parts value required h given in
      inr (record {
        is_rooted = absolute-IsRooted (trim_space value) absolute;
        no_parent = no_parent (normalized_path (trim_space value)) parent;
        no_forbidden = contains_forbidden 0 (normalized_path (trim_space value)) invalid;
      })
]

-- A text that names a TCP port.
pub record IsPort (text : String) : Type 0 where
  pub port : ℤ
  pub reads : parse_int text ≡ some port
  pub at_least : pos 1 ≤ℤ port
  pub at_most : port ≤ℤ pos 65535

port_bounds : (port : ℤ) → validate_tcp_port port ≡ ok tt → (pos 1 ≤ℤ port) × (port ≤ℤ pos 65535)
unfolding validate_tcp_port
port_bounds port h = ground arith

check_host_port-IsPort :
    (host text : String)
    → check_host_port (host, text) ≡ ok tt
    → ((trim_space host == "") ≡ false) × IsPort text
unfolding check_host_port
check_host_port-IsPort host text h =
    let (named, k) =
      reject_if-eq-ok (trim_space host == "") invalid_argument
        (with_error invalid_argument (parse_int text) >>= validate_tcp_port) h in
    let (port, e, valid) =
      >>=-eq-ok (with_error invalid_argument (parse_int text)) validate_tcp_port k in
    let (low, high) = port_bounds port valid in
    (
      named,
      record {
        port = port;
        reads = with_error-eq-ok invalid_argument (parse_int text) e;
        at_least = low;
        at_most = high;
      },
    )

portal-check :
    (value : String) (parts : String × String)
    → validate_target_portal value ≡ ok tt
    → split_host_port (trim_space value) ≡ some parts
    → check_host_port parts ≡ ok tt
unfolding validate_target_portal
portal-check value parts h e = ground arith

-- A target portal that is accepted and that splits into a host and a port has a host that is not blank
-- and a port from 1 to 65535.
pub validate_target_portal-IsPort :
    (value host text : String)
    → validate_target_portal value ≡ ok tt
    → split_host_port (trim_space value) ≡ some (host, text)
    → ((trim_space host == "") ≡ false) × IsPort text
validate_target_portal-IsPort value host text h e =
    check_host_port-IsPort host text (portal-check value (host, text) h e)
