-- ===== src/Net.antt =====
-- The functions of Go's package `net` that the driver uses: `SplitHostPort`, `JoinHostPort`, and
-- whether `ParseIP` accepts a text.
pub mod Ip
pub mod HostPort
use Prim.Native.String
use csi_driver_for_windows_s.Prelude.{
  ℕ, Bool, true, false, ◌||◌, ◌&&◌, not, Option, none, some, String, if◌then◌else◌,
}
use csi_driver_for_windows_s.Text.{is_char, contains_func, cut, cut_prefix}

abbrev pub has_char : ℕ → String → Bool
has_char n s = contains_func (is_char n) s

-- `port` behind the colon that ends a host in brackets
port_of : Option String → Option String
port_of none = none
port_of (some port) = if has_char b':' port || has_char b']' port then none else some port

abbrev with_port : String → Option String → Option (String × String)
with_port host none = none
with_port host (some port) = some (host, port)

-- The text behind an opening bracket.
split_bracketed : String → Option (String × String)
unfolding port_of cut cut_prefix contains_func
split_bracketed rest = if has_char b'[' rest then none else elim (cut rest "]") [
  | none ↦ none
  | some (host, after) ↦ with_port host (port_of (cut_prefix after ":"))
]

-- A text that does not begin with a bracket holds one colon.
split_plain : String → Option (String × String)
unfolding cut contains_func
split_plain s = if has_char b'[' s || has_char b']' s then none else elim (cut s ":") [
  | none ↦ none
  | some (host, port) ↦ if has_char b':' port then none else some (host, port)
]

-- `net.SplitHostPort`; an error is `none`.
unfoldable pub split_host_port : String → Option (String × String)
unfolding split_bracketed split_plain cut_prefix
split_host_port s = elim (cut_prefix s "[") [
  | none ↦ split_plain s
  | some rest ↦ split_bracketed rest
]

-- `net.JoinHostPort`
unfoldable pub join_host_port : String → String → String
unfolding contains_func
join_host_port host port =
    if has_char b':' host
    then String.◌++◌ "[" (String.◌++◌ host (String.◌++◌ "]:" port))
    else String.◌++◌ host (String.◌++◌ ":" port)
