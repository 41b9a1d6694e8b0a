-- ===== src/Iscsilib/Sessions.antt =====
-- The sessions and the transport that iscsiadm prints: pkg/iscsilib/iscsi.go
use csi_driver_for_windows_s.Prelude.{
  Bool, ◌&&◌, String, ◌==◌, Option, none, some, List, [], ◌∷◌, if◌then◌else◌,
}
use csi_driver_for_windows_s.Text.{trim_space, is_char, cut, cut_prefix, split, fields_func}
use csi_driver_for_windows_s.Text.Chars.{is_space}

-- `iscsiSession`, without the number of the session, which is read nowhere.
pub record IscsiSession : Type 0 where
  pub protocol : String
  pub portal : String
  pub iqn : String
  pub name : String

abbrev pub first_part : List String → String
first_part [] = ""
first_part (part ∷ parts) = part

-- `strings.Split(iqn, ":")[1]`, none where the index is out of range.
abbrev second_part : List String → Option String
second_part (first ∷ second ∷ rest) = some second
second_part _ = none

-- What a line is: less than four fields are passed over, and an IQN without a colon makes the code panic.
pub data SessionLine : Type 0 where
  passed_over panics : SessionLine
  session_of : IscsiSession → SessionLine

session_named : (protocol portal iqn : String) → Option String → SessionLine
session_named protocol portal iqn none = panics
session_named protocol portal iqn (some name) =
    session_of (record { protocol = protocol; portal = portal; iqn = iqn; name = name })

unfoldable pub session_line : List String → SessionLine
unfolding split session_named
session_line (driver ∷ id ∷ portal ∷ iqn ∷ rest) =
    session_named (first_part (split (is_char b':') driver))
      (first_part (split (is_char b',') portal)) iqn (second_part (split (is_char b':') iqn))
session_line _ = passed_over

with_line : SessionLine → Option (List IscsiSession) → Option (List IscsiSession)
with_line passed_over later = later
with_line panics later = none
with_line (session_of s) none = none
with_line (session_of s) (some later) = some (s ∷ later)

lines_sessions : List String → Option (List IscsiSession)
unfolding session_line with_line fields_func is_space
lines_sessions [] = some []
lines_sessions (line ∷ lines) =
    with_line (session_line (fields_func is_space line)) (lines_sessions lines)

-- `parseSessions`, none where it panics.
unfoldable pub parse_sessions : String → Option (List IscsiSession)
unfolding lines_sessions split trim_space
parse_sessions lines = lines_sessions (split (is_char 10) (trim_space lines))

-- The test of `sessionExists`
abbrev pub is_session : (portal target_iqn : String) → IscsiSession → Bool
is_session portal target_iqn s = target_iqn == s.iqn && portal == s.portal

-- `iface.transport_name = ` at the front, where the dot stands for any character of a line.
transport_line : String → Option String
unfolding cut_prefix
transport_line s = elim (cut_prefix s "iface") [
  | none ↦ none
  | some String.[] ↦ none
  | some (String.◌∷◌ c rest) ↦ if is_char 10 c then none else cut_prefix rest "transport_name = "
]

until_newline : Option String → Option String
unfolding cut
until_newline none = none
until_newline (some rest) = elim (cut rest "\n") [ none ↦ none | some (name, later) ↦ some name ]

-- The first match of the regular expression.
find_transport : String → Option String
unfolding transport_line until_newline
find_transport String.[] = none
find_transport (String.◌∷◌ c s) =
    let later = find_transport s in
    elim (until_newline (transport_line (String.◌∷◌ c s))) [ none ↦ later | some name ↦ some name ]

-- `extractTransportName`
unfoldable pub extract_transport_name : String → String
unfolding find_transport
extract_transport_name output = elim (find_transport output) [
  | none ↦ ""
  | some name ↦ if name == "" then "tcp" else name
]
