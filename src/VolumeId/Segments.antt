-- ===== src/VolumeId/Segments.antt =====
-- `pathSegments`, `defaultPort` and `hostOnly` of pkg/iscsi/volumeid.go
use csi_driver_for_windows_s.Prelude.{
  String, ◌==◌, Option, none, some, List, [], ◌∷◌, if◌then◌else◌,
}
use csi_driver_for_windows_s.Text.{trim_left, trim_right, split, is_char}
use csi_driver_for_windows_s.Net.{has_char, split_host_port, join_host_port}

module _ (path_unescape : String → Option String) where
  unescape_segment : String → String
  unescape_segment segment = elim (path_unescape segment) [
    | none ↦ segment
    | some decoded ↦ decoded
  ]

  unescape_segments : List String → List String
  unescape_segments [] = []
  unescape_segments (segment ∷ rest) =
      let decoded = unescape_segments rest in
      if segment == "" then decoded else unescape_segment segment ∷ decoded

  unfoldable pub path_segments : String → List String
  unfolding unescape_segments unescape_segment split trim_left trim_right
  path_segments path =
      unescape_segments
        (split (is_char b'/') (trim_right (is_char b'/') (trim_left (is_char b'/') path)))

unfoldable pub default_port : String → String → String
default_port host port =
    if host == "" then "" else if has_char b':' host then host else join_host_port host port

unfoldable pub host_only : String → String
host_only host = elim (split_host_port host) [ none ↦ host | some (h, port) ↦ h ]
