-- ===== src/Examples/Params.antt =====
-- Examples of parameters and secrets.
use csi_driver_for_windows_s.Text.{has_suffix}
use csi_driver_for_windows_s.Text.{replace_char}
use csi_driver_for_windows_s.Text.{contains}
use csi_driver_for_windows_s.Text.Chars.{is_ascii_alpha}
use csi_driver_for_windows_s.Text.{trim_prefix}
use csi_driver_for_windows_s.Text.Chars.{is_control}
use csi_driver_for_windows_s.Prelude.{lookup}
use csi_driver_for_windows_s.Text.{split}
use csi_driver_for_windows_s.Text.{non_empty}
use csi_driver_for_windows_s.Prelude.{index}
use csi_driver_for_windows_s.Text.{to_lower}
use csi_driver_for_windows_s.VolumeId.Scheme.{protocol_of}
use csi_driver_for_windows_s.Prelude.{
  ◌≡◌, refl, true, false, ok, ◌==◌, [], ◌∷◌, pos, some, none, StringMap, All, ◌⊎◌,
}
use csi_driver_for_windows_s.Text.{trim_space, contains_func}
use csi_driver_for_windows_s.Strconv.{parse_int}
use csi_driver_for_windows_s.Net.{split_host_port}
use csi_driver_for_windows_s.Driver.{
  vhdx_backend, single_node_writer, new_named_protocol_driver_with_share_backend,
}
use csi_driver_for_windows_s.Driver.Modes.{advertises, supports_access_mode-advertises}
use csi_driver_for_windows_s.VolumeId.Scheme.{nfs}
use csi_driver_for_windows_s.Backend.{NfsShareOptions}
use csi_driver_for_windows_s.Controller.Ids.{supports_access_mode_for_protocol}
use csi_driver_for_windows_s.Controller.Params.{
  parameters, CapacityRange, required_bytes_from_range, protocol_from_params,
}
use csi_driver_for_windows_s.Controller.Params.Capacity.{IsFit, required_bytes_from_range-IsFit}
use csi_driver_for_windows_s.Controller.Nfs.{
  nfs_options, normalize_nfs_authentication, nfs_options_from_params,
}
use csi_driver_for_windows_s.Controller.Nfs.Flavors.{
  is_flavor, AreDistinct, normalize_nfs_authentication-AreFlavors, nfs_options_from_params-mount,
}
use csi_driver_for_windows_s.Controller.Chap.{chap, Credentials, validate_chap_credential_pair}
use csi_driver_for_windows_s.Controller.Chap.Bounds.{
  AreUsable, validate_chap_credential_pair-AreUsable,
}
use csi_driver_for_windows_s.Controller.Paths.{
  path_checks, validate_windows_path_param, validate_target_portal,
}
use csi_driver_for_windows_s.Controller.Paths.Segments.{
  IsSafe, IsPort, validate_windows_path_param-IsSafe, validate_target_portal-IsPort,
}
use csi_driver_for_windows_s.Examples.{example_driver}

abbrev range : CapacityRange
range = record { required_bytes = pos 5; limit_bytes = pos 1000 }

minimum : required_bytes_from_range (some range) 1 ≡ ok (pos 1073741824)
unfolding parameters
minimum = refl

required_bytes_from_range-IsFit_example : IsFit 1 range (pos 1073741824)
required_bytes_from_range-IsFit_example =
    required_bytes_from_range-IsFit range 1 (pos 1073741824) minimum

nfs_asked : protocol_from_params example_driver (("protocol", " NFS ") ∷ []) ≡ ok nfs
unfolding parameters protocol_of to_lower trim_space index example_driver
nfs_asked = refl

flavors : normalize_nfs_authentication "krb5, kerberos,sys" ≡ ok ("krb5" ∷ "sys" ∷ [])
unfolding nfs_options parameters non_empty split trim_space to_lower
flavors = refl

normalize_nfs_authentication-AreFlavors_example :
    AreDistinct ("krb5" ∷ "sys" ∷ [])
    × All (λ flavor. is_flavor flavor ≡ true) ("krb5" ∷ "sys" ∷ [])
normalize_nfs_authentication-AreFlavors_example =
    normalize_nfs_authentication-AreFlavors "krb5, kerberos,sys" ("krb5" ∷ "sys" ∷ []) flavors

abbrev mount_only : StringMap
mount_only = ("nfsMountAuthentication", "krb5p") ∷ []

abbrev no_flavor : NfsShareOptions
no_flavor = record {
  client_type = "host";
  permission = "readwrite";
  allow_root_access = none;
  authentication = [];
  mount_authentication = "";
  anonymous_uid = none;
  anonymous_gid = none;
  language_encoding = "";
  enable_anonymous_access = none;
  enable_unmapped_access = none;
}

mount_dropped : nfs_options_from_params mount_only ≡ ok no_flavor
unfolding nfs_options parameters lookup to_lower trim_space index non_empty split
mount_dropped = refl

nfs_options_from_params-mount_example : no_flavor.mount_authentication ≡ ""
nfs_options_from_params-mount_example =
    nfs_options_from_params-mount mount_only no_flavor mount_dropped refl

abbrev chap_secrets : StringMap
chap_secrets = ("user", "csi") ∷ ("password", " secret-of-14-b ") ∷ []

abbrev credentials : Credentials
credentials = record { user = "csi"; password = "secret-of-14-b"; configured = true }

accepted : validate_chap_credential_pair chap_secrets "user" "password" ≡ ok credentials
unfolding chap trim_space index contains_func is_control
accepted = refl

validate_chap_credential_pair-AreUsable_example : AreUsable "csi" "secret-of-14-b"
validate_chap_credential_pair-AreUsable_example =
    validate_chap_credential_pair-AreUsable chap_secrets "user" "password" credentials accepted refl

path_accepted : validate_windows_path_param "C:\\disks" true ≡ ok tt
unfolding path_checks trim_space trim_prefix is_ascii_alpha contains replace_char has_suffix
    is_control
path_accepted = refl

validate_windows_path_param-IsSafe_example :
    ((trim_space "C:\\disks" == "") ≡ true × (true ≡ false)) ⊎ IsSafe (trim_space "C:\\disks")
validate_windows_path_param-IsSafe_example =
    validate_windows_path_param-IsSafe "C:\\disks" true path_accepted

portal_accepted : validate_target_portal "10.0.0.5:3260" ≡ ok tt
unfolding path_checks parameters trim_space contains contains_func split_host_port parse_int
portal_accepted = refl

portal_parts : split_host_port (trim_space "10.0.0.5:3260") ≡ some ("10.0.0.5", "3260")
unfolding split_host_port trim_space
portal_parts = refl

validate_target_portal-IsPort_example : ((trim_space "10.0.0.5" == "") ≡ false) × IsPort "3260"
validate_target_portal-IsPort_example =
    validate_target_portal-IsPort "10.0.0.5:3260" "10.0.0.5" "3260" portal_accepted portal_parts

supports_access_mode-advertises_example :
    supports_access_mode_for_protocol
      (new_named_protocol_driver_with_share_backend "driver" nfs vhdx_backend "node"
        "unix:///csi.sock")
      single_node_writer
      nfs
    ≡ advertises
        (new_named_protocol_driver_with_share_backend "driver" nfs vhdx_backend "node"
          "unix:///csi.sock")
        single_node_writer
supports_access_mode-advertises_example =
    supports_access_mode-advertises "driver" nfs vhdx_backend "node" "unix:///csi.sock"
      single_node_writer
