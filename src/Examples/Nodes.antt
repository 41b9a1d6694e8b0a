-- ===== src/Examples/Nodes.antt =====
-- Examples of the node service: a host that does what it is asked, and one that cannot write connectors.
use csi_driver_for_windows_s.Strconv.{format_nat}
use csi_driver_for_windows_s.Controller.Params.{validate_tcp_port}
use csi_driver_for_windows_s.Strconv.{parse_int}
use csi_driver_for_windows_s.Net.{split_host_port}
use csi_driver_for_windows_s.Text.{contains_func}
use csi_driver_for_windows_s.Text.{contains}
use csi_driver_for_windows_s.Prelude.{
  ℕ, ◌+◌, ◌≡◌, refl, arith, true, false, pos, some, none, [], ◌∷◌, Result, ok, err,
}
use csi_driver_for_windows_s.Text.{trim_space}
use csi_driver_for_windows_s.Controller.Paths.{path_checks, validate_target_portal}
use csi_driver_for_windows_s.Exec.{World}
use csi_driver_for_windows_s.Exec.Order.{Rises}
use csi_driver_for_windows_s.Iscsilib.{Connector, Device, scsi_device, leaf, no_secrets}
use csi_driver_for_windows_s.Node.Host.{
  Host, HostCall, HostReply, HostError, HasClock, stat, make_dir_all, create_file, create_new_file,
  sync_file, close_file, remove_file, read_file, write_file, is_likely_not_mount_point, unmount,
  cleanup_mount_point, mount, mount_sensitive, format_and_mount, format_and_mount_sensitive,
  connect, disconnect_volume, disconnect, persist, get_connector_from_file, run_command, fs_usage,
  expand_filesystem,
}
use csi_driver_for_windows_s.Node.Options.{mounted}
use csi_driver_for_windows_s.Node.Contexts.{iscsi_connection_from_contexts}
use csi_driver_for_windows_s.Node.Contexts.Published.{IsReachable, published-connection}
use csi_driver_for_windows_s.Node.Waits.{
  wait_for, path_exists, probe_writable_path, path_wait_delay, staged_filesystem_probe_delay,
}
use csi_driver_for_windows_s.Node.Waits.Ends.{Ends, waits-Ends}
use csi_driver_for_windows_s.Node.Connectors.{stage_connector_file}
use csi_driver_for_windows_s.Node.Requests.{NodeStageVolumeRequest, StageParameters, parse_stage}
use csi_driver_for_windows_s.Node.Stage.{connector_for, node_stage_volume}
use csi_driver_for_windows_s.Node.Stage.Success.{
  IsStaged, CannotKeep, TakesBack, node_stage_volume-IsStaged, node_stage_volume-TakesBack,
}
use csi_driver_for_windows_s.Node.Unstage.{node_unstage_volume}
use csi_driver_for_windows_s.Node.Unstage.Order.{removal_phase, node_unstage_volume-Rises}
use csi_driver_for_windows_s.Controller.Publish.{iscsi_publish_context}
use csi_driver_for_windows_s.Examples.{
  example_ids, example_driver, publish_request, willing, start, data_id,
}
use csi_driver_for_windows_s.Controller.Chap.{chap}
use csi_driver_for_windows_s.VolumeId.Decode.{decoder}
use csi_driver_for_windows_s.Driver.{is_file_share}
use csi_driver_for_windows_s.Node.Contexts.{publish_protocol}
use csi_driver_for_windows_s.Examples.Ids.{data_any, any_data}
use csi_driver_for_windows_s.Examples.Publishes.{published}

abbrev sda : Device
sda = scsi_device "sda" "0:0:0:0" leaf "disk" "iscsi" "1G"

abbrev data_connector : Connector
data_connector = record {
  volume_name = data_id;
  target_iqn = "iqn.1991-05.com.microsoft:data";
  target_portals = "10.0.0.5:3260" ∷ [];
  lun = pos 0;
  auth_type = "";
  discovery_secrets = no_secrets;
  session_secrets = no_secrets;
  interface = "default";
  mount_target_device = some sda;
  devices = sda ∷ [];
  retry_count = 60;
  check_interval = 2;
  do_discovery = true;
  do_chap_discovery = false;
}

abbrev answer : (c : HostCall) → Result HostError (HostReply c)
answer (stat path) = ok false
answer (read_file path) = ok ""
answer (is_likely_not_mount_point path) = ok (record { not_mounted = true; error = none })
answer (connect conn) =
    ok (record { device = "/dev/sda"; connector = record conn { mount_target_device = some sda } })
answer (get_connector_from_file path) = ok data_connector
answer (run_command arguments) = ok "1073741824\n"
answer (fs_usage path) = ok (record {
  available = pos 0;
  capacity = pos 0;
  used = pos 0;
  inodes = pos 0;
  inodes_free = pos 0;
  inodes_used = pos 0;
})
answer (make_dir_all path) = ok tt
answer (create_file path) = ok tt
answer (create_new_file path) = ok tt
answer (sync_file path) = ok tt
answer (close_file path) = ok tt
answer (remove_file path) = ok tt
answer (write_file path text) = ok tt
answer (unmount path) = ok tt
answer (cleanup_mount_point path) = ok tt
answer (mount source target fs_type options) = ok tt
answer (mount_sensitive source target fs_type options sensitive) = ok tt
answer (format_and_mount source target fs_type options) = ok tt
answer (format_and_mount_sensitive source target fs_type options sensitive) = ok tt
answer (disconnect_volume conn) = ok tt
answer (disconnect conn) = ok tt
answer (persist conn path) = ok tt
answer (expand_filesystem path) = ok tt

abbrev full_disk : HostError
full_disk = record { not_exist = false; wraps_not_exist = false; text = "no space left on device" }

-- The state is the clock.
abbrev example_host : Host ℕ
example_host = record { perform = λ c s. (answer c, s + 1); now = λ s. s; sleep = λ n s. s + n }

abbrev answer_full : (c : HostCall) → Result HostError (HostReply c)
answer_full (persist conn path) = err full_disk
answer_full (connect conn) = ok (record { device = "/dev/sda"; connector = conn })
answer_full (make_dir_all path) = ok tt
answer_full c = answer c

abbrev full_host : Host ℕ
full_host = record { perform = λ c s. (answer_full c, s + 1); now = λ s. s; sleep = λ n s. s + n }

example_host-HasClock : HasClock example_host
example_host-HasClock = record { forward = λ c s. omega arith; sleeps = λ n s. omega arith }

abbrev at_start : World HostCall ℕ
at_start = record { state = 0; trace = [] }

abbrev stage_request : NodeStageVolumeRequest
stage_request = record {
  volume_id = data_id;
  staging_target_path = "/var/lib/kubelet/staging/data";
  capability = some (mounted "xfs" ("noatime" ∷ "password=secret" ∷ []));
  publish_context = iscsi_publish_context data_any.legacy;
  volume_context = [];
  secrets = [];
}

waits-Ends_example :
    Ends example_host
      (0 + 1000)
      (wait_for example_host (path_exists example_host "/dev/sdb") path_wait_delay 1000 at_start)
    × Ends example_host (0 + 1000) (
        wait_for example_host
          (probe_writable_path example_host "/dev/sdb")
          staged_filesystem_probe_delay
          1000
          at_start)
waits-Ends_example = waits-Ends example_host example_host-HasClock "/dev/sdb" 1000 at_start

node_unstage_volume-Rises_example :
    Rises removal_phase 0 5 (node_unstage_volume example_host (λ text. none) data_id "/staging")
node_unstage_volume-Rises_example =
    node_unstage_volume-Rises example_host (λ text. none) data_id "/staging"

portal_valid : validate_target_portal "10.0.0.5:3260" ≡ ok tt
unfolding path_checks trim_space contains contains_func split_host_port parse_int validate_tcp_port
portal_valid = refl

data-IsReachable : IsReachable data_any.legacy
unfolding trim_space
data-IsReachable = record {
  portal_trimmed = refl;
  portal_given = refl;
  portal_valid = portal_valid;
  iqn_trimmed = refl;
  iqn_given = refl;
  lun_from_zero = omega arith;
  lun_in_range = omega arith;
}

published-connection_example :
    iscsi_connection_from_contexts example_ids.url data_id
      (iscsi_publish_context data_any.legacy ∷ [] ∷ [])
    ≡ ok (record { portal = "10.0.0.5:3260"; iqn = "iqn.1991-05.com.microsoft:data"; lun = pos 0 })
published-connection_example =
    published-connection willing example_ids example_driver publish_request data_any any_data refl
      data-IsReachable start (iscsi_publish_context data_any.legacy) published example_ids.url
      data_id []

abbrev data_parameters : StageParameters
data_parameters = record {
  connection = record {
    portal = "10.0.0.5:3260";
    iqn = "iqn.1991-05.com.microsoft:data";
    lun = pos 0;
  };
  fs_type = "xfs";
  mount_options = "noatime" ∷ "password=secret" ∷ [];
  interface = "default";
  chap = record {
    discovery = no_secrets;
    session = no_secrets;
    chap_discovery = false;
    auth_type = "";
  };
}

data_parsed :
    parse_stage example_ids.url stage_request (mounted "xfs" ("noatime" ∷ "password=secret" ∷ []))
    ≡ ok data_parameters
unfolding parse_stage path_checks chap decoder parse_int contains split_host_port validate_tcp_port
    format_nat
data_parsed = refl

is_iscsi :
    is_file_share (
      publish_protocol stage_request.publish_context stage_request.volume_context
        stage_request.volume_id)
    ≡ false
unfolding publish_protocol
is_iscsi = refl

staged : (node_stage_volume example_host example_ids.url stage_request at_start).0 ≡ ok tt
unfolding node_stage_volume path_checks chap decoder parse_int contains split_host_port
    validate_tcp_port format_nat
staged = refl

node_stage_volume-IsStaged_example :
    IsStaged example_host
      (connector_for stage_request data_parameters)
      (stage_connector_file stage_request.staging_target_path)
      at_start
      (node_stage_volume example_host example_ids.url stage_request at_start).1
node_stage_volume-IsStaged_example =
    node_stage_volume-IsStaged example_host example_ids.url stage_request
      (mounted "xfs" ("noatime" ∷ "password=secret" ∷ [])) data_parameters refl is_iscsi data_parsed
      at_start staged

data-CannotKeep :
    CannotKeep full_host
      (connector_for stage_request data_parameters)
      (stage_connector_file stage_request.staging_target_path)
      at_start
data-CannotKeep = record {
  done = record { device = "/dev/sda"; connector = connector_for stage_request data_parameters };
  replied = refl;
  has_device = refl;
  made = refl;
  error = full_disk;
  not_kept = refl;
}

node_stage_volume-TakesBack_example :
    TakesBack
      (connector_for stage_request data_parameters)
      (stage_connector_file stage_request.staging_target_path)
      (connector_for stage_request data_parameters)
      at_start
      (node_stage_volume full_host example_ids.url stage_request at_start)
unfolding data-CannotKeep
node_stage_volume-TakesBack_example =
    node_stage_volume-TakesBack full_host example_ids.url stage_request
      (mounted "xfs" ("noatime" ∷ "password=secret" ∷ [])) data_parameters refl is_iscsi data_parsed
      at_start refl refl data-CannotKeep
