-- ===== src/Examples/Initiators.antt =====
-- Examples of the initiator library: a machine where every command ends well, and one disk is found.
use csi_driver_for_windows_s.Prelude.{
  ℕ, suc, ◌≡◌, refl, true, false, pos, some, none, List, String, [], ◌∷◌, ◌++◌, ok,
}
use csi_driver_for_windows_s.Strconv.{format_nat}
use csi_driver_for_windows_s.Exec.{World}
use csi_driver_for_windows_s.Iscsilib.{Connector, Device, scsi_device, leaf, no_secrets, get_path}
use csi_driver_for_windows_s.Filepath.{join_path}
use csi_driver_for_windows_s.Iscsilib.Commands.{
  CommandResult, Machine, MachineCall, MachineReply, matched, run, run_limited, stat_path, glob,
  sleep_seconds, list_block_devices, write_device_file,
}
use csi_driver_for_windows_s.Iscsilib.Disconnect.{disconnect_target}
use csi_driver_for_windows_s.Iscsilib.Disconnect.Completeness.{removals, disconnect_target-removals}
use csi_driver_for_windows_s.Iscsilib.Connect.{ConnectResult, connect_volume, connecting}
use csi_driver_for_windows_s.Iscsilib.Connect.Outcome.{IsOutcome, connect_volume-IsOutcome}

abbrev disk_a : Device
disk_a = scsi_device "sda" "0:0:0:0" leaf "disk" "iscsi" "1G"

abbrev printed : String → CommandResult
printed text = record { output = text; error = none }

abbrev machine_answer : (c : MachineCall) → MachineReply c
machine_answer (run _ _) = printed ""
machine_answer (run_limited _ _) = printed "iface.transport_name = tcp\n"
machine_answer (stat_path _) = none
machine_answer (glob _) = matched []
machine_answer (sleep_seconds _) = tt
machine_answer (list_block_devices _ _) = some (disk_a ∷ [])
machine_answer (write_device_file _ _ _) = none

abbrev machine : Machine ℕ
machine = record { respond = λ c s. (machine_answer c, suc s) }

abbrev fresh : World MachineCall ℕ
fresh = record { state = 0; trace = [] }

abbrev connector_a : Connector
connector_a = record {
  volume_name = "data";
  target_iqn = "iqn.1991-05.com.microsoft:data";
  target_portals = "10.0.0.5:3260" ∷ [];
  lun = pos 0;
  auth_type = "";
  discovery_secrets = no_secrets;
  session_secrets = no_secrets;
  interface = "";
  mount_target_device = none;
  devices = [];
  retry_count = 2;
  check_interval = 1;
  do_discovery = true;
  do_chap_discovery = false;
}

abbrev connected_a : ConnectResult
unfolding get_path join_path
connected_a = record {
  device = "/dev/sda";
  connector = record connector_a { mount_target_device = some disk_a; devices = disk_a ∷ [] };
}

connected-run : (connect_volume machine connector_a fresh).0 ≡ ok connected_a
unfolding connecting format_nat
connected-run = refl

connect_volume-IsOutcome_example : IsOutcome connected_a
connect_volume-IsOutcome_example =
    connect_volume-IsOutcome machine connector_a fresh connected_a connected-run

abbrev two_portals : List String
two_portals = "10.0.0.5:3260" ∷ " " ∷ "10.0.0.6:3260" ∷ []

disconnect_target-removals_example :
    (disconnect_target machine "iqn.1991-05.com.microsoft:data" two_portals fresh).1.trace
    ≡ fresh.trace ++ removals "iqn.1991-05.com.microsoft:data" two_portals
disconnect_target-removals_example =
    disconnect_target-removals machine "iqn.1991-05.com.microsoft:data" two_portals fresh
