-- ===== src/Iscsilib/Connect.antt =====
-- Connecting a volume: `Connect`, `connectTarget` and the waits of pkg/iscsilib/iscsi.go
pub mod Outcome
use Prim.Native.String
use csi_driver_for_windows_s.Prelude.{
  ℕ, zero, suc, nat_eq, Bool, true, false, not, ◌||◌, String, ◌==◌, ℤ, Option, none, some, List, [],
  ◌∷◌, ◌++◌, any, with_error, if◌then◌else◌,
}
use csi_driver_for_windows_s.Text.{is_char, split}
use csi_driver_for_windows_s.Strconv.{format_int}
use csi_driver_for_windows_s.Exec.{pure, fail, lift, unknown, stop_if, ignoring, ◌>>=◌, ◌>>◌}
use csi_driver_for_windows_s.Iscsilib.{Connector, Device, get_path}
use csi_driver_for_windows_s.Iscsilib.Commands.{
  CommandError, CommandResult, PathError, Matches, matched, bad_pattern, Machine, MachineExec, ask,
  iscsi_cmd, need, run, stat_path, glob, sleep_seconds, list_block_devices,
}
use csi_driver_for_windows_s.Iscsilib.Admin.{
  node_args, show_interface, delete_iface, get_sessions, discoverydb, create_db_entry, login,
}
use csi_driver_for_windows_s.Iscsilib.Sessions.{
  IscsiSession, first_part, parse_sessions, is_session, extract_transport_name,
}
use csi_driver_for_windows_s.Iscsilib.Multipath.{
  device_transport, is_mpath, get_mount_target_device, is_multipath_consistent,
}
use csi_driver_for_windows_s.Iscsilib.Disconnect.{remove_scsi_devices}

-- What a look at a path tells: the path, which a pattern is replaced by, that it is missing, or another
-- error.
pub data PathCheck : Type 0 where
  present : (path : String) → PathCheck
  absent failed_check : PathCheck

abbrev check_of_error : PathError → PathCheck
check_of_error e = if e.not_exist then absent else failed_check

abbrev check_of_stat : (path : String) → Option PathError → PathCheck
check_of_stat path none = present path
check_of_stat path (some e) = check_of_error e

abbrev check_of_matches : Matches → PathCheck
check_of_matches (bad_pattern e) = check_of_error e
check_of_matches (matched []) = absent
check_of_matches (matched (path ∷ paths)) = present path

-- The parts of a portal, whose port is 3260 where none is given.
abbrev host_and_port : List String → String × String
host_and_port (host ∷ port ∷ rest) = (host, port)
host_and_port parts = (first_part parts, "3260")

-- The path that a device gets, or the pattern of it where the transport is not TCP.
unfoldable pub device_path_for : (transport portal target_iqn : String) → ℤ → String
unfolding format_int
device_path_for transport portal target_iqn lun =
    let path = String.◌++◌ "ip-" (
      String.◌++◌ portal
        (String.◌++◌ "-iscsi-" (String.◌++◌ target_iqn (String.◌++◌ "-lun-" (format_int lun))))) in
    if transport == "tcp"
    then String.◌++◌ "/dev/disk/by-path/" path
    else String.◌++◌ "/dev/disk/by-path/pci-*-" path

iscsi_devices : List Device → List Device
iscsi_devices [] = []
iscsi_devices (device ∷ devices) =
    let rest = iscsi_devices devices in
    if device_transport device == "iscsi" then device ∷ rest else rest

-- `Connect` returns a path and changes the connector.
pub record ConnectResult : Type 0 where
  pub device : String
  pub connector : Connector

-- The defaults that `Connect` sets.
abbrev with_retries : Connector → Connector
with_retries c = record c {
  retry_count = if nat_eq c.retry_count 0 then 10 else c.retry_count;
  check_interval = if nat_eq c.check_interval 0 then 1 else c.check_interval;
}

abbrev interface_of : Connector → String
interface_of c = if c.interface == "" then "default" else c.interface

abbrev is_empty : {A : Type 0} → List A → Bool
is_empty [] = true
is_empty (a ∷ rest) = false

-- `exitErr.ExitStatus() == 21` says that there is no session.
abbrev has_no_sessions : Option ℕ → Bool
has_no_sessions none = false
has_no_sessions (some n) = nat_eq n 21

module _ {S : Type 0} (m : Machine S) where
  -- `pathExists`
  path_exists : (path transport : String) → MachineExec S PathCheck
  unfolding ask
  path_exists path transport =
      if transport == "tcp"
      then (ask m (stat_path path) >>= λ st. pure (check_of_stat path st))
      else (ask m (glob path) >>= λ found. pure (check_of_matches found))

  -- The end of a round of the wait, with the rounds behind it.
  after_check : MachineExec S String → PathCheck → MachineExec S String
  after_check later (present path) = pure path
  after_check later absent = later
  after_check later failed_check = fail unknown

  -- The rounds behind the first one.
  wait_again : (path transport : String) (interval rounds : ℕ) → MachineExec S String
  unfolding ask path_exists after_check
  wait_again path transport interval zero = fail unknown
  wait_again path transport interval (suc rounds) =
      let later = wait_again path transport interval rounds in
      ask m (sleep_seconds interval) >> path_exists path transport >>= after_check later

  -- `waitForPathToExist`; the answer is the path, which replaces a pattern.
  unfoldable pub wait_for_path_to_exist :
      (path transport : String) (retries interval : ℕ) → MachineExec S String
  unfolding path_exists after_check wait_again
  wait_for_path_to_exist path transport retries interval =
      stop_if (path == "") unknown
      >> path_exists path transport
      >>= after_check (wait_again path transport interval retries)

  -- `getCurrentSessions`; where the reading panics, this fails.
  unfoldable pub get_current_sessions : MachineExec S (List IscsiSession)
  unfolding get_sessions parse_sessions
  get_current_sessions = get_sessions m >>= λ result. elim result.error [
    | none ↦ lift (with_error unknown (parse_sessions result.output))
    | some e ↦ if has_no_sessions e.exit_status then pure [] else fail unknown
  ]

  -- `exists, _ := sessionExists(…)`: an error counts as no session. So does a panic of the reading here,
  -- with which the program of the source ends.
  unfoldable pub session_exists : (portal target_iqn : String) → MachineExec S Bool
  unfolding ignoring get_current_sessions
  session_exists portal target_iqn = ignoring get_current_sessions >>= λ found.
      pure
        (elim found [ none ↦ false | some sessions ↦ any (is_session portal target_iqn) sessions ])

  -- Only a rescan that ran out of time has a consequence, a logout.
  after_rescan : (base_args : List String) → Option CommandError → MachineExec S (Unit {0})
  unfolding ask
  after_rescan base_args none = pure tt
  after_rescan base_args (some e) =
      if e.is_timeout
      then (ask m (run "iscsiadm" (base_args ++ "-u" ∷ [])) >>= need >> pure tt)
      else pure tt

  -- `discoverTarget`
  unfoldable pub discover_target :
      Connector → (target_iqn iface portal : String) → MachineExec S (Unit {0})
  unfolding discoverydb create_db_entry
  discover_target c target_iqn iface portal = do
    if c.do_discovery
        then discoverydb m portal iface c.discovery_secrets c.do_chap_discovery
        else pure tt
    if c.do_chap_discovery || c.session_secrets.secrets_type == "chap"
        then (create_db_entry m target_iqn portal iface c.discovery_secrets c.session_secrets
            >> pure tt)
        else pure tt

  -- The discovery and the login, where there is no session.
  unfoldable pub log_in_to :
      Connector → (target_iqn iface portal : String) → MachineExec S (Unit {0})
  unfolding discover_target login
  log_in_to c target_iqn iface portal =
      discover_target c target_iqn iface portal >> login m target_iqn portal

  -- `connectTarget`
  unfoldable pub connect_target :
      Connector → (target iface transport : String) → MachineExec S String
  unfolding iscsi_cmd after_rescan session_exists log_in_to wait_for_path_to_exist split
      device_path_for
  connect_target c target iface transport = do
    let (host, port) = host_and_port (split (is_char b':') target)
    let base_args = node_args c.target_iqn host
    let portal = String.◌++◌ host (String.◌++◌ ":" port)
    rescan ← iscsi_cmd m (base_args ++ "-R" ∷ [])
    after_rescan base_args rescan.error
    exists ← session_exists portal c.target_iqn
    if exists then pure tt else log_in_to c c.target_iqn iface portal
    wait_for_path_to_exist (device_path_for transport portal c.target_iqn c.lun) transport
        c.retry_count c.check_interval

  -- The loop of `Connect` over the portals: those that fail are passed over.
  connect_portals :
      Connector → (iface transport : String) → List String → MachineExec S (List String)
  unfolding connect_target ignoring
  connect_portals c iface transport [] = pure []
  connect_portals c iface transport (target ∷ targets) = do
    path ← ignoring (connect_target c target iface transport)
    paths ← connect_portals c iface transport targets
    pure (elim path [ none ↦ paths | some p ↦ p ∷ paths ])

  -- `GetISCSIDevices`, and no device without a path
  devices_at : (paths : List String) → MachineExec S (List Device)
  unfolding ask iscsi_devices
  devices_at paths =
      if is_empty paths
      then pure []
      else ask m (list_block_devices paths true) >>= λ listed.
          lift (with_error unknown listed) >>= λ devices. pure (iscsi_devices devices)

  -- No device can be mounted: they are removed, and the error is lost, since it is hidden by the one of the
  -- removal, which is nil.
  give_up : Connector → List Device → MachineExec S ConnectResult
  unfolding remove_scsi_devices
  give_up c devices =
      remove_scsi_devices m devices
      >> pure (record {
        device = "";
        connector = record c { mount_target_device = none; devices = [] };
      })

  connected_device : Connector → List Device → Device → MachineExec S ConnectResult
  unfolding is_multipath_consistent get_path
  connected_device c devices device =
      (if is_mpath device then is_multipath_consistent m device devices else pure tt)
      >> pure (record {
        device = get_path device;
        connector = record c { mount_target_device = some device; devices = devices };
      })

  with_target : Connector → List Device → Option Device → MachineExec S ConnectResult
  unfolding give_up connected_device
  with_target c devices none = give_up c devices
  with_target c devices (some device) = connected_device c devices device

  -- `Connect`
  unfoldable pub connect_volume : Connector → MachineExec S ConnectResult
  unfolding show_interface extract_transport_name connect_portals devices_at delete_iface
      with_target get_mount_target_device
  connect_volume given = do
    let c = with_retries given
    output ← show_interface m (interface_of c) >>= need
    paths ← connect_portals c (interface_of c) (extract_transport_name output) c.target_portals
    devices ← devices_at paths
    if is_empty devices
        then (delete_iface m (interface_of c) >> fail unknown)
        else with_target c devices (get_mount_target_device devices)

-- What a run of `connect_volume` opens.
unfoldable pub connecting : Unit {0}
unfolding connect_volume show_interface extract_transport_name parse_sessions split
connecting = tt
