-- ===== src/Iscsilib/Disconnect.antt =====
-- Taking a volume and its sessions away: `RemoveSCSIDevices`, `Disconnect` and `DisconnectVolume` of
-- pkg/iscsilib/iscsi.go
pub mod Completeness
use Prim.Native.String
use csi_driver_for_windows_s.Prelude.{
  Bool, true, false, not, ◌||◌, String, ◌==◌, Option, none, some, List, [], ◌∷◌, if◌then◌else◌,
}
use csi_driver_for_windows_s.Text.{trim_space}
use csi_driver_for_windows_s.Exec.{pure, fail, unknown, stop_if, ignoring, ◌>>=◌, ◌>>◌}
use csi_driver_for_windows_s.Iscsilib.{Connector, Device, get_path}
use csi_driver_for_windows_s.Iscsilib.Commands.{
  CommandResult, PathError, Machine, MachineExec, ask, run, stat_path, write_device_file, need,
}
use csi_driver_for_windows_s.Iscsilib.Admin.{logout, delete_db_entry}
use csi_driver_for_windows_s.Iscsilib.Multipath.{
  device_hctl, is_mpath, is_multipath_consistent, flush_multipath_device,
}

-- An error that is kept: one of a missing file is not.
abbrev is_kept_error : Option PathError → Bool
is_kept_error none = false
is_kept_error (some e) = not e.not_exist

abbrev is_written : Option PathError → Bool
is_written none = true
is_written (some e) = false

abbrev has_failed : {A : Type 0} → Option A → Bool
has_failed none = true
has_failed (some a) = false

module _ {S : Type 0} (m : Machine S) where
  -- The device is flushed where it is there.
  flush_device : Device → MachineExec S String
  unfolding ask get_path
  flush_device device = ask m (stat_path (get_path device)) >>= λ st. elim st [
    | none ↦ ask m (run "blockdev" ("--flushbufs" ∷ get_path device ∷ [])) >>= need
    | some e ↦ if e.not_exist then pure "" else fail unknown
  ]

  -- `Shutdown` and then `Delete`, which is left out if the first fails. The answer is whether an error is
  -- kept.
  take_offline : Device → MachineExec S Bool
  unfolding ask
  take_offline device =
      ask m (write_device_file (device_hctl device) "state" "offline\n") >>= λ off.
      if is_written off
      then (ask m (write_device_file (device_hctl device) "delete" "1") >>= λ gone.
          pure (is_kept_error gone))
      else pure (is_kept_error off)

  -- The loop of `RemoveSCSIDevices`; `failed` says whether an error was kept.
  remove_from : (failed : Bool) → List Device → MachineExec S (Unit {0})
  unfolding flush_device take_offline
  remove_from failed [] = stop_if failed unknown
  remove_from failed (device ∷ devices) = do
    flush_device device
    bad ← take_offline device
    remove_from (failed || bad) devices

  -- `RemoveSCSIDevices`
  unfoldable pub remove_scsi_devices : List Device → MachineExec S (Unit {0})
  unfolding remove_from
  remove_scsi_devices devices = remove_from false devices

  -- The loop of `Disconnect` over the portals, and the deletion of the record behind it.
  unfoldable pub disconnect_from :
      (target_iqn : String) (failed : Bool) → List String → MachineExec S (Unit {0})
  unfolding logout delete_db_entry ignoring trim_space
  disconnect_from target_iqn failed [] = do
    deleted ← ignoring (delete_db_entry m target_iqn)
    stop_if (failed || has_failed deleted) unknown
  disconnect_from target_iqn failed (target ∷ targets) =
      let skip = disconnect_from target_iqn failed targets in
      if trim_space target == ""
      then skip
      else ignoring (logout m target_iqn (trim_space target)) >>= λ done.
          disconnect_from target_iqn (failed || has_failed done) targets

  -- `Disconnect`
  unfoldable pub disconnect_target : (target_iqn : String) → List String → MachineExec S (Unit {0})
  unfolding disconnect_from
  disconnect_target target_iqn targets = disconnect_from target_iqn false targets

  volume_devices : Connector → Device → MachineExec S (Unit {0})
  unfolding is_multipath_consistent flush_multipath_device remove_scsi_devices
  volume_devices c device =
      if is_mpath device
      then (do
        is_multipath_consistent m device c.devices
        flush_multipath_device m device
        remove_scsi_devices c.devices)
      else remove_scsi_devices (device ∷ [])

  -- `DisconnectVolume`; a connector without mount target is a nil dereference, which is a failure here.
  unfoldable pub disconnect_volume_devices : Connector → MachineExec S (Unit {0})
  unfolding volume_devices
  disconnect_volume_devices c = elim c.mount_target_device [
    | none ↦ fail unknown
    | some device ↦ volume_devices c device
  ]
