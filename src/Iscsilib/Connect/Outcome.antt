-- ===== src/Iscsilib/Connect/Outcome.antt =====
-- What `Connect` of pkg/iscsilib/iscsi.go returns without an error.
use csi_driver_for_windows_s.Prelude.{
  ◌≡◌, refl, ok, ◌⊎◌, inl, inr, Option, none, some, List, [], if◌then◌else◌,
}
use csi_driver_for_windows_s.Exec.{World, pure, unknown, ◌>>=◌}
use csi_driver_for_windows_s.Exec.Trace.{Yields, Yields-bind, Yields-pure, Yields-fail, Yields-if}
use csi_driver_for_windows_s.Iscsilib.{Connector, Device, get_path}
use csi_driver_for_windows_s.Iscsilib.Commands.{Machine, MachineCall, need}
use csi_driver_for_windows_s.Iscsilib.Admin.{show_interface, delete_iface}
use csi_driver_for_windows_s.Iscsilib.Sessions.{extract_transport_name}
use csi_driver_for_windows_s.Iscsilib.Multipath.{
  get_mount_target_device, is_mpath, is_multipath_consistent,
}
use csi_driver_for_windows_s.Iscsilib.Disconnect.{remove_scsi_devices}
use csi_driver_for_windows_s.Iscsilib.Connect.{
  ConnectResult, with_retries, interface_of, is_empty, connect_portals, devices_at, give_up,
  connected_device, with_target, connect_volume,
}

-- The path is that of the mount target of the connector, which is the one among its devices.
pub record IsReady (r : ConnectResult) : Type 0 where
  pub device : Device
  pub is_target : r.connector.mount_target_device ≡ some device
  pub is_among : get_mount_target_device r.connector.devices ≡ some device
  pub is_path : r.device ≡ get_path device

-- There is no path, and the connector has neither a mount target nor devices.
pub record IsEmpty (r : ConnectResult) : Type 0 where
  pub no_path : r.device ≡ ""
  pub no_target : r.connector.mount_target_device ≡ none
  pub no_devices : r.connector.devices ≡ []

abbrev pub IsOutcome : ConnectResult → Type 0
IsOutcome r = IsReady r ⊎ IsEmpty r

module _ {S : Type 0} (m : Machine S) (c : Connector) where
  give_up-IsOutcome : (devices : List Device) → Yields {S = S} IsOutcome (give_up m c devices)
  unfolding give_up
  give_up-IsOutcome devices =
      Yields-bind (remove_scsi_devices m devices)
        λ _. Yields-pure _ (inr (record { no_path = refl; no_target = refl; no_devices = refl }))

  connected_device-IsOutcome :
      (devices : List Device) (device : Device)
      → get_mount_target_device devices ≡ some device
      → Yields IsOutcome (connected_device m c devices device)
  unfolding connected_device
  connected_device-IsOutcome devices device h =
      Yields-bind (if is_mpath device then is_multipath_consistent m device devices else pure tt)
        λ _.
          Yields-pure _
            (inl (record { device = device; is_target = refl; is_among = h; is_path = refl }))

  with_target-IsOutcome :
      (devices : List Device) (o : Option Device)
      → get_mount_target_device devices ≡ o
      → Yields IsOutcome (with_target m c devices o)
  unfolding with_target
  with_target-IsOutcome devices none h = give_up-IsOutcome devices
  with_target-IsOutcome devices (some device) h = connected_device-IsOutcome devices device h

module _ {S : Type 0} (m : Machine S) where
  connect-Yields : (given : Connector) → Yields IsOutcome (connect_volume m given)
  unfolding connect_volume
  connect-Yields given =
      let c = with_retries given in
      Yields-bind (show_interface m (interface_of c) >>= need) λ output.
        Yields-bind
          (connect_portals m c (interface_of c) (extract_transport_name output) c.target_portals)
          λ paths. Yields-bind (devices_at m paths) λ devices.
            Yields-if (is_empty devices)
              (Yields-bind (delete_iface m (interface_of c)) λ _. Yields-fail unknown)
              (with_target-IsOutcome m c devices (get_mount_target_device devices) refl)

  -- If `Connect` returns no error, then its path is that of the mount target of the connector, which is the
  -- one device or the multipath device of all devices; or the path is empty, and the connector has neither
  -- mount target nor devices.
  pub connect_volume-IsOutcome :
      (given : Connector) (w : World MachineCall S) (r : ConnectResult)
      → (connect_volume m given w).0 ≡ ok r
      → IsOutcome r
  connect_volume-IsOutcome given w r done = (connect-Yields given).yield w r done
