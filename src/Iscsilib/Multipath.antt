-- ===== src/Iscsilib/Multipath.antt =====
-- Multipath devices: pkg/iscsilib/iscsi.go and multipath.go
use csi_driver_for_windows_s.Prelude.{
  Bool, not, ◌||◌, ◌&&◌, String, ◌==◌, ℤ, negsuc, Option, none, some, List, [], ◌∷◌, any, leb_ℤ,
  with_error, if◌then◌else◌,
}
use csi_driver_for_windows_s.Text.{is_char, split}
use csi_driver_for_windows_s.Strconv.{parse_int}
use csi_driver_for_windows_s.Exec.{pure, fail, lift, unknown, stop_if, ◌>>=◌, ◌>>◌}
use csi_driver_for_windows_s.Iscsilib.{Device, Devices, scsi_device, leaf, child, get_path}
use csi_driver_for_windows_s.Iscsilib.Commands.{
  Machine, MachineExec, ask, run, run_limited, stat_path, need,
}

abbrev pub device_name : Device → String
device_name (scsi_device name _ _ _ _ _) = name

abbrev pub device_hctl : Device → String
device_hctl (scsi_device _ hctl _ _ _ _) = hctl

abbrev pub device_children : Device → Devices
device_children (scsi_device _ _ children _ _ _) = children

abbrev pub device_transport : Device → String
device_transport (scsi_device _ _ _ _ transport _) = transport

abbrev pub device_size : Device → String
device_size (scsi_device _ _ _ _ _ size) = size

-- `device.Type == "mpath"`
abbrev pub is_mpath : Device → Bool
is_mpath (scsi_device _ _ _ type _ _) = type == "mpath"

-- The one child of a device.
abbrev only_child : Devices → Option Device
only_child (child device leaf) = some device
only_child _ = none

-- The loop of `getMultipathDevice`, with the device that was found so far.
shared_child : Option Device → List Device → Option Device
shared_child found [] = found
shared_child found (device ∷ devices) = elim (only_child (device_children device)) [
  | none ↦ none
  | some mapped ↦ elim found [
    | none ↦ shared_child (some mapped) devices
    | some before ↦
        if device_name mapped == device_name before
        then shared_child (some mapped) devices
        else none
  ]
]

-- `getMultipathDevice`, none where it returns an error
unfoldable pub get_multipath_device : List Device → Option Device
unfolding shared_child
get_multipath_device devices = elim (shared_child none devices) [
  | none ↦ none
  | some device ↦ if is_mpath device then some device else none
]

-- `getMountTargetDevice` over the devices of a connector
unfoldable pub get_mount_target_device : List Device → Option Device
unfolding get_multipath_device
get_mount_target_device [] = none
get_mount_target_device (device ∷ []) = some device
get_mount_target_device devices = get_multipath_device devices

numbers : List String → Option (List ℤ)
unfolding parse_int
numbers [] = some []
numbers (text ∷ texts) = elim (parse_int text) [
  | none ↦ none
  | some n ↦ elim (numbers texts) [ none ↦ none | some ns ↦ some (n ∷ ns) ]
]

-- `HCTL`: the controller and the number of the unit
unfoldable pub hctl : Device → Option (ℤ × ℤ)
unfolding numbers split
hctl device = elim (numbers (split (is_char b':') (device_hctl device))) [
  | some (hba ∷ channel ∷ target ∷ lun ∷ []) ↦ some (hba, lun)
  | _ ↦ none
]

abbrev same_ℤ : ℤ → ℤ → Bool
same_ℤ a b = leb_ℤ a b && leb_ℤ b a

-- What `IsMultipathConsistent` has seen so far: the number of the unit, -1 before the first, and the
-- controllers in use.
pub record Seen : Type 0 where
  pub lun : ℤ
  pub hbas : List ℤ

-- `string(out[:len(out)-1])`, none where the output is empty and the code panics
without_last : String → Option String
without_last String.[] = none
without_last (String.◌∷◌ c String.[]) = some ""
without_last (String.◌∷◌ c s) = elim (without_last s) [
  | none ↦ none
  | some rest ↦ some (String.◌∷◌ c rest)
]

-- The checks of the address of a device, none where they fail.
seen_after : Seen → Device → Option Seen
unfolding hctl
seen_after seen device = elim (hctl device) [
  | none ↦ none
  | some (hba, lun) ↦
      if (not (same_ℤ seen.lun (negsuc 0)) && not (same_ℤ lun seen.lun))
        || any (same_ℤ hba) seen.hbas
      then none
      else some (record {
        lun = if same_ℤ seen.lun (negsuc 0) then lun else seen.lun;
        hbas = hba ∷ seen.hbas;
      })
]

module _ {S : Type 0} (m : Machine S) where
  -- `WWID`; a command without output makes the code panic, which is a failure here.
  unfoldable pub wwid : Device → MachineExec S String
  unfolding ask get_path without_last
  wwid device = do
    output ← ask m (run_limited "scsi_id" ("-g" ∷ "-u" ∷ get_path device ∷ [])) >>= need
    lift (with_error unknown (without_last output))

  -- The loop of `IsMultipathConsistent`.
  consistent_from : (reference : Device) → Seen → List Device → MachineExec S (Unit {0})
  unfolding seen_after wwid
  consistent_from reference seen [] = pure tt
  consistent_from reference seen (device ∷ devices) = do
    stop_if (not (device_size device == device_size reference)) unknown
    next ← if is_mpath device then pure seen else lift (with_error unknown (seen_after seen device))
    id ← wwid device
    stop_if (not (id == device_name reference)) unknown
    consistent_from reference next devices

  -- `IsMultipathConsistent`, with the mount target device in front of the devices
  unfoldable pub is_multipath_consistent :
      (mount_target : Device) → List Device → MachineExec S (Unit {0})
  unfolding consistent_from
  is_multipath_consistent mount_target devices =
      consistent_from mount_target (record { lun = negsuc 0; hbas = [] }) (mount_target ∷ devices)

  -- `FlushMultipathDevice`
  unfoldable pub flush_multipath_device : Device → MachineExec S (Unit {0})
  unfolding ask get_path
  flush_multipath_device device =
      ask m (run_limited "multipath" ("-f" ∷ get_path device ∷ [])) >>= λ result.
      elim result.error [
        | none ↦ pure tt
        | some e ↦ ask m (stat_path (get_path device)) >>= λ st. elim st [
          | none ↦ fail unknown
          | some e' ↦ stop_if (not e'.not_exist) unknown
        ]
      ]

  -- `ResizeMultipathDevice`
  unfoldable pub resize_multipath_device : Device → MachineExec S String
  unfolding ask
  resize_multipath_device device =
      ask m (run "multipathd" ("resize" ∷ "map" ∷ device_name device ∷ [])) >>= need
