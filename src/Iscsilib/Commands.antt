-- ===== src/Iscsilib/Commands.antt =====
-- The calls that pkg/iscsilib makes of the machine: commands, paths and the files of devices
use csi_driver_for_windows_s.Prelude.{ℕ, Bool, String, Option, none, some, List, ok}
use csi_driver_for_windows_s.Exec.{Exec, pure, fail, unknown, ◌▷◌}
use csi_driver_for_windows_s.Iscsilib.{Device}

-- The error of a command: its text, whether `os.IsTimeout` holds, and the status with which the command
-- ended, if that is what failed.
pub record CommandError : Type 0 where
  pub text : String
  pub is_timeout : Bool
  pub exit_status : Option ℕ

-- What a command printed, also where it failed.
pub record CommandResult : Type 0 where
  pub output : String
  pub error : Option CommandError

-- The error of a path: whether `os.IsNotExist` holds.
pub record PathError : Type 0 where
  pub not_exist : Bool

-- What `filepath.Glob` finds.
pub data Matches : Type 0 where
  matched : List String → Matches
  bad_pattern : PathError → Matches

-- `run` is a command without a time limit, `run_limited` one with the limit. `list_block_devices` is
-- `lsblk` with the reading of its output, none where it fails. `write_device_file` is
-- `writeInSCSIDeviceFile`.
pub data MachineCall : Type 0 where
  run run_limited : (command : String) (arguments : List String) → MachineCall
  stat_path : (path : String) → MachineCall
  glob : (pattern : String) → MachineCall
  sleep_seconds : ℕ → MachineCall
  list_block_devices : (paths : List String) (strict : Bool) → MachineCall
  write_device_file : (hctl file content : String) → MachineCall

abbrev pub MachineReply : MachineCall → Type 0
MachineReply (run _ _) = CommandResult
MachineReply (run_limited _ _) = CommandResult
MachineReply (stat_path _) = Option PathError
MachineReply (glob _) = Matches
MachineReply (sleep_seconds _) = Unit
MachineReply (list_block_devices _ _) = Option (List Device)
MachineReply (write_device_file _ _ _) = Option PathError

pub record Machine (S : Type 0) : Type 0 where
  pub respond : (c : MachineCall) → S → MachineReply c × S

abbrev pub MachineExec : Type 0 → Type 0 → Type 0
MachineExec S A = Exec MachineCall S A

module _ {S : Type 0} (m : Machine S) where
  unfoldable pub ask : (c : MachineCall) → MachineExec S (MachineReply c)
  ask c w = let (r, s) = m.respond c w.state in (ok r, record { state = s; trace = w.trace ▷ c })

  -- `iscsiCmd`
  unfoldable pub iscsi_cmd : List String → MachineExec S CommandResult
  unfolding ask
  iscsi_cmd arguments = ask (run_limited "iscsiadm" arguments)

-- `if err != nil { return …, err }` behind a command
abbrev pub need : {S : Type 0} → CommandResult → MachineExec S String
need result = elim result.error [ none ↦ pure result.output | some e ↦ fail unknown ]
